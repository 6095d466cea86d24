-- ===== src/Shared/OrderStatus/Tests.antt =====
-- A concrete life of an order.
use tailor_erp.Prelude.{◌≡◌, ◌↔◌, refl, true, [], ◌∷◌, All}
use tailor_erp.Shared.OrderStatus.{pending, cutting, sewing, fitting, can_transition}
use tailor_erp.Shared.OrderStatus.Lifecycle.{
  Step, can_transition_iff, Trace, start, step, stages, Seen, Trace-stages,
}

fitting_steps : (can_transition fitting sewing ≡ true) ↔ Step fitting sewing
fitting_steps = can_transition_iff fitting sewing

-- Cut, sewn, fitted, and back to sewing.
reworked : Trace (sewing ∷ fitting ∷ sewing ∷ cutting ∷ pending ∷ []) sewing
unfolding can_transition
reworked = step (step (step (step start refl) refl) refl) refl

Trace-stages_example :
    All (Seen (sewing ∷ fitting ∷ sewing ∷ cutting ∷ pending ∷ [])) (stages sewing)
Trace-stages_example = Trace-stages reworked
