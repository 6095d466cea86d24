-- ===== src/Shared/OrderStatus/Lifecycle.antt =====
-- The transition table against the documented life of an order.
use tailor_erp.Prelude.{◌≡◌, ◌↔◌, refl, true, List, [], ◌∷◌, any, All}
use tailor_erp.Shared.OrderStatus.{
  Status, pending, cutting, sewing, fitting, ready, delivered, cancelled, same_status,
  can_transition,
}

-- An order that is neither delivered nor cancelled.
pub data IsOpen : Status → Type 0 where
  open_pending : IsOpen pending
  open_cutting : IsOpen cutting
  open_sewing : IsOpen sewing
  open_fitting : IsOpen fitting
  open_ready : IsOpen ready

-- pending → cutting → sewing → fitting → ready → delivered, back from fitting to sewing, and cancelled
-- from anywhere but the end.
pub data Step : Status → Status → Type 0 where
  cut : Step pending cutting
  sew : Step cutting sewing
  fit : Step sewing fitting
  finish : Step fitting ready
  rework : Step fitting sewing
  hand_over : Step ready delivered
  cancel : {s : Status} → IsOpen s → Step s cancelled

Step-sound : {a b : Status} → Step a b → can_transition a b ≡ true
unfolding can_transition
Step-sound cut = refl
Step-sound sew = refl
Step-sound fit = refl
Step-sound finish = refl
Step-sound rework = refl
Step-sound hand_over = refl
Step-sound (cancel open_pending) = refl
Step-sound (cancel open_cutting) = refl
Step-sound (cancel open_sewing) = refl
Step-sound (cancel open_fitting) = refl
Step-sound (cancel open_ready) = refl

Step-complete : (a b : Status) → can_transition a b ≡ true → Step a b
unfolding can_transition
Step-complete pending cutting h = cut
Step-complete pending cancelled h = cancel open_pending
Step-complete cutting sewing h = sew
Step-complete cutting cancelled h = cancel open_cutting
Step-complete sewing fitting h = fit
Step-complete sewing cancelled h = cancel open_sewing
Step-complete fitting ready h = finish
Step-complete fitting sewing h = rework
Step-complete fitting cancelled h = cancel open_fitting
Step-complete ready delivered h = hand_over
Step-complete ready cancelled h = cancel open_ready
Step-complete _ _ h = absurd (cc)

-- The transition table allows exactly the steps of the documented life of an order.
pub can_transition_iff : (a b : Status) → (can_transition a b ≡ true) ↔ Step a b
can_transition_iff a b = (Step-complete a b, Step-sound)

-- A sequence of allowed changes, with the statuses it goes through.
pub data Trace : List Status → Status → Type 0 where
  start : Trace (pending ∷ []) pending
  step :
      {seen : List Status} {a b : Status}
      → Trace seen a
      → can_transition a b ≡ true
      → Trace (b ∷ seen) b

-- The stages that an order in this status has gone through.
abbrev pub stages : Status → List Status
stages pending = pending ∷ []
stages cutting = cutting ∷ pending ∷ []
stages sewing = sewing ∷ cutting ∷ pending ∷ []
stages fitting = fitting ∷ sewing ∷ cutting ∷ pending ∷ []
stages ready = ready ∷ fitting ∷ sewing ∷ cutting ∷ pending ∷ []
stages delivered = delivered ∷ ready ∷ fitting ∷ sewing ∷ cutting ∷ pending ∷ []
stages cancelled = cancelled ∷ []

abbrev pub Seen : List Status → Status → Type 0
Seen seen s = any (λ t. same_status s t) seen ≡ true

Step-stages :
    (seen : List Status) {a b : Status}
    → Step a b
    → All (Seen seen) (stages a)
    → All (Seen (b ∷ seen)) (stages b)
Step-stages seen cut h = (refl, h)
Step-stages seen sew h = (refl, h)
Step-stages seen fit h = (refl, h)
Step-stages seen finish h = (refl, h)
Step-stages seen rework h = (refl, h.1.1)
Step-stages seen hand_over h = (refl, h)
Step-stages seen (cancel o) h = (refl, tt)

-- Along changes that the transition table allows, from `pending`, no stage is skipped: a sequence of
-- such changes that has reached a status has gone through each of the stages before it, so one that
-- has reached `delivered` has gone through cutting, sewing, fitting and ready.
pub Trace-stages : {seen : List Status} {s : Status} → Trace seen s → All (Seen seen) (stages s)
Trace-stages start = (refl, tt)
Trace-stages (step {seen} {a} {b} t h) = Step-stages seen (Step-complete a b h) (Trace-stages t)
