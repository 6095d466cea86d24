-- ===== src/Shared/OrderStatus.antt =====
-- packages/shared/src/order-status.ts: the life of an order.
pub mod Lifecycle
mod Tests
use tailor_erp.Prelude.{ℕ, Bool, List, [], ◌∷◌, ◌==◌, any}

pub data Status : Type 0 where
  pending cutting sewing fitting ready delivered cancelled : Status

abbrev pub status_number : Status → ℕ
status_number pending = 0
status_number cutting = 1
status_number sewing = 2
status_number fitting = 3
status_number ready = 4
status_number delivered = 5
status_number cancelled = 6

abbrev pub same_status : Status → Status → Bool
same_status a b = status_number a == status_number b

-- ORDER_STATUS_TRANSITIONS
unfoldable pub transitions : Status → List Status
transitions pending = cutting ∷ cancelled ∷ []
transitions cutting = sewing ∷ cancelled ∷ []
transitions sewing = fitting ∷ cancelled ∷ []
transitions fitting = ready ∷ sewing ∷ cancelled ∷ []
transitions ready = delivered ∷ cancelled ∷ []
transitions delivered = []
transitions cancelled = []

-- canTransition
unfoldable pub can_transition : Status → Status → Bool
unfolding transitions
can_transition from to = any (same_status to) (transitions from)
