-- ===== src/Commerce/Payment.antt =====
-- The life of a payment intent: templates/commerce/internal/payment/state.go.
use jiade.Prelude.{
  ℕ, ◌+◌, ◌≤◌, ◌<◌, ◌≡◌, refl, inl, inr, ◌⊎◌, String, Bool, true, false, ◌||◌, ◌&&◌, Option, none,
  some, List, [], ◌∷◌, arith, if◌then◌else◌,
}
mod Tests

-- `other` is a text that is none of the constants.
pub data State : Type 0 where
  requires_method processing authorized succeeded : State
  failed cancelled partially_refunded refunded : State
  other : String → State

pub data Event : Type 0 where
  method_attached authorize capture fail cancel partial_refund refund : Event
  other : String → Event

unfoldable pub duplicate_payment_event : State → Event → Bool
duplicate_payment_event processing method_attached = true
duplicate_payment_event authorized authorize = true
duplicate_payment_event succeeded capture = true
duplicate_payment_event partially_refunded capture = true
duplicate_payment_event refunded capture = true
duplicate_payment_event failed fail = true
duplicate_payment_event cancelled cancel = true
duplicate_payment_event partially_refunded partial_refund = true
duplicate_payment_event refunded partial_refund = true
duplicate_payment_event refunded refund = true
duplicate_payment_event state event = false

-- The cases of the switch; `none` is its default.
unfoldable pub next_state : State → Event → Option State
next_state requires_method method_attached = some processing
next_state processing authorize = some authorized
next_state authorized capture = some succeeded
next_state processing fail = some failed
next_state requires_method cancel = some cancelled
next_state processing cancel = some cancelled
next_state authorized cancel = some cancelled
next_state succeeded partial_refund = some partially_refunded
next_state succeeded refund = some refunded
next_state partially_refunded refund = some refunded
next_state from event = none

-- The state, and whether there was no error.
abbrev advanced : State → Option State → State × Bool
advanced from none = (from, false)
advanced from (some to) = (to, true)

unfoldable pub transition : State → Event → State × Bool
unfolding duplicate_payment_event next_state
transition from event =
    if duplicate_payment_event from event
    then (from, true)
    else advanced from (next_state from event)

-- The events of an intent, one after the other; an error leaves the state.
unfoldable pub run : State → List Event → State
run from [] = from
run from (event ∷ rest) = run (transition from event).0 rest

-- How far an intent has come.
unfoldable pub rank : State → ℕ
rank requires_method = 0
rank processing = 1
rank authorized = 2
rank succeeded = 3
rank partially_refunded = 4
rank refunded = 5
rank failed = 6
rank cancelled = 6
rank (State.other _) = 0

transition-advances :
    (from : State) (event : Event)
    → ((transition from event).0 ≡ from) ⊎ (rank from < rank (transition from event).0)
unfolding transition rank
transition-advances from event = ground arith

further :
    (from : State) (event : Event) (rest : List Event)
    → ((transition from event).0 ≡ from) ⊎ (rank from < rank (transition from event).0)
    → (run from rest ≡ from) ⊎ (rank from < rank (run from rest))
    → (run (transition from event).0 rest ≡ (transition from event).0)
      ⊎ (rank (transition from event).0 < rank (run (transition from event).0 rest))
    → (run (transition from event).0 rest ≡ from)
      ⊎ (rank from < rank (run (transition from event).0 rest))
further from event rest (inl e) stay h = rw e stay
further from event rest (inr less) stay (inl e) = rw e (inr less)
further from event rest (inr less) stay (inr more) = inr (omega arith)

-- Events, whatever their order and number, leave an intent as it is or bring it further, never back,
-- in the order requires_method, processing, authorized, succeeded, partially_refunded, refunded, and
-- last, level with each other, failed and cancelled.
pub run-advances :
    (from : State) (events : List Event)
    → (run from events ≡ from) ⊎ (rank from < rank (run from events))
unfolding run
run-advances from [] = inl refl
run-advances from (event ∷ rest) =
    further from event rest (transition-advances from event) (run-advances from rest)
      (run-advances (transition from event).0 rest)
