-- ===== src/Commerce/Order/State.antt =====
-- The life of an order: templates/commerce/internal/order/state.go.
use jiade.Prelude.{String, Bool, true, false, Option, none, some, if◌then◌else◌}

pub data TransitionError : Type 0 where
  invalid_transition : TransitionError

-- A state and an event are texts in Go: `other` is any text but those named.
pub data State : Type 0 where
  new pending confirmed cancelled completed : State
  other : String → State

pub data Event : Type 0 where
  checkout_started payment_succeeded payment_failed : Event
  cancellation_requested fulfillment_completed : Event
  other : String → Event

unfoldable pub duplicate_order_event : State → Event → Bool
duplicate_order_event pending checkout_started = true
duplicate_order_event confirmed payment_succeeded = true
duplicate_order_event completed payment_succeeded = true
duplicate_order_event cancelled payment_failed = true
duplicate_order_event cancelled cancellation_requested = true
duplicate_order_event completed fulfillment_completed = true
duplicate_order_event _ _ = false

-- The `switch` of `Transition`.
unfoldable pub first_event : State → Event → State × Option TransitionError
first_event new checkout_started = (pending, none)
first_event pending payment_succeeded = (confirmed, none)
first_event pending payment_failed = (cancelled, none)
first_event pending cancellation_requested = (cancelled, none)
first_event confirmed cancellation_requested = (cancelled, none)
first_event confirmed fulfillment_completed = (completed, none)
first_event from _ = (from, some invalid_transition)

unfoldable pub transition : State → Event → State × Option TransitionError
unfolding duplicate_order_event first_event
transition from event =
    if duplicate_order_event from event then (from, none) else first_event from event
