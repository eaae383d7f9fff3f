-- ===== src/Commerce/Order/Lifecycle.antt =====
-- What the life of an order promises: templates/commerce/internal/order/state.go.
use jiade.Prelude.{
  ◌≡◌, Bool, true, false, ◌&&◌, ◌||◌, str_eq, ◌⊎◌, refl, none, List, [], ◌∷◌, arith,
}
use jiade.Commerce.Order.State.{
  State, Event, new, pending, confirmed, cancelled, completed, checkout_started, payment_succeeded,
  payment_failed, cancellation_requested, fulfillment_completed, transition,
}

-- The state after events in the order of their delivery; one that is refused changes nothing.
unfoldable pub run : State → List Event → State
run s [] = s
run s (e ∷ es) = run (transition s e).0 es

abbrev eq_event : Event → Event → Bool
eq_event checkout_started checkout_started = true
eq_event payment_succeeded payment_succeeded = true
eq_event payment_failed payment_failed = true
eq_event cancellation_requested cancellation_requested = true
eq_event fulfillment_completed fulfillment_completed = true
eq_event (Event.other x) (Event.other y) = str_eq x y
eq_event _ _ = false

-- An event is in a list.
abbrev pub occurs : Event → List Event → Bool
occurs e [] = false
occurs e (x ∷ xs) = eq_event x e || occurs e xs

-- An event that was accepted may be delivered again: it is accepted and changes nothing.
pub transition_again :
    (s t : State) (e : Event) → transition s e ≡ (t, none) → transition t e ≡ (t, none)
unfolding transition
transition_again s t e h = ground arith

-- What a state lacks before an order is completed.
abbrev needs : State → List Event → Bool
needs new es =
    occurs checkout_started es && (occurs payment_succeeded es && occurs fulfillment_completed es)
needs pending es = occurs payment_succeeded es && occurs fulfillment_completed es
needs confirmed es = occurs fulfillment_completed es
needs completed es = true
needs _ es = false

needs-transition :
    (s : State) (e : Event) (es : List Event)
    → needs (transition s e).0 es ≡ true
    → needs s (e ∷ es) ≡ true
unfolding transition
needs-transition s e es h = ground arith

needs-run : (s : State) (es : List Event) → run s es ≡ completed → needs s es ≡ true
unfolding run
needs-run s [] h = ground arith
needs-run s (e ∷ es) h = needs-transition s e es (needs-run (transition s e).0 es h)

and_left : (a b : Bool) → (a && b) ≡ true → (a ≡ true) × (b ≡ true)
and_left a b h = (ground arith, ground arith)

-- An order that is new and ends up completed has seen its checkout, a successful payment and its
-- fulfillment, whatever else was delivered and in whatever order.
pub completed_was_paid :
    (es : List Event)
    → run new es ≡ completed
    → (occurs checkout_started es ≡ true)
      × (occurs payment_succeeded es ≡ true)
      × (occurs fulfillment_completed es ≡ true)
completed_was_paid es h =
    let (started, rest) = and_left _ _ (needs-run new es h) in
    let (paid, shipped) = and_left _ _ rest in (started, paid, shipped)

final_stays : (s : State) (e : Event) → (s ≡ cancelled) ⊎ (s ≡ completed) → (transition s e).0 ≡ s
unfolding transition
final_stays s e h = ground arith

-- A cancelled or completed order stays so, whatever is delivered later.
pub final_absorbs : (s : State) (es : List Event) → (s ≡ cancelled) ⊎ (s ≡ completed) → run s es ≡ s
unfolding run
final_absorbs s [] h = refl
final_absorbs s (e ∷ es) h = rw (final_stays s e h) (final_absorbs s es h)
