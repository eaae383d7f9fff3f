-- ===== src/Commerce/Inventory/Service/Ended.antt =====
-- Orders that have ended in templates/commerce/internal/inventory/store.go.
use jiade.Prelude.{
  ℕ, ◌≡◌, refl, String, none, some, List, [], ◌∷◌, str_eq, eq_iff, if◌then◌else◌, Bool-cases, inl,
  inr, All,
}
use jiade.Commerce.Inventory.Model.{ReservationEvent}
use jiade.Commerce.Inventory.Model.{ReservationEvent}
use jiade.Commerce.Inventory.Store.Facts.{NoneActive}
use jiade.Commerce.Inventory.Store.Rows.{
  order_terminal, ok, err, Tables, Names, allocations_of_order, existing_allocations,
  terminal_order_state,
}
use jiade.Commerce.Inventory.Store.Reserve.{ReserveCommand, reserve_order}
use jiade.Commerce.Inventory.Store.Transition.{eq_event, transition_order}
use jiade.Commerce.Inventory.Service.{Texts}
use jiade.Commerce.Inventory.Store.Kept.{IsConsistent}
use jiade.Commerce.Inventory.Service.History.{
  Call, answer, answer_all, IsTyped, IsEmptied, Changes, answer-Changes, answer_all-IsEmptied,
}

ended_once :
    (order : String) (e : ReservationEvent) (t t' : Tables)
    → Changes t t'
    → terminal_order_state order t.terminal ≡ some e
    → terminal_order_state order t'.terminal ≡ some e
unfolding terminal_order_state
ended_once order e t t' (c, inl same, emptied) h = rw same h
ended_once order e t t' (c, inr (o, event, unended, ends), emptied) h =
    elim (Bool-cases (str_eq o order)) [
      | inl z ↦
          let same : o ≡ order = (eq_iff o order).0 z in
          let gone : terminal_order_state order t.terminal ≡ none = rw same at unended in
          absurd (cc)
      | inr z ↦ rw (ends, z) h
    ]

ended_all :
    (texts : Texts) (names : Names) (calls : List Call) (order : String) (e : ReservationEvent)
    (t : Tables)
    → IsConsistent t
    → All IsTyped calls
    → terminal_order_state order t.terminal ≡ some e
    → terminal_order_state order (answer_all texts names calls t).terminal ≡ some e
unfolding answer_all
ended_all texts names [] order e t c i h = h
ended_all texts names (call ∷ rest) order e t c i h =
    let changed = answer-Changes texts names call t c (i.0) in
    ended_all texts names rest order e (answer texts names call t) (changed.0) (i.1)
      (ended_once order e t _ changed h)

transition_ended :
    (names : Names) (order : String) (e event : ReservationEvent) (now : ℕ) (t : Tables)
    → terminal_order_state order t.terminal ≡ some e
    → transition_order names order event now t ≡ (
        if eq_event e event
        then ok (t, allocations_of_order order t.reservations)
        else err order_terminal)
unfolding transition_order
transition_ended names order e event now t h = rw (transition_order, h) refl

reserve_ended :
    (names : Names) (command : ReserveCommand) (e : ReservationEvent) (t : Tables)
    → terminal_order_state command.order_id t.terminal ≡ some e
    → existing_allocations names (names.key_prefix command.idempotency_key) t.reservations ≡ []
    → reserve_order names command t ≡ err order_terminal
unfolding reserve_order
reserve_ended names command e t h none_yet = rw (reserve_order, none_yet, h) refl

-- From tables that agree, where orders that have ended have no active reservation, an order that
-- has ended by an event stays ended by it, whatever typed calls follow, and has no active
-- reservation. After the calls the same event again changes nothing and gives the allocations as
-- they stand, any other event is refused as `order_terminal`, and so is a `Reserve` for the order
-- under a key that has no reservations then.
pub ended_stays :
    (texts : Texts) (names : Names) (calls : List Call) (command : ReserveCommand)
    (e event : ReservationEvent) (now : ℕ) (t : Tables)
    → IsConsistent t
    → IsEmptied t
    → All IsTyped calls
    → terminal_order_state command.order_id t.terminal ≡ some e
    → existing_allocations names
        (names.key_prefix command.idempotency_key)
        (answer_all texts names calls t).reservations
      ≡ []
    → (terminal_order_state command.order_id (answer_all texts names calls t).terminal ≡ some e)
      × NoneActive command.order_id (answer_all texts names calls t).reservations
      × (transition_order names command.order_id event now (answer_all texts names calls t) ≡ (
          if eq_event e event
          then ok (
            answer_all texts names calls t,
            allocations_of_order command.order_id (answer_all texts names calls t).reservations,
          )
          else err order_terminal))
      × (reserve_order names command (answer_all texts names calls t) ≡ err order_terminal)
ended_stays texts names calls command e event now t c k i h none_yet =
    let still = ended_all texts names calls command.order_id e t c i h in
    (
      still,
      answer_all-IsEmptied texts names calls t c i k command.order_id e still,
      transition_ended names command.order_id e event now (answer_all texts names calls t) still,
      reserve_ended names command e (answer_all texts names calls t) still none_yet,
    )
