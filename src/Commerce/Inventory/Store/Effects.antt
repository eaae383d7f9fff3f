-- ===== src/Commerce/Inventory/Store/Effects.antt =====
-- What a round of `TransitionOrder` of templates/commerce/internal/inventory/store.go does.
use jiade.Prelude.{◌≡◌, refl, ap, false, Option, none, some, Option-cases, inl, inr, arith}
use jiade.Prelude.Int.{◌-ℤ◌}
use jiade.Commerce.Inventory.Model.{
  Error, Level, ReservationState, active, ReservationEvent, commit, release, expire, Reservation,
  eq_state, reservation_target, apply_reservation_effect, release_stock, expire_stock, commit_stock,
}
use jiade.Commerce.Inventory.Levels.{
  IsValid, effect_of_active, Takes, apply_reservation_effect-IsValid,
}
use jiade.Commerce.Inventory.Store.Rows.{Outcome, ok}
use jiade.Commerce.Inventory.Store.Reserve.{checked}
use jiade.Commerce.Inventory.Store.Transition.{apply_reservation_transition}
use jiade.Commerce.Inventory.Store.Facts.{checked_ok}

-- What the level operation of an event does to an active reservation.
pub record IsMoved (level next : Level) (r r' : Reservation) : Type 0 where
  pub same_id : r'.id ≡ r.id
  pub left : eq_state r'.state active ≡ false
  pub taken : next.reserved ≡ level.reserved -ℤ r.quantity
  pub valid : IsValid next

effect-Takes :
    (level : Level) (r : Reservation) (event : ReservationEvent)
    → r.state ≡ active
    → (apply_reservation_effect level r event).2 ≡ none
    → Takes level r event
unfolding apply_reservation_effect
effect-Takes level r event a h = ground arith

target-left :
    (event : ReservationEvent) (target : ReservationState)
    → reservation_target event ≡ some target
    → eq_state target active ≡ false
unfolding reservation_target
target-left event target h = ground arith

effect-IsMoved :
    (level next : Level) (r r' : Reservation) (event : ReservationEvent)
    → r.state ≡ active
    → IsValid level
    → (apply_reservation_effect level r event).2 ≡ none
    → (apply_reservation_effect level r event).0 ≡ next
    → (apply_reservation_effect level r event).1 ≡ r'
    → IsMoved level next r r'
effect-IsMoved level next r r' event a v h e f =
    let t = effect-Takes level r event a h in
    elim (Option-cases (reservation_target event)) [
      | inl unknown ↦ absurd (t.known unknown)
      | inr (target, q) ↦
          let done = effect_of_active level r event target v a t.positive t.enough q in
          let still = apply_reservation_effect-IsValid level r event v in
          record {
            same_id = rw (← f, done) refl;
            left = rw (← f, done) (target-left event target q);
            taken = rw (← e, done) refl;
            valid = rw e at still;
          }
    ]

checked-IsMoved :
    (level next : Level) (r r' : Reservation) (event : ReservationEvent)
    → r.state ≡ active
    → IsValid level
    → (o : Level × Reservation × Option Error) → apply_reservation_effect level r event ≡ o
    → ◌≡◌ {A = Outcome (Level × Reservation)} (checked (o.0, o.1) o.2) (ok (next, r'))
    → IsMoved level next r r'
checked-IsMoved level next r r' event a v o q h =
    let (fine, same) = checked_ok (o.0, o.1) (next, r') o.2 h in
    effect-IsMoved level next r r' event a v (rw q fine)
      (rw q (ap (λ (p : Level × Reservation). p.0) same))
      (rw q (ap (λ (p : Level × Reservation). p.1) same))

pub apply_reservation_transition-IsMoved :
    (level next : Level) (r r' : Reservation) (event : ReservationEvent)
    → r.state ≡ active
    → IsValid level
    → apply_reservation_transition level r event ≡ ok (next, r')
    → IsMoved level next r r'
unfolding apply_reservation_transition release_stock commit_stock expire_stock
apply_reservation_transition-IsMoved level next r r' release a v h =
    checked-IsMoved level next r r' release a v (apply_reservation_effect level r release) refl h
apply_reservation_transition-IsMoved level next r r' commit a v h =
    checked-IsMoved level next r r' commit a v (apply_reservation_effect level r commit) refl h
apply_reservation_transition-IsMoved level next r r' expire a v h =
    checked-IsMoved level next r r' expire a v (apply_reservation_effect level r expire) refl h
apply_reservation_transition-IsMoved level next r r' (ReservationEvent.other s) a v h = absurd (cc)
