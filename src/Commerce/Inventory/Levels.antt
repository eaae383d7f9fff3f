-- ===== src/Commerce/Inventory/Levels.antt =====
-- What the operations of `Level` do to the stock: templates/commerce/internal/inventory/model.go.
use jiade.Prelude.{◌≡◌, ◌≢◌, ◌↔◌, ◌⊎◌, inl, inr, none, some, Option-cases, arith}
use jiade.Prelude.Int.{ℤ, pos, ◌+ℤ◌, ◌-ℤ◌, ◌≤ℤ◌}
use jiade.Prelude.Int64.{IsInt64, wrap64, wrap64_self}
use jiade.Commerce.Inventory.Model.{
  Level, Reservation, ReservationState, ReservationEvent, reservation_target, Error, active, commit,
  available, reserve, apply_reservation_effect, transition,
}

-- Stock in the range of int64 that covers what is reserved.
pub record IsValid (level : Level) : Type 0 where
  pub reserved_nonneg : pos 0 ≤ℤ level.reserved
  pub covered : level.reserved ≤ℤ level.on_hand
  pub bounded : IsInt64 level.on_hand

-- The sum of two amounts that fits below a third one needs no wrap-around.
add_fits :
    (a b c : ℤ) → pos 0 ≤ℤ a → pos 0 ≤ℤ b → a +ℤ b ≤ℤ c → IsInt64 c → wrap64 (a +ℤ b) ≡ a +ℤ b
unfolding ◌+ℤ◌
add_fits a b c ha hb hc hi = wrap64_self (a +ℤ b) (ground arith)

sub_fits : (a b : ℤ) → pos 0 ≤ℤ b → b ≤ℤ a → IsInt64 a → wrap64 (a -ℤ b) ≡ a -ℤ b
unfolding ◌-ℤ◌
sub_fits a b hb hc hi = wrap64_self (a -ℤ b) (ground arith)

pub available_lem :
    (level : Level) → IsValid level → available level ≡ (level.on_hand -ℤ level.reserved, none)
unfolding available
available_lem level v = ground (arith, sub_fits level.on_hand level.reserved)

-- What `Reserve` asks for.
pub record CanReserve (level : Level) (reservation : Reservation) : Type 0 where
  pub held : reservation.state ≡ active
  pub positive : pos 1 ≤ℤ reservation.quantity
  pub enough : level.reserved +ℤ reservation.quantity ≤ℤ level.on_hand

-- On a valid level, `reserve` succeeds exactly when the reservation is active, its quantity is
-- positive, and on-hand stock covers it on top of what is reserved already.
pub reserve_iff :
    (level : Level) (reservation : Reservation)
    → IsValid level
    → ((reserve level reservation).2 ≡ none) ↔ CanReserve level reservation
unfolding reserve ◌+ℤ◌ ◌-ℤ◌
reserve_iff level reservation v =
    (λ h. ground (arith, available_lem level v), λ c. ground (arith, available_lem level v))

-- A reservation that is accepted raises the reserved stock by its quantity, with no wrap-around,
-- and leaves the stock on hand and the reservation as they were.
pub reserve_accepts :
    (level : Level) (reservation : Reservation)
    → IsValid level
    → CanReserve level reservation
    → reserve level reservation
      ≡ (record level { reserved = level.reserved +ℤ reservation.quantity }, reservation, none)
unfolding reserve ◌+ℤ◌ ◌-ℤ◌
reserve_accepts level reservation v c =
    ground
      (arith, available_lem level v, add_fits level.reserved reservation.quantity level.on_hand)

-- A refused reservation changes nothing.
pub reserve_refuses :
    (level : Level) (reservation : Reservation) {e : Error}
    → (reserve level reservation).2 ≡ some e
    → reserve level reservation ≡ (level, reservation, some e)
unfolding reserve
reserve_refuses level reservation h = ground arith

-- What an event takes from the stock on hand.
abbrev pub consumed : ReservationEvent → ℤ → ℤ
consumed commit q = q
consumed _ q = pos 0

-- The effect of an event on an active reservation that the reserved stock covers: the reservation
-- is no longer active, its quantity leaves the reserved stock, and only a commit takes it from
-- the stock on hand. The new level is checked again, and that check never fails.
pub effect_of_active :
    (level : Level) (reservation : Reservation) (event : ReservationEvent)
    (target : ReservationState)
    → IsValid level
    → reservation.state ≡ active
    → pos 1 ≤ℤ reservation.quantity
    → reservation.quantity ≤ℤ level.reserved
    → reservation_target event ≡ some target
    → apply_reservation_effect level reservation event ≡ (
      record {
        on_hand = level.on_hand -ℤ consumed event reservation.quantity;
        reserved = level.reserved -ℤ reservation.quantity;
      },
      record reservation { state = target },
      none,
    )
unfolding apply_reservation_effect ◌-ℤ◌
effect_of_active level reservation event target v a p c t = ground (
  arith,
  sub_fits level.on_hand reservation.quantity,
  sub_fits level.reserved reservation.quantity,
  sub_fits (level.on_hand -ℤ reservation.quantity) (level.reserved -ℤ reservation.quantity),
)

-- Whatever the reservation, `reserve` leaves a valid level valid.
pub reserve-IsValid :
    (level : Level) (reservation : Reservation)
    → IsValid level
    → IsValid (reserve level reservation).0
unfolding reserve ◌+ℤ◌ ◌-ℤ◌
reserve-IsValid level reservation v =
    ground
      (arith, available_lem level v, add_fits level.reserved reservation.quantity level.on_hand)

taken-IsValid :
    (level : Level) (event : ReservationEvent) (q : ℤ)
    → IsValid level
    → pos 1 ≤ℤ q
    → q ≤ℤ level.reserved
    → IsValid
        (record { on_hand = level.on_hand -ℤ consumed event q; reserved = level.reserved -ℤ q })
unfolding ◌-ℤ◌
taken-IsValid level commit q v p c = ground arith
taken-IsValid level _ q v p c = ground arith

-- When an event has its effect.
pub record Takes (level : Level) (reservation : Reservation) (event : ReservationEvent)
    : Type 0 where
  pub was_active : reservation.state ≡ active
  pub positive : pos 1 ≤ℤ reservation.quantity
  pub enough : reservation.quantity ≤ℤ level.reserved
  pub known : reservation_target event ≢ none

-- An event either changes nothing, or it has its effect.
pub effect_cases :
    (level : Level) (reservation : Reservation) (event : ReservationEvent)
    → ((apply_reservation_effect level reservation event).0 ≡ level)
        × ((apply_reservation_effect level reservation event).1 ≡ reservation)
      ⊎ Takes level reservation event
unfolding apply_reservation_effect
effect_cases level reservation event = ground arith

-- Whatever the reservation and the event, `applyReservationEffect` leaves a valid level valid.
pub apply_reservation_effect-IsValid :
    (level : Level) (reservation : Reservation) (event : ReservationEvent)
    → IsValid level
    → IsValid (apply_reservation_effect level reservation event).0
apply_reservation_effect-IsValid level reservation event v =
    elim (effect_cases level reservation event) [
      | inl same ↦ rw same.0 v
      | inr t ↦ elim (Option-cases (reservation_target event)) [
        | inl unknown ↦ absurd (t.known unknown)
        | inr (target, e) ↦
            rw
              (effect_of_active level reservation event target v t.was_active t.positive t.enough e)
              (taken-IsValid level event reservation.quantity v t.positive t.enough)
      ]
    ]

-- An event that fails leaves the level and the reservation as they were.
pub effect_refused :
    (level : Level) (reservation : Reservation) (event : ReservationEvent) {e : Error}
    → (apply_reservation_effect level reservation event).2 ≡ some e
    → apply_reservation_effect level reservation event ≡ (level, reservation, some e)
unfolding apply_reservation_effect
effect_refused level reservation event h = ground arith

-- The two places that know the life of a reservation agree: where the stock effect succeeds, the
-- reservation that it returns is the one that `Transition` returns, which succeeds too.
pub effect_agrees :
    (level : Level) (reservation : Reservation) (event : ReservationEvent)
    → (apply_reservation_effect level reservation event).2 ≡ none
    → transition reservation event ≡ ((apply_reservation_effect level reservation event).1, none)
unfolding apply_reservation_effect transition
effect_agrees level reservation event h = ground arith
