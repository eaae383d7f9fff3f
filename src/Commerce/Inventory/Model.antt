-- ===== src/Commerce/Inventory/Model.antt =====
-- The types and functions of templates/commerce/internal/inventory/model.go.
use jiade.Prelude.{
  ℕ, String, Bool, true, false, Option, none, some, ◌||◌, not, ◌==◌, if◌then◌else◌, str_eq,
}
use jiade.Prelude.Int.{ℤ, pos, ltb_ℤ, leb_ℤ}
use jiade.Prelude.Int64.{add64, sub64}

pub data Error : Type 0 where
  invalid_inventory invalid_transition : Error

pub record Level : Type 0 where
  pub on_hand : ℤ
  pub reserved : ℤ

-- `other` is a text that is none of the constants.
pub data ReservationState : Type 0 where
  active committed released expired : ReservationState
  other : String → ReservationState

pub data ReservationEvent : Type 0 where
  commit release expire : ReservationEvent
  other : String → ReservationEvent

pub record Reservation : Type 0 where
  pub id : String
  pub order_id : String
  pub sku : String
  pub location_id : String
  pub idempotency_key : String
  pub quantity : ℤ
  pub state : ReservationState
  pub expires_at : ℕ

-- `==` on the states.
abbrev pub eq_state : ReservationState → ReservationState → Bool
eq_state active active = true
eq_state committed committed = true
eq_state released released = true
eq_state expired expired = true
eq_state (ReservationState.other s) (ReservationState.other t) = str_eq s t
eq_state _ _ = false

unfoldable pub available : Level → ℤ × Option Error
available level =
    if ltb_ℤ level.on_hand (pos 0)
      || (ltb_ℤ level.reserved (pos 0) || ltb_ℤ level.on_hand level.reserved)
    then (pos 0, some invalid_inventory)
    else (sub64 level.on_hand level.reserved, none)

-- The tests of `Reserve` after the level's own, in their order.
reserve_checked : Level → Reservation → ℤ → Level × Reservation × Option Error
reserve_checked level reservation free =
    if leb_ℤ reservation.quantity (pos 0)
    then (level, reservation, some invalid_inventory)
    else if not (eq_state reservation.state active)
    then (level, reservation, some invalid_inventory)
    else if ltb_ℤ free reservation.quantity
    then (level, reservation, some invalid_inventory)
    else (record level { reserved = add64 level.reserved reservation.quantity }, reservation, none)

unfoldable pub reserve : Level → Reservation → Level × Reservation × Option Error
unfolding available reserve_checked
reserve level reservation =
    let (free, err) = available level in
    elim err [
      | some e ↦ (level, reservation, some e)
      | none ↦ reserve_checked level reservation free
    ]

unfoldable pub reservation_target : ReservationEvent → Option ReservationState
reservation_target commit = some committed
reservation_target release = some released
reservation_target expire = some expired
reservation_target (ReservationEvent.other _) = none

unfoldable pub valid_reservation_state : ReservationState → Bool
valid_reservation_state (ReservationState.other _) = false
valid_reservation_state _ = true

transition_to : Reservation → ReservationState → Reservation × Option Error
unfolding valid_reservation_state
transition_to reservation target =
    if not (valid_reservation_state reservation.state)
    then (reservation, some invalid_transition)
    else if eq_state reservation.state target
    then (reservation, none)
    else if not (eq_state reservation.state active)
    then (reservation, some invalid_transition)
    else (record reservation { state = target }, none)

unfoldable pub transition : Reservation → ReservationEvent → Reservation × Option Error
unfolding reservation_target transition_to
transition reservation event = elim (reservation_target event) [
  | none ↦ (reservation, some invalid_transition)
  | some target ↦ transition_to reservation target
]

abbrev is_commit : ReservationEvent → Bool
is_commit commit = true
is_commit _ = false

-- `nextLevel` of `applyReservationEffect`.
next_level : Level → Reservation → ReservationEvent → Level
next_level level reservation event = record {
  on_hand = if is_commit event then sub64 level.on_hand reservation.quantity else level.on_hand;
  reserved = sub64 level.reserved reservation.quantity;
}

-- The last lines of `applyReservationEffect`: the new level is checked once more.
settle :
    Level → Reservation → ReservationEvent → ReservationState → Level × Reservation × Option Error
unfolding available next_level
settle level reservation event target =
    let next = next_level level reservation event in
    elim ((available next).1) [
      | some e ↦ (level, reservation, some e)
      | none ↦ (next, record reservation { state = target }, none)
    ]

effect_to :
    Level → Reservation → ReservationEvent → ReservationState → Level × Reservation × Option Error
unfolding valid_reservation_state settle
effect_to level reservation event target =
    if not (valid_reservation_state reservation.state)
    then (level, reservation, some invalid_transition)
    else if eq_state reservation.state target
    then (level, reservation, none)
    else if not (eq_state reservation.state active)
    then (level, reservation, some invalid_transition)
    else if leb_ℤ reservation.quantity (pos 0)
    then (level, reservation, some invalid_inventory)
    else if ltb_ℤ level.reserved reservation.quantity
    then (level, reservation, some invalid_inventory)
    else settle level reservation event target

unfoldable pub apply_reservation_effect :
    Level → Reservation → ReservationEvent → Level × Reservation × Option Error
unfolding available reservation_target effect_to
apply_reservation_effect level reservation event = elim ((available level).1) [
  | some e ↦ (level, reservation, some e)
  | none ↦ elim (reservation_target event) [
    | none ↦ (level, reservation, some invalid_transition)
    | some target ↦ effect_to level reservation event target
  ]
]

-- The methods `Release`, `Expire` and `Commit` of `Level`.
unfoldable pub release_stock : Level → Reservation → Level × Reservation × Option Error
unfolding apply_reservation_effect
release_stock level reservation = apply_reservation_effect level reservation release

unfoldable pub expire_stock : Level → Reservation → Level × Reservation × Option Error
unfolding apply_reservation_effect
expire_stock level reservation = apply_reservation_effect level reservation expire

unfoldable pub commit_stock : Level → Reservation → Level × Reservation × Option Error
unfolding apply_reservation_effect
commit_stock level reservation = apply_reservation_effect level reservation commit

abbrev empty_reservation : Reservation
empty_reservation = record {
  id = "";
  order_id = "";
  sku = "";
  location_id = "";
  idempotency_key = "";
  quantity = pos 0;
  state = ReservationState.other "";
  expires_at = 0;
}

unfoldable pub new_reservation :
    String → String → String → String → String → ℤ → ℕ → Reservation × Option Error
new_reservation id order_id sku location_id idempotency_key quantity expires_at =
    if str_eq id ""
      || (str_eq order_id ""
          || (str_eq sku "" || (str_eq location_id "" || str_eq idempotency_key "")))
    then (empty_reservation, some invalid_inventory)
    else if leb_ℤ quantity (pos 0)
    then (empty_reservation, some invalid_inventory)
    else if expires_at == 0
    then (empty_reservation, some invalid_inventory)
    else (
      record {
        id = id;
        order_id = order_id;
        sku = sku;
        location_id = location_id;
        idempotency_key = idempotency_key;
        quantity = quantity;
        state = active;
        expires_at = expires_at;
      },
      none,
    )
