-- ===== src/Commerce/Inventory/Store/Rows.antt =====
-- The tables of templates/commerce/db/migrations/inventory_db.sql and the statements of
-- templates/commerce/internal/inventory/store.go on them. The levels stand in the order in
-- which the queries give them, with the columns of their location and its profile; the
-- reservations stand newest first, where the queries order them by SKU and location. A failing
-- transaction leaves the tables as they were.
use jiade.Prelude.{
  ℕ, suc, String, Bool, false, ◌&&◌, ◌||◌, Option, none, some, List, [], ◌∷◌, str_eq, if◌then◌else◌,
}
use jiade.Prelude.Int.{ℤ}
use jiade.Commerce.Inventory.Model.{
  Error, Level, ReservationState, active, ReservationEvent, Reservation, eq_state,
}

-- `stock` is ErrInvalidInventory or ErrInvalidTransition, `failed` any other error of a statement.
pub data StoreError : Type 0 where
  sku_not_found insufficient_stock idempotency_conflict order_terminal invalid_command : StoreError
  stock : Error → StoreError
  failed : StoreError

pub data Outcome (A : Type 0) : Type 0 where
  ok : A → Outcome A
  err : StoreError → Outcome A

pub record LevelRow : Type 0 where
  pub sku : String
  pub location_id : String
  pub fulfills : Bool
  pub level : Level

pub record Movement : Type 0 where
  pub movement_id : String
  pub sku : String
  pub location_id : String
  pub delta : ℤ
  pub reason : String
  pub reference_id : String

pub record ReservationAllocation : Type 0 where
  pub id : String
  pub order_id : String
  pub sku : String
  pub location_id : String
  pub quantity : ℤ
  pub state : ReservationState
  pub expires_at : ℕ

pub record InventoryEvent : Type 0 where
  pub event_type : String
  pub order_id : String
  pub correlation_id : String
  pub allocations : List ReservationAllocation

pub record Tables : Type 0 where
  pub levels : List LevelRow
  pub reservations : List Reservation
  pub terminal : List (String × ReservationEvent)
  pub movements : List Movement
  pub outbox : List InventoryEvent

-- What the code takes from crypto/sha256 and fmt: `reservationKeyPrefix`, the key with the index
-- behind it and the test for such a prefix, and the two uses of `deterministicID`.
pub record Names : Type 0 where
  pub key_prefix : String → String
  pub numbered_key : String → ℕ → String
  pub has_prefix : String → String → Bool
  pub reservation_id : String → String → String → String → ℕ → String
  pub movement_id : String → String → String
  pub reference_id : String → String → String

abbrev pub is_at : String → String → LevelRow → Bool
is_at sku location row = str_eq row.sku sku && str_eq row.location_id location

-- WHERE sku = $1
unfoldable pub candidate_levels : String → List LevelRow → List LevelRow
candidate_levels sku [] = []
candidate_levels sku (row ∷ rest) =
    let found = candidate_levels sku rest in if str_eq row.sku sku then row ∷ found else found

-- SELECT on_hand, reserved FROM inventory_level WHERE sku = $1 AND location_id = $2
unfoldable pub find_level : String → String → List LevelRow → Option LevelRow
find_level sku location [] = none
find_level sku location (row ∷ rest) =
    let found = find_level sku location rest in if is_at sku location row then some row else found

-- UPDATE inventory_level SET reserved = $1 WHERE sku = $3 AND location_id = $4
unfoldable pub update_reserved : String → String → ℤ → List LevelRow → List LevelRow
update_reserved sku location reserved [] = []
update_reserved sku location reserved (row ∷ rest) =
    (if is_at sku location row
      then record row { level = record row.level { reserved = reserved } }
      else row)
    ∷ update_reserved sku location reserved rest

-- UPDATE inventory_level SET on_hand = $1, reserved = $2 WHERE sku = $4 AND location_id = $5
unfoldable pub update_level : String → String → Level → List LevelRow → List LevelRow
update_level sku location level [] = []
update_level sku location level (row ∷ rest) =
    (if is_at sku location row then record row { level = level } else row)
    ∷ update_level sku location level rest

unfoldable pub allocation_from_reservation : Reservation → ReservationAllocation
allocation_from_reservation r = record {
  id = r.id;
  order_id = r.order_id;
  sku = r.sku;
  location_id = r.location_id;
  quantity = r.quantity;
  state = r.state;
  expires_at = r.expires_at;
}

-- WHERE r.order_id = $1
unfoldable pub allocations_of_order : String → List Reservation → List ReservationAllocation
unfolding allocation_from_reservation
allocations_of_order order [] = []
allocations_of_order order (r ∷ rest) =
    let found = allocations_of_order order rest in
    if str_eq r.order_id order then allocation_from_reservation r ∷ found else found

-- WHERE left(r.idempotency_key, length($1) + 1) = $1 || ':'
unfoldable pub existing_allocations : Names → String → List Reservation → List ReservationAllocation
unfolding allocation_from_reservation
existing_allocations names prefix [] = []
existing_allocations names prefix (r ∷ rest) =
    let found = existing_allocations names prefix rest in
    if names.has_prefix prefix r.idempotency_key
    then allocation_from_reservation r ∷ found
    else found

-- The primary key and the unique idempotency key of an insertion.
unfoldable pub clashes : Reservation → List Reservation → Bool
clashes new [] = false
clashes new (r ∷ rest) =
    (str_eq r.id new.id || str_eq r.idempotency_key new.idempotency_key) || clashes new rest

unfoldable pub movement_clashes : Movement → List Movement → Bool
movement_clashes new [] = false
movement_clashes new (m ∷ rest) =
    (str_eq m.movement_id new.movement_id
      || (str_eq m.reason new.reason
          && (str_eq m.reference_id new.reference_id
              && (str_eq m.sku new.sku && str_eq m.location_id new.location_id))))
    || movement_clashes new rest

unfoldable pub terminal_order_state :
    String → List (String × ReservationEvent) → Option ReservationEvent
terminal_order_state order [] = none
terminal_order_state order ((o, event) ∷ rest) =
    let found = terminal_order_state order rest in if str_eq o order then some event else found

-- UPDATE reservation SET status = $1 WHERE reservation_id = $2 AND status = 'active'
unfoldable pub set_state : ReservationState → String → List Reservation → List Reservation
set_state s id [] = []
set_state s id (r ∷ rest) =
    (if str_eq r.id id && eq_state r.state active then record r { state = s } else r)
    ∷ set_state s id rest

-- How many rows that statement affects.
unfoldable pub active_with_id : String → List Reservation → ℕ
active_with_id id [] = 0
active_with_id id (r ∷ rest) =
    let found = active_with_id id rest in
    if str_eq r.id id && eq_state r.state active then suc found else found

infixl 5 ◌>>=◌
abbrev pub ◌>>=◌ : {A B : Type 0} → Outcome A → (A → Outcome B) → Outcome B
err e >>= next = err e
ok x >>= next = next x

unfoldable pub insert_movement : Names → Reservation → ℤ → String → String → Tables → Outcome Tables
unfolding movement_clashes
insert_movement names r delta reason action t =
    let m : Movement = record {
      movement_id = names.movement_id r.id action;
      sku = r.sku;
      location_id = r.location_id;
      delta = delta;
      reason = reason;
      reference_id = names.reference_id r.id action;
    } in
    if movement_clashes m t.movements
    then err failed
    else ok (record t { movements = m ∷ t.movements })

-- The tables after a transaction: an error rolls it back.
abbrev pub committed_tables : {A : Type 0} → Tables → Outcome (Tables × A) → Tables
committed_tables t (ok done) = done.0
committed_tables t (err e) = t
