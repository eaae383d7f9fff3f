-- ===== src/Commerce/Inventory/Store/Facts.antt =====
-- Laws of the statements in templates/commerce/internal/inventory/store.go.
use jiade.Prelude.{
  ℕ, ◌≡◌, refl, String, Bool, true, false, ◌&&◌, Option, none, some, List, [], ◌∷◌, str_eq, eq_iff,
  if◌then◌else◌, arith, All,
}
use jiade.Prelude.Int.{ℤ, pos, ◌+ℤ◌, ◌≤ℤ◌}
use jiade.Commerce.Inventory.Model.{Error, Level, active, Reservation, eq_state, new_reservation}
use jiade.Commerce.Inventory.Store.Rows.{
  Outcome, ok, err, LevelRow, Tables, Names, find_level, update_reserved, update_level, clashes,
  ◌>>=◌, insert_movement,
}
use jiade.Commerce.Inventory.Store.Reserve.{checked}

abbrev pub same_place : String → String → String → String → Bool
same_place s l s' l' = str_eq s s' && str_eq l l'

pub find_level-update_reserved :
    (s l s' l' : String) (v : ℤ) (rows : List LevelRow)
    → find_level s l (update_reserved s' l' v rows) ≡ elim (find_level s l rows) [
      | none ↦ none
      | some row ↦ some (
          if same_place s l s' l'
          then record row { level = record row.level { reserved = v } }
          else row)
    ]
unfolding find_level update_reserved
find_level-update_reserved s l s' l' v [] = refl
find_level-update_reserved s l s' l' v (row ∷ rest) = ground (
  arith,
  find_level-update_reserved s l s' l' v rest,
  eq_iff row.sku s,
  eq_iff row.location_id l,
  eq_iff row.sku s',
  eq_iff row.location_id l',
  eq_iff s s',
  eq_iff l l',
)

pub find_level-update_level :
    (s l s' l' : String) (v : Level) (rows : List LevelRow)
    → find_level s l (update_level s' l' v rows) ≡ elim (find_level s l rows) [
      | none ↦ none
      | some row ↦ some (if same_place s l s' l' then record row { level = v } else row)
    ]
unfolding find_level update_level
find_level-update_level s l s' l' v [] = refl
find_level-update_level s l s' l' v (row ∷ rest) = ground (
  arith,
  find_level-update_level s l s' l' v rest,
  eq_iff row.sku s,
  eq_iff row.location_id l,
  eq_iff row.sku s',
  eq_iff row.location_id l',
  eq_iff s s',
  eq_iff l l',
)

-- What the active reservations hold at a place.
unfoldable pub held : String → String → List Reservation → ℤ
held s l [] = pos 0
held s l (r ∷ rest) =
    (if eq_state r.state active && same_place r.sku r.location_id s l then r.quantity else pos 0)
    +ℤ held s l rest

pub checked_ok :
    {A : Type 0} (a b : A) (e : Option Error) → checked a e ≡ ok b → (e ≡ none) × (a ≡ b)
checked_ok a b none h = (refl, cc)
checked_ok a b (some e) h = absurd (cc)

-- A chain that succeeds has a first step that does.
pub first_ok :
    {A B : Type 0} (o : Outcome A) (next : A → Outcome B) {y : B}
    → (o >>= next) ≡ ok y
    → (x : A) × (o ≡ ok x) × (next x ≡ ok y)
first_ok (err e) next h = absurd (cc)
first_ok (ok x) next h = (x, refl, h)

pub new_reservation_ok :
    (id order sku location key : String) (quantity : ℤ) (expires : ℕ)
    → (new_reservation id order sku location key quantity expires).1 ≡ none
    → ((new_reservation id order sku location key quantity expires).0 ≡ record {
      id = id;
      order_id = order;
      sku = sku;
      location_id = location;
      idempotency_key = key;
      quantity = quantity;
      state = active;
      expires_at = expires;
    })
      × (pos 1 ≤ℤ quantity)
unfolding new_reservation
new_reservation_ok id order sku location key quantity expires h = ground arith

pub insert_movement_ok :
    (names : Names) (r : Reservation) (d : ℤ) (reason action : String) (t t' : Tables)
    → insert_movement names r d reason action t ≡ ok t'
    → (t'.levels ≡ t.levels) × (t'.reservations ≡ t.reservations) × (t'.terminal ≡ t.terminal)
unfolding insert_movement
insert_movement_ok names r d reason action t t' h = ground arith

-- The primary key of reservation.
abbrev pub DistinctIds : List Reservation → Type 0
DistinctIds [] = Unit
DistinctIds (r ∷ rest) = All (λ d. str_eq d.id r.id ≡ false) rest × DistinctIds rest

pub clashes-ids :
    (new : Reservation) (rs : List Reservation)
    → clashes new rs ≡ false
    → All (λ d. str_eq d.id new.id ≡ false) rs
unfolding clashes
clashes-ids new [] h = tt
clashes-ids new (r ∷ rest) h = (ground arith, clashes-ids new rest (ground arith))

-- No active reservation of an order.
abbrev pub NoneActive : String → List Reservation → Type 0
NoneActive order rs = All (λ r. str_eq r.order_id order ≡ true → eq_state r.state active ≡ false) rs
