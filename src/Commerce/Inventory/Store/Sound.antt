-- ===== src/Commerce/Inventory/Store/Sound.antt =====
-- The levels and the reservations of templates/commerce/internal/inventory/store.go agree after
-- `Reserve`.
use jiade.Prelude.{
  ℕ, ◌≡◌, refl, sym, ap, ◌∙◌, String, Bool, true, false, Option, none, some, List, ◌∷◌, eq_iff,
  if◌then◌else◌, Bool-cases, inl, inr, arith,
}
use jiade.Prelude.Int.{ℤ, ◌+ℤ◌, +ℤ_comm, zero-+ℤ}
use jiade.Commerce.Inventory.Model.{Error, active, Reservation, reserve}
use jiade.Commerce.Inventory.Levels.{IsValid, reserve_iff, reserve_accepts, reserve-IsValid}
use jiade.Commerce.Inventory.Store.Rows.{
  Outcome, ok, err, LevelRow, ReservationAllocation, Tables, Names, find_level, update_reserved,
  allocation_from_reservation, clashes, ◌>>=◌,
}
use jiade.Commerce.Inventory.Store.Reserve.{
  ReserveCommand, checked, insert_reservation, place_at, made_reservation, reserve_at_level,
}
use jiade.Commerce.Inventory.Store.Facts.{
  same_place, find_level-update_reserved, held, new_reservation_ok, insert_movement_ok, DistinctIds,
  clashes-ids,
}

-- What `reserveAtLevel` has done.
pub record IsPlaced (command : ReserveCommand) (sku : String) (c : LevelRow) (quantity : ℤ)
    (t t' : Tables) (a : ReservationAllocation) : Type 0 where
  pub new : Reservation
  pub of_order : new.order_id ≡ command.order_id
  pub of_sku : new.sku ≡ sku
  pub of_location : new.location_id ≡ c.location_id
  pub of_quantity : new.quantity ≡ quantity
  pub is_active : new.state ≡ active
  pub accepted : (reserve c.level new).2 ≡ none
  pub unique : clashes new t.reservations ≡ false
  pub new_levels :
      t'.levels ≡ update_reserved sku c.location_id (reserve c.level new).0.reserved t.levels
  pub new_reservations : t'.reservations ≡ new ∷ t.reservations
  pub same_terminal : t'.terminal ≡ t.terminal
  pub allocation : a ≡ allocation_from_reservation new

insert_reservation_ok :
    (names : Names) (r : Reservation) (t t' : Tables)
    → insert_reservation names r t ≡ ok t'
    → (clashes r t.reservations ≡ false)
      × (t'.levels ≡ t.levels)
      × (t'.reservations ≡ r ∷ t.reservations)
      × (t'.terminal ≡ t.terminal)
unfolding insert_reservation
insert_reservation_ok names r t t' h = elim (Bool-cases (clashes r t.reservations)) [
  | inl e ↦ absurd (ground (arith, (rw e at h)))
  | inr e ↦
      let done = insert_movement_ok names r _ "adjustment" "reserve" _ t' (rw e at h) in
      (e, done.0, done.1, done.2)
]

pub checked_bind :
    {A B : Type 0} (a : A) (e : Option Error) (f : A → Outcome B) (b : B)
    → (checked a e >>= f) ≡ ok b
    → (e ≡ none) × (f a ≡ ok b)
checked_bind a none f b h = (refl, h)
checked_bind a (some e) f b h = absurd (cc)

last_step :
    (o : Outcome Tables) (x a : ReservationAllocation) (t : Tables)
    → ◌>>=◌ {B = Tables × ReservationAllocation} o (λ t'. ok (t', x)) ≡ ok (t, a)
    → (o ≡ ok t) × (a ≡ x)
last_step (ok t') x a t h = (cc, cc)
last_step (err e) x a t h = absurd (cc)

place_at-IsPlaced :
    (names : Names) (command : ReserveCommand) (sku : String) (c : LevelRow) (quantity : ℤ)
    (r : Reservation) (t t' : Tables) (a : ReservationAllocation)
    → r.order_id ≡ command.order_id
    → r.sku ≡ sku
    → r.location_id ≡ c.location_id
    → r.quantity ≡ quantity
    → r.state ≡ active
    → place_at names sku c r t ≡ ok (t', a)
    → IsPlaced command sku c quantity t t' a
unfolding place_at
place_at-IsPlaced names command sku c quantity r t t' a o s l q is h =
    let accepted = checked_bind (reserve c.level r).0 (reserve c.level r).2 _ (t', a) h in
    let placed = last_step _ (allocation_from_reservation r) a t' (accepted.1) in
    let done = insert_reservation_ok names r _ t' (placed.0) in
    record {
      new = r;
      of_order = o;
      of_sku = s;
      of_location = l;
      of_quantity = q;
      is_active = is;
      accepted = accepted.0;
      unique = done.0;
      new_levels = done.1;
      new_reservations = done.2;
      same_terminal = done.3;
      allocation = placed.1;
    }

pub reserve_at_level-IsPlaced :
    (names : Names) (command : ReserveCommand) (sku : String) (c : LevelRow) (quantity : ℤ)
    (index : ℕ) (t t' : Tables) (a : ReservationAllocation)
    → reserve_at_level names command sku c quantity index t ≡ ok (t', a)
    → IsPlaced command sku c quantity t t' a
unfolding reserve_at_level
reserve_at_level-IsPlaced names command sku c quantity index t t' a h =
    let made = made_reservation names command sku c quantity index in
    let valid = checked_bind made.0 made.1 (λ r. place_at names sku c r t) (t', a) h in
    let is =
      new_reservation_ok _ command.order_id sku c.location_id _ quantity command.expires_at
        (valid.0) in
    place_at-IsPlaced names command sku c quantity made.0 t t' a
      (ap (λ (r : Reservation). r.order_id) (is.0)) (ap (λ (r : Reservation). r.sku) (is.0))
      (ap (λ (r : Reservation). r.location_id) (is.0)) (ap (λ (r : Reservation). r.quantity) (is.0))
      (ap (λ (r : Reservation). r.state) (is.0)) (valid.1)

-- The levels and the reservations agree, and each level is valid.
pub record IsSound (t : Tables) : Type 0 where
  pub levels_valid :
      (s l : String) (row : LevelRow) → find_level s l t.levels ≡ some row → IsValid row.level
  pub levels_held :
      (s l : String) (row : LevelRow)
      → find_level s l t.levels ≡ some row
      → row.level.reserved ≡ held s l t.reservations
  pub ids : DistinctIds t.reservations

pub same_place_sym : (s l s' l' : String) → same_place s l s' l' ≡ same_place s' l' s l
same_place_sym s l s' l' = ground (arith, eq_iff s s', eq_iff l l', eq_iff s' s, eq_iff l' l)

pub same_place_eq : (s l s' l' : String) → same_place s l s' l' ≡ true → (s ≡ s') × (l ≡ l')
same_place_eq s l s' l' h = ground (arith, eq_iff s s', eq_iff l l')

-- The row of a place after the update of a place.
abbrev updated : Bool → LevelRow → ℤ → LevelRow
updated b row v = if b then record row { level = record row.level { reserved = v } } else row

found_updated :
    (s l s' l' : String) (v : ℤ) (rows : List LevelRow) (row' : LevelRow)
    → find_level s l (update_reserved s' l' v rows) ≡ some row'
    → (row : LevelRow) × (find_level s l rows ≡ some row)
      × (row' ≡ updated (same_place s l s' l') row v)
found_updated s l s' l' v rows row' h =
    go (find_level s l rows) refl (sym (find_level-update_reserved s l s' l' v rows) ∙ h)
  where
    go :
        (o : Option LevelRow)
        → find_level s l rows ≡ o
        → (elim o [ none ↦ none | some row ↦ some (updated (same_place s l s' l') row v) ])
          ≡ some row'
        → (row : LevelRow) × (find_level s l rows ≡ some row)
          × (row' ≡ updated (same_place s l s' l') row v)
    go none e k = absurd (cc)
    go (some row) e k = (row, e, cc)

-- What a placed reservation does to the row of a place.
placed_row :
    {command : ReserveCommand} {sku : String} {c : LevelRow} {quantity : ℤ} {t t' : Tables}
    {a : ReservationAllocation} (p : IsPlaced command sku c quantity t t' a)
    → find_level sku c.location_id t.levels ≡ some c
    → IsSound t
    → (s l : String) (row : LevelRow) → find_level s l t.levels ≡ some row
    → (b : Bool) → same_place s l sku c.location_id ≡ b
    → (IsValid (updated b row (reserve c.level p.new).0.reserved).level)
      × ((updated b row (reserve c.level p.new).0.reserved).level.reserved
          ≡ held s l (p.new ∷ t.reservations))
unfolding held
placed_row {sku} {c} {t} p cur h s l row e false q =
    let other : same_place p.new.sku p.new.location_id s l ≡ false =
      rw (p.of_sku, p.of_location) (same_place_sym sku c.location_id s l ∙ q) in
    (h.levels_valid s l row e, rw (p.is_active, other) (h.levels_held s l row e ∙ sym (zero-+ℤ _)))
placed_row {sku} {c} {t} p cur h s l row e true q =
    let place = same_place_eq s l sku c.location_id q in
    let same_row : row ≡ c = ground (arith, (rw (place.0, place.1) at e), cur) in
    let here : same_place p.new.sku p.new.location_id s l ≡ true =
      rw (p.of_sku, p.of_location) (same_place_sym sku c.location_id s l ∙ q) in
    let valid_row = h.levels_valid s l row e in
    let held_row = h.levels_held s l row e in
    let valid : IsValid c.level = rw same_row at valid_row in
    let was_held : c.level.reserved ≡ held s l t.reservations = rw same_row at held_row in
    let can = (reserve_iff c.level p.new valid).0 p.accepted in
    let done = reserve_accepts c.level p.new valid can in
    let still = reserve-IsValid c.level p.new valid in
    rw (same_row, done, p.is_active, here)
      (rw done at still, ap (λ (z : ℤ). z +ℤ p.new.quantity) was_held ∙ +ℤ_comm _ _)

-- The reservation that is placed keeps the levels and the reservations in agreement.
pub placed-IsSound :
    {command : ReserveCommand} {sku : String} {c : LevelRow} {quantity : ℤ} {t t' : Tables}
    {a : ReservationAllocation} (p : IsPlaced command sku c quantity t t' a)
    → find_level sku c.location_id t.levels ≡ some c
    → IsSound t
    → IsSound t'
placed-IsSound {sku} {c} {t} {t'} p cur h = record {
  levels_valid = λ s l row e. (both s l row e).0;
  levels_held = λ s l row e. (both s l row e).1;
  ids = rw p.new_reservations (clashes-ids p.new t.reservations p.unique, h.ids);
}
  where
    both :
        (s l : String) (row : LevelRow)
        → find_level s l t'.levels ≡ some row
        → IsValid row.level × (row.level.reserved ≡ held s l t'.reservations)
    both s l row e =
        let v : ℤ = (reserve c.level p.new).0.reserved in
        let (was, found, is) =
          found_updated s l sku c.location_id v t.levels row (rw p.new_levels at e) in
        rw (is, p.new_reservations)
          (placed_row p cur h s l was found (same_place s l sku c.location_id) refl)
