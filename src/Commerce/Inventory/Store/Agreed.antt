-- ===== src/Commerce/Inventory/Store/Agreed.antt =====
-- The levels and the reservations of templates/commerce/internal/inventory/store.go agree after a
-- round of `TransitionOrder`.
use jiade.Prelude.{
  ℕ, ◌≡◌, refl, sym, ap, ◌∙◌, String, Bool, true, false, Option, none, some, List, [], ◌∷◌, ◌++◌,
  if◌then◌else◌, arith,
}
use jiade.Prelude.Int.{ℤ, pos, ◌+ℤ◌, ◌-ℤ◌, int_laws}
use jiade.Commerce.Inventory.Model.{Level, ReservationState, active, ReservationEvent, eq_state}
use jiade.Commerce.Inventory.Levels.{IsValid}
use jiade.Commerce.Inventory.Store.Rows.{
  LevelRow, ReservationAllocation, Tables, find_level, update_level, set_state, active_with_id,
}
use jiade.Commerce.Inventory.Store.Facts.{same_place, find_level-update_level, held, NoneActive}
use jiade.Commerce.Inventory.Store.Sound.{IsSound, same_place_sym, same_place_eq}
use jiade.Commerce.Inventory.Store.Places.{Distinct, Distinct-update_level}
use jiade.Commerce.Inventory.Store.Pending.{Pending, Pending-settled, NoneActive-set_state}
use jiade.Commerce.Inventory.Store.Moved.{
  Agrees, Agrees-set_state, DistinctIds-set_state, held-set_state,
}

-- What a round leaves.
pub record IsKept (event : ReservationEvent) (now : ℕ) (settled : List ReservationAllocation)
    (t t' : Tables) : Type 0 where
  pub sound : IsSound t'
  pub distinct : Distinct t'.levels
  pub agreeing : (b : ReservationAllocation) → Agrees b t.reservations → Agrees b t'.reservations
  pub same_terminal : t'.terminal ≡ t.terminal
  pub others : (o : String) → NoneActive o t.reservations → NoneActive o t'.reservations
  pub pending :
      (o : String) (later : List ReservationAllocation)
      → Pending event now o (settled ++ later) t.reservations
      → Pending event now o later t'.reservations

abbrev moved_row : Bool → LevelRow → Level → LevelRow
moved_row b row v = if b then record row { level = v } else row

found_moved :
    (s l s' l' : String) (v : Level) (rows : List LevelRow) (row' : LevelRow)
    → find_level s l (update_level s' l' v rows) ≡ some row'
    → (row : LevelRow) × (find_level s l rows ≡ some row)
      × (row' ≡ moved_row (same_place s l s' l') row v)
found_moved s l s' l' v rows row' h =
    go (find_level s l rows) refl (sym (find_level-update_level s l s' l' v rows) ∙ h)
  where
    go :
        (o : Option LevelRow)
        → find_level s l rows ≡ o
        → (elim o [ none ↦ none | some row ↦ some (moved_row (same_place s l s' l') row v) ])
          ≡ some row'
        → (row : LevelRow) × (find_level s l rows ≡ some row)
          × (row' ≡ moved_row (same_place s l s' l') row v)
    go none e k = absurd (cc)
    go (some row) e k = (row, e, cc)

taken_back : (x q r : ℤ) → x +ℤ q ≡ r → r -ℤ q ≡ x
taken_back x q r h = rw (← h) (omega int_laws)

nothing_taken : (x r : ℤ) → x +ℤ pos 0 ≡ r → r ≡ x
nothing_taken x r h = rw (← h) (omega int_laws)

-- What a round has written.
pub record IsSettled (a : ReservationAllocation) (c : LevelRow) (t t' : Tables) : Type 0 where
  pub next : Level
  pub target : ReservationState
  pub was : find_level a.sku a.location_id t.levels ≡ some c
  pub once : active_with_id a.id t.reservations ≡ 1
  pub left : eq_state target active ≡ false
  pub taken : next.reserved ≡ c.level.reserved -ℤ a.quantity
  pub valid : IsValid next
  pub new_levels : t'.levels ≡ update_level a.sku a.location_id next t.levels
  pub new_reservations : t'.reservations ≡ set_state target a.id t.reservations
  pub same_terminal : t'.terminal ≡ t.terminal

settled_row :
    {a : ReservationAllocation} {c : LevelRow} {t t' : Tables} (p : IsSettled a c t t')
    → IsSound t
    → Agrees a t.reservations
    → (s l : String) (row : LevelRow) → find_level s l t.levels ≡ some row
    → (b : Bool) → same_place s l a.sku a.location_id ≡ b
    → (IsValid (moved_row b row p.next).level)
      × ((moved_row b row p.next).level.reserved
          ≡ held s l (set_state p.target a.id t.reservations))
settled_row {a} {c} {t} p h g s l row e false q =
    let away : same_place a.sku a.location_id s l ≡ false =
      same_place_sym a.sku a.location_id s l ∙ q in
    let sum = held-set_state s l p.target a t.reservations p.left g p.once in
    (h.levels_valid s l row e, h.levels_held s l row e ∙ nothing_taken _ _ (rw away at sum))
settled_row {a} {c} {t} p h g s l row e true q =
    let place = same_place_eq s l a.sku a.location_id q in
    let same_row : row ≡ c = ground (arith, (rw (place.0, place.1) at e), p.was) in
    let here : same_place a.sku a.location_id s l ≡ true =
      same_place_sym a.sku a.location_id s l ∙ q in
    let sum = held-set_state s l p.target a t.reservations p.left g p.once in
    let held_row = h.levels_held s l row e in
    (
      p.valid,
      p.taken
          ∙ (ap (λ (z : LevelRow). z.level.reserved -ℤ a.quantity) (sym same_row)
              ∙ (ap (λ (z : ℤ). z -ℤ a.quantity) held_row ∙ taken_back _ _ _ (rw here at sum))),
    )

pub settled-IsKept :
    {event : ReservationEvent} {now : ℕ} {a : ReservationAllocation} {c : LevelRow} {t t' : Tables}
    → IsSettled a c t t'
    → IsSound t
    → Distinct t.levels
    → Agrees a t.reservations
    → IsKept event now (a ∷ []) t t'
settled-IsKept {event} {now} {a} {c} {t} {t'} p h d g = record {
  sound = record {
    levels_valid = λ s l row e. (both s l row e).0;
    levels_held = λ s l row e. (both s l row e).1;
    ids = rw p.new_reservations (DistinctIds-set_state p.target a.id t.reservations h.ids);
  };
  distinct = rw p.new_levels (Distinct-update_level a.sku a.location_id p.next t.levels d);
  agreeing = λ b k. rw p.new_reservations (Agrees-set_state b p.target a.id t.reservations k);
  same_terminal = p.same_terminal;
  others =
      λ o k. rw p.new_reservations (NoneActive-set_state o p.target a.id t.reservations p.left k);
  pending = λ o later k.
      rw p.new_reservations (Pending-settled event now o a later p.target t.reservations p.left k);
}
  where
    both :
        (s l : String) (row : LevelRow)
        → find_level s l t'.levels ≡ some row
        → IsValid row.level × (row.level.reserved ≡ held s l t'.reservations)
    both s l row e =
        let (was, found, is) =
          found_moved s l a.sku a.location_id p.next t.levels row (rw p.new_levels at e) in
        rw (is, p.new_reservations)
          (settled_row p h g s l was found (same_place s l a.sku a.location_id) refl)
