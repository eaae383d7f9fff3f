-- ===== src/Commerce/Inventory/Store/Places.antt =====
-- The rows of one SKU, as `lockCandidateLevels` of templates/commerce/internal/inventory/store.go
-- reads them, by the primary key of the levels.
use jiade.Prelude.{
  ◌≡◌, refl, ◌∙◌, String, true, false, some, List, [], ◌∷◌, str_eq, str_eq_self, eq_iff, Bool-cases,
  inl, inr, arith, All,
}
use jiade.Prelude.Int.{ℤ}
use jiade.Commerce.Inventory.Model.{Level}
use jiade.Commerce.Inventory.Store.Rows.{
  LevelRow, is_at, candidate_levels, find_level, update_reserved, update_level,
}
use jiade.Commerce.Inventory.Store.Facts.{find_level-update_reserved}

-- The primary key of inventory_level.
abbrev pub Distinct : List LevelRow → Type 0
Distinct [] = Unit
Distinct (row ∷ rest) = All (λ d. is_at row.sku row.location_id d ≡ false) rest × Distinct rest

-- Candidates that stand at different places.
abbrev pub Separate : List LevelRow → Type 0
Separate [] = Unit
Separate (c ∷ rest) = All (λ d. str_eq d.location_id c.location_id ≡ false) rest × Separate rest

-- Candidates that the table still has as they were read.
abbrev pub Current : String → List LevelRow → List LevelRow → Type 0
Current sku levels cs = All (λ c. find_level sku c.location_id levels ≡ some c) cs

away_updated :
    (row : LevelRow) (s l : String) (v : ℤ) (rows : List LevelRow)
    → All (λ d. is_at row.sku row.location_id d ≡ false) rows
    → All (λ d. is_at row.sku row.location_id d ≡ false) (update_reserved s l v rows)
unfolding update_reserved
away_updated row s l v [] h = tt
away_updated row s l v (d ∷ rest) h = (
  elim (Bool-cases (is_at s l d)) [ inl e ↦ rw e (h.0) | inr e ↦ rw e (h.0) ],
  away_updated row s l v rest (h.1),
)

pub Distinct-update_reserved :
    (s l : String) (v : ℤ) (rows : List LevelRow)
    → Distinct rows
    → Distinct (update_reserved s l v rows)
unfolding update_reserved
Distinct-update_reserved s l v [] h = tt
Distinct-update_reserved s l v (row ∷ rest) h = elim (Bool-cases (is_at s l row)) [
  | inl e ↦ rw e (away_updated row s l v rest (h.0), Distinct-update_reserved s l v rest (h.1))
  | inr e ↦ rw e (away_updated row s l v rest (h.0), Distinct-update_reserved s l v rest (h.1))
]

away_moved :
    (row : LevelRow) (s l : String) (v : Level) (rows : List LevelRow)
    → All (λ d. is_at row.sku row.location_id d ≡ false) rows
    → All (λ d. is_at row.sku row.location_id d ≡ false) (update_level s l v rows)
unfolding update_level
away_moved row s l v [] h = tt
away_moved row s l v (d ∷ rest) h = (
  elim (Bool-cases (is_at s l d)) [ inl e ↦ rw e (h.0) | inr e ↦ rw e (h.0) ],
  away_moved row s l v rest (h.1),
)

pub Distinct-update_level :
    (s l : String) (v : Level) (rows : List LevelRow)
    → Distinct rows
    → Distinct (update_level s l v rows)
unfolding update_level
Distinct-update_level s l v [] h = tt
Distinct-update_level s l v (row ∷ rest) h = elim (Bool-cases (is_at s l row)) [
  | inl e ↦ rw e (away_moved row s l v rest (h.0), Distinct-update_level s l v rest (h.1))
  | inr e ↦ rw e (away_moved row s l v rest (h.0), Distinct-update_level s l v rest (h.1))
]

-- A row above the candidates of a table, at another place.
Current-below :
    (sku : String) (row : LevelRow) (levels rows : List LevelRow)
    → All (λ d. is_at row.sku row.location_id d ≡ false) rows
    → Current sku levels (candidate_levels sku rows)
    → Current sku (row ∷ levels) (candidate_levels sku rows)
unfolding candidate_levels find_level
Current-below sku row levels [] h c = tt
Current-below sku row levels (d ∷ rest) h c = elim (Bool-cases (str_eq d.sku sku)) [
  | inr e ↦ rw e (Current-below sku row levels rest (h.1) (rw e at c))
  | inl e ↦
      let c' = rw e at c in
      let off : is_at sku d.location_id row ≡ false = ground (
        arith,
        h.0,
        eq_iff d.sku sku,
        eq_iff row.sku sku,
        eq_iff row.location_id d.location_id,
        eq_iff d.sku row.sku,
        eq_iff d.location_id row.location_id,
      ) in
      rw e (rw off (c'.0), Current-below sku row levels rest (h.1) (c'.1))
]

separate_below :
    (sku : String) (row : LevelRow) (rows : List LevelRow)
    → row.sku ≡ sku
    → All (λ d. is_at row.sku row.location_id d ≡ false) rows
    → All (λ d. str_eq d.location_id row.location_id ≡ false) (candidate_levels sku rows)
unfolding candidate_levels
separate_below sku row [] q h = tt
separate_below sku row (d ∷ rest) q h = elim (Bool-cases (str_eq d.sku sku)) [
  | inr e ↦ rw e (separate_below sku row rest q (h.1))
  | inl e ↦ rw e (
    ground
        (arith, h.0, eq_iff d.sku sku, eq_iff d.sku row.sku, eq_iff d.location_id row.location_id),
    separate_below sku row rest q (h.1),
  )
]

found_first :
    (sku : String) (row : LevelRow) (rest : List LevelRow)
    → str_eq row.sku sku ≡ true
    → find_level sku row.location_id (row ∷ rest) ≡ some row
unfolding find_level
found_first sku row rest e = rw (e, str_eq_self row.location_id) refl

-- What the query reads is current, and each row stands at a place of its own.
pub candidate_levels-Current :
    (sku : String) (rows : List LevelRow)
    → Distinct rows
    → Current sku rows (candidate_levels sku rows) × Separate (candidate_levels sku rows)
unfolding candidate_levels
candidate_levels-Current sku [] h = (tt, tt)
candidate_levels-Current sku (row ∷ rest) h =
    let ih = candidate_levels-Current sku rest (h.1) in
    elim (Bool-cases (str_eq row.sku sku)) [
      | inr e ↦ rw e (Current-below sku row rest rest (h.0) (ih.0), ih.1)
      | inl e ↦
          let q : row.sku ≡ sku = (eq_iff row.sku sku).0 e in
          rw e (
            (found_first sku row rest e, Current-below sku row rest rest (h.0) (ih.0)),
            (separate_below sku row rest q (h.0), ih.1),
          )
    ]

still_found :
    (sku l : String) (v : ℤ) (levels : List LevelRow) (d : LevelRow)
    → str_eq d.location_id l ≡ false
    → find_level sku d.location_id levels ≡ some d
    → find_level sku d.location_id (update_reserved sku l v levels) ≡ some d
still_found sku l v levels d a c =
    find_level-update_reserved sku d.location_id sku l v levels ∙ rw (c, a, str_eq_self sku) refl

-- An update at another place leaves the candidates current.
pub Current-update_reserved :
    (sku l : String) (v : ℤ) (levels cs : List LevelRow)
    → All (λ d. str_eq d.location_id l ≡ false) cs
    → Current sku levels cs
    → Current sku (update_reserved sku l v levels) cs
Current-update_reserved sku l v levels [] a c = tt
Current-update_reserved sku l v levels (d ∷ rest) a c = (
  still_found sku l v levels d (a.0) (c.0),
  Current-update_reserved sku l v levels rest (a.1) (c.1),
)
