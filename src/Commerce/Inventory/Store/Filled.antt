-- ===== src/Commerce/Inventory/Store/Filled.antt =====
-- The loops of `Reserve` in templates/commerce/internal/inventory/store.go.
use jiade.Prelude.{
  ◌+◌, ◌≡◌, refl, sym, ap, ◌∙◌, subst, String, Bool, false, not, Option, none, some, List, [], ◌∷◌,
  ◌++◌, str_eq, if◌then◌else◌, Bool-cases, inl, inr, arith,
}
use jiade.Prelude.Int.{ℤ, pos, ◌+ℤ◌, ◌-ℤ◌, ◌≤ℤ◌, eqb_ℤ, int_laws, +ℤ_comm, +ℤ_assoc}
use jiade.Prelude.Int64.{IsInt64, sub64, wrap64_self}
use jiade.Commerce.Inventory.Model.{Error, available}
use jiade.Commerce.Inventory.Levels.{reserve_iff}
use jiade.Commerce.Inventory.Store.Rows.{
  Outcome, ok, err, LevelRow, ReservationAllocation, Tables, Names, find_level,
  allocation_from_reservation, ◌>>=◌,
}
use jiade.Commerce.Inventory.Store.Reserve.{
  ReserveCommand, Filling, reserve_at_level, least, filled, allocate_at, visit_candidate,
}
use jiade.Commerce.Inventory.Store.Facts.{NoneActive}
use jiade.Commerce.Inventory.Store.Sound.{
  IsPlaced, checked_bind, reserve_at_level-IsPlaced, IsSound, placed-IsSound,
}
use jiade.Commerce.Inventory.Store.Places.{Distinct, Distinct-update_reserved}

-- The part of a quantity of one SKU that counts for another.
abbrev pub part : String → String → ℤ → ℤ
part sku s q = if str_eq sku s then q else pos 0

-- What allocations give of a SKU, with no wrap-around.
unfoldable pub amount_of : String → List ReservationAllocation → ℤ
amount_of s [] = pos 0
amount_of s (a ∷ rest) = part a.sku s a.quantity +ℤ amount_of s rest

amount_of-append :
    (s : String) (xs : List ReservationAllocation) (a : ReservationAllocation)
    → amount_of s (xs ++ a ∷ []) ≡ amount_of s xs +ℤ part a.sku s a.quantity
unfolding amount_of
amount_of-append s [] a = +ℤ_comm _ _
amount_of-append s (x ∷ xs) a =
    ap (λ (z : ℤ). part x.sku s x.quantity +ℤ z) (amount_of-append s xs a) ∙ sym (+ℤ_assoc _ _ _)

pair_none : (p : ℤ × Option Error) → p.1 ≡ none → p ≡ (p.0, none)
pair_none (a, none) h = refl
pair_none (a, some e) h = absurd (cc)

-- What the loops have done from one point to a later one.
pub record IsFilled (command : ReserveCommand) (sku : String) (f f' : Filling) : Type 0 where
  pub sound : IsSound f'.tables
  pub distinct : Distinct f'.tables.levels
  pub same_terminal : f'.tables.terminal ≡ f.tables.terminal
  pub amounts :
      (s : String)
      → amount_of s f'.allocations +ℤ part sku s f'.remaining
        ≡ amount_of s f.allocations +ℤ part sku s f.remaining
  pub others :
      (o : String)
      → str_eq command.order_id o ≡ false
      → NoneActive o f.tables.reservations
      → NoneActive o f'.tables.reservations
  pub nonneg : pos 0 ≤ℤ f'.remaining
  pub in_range : IsInt64 f'.remaining

-- What a visit of a candidate comes to.
pub data Visited (names : Names) (command : ReserveCommand) (sku : String) (c : LevelRow)
    (f : Filling) : Filling → Bool → Type 0 where
  passed : Visited names command sku c f f false
  allocated :
      (free : ℤ) (done : Tables × ReservationAllocation)
      → available c.level ≡ (free, none)
      → IsPlaced command sku c (least f.remaining free) f.tables done.0 done.1
      → Visited names command sku c f
          (filled f (least f.remaining free) done)
          (eqb_ℤ (sub64 f.remaining (least f.remaining free)) (pos 0))

allocated_ok :
    (names : Names) (command : ReserveCommand) (sku : String) (c : LevelRow) (f : Filling)
    (free : ℤ) (f' : Filling) (stop : Bool)
    → available c.level ≡ (free, none)
    → allocate_at names command sku c free f ≡ ok (f', stop)
    → Visited names command sku c f f' stop
unfolding allocate_at
allocated_ok names command sku c f free f' stop e h =
    go
      (reserve_at_level names command sku c (least f.remaining free) (f.allocation_index + 1)
        f.tables)
      refl h
  where
    go :
        (o : Outcome (Tables × ReservationAllocation))
        → reserve_at_level names command sku c
            (least f.remaining free)
            (f.allocation_index + 1)
            f.tables
          ≡ o
        → ◌>>=◌ {B = Filling × Bool} o (λ done. ok (
          filled f (least f.remaining free) done,
          eqb_ℤ (sub64 f.remaining (least f.remaining free)) (pos 0),
        ))
          ≡ ok (f', stop)
        → Visited names command sku c f f' stop
    go (err x) q k = absurd (cc)
    go (ok done) q k =
        let first : filled f (least f.remaining free) done ≡ f' = cc in
        let second : eqb_ℤ (sub64 f.remaining (least f.remaining free)) (pos 0) ≡ stop = cc in
        subst (λ (x : Filling). Visited names command sku c f x stop) first
          (subst
            (λ (b : Bool). Visited names command sku c f (filled f (least f.remaining free) done) b)
            second
            (allocated free done e (
              reserve_at_level-IsPlaced names command sku c (least f.remaining free)
                (f.allocation_index + 1) f.tables done.0 done.1 q)))

pub visit_candidate-Visited :
    (names : Names) (command : ReserveCommand) (sku : String) (c : LevelRow) (f f' : Filling)
    (stop : Bool)
    → visit_candidate names command sku c f ≡ ok (f', stop)
    → Visited names command sku c f f' stop
unfolding visit_candidate
visit_candidate-Visited names command sku c f f' stop h = elim (Bool-cases (not c.fulfills)) [
  | inl e ↦ unchanged (rw e at h)
  | inr e ↦
      let k = checked_bind (available c.level).0 (available c.level).1 _ (f', stop) (rw e at h) in
      elim (Bool-cases (eqb_ℤ (available c.level).0 (pos 0))) [
        | inl z ↦ unchanged (rw z at (k.1))
        | inr z ↦
            allocated_ok names command sku c f (available c.level).0 f' stop
              (pair_none (available c.level) (k.0)) (rw z at (k.1))
      ]
]
  where
    unchanged :
        ◌≡◌ {A = Outcome (Filling × Bool)} (ok (f, false)) (ok (f', stop))
        → Visited names command sku c f f' stop
    unchanged k =
        let first : f ≡ f' = cc in
        let second : false ≡ stop = cc in
        subst (λ (x : Filling). Visited names command sku c f x stop) first
          (subst (λ (b : Bool). Visited names command sku c f f b) second passed)

-- What is left after a part was taken.
left_after :
    (r q : ℤ)
    → pos 0 ≤ℤ q
    → q ≤ℤ r
    → IsInt64 r
    → (sub64 r q ≡ r -ℤ q) × (pos 0 ≤ℤ sub64 r q) × IsInt64 (sub64 r q)
unfolding ◌-ℤ◌
left_after r q h k i =
    let e : sub64 r q ≡ r -ℤ q = wrap64_self (r -ℤ q) (ground arith) in
    rw e (refl, ground arith, ground arith)

amounts_kept :
    (sku s : String) (xs : List ReservationAllocation) (a : ReservationAllocation) (r q rest : ℤ)
    → a.sku ≡ sku
    → a.quantity ≡ q
    → rest ≡ r -ℤ q
    → amount_of s (xs ++ a ∷ []) +ℤ part sku s rest ≡ amount_of s xs +ℤ part sku s r
amounts_kept sku s xs a r q rest e f g = elim (Bool-cases (str_eq sku s)) [
  | inl same ↦ rw (amount_of-append s xs a, e, f, g, same) (omega int_laws)
  | inr apart ↦ rw (amount_of-append s xs a, e, apart) (omega int_laws)
]

least-le : (r free : ℤ) → least r free ≤ℤ r
least-le r free = ground arith

allocated_sku :
    {command : ReserveCommand} {sku : String} {c : LevelRow} {q : ℤ} {t t' : Tables}
    {a : ReservationAllocation}
    → IsPlaced command sku c q t t' a
    → a.sku ≡ sku
unfolding allocation_from_reservation
allocated_sku p = ap (λ (x : ReservationAllocation). x.sku) p.allocation ∙ p.of_sku

allocated_quantity :
    {command : ReserveCommand} {sku : String} {c : LevelRow} {q : ℤ} {t t' : Tables}
    {a : ReservationAllocation}
    → IsPlaced command sku c q t t' a
    → a.quantity ≡ q
unfolding allocation_from_reservation
allocated_quantity p = ap (λ (x : ReservationAllocation). x.quantity) p.allocation ∙ p.of_quantity

pub Visited-IsFilled :
    {names : Names} {command : ReserveCommand} {sku : String} {c : LevelRow} {f f' : Filling}
    {stop : Bool}
    → Visited names command sku c f f' stop
    → IsSound f.tables
    → Distinct f.tables.levels
    → find_level sku c.location_id f.tables.levels ≡ some c
    → pos 0 ≤ℤ f.remaining
    → IsInt64 f.remaining
    → IsFilled command sku f f'
Visited-IsFilled passed h d cur n i = record {
  sound = h;
  distinct = d;
  same_terminal = refl;
  amounts = λ s. refl;
  others = λ o away k. k;
  nonneg = n;
  in_range = i;
}
Visited-IsFilled {sku} {c} {f} (allocated free done e p) h d cur n i =
    let q : ℤ = least f.remaining free in
    let valid = h.levels_valid sku c.location_id c cur in
    let can = (reserve_iff c.level p.new valid).0 p.accepted in
    let positive : pos 1 ≤ℤ q = rw p.of_quantity at can.positive in
    let left = left_after f.remaining q (omega (arith, positive)) (least-le f.remaining free) i in
    record {
      sound = placed-IsSound p cur h;
      distinct = rw p.new_levels (Distinct-update_reserved sku c.location_id _ f.tables.levels d);
      same_terminal = p.same_terminal;
      amounts = λ s.
          amounts_kept sku s f.allocations done.1 f.remaining q (sub64 f.remaining q)
            (allocated_sku p) (allocated_quantity p) (left.0);
      others = λ o away k.
          rw p.new_reservations (λ mine. absurd (ground (arith, away, (rw p.of_order at mine))), k);
      nonneg = left.1;
      in_range = left.2;
    }
