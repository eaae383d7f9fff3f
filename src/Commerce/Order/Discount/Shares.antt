-- ===== src/Commerce/Order/Discount/Shares.antt =====
-- The first loop of `AllocatePercentageDiscount`.
use native.Mathlib.Nat.{le-div_iff_mul-le, mul_comm, mul-add}
use jiade.Prelude.{
  ℕ, zero, suc, ◌+◌, ◌*◌, ◌/◌, ◌≤◌, ◌<◌, ◌≡◌, refl, sym, subst, ap, ◌∙◌, Bool, true, false, not,
  ◌||◌, Option, none, some, List, [], ◌∷◌, length, All, arith, if◌then◌else◌,
}
use jiade.Prelude.Int.{ℤ, pos, negsuc, pos_part, ltb_ℤ, ◌≤ℤ◌, ◌*ℤ◌, quot}
use jiade.Prelude.Int64.{half_range, wrap64}
use jiade.Commerce.Order.Checked.{checked_add_pos, accepted_as, or_left, or_right}
use jiade.Commerce.Order.Money.{checked_add}
use jiade.Commerce.Order.Discount.{
  Split, overflows, share, add_amount, with_line, with_first, split_amounts,
}
use jiade.Commerce.Order.Discount.Spread.{sum, AllNonneg, All-weaken}

-- A product that passes the test has no overflow.
pub fits : (n p : ℕ) → overflows (pos n) (pos p) ≡ false → n * p < half_range
unfolding wrap64 quot
fits zero p h = omega arith
fits (suc n) p h =
    let bound = le-div_iff_mul-le {k = suc n} {x = p} {y = 9223372036854775807} (omega arith) in
    ground (arith, bound.0, bound.1)

pub share_pos : (n p : ℕ) → n * p < half_range → share (pos p) (pos n) ≡ pos (n * p / 10000)
unfolding wrap64 quot ◌*ℤ◌
share_pos n p h = ground arith

-- The exact sum of the shares, each rounded down.
abbrev pub floors : ℕ → List ℤ → ℕ
floors p [] = 0
floors p (x ∷ xs) = pos_part x * p / 10000 + floors p xs

pub distribute : (x y p : ℕ) → (x + y) * p ≡ x * p + y * p
distribute x y p = omega (arith, mul_comm (x + y) p, mul-add p x y, mul_comm p x, mul_comm p y)

-- Rounding down each share gives no more than rounding down the whole.
pub floors_lem : (p : ℕ) (xs : List ℤ) → floors p xs ≤ sum xs * p / 10000
floors_lem p [] = omega arith
floors_lem p (x ∷ xs) = omega (arith, floors_lem p xs, distribute (pos_part x) (sum xs) p)

pub three_passed :
    {A : Type 0} (a b c : Bool) (x r : A)
    → (if a then none else if b then none else if c then none else some x) ≡ some r
    → (b ≡ false) × (c ≡ false) × (x ≡ r)
three_passed true b c x r h = cc
three_passed false true c x r h = cc
three_passed false false true x r h = cc
three_passed false false false x r h = (refl, refl, cc)

pub pair_of : {a b c d : ℤ} → a ≡ c → b ≡ d → ◌≡◌ {A = ℤ × ℤ} (a, b) (c, d)
pair_of e f = cc

-- One round of the first loop that meets no error.
pub add_amount_lem :
    (p t a : ℕ) (amount : ℤ) (sums : ℤ × ℤ)
    → t < half_range
    → a < half_range
    → add_amount (pos p) amount (pos t) (pos a) ≡ some sums
    → (pos 0 ≤ℤ amount)
      × (share (pos p) amount ≡ pos (pos_part amount * p / 10000))
      × (sums ≡ (pos (t + pos_part amount), pos (a + pos_part amount * p / 10000)))
      × (t + pos_part amount < half_range)
      × (a + pos_part amount * p / 10000 < half_range)
unfolding add_amount
add_amount_lem p t a (negsuc n) sums ht ha h = absurd (ground arith)
add_amount_lem p t a (pos n) sums ht ha h =
    let new_total = checked_add (pos t) (pos n) in
    let new_allocated = checked_add (pos a) (share (pos p) (pos n)) in
    let over : Bool = overflows (pos n) (pos p) in
    let passed =
      three_passed (ltb_ℤ (pos n) (pos 0)) (not new_total.1 || over) (not new_allocated.1)
        (new_total.0, new_allocated.0) sums h in
    let part : share (pos p) (pos n) ≡ pos (n * p / 10000) =
      share_pos n p (fits n p (or_right (not new_total.1) over (passed.0))) in
    let whole =
      accepted_as new_total (t + n) (checked_add_pos t n ht)
        (or_left (not new_total.1) over (passed.0)) in
    let some_of =
      accepted_as new_allocated (a + n * p / 10000)
        (ap (checked_add (pos a)) part ∙ checked_add_pos a (n * p / 10000) ha) (passed.1) in
    let sums_are : (new_total.0, new_allocated.0) ≡ sums = passed.2 in
    (omega arith, part, sym sums_are ∙ pair_of (whole.1) (some_of.1), whole.0, some_of.0)

-- What the first loop leaves, from the sums `t` and `a` and the index `i` on.
pub record IsSplit (p i t a : ℕ) (xs : List ℤ) (s : Split) : Type 0 where
  pub nonneg : AllNonneg xs
  pub total_is : s.total ≡ pos (t + sum xs)
  pub total_fits : t + sum xs < half_range
  pub allocated_is : s.allocated ≡ pos (a + floors p xs)
  pub allocations_nonneg : AllNonneg s.allocations
  pub allocations_sum : sum s.allocations ≡ floors p xs
  pub allocations_length : length s.allocations ≡ length xs
  pub indices : All (λ r. r.index < i + length xs) s.remainders
  pub remainders_length : length s.remainders ≡ length xs

pub IsSplit-with_line :
    (p i t a : ℕ) (x : ℤ) (xs : List ℤ) (s : Split)
    → pos 0 ≤ℤ x
    → share (pos p) x ≡ pos (pos_part x * p / 10000)
    → IsSplit p (i + 1) (t + pos_part x) (a + pos_part x * p / 10000) xs s
    → IsSplit p i t a (x ∷ xs) (with_line (pos p) i x s)
IsSplit-with_line p i t a x xs s h e f = record {
  nonneg = (h, f.nonneg);
  total_is = f.total_is ∙ ap pos (omega arith);
  total_fits = omega (arith, f.total_fits);
  allocated_is = f.allocated_is ∙ ap pos (omega arith);
  allocations_nonneg = (rw e (omega arith), f.allocations_nonneg);
  allocations_sum = rw e (omega (arith, f.allocations_sum));
  allocations_length = ap suc f.allocations_length;
  indices = (
    omega arith,
    All-weaken s.remainders (i + 1 + length xs) (i + suc (length xs)) (omega arith) f.indices,
  );
  remainders_length = ap suc f.remainders_length;
}

pub some_inj : {A : Type 0} (x y : A) → some x ≡ some y → x ≡ y
some_inj x y h = cc

pub with_first_some :
    (p i : ℕ) (x : ℤ) (o : Option Split) (s : Split) (P : Split → Type 0)
    → with_first (pos p) i x o ≡ some s
    → ((r : Split) → o ≡ some r → P (with_line (pos p) i x r))
    → P s
with_first_some p i x none s P h k = absurd cc
with_first_some p i x (some r) s P h k =
    let e : with_line (pos p) i x r ≡ s = cc in subst P e (k r refl)

pub split_rounds :
    (p i t a : ℕ) (x : ℤ) (xs : List ℤ) (s : Split)
    → t < half_range
    → a < half_range
    → ((t' a' : ℕ) (r : Split)
        → t' < half_range
        → a' < half_range
        → split_amounts (pos p) (i + 1) xs (pos t') (pos a') ≡ some r
        → IsSplit p (i + 1) t' a' xs r)
    → (o : Option (ℤ × ℤ)) → add_amount (pos p) x (pos t) (pos a) ≡ o
    → elim o [
      | none ↦ none
      | some sums ↦ with_first (pos p) i x (split_amounts (pos p) (i + 1) xs sums.0 sums.1)
    ]
      ≡ some s
    → IsSplit p i t a (x ∷ xs) s
split_rounds p i t a x xs s ht ha ih none e k = absurd cc
split_rounds p i t a x xs s ht ha ih (some sums) e k =
    let one = add_amount_lem p t a x sums ht ha e in
    with_first_some p i x (split_amounts (pos p) (i + 1) xs sums.0 sums.1) s
      (IsSplit p i t a (x ∷ xs)) k
      (λ r q. IsSplit-with_line p i t a x xs r (one.0) (one.1) (
        ih (t + pos_part x) (a + pos_part x * p / 10000) r (one.3) (one.4)
          (ap (λ (z : ℤ × ℤ). split_amounts (pos p) (i + 1) xs z.0 z.1) (sym (one.2)) ∙ q)))

pub split_amounts_lem :
    (p i t a : ℕ) (xs : List ℤ) (s : Split)
    → t < half_range
    → a < half_range
    → split_amounts (pos p) i xs (pos t) (pos a) ≡ some s
    → IsSplit p i t a xs s
unfolding split_amounts
split_amounts_lem p i t a [] s ht ha h =
    subst (IsSplit p i t a [])
      (some_inj (record { total = pos t; allocated = pos a; allocations = []; remainders = [] }) s
        h)
      (record {
        nonneg = tt;
        total_is = ap pos (omega arith);
        total_fits = omega arith;
        allocated_is = ap pos (omega arith);
        allocations_nonneg = tt;
        allocations_sum = refl;
        allocations_length = refl;
        indices = tt;
        remainders_length = refl;
      })
split_amounts_lem p i t a (x ∷ xs) s ht ha h =
    split_rounds p i t a x xs s ht ha
      (λ t' a' r ht' ha' q. split_amounts_lem p (i + 1) t' a' xs r ht' ha' q)
      (add_amount (pos p) x (pos t) (pos a)) refl h
