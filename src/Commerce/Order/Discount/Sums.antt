-- ===== src/Commerce/Order/Discount/Sums.antt =====
-- What the allocations of `AllocatePercentageDiscount` sum up to.
use native.Mathlib.Nat.{le-div_iff_mul-le, mul_comm}
use jiade.Prelude.{
  ℕ, zero, suc, ◌+◌, ◌-◌, ◌*◌, ◌/◌, ◌≤◌, ◌<◌, ◌≡◌, ◌≢◌, refl, sym, ap, ◌∙◌, ◌==◌, Bool, true, false,
  ◌||◌, Option, none, some, List, [], ◌∷◌, length, All, arith, if◌then◌else◌, Bool-cases, inl, inr,
}
use jiade.Prelude.Int.{ℤ, pos, negsuc, pos_part, ltb_ℤ, ◌≤ℤ◌, ◌-ℤ◌, ◌*ℤ◌, quot}
use jiade.Prelude.Int64.{half_range, wrap64, sub64, mul64, div64}
use jiade.Commerce.Order.Checked.{checked_add_pos}
use jiade.Commerce.Order.Discount.{
  Split, overflows, target, spread, sorted, add_amount, with_first, split_amounts,
  allocate_percentage_discount,
}
use jiade.Commerce.Order.Discount.Spread.{sum, AllNonneg, sorted_lem, spread_lem, All-weaken}
use jiade.Commerce.Order.Discount.Shares.{
  fits, share_pos, floors, floors_lem, distribute, IsSplit, split_amounts_lem,
}

left_over_pos :
    (p n a : ℕ)
    → n * p < half_range
    → a ≤ n * p / 10000
    → pos_part (sub64 (div64 (mul64 (pos n) (pos p)) (pos 10000)) (pos a)) ≡ n * p / 10000 - a
unfolding wrap64 quot ◌*ℤ◌ ◌-ℤ◌
left_over_pos p n a h k = ground arith

-- The rounds of the last loop are what the sums of the first one leave over.
left_over :
    (p n a : ℕ) (s : Split)
    → s.total ≡ pos n
    → s.allocated ≡ pos a
    → n * p < half_range
    → a ≤ n * p / 10000
    → pos_part (sub64 (target (pos p) s) s.allocated) ≡ n * p / 10000 - a
left_over p n a s e f h k = rw (e, f) (left_over_pos p n a h k)

-- What the allocations of a discount are.
pub record IsDiscount (p : ℕ) (amounts out : List ℤ) : Type 0 where
  pub nonneg : AllNonneg out
  pub sums : sum out ≡ sum amounts * p / 10000
  pub lengths : length out ≡ length amounts

spread-IsDiscount :
    (p m : ℕ) (amounts : List ℤ) (s : Split)
    → length amounts ≡ suc m
    → IsSplit p 0 0 0 amounts s
    → sum amounts * p < half_range
    → IsDiscount p amounts (
        spread
          (sorted s.remainders)
          (pos_part (sub64 (target (pos p) s) s.allocated))
          s.allocations)
spread-IsDiscount p m amounts s q f h =
    let below = floors_lem p amounts in
    let total_from : 0 + sum amounts ≡ sum amounts = omega arith in
    let allocated_from : 0 + floors p amounts ≡ floors p amounts = omega arith in
    let rounds =
      left_over p (sum amounts) (floors p amounts) s (f.total_is ∙ ap pos total_from)
        (f.allocated_is ∙ ap pos allocated_from) h below in
    let indices : All (λ r. r.index < length s.allocations) s.remainders =
      All-weaken s.remainders (0 + length amounts) (length s.allocations)
        (omega (arith, f.allocations_length)) f.indices in
    let order = sorted_lem (length s.allocations) s.remainders indices in
    let all =
      spread_lem (sorted s.remainders) (sum amounts * p / 10000 - floors p amounts) m s.allocations
        (order.1 ∙ f.remainders_length ∙ q) (order.0) f.allocations_nonneg
        (omega (arith, below, f.allocations_sum)) in
    rw rounds (record {
      nonneg = all.0;
      sums = omega (arith, all.1, below, f.allocations_sum);
      lengths = all.2 ∙ f.allocations_length;
    })

no_overflow : (n p : ℕ) → n * p < half_range → overflows (pos n) (pos p) ≡ false
unfolding wrap64 quot
no_overflow zero p h = ground arith
no_overflow (suc n) p h =
    let bound = le-div_iff_mul-le {k = suc n} {x = p} {y = 9223372036854775807} (omega arith) in
    ground (arith, bound.0, bound.1, mul_comm p (suc n))

-- A round of the first loop for which there is room.
add_amount-accepts :
    (p n t a : ℕ)
    → n * p < half_range
    → t + n < half_range
    → a + n * p / 10000 < half_range
    → add_amount (pos p) (pos n) (pos t) (pos a) ≡ some (pos (t + n), pos (a + n * p / 10000))
unfolding add_amount
add_amount-accepts p n t a h k l =
    rw
      (
        share_pos n p h,
        checked_add_pos t n (omega arith),
        checked_add_pos a (n * p / 10000) (omega arith),
        no_overflow n p h,
      )
      (ground arith)

with_first-taken : (p i : ℕ) (x : ℤ) (o : Option Split) → o ≢ none → with_first (pos p) i x o ≢ none
with_first-taken p i x none h k = h refl
with_first-taken p i x (some s) h k = cc

split_amounts-accepts :
    (p i t a : ℕ) (xs : List ℤ)
    → AllNonneg xs
    → t + sum xs < half_range
    → sum xs * p < half_range
    → a + floors p xs < half_range
    → split_amounts (pos p) i xs (pos t) (pos a) ≢ none
unfolding split_amounts
split_amounts-accepts p i t a [] c h k l = λ e. cc
split_amounts-accepts p i t a (negsuc n ∷ xs) c h k l = absurd (ground arith)
split_amounts-accepts p i t a (pos n ∷ xs) c h k l =
    let products : n * p + sum xs * p < half_range = omega (arith, distribute n (sum xs) p) in
    rw (split_amounts, add_amount-accepts p n t a (omega arith) (omega arith) (omega arith))
      (with_first-taken p i (pos n)
        (split_amounts (pos p) (i + 1) xs (pos (t + n)) (pos (a + n * p / 10000)))
        (split_amounts-accepts p (i + 1) (t + n) (a + n * p / 10000) xs (c.1) (omega arith)
          (omega arith) (omega arith)))

-- The amounts and the rate that `AllocatePercentageDiscount` has room for.
pub record IsDiscountable (amounts : List ℤ) (basis_points : ℤ) : Type 0 where
  pub some_line : 0 < length amounts
  pub none_negative : AllNonneg amounts
  pub rate_nonneg : pos 0 ≤ℤ basis_points
  pub rate_bound : basis_points ≤ℤ pos 10000
  pub sum_fits : sum amounts < half_range
  pub product_fits : sum amounts * pos_part basis_points < half_range

-- What the outcome says of them.
abbrev pub Discounts : List ℤ → ℤ → Option (List ℤ) → Type 0
Discounts amounts basis_points none = ¬ IsDiscountable amounts basis_points
Discounts amounts basis_points (some out) = IsDiscount (pos_part basis_points) amounts out

guarded :
    (amounts : List ℤ) (b : ℤ)
    → (length amounts == 0 || (ltb_ℤ b (pos 0) || ltb_ℤ (pos 10000) b)) ≡ true
    → ¬ IsDiscountable amounts b
guarded amounts b h d = ground (arith, d.some_line, d.rate_nonneg, d.rate_bound)

second_guard :
    (p m : ℕ) (amounts : List ℤ) (s : Split)
    → length amounts ≡ suc m
    → IsSplit p 0 0 0 amounts s
    → Discounts amounts (pos p) (
        if overflows s.total (pos p)
        then none
        else some (
            spread
              (sorted s.remainders)
              (pos_part (sub64 (target (pos p) s) s.allocated))
              s.allocations))
second_guard p m amounts s q f =
    let total_from : 0 + sum amounts ≡ sum amounts = omega arith in
    let total_is : s.total ≡ pos (sum amounts) = f.total_is ∙ ap pos total_from in
    elim (Bool-cases (overflows s.total (pos p))) [
      | inl e ↦ rw e (λ d.
          let fine : overflows s.total (pos p) ≡ false =
            rw total_is (no_overflow (sum amounts) p d.product_fits) in
          cc)
      | inr e ↦ rw e (
          spread-IsDiscount p m amounts s q f
            (fits (sum amounts) p (ap (λ t. overflows t (pos p)) (sym total_is) ∙ e)))
    ]

first_loop :
    (p m : ℕ) (amounts : List ℤ) (o : Option Split)
    → length amounts ≡ suc m
    → split_amounts (pos p) 0 amounts (pos 0) (pos 0) ≡ o
    → Discounts amounts (pos p) (elim o [
      | none ↦ none
      | some s ↦
          if overflows s.total (pos p)
          then none
          else some (
              spread
                (sorted s.remainders)
                (pos_part (sub64 (target (pos p) s) s.allocated))
                s.allocations)
    ])
first_loop p m amounts none q e = λ d.
    split_amounts-accepts p 0 0 0 amounts d.none_negative (omega (arith, d.sum_fits)) d.product_fits
      (omega (arith, floors_lem p amounts, d.product_fits)) e
first_loop p m amounts (some s) q e =
    second_guard p m amounts s q (split_amounts_lem p 0 0 0 amounts s (omega arith) (omega arith) e)

-- An allocation fails only for no lines, a negative amount, a rate that is not between 0 and 10000,
-- or a sum that is no int64 or whose product with the rate is none. Else `AllocatePercentageDiscount`
-- gives one allocation for each line, none of them negative, and their sum is the sum of the amounts
-- times the rate over 10000, rounded down once.
pub allocate_percentage_discount-Discounts :
    (amounts : List ℤ) (basis_points : ℤ)
    → Discounts amounts basis_points (allocate_percentage_discount amounts basis_points)
unfolding allocate_percentage_discount
allocate_percentage_discount-Discounts [] b = λ d. omega (arith, d.some_line)
allocate_percentage_discount-Discounts (x ∷ xs) (negsuc n) =
    let e : (length (x ∷ xs) == 0 || (ltb_ℤ (negsuc n) (pos 0) || ltb_ℤ (pos 10000) (negsuc n)))
        ≡ true =
      ground arith in
    rw e (guarded (x ∷ xs) (negsuc n) e)
allocate_percentage_discount-Discounts (x ∷ xs) (pos p) =
    let guard : Bool =
      length (x ∷ xs) == 0 || (ltb_ℤ (pos p) (pos 0) || ltb_ℤ (pos 10000) (pos p)) in
    elim (Bool-cases guard) [
      | inl e ↦ rw e (guarded (x ∷ xs) (pos p) e)
      | inr e ↦ rw e (
          first_loop p (length xs) (x ∷ xs) (split_amounts (pos p) 0 (x ∷ xs) (pos 0) (pos 0)) refl
            refl)
    ]
