-- ===== src/Commerce/Order/Discount/Spread.antt =====
-- The last loop of `AllocatePercentageDiscount`, and the sort before it.
use native.Mathlib.Omega.{mod_fact}
use jiade.Prelude.{
  ℕ, zero, suc, ◌+◌, ◌%◌, ◌≤◌, ◌<◌, ◌≡◌, refl, ap, ◌∙◌, List, [], ◌∷◌, length, All, arith,
  get_elem?, Bool-cases, inl, inr,
}
use jiade.Prelude.Int.{ℤ, pos, negsuc, pos_part, ltb_ℤ, ◌≤ℤ◌, ◌+ℤ◌}
use jiade.Prelude.Int64.{half_range, wrap64, add64}
use jiade.Commerce.Order.Discount.{Remainder, insert, sorted, increment, increment_of, spread}

-- The sum of amounts that are not negative.
abbrev pub sum : List ℤ → ℕ
sum [] = 0
sum (x ∷ xs) = pos_part x + sum xs

abbrev pub AllNonneg : List ℤ → Type 0
AllNonneg xs = All (λ x. pos 0 ≤ℤ x) xs

pub increment_one : (x n : ℕ) → x + n + 1 < half_range → add64 (pos x) (pos 1) ≡ pos (x + 1)
unfolding wrap64 ◌+ℤ◌
increment_one x n h = ground arith

-- One more for an allocation that is there.
pub increment_lem :
    (xs : List ℤ) (i : ℕ)
    → AllNonneg xs
    → i < length xs
    → sum xs + 1 < half_range
    → AllNonneg (increment xs i)
      × (sum (increment xs i) ≡ sum xs + 1)
      × (length (increment xs i) ≡ length xs)
unfolding increment
increment_lem [] i a h k = absurd (omega arith)
increment_lem (negsuc n ∷ xs) i a h k = absurd (ground arith)
increment_lem (pos x ∷ xs) zero a h k =
    rw (increment_one x (sum xs) k) ((omega arith, a.1), omega arith, refl)
increment_lem (pos x ∷ xs) (suc i) a h k =
    let rest = increment_lem xs i (a.1) (omega arith) (omega arith) in
    ((a.0, rest.0), omega (arith, rest.1), ap suc (rest.2))

pub increment_of_lem :
    (rs : List Remainder) (i : ℕ) (xs : List ℤ)
    → All (λ r. r.index < length xs) rs
    → i < length rs
    → AllNonneg xs
    → sum xs + 1 < half_range
    → AllNonneg (increment_of (get_elem? rs i) xs)
      × (sum (increment_of (get_elem? rs i) xs) ≡ sum xs + 1)
      × (length (increment_of (get_elem? rs i) xs) ≡ length xs)
increment_of_lem [] i xs b h a k = absurd (omega arith)
increment_of_lem (r ∷ rs) zero xs b h a k = increment_lem xs r.index a (b.0) k
increment_of_lem (r ∷ rs) (suc i) xs b h a k = increment_of_lem rs i xs (b.1) (omega arith) a k

pub All-weaken :
    (rs : List Remainder) (k l : ℕ) → k ≤ l → All (λ r. r.index < k) rs → All (λ r. r.index < l) rs
All-weaken [] k l h a = tt
All-weaken (r ∷ rs) k l h a = (omega (arith, a.0), All-weaken rs k l h (a.1))

-- The last loop adds as many as it has rounds.
pub spread_lem :
    (rs : List Remainder) (n m : ℕ) (xs : List ℤ)
    → length rs ≡ suc m
    → All (λ r. r.index < length xs) rs
    → AllNonneg xs
    → sum xs + n < half_range
    → AllNonneg (spread rs n xs)
      × (sum (spread rs n xs) ≡ sum xs + n)
      × (length (spread rs n xs) ≡ length xs)
unfolding spread
spread_lem rs zero m xs q b a h = (a, omega arith, refl)
spread_lem rs (suc n) m xs q b a h =
    let i : ℕ = n % length rs in
    let within : i < length rs = rw q (mod_fact n m) in
    let one = increment_of_lem rs i xs b within a (omega arith) in
    let ys : List ℤ = increment_of (get_elem? rs i) xs in
    let rest =
      spread_lem rs n m ys q (All-weaken rs (length xs) (length ys) (omega (arith, one.2)) b)
        (one.0) (omega (arith, one.1)) in
    (rest.0, omega (arith, rest.1, one.1), rest.2 ∙ one.2)

-- Sorting keeps the length and the indices.
pub insert_lem :
    (k : ℕ) (r : Remainder) (rs : List Remainder)
    → r.index < k
    → All (λ r. r.index < k) rs
    → All (λ r. r.index < k) (insert r rs) × (length (insert r rs) ≡ suc (length rs))
unfolding insert
insert_lem k r [] h a = ((h, tt), refl)
insert_lem k r (x ∷ xs) h a =
    let rest = insert_lem k r xs h (a.1) in
    elim (Bool-cases (ltb_ℤ r.value x.value)) [
      | inl e ↦ rw e ((a.0, rest.0), ap suc (rest.1))
      | inr e ↦ rw e ((h, a), refl)
    ]

pub sorted_lem :
    (k : ℕ) (rs : List Remainder)
    → All (λ r. r.index < k) rs
    → All (λ r. r.index < k) (sorted rs) × (length (sorted rs) ≡ length rs)
unfolding sorted
sorted_lem k [] a = (tt, refl)
sorted_lem k (r ∷ rs) a =
    let rest = sorted_lem k rs (a.1) in
    let one = insert_lem k r (sorted rs) (a.0) (rest.0) in (one.0, one.1 ∙ ap suc (rest.1))
