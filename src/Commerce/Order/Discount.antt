-- ===== src/Commerce/Order/Discount.antt =====
-- `AllocatePercentageDiscount` of templates/commerce/internal/order/money.go. `none` is
-- ErrInvalidMoney. An allocation that an index does not have, where Go panics, is left out;
-- the theorem of Discount/Sums shows that there is none.
use jiade.Prelude.{
  ℕ, zero, suc, ◌+◌, ◌%◌, ◌==◌, Bool, not, ◌&&◌, ◌||◌, Option, none, some, List, [], ◌∷◌, length,
  get_elem?, if◌then◌else◌,
}
use jiade.Prelude.Int.{ℤ, pos, negsuc, pos_part, ltb_ℤ, eqb_ℤ}
use jiade.Prelude.Int64.{max_int64, add64, sub64, mul64, div64, rem64}
use jiade.Commerce.Order.Money.{checked_add}
pub mod Spread
pub mod Shares
pub mod Sums
mod Tests

-- A local type of the function.
pub record Remainder : Type 0 where
  pub index : ℕ
  pub value : ℤ

-- The variables of the first loop.
pub record Split : Type 0 where
  pub total : ℤ
  pub allocated : ℤ
  pub allocations : List ℤ
  pub remainders : List Remainder

-- The test before a product of the two.
abbrev pub overflows : ℤ → ℤ → Bool
overflows amount basis_points =
    not (eqb_ℤ amount (pos 0)) && ltb_ℤ (div64 max_int64 amount) basis_points

abbrev pub share : ℤ → ℤ → ℤ
share basis_points amount = div64 (mul64 amount basis_points) (pos 10000)

-- The body of the loop: the two sums after it.
unfoldable pub add_amount : ℤ → ℤ → ℤ → ℤ → Option (ℤ × ℤ)
add_amount basis_points amount total allocated =
    let new_total = checked_add total amount in
    let new_allocated = checked_add allocated (share basis_points amount) in
    if ltb_ℤ amount (pos 0)
    then none
    else if not new_total.1 || overflows amount basis_points
    then none
    else if not new_allocated.1
    then none
    else some (new_total.0, new_allocated.0)

abbrev pub with_line : ℤ → ℕ → ℤ → Split → Split
with_line basis_points i amount s = record s {
  allocations = share basis_points amount ∷ s.allocations;
  remainders =
      record { index = i; value = rem64 (mul64 amount basis_points) (pos 10000) } ∷ s.remainders;
}

abbrev pub with_first : ℤ → ℕ → ℤ → Option Split → Option Split
with_first basis_points i amount none = none
with_first basis_points i amount (some s) = some (with_line basis_points i amount s)

unfoldable pub split_amounts : ℤ → ℕ → List ℤ → ℤ → ℤ → Option Split
split_amounts basis_points i [] total allocated =
    some (record { total = total; allocated = allocated; allocations = []; remainders = [] })
split_amounts basis_points i (amount ∷ rest) total allocated =
    elim (add_amount basis_points amount total allocated) [
      | none ↦ none
      | some sums ↦
          with_first basis_points i amount (split_amounts basis_points (i + 1) rest sums.0 sums.1)
    ]

-- The stable sort, the greatest value first.
unfoldable pub insert : Remainder → List Remainder → List Remainder
insert r [] = r ∷ []
insert r (x ∷ xs) = let rest = insert r xs in if ltb_ℤ r.value x.value then x ∷ rest else r ∷ x ∷ xs

unfoldable pub sorted : List Remainder → List Remainder
sorted [] = []
sorted (r ∷ rs) = insert r (sorted rs)

unfoldable pub increment : List ℤ → ℕ → List ℤ
increment [] i = []
increment (x ∷ xs) zero = add64 x (pos 1) ∷ xs
increment (x ∷ xs) (suc i) = x ∷ increment xs i

abbrev pub increment_of : Option Remainder → List ℤ → List ℤ
increment_of none allocations = allocations
increment_of (some r) allocations = increment allocations r.index

-- The last loop, with the number of rounds that are left.
unfoldable pub spread : List Remainder → ℕ → List ℤ → List ℤ
spread rs zero allocations = allocations
spread rs (suc n) allocations =
    spread rs n (increment_of (get_elem? rs (n % length rs)) allocations)

abbrev pub target : ℤ → Split → ℤ
target basis_points s = div64 (mul64 s.total basis_points) (pos 10000)

unfoldable pub allocate_percentage_discount : List ℤ → ℤ → Option (List ℤ)
allocate_percentage_discount amounts basis_points =
    if length amounts == 0 || (ltb_ℤ basis_points (pos 0) || ltb_ℤ (pos 10000) basis_points)
    then none
    else elim (split_amounts basis_points 0 amounts (pos 0) (pos 0)) [
      | none ↦ none
      | some s ↦
          if overflows s.total basis_points
          then none
          else some (
              spread (sorted s.remainders) (pos_part (sub64 (target basis_points s) s.allocated))
                s.allocations)
    ]
