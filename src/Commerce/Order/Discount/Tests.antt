-- ===== src/Commerce/Order/Discount/Tests.antt =====
-- Runs of `AllocatePercentageDiscount`.
use jiade.Prelude.{◌≡◌, refl, some, none, List, [], ◌∷◌}
use jiade.Prelude.Int.{ℤ, pos, negsuc, quot, rem, ◌+ℤ◌, ◌-ℤ◌, ◌*ℤ◌}
use jiade.Prelude.Int64.{wrap64}
use jiade.Commerce.Order.Money.{checked_add}
use jiade.Commerce.Order.Discount.{
  add_amount, split_amounts, insert, sorted, increment, spread, allocate_percentage_discount,
}
use jiade.Commerce.Order.Discount.Sums.{Discounts, allocate_percentage_discount-Discounts}

-- A tenth of 3 cents in all: the cents left over go to the first of the greatest remainders.
abbrev amounts : List ℤ
amounts = pos 105 ∷ pos 109 ∷ pos 99 ∷ pos 109 ∷ []

split_tenth :
    allocate_percentage_discount amounts (pos 1000) ≡ some (pos 10 ∷ pos 11 ∷ pos 10 ∷ pos 11 ∷ [])
unfolding allocate_percentage_discount split_amounts add_amount checked_add wrap64 quot rem insert
    sorted increment spread ◌+ℤ◌ ◌-ℤ◌ ◌*ℤ◌
split_tenth = refl

negative_refused : allocate_percentage_discount (pos 5 ∷ negsuc 0 ∷ []) (pos 1000) ≡ none
unfolding allocate_percentage_discount split_amounts add_amount checked_add wrap64 quot rem insert
    sorted increment spread ◌+ℤ◌ ◌-ℤ◌ ◌*ℤ◌
negative_refused = refl

allocate_percentage_discount-Discounts_example :
    Discounts amounts (pos 1000) (allocate_percentage_discount amounts (pos 1000))
allocate_percentage_discount-Discounts_example =
    allocate_percentage_discount-Discounts amounts (pos 1000)
