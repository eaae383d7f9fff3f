-- ===== src/Commerce/Order/Money.antt =====
-- The totals of an order: templates/commerce/internal/order/money.go. `none` is ErrInvalidMoney,
-- the only error of these functions, with empty totals.
use jiade.Prelude.{
  Bool, true, false, not, ◌&&◌, ◌||◌, ◌==◌, Option, none, some, List, [], ◌∷◌, length,
  if◌then◌else◌,
}
use jiade.Prelude.Int.{ℤ, pos, ltb_ℤ, leb_ℤ, eqb_ℤ}
use jiade.Prelude.Int64.{max_int64, add64, sub64, mul64, div64}

pub record Line : Type 0 where
  pub quantity : ℤ
  pub unit_price_minor : ℤ
  pub discount_minor : ℤ

pub record Totals : Type 0 where
  pub subtotal : ℤ
  pub discount : ℤ
  pub shipping : ℤ
  pub tax : ℤ
  pub total : ℤ

unfoldable pub checked_multiply : ℤ → ℤ → ℤ × Bool
checked_multiply left right =
    if ltb_ℤ left (pos 0) || ltb_ℤ right (pos 0)
    then (pos 0, false)
    else if not (eqb_ℤ left (pos 0)) && ltb_ℤ (div64 max_int64 left) right
    then (pos 0, false)
    else (mul64 left right, true)

unfoldable pub checked_add : ℤ → ℤ → ℤ × Bool
checked_add left right =
    if ltb_ℤ left (pos 0) || (ltb_ℤ right (pos 0) || ltb_ℤ (sub64 max_int64 left) right)
    then (pos 0, false)
    else (add64 left right, true)

-- The body of the loop over the lines, with the subtotal and the discount so far.
unfoldable pub add_line : Line → ℤ → ℤ → Option (ℤ × ℤ)
unfolding checked_multiply checked_add
add_line line subtotal discount =
    let gross = checked_multiply line.quantity line.unit_price_minor in
    let new_subtotal = checked_add subtotal gross.0 in
    let new_discount = checked_add discount line.discount_minor in
    if leb_ℤ line.quantity (pos 0)
      || (ltb_ℤ line.unit_price_minor (pos 0) || ltb_ℤ line.discount_minor (pos 0))
    then none
    else if not gross.1 || ltb_ℤ gross.0 line.discount_minor
    then none
    else if not new_subtotal.1
    then none
    else if not new_discount.1
    then none
    else some (new_subtotal.0, new_discount.0)

unfoldable pub add_lines : List Line → ℤ → ℤ → Option (ℤ × ℤ)
unfolding add_line
add_lines [] subtotal discount = some (subtotal, discount)
add_lines (line ∷ rest) subtotal discount = elim (add_line line subtotal discount) [
  | none ↦ none
  | some sums ↦ add_lines rest sums.0 sums.1
]

-- The part of `CalculateTotals` after the loop.
unfoldable pub finish : ℤ → ℤ → ℤ → ℤ → Option Totals
unfolding checked_add
finish subtotal discount shipping tax =
    let shipped = checked_add (sub64 subtotal discount) shipping in
    let taxed = checked_add shipped.0 tax in
    if ltb_ℤ subtotal discount
    then none
    else if not shipped.1
    then none
    else if not taxed.1
    then none
    else some (record {
      subtotal = subtotal;
      discount = discount;
      shipping = shipping;
      tax = tax;
      total = taxed.0;
    })

unfoldable pub calculate_totals : List Line → ℤ → ℤ → Option Totals
unfolding add_lines finish
calculate_totals lines shipping tax =
    if length lines == 0
    then none
    else if ltb_ℤ shipping (pos 0) || ltb_ℤ tax (pos 0)
    then none
    else elim (add_lines lines (pos 0) (pos 0)) [
      | none ↦ none
      | some sums ↦ finish sums.0 sums.1 shipping tax
    ]
