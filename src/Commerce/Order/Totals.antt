-- ===== src/Commerce/Order/Totals.antt =====
-- The totals of an order are exact: templates/commerce/internal/order/money.go.
use jiade.Prelude.{
  ℕ, ◌+◌, ◌-◌, ◌≤◌, ◌<◌, ◌≡◌, ◌≢◌, inl, inr, refl, sym, ap, ◌∙◌, true, false, not, ◌||◌, ◌==◌,
  Option, none, some, Option-cases, List, [], ◌∷◌, All, length, arith,
}
use jiade.Prelude.Int.{ℤ, pos, negsuc, pos_part, ◌≤ℤ◌, ltb_ℤ}
use jiade.Prelude.Int64.{half_range, sub64}
use jiade.Commerce.Order.Money.{Line, Totals, checked_add, add_lines, finish, calculate_totals}
use jiade.Commerce.Order.Checked.{
  checked_add_pos, checked, accepted_as, three_tests, two_tests, net,
}
use jiade.Commerce.Order.Lines.{
  ValidLine, gross_sum, discount_sum, add_lines_only, add_lines_accepts,
}

-- What is paid: the lines without their discounts, with shipping and tax.
abbrev pub paid : List Line → ℤ → ℤ → ℕ
paid ls shipping tax = gross_sum ls - discount_sum ls + pos_part shipping + pos_part tax

abbrev pub totals_of : List Line → ℤ → ℤ → Totals
totals_of ls shipping tax = record {
  subtotal = pos (gross_sum ls);
  discount = pos (discount_sum ls);
  shipping = shipping;
  tax = tax;
  total = pos (paid ls shipping tax);
}

discount_within : (ls : List Line) → All ValidLine ls → discount_sum ls ≤ gross_sum ls
discount_within [] v = omega arith
discount_within (l ∷ ls) v = omega (arith, v.0.covered, discount_within ls v.1)

finish_accepts :
    (s d a b : ℕ)
    → s < half_range
    → d ≤ s
    → s - d + a + b < half_range
    → finish (pos s) (pos d) (pos a) (pos b)
      ≡ some (record {
        subtotal = pos s;
        discount = pos d;
        shipping = pos a;
        tax = pos b;
        total = pos (s - d + a + b);
      })
unfolding finish
finish_accepts s d a b hs hd h =
    let shipped : checked_add (sub64 (pos s) (pos d)) (pos a) ≡ (pos (s - d + a), true) =
      rw (net s d hs hd) (checked_add_pos (s - d) a (omega (arith, hs)) ∙ ground arith) in
    let taxed : checked_add (pos (s - d + a)) (pos b) ≡ (pos (s - d + a + b), true) =
      checked_add_pos (s - d + a) b (omega (arith, h)) ∙ ground arith in
    let enough : ltb_ℤ (pos s) (pos d) ≡ false = ground arith in rw (enough, shipped, taxed) refl

finish_only :
    (s d a b : ℕ) (r : Totals)
    → s < half_range
    → finish (pos s) (pos d) (pos a) (pos b) ≡ some r
    → (d ≤ s) × (s - d + a + b < half_range)
unfolding finish
finish_only s d a b r hs h =
    let shipped = checked_add (sub64 (pos s) (pos d)) (pos a) in
    let taxed = checked_add shipped.0 (pos b) in
    let tests =
      three_tests (ltb_ℤ (pos s) (pos d)) (not shipped.1) (not taxed.1)
        (record {
          subtotal = pos s;
          discount = pos d;
          shipping = pos a;
          tax = pos b;
          total = taxed.0;
        })
        r h in
    let enough : d ≤ s = ground arith in
    let shipped_is : shipped ≡ checked (s - d + a) =
      rw (net s d hs enough) (checked_add_pos (s - d) a (omega (arith, hs))) in
    let (a_fits, a_is) = accepted_as shipped (s - d + a) shipped_is tests.1 in
    let taxed_is : taxed ≡ checked (s - d + a + b) =
      ap (λ x. checked_add x (pos b)) a_is ∙ checked_add_pos (s - d + a) b a_fits in
    (enough, (accepted_as taxed (s - d + a + b) taxed_is tests.2).0)

finish_exact :
    (s d : ℕ) (a b : ℤ)
    → s < half_range
    → d ≤ s
    → pos 0 ≤ℤ a
    → pos 0 ≤ℤ b
    → s - d + pos_part a + pos_part b < half_range
    → finish (pos s) (pos d) a b
      ≡ some (record {
        subtotal = pos s;
        discount = pos d;
        shipping = a;
        tax = b;
        total = pos (s - d + pos_part a + pos_part b);
      })
finish_exact s d (pos a) (pos b) hs hd ha hb h = finish_accepts s d a b hs hd h
finish_exact s d (pos a) (negsuc b) hs hd ha hb h = absurd (omega arith)
finish_exact s d (negsuc a) b hs hd ha hb h = absurd (omega arith)

finish_fits :
    (s d : ℕ) (a b : ℤ) (r : Totals)
    → s < half_range
    → pos 0 ≤ℤ a
    → pos 0 ≤ℤ b
    → finish (pos s) (pos d) a b ≡ some r
    → s - d + pos_part a + pos_part b < half_range
finish_fits s d (pos a) (pos b) r hs ha hb h = (finish_only s d a b r hs h).1
finish_fits s d (pos a) (negsuc b) r hs ha hb h = absurd (omega arith)
finish_fits s d (negsuc a) b r hs ha hb h = absurd (omega arith)

from_zero : (x y : ℕ) → ◌≡◌ {A = ℤ × ℤ} (pos (0 + x), pos (0 + y)) (pos x, pos y)
from_zero x y = ground arith

-- What an order needs: a line, on every line at least one item, no negative price and a discount
-- between nothing and the line's price, no negative shipping or tax, and prices and an amount to pay
-- that an int64 can hold.
pub record Payable (ls : List Line) (shipping tax : ℤ) : Type 0 where
  pub not_empty : 0 < length ls
  pub valid : All ValidLine ls
  pub shipping_nonneg : pos 0 ≤ℤ shipping
  pub tax_nonneg : pos 0 ≤ℤ tax
  pub subtotal_fits : gross_sum ls < half_range
  pub total_fits : paid ls shipping tax < half_range

no_totals : (r : Totals) → none ≢ some r
no_totals r h = cc

-- `CalculateTotals` after the loop has answered.
abbrev finished : ℤ → ℤ → Option (ℤ × ℤ) → Option Totals
finished shipping tax none = none
finished shipping tax (some sums) = finish sums.0 sums.1 shipping tax

module _ (ls : List Line) (shipping tax : ℤ) where
  -- An order that can be paid gets its totals, without an error and exactly: the subtotal is the sum
  -- of the prices, the discount the sum of the discounts, and the total is the subtotal without the
  -- discount, with shipping and tax; nothing wraps around.
  pub calculate_totals-Payable :
      Payable ls shipping tax → calculate_totals ls shipping tax ≡ some (totals_of ls shipping tax)
  unfolding calculate_totals
  calculate_totals-Payable h =
      let within = discount_within ls h.valid in
      let sums =
        add_lines_accepts ls 0 0 h.valid (omega (arith, h.subtotal_fits))
          (omega (arith, within, h.subtotal_fits))
        ∙ ap some (from_zero (gross_sum ls) (discount_sum ls)) in
      let some_lines : (length ls == 0) ≡ false = ground (arith, h.not_empty) in
      let signs : (ltb_ℤ shipping (pos 0) || ltb_ℤ tax (pos 0)) ≡ false =
        ground (arith, h.shipping_nonneg, h.tax_nonneg) in
      rw (some_lines, signs, sums)
        (finish_exact (gross_sum ls) (discount_sum ls) shipping tax h.subtotal_fits within
          h.shipping_nonneg h.tax_nonneg h.total_fits)

  -- Only such an order gets totals: without a line, with a line that is not valid, with a negative
  -- amount, or with a sum that an int64 cannot hold, it gets none.
  pub Payable-of_totals :
      (r : Totals) → calculate_totals ls shipping tax ≡ some r → Payable ls shipping tax
  unfolding calculate_totals
  Payable-of_totals r h =
      let (some_lines, signs, rest) =
        two_tests (length ls == 0) (ltb_ℤ shipping (pos 0) || ltb_ℤ tax (pos 0))
          (finished shipping tax (add_lines ls (pos 0) (pos 0))) r h in
      elim (Option-cases (add_lines ls (pos 0) (pos 0))) [
        | inl refused ↦ absurd (no_totals r (sym (ap (finished shipping tax) refused) ∙ rest))
        | inr (sums, added) ↦
            let (valid, s_fits, d_fits, sums_are) =
              add_lines_only ls 0 0 sums (omega arith) (omega arith) added in
            let ends : finish (pos (gross_sum ls)) (pos (discount_sum ls)) shipping tax ≡ some r =
              sym (ap (finished shipping tax) (added ∙ ap some (sums_are ∙ from_zero _ _)))
              ∙ rest in
            let fits : gross_sum ls < half_range = omega (arith, s_fits) in
            let ha : pos 0 ≤ℤ shipping = ground arith in
            let hb : pos 0 ≤ℤ tax = ground arith in
            (record {
              not_empty = ground arith;
              valid = valid;
              shipping_nonneg = ha;
              tax_nonneg = hb;
              subtotal_fits = fits;
              total_fits =
                  finish_fits (gross_sum ls) (discount_sum ls) shipping tax r fits ha hb ends;
            })
      ]
