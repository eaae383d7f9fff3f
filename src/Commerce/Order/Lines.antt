-- ===== src/Commerce/Order/Lines.antt =====
-- The lines of an order and the sums over them: templates/commerce/internal/order/money.go.
use jiade.Prelude.{
  ℕ, ◌+◌, ◌*◌, ◌≤◌, ◌<◌, ◌≡◌, ◌≢◌, inl, inr, sym, ap, ◌∙◌, false, not, ◌||◌, Option, none, some,
  Option-cases, List, [], ◌∷◌, All, arith,
}
use jiade.Prelude.Int.{ℤ, pos, pos_part, ◌≤ℤ◌, ltb_ℤ, leb_ℤ}
use jiade.Prelude.Int64.{half_range}
use jiade.Commerce.Order.Money.{Line, checked_multiply, checked_add, add_line, add_lines}
use jiade.Commerce.Order.Checked.{
  checked_multiply_parts, checked_add_pos, checked, accepted_as, four_tests, or_left, or_right,
  nonneg, parts_multiplied, no_more,
}

-- The price of a line before its discount.
abbrev pub gross : Line → ℕ
gross l = pos_part l.quantity * pos_part l.unit_price_minor

abbrev pub discount_of : Line → ℕ
discount_of l = pos_part l.discount_minor

-- A line that the totals accept.
pub record ValidLine (l : Line) : Type 0 where
  pub some_items : pos 1 ≤ℤ l.quantity
  pub price : pos 0 ≤ℤ l.unit_price_minor
  pub no_surcharge : pos 0 ≤ℤ l.discount_minor
  pub covered : discount_of l ≤ gross l

line_signs :
    (l : Line)
    → (leb_ℤ l.quantity (pos 0)
        || (ltb_ℤ l.unit_price_minor (pos 0) || ltb_ℤ l.discount_minor (pos 0)))
      ≡ false
    → (pos 1 ≤ℤ l.quantity) × (pos 0 ≤ℤ l.unit_price_minor) × (pos 0 ≤ℤ l.discount_minor)
line_signs l h = (ground arith, ground arith, ground arith)

module _ (l : Line) (s d : ℕ) (hs : s < half_range) (hd : d < half_range) where
  add_line_accepts :
      ValidLine l
      → s + gross l < half_range
      → d + discount_of l < half_range
      → add_line l (pos s) (pos d) ≡ some (pos (s + gross l), pos (d + discount_of l))
  unfolding add_line
  add_line_accepts v fs fd = ground (
    arith,
    v.some_items,
    v.price,
    v.no_surcharge,
    v.covered,
    checked_multiply_parts l.quantity l.unit_price_minor,
    checked_add_pos s (gross l) hs,
    checked_add_pos d (discount_of l) hd,
  )

  add_line_only :
      (r : ℤ × ℤ)
      → add_line l (pos s) (pos d) ≡ some r
      → (pos 1 ≤ℤ l.quantity)
        × (pos 0 ≤ℤ l.unit_price_minor)
        × (pos 0 ≤ℤ l.discount_minor)
        × (discount_of l ≤ gross l)
        × (s + gross l < half_range)
        × (d + discount_of l < half_range)
        × (r ≡ (pos (s + gross l), pos (d + discount_of l)))
  unfolding add_line
  add_line_only r h =
      let g = checked_multiply l.quantity l.unit_price_minor in
      let sum = checked_add (pos s) g.0 in
      let off = checked_add (pos d) l.discount_minor in
      let tests =
        four_tests
          (leb_ℤ l.quantity (pos 0)
            || (ltb_ℤ l.unit_price_minor (pos 0) || ltb_ℤ l.discount_minor (pos 0)))
          (not g.1 || ltb_ℤ g.0 l.discount_minor) (not sum.1) (not off.1) (sum.0, off.0) r h in
      let (items, price, cut) = line_signs l tests.0 in
      let product = parts_multiplied l.quantity l.unit_price_minor items price in
      let (g_fits, g_is) = accepted_as g (gross l) product (or_left _ _ tests.1) in
      let sum_is : sum ≡ checked (s + gross l) =
        ap (checked_add (pos s)) g_is ∙ checked_add_pos s (gross l) hs in
      let off_is : off ≡ checked (d + discount_of l) =
        ap (checked_add (pos d)) (nonneg l.discount_minor cut)
        ∙ checked_add_pos d (discount_of l) hd in
      let (s_fits, s_is) = accepted_as sum (s + gross l) sum_is tests.2 in
      let (d_fits, d_is) = accepted_as off (d + discount_of l) off_is tests.3 in
      let covered = no_more g.0 l.discount_minor (gross l) g_is cut (or_right _ _ tests.1) in
      (
        items,
        price,
        cut,
        covered,
        s_fits,
        d_fits,
        sym tests.4 ∙ ap (λ x. (x, off.0)) s_is ∙ ap (λ y. (pos (s + gross l), y)) d_is,
      )

abbrev pub gross_sum : List Line → ℕ
gross_sum [] = 0
gross_sum (l ∷ ls) = gross l + gross_sum ls

abbrev pub discount_sum : List Line → ℕ
discount_sum [] = 0
discount_sum (l ∷ ls) = discount_of l + discount_sum ls

no_sums : (r : ℤ × ℤ) → none ≢ some r
no_sums r h = cc

-- The loop after the sums of a line.
abbrev sums_after : List Line → Option (ℤ × ℤ) → Option (ℤ × ℤ)
sums_after ls none = none
sums_after ls (some sums) = add_lines ls sums.0 sums.1

pub add_lines_only :
    (ls : List Line) (s d : ℕ) (r : ℤ × ℤ)
    → s < half_range
    → d < half_range
    → add_lines ls (pos s) (pos d) ≡ some r
    → All ValidLine ls
      × (s + gross_sum ls < half_range)
      × (d + discount_sum ls < half_range)
      × (r ≡ (pos (s + gross_sum ls), pos (d + discount_sum ls)))
unfolding add_lines
add_lines_only [] s d r hs hd h = (tt, omega (arith, hs), omega (arith, hd), ground arith)
add_lines_only (l ∷ ls) s d r hs hd h = elim (Option-cases (add_line l (pos s) (pos d))) [
  | inl refused ↦ absurd (no_sums r (sym (ap (sums_after ls) refused) ∙ h))
  | inr (next, added) ↦
      let (items, price, cut, covered, s_fits, d_fits, next_is) =
        add_line_only l s d hs hd next added in
      let rest : add_lines ls (pos (s + gross l)) (pos (d + discount_of l)) ≡ some r =
        sym (ap (sums_after ls) (added ∙ ap some next_is)) ∙ h in
      let (valid, all_s, all_d, r_is) =
        add_lines_only ls (s + gross l) (d + discount_of l) r s_fits d_fits rest in
      (
        (
          record { some_items = items; price = price; no_surcharge = cut; covered = covered },
          valid,
        ),
        omega (arith, all_s),
        omega (arith, all_d),
        r_is ∙ ground arith,
      )
]

pub add_lines_accepts :
    (ls : List Line) (s d : ℕ)
    → All ValidLine ls
    → s + gross_sum ls < half_range
    → d + discount_sum ls < half_range
    → add_lines ls (pos s) (pos d) ≡ some (pos (s + gross_sum ls), pos (d + discount_sum ls))
unfolding add_lines
add_lines_accepts [] s d v hs hd = ground arith
add_lines_accepts (l ∷ ls) s d v hs hd =
    rw
      (
        add_line_accepts l s d (omega arith) (omega arith) v.0 (omega arith) (omega arith),
        add_lines,
      )
      (add_lines_accepts ls (s + gross l) (d + discount_of l) v.1 (omega arith) (omega arith)
        ∙ ground arith)
