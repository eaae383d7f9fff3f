-- ===== src/Commerce/Order/Checked.antt =====
-- Checked sums and products of amounts: templates/commerce/internal/order/money.go.
use native.Mathlib.Nat.{le-div_iff_mul-le, mul_comm}
use jiade.Prelude.{
  ℕ, zero, suc, ◌+◌, ◌-◌, ◌*◌, ◌≤◌, ◌<◌, ◌≡◌, refl, ◌∙◌, Bool, true, false, not, ◌||◌, Option, none,
  some, ltb, arith, if◌then◌else◌,
}
use jiade.Prelude.Int.{ℤ, pos, negsuc, pos_part, ◌≤ℤ◌, ◌+ℤ◌, ◌-ℤ◌, ◌*ℤ◌, quot, ltb_ℤ}
use jiade.Prelude.Int64.{half_range, wrap64, sub64}
use jiade.Commerce.Order.Money.{checked_multiply, checked_add}

-- The sum of two amounts, when it is accepted.
pub checked_add_pos :
    (x y : ℕ)
    → x < half_range
    → checked_add (pos x) (pos y)
      ≡ (if ltb (x + y) half_range then (pos (x + y), true) else (pos 0, false))
unfolding checked_add wrap64 ◌+ℤ◌ ◌-ℤ◌
checked_add_pos x y h = ground arith

checked_multiply_zero : (y : ℕ) → checked_multiply (pos 0) (pos y) ≡ (pos 0, true)
unfolding checked_multiply wrap64 ◌*ℤ◌ quot
checked_multiply_zero y = ground arith

checked_multiply_pos :
    (x y : ℕ)
    → checked_multiply (pos (suc x)) (pos y)
      ≡ (if ltb (suc x * y) half_range then (pos (suc x * y), true) else (pos 0, false))
unfolding checked_multiply wrap64 ◌*ℤ◌ quot
checked_multiply_pos x y =
    let bound = le-div_iff_mul-le {k = suc x} {x = y} {y = 9223372036854775807} (omega arith) in
    ground (arith, bound.0, bound.1, mul_comm y (suc x))

pub checked_multiply_parts :
    (a b : ℤ)
    → ltb_ℤ a (pos 0) ≡ false
    → ltb_ℤ b (pos 0) ≡ false
    → checked_multiply a b ≡ (
        if ltb (pos_part a * pos_part b) half_range
        then (pos (pos_part a * pos_part b), true)
        else (pos 0, false))
checked_multiply_parts (pos zero) (pos y) h k = checked_multiply_zero y ∙ ground arith
checked_multiply_parts (pos (suc x)) (pos y) h k = checked_multiply_pos x y
checked_multiply_parts (pos x) (negsuc y) h k = absurd (ground arith)
checked_multiply_parts (negsuc x) b h k = absurd (ground arith)

-- An amount that is accepted when it fits.
abbrev pub checked : ℕ → ℤ × Bool
checked n = if ltb n half_range then (pos n, true) else (pos 0, false)

pub accepted_as :
    (c : ℤ × Bool) (n : ℕ) → c ≡ checked n → not c.1 ≡ false → (n < half_range) × (c.0 ≡ pos n)
accepted_as c n q h = (ground arith, ground arith)

pub four_tests :
    {A : Type 0} (a b c d : Bool) (x r : A)
    → (if a then none else if b then none else if c then none else if d then none else some x)
      ≡ some r
    → (a ≡ false) × (b ≡ false) × (c ≡ false) × (d ≡ false) × (x ≡ r)
four_tests true b c d x r h = cc
four_tests false true c d x r h = cc
four_tests false false true d x r h = cc
four_tests false false false true x r h = cc
four_tests false false false false x r h = (refl, refl, refl, refl, cc)

pub or_left : (a b : Bool) → (a || b) ≡ false → a ≡ false
or_left a b h = ground arith

pub or_right : (a b : Bool) → (a || b) ≡ false → b ≡ false
or_right a b h = ground arith

pub nonneg : (a : ℤ) → pos 0 ≤ℤ a → a ≡ pos (pos_part a)
nonneg a h = ground arith

pub parts_multiplied :
    (a b : ℤ) → pos 1 ≤ℤ a → pos 0 ≤ℤ b → checked_multiply a b ≡ checked (pos_part a * pos_part b)
parts_multiplied a b h k = checked_multiply_parts a b (ground arith) (ground arith)

pub no_more : (g a : ℤ) (n : ℕ) → g ≡ pos n → pos 0 ≤ℤ a → ltb_ℤ g a ≡ false → pos_part a ≤ n
no_more g a n q k h = ground arith

pub net : (s d : ℕ) → s < half_range → d ≤ s → sub64 (pos s) (pos d) ≡ pos (s - d)
unfolding wrap64 ◌-ℤ◌
net s d h k = ground arith

pub three_tests :
    {A : Type 0} (a b c : Bool) (x r : A)
    → (if a then none else if b then none else if c then none else some x) ≡ some r
    → (a ≡ false) × (b ≡ false) × (c ≡ false)
three_tests true b c x r h = cc
three_tests false true c x r h = cc
three_tests false false true x r h = cc
three_tests false false false x r h = (refl, refl, refl)

pub two_tests :
    {A : Type 0} (a b : Bool) (o : Option A) (r : A)
    → (if a then none else if b then none else o) ≡ some r
    → (a ≡ false) × (b ≡ false) × (o ≡ some r)
two_tests true b o r h = cc
two_tests false true o r h = cc
two_tests false false o r h = (refl, refl, h)
