-- ===== src/Bank/CoreBanking/Words.antt =====
-- Sums that wrap around, against the exact sums.
use jiade.Prelude.{refl, ◌≡◌, sym, ap, ◌∙◌, arith}
use jiade.Prelude.Int.{ℤ, pos, ◌+ℤ◌, ◌-ℤ◌, +ℤ_comm}
use jiade.Prelude.Int64.{wrap64, add64, sub64}

pub add64_wrap : (a b : ℤ) → add64 (wrap64 a) b ≡ wrap64 (a +ℤ b)
unfolding wrap64 ◌+ℤ◌
add64_wrap a b = ground arith

pub sub64_wrap : (a b : ℤ) → sub64 (wrap64 a) b ≡ wrap64 (a -ℤ b)
unfolding wrap64 ◌-ℤ◌
sub64_wrap a b = ground arith

pub sub64_wrap_right : (a b : ℤ) → sub64 a (wrap64 b) ≡ wrap64 (a -ℤ b)
unfolding wrap64 ◌-ℤ◌
sub64_wrap_right a b = ground arith

-- Equal words stay equal.
pub wrap64-+ℤ :
    (x y p q : ℤ) → wrap64 x ≡ wrap64 y → wrap64 p ≡ wrap64 q → wrap64 (x +ℤ p) ≡ wrap64 (y +ℤ q)
wrap64-+ℤ x y p q e f =
    sym (add64_wrap x p)
    ∙ ap (λ w. add64 w p) e
    ∙ add64_wrap y p
    ∙ ap wrap64 (+ℤ_comm y p)
    ∙ sym (add64_wrap p y)
    ∙ ap (λ w. add64 w y) f
    ∙ add64_wrap q y
    ∙ ap wrap64 (+ℤ_comm q y)

pub wrap64--ℤ : (a x y : ℤ) → wrap64 x ≡ wrap64 y → wrap64 (a -ℤ x) ≡ wrap64 (a -ℤ y)
wrap64--ℤ a x y e = sym (sub64_wrap_right a x) ∙ ap (λ w. sub64 a w) e ∙ sub64_wrap_right a y

pub wrap64_zero : wrap64 (pos 0) ≡ pos 0
unfolding wrap64
wrap64_zero = refl
