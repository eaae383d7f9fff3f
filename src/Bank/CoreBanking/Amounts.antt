-- ===== src/Bank/CoreBanking/Amounts.antt =====
-- The round trip of amounts through text:
-- templates/bank/internal/corebanking/domain/money.go.
use jiade.Prelude.{
  ℕ, zero, suc, ◌+◌, ◌/◌, ◌%◌, ◌<◌, ◌≡◌, ◌≢◌, refl, ap, ◌∙◌, Bool, true, false, ◌&&◌, ◌==◌, some,
  List, [], ◌∷◌, ◌++◌, ltb, All, arith, Bool-cases, inl, inr,
}
use jiade.Prelude.Int64.{half_range, IsInt64, wrap64, sub64, div64, rem64}
use jiade.Prelude.Int.{ℤ, pos, negsuc, ◌-ℤ◌, quot, rem, ltb_ℤ}
use jiade.Bank.CoreBanking.Cents.{
  minus_sign, dot, is_space, trim_left, none_left, trim_right, digits, print, two_places, yuan_text,
  money_text, value, unsigned, in_range_pos, parse_int, before_dot, after_dot, zero_if_empty,
  signed, parse_amount, parse_signed, parse_cents,
}
use jiade.Bank.CoreBanking.Digits.{
  IsDigit, pow10, All-append, digits-IsDigit, value-append, value-digits,
}

-- A digit, a dot and a sign are no white space.
abbrev IsPlain : ℕ → Type 0
IsPlain c = is_space c ≡ false

IsPlain-digit : (c : ℕ) → IsDigit c → IsPlain c
IsPlain-digit c h = ground arith

All-IsPlain : (cs : List ℕ) → All IsDigit cs → All IsPlain cs
All-IsPlain [] h = tt
All-IsPlain (c ∷ cs) h = (IsPlain-digit c (h.0), All-IsPlain cs (h.1))

and_false : (b c : Bool) → c ≡ false → (b && c) ≡ false
and_false true c h = h
and_false false c h = refl

trim_right_plain : (cs : List ℕ) → All IsPlain cs → trim_right cs ≡ cs
unfolding trim_right
trim_right_plain [] h = refl
trim_right_plain (c ∷ cs) h =
    rw (trim_right_plain cs (h.1), and_false (none_left cs) (is_space c) (h.0)) refl

trim_plain : (cs : List ℕ) → All IsPlain cs → trim_right (trim_left cs) ≡ cs
unfolding trim_left
trim_plain [] h = trim_right_plain [] h
trim_plain (c ∷ cs) h = rw (h.0) (trim_right_plain (c ∷ cs) h)

not_dot : (c : ℕ) → IsDigit c → (c == dot) ≡ false
not_dot c h = ground arith

before_dot_lem : (ds r : List ℕ) → All IsDigit ds → before_dot (ds ++ dot ∷ r) ≡ ds
unfolding before_dot
before_dot_lem [] r h = refl
before_dot_lem (c ∷ ds) r h = rw (not_dot c (h.0), before_dot_lem ds r (h.1)) refl

after_dot_lem : (ds r : List ℕ) → All IsDigit ds → after_dot (ds ++ dot ∷ r) ≡ r
unfolding after_dot
after_dot_lem [] r h = refl
after_dot_lem (c ∷ ds) r h = rw (not_dot c (h.0), after_dot_lem ds r (h.1)) refl

two_digits : (c : ℕ) → c < 100 → two_places (print (pos c)) ≡ (48 + c / 10) ∷ (48 + c % 10) ∷ []
unfolding print digits
two_digits c h = elim (Bool-cases (ltb c 10)) [
  | inl e ↦ rw e (ground arith)
  | inr e ↦ rw e (ground arith)
]

in_cents :
    (n : ℕ)
    → n < half_range
    → (div64 (pos n) (pos 100) ≡ pos (n / 100)) × (rem64 (pos n) (pos 100) ≡ pos (n % 100))
unfolding wrap64 quot rem
in_cents n h = ground arith

same_cent : (n : ℕ) → n % 100 % 10 ≡ n % 10
same_cent n = omega arith

print_pos : (n : ℕ) → print (pos n) ≡ digits 20 n
unfolding print
print_pos n = refl

abbrev written : ℕ → List ℕ
written n = digits 20 (n / 100) ++ dot ∷ (48 + n % 100 / 10) ∷ (48 + n % 100 % 10) ∷ []

yuan_text_lem : (n : ℕ) → n < half_range → yuan_text (pos n) ≡ written n
unfolding yuan_text
yuan_text_lem n h =
    let (yuan, cents) = in_cents n h in
    rw (yuan, cents, print_pos (n / 100), two_digits (n % 100) (omega arith)) refl

fits_pow : (n : ℕ) → n < half_range → n / 100 < pow10 20
unfolding pow10
fits_pow n h = omega arith

all_digits :
    (n : ℕ)
    → value 0 (digits 20 (n / 100) ++ (48 + n % 100 / 10) ∷ (48 + n % 100 % 10) ∷ [])
      ≡ value (n / 100) ((48 + n % 100 / 10) ∷ (48 + n % 100 % 10) ∷ [])
    → value 0 (digits 20 (n / 100) ++ (48 + n % 100 / 10) ∷ (48 + n % 100 % 10) ∷ []) ≡ some n
unfolding value
all_digits n h = h ∙ ground arith

written-value :
    (n : ℕ)
    → n < half_range
    → value 0 (digits 20 (n / 100) ++ (48 + n % 100 / 10) ∷ (48 + n % 100 % 10) ∷ []) ≡ some n
written-value n h =
    all_digits n
      (value-append 0 (digits 20 (n / 100)) _ (n / 100) (value-digits 20 (n / 100) (fits_pow n h)))

digits_last : (f n : ℕ) → ltb n 10 ≡ true → digits (suc f) n ≡ (48 + n) ∷ []
unfolding digits
digits_last f n e = rw e refl

digits_more :
    (f n : ℕ) → ltb n 10 ≡ false → digits (suc f) n ≡ digits f (n / 10) ++ (48 + n % 10) ∷ []
unfolding digits
digits_more f n e = rw e refl

digits_none : (n : ℕ) → digits zero n ≡ []
unfolding digits
digits_none n = refl

Front : List ℕ → Type 0
Front ds = (c : ℕ) × (cs : List ℕ) × (ds ≡ c ∷ cs) × IsDigit c

Front-append : (ds ys : List ℕ) → Front ds → Front (ds ++ ys)
unfolding Front
Front-append ds ys (c, cs, e, d) = (c, cs ++ ys, rw e refl, d)

Front-one : (n : ℕ) → Front ([] ++ (48 + n % 10) ∷ [])
unfolding Front
Front-one n = (48 + n % 10, [], refl, omega arith)

Front-last : (f n : ℕ) → ltb n 10 ≡ true → Front (digits (suc f) n)
unfolding Front
Front-last f n e = (48 + n, [], digits_last f n e, ground arith)

-- The digits are never empty, and what stands in front is no sign.
digits-Front : (f n : ℕ) → Front (digits (suc f) n)
digits-Front zero n = elim (Bool-cases (ltb n 10)) [
  | inl e ↦ Front-last zero n e
  | inr e ↦ rw (digits_more zero n e, digits_none (n / 10)) (Front-one n)
]
digits-Front (suc f) n = elim (Bool-cases (ltb n 10)) [
  | inl e ↦ Front-last (suc f) n e
  | inr e ↦
      rw (digits_more (suc f) n e)
        (Front-append (digits (suc f) (n / 10)) _ (digits-Front f (n / 10)))
]

-- What the text of an amount parses to, once its sign is gone.
no_sign : (c : ℕ) (cs : List ℕ) → IsDigit c → parse_int (c ∷ cs) ≡ in_range_pos (value 0 (c ∷ cs))
unfolding parse_int unsigned
no_sign c cs d = ground arith

no_minus : (c : ℕ) (cs : List ℕ) → IsDigit c → parse_signed (c ∷ cs) ≡ parse_amount false (c ∷ cs)
no_minus c cs d = ground arith

parse_int-Front : (ds : List ℕ) → Front ds → parse_int ds ≡ in_range_pos (value 0 ds)
unfolding Front parse_int unsigned
parse_int-Front ds (c, cs, e, d) = rw e (no_sign c cs d)

zero_if_empty-Front : (ds : List ℕ) → Front ds → zero_if_empty ds ≡ ds
unfolding Front
zero_if_empty-Front ds (c, cs, e, d) = rw e refl

in_range : (n : ℕ) → n < half_range → in_range_pos (some n) ≡ some (pos n)
in_range n h = ground arith

parse_amount-written :
    (neg : Bool) (n : ℕ) → n < half_range → parse_amount neg (written n) ≡ signed neg (some (pos n))
unfolding parse_amount
parse_amount-written neg n h =
    let ds = digits 20 (n / 100) in
    let front = digits-Front 19 (n / 100) in
    rw
      (
        after_dot_lem ds ((48 + n % 100 / 10) ∷ (48 + n % 100 % 10) ∷ [])
            (digits-IsDigit 20 (n / 100)),
        before_dot_lem ds ((48 + n % 100 / 10) ∷ (48 + n % 100 % 10) ∷ [])
            (digits-IsDigit 20 (n / 100)),
        zero_if_empty-Front ds front,
        parse_int-Front (ds ++ (48 + n % 100 / 10) ∷ (48 + n % 100 % 10) ∷ [])
            (Front-append ds _ front),
        written-value n h,
        in_range n h,
      )
      refl

written-IsPlain : (n : ℕ) → All IsPlain (written n)
written-IsPlain n =
    All-append IsPlain (digits 20 (n / 100)) _
      (All-IsPlain (digits 20 (n / 100)) (digits-IsDigit 20 (n / 100))) (ground arith)

written-Front : (n : ℕ) → Front (written n)
written-Front n = Front-append (digits 20 (n / 100)) _ (digits-Front 19 (n / 100))

parse_signed-Front : (ds : List ℕ) → Front ds → parse_signed ds ≡ parse_amount false ds
unfolding Front
parse_signed-Front ds (c, cs, e, d) = rw e (no_minus c cs d)

parse_cents-pos : (n : ℕ) → n < half_range → parse_cents (written n) ≡ some (pos n)
unfolding parse_cents
parse_cents-pos n h =
    rw
      (trim_plain (written n) (written-IsPlain n), parse_signed-Front (written n) (written-Front n))
      (parse_amount-written false n h)

parse_cents-neg :
    (n : ℕ) → n < half_range → parse_cents (minus_sign ∷ written n) ≡ some (sub64 (pos 0) (pos n))
unfolding parse_cents
parse_cents-neg n h =
    rw (trim_plain (minus_sign ∷ written n) (refl, written-IsPlain n))
      (parse_amount-written true n h)

negated :
    (n : ℕ)
    → suc n < half_range
    → (sub64 (pos 0) (negsuc n) ≡ pos (suc n)) × (sub64 (pos 0) (pos (suc n)) ≡ negsuc n)
unfolding wrap64 ◌-ℤ◌
negated n h = ground arith

not_negative : (n : ℕ) → ltb_ℤ (pos n) (pos 0) ≡ false
not_negative n = ground arith

negative : (n : ℕ) → ltb_ℤ (negsuc n) (pos 0) ≡ true
negative n = ground arith

not_least : (n : ℕ) → n < half_range → negsuc n ≢ negsuc 9223372036854775807 → suc n < half_range
not_least n h k = ground arith

-- The text of every int64 amount but the least parses back to the amount.
pub parse_cents-money_text :
    (m : ℤ) → IsInt64 m → m ≢ negsuc 9223372036854775807 → parse_cents (money_text m) ≡ some m
unfolding money_text
parse_cents-money_text (pos n) range least =
    rw (not_negative n, yuan_text_lem n range) (parse_cents-pos n range)
parse_cents-money_text (negsuc n) range least =
    let bound : suc n < half_range = not_least n range least in
    let (up, down) = negated n bound in
    rw (negative n, up, yuan_text_lem (suc n) bound) (parse_cents-neg (suc n) bound ∙ ap some down)
