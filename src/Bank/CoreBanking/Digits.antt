-- ===== src/Bank/CoreBanking/Digits.antt =====
-- Digits written and read: `strconv.ParseInt` and `fmt` as
-- templates/bank/internal/corebanking/domain/money.go uses them.
use jiade.Prelude.{
  ℕ, zero, suc, ◌+◌, ◌-◌, ◌*◌, ◌/◌, ◌%◌, ◌<◌, ◌≤◌, ◌≡◌, refl, ◌∙◌, some, List, [], ◌∷◌, ◌++◌, ltb,
  All, arith, Bool-cases, inl, inr,
}
use jiade.Bank.CoreBanking.Cents.{digits, value}

abbrev pub IsDigit : ℕ → Type 0
IsDigit c = (48 ≤ c) × (c ≤ 57)

unfoldable pub pow10 : ℕ → ℕ
pow10 zero = 1
pow10 (suc f) = 10 * pow10 f

pub All-append : (P : ℕ → Type 0) (xs ys : List ℕ) → All P xs → All P ys → All P (xs ++ ys)
All-append P [] ys h k = k
All-append P (x ∷ xs) ys h k = (h.0, All-append P xs ys (h.1) k)

pub digits-IsDigit : (f n : ℕ) → All IsDigit (digits f n)
unfolding digits
digits-IsDigit zero n = tt
digits-IsDigit (suc f) n = elim (Bool-cases (ltb n 10)) [
  | inl e ↦ rw e (ground arith)
  | inr e ↦ rw e (All-append IsDigit _ _ (digits-IsDigit f (n / 10)) (omega arith))
]

pub value-append :
    (acc : ℕ) (xs ys : List ℕ) (a : ℕ) → value acc xs ≡ some a → value acc (xs ++ ys) ≡ value a ys
unfolding value
value-append acc [] ys a h = let e : acc ≡ a = cc in rw e refl
value-append acc (x ∷ xs) ys a h = ground (arith, value-append (acc * 10 + (x - 48)) xs ys a)

one_more : (n : ℕ) → value (n / 10) ((48 + n % 10) ∷ []) ≡ some n
unfolding value
one_more n = ground arith

pub value-digits : (f n : ℕ) → n < pow10 f → value 0 (digits f n) ≡ some n
unfolding value digits pow10
value-digits zero n h = let e : n ≡ 0 = omega arith in rw e refl
value-digits (suc f) n h = elim (Bool-cases (ltb n 10)) [
  | inl e ↦ rw e (ground arith)
  | inr e ↦ rw e (
      value-append 0 (digits f (n / 10)) ((48 + n % 10) ∷ []) (n / 10)
        (value-digits f (n / 10) (omega arith))
      ∙ one_more n)
]
