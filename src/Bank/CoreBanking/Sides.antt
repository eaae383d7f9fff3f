-- ===== src/Bank/CoreBanking/Sides.antt =====
-- The two sides of a voucher: what templates/bank/internal/corebanking/service/ledger_service.go and
-- txn_service.go add up for the general ledger, against the exact sums.
use jiade.Prelude.{
  Bool, true, false, ◌≡◌, refl, ap, List, [], ◌∷◌, arith, if◌then◌else◌, Bool-cases, inl, inr,
}
use jiade.Prelude.Int.{ℤ, pos, ◌+ℤ◌, +ℤ_assoc, +ℤ_zero}
use jiade.Prelude.Int64.{wrap64, add64}
use jiade.Bank.CoreBanking.Types.{ok, Entry, is_credit}
use jiade.Bank.CoreBanking.Posting.{sum_sides, validate_balance, gl_sides}
use jiade.Bank.CoreBanking.Words.{add64_wrap}

-- The exact sum of the amounts on one side.
unfoldable pub side : Bool → List Entry → ℤ
side c [] = pos 0
side true (e ∷ rest) = if is_credit e.dc_flag then e.amount +ℤ side true rest else side true rest
side false (e ∷ rest) = if is_credit e.dc_flag then side false rest else e.amount +ℤ side false rest

add64_step : (a x r : ℤ) → wrap64 (a +ℤ x +ℤ r) ≡ wrap64 (a +ℤ (x +ℤ r))
add64_step a x r = ap wrap64 (+ℤ_assoc a x r)

pub gl_sides_lem :
    (entries : List Entry) (a b : ℤ)
    → gl_sides entries (wrap64 a) (wrap64 b)
      ≡ (wrap64 (a +ℤ side false entries), wrap64 (b +ℤ side true entries))
unfolding gl_sides side
gl_sides_lem [] a b = rw (+ℤ_zero a, +ℤ_zero b) refl
gl_sides_lem (e ∷ rest) a b = elim (Bool-cases (is_credit e.dc_flag)) [
  | inl c ↦ rw (c, add64_wrap b e.amount, gl_sides_lem rest a (b +ℤ e.amount), +ℤ_assoc) refl
  | inr c ↦ rw (c, add64_wrap a e.amount, gl_sides_lem rest (a +ℤ e.amount) b, +ℤ_assoc) refl
]

sum_sides-eq-ok :
    (entries : List Entry) (a b : ℤ) {d c : ℤ}
    → sum_sides entries a b ≡ ok (d, c)
    → gl_sides entries a b ≡ (d, c)
unfolding sum_sides gl_sides
sum_sides-eq-ok [] a b h = ground arith
sum_sides-eq-ok (e ∷ rest) a b {d} {c} h = ground (
  arith,
  sum_sides-eq-ok rest (add64 a e.amount) b {d = d} {c = c},
  sum_sides-eq-ok rest a (add64 b e.amount) {d = d} {c = c},
)

pub validate_balance-eq-ok :
    (entries : List Entry) {d c : ℤ}
    → validate_balance entries ≡ ok (d, c)
    → (gl_sides entries (pos 0) (pos 0) ≡ (d, c)) × (d ≡ c)
unfolding validate_balance
validate_balance-eq-ok entries {d} {c} h =
    ground (arith, sum_sides-eq-ok entries (pos 0) (pos 0) {d = d} {c = c})
