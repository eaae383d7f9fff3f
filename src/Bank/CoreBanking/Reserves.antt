-- ===== src/Bank/CoreBanking/Reserves.antt =====
-- What the holds of an account may claim of its balance:
-- templates/bank/internal/corebanking/service/hold_service.go.
use jiade.Prelude.{
  ℕ, String, true, false, ◌&&◌, ◌≡◌, refl, sym, ap, ◌∙◌, Option, some, List, [], ◌∷◌, str_eq, arith,
  if◌then◌else◌, Bool-cases, inl, inr, str_eq_self, All,
}
use jiade.Bank.CoreBanking.Tx.{Store, Draws, ◌>>=◌, pure, require}
use jiade.Prelude.Int.{ℤ, pos, ◌+ℤ◌, ◌-ℤ◌, ◌≤ℤ◌, ◌<ℤ◌, ltb_ℤ, int_laws, +ℤ_assoc, zero-+ℤ, +ℤ_zero}
use jiade.Prelude.Int64.{IsInt64, wrap64, sub64}
use jiade.Bank.CoreBanking.Types.{ok, Balance, Hold, PlaceHoldInput, is_active}
use jiade.Bank.CoreBanking.Store.{find_row, inherit}
use jiade.Bank.CoreBanking.Tables.{active_holds, insert_hold}
use jiade.Bank.CoreBanking.Services.{held_sum, new_hold, reserve_funds}
use jiade.Bank.CoreBanking.Words.{add64_wrap, wrap64_zero}

-- The exact sum of the active holds of an account.
unfoldable pub active_sum : String → List Hold → ℤ
active_sum account [] = pos 0
active_sum account (h ∷ rest) =
    if str_eq h.account_no account && is_active h.status
    then h.amount +ℤ active_sum account rest
    else active_sum account rest

abbrev pub IsPositive : Hold → Type 0
IsPositive h = pos 0 <ℤ h.amount

-- The row that a lock of the account's balance on that day reads.
unfoldable pub row_of : String → ℕ → List Balance → Option Balance
row_of account day rows = find_row account day (inherit account day (λ b. b.subject_code) rows)

-- The holds of the account claim no more than its balance.
pub record IsCovered (account : String) (day : ℕ) (s : Store) : Type 0 where
  pub amounts : All IsPositive s.holds
  pub within :
      (b : Balance)
      → row_of account day s.balances ≡ some b
      → (active_sum account s.holds ≤ℤ b.balance) × IsInt64 b.balance

pub sum_step :
    (account : String) (h : Hold) (rest : List Hold)
    → (str_eq h.account_no account && is_active h.status) ≡ true
    → active_sum account (h ∷ rest) ≡ h.amount +ℤ active_sum account rest
unfolding active_sum
sum_step account h rest e = rw e refl

held_sum_lem :
    (account : String) (holds : List Hold) (x : ℤ)
    → held_sum (wrap64 x) (active_holds account holds) ≡ wrap64 (x +ℤ active_sum account holds)
unfolding held_sum active_holds active_sum
held_sum_lem account [] x = ap wrap64 (sym (+ℤ_zero x))
held_sum_lem account (h ∷ rest) x =
    elim (Bool-cases (str_eq h.account_no account && is_active h.status)) [
      | inl e ↦ rw e (
          ap (λ w. held_sum w (active_holds account rest)) (add64_wrap x h.amount)
          ∙ held_sum_lem account rest (x +ℤ h.amount)
          ∙ ap wrap64 (+ℤ_assoc x h.amount (active_sum account rest)))
      | inr e ↦ rw e (held_sum_lem account rest x)
    ]

sum_positive : (a b : ℤ) → pos 0 <ℤ a → pos 0 ≤ℤ b → pos 0 ≤ℤ a +ℤ b
sum_positive a b h k = omega (int_laws, h, k)

pub active_sum-positive :
    (account : String) (holds : List Hold)
    → All IsPositive holds
    → pos 0 ≤ℤ active_sum account holds
unfolding active_sum
active_sum-positive account [] h = omega arith
active_sum-positive account (x ∷ rest) h =
    elim (Bool-cases (str_eq x.account_no account && is_active x.status)) [
      | inl e ↦ rw e (
          sum_positive x.amount (active_sum account rest) (h.0)
            (active_sum-positive account rest (h.1)))
      | inr e ↦ rw e (active_sum-positive account rest (h.1))
    ]

-- What the guard of `PlaceHold` computes is the balance less the exact sum.
free_funds :
    (sum bal amount : ℤ)
    → pos 0 ≤ℤ sum
    → sum ≤ℤ bal
    → IsInt64 bal
    → ltb_ℤ (sub64 bal (wrap64 sum)) amount ≡ false
    → amount +ℤ sum ≤ℤ bal
unfolding wrap64 ◌+ℤ◌ ◌-ℤ◌
free_funds sum bal amount h k range e = ground arith

held_sum-exact :
    (account : String) (holds : List Hold)
    → held_sum (pos 0) (active_holds account holds) ≡ wrap64 (active_sum account holds)
held_sum-exact account holds =
    ap (λ w. held_sum w (active_holds account holds)) (sym wrap64_zero)
    ∙ held_sum_lem account holds (pos 0)
    ∙ ap wrap64 (zero-+ℤ _)

inherit_there :
    (account : String) (day : ℕ) (subject : Balance → String) (rows : List Balance) {b : Balance}
    → find_row account day rows ≡ some b
    → inherit account day subject rows ≡ rows
unfolding inherit
inherit_there account day subject rows h = rw (inherit, h) refl

-- The row that a lock leaves is the row that it reads.
pub row_of-inherit :
    (account : String) (day : ℕ) (rows : List Balance) {b : Balance}
    → row_of account day rows ≡ some b
    → row_of account day (inherit account day (λ b. b.subject_code) rows) ≡ some b
unfolding row_of
row_of-inherit account day rows h =
    ap (find_row account day) (inherit_there account day (λ b. b.subject_code) _ h) ∙ h

-- The state that a reservation leaves.
reserved :
    (draws : Draws) (req : PlaceHoldInput) (bal : Balance) (now : List Hold) (s : Store) {h : Hold}
    {t : Store}
    → reserve_funds draws req bal now s ≡ ok (h, t)
    → (ltb_ℤ (sub64 bal.balance (held_sum (pos 0) now)) req.amount ≡ false)
      × (t ≡ record s { holds = new_hold draws req ∷ s.holds })
unfolding reserve_funds ◌>>=◌ require insert_hold pure
reserved draws req bal now s h = (ground arith, ground arith)

pub reserve_funds-IsCovered :
    (draws : Draws) (req : PlaceHoldInput) (day : ℕ) (bal : Balance) (s : Store) {h : Hold}
    {t : Store}
    → pos 0 <ℤ req.amount
    → row_of req.account_no day s.balances ≡ some bal
    → IsCovered req.account_no day s
    → reserve_funds draws req bal (active_holds req.account_no s.holds) s ≡ ok (h, t)
    → IsCovered req.account_no day t
reserve_funds-IsCovered draws req day bal s {h} {t} positive row c e =
    let (guard, left) = reserved draws req bal (active_holds req.account_no s.holds) s e in
    let (sum, range) = c.within bal row in
    let exact : ltb_ℤ (sub64 bal.balance (wrap64 (active_sum req.account_no s.holds))) req.amount
        ≡ false =
      rw (← held_sum-exact req.account_no s.holds) guard in
    let fits =
      free_funds (active_sum req.account_no s.holds) bal.balance req.amount
        (active_sum-positive req.account_no s.holds c.amounts) sum range exact in
    let after : IsCovered req.account_no day (record s { holds = new_hold draws req ∷ s.holds }) =
      record {
        amounts = (positive, c.amounts);
        within = λ b row'.
            let same : bal ≡ b = cc (row, row') in
            rw
              (
                sum_step req.account_no (new_hold draws req) s.holds
                    (rw (str_eq_self req.account_no) refl),
                ← same,
              )
              (fits, range);
      } in
    rw left after
