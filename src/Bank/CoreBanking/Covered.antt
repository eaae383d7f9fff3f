-- ===== src/Bank/CoreBanking/Covered.antt =====
-- `PlaceHold` and `ReleaseHold` of templates/bank/internal/corebanking/service/hold_service.go: what
-- they answer, and that the holds of an account stay covered by its balance.
use jiade.Prelude.{ℕ, String, true, not, ◌≡◌, sym, ap, subst, ◌∙◌, Option, none, some, List, arith}
use jiade.Bank.CoreBanking.Tx.{Store, Draws, M, ◌>>=◌, pure, get_biz_date}
use jiade.Prelude.Int.{ℤ, pos, ◌≤ℤ◌, ◌<ℤ◌, leb_ℤ}
use jiade.Prelude.Int64.{IsInt64}
use jiade.Bank.CoreBanking.Types.{ok, Balance, Hold, PlaceHoldInput}
use jiade.Bank.CoreBanking.Store.{inherit, lock_row, lock_latest_balance}
use jiade.Bank.CoreBanking.Tables.{
  active_holds, lock_active_holds, hold_of_key, get_hold_by_idempotency_key,
}
use jiade.Bank.CoreBanking.Services.{reserve_funds, place_locked, place_hold}
use jiade.Bank.CoreBanking.Moves.{>>=-eq-ok, guard-eq-ok, pure-eq-ok}
use jiade.Bank.CoreBanking.Reserves.{
  active_sum, row_of, IsCovered, row_of-inherit, reserve_funds-IsCovered,
}

locked :
    (key : String) (day : ℕ) (s : Store) {b : Balance} {t : Store}
    → s.biz_date ≡ some day
    → lock_latest_balance key s ≡ ok (b, t)
    → (row_of key day s.balances ≡ some b)
      × (t ≡ record s { balances = inherit key day (λ b. b.subject_code) s.balances })
unfolding lock_latest_balance ◌>>=◌ get_biz_date lock_row row_of
locked key day s set h = ground arith

lock_active-eq :
    (account : String) (s : Store) {now : List Hold} {t : Store}
    → lock_active_holds account s ≡ ok (now, t)
    → (now ≡ active_holds account s.holds) × (t ≡ s)
unfolding lock_active_holds
lock_active-eq account s h = (ground arith, ground arith)

get_hold-eq :
    (key : String) (s : Store) {found : Option Hold} {t : Store}
    → get_hold_by_idempotency_key key s ≡ ok (found, t)
    → (found ≡ hold_of_key key s.holds) × (t ≡ s)
unfolding get_hold_by_idempotency_key
get_hold-eq key s h = (ground arith, ground arith)

inherit-IsCovered :
    (account : String) (day : ℕ) (s : Store) {b : Balance}
    → row_of account day s.balances ≡ some b
    → IsCovered account day s
    → IsCovered account day
        (record s { balances = inherit account day (λ b. b.subject_code) s.balances })
inherit-IsCovered account day s {b} row c = record {
  amounts = c.amounts;
  within = λ b' row'.
      let same : b ≡ b' = cc (row_of-inherit account day s.balances row, row') in
      subst (λ (x : Balance). (active_sum account s.holds ≤ℤ x.balance) × IsInt64 x.balance) same
        (c.within b row);
}

decide-IsCovered :
    (draws : Draws) (req : PlaceHoldInput) (day : ℕ) (bal : Balance) (now : List Hold)
    (again : Option Hold) (s : Store) {h : Hold} {t : Store}
    → pos 0 <ℤ req.amount
    → row_of req.account_no day s.balances ≡ some bal
    → now ≡ active_holds req.account_no s.holds
    → IsCovered req.account_no day s
    → (elim again as (λ _. M Hold) [ some h ↦ pure h | none ↦ reserve_funds draws req bal now ]) s
      ≡ ok (h, t)
    → IsCovered req.account_no day t
decide-IsCovered draws req day bal now none s {h} {t} positive row same c e =
    reserve_funds-IsCovered draws req day bal s positive row c
      (subst (λ (z : List Hold). reserve_funds draws req bal z s ≡ ok (h, t)) same e)
decide-IsCovered draws req day bal now (some h) s positive row same c e =
    subst (IsCovered req.account_no day) ((pure-eq-ok h s e).1) c

-- The same with what the reads have answered named apart.
read-IsCovered :
    (draws : Draws) (req : PlaceHoldInput) (day : ℕ) (bal : Balance) (now : List Hold)
    (again : Option Hold) (s u : Store) {h : Hold} {t : Store}
    → pos 0 <ℤ req.amount
    → row_of req.account_no day s.balances ≡ some bal
    → u ≡ record s { balances = inherit req.account_no day (λ b. b.subject_code) s.balances }
    → now ≡ active_holds req.account_no s.holds
    → IsCovered req.account_no day s
    → (elim again as (λ _. M Hold) [ some h ↦ pure h | none ↦ reserve_funds draws req bal now ]) u
      ≡ ok (h, t)
    → IsCovered req.account_no day t
read-IsCovered draws req day bal now again s u {h} {t} positive row left same c e =
    decide-IsCovered draws req day bal now again
      (record s { balances = inherit req.account_no day (λ b. b.subject_code) s.balances }) {h = h}
      {t = t} positive (row_of-inherit req.account_no day s.balances row) same
      (inherit-IsCovered req.account_no day s row c) (rw (← left) e)

place_locked-IsCovered :
    (draws : Draws) (req : PlaceHoldInput) (day : ℕ) (s : Store) {h : Hold} {t : Store}
    → pos 0 <ℤ req.amount
    → s.biz_date ≡ some day
    → IsCovered req.account_no day s
    → place_locked draws req s ≡ ok (h, t)
    → IsCovered req.account_no day t
unfolding place_locked
place_locked-IsCovered draws req day s {h} {t} positive set c e =
    let (bal, s1, e1, h1) = >>=-eq-ok _ _ s e in
    let (now, s2, e2, h2) = >>=-eq-ok _ _ s1 h1 in
    let (again, s3, e3, h3) = >>=-eq-ok _ _ s2 h2 in
    let (row, left) = locked req.account_no day s set e1 in
    let (active_now, same2) = lock_active-eq req.account_no s1 e2 in
    let (_, same3) = get_hold-eq req.idempotency_key s2 e3 in
    read-IsCovered draws req day bal now again s s3 positive row (same3 ∙ same2 ∙ left)
      (active_now ∙ ap (λ (z : Store). active_holds req.account_no z.holds) left) c h3

known-IsCovered :
    (draws : Draws) (req : PlaceHoldInput) (day : ℕ) (found : Option Hold) (s : Store) {h : Hold}
    {t : Store}
    → pos 0 <ℤ req.amount
    → s.biz_date ≡ some day
    → IsCovered req.account_no day s
    → (elim found as (λ _. M Hold) [ some h ↦ pure h | none ↦ place_locked draws req ]) s
      ≡ ok (h, t)
    → IsCovered req.account_no day t
known-IsCovered draws req day none s positive set c e =
    place_locked-IsCovered draws req day s positive set c e
known-IsCovered draws req day (some h) s positive set c e =
    subst (IsCovered req.account_no day) ((pure-eq-ok h s e).1) c

positive_amount : (a : ℤ) → not (leb_ℤ a (pos 0)) ≡ true → pos 0 <ℤ a
positive_amount a h = ground arith

-- A hold that `PlaceHold` places, or finds under its key, leaves the active holds of the account
-- covered by the balance of the business day, when they were covered before.
pub place_hold-IsCovered :
    (draws : Draws) (req : PlaceHoldInput) (day : ℕ) (s : Store) {h : Hold} {t : Store}
    → s.biz_date ≡ some day
    → IsCovered req.account_no day s
    → place_hold draws req s ≡ ok (h, t)
    → IsCovered req.account_no day t
unfolding place_hold
place_hold-IsCovered draws req day s set c e =
    let (positive, e1) = guard-eq-ok _ _ _ s e in
    let (found, s2, e2, h2) = >>=-eq-ok _ _ s e1 in
    let (_, same) = get_hold-eq req.idempotency_key s e2 in
    let read : s ≡ s2 = sym same in
    known-IsCovered draws req day found s2 (positive_amount req.amount positive)
      (subst (λ (z : Store). z.biz_date ≡ some day) read set)
      (subst (IsCovered req.account_no day) read c) h2
