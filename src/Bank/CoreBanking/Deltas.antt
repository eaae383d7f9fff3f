-- ===== src/Bank/CoreBanking/Deltas.antt =====
-- The balance deltas of templates/bank/internal/corebanking/service: `summarize` of
-- ledger_service.go and `reverseRollback` of txn_service.go, account by account.
use jiade.Prelude.{
  ℕ, String, true, ◌≡◌, refl, sym, ap, subst, ◌∙◌, Option, none, some, List, [], ◌∷◌, str_eq, arith,
  if◌then◌else◌, Bool-cases, inl, inr,
}
use jiade.Bank.CoreBanking.Words.{add64_wrap, wrap64-+ℤ, wrap64_zero}
use jiade.Prelude.Int.{ℤ, pos, ◌+ℤ◌, ◌-ℤ◌, leb_ℤ, eqb_ℤ, int_laws, zero-+ℤ}
use jiade.Prelude.Int64.{IsInt64, wrap64, add64, wrap64_self, wrap64-IsInt64}
use jiade.Bank.CoreBanking.Types.{
  rejected, Result, ok, err, DcFlag, debit, credit, Action, deposit, withdraw, transfer,
  DemandAccount, Entry, Txn, is_credit,
}
use jiade.Bank.CoreBanking.Posting.{
  cash_entry, acct_entry, entries_of, build_entries, sum_sides, validate_balance, txn_of, summarize,
  reverse_rollback, reverse_entries,
}
use jiade.Bank.CoreBanking.Rounds.{
  worth, net, delta_of, summarize-delta_of, flipped, undo_by_acct_lem,
}

-- The blue reversal, which rolls the balances back, and the red one, which posts the entries turned
-- around, give every account the same delta, whatever flows are reversed.
pub reverse_rollback-agrees :
    (key : String) (txns : List Txn) (day : ℕ) (ccy voucher ref : String)
    → delta_of key ((reverse_rollback txns day).0)
      ≡ delta_of key ((summarize (reverse_entries txns) day ccy voucher ref).1)
unfolding reverse_rollback delta_of
reverse_rollback-agrees key txns day ccy voucher ref =
    undo_by_acct_lem key txns [] (pos 0) (sym wrap64_zero)
    ∙ ap wrap64 (zero-+ℤ _)
    ∙ sym (summarize-delta_of key (reverse_entries txns) day ccy voucher ref)

minus_twice : (a x y : ℤ) → pos 0 -ℤ (a +ℤ x) ≡ pos 0 -ℤ a +ℤ (pos 0 -ℤ x)
minus_twice a x y = omega int_laws

worth-flipped : (flag : DcFlag) (a : ℤ) → worth (flipped flag) a ≡ pos 0 -ℤ worth flag a
unfolding worth
worth-flipped flag a = elim (Bool-cases (is_credit flag)) [
  | inl c ↦ rw c refl
  | inr c ↦ rw c (omega int_laws)
]

net-reverse_entries :
    (key : String) (entries : List Entry) (day : ℕ) (ccy voucher ref : String)
    → net key (reverse_entries ((summarize entries day ccy voucher ref).0))
      ≡ pos 0 -ℤ net key entries
unfolding summarize net reverse_entries txn_of
net-reverse_entries key [] day ccy voucher ref = omega int_laws
net-reverse_entries key (e ∷ rest) day ccy voucher ref =
    elim (Bool-cases (str_eq e.account_no key)) [
      | inl c ↦
          rw (c, worth-flipped e.dc_flag e.amount, net-reverse_entries key rest day ccy voucher ref)
            (sym (minus_twice (worth e.dc_flag e.amount) (net key rest) (pos 0)))
      | inr c ↦ rw c (net-reverse_entries key rest day ccy voucher ref)
    ]

away : (a : ℤ) → a +ℤ (pos 0 -ℤ a) ≡ pos 0
away a = omega int_laws

-- The deltas that `Summarize` computes for entries and then for the flows of those entries turned
-- around, as a red reversal posts them, cancel for every account: added as int64 they give 0, also
-- where a delta wraps around. Nothing is said of the rows that the deltas are applied to.
pub summarize-reverse_entries :
    (key : String) (entries : List Entry) (day day' : ℕ) (ccy ccy' voucher voucher' ref : String)
    → add64 (delta_of key ((summarize entries day ccy voucher ref).1)) (
        delta_of key (
          (summarize
            (reverse_entries ((summarize entries day ccy voucher ref).0))
            day'
            ccy'
            voucher'
            voucher).1))
      ≡ pos 0
summarize-reverse_entries key entries day day' ccy ccy' voucher voucher' ref =
    rw
      (
        summarize-delta_of key entries day ccy voucher ref,
        summarize-delta_of key (reverse_entries ((summarize entries day ccy voucher ref).0)) day'
            ccy' voucher' voucher,
        net-reverse_entries key entries day ccy voucher ref,
      )
      (add64_wrap (net key entries) (wrap64 (pos 0 -ℤ net key entries))
        ∙ wrap64-+ℤ (net key entries) (net key entries) _ _ refl
            (wrap64_self _ (wrap64-IsInt64 (pos 0 -ℤ net key entries)))
        ∙ ap wrap64 (away (net key entries))
        ∙ wrap64_zero)

from_zero : (a : ℤ) → IsInt64 a → add64 (pos 0) a ≡ a
from_zero a range = ap wrap64 (zero-+ℤ a) ∙ wrap64_self a range

eqb_ℤ_self : (a : ℤ) → eqb_ℤ a a ≡ true
eqb_ℤ_self a = ground arith

two_sides :
    (x y : Entry) (a : ℤ)
    → IsInt64 a
    → (x.dc_flag ≡ debit) × (x.amount ≡ a)
    → (y.dc_flag ≡ credit) × (y.amount ≡ a)
    → validate_balance (x ∷ y ∷ []) ≡ ok (a, a)
unfolding validate_balance sum_sides
two_sides x y a range (xf, xa) (yf, ya) = rw (xf, yf, xa, ya, from_zero a range, eqb_ℤ_self a) refl

from_amount :
    (a : ℤ) (built : Result (List Entry)) {entries : List Entry}
    → (if leb_ℤ a (pos 0) then err (rejected "amount must be > 0") else built) ≡ ok entries
    → built ≡ ok entries
from_amount a built h = ground arith

entries_of-two :
    (action : Action) (acct : DemandAccount) (counterparty : Option DemandAccount) (amount : ℤ)
    {entries : List Entry}
    → IsInt64 amount
    → entries_of action acct counterparty amount ≡ ok entries
    → validate_balance entries ≡ ok (amount, amount)
unfolding entries_of cash_entry acct_entry
entries_of-two deposit acct counterparty amount range h =
    subst (λ es. validate_balance es ≡ ok (amount, amount)) (cc)
      (two_sides (cash_entry amount debit) (acct_entry acct amount credit) amount range (refl, refl)
        (refl, refl))
entries_of-two withdraw acct counterparty amount range h =
    subst (λ es. validate_balance es ≡ ok (amount, amount)) (cc)
      (two_sides (acct_entry acct amount debit) (cash_entry amount credit) amount range (refl, refl)
        (refl, refl))
entries_of-two transfer acct none amount range h = cc
entries_of-two transfer acct (some opp) amount range h =
    subst (λ es. validate_balance es ≡ ok (amount, amount)) (cc)
      (two_sides (acct_entry acct amount debit) (acct_entry opp amount credit) amount range
        (refl, refl) (refl, refl))
entries_of-two (Action.other _) acct counterparty amount range h = cc

-- Whenever `BuildEntries` makes entries for an int64 amount, `ValidateBalance` accepts them, with the
-- amount as the sum of either side.
pub build_entries-validate_balance :
    (action : Action) (acct : DemandAccount) (counterparty : Option DemandAccount) (amount : ℤ)
    {entries : List Entry}
    → IsInt64 amount
    → build_entries action acct counterparty amount ≡ ok entries
    → validate_balance entries ≡ ok (amount, amount)
unfolding build_entries
build_entries-validate_balance action acct counterparty amount range h =
    entries_of-two action acct counterparty amount range
      (from_amount amount (entries_of action acct counterparty amount) h)
