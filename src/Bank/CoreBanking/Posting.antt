-- ===== src/Bank/CoreBanking/Posting.antt =====
-- The entries of a voucher: templates/bank/internal/corebanking/service/posting.go, the pure half of
-- ledger_service.go, and what txn_service.go makes of the flows of a voucher to reverse it. A Go map
-- is an association list in the order of insertion, where Go leaves the order open.
use jiade.Prelude.{ℕ, String, Option, none, some, List, [], ◌∷◌, if◌then◌else◌, str_eq}
use jiade.Prelude.Int.{ℤ, pos, leb_ℤ, eqb_ℤ}
use jiade.Prelude.Int64.{add64, sub64}
use jiade.Bank.CoreBanking.Types.{
  unbalanced, rejected, Result, ok, err, normal, DcFlag, debit, credit, Action, deposit, withdraw,
  transfer, DemandAccount, Entry, Txn, BalanceDelta, GlBalance, is_credit,
}

abbrev pub cash_subject : String
cash_subject = "1001"

-- `cashEntry` and `acctEntry` of `BuildEntries`
unfoldable pub cash_entry : ℤ → DcFlag → Entry
cash_entry amount flag = record {
  account_no = cash_subject;
  dc_flag = flag;
  amount = amount;
  subject_code = cash_subject;
}

unfoldable pub acct_entry : DemandAccount → ℤ → DcFlag → Entry
acct_entry acct amount flag = record {
  account_no = acct.account_no;
  dc_flag = flag;
  amount = amount;
  subject_code = acct.subject_code;
}

unfoldable pub entries_of : Action → DemandAccount → Option DemandAccount → ℤ → Result (List Entry)
unfolding cash_entry acct_entry
entries_of deposit acct counterparty amount =
    ok (cash_entry amount debit ∷ acct_entry acct amount credit ∷ [])
entries_of withdraw acct counterparty amount =
    ok (acct_entry acct amount debit ∷ cash_entry amount credit ∷ [])
entries_of transfer acct none amount = err (rejected "transfer needs a counterparty")
entries_of transfer acct (some opp) amount =
    ok (acct_entry acct amount debit ∷ acct_entry opp amount credit ∷ [])
entries_of (Action.other _) acct counterparty amount = err (rejected "unknown action")

unfoldable pub build_entries :
    Action → DemandAccount → Option DemandAccount → ℤ → Result (List Entry)
unfolding entries_of
build_entries action acct counterparty amount =
    if leb_ℤ amount (pos 0)
    then err (rejected "amount must be > 0")
    else entries_of action acct counterparty amount

unfoldable pub build_held_transfer_entries : DemandAccount → DemandAccount → ℤ → Result (List Entry)
unfolding build_entries
build_held_transfer_entries from to amount = build_entries transfer from (some to) amount

-- The loop of `ValidateBalance` with its two sums.
unfoldable pub sum_sides : List Entry → ℤ → ℤ → Result (ℤ × ℤ)
sum_sides [] dc cc = ok (dc, cc)
sum_sides (e ∷ rest) dc cc = elim (e.dc_flag) [
  | debit ↦ sum_sides rest (add64 dc e.amount) cc
  | credit ↦ sum_sides rest dc (add64 cc e.amount)
  | DcFlag.other _ ↦ err (rejected "illegal flag")
]

abbrev check_sides : Result (ℤ × ℤ) → Result (ℤ × ℤ)
check_sides (ok (dc, cc)) = if eqb_ℤ dc cc then ok (dc, cc) else err unbalanced
check_sides (err e) = err e

unfoldable pub validate_balance : List Entry → Result (ℤ × ℤ)
unfolding sum_sides
validate_balance entries = check_sides (sum_sides entries (pos 0) (pos 0))

-- `byAcct[key] = f(byAcct[key])` with `subjByAcct[key] = subject`; a missing key reads as 0.
unfoldable pub bump : String → String → (ℤ → ℤ) → List BalanceDelta → List BalanceDelta
bump key subject f [] = record { account_no = key; delta = f (pos 0); subject_code = subject } ∷ []
bump key subject f (d ∷ rest) =
    let later = bump key subject f rest in
    if str_eq d.account_no key
    then record d { delta = f d.delta; subject_code = subject } ∷ rest
    else d ∷ later

-- The three results of the loop of `summarize`.
unfoldable pub txn_of : ℕ → String → String → String → Entry → Txn
txn_of biz_date ccy voucher_no ref_txn_id e = record {
  txn_id = "";
  biz_date = biz_date;
  account_no = e.account_no;
  dc_flag = e.dc_flag;
  amount = e.amount;
  ccy = ccy;
  subject_code = e.subject_code;
  opp_account = "";
  ref_txn_id = ref_txn_id;
  channel = "";
  summary = "";
  voucher_no = voucher_no;
  txn_status = normal;
}

unfoldable pub by_acct : List Entry → List BalanceDelta → List BalanceDelta
unfolding bump
by_acct [] acc = acc
by_acct (e ∷ rest) acc = by_acct rest (
    bump e.account_no e.subject_code
      (λ d. if is_credit e.dc_flag then add64 d e.amount else sub64 d e.amount) acc)

unfoldable pub gl_sides : List Entry → ℤ → ℤ → ℤ × ℤ
gl_sides [] dc cc = (dc, cc)
gl_sides (e ∷ rest) dc cc =
    gl_sides rest (if is_credit e.dc_flag then dc else add64 dc e.amount)
      (if is_credit e.dc_flag then add64 cc e.amount else cc)

abbrev pub first_subject : List BalanceDelta → String
first_subject [] = ""
first_subject (d ∷ _) = d.subject_code

abbrev pub txns_of : ℕ → String → String → String → List Entry → List Txn
txns_of biz_date ccy voucher_no ref_txn_id [] = []
txns_of biz_date ccy voucher_no ref_txn_id (e ∷ rest) =
    txn_of biz_date ccy voucher_no ref_txn_id e ∷ txns_of biz_date ccy voucher_no ref_txn_id rest

unfoldable pub summarize :
    List Entry → ℕ → String → String → String → List Txn × List BalanceDelta × GlBalance
unfolding by_acct gl_sides txn_of
summarize entries biz_date ccy voucher_no ref_txn_id =
    let deltas = by_acct entries [] in
    let (dc, cc) = gl_sides entries (pos 0) (pos 0) in
    (
      txns_of biz_date ccy voucher_no ref_txn_id entries,
      deltas,
      record {
        subject_code = first_subject deltas;
        biz_date = biz_date;
        dc_balance = dc;
        cc_balance = cc;
        ccy = ccy;
      },
    )

-- The deltas and the totals of `reverseRollback`.
unfoldable pub undo_by_acct : List Txn → List BalanceDelta → List BalanceDelta
unfolding bump
undo_by_acct [] acc = acc
undo_by_acct (t ∷ rest) acc = undo_by_acct rest (
    bump t.account_no t.subject_code
      (λ d. if is_credit t.dc_flag then sub64 d t.amount else add64 d t.amount) acc)

unfoldable pub undo_gl_sides : List Txn → ℤ → ℤ → ℤ × ℤ
undo_gl_sides [] dc cc = (dc, cc)
undo_gl_sides (t ∷ rest) dc cc =
    undo_gl_sides rest (if is_credit t.dc_flag then dc else sub64 dc t.amount)
      (if is_credit t.dc_flag then sub64 cc t.amount else cc)

abbrev pub first_ccy : List Txn → String
first_ccy [] = ""
first_ccy (t ∷ _) = t.ccy

unfoldable pub reverse_rollback : List Txn → ℕ → List BalanceDelta × GlBalance
unfolding undo_by_acct undo_gl_sides
reverse_rollback txns biz_date =
    let deltas = undo_by_acct txns [] in
    let (dc, cc) = undo_gl_sides txns (pos 0) (pos 0) in
    (
      deltas,
      record {
        subject_code = first_subject deltas;
        biz_date = biz_date;
        dc_balance = dc;
        cc_balance = cc;
        ccy = first_ccy txns;
      },
    )

unfoldable pub reverse_entries : List Txn → List Entry
reverse_entries [] = []
reverse_entries (t ∷ rest) =
    record {
      account_no = t.account_no;
      dc_flag = if is_credit t.dc_flag then debit else credit;
      amount = t.amount;
      subject_code = t.subject_code;
    }
    ∷ reverse_entries rest
