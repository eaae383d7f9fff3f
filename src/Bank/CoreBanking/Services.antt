-- ===== src/Bank/CoreBanking/Services.antt =====
-- The transactions of templates/bank/internal/corebanking/service: `Post` of ledger_service.go,
-- hold_service.go, and `Record` and `Reverse` of txn_service.go.
use Prim.Native.Char.{code}
use jiade.Prelude.{
  ℕ, String, Bool, true, false, not, ◌&&◌, ◌||◌, ◌==◌, Option, none, some, List, [], ◌∷◌, ltb,
  str_eq, if◌then◌else◌,
}
use jiade.Bank.CoreBanking.Tx.{
  Draws, M, ◌>>=◌, ◌>>◌, pure, raise, lift, require, when, get_biz_date,
}
use jiade.Prelude.Int.{ℤ, pos, ltb_ℤ, leb_ℤ}
use jiade.Prelude.Int64.{add64, sub64}
use jiade.Bank.CoreBanking.Types.{
  Error, account_not_active, insufficient_balance, ccy_mismatch, voucher_not_found,
  already_reversed, insufficient_available_balance, non_positive_hold_amount, rejected, Result, ok,
  err, HoldStatus, TxnStatus, normal, reversed, ReverseMode, blue, red, DemandAccount, Entry, Txn,
  Balance, Booking, Hold, PlaceHoldInput, RecordInput, is_open, eq_hold_status, is_reversed,
  is_transfer, is_withdraw, release,
}
use jiade.Bank.CoreBanking.Posting.{
  build_entries, validate_balance, summarize, first_ccy, reverse_rollback, reverse_entries,
}
use jiade.Bank.CoreBanking.Store.{
  get_demand, ensure_balance_row, lock_latest_balance, apply_balance_deltas, upsert_gl,
}
use jiade.Bank.CoreBanking.Tables.{
  insert_txns, get_txns_by_voucher, has_reversal, update_txn_status, set_txn_summary,
  lock_active_holds, get_hold_by_idempotency_key, lock_hold_by_id, insert_hold, set_hold_status,
}

-- `Post` of the ledger.
unfoldable pub post : Draws → List Entry → ℕ → String → String → String → M (List Txn)
post draws entries day ccy voucher ref = do
  _ ← lift (validate_balance entries)
  let (txns, deltas, gl) = summarize entries day ccy voucher ref
  stored ← insert_txns draws.txn_id txns
  apply_balance_deltas day deltas
  upsert_gl gl
  pure stored

-- The summary that is set on the flows in the table and on those that are returned.
abbrev pub all_summarized : String → List Txn → List Txn
all_summarized summary [] = []
all_summarized summary (t ∷ rest) =
    (if str_eq summary "" then t else record t { summary = summary }) ∷ all_summarized summary rest

unfoldable pub summary_step : String → String → M (Unit {0})
unfolding when set_txn_summary
summary_step voucher summary = when (not (str_eq summary "")) (set_txn_summary voucher summary)

-- Holds.
unfoldable pub held_sum : ℤ → List Hold → ℤ
held_sum held [] = held
held_sum held (h ∷ rest) = held_sum (add64 held h.amount) rest

abbrev pub new_hold : Draws → PlaceHoldInput → Hold
new_hold draws req = record {
  hold_id = draws.hold_id;
  idempotency_key = req.idempotency_key;
  account_no = req.account_no;
  amount = req.amount;
  ccy = req.ccy;
  workflow_id = req.workflow_id;
  status = HoldStatus.active;
  expires_at = req.expires_at;
}

-- The lines of `PlaceHold` under the lock of the balance row.
unfoldable pub reserve_funds : Draws → PlaceHoldInput → Balance → List Hold → M Hold
reserve_funds draws req bal active_now = do
  require (not (ltb_ℤ (sub64 bal.balance (held_sum (pos 0) active_now)) req.amount))
      insufficient_available_balance
  insert_hold (new_hold draws req)
  pure (new_hold draws req)

-- The key is looked up a second time.
unfoldable pub place_locked : Draws → PlaceHoldInput → M Hold
place_locked draws req = do
  bal ← lock_latest_balance req.account_no
  active_now ← lock_active_holds req.account_no
  again ← get_hold_by_idempotency_key req.idempotency_key
  elim again [ some h ↦ pure h | none ↦ reserve_funds draws req bal active_now ]

unfoldable pub place_hold : Draws → PlaceHoldInput → M Hold
place_hold draws req = do
  require (not (leb_ℤ req.amount (pos 0))) non_positive_hold_amount
  existing ← get_hold_by_idempotency_key req.idempotency_key
  elim existing [ some h ↦ pure h | none ↦ place_locked draws req ]

abbrev pub moved : HoldStatus × Option Error → Result HoldStatus
moved (status, none) = ok status
moved (status, some e) = err e

unfoldable pub release_hold : String → M Hold
release_hold id = do
  h ← lock_hold_by_id id
  status ← lift (moved (release h.status))
  when (not (eq_hold_status status h.status)) (set_hold_status id status)
  pure (record h { status = status })

-- Records. Go compares strings by their bytes, which is the order of their code points.
unfoldable pub before : String → String → Bool
before s String.[] = false
before String.[] (String.◌∷◌ d t) = true
before (String.◌∷◌ c s) (String.◌∷◌ d t) =
    let rest = before s t in ltb (code c) (code d) || ((code c == code d) && rest)

abbrev pub sorted_pair : String → String → List String
sorted_pair a b = if before b a then b ∷ a ∷ [] else a ∷ b ∷ []

unfoldable pub locked_account_list : RecordInput → List String
unfolding before
locked_account_list req =
    if is_transfer req.action
    then sorted_pair req.from_account req.to_account
    else req.account_no ∷ []

-- The subject that the loop passes on: the counterparty's own for its own row.
abbrev pub lock_subject : RecordInput → DemandAccount → Option DemandAccount → String → String
lock_subject req acct none key = acct.subject_code
lock_subject req acct (some opp) key =
    if is_transfer req.action && str_eq key req.to_account
    then opp.subject_code
    else acct.subject_code

-- The payer's row is checked for an overdraft.
unfoldable pub pays : RecordInput → DemandAccount → String → Bool
pays req acct key = str_eq key acct.account_no && (is_withdraw req.action || is_transfer req.action)

unfoldable pub lock_rows :
    RecordInput → DemandAccount → Option DemandAccount → ℕ → List String → M (Unit {0})
lock_rows req acct counterparty day [] = pure tt
lock_rows req acct counterparty day (key ∷ rest) = do
  bal ← ensure_balance_row key day (lock_subject req acct counterparty key)
  require (not (pays req acct key && ltb_ℤ bal.available_balance req.amount)) insufficient_balance
  lock_rows req acct counterparty day rest

unfoldable pub resolve_payer : RecordInput → M DemandAccount
resolve_payer req = do
  acct ← get_demand (if is_transfer req.action then req.from_account else req.account_no)
  require (is_open acct.status) account_not_active
  require (str_eq req.ccy "" || str_eq req.ccy acct.ccy) ccy_mismatch
  pure acct

unfoldable pub open_counterparty : String → M (Option DemandAccount)
open_counterparty key = do
  opp ← get_demand key
  require (is_open opp.status) account_not_active
  pure (some opp)

unfoldable pub resolve_counterparty : RecordInput → M (Option DemandAccount)
unfolding pure open_counterparty
resolve_counterparty req =
    if is_transfer req.action then open_counterparty req.to_account else pure none

-- `Record`: `Post` inside `txn`, under the locks.
unfoldable pub record_txn : Draws → RecordInput → M Booking
record_txn draws req = do
  day ← get_biz_date
  acct ← resolve_payer req
  counterparty ← resolve_counterparty req
  entries ← lift (build_entries req.action acct counterparty req.amount)
  lock_rows req acct counterparty day (locked_account_list req)
  txns ← post draws entries day acct.ccy draws.voucher_no ""
  summary_step draws.voucher_no req.summary
  pure (record {
    voucher_no = draws.voucher_no;
    biz_date = day;
    txns = all_summarized req.summary txns;
  })

pub record ReverseResult : Type 0 where
  pub voucher_no : String
  pub mode : ReverseMode
  pub status : TxnStatus
  pub reversed_voucher_no : String
  pub txns : List Txn

abbrev pub any_reversed : List Txn → Bool
any_reversed [] = false
any_reversed (t ∷ rest) = is_reversed t.txn_status || any_reversed rest

abbrev pub first_id : List Txn → String
first_id [] = ""
first_id (t ∷ _) = t.txn_id

unfoldable pub reverse_blue : String → ℕ → List Txn → M ReverseResult
reverse_blue voucher day origs = do
  has ← has_reversal (first_id origs)
  require (not has) already_reversed
  update_txn_status voucher reversed
  let (deltas, gl) = reverse_rollback origs day
  apply_balance_deltas day deltas
  upsert_gl gl
  pure (record {
    voucher_no = voucher;
    mode = blue;
    status = reversed;
    reversed_voucher_no = "";
    txns = [];
  })

unfoldable pub reverse_red : Draws → String → ℕ → List Txn → M ReverseResult
reverse_red draws voucher day origs = do
  has ← has_reversal (first_id origs)
  require (not has) already_reversed
  txns ← post draws (reverse_entries origs) day (first_ccy origs) draws.voucher_no (first_id origs)
  pure (record {
    voucher_no = voucher;
    mode = red;
    status = normal;
    reversed_voucher_no = draws.voucher_no;
    txns = txns;
  })

unfoldable pub reverse_by : Draws → ReverseMode → String → ℕ → List Txn → M ReverseResult
unfolding raise reverse_blue reverse_red
reverse_by draws blue voucher day origs = reverse_blue voucher day origs
reverse_by draws red voucher day origs = reverse_red draws voucher day origs
reverse_by draws (ReverseMode.other _) voucher day origs = raise (rejected "unknown mode")

abbrev pub is_empty : {A : Type 0} → List A → Bool
is_empty [] = true
is_empty (_ ∷ _) = false

unfoldable pub reverse_txn : Draws → String → ReverseMode → M ReverseResult
reverse_txn draws voucher mode = do
  day ← get_biz_date
  origs ← get_txns_by_voucher voucher
  require (not (is_empty origs)) voucher_not_found
  require (not (any_reversed origs)) already_reversed
  reverse_by draws mode voucher day origs
