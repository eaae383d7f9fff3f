-- ===== src/Bank/CoreBanking/Runs.antt =====
-- Runs of the transactions of templates/bank/internal/corebanking/service on a small bank.
use jiade.Prelude.{ℕ, ◌==◌, String, ◌≡◌, refl, some, [], ◌∷◌, if◌then◌else◌}
use jiade.Bank.CoreBanking.Tx.{
  Store, Draws, ◌>>=◌, pure, lift, require, when, fits_numeric, get_biz_date,
}
use jiade.Bank.CoreBanking.Held.{
  result_envelope, check_hold, resolve_from, resolve_to, ensure_rows, settle_transfer,
  post_new_transfer, post_unless_known, post_held_transfer,
}
use jiade.Bank.CoreBanking.Services.{
  post, summary_step, held_sum, new_hold, reserve_funds, place_locked, place_hold, before,
}
use jiade.Bank.CoreBanking.Tables.{
  insert_txn, insert_from, active_holds, lock_active_holds, hold_of_key,
  get_hold_by_idempotency_key, hold_of_id, lock_hold_by_id, insert_hold, with_status,
  set_hold_status, voucher_of_key, get_held_transfer_by_key, insert_held_transfer, append_outbox,
}
use jiade.Bank.CoreBanking.Posting.{
  acct_entry, entries_of, build_entries, build_held_transfer_entries, sum_sides, validate_balance,
  bump, txn_of, by_acct, gl_sides, summarize,
}
use jiade.Prelude.Int64.{wrap64}
use jiade.Prelude.Int.{ℤ, pos, ◌+ℤ◌, ◌-ℤ◌}
use jiade.Bank.CoreBanking.Types.{
  insufficient_available_balance, Result, ok, err, AccountStatus, DemandAccount, Balance, Booking,
  Hold, PlaceHoldInput, PostHeldTransfer,
}
use jiade.Bank.CoreBanking.Store.{
  find_account, get_demand, find_row, latest, inherit, lock_row, ensure_balance_row,
  lock_latest_balance, accumulate, apply_delta, apply_balance_deltas, add_gl, upsert_gl,
}

abbrev account : String → String → DemandAccount
account no_ subject = record {
  account_no = no_;
  cust_id = "c";
  ccy = "CNY";
  status = AccountStatus.active;
  open_biz_date = 1;
  branch_code = "b";
  product_code = "p";
  subject_code = subject;
}

abbrev pub alice : DemandAccount
alice = account "a1" "2011"

abbrev bob : DemandAccount
bob = account "b1" "2011"

abbrev pub row : String → ℕ → ℤ → Balance
row no_ day amount = record {
  account_no = no_;
  biz_date = day;
  balance = amount;
  available_balance = amount;
  frozen_amount = pos 0;
  subject_code = "2011";
}

abbrev pub bank : Store
bank = record {
  biz_date = some 7;
  accounts = alice ∷ bob ∷ [];
  balances = row "a1" 7 (pos 500) ∷ row "b1" 7 (pos 10) ∷ [];
  txns = [];
  gl = [];
  holds = [];
  held_transfers = [];
  reversals = [];
  outbox = [];
}

abbrev pub draw : String → String → String → Draws
draw n i j = record {
  voucher_no = n;
  hold_id = n;
  txn_id = λ k. if k == 0 then i else j;
  message_id = n;
  now = 3;
}

abbrev pub state : {A : Type 0} → Result (A × Store) → Store
state (ok (_, s)) = s
state (err _) = bank

abbrev pub answer : {A : Type 0} → A → Result (A × Store) → A
answer a (ok (b, _)) = b
answer a (err _) = a

abbrev pub hold_req : PlaceHoldInput
hold_req = record {
  idempotency_key = "k1";
  account_no = "a1";
  amount = pos 200;
  ccy = "CNY";
  workflow_id = "w";
  expires_at = 0;
}

abbrev pub the_hold : Hold
the_hold = new_hold (draw "h1" "" "") hold_req

abbrev pub reserved : Store
reserved = record bank { holds = the_hold ∷ [] }

pub place_hold_run : place_hold (draw "h1" "" "") hold_req bank ≡ ok (the_hold, reserved)
unfolding place_hold place_locked reserve_funds ◌>>=◌ require pure get_hold_by_idempotency_key
    lock_latest_balance get_biz_date lock_row inherit find_row latest lock_active_holds active_holds
    held_sum insert_hold hold_of_key hold_of_id fits_numeric wrap64 ◌+ℤ◌ ◌-ℤ◌
place_hold_run = refl

-- What the hold leaves free is not enough for a second one.
second_hold :
    place_hold
      (draw "h2" "" "")
      (record hold_req { idempotency_key = "k2"; amount = pos 301 })
      reserved
    ≡ err insufficient_available_balance
unfolding place_hold place_locked reserve_funds ◌>>=◌ require pure get_hold_by_idempotency_key
    lock_latest_balance get_biz_date lock_row inherit find_row latest lock_active_holds active_holds
    held_sum insert_hold hold_of_key hold_of_id fits_numeric wrap64 ◌+ℤ◌ ◌-ℤ◌
second_hold = refl

abbrev pub transfer_req : PostHeldTransfer
transfer_req = record {
  idempotency_key = "t1";
  hold_id = "h1";
  from_account = "a1";
  to_account = "b1";
  amount = pos 200;
  ccy = "CNY";
  summary = "";
  saga_routing = record {
    workflow_id = "w";
    action_name = "transfer";
    command_id = "c";
    correlation_id = "r";
    command_message_id = "m";
  };
}

abbrev pub transferred_result : Result (Booking × Store)
transferred_result = post_held_transfer (draw "v1" "x1" "x2") transfer_req reserved

abbrev pub no_booking : Booking
no_booking = record { voucher_no = ""; biz_date = 0; txns = [] }

abbrev pub moved_on : Store
moved_on = state transferred_result

pub transfer_run : transferred_result ≡ ok (answer no_booking transferred_result, moved_on)
unfolding post_held_transfer post_unless_known post_new_transfer ◌>>=◌ require pure lift when
    get_biz_date get_held_transfer_by_key voucher_of_key check_hold lock_hold_by_id hold_of_id
    resolve_from resolve_to get_demand find_account build_held_transfer_entries build_entries
    entries_of ensure_rows ensure_balance_row before lock_row inherit find_row post validate_balance
    sum_sides summarize by_acct bump gl_sides txn_of insert_from insert_txn fits_numeric
    apply_balance_deltas apply_delta accumulate upsert_gl add_gl summary_step settle_transfer
    set_hold_status with_status insert_held_transfer append_outbox result_envelope acct_entry wrap64
    ◌+ℤ◌ ◌-ℤ◌
transfer_run = refl
