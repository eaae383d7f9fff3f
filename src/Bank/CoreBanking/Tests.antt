-- ===== src/Bank/CoreBanking/Tests.antt =====
-- Runs of templates/bank/internal/corebanking, and its laws at concrete accounts.
use jiade.Prelude.{◌≡◌, ◌≢◌, ◌⊎◌, refl, none, some, List, [], ◌∷◌, arith}
use jiade.Bank.CoreBanking.Rounds.{net, delta_of, summarize-delta_of}
use jiade.Bank.CoreBanking.Tx.{Store, ◌>>=◌, pure, lift, require, when, fits_numeric, get_biz_date}
use jiade.Bank.CoreBanking.Amounts.{parse_cents-money_text}
use jiade.Bank.CoreBanking.Cents.{digits, print, yuan_text, money_text, parse_cents}
use jiade.Bank.CoreBanking.Ended.{IsFreed, release_hold-frees}
use jiade.Bank.CoreBanking.Covered.{place_hold-IsCovered}
use jiade.Bank.CoreBanking.Reserves.{active_sum, row_of, IsCovered}
use jiade.Bank.CoreBanking.Deltas.{
  reverse_rollback-agrees, summarize-reverse_entries, build_entries-validate_balance,
}
use jiade.Bank.CoreBanking.Balanced.{Calls-IsBalanced}
use jiade.Bank.CoreBanking.Trial.{total_dc, total_cc, IsBalanced}
use jiade.Bank.CoreBanking.Shares.{shares}
use jiade.Bank.CoreBanking.Once.{post_held_transfer-replay, reverse_transfer-once}
use jiade.Bank.CoreBanking.Calls.{placed, transferred, transfer_undone, Calls, here, next}
use jiade.Bank.CoreBanking.Held.{
  result_envelope, check_hold, resolve_from, resolve_to, ensure_rows, settle_transfer,
  post_new_transfer, booking_of, post_unless_known, post_held_transfer, post_reversal,
  reverse_transfer,
}
use jiade.Bank.CoreBanking.Services.{
  post, summary_step, release_hold, before, locked_account_list, pays, lock_rows, resolve_payer,
  resolve_counterparty, record_txn, ReverseResult, reverse_blue, reverse_by, reverse_txn,
}
use jiade.Bank.CoreBanking.Tables.{
  insert_txn, insert_from, of_voucher, get_txns_by_voucher, refers_to, has_reversal, mark,
  update_txn_status, hold_of_id, lock_hold_by_id, with_status, set_hold_status, voucher_of_key,
  get_held_transfer_by_key, insert_held_transfer, reverses, has_reversal_for_voucher,
  insert_reversal, append_outbox,
}
use jiade.Bank.CoreBanking.Posting.{
  cash_entry, acct_entry, entries_of, build_entries, build_held_transfer_entries, sum_sides,
  validate_balance, bump, txn_of, by_acct, gl_sides, summarize, undo_by_acct, undo_gl_sides,
  reverse_rollback, reverse_entries,
}
use jiade.Prelude.Int64.{add64, wrap64}
use jiade.Prelude.Int.{pos, negsuc, ◌+ℤ◌, ◌-ℤ◌, quot, rem}
use jiade.Bank.CoreBanking.Types.{
  active, Error, err, Result, ok, released, reversed, debit, credit, deposit, withdraw, blue, Entry,
  Booking, ReverseTransfer, release,
}
use jiade.Bank.CoreBanking.Store.{
  find_account, get_demand, find_row, latest, inherit, lock_row, ensure_balance_row, accumulate,
  apply_delta, apply_balance_deltas, add_gl, upsert_gl,
}
use jiade.Bank.CoreBanking.Runs.{
  alice, row, bank, draw, state, answer, hold_req, the_hold, reserved, place_hold_run, transfer_req,
  transferred_result, no_booking, moved_on, transfer_run,
}

abbrev undo_req : ReverseTransfer
undo_req = record {
  idempotency_key = "u1";
  original_voucher_no = "v1";
  summary = "";
  saga_routing = transfer_req.saga_routing;
}

abbrev undone_result : Result (Booking × Store)
undone_result = reverse_transfer (draw "v2" "x3" "x4") undo_req moved_on

undo_run : undone_result ≡ ok (answer no_booking undone_result, state undone_result)
unfolding reverse_transfer post_reversal get_txns_by_voucher of_voucher has_reversal_for_voucher
    reverses reverse_entries insert_reversal post_held_transfer post_unless_known post_new_transfer
    ◌>>=◌ require pure lift when get_biz_date get_held_transfer_by_key voucher_of_key check_hold
    lock_hold_by_id hold_of_id resolve_from resolve_to get_demand find_account
    build_held_transfer_entries build_entries entries_of ensure_rows ensure_balance_row before
    lock_row inherit find_row post validate_balance sum_sides summarize by_acct bump gl_sides txn_of
    insert_from insert_txn fits_numeric apply_balance_deltas apply_delta accumulate upsert_gl add_gl
    summary_step settle_transfer set_hold_status with_status insert_held_transfer append_outbox
    result_envelope acct_entry wrap64 ◌+ℤ◌ ◌-ℤ◌
undo_run = refl

-- The transfer and its reversal leave the balances as they were.
undo_balances : (state undone_result).balances ≡ bank.balances
unfolding reverse_transfer post_reversal get_txns_by_voucher of_voucher has_reversal_for_voucher
    reverses reverse_entries insert_reversal post_held_transfer post_unless_known post_new_transfer
    ◌>>=◌ require pure lift when get_biz_date get_held_transfer_by_key voucher_of_key check_hold
    lock_hold_by_id hold_of_id resolve_from resolve_to get_demand find_account
    build_held_transfer_entries build_entries entries_of ensure_rows ensure_balance_row before
    lock_row inherit find_row post validate_balance sum_sides summarize by_acct bump gl_sides txn_of
    insert_from insert_txn fits_numeric apply_balance_deltas apply_delta accumulate upsert_gl add_gl
    summary_step settle_transfer set_hold_status with_status insert_held_transfer append_outbox
    result_envelope acct_entry wrap64 ◌+ℤ◌ ◌-ℤ◌
undo_balances = refl

-- A withdrawal pays no regard to the holds: 400 of the 500 go, 200 of which are held.
withdraw_held :
    (state (
      record_txn
        (draw "v3" "x5" "x6")
        (record {
          action = withdraw;
          account_no = "a1";
          from_account = "";
          to_account = "";
          amount = pos 400;
          ccy = "CNY";
          summary = "";
        })
        reserved)).balances
    ≡ row "a1" 7 (pos 100)
      ∷ row "b1" 7 (pos 10)
      ∷ record (row "1001" 7 (pos 400)) { subject_code = "1001" }
      ∷ []
unfolding record_txn resolve_payer resolve_counterparty lock_rows locked_account_list pays
    cash_entry latest post_held_transfer post_unless_known post_new_transfer ◌>>=◌ require pure lift
    when get_biz_date get_held_transfer_by_key voucher_of_key check_hold lock_hold_by_id hold_of_id
    resolve_from resolve_to get_demand find_account build_held_transfer_entries build_entries
    entries_of ensure_rows ensure_balance_row before lock_row inherit find_row post validate_balance
    sum_sides summarize by_acct bump gl_sides txn_of insert_from insert_txn fits_numeric
    apply_balance_deltas apply_delta accumulate upsert_gl add_gl summary_step settle_transfer
    set_hold_status with_status insert_held_transfer append_outbox result_envelope acct_entry wrap64
    ◌+ℤ◌ ◌-ℤ◌
withdraw_held = refl

abbrev no_reversal : ReverseResult
no_reversal = record {
  voucher_no = "";
  mode = blue;
  status = reversed;
  reversed_voucher_no = "";
  txns = [];
}

abbrev blue_result : Result (ReverseResult × Store)
blue_result = reverse_txn (draw "v4" "x7" "x8") "v1" blue moved_on

-- A voucher that the blue reversal has taken back is reversed by `ReverseTransfer` once more.
twice_reversed :
    (state (reverse_transfer (draw "v2" "x3" "x4") undo_req (state blue_result))).balances
    ≡ row "a1" 7 (pos 700) ∷ row "b1" 7 (negsuc 189) ∷ []
unfolding reverse_txn reverse_by reverse_blue get_txns_by_voucher of_voucher has_reversal refers_to
    update_txn_status mark reverse_rollback undo_by_acct undo_gl_sides post_held_transfer
    post_unless_known post_new_transfer ◌>>=◌ require pure lift when get_biz_date
    get_held_transfer_by_key voucher_of_key check_hold lock_hold_by_id hold_of_id resolve_from
    resolve_to get_demand find_account build_held_transfer_entries build_entries entries_of
    ensure_rows ensure_balance_row before lock_row inherit find_row post validate_balance sum_sides
    summarize by_acct bump gl_sides txn_of insert_from insert_txn fits_numeric apply_balance_deltas
    apply_delta accumulate upsert_gl add_gl summary_step settle_transfer set_hold_status with_status
    insert_held_transfer append_outbox result_envelope acct_entry wrap64 ◌+ℤ◌ ◌-ℤ◌ reverse_transfer
    post_reversal has_reversal_for_voucher reverses reverse_entries insert_reversal
twice_reversed = refl

-- A reversal on the next day starts the day's rows with its deltas.
next_day_reversal :
    find_row "a1" 8 (
      (state (
        reverse_transfer
          (draw "v2" "x3" "x4")
          undo_req
          (record moved_on { biz_date = some 8 }))).balances)
    ≡ some (row "a1" 8 (pos 200))
unfolding reverse_transfer post_reversal get_txns_by_voucher of_voucher has_reversal_for_voucher
    reverses reverse_entries insert_reversal post_held_transfer post_unless_known post_new_transfer
    ◌>>=◌ require pure lift when get_biz_date get_held_transfer_by_key voucher_of_key check_hold
    lock_hold_by_id hold_of_id resolve_from resolve_to get_demand find_account
    build_held_transfer_entries build_entries entries_of ensure_rows ensure_balance_row before
    lock_row inherit find_row post validate_balance sum_sides summarize by_acct bump gl_sides txn_of
    insert_from insert_txn fits_numeric apply_balance_deltas apply_delta accumulate upsert_gl add_gl
    summary_step settle_transfer set_hold_status with_status insert_held_transfer append_outbox
    result_envelope acct_entry wrap64 ◌+ℤ◌ ◌-ℤ◌
next_day_reversal = refl

bank-IsCovered : IsCovered "a1" 7 bank
unfolding active_sum row_of inherit find_row
bank-IsCovered = record {
  amounts = tt;
  within = λ b h. let same : row "a1" 7 (pos 500) ≡ b = cc in rw (← same) (omega arith);
}

release_run :
    release_hold "h1" reserved
    ≡ ok (
      record the_hold { status = released },
      record bank { holds = record the_hold { status = released } ∷ [] },
    )
unfolding release_hold ◌>>=◌ lock_hold_by_id hold_of_id lift release when set_hold_status
    with_status pure
release_run = refl

place_hold-IsCovered_example : IsCovered "a1" 7 reserved
place_hold-IsCovered_example =
    place_hold-IsCovered (draw "h1" "" "") hold_req 7 bank refl bank-IsCovered place_hold_run

release_hold-frees_example :
    ((the_hold.status ≡ active) ⊎ (the_hold.status ≡ released))
      × ((t : Store) × IsFreed "a1" "h1" the_hold reserved t)
    ⊎ (the_hold.status ≢ active)
      × (the_hold.status ≢ released)
      × ((x : Error) × (release_hold "h1" reserved ≡ err x))
unfolding hold_of_id
release_hold-frees_example = release_hold-frees "a1" "h1" reserved the_hold refl

post_held_transfer-replay_example :
    post_held_transfer (draw "v9" "" "") (record transfer_req { amount = pos 1 }) moved_on
    ≡ ok (booking_of "v1" 7 moved_on, moved_on)
unfolding post_held_transfer post_unless_known post_new_transfer ◌>>=◌ require pure lift when
    get_biz_date get_held_transfer_by_key voucher_of_key check_hold lock_hold_by_id hold_of_id
    resolve_from resolve_to get_demand find_account build_held_transfer_entries build_entries
    entries_of ensure_rows ensure_balance_row before lock_row inherit find_row post validate_balance
    sum_sides summarize by_acct bump gl_sides txn_of insert_from insert_txn fits_numeric
    apply_balance_deltas apply_delta accumulate upsert_gl add_gl summary_step settle_transfer
    set_hold_status with_status insert_held_transfer append_outbox result_envelope acct_entry wrap64
    ◌+ℤ◌ ◌-ℤ◌
post_held_transfer-replay_example =
    post_held_transfer-replay (draw "v1" "x1" "x2") (draw "v9" "" "") transfer_req
      (record transfer_req { amount = pos 1 }) reserved 7 transfer_run here refl refl

reverse_transfer-once_example : ¬ (
    reverse_transfer (draw "v9" "x8" "x9") undo_req (state undone_result) ≡ ok (no_booking, bank))
reverse_transfer-once_example =
    reverse_transfer-once (draw "v2" "x3" "x4") (draw "v9" "x8" "x9") undo_req undo_req moved_on
      undo_run here refl

abbrev the_calls : Calls bank (state undone_result)
the_calls =
    next
      (next (next here (placed (draw "h1" "" "") hold_req the_hold reserved place_hold_run)) (
        transferred (draw "v1" "x1" "x2") transfer_req (answer no_booking transferred_result)
          moved_on transfer_run))
      (transfer_undone (draw "v2" "x3" "x4") undo_req (answer no_booking undone_result)
        (state undone_result) undo_run)

bank-IsBalanced : IsBalanced bank
unfolding total_dc total_cc shares
bank-IsBalanced = record { books = refl; vouchers = λ v. refl }

Calls-IsBalanced_example : IsBalanced (state undone_result)
Calls-IsBalanced_example = Calls-IsBalanced the_calls bank-IsBalanced

abbrev two_entries : List Entry
two_entries = cash_entry (pos 5) debit ∷ acct_entry alice (pos 5) credit ∷ []

build_entries-validate_balance_example : validate_balance two_entries ≡ ok (pos 5, pos 5)
unfolding build_entries entries_of
build_entries-validate_balance_example =
    build_entries-validate_balance deposit alice none (pos 5) (omega arith) refl

summarize-delta_of_example :
    delta_of "a1" ((summarize two_entries 7 "CNY" "v1" "").1) ≡ wrap64 (net "a1" two_entries)
summarize-delta_of_example = summarize-delta_of "a1" two_entries 7 "CNY" "v1" ""

reverse_rollback-agrees_example :
    delta_of "a1" ((reverse_rollback moved_on.txns 7).0)
    ≡ delta_of "a1" ((summarize (reverse_entries moved_on.txns) 7 "CNY" "v2" "x1").1)
reverse_rollback-agrees_example = reverse_rollback-agrees "a1" moved_on.txns 7 "CNY" "v2" "x1"

summarize-reverse_entries_example :
    add64 (delta_of "a1" ((summarize two_entries 7 "CNY" "v1" "").1)) (
      delta_of "a1" (
        (summarize
          (reverse_entries ((summarize two_entries 7 "CNY" "v1" "").0))
          8
          "CNY"
          "v2"
          "v1").1))
    ≡ pos 0
summarize-reverse_entries_example =
    summarize-reverse_entries "a1" two_entries 7 8 "CNY" "CNY" "v1" "v2" ""

-- -12.05
minus_text : money_text (negsuc 1204) ≡ 45 ∷ 49 ∷ 50 ∷ 46 ∷ 48 ∷ 53 ∷ []
unfolding money_text yuan_text print digits quot rem wrap64 ◌-ℤ◌
minus_text = refl

-- The least amount has the text --92233720368547758.-8
least_text :
    money_text (negsuc 9223372036854775807)
    ≡ 45 ∷ 45 ∷ 57 ∷ 50 ∷ 50 ∷ 51 ∷ 51 ∷ 55 ∷ 50 ∷ 48 ∷ 51 ∷ 54 ∷ 56 ∷ 53 ∷ 52 ∷ 55 ∷ 55 ∷ 53 ∷ 56
      ∷ 46 ∷ 45 ∷ 56 ∷ []
unfolding money_text yuan_text print digits quot rem wrap64 ◌-ℤ◌
least_text = refl

parse_cents-money_text_example : parse_cents (money_text (negsuc 1204)) ≡ some (negsuc 1204)
parse_cents-money_text_example =
    parse_cents-money_text (negsuc 1204) (omega arith) (λ e. ground arith)
