-- ===== src/Bank/CoreBanking/Held.antt =====
-- `PostHeldTransfer` and `ReverseTransfer` of
-- templates/bank/internal/corebanking/service/held_transfer.go.
use jiade.Prelude.{Option, none, some, ℕ, String, not, ◌||◌, List, [], ◌∷◌, str_eq, if◌then◌else◌}
use jiade.Bank.CoreBanking.Tx.{
  Payload, transfer_posted, transfer_reversed, OutboxMessage, Store, Draws, M, ◌>>=◌, ◌>>◌, pure,
  lift, require, get_biz_date,
}
use jiade.Prelude.Int.{eqb_ℤ}
use jiade.Bank.CoreBanking.Types.{
  account_not_active, ccy_mismatch, hold_not_active, hold_amount_mismatch, hold_ccy_mismatch,
  hold_account_mismatch, original_voucher_not_found, voucher_already_reversed, ok, captured,
  DemandAccount, Txn, Booking, Hold, SagaRouting, PostHeldTransfer, ReverseTransfer, is_open,
  is_active,
}
use jiade.Bank.CoreBanking.Posting.{build_held_transfer_entries, first_ccy, reverse_entries}
use jiade.Bank.CoreBanking.Store.{get_demand, ensure_balance_row}
use jiade.Bank.CoreBanking.Tables.{
  of_voucher, get_txns_by_voucher, lock_hold_by_id, set_hold_status, get_held_transfer_by_key,
  insert_held_transfer, has_reversal_for_voucher, insert_reversal, append_outbox,
}
use jiade.Bank.CoreBanking.Services.{
  post, all_summarized, summary_step, sorted_pair, first_id, is_empty,
}

-- `NewEnvelope` leaves the fields of the saga empty, and `makeTransferResultEnvelope` fills them.
unfoldable pub result_envelope :
    Draws → String → String → String → SagaRouting → Payload → OutboxMessage
result_envelope draws message_type routing_key idempotency_key routing payload = record {
  message_id = draws.message_id;
  message_type = message_type;
  routing_key = routing_key;
  workflow_id = routing.workflow_id;
  action_name = routing.action_name;
  command_id = routing.command_id;
  idempotency_key = idempotency_key;
  correlation_id = routing.correlation_id;
  causation_id = routing.command_message_id;
  occurred_at = draws.now;
  payload = payload;
}

-- Step 1 and step 2: the hold, and that it is active and agrees with the command.
unfoldable pub check_hold : PostHeldTransfer → M Hold
check_hold req = do
  h ← lock_hold_by_id req.hold_id
  require (is_active h.status) hold_not_active
  require (eqb_ℤ h.amount req.amount) hold_amount_mismatch
  require (str_eq h.ccy req.ccy) hold_ccy_mismatch
  require (str_eq h.account_no req.from_account) hold_account_mismatch
  pure h

unfoldable pub resolve_from : PostHeldTransfer → M DemandAccount
resolve_from req = do
  from ← get_demand req.from_account
  require (is_open from.status) account_not_active
  require (str_eq req.ccy "" || str_eq req.ccy from.ccy) ccy_mismatch
  pure from

unfoldable pub resolve_to : PostHeldTransfer → M DemandAccount
resolve_to req = do
  to ← get_demand req.to_account
  require (is_open to.status) account_not_active
  require (str_eq to.ccy req.ccy) ccy_mismatch
  pure to

unfoldable pub ensure_rows :
    PostHeldTransfer → DemandAccount → DemandAccount → ℕ → List String → M (Unit {0})
ensure_rows req from to day [] = pure tt
ensure_rows req from to day (key ∷ rest) = do
  _ ←
      ensure_balance_row key day
        (if str_eq key req.to_account then to.subject_code else from.subject_code)
  ensure_rows req from to day rest

-- Step 5 and step 6: the hold is captured, the key is kept, and the event is written.
unfoldable pub settle_transfer : Draws → PostHeldTransfer → M (Unit {0})
settle_transfer draws req = do
  set_hold_status req.hold_id captured
  insert_held_transfer (record {
    idempotency_key = req.idempotency_key;
    voucher_no = draws.voucher_no;
    hold_id = req.hold_id;
  })
  append_outbox (
      result_envelope draws "core.transfer-posted.v1" "core.transfer.posted" req.idempotency_key
        req.saga_routing
        (transfer_posted draws.voucher_no req.hold_id req.from_account req.to_account req.amount
          req.ccy))

unfoldable pub post_new_transfer : Draws → PostHeldTransfer → ℕ → M Booking
post_new_transfer draws req day = do
  _ ← check_hold req
  from ← resolve_from req
  to ← resolve_to req
  entries ← lift (build_held_transfer_entries from to req.amount)
  ensure_rows req from to day (sorted_pair req.from_account req.to_account)
  txns ← post draws entries day req.ccy draws.voucher_no ""
  summary_step draws.voucher_no req.summary
  settle_transfer draws req
  pure (record {
    voucher_no = draws.voucher_no;
    biz_date = day;
    txns = all_summarized req.summary txns;
  })

abbrev pub booking_of : String → ℕ → Store → Booking
booking_of voucher day s = record {
  voucher_no = voucher;
  biz_date = day;
  txns = of_voucher voucher s.txns;
}

unfoldable pub existing_booking : String → ℕ → M Booking
unfolding of_voucher
existing_booking voucher day s = ok (booking_of voucher day s, s)

-- The fast path of a key that is known.
unfoldable pub post_unless_known : Draws → PostHeldTransfer → ℕ → Option String → M Booking
post_unless_known draws req day (some voucher) = existing_booking voucher day
post_unless_known draws req day none = post_new_transfer draws req day

unfoldable pub post_held_transfer : Draws → PostHeldTransfer → M Booking
post_held_transfer draws req = do
  day ← get_biz_date
  known ← get_held_transfer_by_key req.idempotency_key
  post_unless_known draws req day known

unfoldable pub post_reversal : Draws → ReverseTransfer → ℕ → List Txn → M Booking
post_reversal draws req day origs = do
  txns ← post draws (reverse_entries origs) day (first_ccy origs) draws.voucher_no (first_id origs)
  summary_step draws.voucher_no req.summary
  insert_reversal (record {
    reverses_voucher_no = req.original_voucher_no;
    reversal_voucher_no = draws.voucher_no;
  })
  append_outbox (
      result_envelope draws "core.transfer-reversed.v1" "core.transfer.reversed" req.idempotency_key
        req.saga_routing (transfer_reversed draws.voucher_no req.original_voucher_no))
  pure (record {
    voucher_no = draws.voucher_no;
    biz_date = day;
    txns = all_summarized req.summary txns;
  })

unfoldable pub reverse_transfer : Draws → ReverseTransfer → M Booking
reverse_transfer draws req = do
  day ← get_biz_date
  origs ← get_txns_by_voucher req.original_voucher_no
  require (not (is_empty origs)) original_voucher_not_found
  has ← has_reversal_for_voucher req.original_voucher_no
  require (not has) voucher_already_reversed
  post_reversal draws req day origs
