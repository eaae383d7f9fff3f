-- ===== src/Dcn/Rmb/Coordinator.antt =====
-- The handlers of templates/bank_dcn/internal/rmb/coordinator.go. Statements of the database do not
-- fail.
use jiade.Prelude.{
  ℕ, ◌+◌, ◌-◌, String, Bool, true, false, not, ◌&&◌, ◌||◌, ◌==◌, ltb, leb, Option, none, some, List,
  [], ◌∷◌, ◌++◌, length, str_eq, if◌then◌else◌,
}
use Prim.Native.String.{◌++◌ as append_text}
use jiade.Dcn.Rmb.Types.{
  Receipt, TxStatus, processing, committed, compensated, StepStatus, pending, done, StepRow,
  TxRequestStep, TxRequest, Tx, eq_tx_status, eq_step_status,
}
use jiade.Dcn.Rmb.Steps.{
  has_original, done_originals, comp_steps, max_no, first_failed, all_done, compensations,
  update_step, reset_step, fail_pending, step_status, pending_messages,
}

unfoldable pub publish_pending : Tx → Tx
unfolding pending_messages
publish_pending tx = record tx { sent = tx.sent ++ pending_messages tx.steps }

-- `Coordinator.transition` of the source, which only sets the status and logs.
abbrev pub transition : Tx → TxStatus → Tx
transition tx to = record tx { status = to }

abbrev set_attempts : ℕ → ℕ → (ℕ → ℕ) → ℕ → ℕ
set_attempts n k attempts m = if m == n then k else attempts m

-- The new row of the map, and whether the step was reset.
unfoldable pub retry_compensate : Tx → StepRow → Tx × Bool
retry_compensate tx st =
    let n = tx.attempts st.step_no in
    if leb 3 n then (tx, false) else (
      record tx {
        steps = reset_step st.step_no tx.steps;
        attempts = set_attempts st.step_no (n + 1) tx.attempts;
      },
      true,
    )

-- A compensation step that failed is sent again, or the transaction is given up.
unfoldable pub retry_or_fail : Tx → StepRow → Tx
unfolding retry_compensate publish_pending
retry_or_fail tx st =
    let (tried, retry) = retry_compensate tx st in
    if retry then publish_pending tried else transition tx TxStatus.failed

unfoldable pub settle_compensations : Tx → Tx
unfolding retry_or_fail
settle_compensations tx = elim (first_failed (comp_steps tx.steps)) [
  | some st ↦ retry_or_fail tx st
  | none ↦ if all_done (comp_steps tx.steps) then transition tx compensated else tx
]

-- `len(doneOriginals) - len(compSteps)`, where it is above 0.
unfoldable pub missing : List StepRow → ℕ
missing steps = length (done_originals steps) - length (comp_steps steps)

unfoldable pub last_first : List StepRow → List StepRow
last_first [] = []
last_first (st ∷ rest) = last_first rest ++ st ∷ []

unfoldable pub create_compensations : Tx → Tx
create_compensations tx = record tx {
  steps =
      tx.steps
      ++ compensations (last_first (done_originals tx.steps)) (max_no 0 tx.steps)
          (missing tx.steps);
}

unfoldable pub compensate : Tx → Tx
unfolding create_compensations settle_compensations publish_pending
compensate tx =
    if ltb 0 (missing tx.steps)
    then publish_pending (create_compensations tx)
    else if ltb 0 (length (comp_steps tx.steps))
    then settle_compensations tx
    else if has_original pending tx.steps
    then tx
    else transition tx compensated

unfoldable pub advance : Tx → Tx
unfolding compensate
advance tx =
    if not (eq_tx_status tx.status processing)
    then tx
    else if has_original StepStatus.failed tx.steps || ltb 0 (length (comp_steps tx.steps))
    then compensate tx
    else if all_done tx.steps
    then transition tx committed
    else tx

-- The statement that sets the step of a receipt.
unfoldable pub mark_step : ℕ → StepStatus → StepStatus → Tx → Tx
unfolding update_step
mark_step n from to tx = record tx { steps = update_step n from to tx.steps }

unfoldable pub reopen_compensation : Tx → Tx
reopen_compensation tx =
    if eq_tx_status tx.status compensated then record tx { status = processing } else tx

-- `handleReceipt` after its two reads, with what they found.
unfoldable pub after_reads : Receipt → StepStatus → TxStatus → Tx → Tx
unfolding mark_step reopen_compensation advance
after_reads rc was tx_was tx =
    if rc.done && eq_step_status was StepStatus.failed
    then advance (
        if eq_tx_status tx_was compensated
        then reopen_compensation (mark_step rc.step_no StepStatus.failed done tx)
        else mark_step rc.step_no StepStatus.failed done tx)
    else advance (mark_step rc.step_no pending (if rc.done then done else StepStatus.failed) tx)

unfoldable pub handle_receipt : Receipt → Tx → Tx
unfolding step_status after_reads
handle_receipt rc tx = elim (step_status rc.step_no tx.steps) [
  | none ↦ tx
  | some was ↦ after_reads rc was tx.status tx
]

-- The part of `expire` that its own transaction commits.
unfoldable pub expire_steps : Tx → Tx
unfolding fail_pending
expire_steps tx =
    if eq_tx_status tx.status processing && length (comp_steps tx.steps) == 0
    then record tx { steps = fail_pending tx.steps }
    else tx

unfoldable pub expire : Tx → Tx
unfolding expire_steps advance publish_pending
expire tx =
    if not (eq_tx_status tx.status processing)
    then tx
    else if ltb 0 (length (comp_steps tx.steps))
    then publish_pending tx
    else advance (expire_steps tx)

-- The rows that `register` inserts, numbered from 1.
unfoldable pub request_rows : String → ℕ → List TxRequestStep → List StepRow
request_rows tx_id i [] = []
request_rows tx_id i (st ∷ rest) =
    record {
      step_no = i + 1;
      dcn = st.dcn;
      action = st.action;
      status = pending;
      payload = record {
        tx_id = tx_id;
        step_no = i + 1;
        action = st.action;
        account_id = st.account_id;
        amount = st.amount;
      };
    }
    ∷ request_rows tx_id (i + 1) rest

abbrev pub registered : String → TxRequest → Tx
registered tx_id req = record {
  tx_id = tx_id;
  type_name = req.type_name;
  status = processing;
  steps = request_rows tx_id 0 req.steps;
  attempts = λ n. 0;
  sent = [];
}

-- A transaction that is there is left alone; `random_hex` is `runx.RandHex(8)`.
unfoldable pub register : String → TxRequest → Option Tx → Tx
unfolding publish_pending request_rows
register random_hex req (some tx) = tx
register random_hex req none =
    publish_pending
      (registered (if str_eq req.tx_id "" then append_text "tx-" random_hex else req.tx_id) req)

-- `recover` for one of its transactions. The retries were in memory.
unfoldable pub recover : Tx → Tx
unfolding publish_pending
recover tx =
    let restarted = record tx { attempts = λ n. 0 } in
    if eq_tx_status tx.status processing then publish_pending restarted else restarted
