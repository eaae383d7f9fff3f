-- ===== src/Dcn/Rmb/Steps.antt =====
-- What `advance` of templates/bank_dcn/internal/rmb/coordinator.go reads of the steps, and the
-- statements that write them.
use jiade.Prelude.{
  ℕ, suc, zero, ◌+◌, String, Bool, true, false, not, ◌&&◌, ◌||◌, ◌==◌, ltb, Option, none, some,
  List, [], ◌∷◌, if◌then◌else◌,
}
use jiade.Dcn.Rmb.Types.{
  StepMessage, StepStatus, pending, done, StepRow, eq_step_status, reverse_action, is_compensation,
}

unfoldable pub has_original : StepStatus → List StepRow → Bool
has_original s [] = false
has_original s (st ∷ rest) =
    (not (is_compensation st) && eq_step_status st.status s) || has_original s rest

unfoldable pub done_originals : List StepRow → List StepRow
done_originals [] = []
done_originals (st ∷ rest) =
    let found = done_originals rest in
    if not (is_compensation st) && eq_step_status st.status done then st ∷ found else found

unfoldable pub comp_steps : List StepRow → List StepRow
comp_steps [] = []
comp_steps (st ∷ rest) =
    let found = comp_steps rest in if is_compensation st then st ∷ found else found

unfoldable pub max_no : ℕ → List StepRow → ℕ
max_no m [] = m
max_no m (st ∷ rest) = max_no (if ltb m st.step_no then st.step_no else m) rest

unfoldable pub first_failed : List StepRow → Option StepRow
first_failed [] = none
first_failed (st ∷ rest) =
    let found = first_failed rest in
    if eq_step_status st.status StepStatus.failed then some st else found

unfoldable pub all_done : List StepRow → Bool
all_done [] = true
all_done (st ∷ rest) = eq_step_status st.status done && all_done rest

-- `compensatePayload` with the row that is inserted with it.
abbrev pub compensation_row : StepRow → ℕ → String → StepRow
compensation_row st n rev = record {
  step_no = n;
  dcn = st.dcn;
  action = rev;
  status = pending;
  payload = record {
    tx_id = st.payload.tx_id;
    step_no = n;
    action = rev;
    account_id = st.payload.account_id;
    amount = st.payload.amount;
  };
}

-- The loop that inserts them, over the done steps from the last one on, with the number used last and
-- the number of rows that are missing.
unfoldable pub compensations : List StepRow → ℕ → ℕ → List StepRow
compensations [] n missing = []
compensations (st ∷ rest) n zero = []
compensations (st ∷ rest) n (suc missing) = elim (reverse_action st.action) [
  | none ↦ compensations rest n (suc missing)
  | some rev ↦ compensation_row st (n + 1) rev ∷ compensations rest (n + 1) missing
]

-- UPDATE tx_step_log SET status = to WHERE step_no = n AND status = from
unfoldable pub update_step : ℕ → StepStatus → StepStatus → List StepRow → List StepRow
update_step n from to [] = []
update_step n from to (st ∷ rest) =
    (if st.step_no == n && eq_step_status st.status from then record st { status = to } else st)
    ∷ update_step n from to rest

-- UPDATE tx_step_log SET status = 'PENDING' WHERE step_no = n
unfoldable pub reset_step : ℕ → List StepRow → List StepRow
reset_step n [] = []
reset_step n (st ∷ rest) =
    (if st.step_no == n then record st { status = pending } else st) ∷ reset_step n rest

-- UPDATE tx_step_log SET status = 'FAILED' WHERE status = 'PENDING'
unfoldable pub fail_pending : List StepRow → List StepRow
fail_pending [] = []
fail_pending (st ∷ rest) =
    (if eq_step_status st.status pending then record st { status = StepStatus.failed } else st)
    ∷ fail_pending rest

-- The status of the step with a number.
unfoldable pub step_status : ℕ → List StepRow → Option StepStatus
step_status n [] = none
step_status n (st ∷ rest) =
    let found = step_status n rest in if st.step_no == n then some st.status else found

-- The messages of the pending steps.
unfoldable pub pending_messages : List StepRow → List (String × StepMessage)
pending_messages [] = []
pending_messages (st ∷ rest) =
    let found = pending_messages rest in
    if eq_step_status st.status pending then (st.dcn, st.payload) ∷ found else found
