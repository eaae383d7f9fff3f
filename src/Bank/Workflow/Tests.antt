-- ===== src/Bank/Workflow/Tests.antt =====
-- The runs of templates/bank/internal/platform/workflow reach what they should, and the laws of the
-- engine at those runs.
use jiade.Prelude.{
  true, suc, ◌<◌, ◌≡◌, refl, false, none, some, [], ◌∷◌, ◌++◌, All, length, take, drop, get_elem?,
  arith, str_eq,
}
use jiade.Prelude.Int.{pos, ltb_ℤ}
use jiade.Bank.Workflow.Types.{
  Instance, no_class, InstanceStatus, running, ActionStatus, waiting_result, forward, ActionRecord,
  Envelope,
}
use jiade.Bank.Workflow.Tx.{Tx, ok, ◌>>=◌}
use jiade.Bank.Workflow.Registry.{get, validate_definition, register}
use jiade.Bank.Workflow.Results.{apply_result_tx}
use jiade.Bank.Workflow.Resume.{prepare_tx, redispatch_tx}
use jiade.Bank.Workflow.Store.{open_tx, find_row, is_claimable, Store, claim_runnable}
use jiade.Bank.Workflow.Operations.{start, prepare, apply_result}
use jiade.Bank.Workflow.Rows.{AllSound}
use jiade.Bank.Workflow.Ladder.{IsSettled}
use jiade.Bank.Workflow.Transactions.{action_count}
use jiade.Bank.Workflow.Reach.{started, prepared, applied, Reach, here, there, Reach-AllSound}
use jiade.Bank.Workflow.Recovery.{RecoveryConfig, claim_limit, process_instance}
use jiade.Bank.Workflow.Sweeps.{process_instance-resends}
use jiade.Bank.Workflow.Once.{apply_result-once}
use jiade.Bank.Workflow.Outcomes.{
  terminal_absorbs, succeeded_means, compensated_means, running_means, compensating_means,
}
use jiade.Bank.Workflow.Progress.{
  Succeeds, last_result-succeeds, earlier_result-advances, redispatch_tx-resends,
}
use jiade.Bank.Workflow.Lookup.{DistinctNames, register_accepts}
use jiade.Bank.Workflow.Runs.{
  command, outcome_of, step, transfer, e, empty, request, answer, begun, halfway, finished, refused,
  undoing, undone, row,
}

finished_status : (row finished).status ≡ InstanceStatus.succeeded
unfolding start prepare apply_result ◌>>=◌
finished_status = refl

undone_status : (row undone).status ≡ InstanceStatus.compensated
unfolding start prepare apply_result ◌>>=◌
undone_status = refl

begun_reached : Reach e empty begun
begun_reached = there (there here (started empty request)) (prepared _ "w")

halfway_reached : Reach e empty halfway
halfway_reached = there begun_reached (applied begun (answer "m1" "done" "debit" "u"))

refused_reached : Reach e empty refused
refused_reached = there begun_reached (applied begun (answer "m1" "refused" "debit" "u"))

finished_reached : Reach e empty finished
finished_reached = there halfway_reached (applied halfway (answer "m2" "done" "credit" "uuu"))

undoing_reached : Reach e empty undoing
undoing_reached = there halfway_reached (applied halfway (answer "m2" "refused" "credit" "uuu"))

undone_reached : Reach e empty undone
undone_reached = there undoing_reached (applied undoing (answer "m3" "done" "debit" "uuuuu"))

Reach-AllSound_example : AllSound e.registry undone
Reach-AllSound_example = Reach-AllSound e undone_reached tt

apply_result-once_example :
    apply_result e (answer "m1" "done" "debit" "u") halfway ≡ (ok tt, halfway)
unfolding start prepare apply_result ◌>>=◌
apply_result-once_example = apply_result-once e (answer "m1" "done" "debit" "u") begun refl

terminal_absorbs_example :
    ((apply_result_tx e (answer "m4" "done" "debit" "u") (open_tx (row refused) refused)).1.inst
      ≡ row refused)
    × ((prepare_tx e (row begun) (open_tx (row refused) refused)).1.inst ≡ row refused)
    × ((redispatch_tx e (open_tx (row refused) refused)).1.inst ≡ row refused)
unfolding start prepare apply_result ◌>>=◌
terminal_absorbs_example =
    terminal_absorbs e (open_tx (row refused) refused) (answer "m4" "done" "debit" "u") (row begun)
      refl

succeeded_means_example :
    (length (row finished).actions ≡ action_count e.registry (row finished))
    × All (λ r. r.status ≡ ActionStatus.succeeded) (row finished).actions
unfolding start prepare apply_result ◌>>=◌
succeeded_means_example =
    succeeded_means e finished "w" (row finished) empty refl finished_reached refl refl

compensated_means_example : All (λ r. IsSettled r.status) (row refused).actions
unfolding start prepare apply_result ◌>>=◌
compensated_means_example =
    compensated_means e refused "w" (row refused) empty refl refused_reached refl refl

running_means_example :
    ((row halfway).current_action < action_count e.registry (row halfway))
    × (length (row halfway).actions ≡ suc (row halfway).current_action)
    × All
        (λ r. r.status ≡ ActionStatus.succeeded)
        (take (row halfway).current_action (row halfway).actions)
unfolding start prepare apply_result ◌>>=◌
running_means_example =
    running_means e halfway "w" (row halfway) empty refl halfway_reached refl refl

compensating_means_example :
    ((r : ActionRecord) × (get_elem? (row undoing).actions (row undoing).current_action ≡ some r)
      × (r.status ≡ ActionStatus.compensating))
    × All
        (λ r. r.status ≡ ActionStatus.succeeded)
        (take (row undoing).current_action (row undoing).actions)
    × All (λ r. IsSettled r.status) (drop (suc (row undoing).current_action) (row undoing).actions)
unfolding start prepare apply_result ◌>>=◌
compensating_means_example =
    compensating_means e undoing "w" (row undoing) empty refl undoing_reached refl refl

-- The first record of an instance, while it waits for its result.
abbrev debit_record : ActionRecord
debit_record = record {
  index = 0;
  name = "debit";
  status = waiting_result;
  direction = forward;
  attempt = 1;
  idempotency_key = "w:debit:1";
  command_id = "u";
  result_event_id = "";
  deadline_at = 16;
  output = "";
  last_error_class = no_class;
  last_error = "";
  accepted_result_types = "done" ∷ "refused" ∷ [];
}

abbrev debit_tx : Tx
debit_tx = open_tx (row begun) begun

abbrev debit_answer : Envelope
debit_answer = answer "m1" "done" "debit" "u"

debit-Succeeds : Succeeds e debit_tx debit_answer transfer
unfolding start prepare apply_result ◌>>=◌
debit-Succeeds = record {
  current = debit_record;
  action = step "debit";
  outcome = outcome_of debit_answer;
  is_new = refl;
  own = refl;
  status = refl;
  stored = refl;
  expected = refl;
  known = refl;
  present = refl;
  read = refl;
  success = refl;
}

earlier_result-advances_example :
    ((apply_result_tx e debit_answer debit_tx).0 ≡ ok tt)
    × ((apply_result_tx e debit_answer debit_tx).1.inst.status ≡ running)
    × ((apply_result_tx e debit_answer debit_tx).1.inst.current_action
        ≡ suc debit_tx.inst.current_action)
    × (length (apply_result_tx e debit_answer debit_tx).1.outbox ≡ suc (length debit_tx.outbox))
unfolding start prepare apply_result ◌>>=◌
earlier_result-advances_example =
    earlier_result-advances e debit_tx debit_answer transfer debit-Succeeds (step "credit") refl
      λ view. (command "credit", refl)

abbrev credit_tx : Tx
credit_tx = open_tx (row halfway) halfway

abbrev credit_answer : Envelope
credit_answer = answer "m2" "done" "credit" "uuu"

abbrev credit_record : ActionRecord
credit_record = record debit_record {
  index = 1;
  name = "credit";
  idempotency_key = "w:credit:1";
  command_id = "uuu";
  deadline_at = 18;
}

credit-Succeeds : Succeeds e credit_tx credit_answer transfer
unfolding start prepare apply_result ◌>>=◌
credit-Succeeds = record {
  current = credit_record;
  action = step "credit";
  outcome = outcome_of credit_answer;
  is_new = refl;
  own = refl;
  status = refl;
  stored = refl;
  expected = refl;
  known = refl;
  present = refl;
  read = refl;
  success = refl;
}

last_result-succeeds_example :
    ((apply_result_tx e credit_answer credit_tx).0 ≡ ok tt)
    × ((apply_result_tx e credit_answer credit_tx).1.inst.status ≡ InstanceStatus.succeeded)
    × ((apply_result_tx e credit_answer credit_tx).1.outbox ≡ credit_tx.outbox)
unfolding start prepare apply_result ◌>>=◌
last_result-succeeds_example =
    last_result-succeeds e credit_tx credit_answer transfer credit-Succeeds (omega arith)

-- The same instance when the clock has moved past the deadline.
abbrev overdue_tx : Tx
overdue_tx = record (open_tx (row begun) begun) { readings = 100 }

redispatch_tx-resends_example :
    ((redispatch_tx e overdue_tx).0 ≡ ok tt)
    × ((redispatch_tx e overdue_tx).1.inst.current_action ≡ overdue_tx.inst.current_action)
    × ((redispatch_tx e overdue_tx).1.inst.status ≡ running)
    × ((redispatch_tx e overdue_tx).1.inst.lease_owner ≡ overdue_tx.inst.lease_owner)
    × ((redispatch_tx e overdue_tx).1.inst.id ≡ overdue_tx.inst.id)
    × ((env : Envelope) × ((redispatch_tx e overdue_tx).1.outbox
          ≡ overdue_tx.outbox ++ (env, (command "debit").routing_key) ∷ [])
        × (env.workflow_id ≡ overdue_tx.inst.id)
        × (env.command_id ≡ debit_record.command_id)
        × (env.idempotency_key ≡ debit_record.idempotency_key)
        × (env.payload ≡ (command "debit").payload))
unfolding start prepare apply_result ◌>>=◌
redispatch_tx-resends_example =
    redispatch_tx-resends e overdue_tx debit_record transfer (step "debit") (command "debit") refl
      refl refl (omega arith) (omega arith) refl refl refl

register_accepts_example :
    (str_eq transfer.typ "" ≡ false)
    × (ltb_ℤ transfer.version (pos 1) ≡ false)
    × DistinctNames [] transfer.actions
    × (get [] transfer.typ transfer.version ≡ none)
    × (get (register [] transfer).0 transfer.typ transfer.version ≡ some transfer)
unfolding register get validate_definition
register_accepts_example = register_accepts [] transfer refl

abbrev loop : RecoveryConfig
loop = record { owner = "o"; lease = pos 30; poll_interval = pos 1 }

-- A store whose instance waits too long for its result, and the same when the loop has claimed it.
abbrev overdue : Store
overdue = record begun { readings = 100 }

abbrev taken : Store
taken = (claim_runnable "o" 110 30 claim_limit overdue).1

process_instance-resends_example :
    ((j : Instance) × (find_row "w" (process_instance e "o" "w" taken).rows ≡ some j)
      × (j.status ≡ running)
      × (j.current_action ≡ (row taken).current_action)
      × (j.lease_owner ≡ ""))
    × ((env : Envelope) × ((process_instance e "o" "w" taken).outbox
          ≡ taken.outbox ++ (env, (command "debit").routing_key) ∷ [])
        × (env.workflow_id ≡ (row taken).id)
        × (env.command_id ≡ debit_record.command_id)
        × (env.idempotency_key ≡ debit_record.idempotency_key)
        × (env.payload ≡ (command "debit").payload))
unfolding start prepare apply_result claim_runnable ◌>>=◌
process_instance-resends_example =
    process_instance-resends e "o" "w" taken (row taken) debit_record transfer (step "debit")
      (command "debit") refl refl refl refl refl refl refl (omega arith) (omega arith) refl refl
      refl

-- An instance that is compensating, long after the deadline of its command.
abbrev undo_tx : Tx
undo_tx = record (open_tx (row undoing) undoing) { readings = 100 }

-- The recovery loop claims it all the same.
undo_claimable : is_claimable 110 (row undoing) ≡ true
unfolding start prepare apply_result ◌>>=◌ is_claimable
undo_claimable = refl

-- But neither of its transactions sends the command again.
undo_ignored : (redispatch_tx e undo_tx).1.outbox ≡ undo_tx.outbox
unfolding redispatch_tx start prepare apply_result ◌>>=◌
undo_ignored = refl
