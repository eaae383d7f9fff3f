-- ===== src/Bank/Workflow/Admin.antt =====
-- The operator's ways out of a compensation that is stuck:
-- templates/bank/internal/platform/workflow/admin_ops.go.
use jiade.Prelude.{
  ℕ, suc, String, Bool, Option, none, some, List, [], ◌∷◌, ◌||◌, get_elem?, str_eq, if◌then◌else◌,
}
use jiade.Bank.Workflow.Types.{
  no_class, Instance, InstanceStatus, ActionRecord, ActionStatus, invalid_message,
  invalid_compensation_state, eq_action_status, eq_instance_status,
}
use jiade.Bank.Workflow.Registry.{get}
use jiade.Bank.Workflow.Tx.{
  M, ◌>>=◌, ◌>>◌, some_or, require, instance_now, save_instance, save_action, upsert,
}
use jiade.Bank.Workflow.Engine.{
  Engine, definition_of, persist_compensation_dispatch, continue_compensation,
}

abbrev pub is_stuck : ActionStatus → Bool
is_stuck s =
    eq_action_status s ActionStatus.compensation_failed
    || eq_action_status s ActionStatus.compensating

abbrev pub in_compensation : InstanceStatus → Bool
in_compensation s =
    eq_instance_status s InstanceStatus.compensating
    || eq_instance_status s InstanceStatus.compensation_failed

-- The loop that looks for an action by its name: the index and the record of the first one.
unfoldable pub find_action : String → ℕ → List ActionRecord → Option (ℕ × ActionRecord)
find_action name k [] = none
find_action name k (r ∷ rs) =
    if str_eq r.name name then some (k, r) else find_action name (suc k) rs

module _ (e : Engine) where
  -- `RetryCompensationTx`
  unfoldable pub retry_compensation_tx : M (Unit {0})
  unfolding get persist_compensation_dispatch
  retry_compensation_tx = do
    i ← instance_now
    require (eq_instance_status i.status InstanceStatus.compensation_failed)
        invalid_compensation_state
    r ← some_or (get_elem? i.actions i.current_action) invalid_compensation_state
    require (eq_action_status r.status ActionStatus.compensation_failed) invalid_compensation_state
    def ← definition_of e i
    let j : Instance = record i { status = InstanceStatus.compensating; revision = suc i.revision }
    save_instance j
    persist_compensation_dispatch e j def i.current_action (suc r.attempt)

  -- `ResolveCompensationTx`
  unfoldable pub resolve_compensation_tx : String → M (Unit {0})
  unfolding get find_action continue_compensation
  resolve_compensation_tx name = do
    i ← instance_now
    require (in_compensation i.status) invalid_compensation_state
    (idx, r) ← some_or (find_action name 0 i.actions) invalid_message
    require (is_stuck r.status) invalid_compensation_state
    def ← definition_of e i
    let undone : ActionRecord = record r {
      status = ActionStatus.compensated;
      last_error_class = no_class;
      last_error = "";
    }
    save_action undone
    continue_compensation e (record i { actions = upsert i.actions undone }) def idx
