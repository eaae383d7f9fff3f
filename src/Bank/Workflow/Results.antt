-- ===== src/Bank/Workflow/Results.antt =====
-- `ApplyResult` and its two handlers: templates/bank/internal/platform/workflow/engine.go.
use jiade.Prelude.{
  suc, Bool, not, ◌&&◌, length, get_elem?, contains_str, str_eq, ltb, if◌then◌else◌,
}
use jiade.Prelude.Int.{pos, leb_ℤ}
use jiade.Bank.Workflow.Types.{
  no_class, Instance, InstanceStatus, running, ActionRecord, ActionStatus, waiting_result, failed,
  Outcome, Envelope, Definition, invalid_message, eq_action_status,
}
use jiade.Bank.Workflow.Registry.{get}
use jiade.Bank.Workflow.Tx.{
  M, ◌>>=◌, ◌>>◌, pure, raise, some_or, called, require, instance_now, save_instance, save_action,
  insert_inbox, upsert,
}
use jiade.Bank.Workflow.Engine.{
  Engine, is_terminal_execution_failure, definition_of, persist_action_dispatch,
  persist_compensation_dispatch, continue_compensation,
}

-- What both result handlers ask of the envelope and of the current action.
abbrev pub is_current_result : Envelope → ActionRecord → ActionStatus → Bool
is_current_result env r status =
    str_eq env.action_name r.name
    && (str_eq env.command_id r.command_id
        && (contains_str env.message_type r.accepted_result_types
            && eq_action_status r.status status))

module _ (e : Engine) where
  -- `applyForwardResult` once the action has read its outcome.
  unfoldable pub forward_outcome :
      Instance → Definition → ActionRecord → Envelope → Outcome → M (Unit {0})
  unfolding is_terminal_execution_failure continue_compensation persist_action_dispatch
  forward_outcome i def r env outcome =
      let lost : ActionRecord = record r {
        status = failed;
        last_error_class = outcome.class;
        last_error = outcome.message;
        result_event_id = env.message_id;
      } in
      let won : ActionRecord = record r {
        status = ActionStatus.succeeded;
        output = outcome.output;
        result_event_id = env.message_id;
      } in
      if not outcome.is_success
      then save_action lost
        >> (if is_terminal_execution_failure outcome.class
            then continue_compensation e (record i { actions = upsert i.actions lost }) def
                i.current_action
            else save_instance (record i { revision = suc i.revision }))
      else save_action won
        >> (if ltb (suc i.current_action) (length def.actions)
            then (let j : Instance = record i {
              current_action = suc i.current_action;
              revision = suc i.revision;
              actions = upsert i.actions won;
            } in
                save_instance j >> persist_action_dispatch e j def)
            else save_instance
                (record i { status = InstanceStatus.succeeded; revision = suc i.revision }))

  unfoldable pub apply_forward_result : Instance → Envelope → M (Unit {0})
  unfolding get forward_outcome
  apply_forward_result i env = do
    r ← some_or (get_elem? i.actions i.current_action) invalid_message
    require (is_current_result env r waiting_result) invalid_message
    def ← definition_of e i
    action ← some_or (get_elem? def.actions i.current_action) invalid_message
    outcome ← called (action.apply_result (record { instance_of = i; action = r }) env)
    forward_outcome i def r env outcome

  -- `applyCompensationResult` once the action has read its outcome.
  unfoldable pub compensation_outcome :
      Instance → Definition → ActionRecord → Envelope → Outcome → M (Unit {0})
  unfolding continue_compensation persist_compensation_dispatch
  compensation_outcome i def r env outcome =
      let lost : ActionRecord = record r {
        status = ActionStatus.compensation_failed;
        last_error_class = outcome.class;
        last_error = outcome.message;
        result_event_id = env.message_id;
      } in
      let undone : ActionRecord = record r {
        status = ActionStatus.compensated;
        last_error_class = no_class;
        last_error = "";
        result_event_id = env.message_id;
      } in
      if not outcome.is_success
      then if leb_ℤ e.config.compensation_max_attempts (pos r.attempt)
        then save_action lost
          >> save_instance (record i {
            status = InstanceStatus.compensation_failed;
            last_error_class = outcome.class;
            last_error = outcome.message;
            revision = suc i.revision;
          })
        else persist_compensation_dispatch e i def i.current_action (suc r.attempt)
      else save_action undone
        >> continue_compensation e (record i { actions = upsert i.actions undone }) def
            i.current_action

  unfoldable pub apply_compensation_result : Instance → Envelope → M (Unit {0})
  unfolding get compensation_outcome
  apply_compensation_result i env = do
    r ← some_or (get_elem? i.actions i.current_action) invalid_message
    require (is_current_result env r ActionStatus.compensating) invalid_message
    def ← definition_of e i
    action ← some_or (get_elem? def.actions i.current_action) invalid_message
    outcome ← called (action.apply_compensation_result (record { instance_of = i; action = r }) env)
    compensation_outcome i def r env outcome

  -- The `switch` of `ApplyResult`.
  unfoldable pub route_result : Instance → Envelope → InstanceStatus → M (Unit {0})
  unfolding apply_forward_result apply_compensation_result
  route_result i env running = apply_forward_result i env
  route_result i env InstanceStatus.compensating = apply_compensation_result i env
  route_result i env _ = raise invalid_message

  -- The transaction of `ApplyResult`.
  unfoldable pub apply_result_tx : Envelope → M (Unit {0})
  unfolding route_result
  apply_result_tx env = do
    inserted ← insert_inbox "workflow" env
    i ← instance_now
    (if not inserted
        then pure tt
        else if not (str_eq env.workflow_id i.id)
        then raise invalid_message
        else route_result i env i.status)
