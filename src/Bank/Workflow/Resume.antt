-- ===== src/Bank/Workflow/Resume.antt =====
-- `Prepare` and `Redispatch`: templates/bank/internal/platform/workflow/engine.go.
use jiade.Prelude.{
  ℕ, suc, ◌+◌, String, not, Option, none, some, ◌||◌, ◌==◌, length, get_elem?, leb, if◌then◌else◌,
}
use jiade.Prelude.Int.{pos_part}
use jiade.Bank.Workflow.Types.{
  business_rejected, Instance, preparing, running, rejected, ActionRecord, waiting_result, Attempt,
  good, bad, Definition, invalid_message, no_actions, eq_action_status, eq_instance_status,
}
use jiade.Bank.Workflow.Registry.{get}
use jiade.Bank.Workflow.Tx.{
  M, ◌>>=◌, ◌>>◌, pure, raise, some_or, called, instance_now, save_instance, save_action,
  append_outbox, upsert,
}
use jiade.Bank.Workflow.Engine.{
  Engine, now, build_envelope, deadline_at, definition_of, persist_action_dispatch,
}

module _ (e : Engine) where
  -- The transaction of `rejectInstance`, with the text of the author's error.
  unfoldable pub reject_tx : String → M (Unit {0})
  reject_tx text = do
    i ← instance_now
    (if not (eq_instance_status i.status preparing)
        then pure tt
        else save_instance (record i {
          status = rejected;
          last_error = text;
          last_error_class = business_rejected;
          revision = suc i.revision;
        }))

  -- `dispatchFirstAction` for an instance that is still preparing.
  unfoldable pub start_running : Instance → Definition → String → M (Unit {0})
  unfolding persist_action_dispatch
  start_running i def prepared = do
    at ← now e
    let j : Instance = record i {
      prepared_context = prepared;
      status = running;
      current_action = 0;
      operational_deadline = at + pos_part e.config.operational_deadline;
      revision = suc i.revision;
    }
    save_instance j
    persist_action_dispatch e j def

  -- The transaction of `dispatchFirstAction`.
  unfoldable pub dispatch_first_tx : Definition → String → M (Unit {0})
  unfolding start_running
  dispatch_first_tx def prepared = do
    i ← instance_now
    (if not (eq_instance_status i.status preparing) then pure tt else start_running i def prepared)

  -- What `Prepare` does with the answer of the author's own preparation.
  unfoldable pub prepared_tx : Definition → Attempt String → M (Unit {0})
  unfolding reject_tx dispatch_first_tx
  prepared_tx def (bad text) = reject_tx text
  prepared_tx def (good prepared) =
      if length def.actions == 0 then raise no_actions else dispatch_first_tx def prepared

  -- What `Prepare` does in its second transaction, by the instance that its first one has read.
  unfoldable pub prepare_tx : Instance → M (Unit {0})
  unfolding get prepared_tx
  prepare_tx header =
      if not (eq_instance_status header.status preparing)
      then pure tt
      else definition_of e header >>= λ def. prepared_tx def (def.prepare header.input)

  -- What `Redispatch` does for an action whose time has run out.
  unfoldable pub redispatch_action : Instance → ActionRecord → ℕ → M (Unit {0})
  unfolding get build_envelope
  redispatch_action i r at = do
    def ← definition_of e i
    action ← some_or (get_elem? def.actions i.current_action) invalid_message
    dispatch ← called (action.execute (record { instance_of = i; action = r }))
    let late : ActionRecord = record r { deadline_at = deadline_at at dispatch.deadline }
    save_action late
    let j : Instance = record i { revision = suc i.revision; actions = upsert i.actions late }
    save_instance j
    envelope ← build_envelope e j r.name late dispatch
    append_outbox envelope dispatch.routing_key

  -- What `Redispatch` does for the current record, when there is one.
  unfoldable pub redispatch_record : Instance → Option ActionRecord → M (Unit {0})
  unfolding redispatch_action
  redispatch_record i none = pure tt
  redispatch_record i (some r) =
      if not (eq_action_status r.status waiting_result)
      then pure tt
      else now e >>= λ at.
          if r.deadline_at == 0 || leb at r.deadline_at then pure tt else redispatch_action i r at

  -- The transaction of `Redispatch`.
  unfoldable pub redispatch_tx : M (Unit {0})
  unfolding redispatch_record
  redispatch_tx = do
    i ← instance_now
    (if not (eq_instance_status i.status running)
        then pure tt
        else redispatch_record i (get_elem? i.actions i.current_action))
