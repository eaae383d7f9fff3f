-- ===== src/Bank/Workflow/Engine.antt =====
-- How the engine sends commands: templates/bank/internal/platform/workflow/engine.go. Metrics and
-- tracing are left out, with the readings of the clock that only they use.
-- Where Go keeps a copy of the instance while `SaveAction` writes a record that is there already,
-- both share the array, so the copy sees the write: here it takes over the new actions.
use Prim.Native.String.{◌++◌ as join}
use jiade.Prelude.{
  ℕ, zero, suc, ◌+◌, String, Bool, true, false, not, Option, none, some, List, get_elem?, str_eq,
  if◌then◌else◌,
}
use jiade.Prelude.Int.{ℤ, pos, pos_part, leb_ℤ}
use jiade.Bank.Workflow.Types.{
  ErrorClass, no_class, business_rejected, invariant_violation, Instance, InstanceStatus,
  ActionRecord, ActionStatus, waiting_result, forward, compensation, Dispatch, Envelope, Definition,
  EngineConfig, definition_not_found, index_panic, eq_action_status,
}
use jiade.Bank.Workflow.Registry.{Registry, get}
use jiade.Bank.Workflow.Tx.{
  M, ok, ◌>>=◌, ◌>>◌, pure, some_or, called, save_instance, save_action, append_outbox, blank,
}

-- The clock and the generator of ids answer each reading anew.
pub record Engine : Type 0 where
  pub registry : Registry
  pub config : EngineConfig
  pub clock : ℕ → ℕ
  pub uuid : ℕ → String

-- The defaults of `NewEngine`; two minutes are 120000000000 nanoseconds.
unfoldable pub new_engine : Registry → EngineConfig → (ℕ → ℕ) → (ℕ → String) → Engine
new_engine registry c clock uuid = record {
  registry = registry;
  config = record {
    execute_max_attempts =
        if leb_ℤ c.execute_max_attempts (pos 0) then pos 3 else c.execute_max_attempts;
    compensation_max_attempts =
        if leb_ℤ c.compensation_max_attempts (pos 0) then pos 5 else c.compensation_max_attempts;
    operational_deadline =
        if leb_ℤ c.operational_deadline (pos 0) then pos 120000000000 else c.operational_deadline;
  };
  clock = clock;
  uuid = uuid;
}

-- `now.Add(duration)`, for a duration that is positive.
abbrev pub deadline_at : ℕ → ℤ → ℕ
deadline_at now duration = if leb_ℤ duration (pos 0) then now else now + pos_part duration

-- The classes that end the forward pass.
unfoldable pub is_terminal_execution_failure : ErrorClass → Bool
is_terminal_execution_failure business_rejected = true
is_terminal_execution_failure invariant_violation = true
is_terminal_execution_failure _ = false

-- The last succeeded action before an index, searched downwards; `none` for -1.
unfoldable pub last_succeeded_before : List ActionRecord → ℕ → Option ℕ
last_succeeded_before actions zero = none
last_succeeded_before actions (suc i) =
    let below = last_succeeded_before actions i in
    elim (get_elem? actions i) [
      | none ↦ below
      | some r ↦ if eq_action_status r.status ActionStatus.succeeded then some i else below
    ]

unfoldable pub envelope_correlation_id : Instance → String
envelope_correlation_id i = if not (str_eq i.correlation_id "") then i.correlation_id else i.id

abbrev pub current_schema_version : ℕ
current_schema_version = 1

module _ (e : Engine) where
  unfoldable pub now : M ℕ
  now t = (ok (e.clock t.readings), record t { readings = suc t.readings })

  unfoldable pub new_id : M String
  new_id t = (ok (e.uuid t.ids), record t { ids = suc t.ids })

  -- `buildCommandEnvelope` and `buildCompensationEnvelope`, which are the same, over `NewEnvelope`.
  unfoldable pub build_envelope : Instance → String → ActionRecord → Dispatch → M Envelope
  unfolding envelope_correlation_id now new_id
  build_envelope i action_name r d = do
    id ← new_id
    at ← now
    pure (record {
      message_id = id;
      message_type = d.routing_key;
      schema_version = current_schema_version;
      workflow_id = i.id;
      action_name = action_name;
      command_id = r.command_id;
      idempotency_key = r.idempotency_key;
      correlation_id = envelope_correlation_id i;
      causation_id = "";
      occurred_at = at;
      payload = d.payload;
    })

  -- `persistActionDispatch`: the command of the action at the index of the current one.
  unfoldable pub persist_action_dispatch : Instance → Definition → M (Unit {0})
  unfolding build_envelope
  persist_action_dispatch i def = do
    action ← some_or (get_elem? def.actions i.current_action) index_panic
    dispatch ← called (
        action.execute (record {
          instance_of = i;
          action = record (blank i.current_action) { name = action.name };
        }))
    at ← now
    id ← new_id
    let r : ActionRecord = record {
      index = i.current_action;
      name = action.name;
      status = waiting_result;
      direction = forward;
      attempt = 1;
      idempotency_key =
          if str_eq dispatch.idempotency_key ""
          then join i.id (join ":" (join action.name ":1"))
          else dispatch.idempotency_key;
      command_id = id;
      result_event_id = "";
      deadline_at = deadline_at at dispatch.deadline;
      output = "";
      last_error_class = no_class;
      last_error = "";
      accepted_result_types = dispatch.accepted_result_types;
    }
    save_action r
    envelope ← build_envelope i action.name r dispatch
    append_outbox envelope dispatch.routing_key

  -- `persistCompensationDispatch`: the command that undoes the action at an index.
  unfoldable pub persist_compensation_dispatch : Instance → Definition → ℕ → ℕ → M (Unit {0})
  unfolding build_envelope
  persist_compensation_dispatch i def idx attempt = do
    action ← some_or (get_elem? def.actions idx) index_panic
    old ← some_or (get_elem? i.actions idx) index_panic
    dispatch ← called (action.compensate (record { instance_of = i; action = old }))
    at ← now
    id ← new_id
    let r : ActionRecord = record {
      index = idx;
      name = action.name;
      status = ActionStatus.compensating;
      direction = compensation;
      attempt = attempt;
      idempotency_key =
          if str_eq dispatch.idempotency_key ""
          then join i.id (join ":" (join action.name ":compensate"))
          else dispatch.idempotency_key;
      command_id = id;
      result_event_id = old.result_event_id;
      deadline_at = deadline_at at dispatch.deadline;
      output = old.output;
      last_error_class = no_class;
      last_error = "";
      accepted_result_types = dispatch.accepted_result_types;
    }
    save_action r
    envelope ← build_envelope i action.name r dispatch
    append_outbox envelope dispatch.routing_key

  -- The tail that `beginCompensation`, `applyCompensationResult` and `ResolveCompensationTx` share:
  -- on to the last succeeded action before an index, or the instance is compensated.
  unfoldable pub continue_compensation : Instance → Definition → ℕ → M (Unit {0})
  unfolding last_succeeded_before persist_compensation_dispatch
  continue_compensation i def before = elim (last_succeeded_before i.actions before) [
    | none ↦
        save_instance (record i { status = InstanceStatus.compensated; revision = suc i.revision })
    | some target ↦ do
      let j : Instance = record i {
        status = InstanceStatus.compensating;
        current_action = target;
        revision = suc i.revision;
      }
      save_instance j
      persist_compensation_dispatch j def target 1
  ]

  -- `registry.Get`, with the error of a definition that is missing.
  abbrev pub definition_of : Instance → M Definition
  definition_of i = some_or (get e.registry i.typ i.version) definition_not_found
