-- ===== src/Bank/Workflow/Runs.antt =====
-- Runs of templates/bank/internal/platform/workflow: a definition of two actions, driven by the
-- results of its commands.
use Prim.Native.String.{◌++◌ as join}
use jiade.Prelude.{ℕ, zero, suc, ◌+◌, String, true, false, [], ◌∷◌, str_eq, if◌then◌else◌}
use jiade.Prelude.Int.{pos}
use jiade.Bank.Workflow.Types.{
  Action, Definition, Dispatch, Outcome, Envelope, Instance, InstanceStatus, StartRequest, no_class,
  business_rejected, good,
}
use jiade.Bank.Workflow.Engine.{Engine}
use jiade.Bank.Workflow.Store.{Store}
use jiade.Bank.Workflow.Operations.{start, prepare, apply_result}

abbrev pub uuid : ℕ → String
uuid zero = "u"
uuid (suc n) = join "u" (uuid n)

abbrev pub command : String → Dispatch
command key = record {
  routing_key = key;
  payload = "{}";
  accepted_result_types = "done" ∷ "refused" ∷ [];
  deadline = pos 5;
  idempotency_key = "";
}

-- The outcome is read off the message: `done` is a success.
abbrev pub outcome_of : Envelope → Outcome
outcome_of env = record {
  is_success = if str_eq env.message_type "done" then true else false;
  class = business_rejected;
  output = env.payload;
  message = "refused";
}

abbrev pub step : String → Action
step name = record {
  name = name;
  execute = λ view. good (command name);
  apply_result = λ view env. good (outcome_of env);
  compensate = λ view. good (command (join "undo " name));
  apply_compensation_result = λ view env. good (outcome_of env);
}

abbrev pub transfer : Definition
transfer = record {
  typ = "transfer";
  version = pos 1;
  prepare = λ input. good input;
  actions = step "debit" ∷ step "credit" ∷ [];
}

abbrev pub e : Engine
e = record {
  registry = transfer ∷ [];
  config = record {
    execute_max_attempts = pos 3;
    compensation_max_attempts = pos 2;
    operational_deadline = pos 100;
  };
  clock = λ n. n + 10;
  uuid = uuid;
}

abbrev pub empty : Store
empty = record { rows = []; inbox = []; outbox = []; readings = 0; ids = 0 }

abbrev pub request : StartRequest
request = record {
  workflow_id = "w";
  typ = "transfer";
  version = pos 1;
  input = "in";
  correlation_id = "";
  created_at = 0;
}

-- The result that answers a command.
abbrev pub answer : String → String → String → String → Envelope
answer id kind action command_id = record {
  message_id = id;
  message_type = kind;
  schema_version = 1;
  workflow_id = "w";
  action_name = action;
  command_id = command_id;
  idempotency_key = "";
  correlation_id = "";
  causation_id = "";
  occurred_at = 0;
  payload = "{}";
}

abbrev pub begun : Store
begun = (prepare e "w" (start e request empty).1).1

abbrev pub halfway : Store
halfway = (apply_result e (answer "m1" "done" "debit" "u") begun).1

abbrev pub finished : Store
finished = (apply_result e (answer "m2" "done" "credit" "uuu") halfway).1

abbrev pub refused : Store
refused = (apply_result e (answer "m1" "refused" "debit" "u") begun).1

abbrev pub undoing : Store
undoing = (apply_result e (answer "m2" "refused" "credit" "uuu") halfway).1

abbrev pub undone : Store
undone = (apply_result e (answer "m3" "done" "debit" "uuuuu") undoing).1

-- The row of the instance.
abbrev pub row : Store → Instance
row s = elim s.rows [
  | [] ↦ (record {
    id = "";
    typ = "";
    version = pos 0;
    status = InstanceStatus.preparing;
    input = "";
    prepared_context = "";
    current_action = 0;
    revision = 0;
    lease_owner = "";
    lease_until = 0;
    next_wakeup_at = 0;
    operational_deadline = 0;
    last_error_class = no_class;
    last_error = "";
    actions = [];
    correlation_id = "";
  })
  | i ∷ rest ↦ i
]
