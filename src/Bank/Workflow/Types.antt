-- ===== src/Bank/Workflow/Types.antt =====
-- The public contracts of templates/bank/internal/platform/workflow/types.go, and the envelope of
-- templates/bank/internal/platform/messaging/envelope.go.
-- JSON is a text, empty for nil. A time is a number, 0 for Go's zero time; a duration is an
-- integer. The statuses are the ones that the CHECK constraints of bank/db/migrations/pay_db.sql
-- let in; `unset` is the empty text of a record that Go has only allocated. The index of the
-- current action is never set below 0, so it is a number.
use jiade.Prelude.{ℕ, String, Bool, true, false, List}
use jiade.Prelude.Int.{ℤ}

pub data ErrorClass : Type 0 where
  no_class business_rejected transient_failure unknown_outcome : ErrorClass
  invariant_violation invalid_message : ErrorClass
  other : String → ErrorClass

pub data InstanceStatus : Type 0 where
  preparing ready running succeeded rejected : InstanceStatus
  compensating compensated compensation_failed : InstanceStatus

pub data ActionStatus : Type 0 where
  unset pending waiting_result succeeded failed : ActionStatus
  compensating compensated compensation_failed : ActionStatus

pub data Direction : Type 0 where
  unset forward compensation : Direction

pub record StartRequest : Type 0 where
  pub workflow_id : String
  pub typ : String
  pub version : ℤ
  pub input : String
  pub correlation_id : String
  pub created_at : ℕ

pub record ActionRecord : Type 0 where
  pub index : ℕ
  pub name : String
  pub status : ActionStatus
  pub direction : Direction
  pub attempt : ℕ
  pub idempotency_key : String
  pub command_id : String
  pub result_event_id : String
  pub deadline_at : ℕ
  pub output : String
  pub last_error_class : ErrorClass
  pub last_error : String
  pub accepted_result_types : List String

pub record Instance : Type 0 where
  pub id : String
  pub typ : String
  pub version : ℤ
  pub status : InstanceStatus
  pub input : String
  pub prepared_context : String
  pub current_action : ℕ
  pub revision : ℕ
  pub lease_owner : String
  pub lease_until : ℕ
  pub next_wakeup_at : ℕ
  pub operational_deadline : ℕ
  pub last_error_class : ErrorClass
  pub last_error : String
  pub actions : List ActionRecord
  pub correlation_id : String

pub record View : Type 0 where
  pub instance_of : Instance
  pub action : ActionRecord

pub record Dispatch : Type 0 where
  pub routing_key : String
  pub payload : String
  pub accepted_result_types : List String
  pub deadline : ℤ
  pub idempotency_key : String

pub record Outcome : Type 0 where
  pub is_success : Bool
  pub class : ErrorClass
  pub output : String
  pub message : String

pub record Envelope : Type 0 where
  pub message_id : String
  pub message_type : String
  pub schema_version : ℕ
  pub workflow_id : String
  pub action_name : String
  pub command_id : String
  pub idempotency_key : String
  pub correlation_id : String
  pub causation_id : String
  pub occurred_at : ℕ
  pub payload : String

-- The result of a call that a workflow's author writes: a value, or the text of an error.
pub data Attempt (A : Type 0) : Type 0 where
  good : A → Attempt A
  bad : String → Attempt A

-- An `Action` and a `Definition` are interfaces in Go: here their methods are functions.
pub record Action : Type 0 where
  pub name : String
  pub execute : View → Attempt Dispatch
  pub apply_result : View → Envelope → Attempt Outcome
  pub compensate : View → Attempt Dispatch
  pub apply_compensation_result : View → Envelope → Attempt Outcome

pub record Definition : Type 0 where
  pub typ : String
  pub version : ℤ
  pub prepare : String → Attempt String
  pub actions : List Action

pub record EngineConfig : Type 0 where
  pub execute_max_attempts : ℤ
  pub compensation_max_attempts : ℤ
  pub operational_deadline : ℤ

-- The errors that the engine returns, without the text around their sentinels.
pub data Error : Type 0 where
  instance_exists instance_not_found definition_not_found invalid_message : Error
  invalid_compensation_state no_actions lease_not_held definition_unavailable : Error
  -- an error of the action's own code
  action_error : String → Error
  -- an index out of the range of the definition's actions, where Go panics
  index_panic : Error

abbrev pub eq_action_status : ActionStatus → ActionStatus → Bool
eq_action_status ActionStatus.unset ActionStatus.unset = true
eq_action_status pending pending = true
eq_action_status waiting_result waiting_result = true
eq_action_status ActionStatus.succeeded ActionStatus.succeeded = true
eq_action_status failed failed = true
eq_action_status ActionStatus.compensating ActionStatus.compensating = true
eq_action_status ActionStatus.compensated ActionStatus.compensated = true
eq_action_status ActionStatus.compensation_failed ActionStatus.compensation_failed = true
eq_action_status _ _ = false

abbrev pub eq_instance_status : InstanceStatus → InstanceStatus → Bool
eq_instance_status preparing preparing = true
eq_instance_status ready ready = true
eq_instance_status running running = true
eq_instance_status InstanceStatus.succeeded InstanceStatus.succeeded = true
eq_instance_status rejected rejected = true
eq_instance_status InstanceStatus.compensating InstanceStatus.compensating = true
eq_instance_status InstanceStatus.compensated InstanceStatus.compensated = true
eq_instance_status InstanceStatus.compensation_failed InstanceStatus.compensation_failed = true
eq_instance_status _ _ = false
