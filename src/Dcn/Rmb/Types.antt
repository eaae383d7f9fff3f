-- ===== src/Dcn/Rmb/Types.antt =====
-- The rows and messages of templates/bank_dcn/internal/rmb/coordinator.go, with those of
-- templates/bank_dcn/internal/contracts/messages.go. All statements of the coordinator name one
-- transaction, so the tables are taken as that transaction's rows, the steps by their numbers. The
-- payload of a step is always an encoded message, and stands here decoded.
use jiade.Prelude.{
  ℕ, String, Bool, true, false, ◌&&◌, ◌==◌, Option, none, some, List, str_eq, if◌then◌else◌,
}
use Prim.Native.Char.{code}

pub record StepMessage : Type 0 where
  pub tx_id : String
  pub step_no : ℕ
  pub action : String
  pub account_id : ℕ
  pub amount : String

-- The status of a receipt is read as DONE or not.
pub record Receipt : Type 0 where
  pub step_no : ℕ
  pub done : Bool

pub data TxStatus : Type 0 where
  processing committed compensated failed : TxStatus

pub data StepStatus : Type 0 where
  pending done failed : StepStatus

pub record StepRow : Type 0 where
  pub step_no : ℕ
  pub dcn : String
  pub action : String
  pub status : StepStatus
  pub payload : StepMessage

pub record TxRequestStep : Type 0 where
  pub dcn : String
  pub action : String
  pub account_id : ℕ
  pub amount : String

pub record TxRequest : Type 0 where
  pub tx_id : String
  pub type_name : String
  pub steps : List TxRequestStep

-- The row of tx_log, its steps, the retries of each step in the coordinator's memory, and what was
-- handed to `publishFn`, whose failures are only logged.
pub record Tx : Type 0 where
  pub tx_id : String
  pub type_name : String
  pub status : TxStatus
  pub steps : List StepRow
  pub attempts : ℕ → ℕ
  pub sent : List (String × StepMessage)

abbrev pub eq_tx_status : TxStatus → TxStatus → Bool
eq_tx_status processing processing = true
eq_tx_status committed committed = true
eq_tx_status compensated compensated = true
eq_tx_status TxStatus.failed TxStatus.failed = true
eq_tx_status _ _ = false

abbrev pub eq_step_status : StepStatus → StepStatus → Bool
eq_step_status pending pending = true
eq_step_status done done = true
eq_step_status StepStatus.failed StepStatus.failed = true
eq_step_status _ _ = false

-- `strings.HasPrefix(s, prefix)`, the prefix first.
unfoldable pub has_prefix : String → String → Bool
has_prefix String.[] s = true
has_prefix (String.◌∷◌ c p) String.[] = false
has_prefix (String.◌∷◌ c p) (String.◌∷◌ d s) = code c == code d && has_prefix p s

unfoldable pub reverse_action : String → Option String
reverse_action action =
    if str_eq action "DEBIT"
    then some "COMPENSATE_DEBIT"
    else if str_eq action "CREDIT"
    then some "COMPENSATE_CREDIT"
    else none

unfoldable pub is_compensation : StepRow → Bool
unfolding has_prefix
is_compensation st = has_prefix "COMPENSATE_" st.action
