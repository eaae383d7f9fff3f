-- ===== src/Bank/CoreBanking/Types.antt =====
-- The types of templates/bank/internal/corebanking/domain and of the commands of its services, and
-- the state machines of an account and of a hold.
use jiade.Prelude.{ℕ, String, Bool, true, false, Option, none, some, List, str_eq}
use jiade.Prelude.Int.{ℤ}

-- What the services and the statements of their stores refuse with. `rejected` is an error that
-- has a text only.
pub data Error : Type 0 where
  account_not_found account_not_active insufficient_balance ccy_mismatch : Error
  voucher_not_found already_reversed unbalanced : Error
  hold_not_found insufficient_available_balance non_positive_hold_amount : Error
  hold_captured hold_released invalid_hold_transition : Error
  hold_not_active hold_amount_mismatch hold_ccy_mismatch hold_account_mismatch : Error
  original_voucher_not_found voucher_already_reversed : Error
  rejected : String → Error

pub data Result (A : Type 0) : Type 0 where
  ok : A → Result A
  err : Error → Result A

pub data AccountStatus : Type 0 where
  active closed frozen : AccountStatus
  other : String → AccountStatus

pub data HoldStatus : Type 0 where
  active released captured : HoldStatus
  other : String → HoldStatus

pub data TxnStatus : Type 0 where
  normal reversed : TxnStatus
  other : String → TxnStatus

pub data DcFlag : Type 0 where
  debit credit : DcFlag
  other : String → DcFlag

pub data Action : Type 0 where
  deposit withdraw transfer : Action
  other : String → Action

pub data ReverseMode : Type 0 where
  blue red : ReverseMode
  other : String → ReverseMode

-- A date is the number of its day, a point in time a number, and 0 the zero time.
pub record DemandAccount : Type 0 where
  pub account_no : String
  pub cust_id : String
  pub ccy : String
  pub status : AccountStatus
  pub open_biz_date : ℕ
  pub branch_code : String
  pub product_code : String
  pub subject_code : String

-- An amount is a `Money`, an int64 of cents.
pub record Entry : Type 0 where
  pub account_no : String
  pub dc_flag : DcFlag
  pub amount : ℤ
  pub subject_code : String

-- The time of a flow is left out: the rows of a table stand in the order of their insertion.
pub record Txn : Type 0 where
  pub txn_id : String
  pub biz_date : ℕ
  pub account_no : String
  pub dc_flag : DcFlag
  pub amount : ℤ
  pub ccy : String
  pub subject_code : String
  pub opp_account : String
  pub ref_txn_id : String
  pub channel : String
  pub summary : String
  pub voucher_no : String
  pub txn_status : TxnStatus

pub record Balance : Type 0 where
  pub account_no : String
  pub biz_date : ℕ
  pub balance : ℤ
  pub available_balance : ℤ
  pub frozen_amount : ℤ
  pub subject_code : String

pub record BalanceDelta : Type 0 where
  pub account_no : String
  pub delta : ℤ
  pub subject_code : String

pub record GlBalance : Type 0 where
  pub subject_code : String
  pub biz_date : ℕ
  pub dc_balance : ℤ
  pub cc_balance : ℤ
  pub ccy : String

pub record Booking : Type 0 where
  pub voucher_no : String
  pub biz_date : ℕ
  pub txns : List Txn

pub record Hold : Type 0 where
  pub hold_id : String
  pub idempotency_key : String
  pub account_no : String
  pub amount : ℤ
  pub ccy : String
  pub workflow_id : String
  pub status : HoldStatus
  pub expires_at : ℕ

pub record PlaceHoldInput : Type 0 where
  pub idempotency_key : String
  pub account_no : String
  pub amount : ℤ
  pub ccy : String
  pub workflow_id : String
  pub expires_at : ℕ

pub record RecordInput : Type 0 where
  pub action : Action
  pub account_no : String
  pub from_account : String
  pub to_account : String
  pub amount : ℤ
  pub ccy : String
  pub summary : String

pub record SagaRouting : Type 0 where
  pub workflow_id : String
  pub action_name : String
  pub command_id : String
  pub correlation_id : String
  pub command_message_id : String

pub record PostHeldTransfer : Type 0 where
  pub idempotency_key : String
  pub hold_id : String
  pub from_account : String
  pub to_account : String
  pub amount : ℤ
  pub ccy : String
  pub summary : String
  pub saga_routing : SagaRouting

pub record ReverseTransfer : Type 0 where
  pub idempotency_key : String
  pub original_voucher_no : String
  pub summary : String
  pub saga_routing : SagaRouting

-- `==` on the strings that stand behind the constants.
abbrev pub is_open : AccountStatus → Bool
is_open active = true
is_open _ = false

abbrev pub is_active : HoldStatus → Bool
is_active active = true
is_active _ = false

abbrev pub eq_hold_status : HoldStatus → HoldStatus → Bool
eq_hold_status active active = true
eq_hold_status released released = true
eq_hold_status captured captured = true
eq_hold_status (HoldStatus.other s) (HoldStatus.other t) = str_eq s t
eq_hold_status _ _ = false

abbrev pub is_reversed : TxnStatus → Bool
is_reversed reversed = true
is_reversed _ = false

abbrev pub is_normal : TxnStatus → Bool
is_normal normal = true
is_normal _ = false

abbrev pub is_credit : DcFlag → Bool
is_credit credit = true
is_credit _ = false

abbrev pub is_transfer : Action → Bool
is_transfer transfer = true
is_transfer _ = false

abbrev pub is_withdraw : Action → Bool
is_withdraw withdraw = true
is_withdraw _ = false

-- `Close`, `Freeze` and `Unfreeze` of an account.
unfoldable pub close : AccountStatus → AccountStatus × Option Error
close active = (closed, none)
close from = (from, some (rejected "not active"))

unfoldable pub freeze : AccountStatus → AccountStatus × Option Error
freeze active = (frozen, none)
freeze from = (from, some (rejected "not active"))

unfoldable pub unfreeze : AccountStatus → AccountStatus × Option Error
unfreeze frozen = (AccountStatus.active, none)
unfreeze from = (from, some (rejected "not frozen"))

-- The methods `Release` and `Capture` of a hold.
unfoldable pub release : HoldStatus → HoldStatus × Option Error
release active = (released, none)
release released = (released, none)
release captured = (captured, some hold_captured)
release (HoldStatus.other s) = (HoldStatus.other s, some invalid_hold_transition)

unfoldable pub capture : HoldStatus → HoldStatus × Option Error
capture active = (captured, none)
capture captured = (captured, none)
capture released = (released, some hold_released)
capture (HoldStatus.other s) = (HoldStatus.other s, some invalid_hold_transition)
