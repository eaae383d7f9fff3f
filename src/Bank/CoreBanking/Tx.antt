-- ===== src/Bank/CoreBanking/Tx.antt =====
-- The tables of the core ledger, templates/bank/db/migrations/core_db.sql, and the transactions on
-- them, templates/bank/internal/platform/pg/tx.go: an error drops the state. The flows stand in the
-- order of their insertion; connections do not fail.
use jiade.Prelude.{ℕ, ◌+◌, String, Bool, Option, none, some, List, ltb, if◌then◌else◌}
use jiade.Prelude.Int.{ℤ, pos, negsuc}
use jiade.Bank.CoreBanking.Types.{
  Error, rejected, Result, ok, err, DemandAccount, Txn, Balance, GlBalance, Hold,
}

-- The payloads of `buildTransferPostedPayload` and `buildTransferReversedPayload`.
pub data Payload : Type 0 where
  transfer_posted :
      (voucher_no hold_id from_account to_account : String) (amount_cents : ℤ) (currency : String)
      → Payload
  transfer_reversed : (reversal_voucher_no original_voucher_no : String) → Payload

pub record OutboxMessage : Type 0 where
  pub message_id : String
  pub message_type : String
  pub routing_key : String
  pub workflow_id : String
  pub action_name : String
  pub command_id : String
  pub idempotency_key : String
  pub correlation_id : String
  pub causation_id : String
  pub occurred_at : ℕ
  pub payload : Payload

pub record HeldTransfer : Type 0 where
  pub idempotency_key : String
  pub voucher_no : String
  pub hold_id : String

pub record VoucherReversal : Type 0 where
  pub reverses_voucher_no : String
  pub reversal_voucher_no : String

-- `biz_date` is the parameter of that name, `none` where it is missing or empty.
pub record Store : Type 0 where
  pub biz_date : Option ℕ
  pub accounts : List DemandAccount
  pub balances : List Balance
  pub txns : List Txn
  pub gl : List GlBalance
  pub holds : List Hold
  pub held_transfers : List HeldTransfer
  pub reversals : List VoucherReversal
  pub outbox : List OutboxMessage

-- What one call draws at random and reads from the clock: `NewVoucherNo`, `NewHoldID`, the ids of
-- the flows in their order, the message's id and its time.
pub record Draws : Type 0 where
  pub voucher_no : String
  pub hold_id : String
  pub txn_id : ℕ → String
  pub message_id : String
  pub now : ℕ

abbrev pub M : Type 0 → Type 0
M A = Store → Result (A × Store)

module _ {A B : Type 0} where
  abbrev pub continue : (A → M B) → Result (A × Store) → Result (B × Store)
  continue f (ok (a, s)) = f a s
  continue f (err e) = err e

infixl 5 ◌>>=◌ ◌>>◌
unfoldable pub ◌>>=◌ : {A B : Type 0} → M A → (A → M B) → M B
◌>>=◌ m f s = continue f (m s)

abbrev pub ◌>>◌ : {A B : Type 0} → M A → M B → M B
m >> k = m >>= λ _. k

module _ {A : Type 0} where
  unfoldable pub pure : A → M A
  pure a s = ok (a, s)

  unfoldable pub raise : Error → M A
  raise e s = err e

  -- A pure call that may fail.
  unfoldable pub lift : Result A → M A
  lift (ok a) s = ok (a, s)
  lift (err e) s = err e

unfoldable pub require : Bool → Error → M (Unit {0})
require test e s = if test then ok (tt, s) else err e

-- `if test { if err := step; err != nil { return err } }`
unfoldable pub when : Bool → M (Unit {0}) → M (Unit {0})
when test step s = if test then step s else ok (tt, s)

-- A NUMERIC(18,2) column holds less than 10^16, here in cents.
unfoldable pub fits_numeric : ℤ → Bool
fits_numeric (pos n) = ltb n 1000000000000000000
fits_numeric (negsuc n) = ltb (n + 1) 1000000000000000000

abbrev pub overflow : Error
overflow = rejected "numeric field overflow"

abbrev pub duplicate : Error
duplicate = rejected "duplicate key"

unfoldable pub get_biz_date : M ℕ
get_biz_date s = elim s.biz_date [
  | none ↦ err (rejected "biz_date is not set")
  | some d ↦ ok (d, s)
]
