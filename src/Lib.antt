-- ===== src/Lib.antt =====
-- The verification library of Jiade, a generator of banking and shop applications in Go.
--
-- The templates that Jiade copies hold the programs. Parts of three of them are
-- modelled: of the bank, of the shop and of the distributed bank.
--
-- The workflow engine of the bank (templates/bank/internal/platform/workflow) runs a workflow as a
-- saga: it sends the command of one action after the other, and when an action is rejected it
-- undoes those that succeeded, from the last one down. It keeps each instance in a store and works
-- on it in one transaction per message, with an inbox against duplicates and an outbox for
-- commands. A recovery loop and operators act on the same store. Its model is below Bank/Workflow:
--   Types      types.go and the envelope of platform/messaging/envelope.go: the records, with a
--              definition and its actions as records of functions, which stand for the code that a
--              workflow's author writes, so the theorems hold for every such code.
--   Registry   registry.go: Registry.Register and Registry.Get.
--   Tx         the interface Tx of store.go as pgTx of postgres.go fills it: a transaction is a
--              state (the locked instance, the inbox, the outbox) and its steps are a monad of
--              results; an error keeps its kind and loses the text around it.
--   Engine     engine.go: NewEngine, persistActionDispatch, persistCompensationDispatch,
--              lastSucceededBefore, and beginCompensation, whose tail the two other places that walk
--              on share with it.
--   Results    engine.go: ApplyResult, applyForwardResult, applyCompensationResult.
--   Resume     engine.go: Prepare, rejectInstance, dispatchFirstAction, Redispatch.
--   Admin      admin_ops.go: RetryCompensationTx, ResolveCompensationTx.
--   Store      postgres.go: Create, WithInstance, ClaimRunnable, RenewLease, ReleaseLease, TimedOut,
--              NonTerminalDefinitions over a list of rows; a transaction that fails is dropped.
--   Operations the calls of the engine on the store, each a transaction or two.
--   Recovery   recovery.go: AuditDefinitions and one sweep, runOnce.
-- The other files of the folder hold proofs: Ensures has a rule for each way to build a step of a
-- transaction, Ladder the shapes that the records of an instance go through, Invariant what holds of
-- an instance between transactions, Soundness, Undoing, Transactions, Operators and Repairs that
-- each transaction keeps it, Rows and Reach that every call on the store does, Once, Outcomes,
-- Progress and Lookup what follows from it, Sweeps and Freed what the recovery loop does. Runs and Tests hold runs of the code.
--
-- The core banking of the bank (templates/bank/internal/corebanking) books deposits, withdrawals and
-- transfers in pairs of entries, holds money for a transfer that a payment workflow settles later,
-- and takes bookings back. Its model is below Bank/CoreBanking:
--   Types      the records of domain: accounts, transactions, holds, bookings, balances, and of
--              posting.go and db/migrations/core_db.sql: the entries and the rows of the tables.
--   Cents      domain/money.go: ParseCents and Money.String on texts as lists of code points.
--   Posting    posting.go, ledger_service.go and txn_service.go: BuildEntries, ValidateBalance,
--              Summarize, reverseEntries, reverseRollback.
--   Tx         the transaction of a service: a state and a failure, which drops the transaction.
--   Store      the rules of one row: domain/account.go and domain/hold.go, and the inheriting of a
--              balance by EnsureBalanceRow and LockLatestBalance of repo.
--   Tables     the statements of repo/ledger_repo.go and repo/hold_repo.go over lists of rows, with
--              the keys of db/migrations/core_db.sql and the range of NUMERIC(18,2).
--   Services   LedgerService.Post, HoldService.PlaceHold and ReleaseHold, TxnService.Record and
--              TxnService.Reverse.
--   Held       held_transfer.go: PostHeldTransfer and ReverseTransfer.
-- The business date is a row of the store; what a call draws at random or reads from the clock is an
-- argument (`Draws`).
-- Of the other files, Moves, Respected, Served and Calls have the rules that lead from each
-- statement to each service, Frame, Kept and Once what a key protects, Sides, Shares, Trial, Posted
-- and Balanced the balance of the ledger, Rounds and Deltas the sums of entries, Reserves, Covered
-- and Ended the holds, Words, Digits and Amounts the texts of amounts. Runs and Tests hold runs.
--
-- The inventory of the shop (templates/commerce/internal/inventory/model.go) keeps a level of stock
-- per article and place, and reservations against it. Commerce/Inventory/Model is that file, with
-- int64 arithmetic that wraps around; Levels states what each operation does, and Ledger what the
-- counters mean over any sequence of operations.
--
-- The transactions around it are those of store.go and service.go in the same folder. Below
-- Commerce/Inventory/Store, Rows has the tables of db/migrations/inventory_db.sql and the statements,
-- Reserve and Transition the two transactions of PostgresStore; Commerce/Inventory/Service is
-- Service.Reserve and Service.TransitionOrder, a call at a time, since the locks make a transaction
-- one step. The names that the code takes from sha256 and fmt (`Names`) and its use of strings
-- (`Texts`) are parameters, and nothing is assumed of them. In Store, Facts has the laws of the
-- statements; Sound, Places, Filled, Visits, Lines and Anew follow Reserve; Moved, Pending, Effects,
-- Agreed, Rounds and Kept follow TransitionOrder. In Service, Quantities has the sums of the lines,
-- Served what a Reserve gives, History and Ended what holds over any sequence of calls, Runs and
-- Tests runs.
--
-- The order of the shop (templates/commerce/internal/order): Commerce/Order/State is state.go, and
-- Commerce/Order/Money is CalculateTotals of money.go with its checked arithmetic on int64, and
-- Commerce/Order/Discount is AllocatePercentageDiscount of that file. Lifecycle has what a sequence
-- of events can do to an order; Checked, Lines and Totals say that the totals are those of exact
-- arithmetic, and which orders get them; Discount/Spread, Shares and Sums follow the last loop, the
-- first loop and the whole of the allocation.
--
-- Commerce/Payment is the life of a payment (templates/commerce/internal/payment/state.go),
-- Commerce/Breaker the circuit breaker of the shop's clients (templates/commerce/internal/platform/
-- client/breaker.go), and Dcn/Segments the choice of a segment for a new account of the distributed
-- bank (templates/bank_dcn/internal/gns/segment.go), each with its theorem and, below it, its runs.
--
-- The coordinator of the distributed bank (templates/bank_dcn/internal/rmb/coordinator.go) sends the
-- steps of a transaction to their units, collects receipts, and compensates the steps that were done
-- when one fails or is late. Its model is below Dcn/Rmb, for the rows of one transaction:
--   Types        the rows and messages, also of contracts/messages.go, with payloads decoded.
--   Steps        what advance reads of the steps, and the statements that write them.
--   Coordinator  register, publishPending, handleReceipt, advance, retryCompensate,
--                reopenCompensation, expire, recover.
-- Safety takes the statements of the handlers in any order (`Statement`), so it covers handlers that
-- run at once; Settled takes whole handlers one after another (`Happening`). Counts, Changes,
-- Outcome, Keeping and Settling lead there. Tests has runs, also of orders in which a
-- compensation is lost.
--
-- Prelude holds what the parts share: tests on numbers, lists, integers and int64.
--
-- The engine's clock and generator of ids are functions of the number of readings so far, and nothing is
-- assumed of them. Only the digits of a number run on fuel, which is 20: an int64 has at most 19, and
-- a text that is read back has lost none. Each other loop of the modelled code runs over a list or
-- down from an index. The order in which Go walks a map is taken to be that of its first insertions.
-- Times are numbers, and 0 is the zero time; the database fails no statement; the
-- text of an error, metrics and tracing are left out. Not modelled: the rest of the bank and of the
-- shop, such as the consumers, the servers and the payment workflows, the rest of the distributed
-- bank, such as its units and batches, and Jiade's own command line (internal, cmd).
pub mod Prelude
pub mod Commerce
pub mod Bank
pub mod Dcn
