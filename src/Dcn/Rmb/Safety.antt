-- ===== src/Dcn/Rmb/Safety.antt =====
-- What holds of a transaction whatever the order in which the statements of the handlers of
-- templates/bank_dcn/internal/rmb/coordinator.go run: receipts, the loop of timeouts and restarts
-- work on the same rows at the same time, and only `advance` and the first part of `expire` lock them.
use jiade.Prelude.{
  ℕ, suc, ◌+◌, ◌≤◌, ◌≡◌, refl, String, Bool, true, false, ◌&&◌, none, List, [], ◌∷◌, length,
  if◌then◌else◌, All, arith,
}
use jiade.Dcn.Rmb.Types.{
  Receipt, TxStatus, committed, compensated, StepStatus, pending, done, StepRow, TxRequestStep,
  TxRequest, Tx, eq_tx_status, eq_step_status, has_prefix, is_compensation,
}
use jiade.Dcn.Rmb.Steps.{comp_steps}
use jiade.Dcn.Rmb.Coordinator.{
  publish_pending, advance, mark_step, reopen_compensation, after_reads, expire_steps, request_rows,
  registered, register, recover,
}
use jiade.Dcn.Rmb.Counts.{originals, asked, Numbered}
use jiade.Dcn.Rmb.Keeping.{
  IsSafe, mark_step-IsSafe, publish_pending-IsSafe, expire_steps-IsSafe, reopen-IsSafe,
  recover-IsSafe, advance-IsSafe,
}

-- A statement, or a locked transaction, of some handler.
pub data Statement : Type 0 where
  mark : (step_no : ℕ) (done : Bool) → Statement
  mark_late : (step_no : ℕ) → Statement
  reopen go_on expire_now publish restart : Statement

unfoldable pub execute : Statement → Tx → Tx
execute (mark n d) tx = mark_step n pending (if d then done else StepStatus.failed) tx
execute (mark_late n) tx = mark_step n StepStatus.failed done tx
execute reopen tx = reopen_compensation tx
execute go_on tx = advance tx
execute expire_now tx = expire_steps tx
execute publish tx = publish_pending tx
execute restart tx = recover tx

unfoldable pub execute_all : List Statement → Tx → Tx
execute_all [] tx = tx
execute_all (s ∷ rest) tx = execute_all rest (execute s tx)

-- The handlers are such statements, one after the other, with what they read.
abbrev pub statements_of : Receipt → StepStatus → TxStatus → List Statement
statements_of rc was tx_was =
    if rc.done && eq_step_status was StepStatus.failed
    then if eq_tx_status tx_was compensated
      then mark_late rc.step_no ∷ reopen ∷ go_on ∷ []
      else mark_late rc.step_no ∷ go_on ∷ []
    else mark rc.step_no rc.done ∷ go_on ∷ []

pub after_reads-statements :
    (rc : Receipt) (was : StepStatus) (tx_was : TxStatus) (tx : Tx)
    → after_reads rc was tx_was tx ≡ execute_all (statements_of rc was tx_was) tx
unfolding after_reads execute_all execute
after_reads-statements rc was tx_was tx = ground arith

execute-IsSafe : (n : ℕ) (s : Statement) (tx : Tx) → IsSafe n tx → IsSafe n (execute s tx)
unfolding execute
execute-IsSafe n (mark m true) tx h = mark_step-IsSafe n m pending done tx refl refl h
execute-IsSafe n (mark m false) tx h = mark_step-IsSafe n m pending StepStatus.failed tx refl refl h
execute-IsSafe n (mark_late m) tx h = mark_step-IsSafe n m StepStatus.failed done tx refl refl h
execute-IsSafe n reopen tx h = reopen-IsSafe n tx h
execute-IsSafe n go_on tx h = advance-IsSafe n tx h
execute-IsSafe n expire_now tx h = expire_steps-IsSafe n tx h
execute-IsSafe n publish tx h = publish_pending-IsSafe n tx h
execute-IsSafe n restart tx h = recover-IsSafe n tx h

execute_all-IsSafe :
    (n : ℕ) (ss : List Statement) (tx : Tx) → IsSafe n tx → IsSafe n (execute_all ss tx)
unfolding execute_all
execute_all-IsSafe n [] tx h = h
execute_all-IsSafe n (s ∷ ss) tx h =
    execute_all-IsSafe n ss (execute s tx) (execute-IsSafe n s tx h)

-- A request that names no compensation itself.
abbrev pub AsksForward : TxRequest → Type 0
AsksForward req = All (λ s. has_prefix "COMPENSATE_" s.action ≡ false) req.steps

pub record IsRequested (i : ℕ) (n : ℕ) (rows : List StepRow) : Type 0 where
  pub numbers : Numbered (suc i) rows
  pub all_pending : originals pending rows ≡ n
  pub none_done : originals done rows ≡ 0
  pub none_failed : originals StepStatus.failed rows ≡ 0
  pub no_comps : length (comp_steps rows) ≡ 0

pub request_rows-IsRequested :
    (tx_id : String) (i : ℕ) (steps : List TxRequestStep)
    → All (λ s. has_prefix "COMPENSATE_" s.action ≡ false) steps
    → IsRequested i (length steps) (request_rows tx_id i steps)
unfolding request_rows originals comp_steps is_compensation
request_rows-IsRequested tx_id i [] h = record {
  numbers = tt;
  all_pending = refl;
  none_done = refl;
  none_failed = refl;
  no_comps = refl;
}
request_rows-IsRequested tx_id i (st ∷ rest) h =
    let ih = request_rows-IsRequested tx_id (i + 1) rest (h.1) in
    let next : suc (i + 1) ≡ suc (suc i) = omega arith in
    record {
      numbers = (omega arith, rw next at ih.numbers);
      all_pending = rw (h.0) (omega (arith, ih.all_pending));
      none_done = rw (h.0) (omega (arith, ih.none_done));
      none_failed = rw (h.0) (omega (arith, ih.none_failed));
      no_comps = rw (h.0) (ih.no_comps);
    }

registered-IsSafe :
    (tx_id : String) (req : TxRequest)
    → AsksForward req
    → IsSafe (length req.steps) (registered tx_id req)
registered-IsSafe tx_id req h =
    let r = request_rows-IsRequested tx_id 0 req.steps h in
    record {
      numbers = r.numbers;
      all_asked = omega (arith, r.all_pending, r.none_done, r.none_failed);
      covered = omega (arith, r.no_comps);
      when_committed = λ q. absurd (ground arith);
    }

pub register-IsSafe :
    (hex : String) (req : TxRequest)
    → AsksForward req
    → IsSafe (length req.steps) (register hex req none)
unfolding register
register-IsSafe hex req h = publish_pending-IsSafe (length req.steps) _ (registered-IsSafe _ req h)

-- In whatever order the statements of receipts, timeouts and restarts run on a registered
-- transaction whose request names no compensation, it is committed only when each of its steps was
-- done and none was taken back.
pub committed_means :
    (hex : String) (req : TxRequest) (ss : List Statement)
    → AsksForward req
    → (execute_all ss (register hex req none)).status ≡ committed
    → (originals done (execute_all ss (register hex req none)).steps ≡ length req.steps)
      × (length (comp_steps (execute_all ss (register hex req none)).steps) ≡ 0)
committed_means hex req ss h e =
    (execute_all-IsSafe (length req.steps) ss (register hex req none)
        (register-IsSafe hex req h)).when_committed
      e

-- In whatever order they run, no more compensations are created than there are steps that were done,
-- and no step that the request asked for is lost or added.
pub compensations-covered :
    (hex : String) (req : TxRequest) (ss : List Statement)
    → AsksForward req
    → (length (comp_steps (execute_all ss (register hex req none)).steps)
        ≤ originals done (execute_all ss (register hex req none)).steps)
      × (asked (execute_all ss (register hex req none)).steps ≡ length req.steps)
compensations-covered hex req ss h =
    let safe =
      execute_all-IsSafe (length req.steps) ss (register hex req none)
        (register-IsSafe hex req h) in
    (safe.covered, safe.all_asked)
