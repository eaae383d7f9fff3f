-- ===== src/Dcn/Rmb/Settled.antt =====
-- What a transaction of at most two steps comes to when the handlers of
-- templates/bank_dcn/internal/rmb/coordinator.go run one after the other.
use Prim.Native.String.{◌++◌ as append_text}
use jiade.Prelude.{
  ℕ, ◌≤◌, ◌≡◌, refl, String, true, false, not, ◌&&◌, ◌==◌, ltb, none, List, [], ◌∷◌, length,
  if◌then◌else◌, Bool-cases, Option-cases, inl, inr, arith, str_eq,
}
use jiade.Dcn.Rmb.Types.{
  Receipt, processing, compensated, StepStatus, pending, done, TxRequest, Tx, eq_tx_status,
  eq_step_status,
}
use jiade.Dcn.Rmb.Steps.{comp_steps, all_done, step_status}
use jiade.Dcn.Rmb.Coordinator.{
  publish_pending, mark_step, reopen_compensation, after_reads, handle_receipt, expire_steps,
  expire, register, recover,
}
use jiade.Dcn.Rmb.Counts.{originals}
use jiade.Dcn.Rmb.Keeping.{IsSafe, expire_steps-IsSafe}
use jiade.Dcn.Rmb.Safety.{AsksForward, request_rows-IsRequested, register-IsSafe}
use jiade.Dcn.Rmb.Changes.{fail_pending-counts}
use jiade.Dcn.Rmb.Settling.{
  IsSettled, advance-IsSettled, publish_pending-IsSettled, mark_step-IsSettled,
  mark_pending-IsSettled,
}

-- A receipt is handled, the time of the transaction is over, or the coordinator starts anew.
pub data Happening : Type 0 where
  receipt : Receipt → Happening
  timeout restarted : Happening

unfoldable pub handle : Happening → Tx → Tx
handle (receipt rc) tx = handle_receipt rc tx
handle timeout tx = expire tx
handle restarted tx = recover tx

unfoldable pub handle_all : List Happening → Tx → Tx
handle_all [] tx = tx
handle_all (e ∷ rest) tx = handle_all rest (handle e tx)

late-IsSettled :
    (n m : ℕ) (tx : Tx)
    → IsSettled n tx
    → IsSettled n (
        if eq_tx_status tx.status compensated
        then reopen_compensation (mark_step m StepStatus.failed done tx)
        else mark_step m StepStatus.failed done tx)
unfolding reopen_compensation mark_step
late-IsSettled n m tx h = elim (Bool-cases (eq_tx_status tx.status compensated)) [
  | inl c ↦
      rw c
        (mark_step-IsSettled n m StepStatus.failed done tx processing refl refl refl (inl refl) h)
  | inr c ↦
      rw c (mark_step-IsSettled n m StepStatus.failed done tx tx.status refl refl c (inr refl) h)
]

after_reads-IsSettled :
    (n : ℕ) (rc : Receipt) (was : StepStatus) (tx : Tx)
    → n ≤ 2
    → IsSettled n tx
    → IsSettled n (after_reads rc was tx.status tx)
unfolding after_reads
after_reads-IsSettled n rc was tx two h =
    elim (Bool-cases (rc.done && eq_step_status was StepStatus.failed)) [
      | inl late ↦ rw late (advance-IsSettled n _ two (late-IsSettled n rc.step_no tx h))
      | inr usual ↦
          let to : StepStatus = if rc.done then done else StepStatus.failed in
          let fresh : eq_step_status to pending ≡ false = ground arith in
          rw usual (advance-IsSettled n _ two (mark_pending-IsSettled n rc.step_no to tx fresh h))
    ]

handle_receipt-IsSettled :
    (n : ℕ) (rc : Receipt) (tx : Tx) → n ≤ 2 → IsSettled n tx → IsSettled n (handle_receipt rc tx)
unfolding handle_receipt
handle_receipt-IsSettled n rc tx two h = elim (Option-cases (step_status rc.step_no tx.steps)) [
  | inl e ↦ rw (handle_receipt, e) h
  | inr (was, e) ↦ rw (handle_receipt, e) (after_reads-IsSettled n rc was tx two h)
]

expire_steps-IsSettled : (n : ℕ) (tx : Tx) → IsSettled n tx → IsSettled n (expire_steps tx)
unfolding expire_steps
expire_steps-IsSettled n tx h =
    let kept = fail_pending-counts 1 tx.steps h.safe.numbers in
    elim (Bool-cases (eq_tx_status tx.status processing && length (comp_steps tx.steps) == 0)) [
      | inr e ↦ rw e h
      | inl e ↦
          let safe = expire_steps-IsSafe n tx h.safe in
          rw e (record {
            safe = rw (expire_steps, e) at safe;
            quiet = λ q. kept.2;
            when_compensated = λ q. absurd (ground arith);
          })
    ]

expire-IsSettled : (n : ℕ) (tx : Tx) → n ≤ 2 → IsSettled n tx → IsSettled n (expire tx)
unfolding expire
expire-IsSettled n tx two h = elim (Bool-cases (not (eq_tx_status tx.status processing))) [
  | inl e ↦ rw e h
  | inr e ↦ elim (Bool-cases (ltb 0 (length (comp_steps tx.steps)))) [
    | inl c ↦ rw (e, c) (publish_pending-IsSettled n tx h)
    | inr c ↦ rw (e, c) (advance-IsSettled n (expire_steps tx) two (expire_steps-IsSettled n tx h))
  ]
]

recover-IsSettled : (n : ℕ) (tx : Tx) → IsSettled n tx → IsSettled n (recover tx)
unfolding recover
recover-IsSettled n tx h =
    let anew : Tx = record tx { attempts = λ m. 0 } in
    let safe : IsSafe n anew = record {
      numbers = h.safe.numbers;
      all_asked = h.safe.all_asked;
      covered = h.safe.covered;
      when_committed = h.safe.when_committed;
    } in
    let settled : IsSettled n anew = record {
      safe = safe;
      quiet = h.quiet;
      when_compensated = h.when_compensated;
    } in
    elim (Bool-cases (eq_tx_status tx.status processing)) [
      | inr e ↦ rw e settled
      | inl e ↦ rw e (publish_pending-IsSettled n anew settled)
    ]

handle-IsSettled :
    (n : ℕ) (e : Happening) (tx : Tx) → n ≤ 2 → IsSettled n tx → IsSettled n (handle e tx)
unfolding handle
handle-IsSettled n (receipt rc) tx two h = handle_receipt-IsSettled n rc tx two h
handle-IsSettled n timeout tx two h = expire-IsSettled n tx two h
handle-IsSettled n restarted tx two h = recover-IsSettled n tx h

handle_all-IsSettled :
    (n : ℕ) (es : List Happening) (tx : Tx)
    → n ≤ 2
    → IsSettled n tx
    → IsSettled n (handle_all es tx)
unfolding handle_all
handle_all-IsSettled n [] tx two h = h
handle_all-IsSettled n (e ∷ es) tx two h =
    handle_all-IsSettled n es (handle e tx) two (handle-IsSettled n e tx two h)

register-IsSettled :
    (hex : String) (req : TxRequest)
    → AsksForward req
    → IsSettled (length req.steps) (register hex req none)
unfolding register publish_pending
register-IsSettled hex req h =
    let id : String = if str_eq req.tx_id "" then append_text "tx-" hex else req.tx_id in
    let r = request_rows-IsRequested id 0 req.steps h in
    record {
      safe = register-IsSafe hex req h;
      quiet = λ q. absurd (omega (arith, r.no_comps));
      when_compensated = λ q. absurd (ground arith);
    }

-- When the handlers run one after the other, a transaction of at most two steps, whose request
-- names no compensation, is compensated only when none of its steps is pending, there are as many
-- compensations as steps that were done, and each of the compensations was done.
pub compensated_undone :
    (hex : String) (req : TxRequest) (es : List Happening)
    → AsksForward req
    → length req.steps ≤ 2
    → (handle_all es (register hex req none)).status ≡ compensated
    → (originals pending (handle_all es (register hex req none)).steps ≡ 0)
      × (length (comp_steps (handle_all es (register hex req none)).steps)
          ≡ originals done (handle_all es (register hex req none)).steps)
      × (all_done (comp_steps (handle_all es (register hex req none)).steps) ≡ true)
compensated_undone hex req es h two e =
    let settled =
      handle_all-IsSettled (length req.steps) es (register hex req none) two
        (register-IsSettled hex req h) in
    let facts = settled.when_compensated e in
    (facts.0, omega (arith, facts.1, settled.safe.covered), facts.2)
