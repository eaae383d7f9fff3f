-- ===== src/Dcn/Rmb/Keeping.antt =====
-- What each statement of the handlers of
-- templates/bank_dcn/internal/rmb/coordinator.go keeps of a transaction.
use jiade.Prelude.{
  ℕ, suc, ◌+◌, ◌≤◌, ◌<◌, ◌≡◌, refl, ◌∙◌, true, false, ◌&&◌, ◌==◌, leb, some, List, [], ◌∷◌, length,
  Bool-cases, inl, inr, arith,
}
use jiade.Dcn.Rmb.Types.{
  TxStatus, processing, committed, compensated, StepStatus, pending, done, StepRow, Tx,
  eq_tx_status, eq_step_status,
}
use jiade.Dcn.Rmb.Steps.{done_originals, comp_steps, max_no, first_failed, all_done, compensations}
use jiade.Dcn.Rmb.Coordinator.{
  publish_pending, transition, retry_compensate, retry_or_fail, missing, last_first,
  create_compensations, advance, mark_step, reopen_compensation, expire_steps, recover,
}
use jiade.Dcn.Rmb.Counts.{
  originals, asked, originals-append, comp_steps-append, Numbered, Numbered-append, max_no-Numbered,
}
use jiade.Dcn.Rmb.Outcome.{
  Advanced, waits, creates, retries, compensates, commits, missing_lem, advance-Advanced,
}
use jiade.Dcn.Rmb.Changes.{
  update_step-counts, fail_pending-counts, IsReset, IsReset-step-counts, compensations-IsCreated,
}

pub record IsSafe (n : ℕ) (tx : Tx) : Type 0 where
  pub numbers : Numbered 1 tx.steps
  pub all_asked : asked tx.steps ≡ n
  pub covered : length (comp_steps tx.steps) ≤ originals done tx.steps
  pub when_committed :
      tx.status ≡ committed → (originals done tx.steps ≡ n) × (length (comp_steps tx.steps) ≡ 0)

pub mark_step-IsSafe :
    (n m : ℕ) (from to : StepStatus) (tx : Tx)
    → eq_step_status from done ≡ false
    → eq_step_status to pending ≡ false
    → IsSafe n tx
    → IsSafe n (mark_step m from to tx)
unfolding mark_step
mark_step-IsSafe n m from to tx f t h =
    let kept = update_step-counts m 1 from to tx.steps h.numbers f t in
    record {
      numbers = kept.0.numbers;
      all_asked = kept.0.same_asked ∙ h.all_asked;
      covered = omega (arith, kept.0.same_comps, kept.1, h.covered);
      when_committed = λ e.
          let was = h.when_committed e in
          (omega (arith, kept.0.same_asked, kept.1, h.all_asked, was.0), kept.0.same_comps ∙ was.1);
    }

pub publish_pending-IsSafe : (n : ℕ) (tx : Tx) → IsSafe n tx → IsSafe n (publish_pending tx)
unfolding publish_pending
publish_pending-IsSafe n tx h = record {
  numbers = h.numbers;
  all_asked = h.all_asked;
  covered = h.covered;
  when_committed = h.when_committed;
}

-- What the new rows leave of the counts.
pub create-counts :
    (n : ℕ) (tx : Tx)
    → IsSafe n tx
    → ((s : StepStatus) → originals s (create_compensations tx).steps ≡ originals s tx.steps)
      × (length (comp_steps (create_compensations tx).steps)
          ≤ length (comp_steps tx.steps) + missing tx.steps)
      × (length (comp_steps tx.steps) ≤ length (comp_steps (create_compensations tx).steps))
      × Numbered 1 (create_compensations tx).steps
unfolding create_compensations
create-counts n tx h =
    let m = missing tx.steps in
    let sts = last_first (done_originals tx.steps) in
    let top = max_no-Numbered 0 tx.steps h.numbers in
    let made = compensations-IsCreated sts (max_no 0 tx.steps) m in
    let rows = compensations sts (max_no 0 tx.steps) m in
    let from : suc (max_no 0 tx.steps) ≡ 1 + length tx.steps = omega (arith, top) in
    let sum = comp_steps-append tx.steps rows in
    (
      λ s. originals-append s tx.steps rows ∙ omega (arith, made.none_asked s),
      omega (arith, sum, made.all_comps, made.bounded),
      omega (arith, sum),
      Numbered-append 1 tx.steps rows h.numbers (rw from at made.numbers),
    )

create-IsSafe :
    (n : ℕ) (tx : Tx)
    → IsSafe n tx
    → tx.status ≡ processing
    → length (comp_steps tx.steps) < originals done tx.steps
    → IsSafe n (create_compensations tx)
unfolding create_compensations
create-IsSafe n tx h p l =
    let c = create-counts n tx h in
    record {
      numbers = c.3;
      all_asked = omega (arith, c.0 pending, c.0 done, c.0 StepStatus.failed, h.all_asked);
      covered = omega (arith, c.0 done, c.1, missing_lem tx.steps);
      when_committed = λ e. absurd (ground (arith, p));
    }

pub IsReset-counts :
    (n : ℕ) (tx : Tx) (st : StepRow)
    → IsSafe n tx
    → first_failed (comp_steps tx.steps) ≡ some st
    → IsReset 1 tx.steps st
IsReset-counts n tx st h e = IsReset-step-counts 1 tx.steps st h.numbers e

retry-IsSafe :
    (n : ℕ) (tx : Tx) (st : StepRow)
    → IsSafe n tx
    → tx.status ≡ processing
    → first_failed (comp_steps tx.steps) ≡ some st
    → IsSafe n (retry_or_fail tx st)
unfolding retry_or_fail retry_compensate publish_pending
retry-IsSafe n tx st h p e =
    let r = IsReset-counts n tx st h e in
    elim (Bool-cases (leb 3 (tx.attempts st.step_no))) [
      | inl full ↦ rw full (record {
        numbers = h.numbers;
        all_asked = h.all_asked;
        covered = h.covered;
        when_committed = λ q. absurd (ground arith);
      })
      | inr room ↦ rw room (record {
        numbers = r.numbers;
        all_asked =
            omega (arith, r.same pending, r.same done, r.same StepStatus.failed, h.all_asked);
        covered = omega (arith, r.same done, r.same_comps, h.covered);
        when_committed = λ q. absurd (ground (arith, p));
      })
    ]

-- Where all steps are done, those that were asked for are.
all_done-counts :
    (steps : List StepRow)
    → all_done steps ≡ true
    → (originals pending steps ≡ 0) × (originals StepStatus.failed steps ≡ 0)
unfolding all_done originals
all_done-counts [] h = (refl, refl)
all_done-counts (st ∷ rest) h =
    let ih = all_done-counts rest (ground arith) in (ground (arith, ih.0), ground (arith, ih.1))

transition-IsSafe :
    (n : ℕ) (tx : Tx) (to : TxStatus)
    → IsSafe n tx
    → (to ≡ committed → (originals done tx.steps ≡ n) × (length (comp_steps tx.steps) ≡ 0))
    → IsSafe n (transition tx to)
transition-IsSafe n tx to h c = record {
  numbers = h.numbers;
  all_asked = h.all_asked;
  covered = h.covered;
  when_committed = c;
}

Advanced-IsSafe : (n : ℕ) {tx t : Tx} → Advanced tx t → IsSafe n tx → IsSafe n t
Advanced-IsSafe n waits h = h
Advanced-IsSafe n {tx} (creates p l f) h =
    publish_pending-IsSafe n (create_compensations tx) (create-IsSafe n tx h p l)
Advanced-IsSafe n {tx} (retries st p e d c) h = retry-IsSafe n tx st h p e
Advanced-IsSafe n {tx} (compensates p d a c) h =
    transition-IsSafe n tx compensated h (λ q. absurd (ground arith))
Advanced-IsSafe n {tx} (commits p f c a) h =
    let counts = all_done-counts tx.steps a in
    transition-IsSafe n tx committed h (λ q. (omega (arith, counts.0, f, h.all_asked), c))

pub expire_steps-IsSafe : (n : ℕ) (tx : Tx) → IsSafe n tx → IsSafe n (expire_steps tx)
unfolding expire_steps
expire_steps-IsSafe n tx h =
    let kept = fail_pending-counts 1 tx.steps h.numbers in
    elim (Bool-cases (eq_tx_status tx.status processing && length (comp_steps tx.steps) == 0)) [
      | inr e ↦ rw e h
      | inl e ↦ rw e (record {
        numbers = kept.0.numbers;
        all_asked = kept.0.same_asked ∙ h.all_asked;
        covered = omega (arith, kept.0.same_comps, kept.1, h.covered);
        when_committed = λ q. absurd (ground arith);
      })
    ]

pub reopen-IsSafe : (n : ℕ) (tx : Tx) → IsSafe n tx → IsSafe n (reopen_compensation tx)
unfolding reopen_compensation
reopen-IsSafe n tx h = elim (Bool-cases (eq_tx_status tx.status compensated)) [
  | inr e ↦ rw e h
  | inl e ↦ rw e (transition-IsSafe n tx processing h (λ q. absurd (ground arith)))
]

pub recover-IsSafe : (n : ℕ) (tx : Tx) → IsSafe n tx → IsSafe n (recover tx)
unfolding recover
recover-IsSafe n tx h =
    let restarted : IsSafe n (record tx { attempts = λ m. 0 }) = record {
      numbers = h.numbers;
      all_asked = h.all_asked;
      covered = h.covered;
      when_committed = h.when_committed;
    } in
    elim (Bool-cases (eq_tx_status tx.status processing)) [
      | inr e ↦ rw e restarted
      | inl e ↦ rw e (publish_pending-IsSafe n (record tx { attempts = λ m. 0 }) restarted)
    ]

pub advance-IsSafe : (n : ℕ) (tx : Tx) → IsSafe n tx → IsSafe n (advance tx)
advance-IsSafe n tx h = Advanced-IsSafe n (advance-Advanced tx) h
