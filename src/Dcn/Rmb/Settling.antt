-- ===== src/Dcn/Rmb/Settling.antt =====
-- What `advance` and the marks of receipts keep of a transaction of at most two steps, in
-- templates/bank_dcn/internal/rmb/coordinator.go.
use jiade.Prelude.{
  ℕ, ◌≤◌, ◌<◌, ◌≡◌, ◌⊎◌, refl, sym, ◌∙◌, true, false, leb, some, List, [], ◌∷◌, length, Bool-cases,
  inl, inr, arith,
}
use jiade.Dcn.Rmb.Types.{
  TxStatus, processing, committed, compensated, StepStatus, pending, done, StepRow, Tx,
  eq_tx_status, eq_step_status, is_compensation,
}
use jiade.Dcn.Rmb.Steps.{comp_steps, first_failed, all_done, update_step}
use jiade.Dcn.Rmb.Coordinator.{
  publish_pending, retry_compensate, retry_or_fail, create_compensations, advance, mark_step,
}
use jiade.Dcn.Rmb.Counts.{originals}
use jiade.Dcn.Rmb.Outcome.{
  Advanced, waits, creates, retries, compensates, commits, advance-Advanced,
}
use jiade.Dcn.Rmb.Keeping.{
  IsSafe, mark_step-IsSafe, publish_pending-IsSafe, create-counts, IsReset-counts, advance-IsSafe,
}
use jiade.Dcn.Rmb.Changes.{update_step-counts}

pub record IsSettled (n : ℕ) (tx : Tx) : Type 0 where
  pub safe : IsSafe n tx
  pub quiet : 0 < length (comp_steps tx.steps) → originals pending tx.steps ≡ 0
  pub when_compensated :
      tx.status ≡ compensated
      → (originals pending tx.steps ≡ 0)
        × (originals done tx.steps ≤ length (comp_steps tx.steps))
        × (all_done (comp_steps tx.steps) ≡ true)

-- Where nothing is pending, a receipt changes nothing.
update_step-quiet :
    (n : ℕ) (to : StepStatus) (steps : List StepRow)
    → originals pending steps ≡ 0
    → all_done (comp_steps steps) ≡ true
    → update_step n pending to steps ≡ steps
unfolding update_step originals comp_steps all_done
update_step-quiet n to [] p a = refl
update_step-quiet n to (st ∷ rest) p a = elim (Bool-cases (is_compensation st)) [
  | inl c ↦
      let rest_same = update_step-quiet n to rest (ground arith) (ground arith) in
      let still : eq_step_status st.status pending ≡ false = ground arith in
      rw (still, rest_same) (ground arith)
  | inr c ↦
      let rest_same = update_step-quiet n to rest (ground arith) (ground arith) in
      let still : eq_step_status st.status pending ≡ false = ground arith in
      rw (still, rest_same) (ground arith)
]

retry-IsSettled :
    (n : ℕ) (tx : Tx) (st : StepRow)
    → IsSettled n tx
    → tx.status ≡ processing
    → first_failed (comp_steps tx.steps) ≡ some st
    → IsSafe n (retry_or_fail tx st)
    → IsSettled n (retry_or_fail tx st)
unfolding retry_or_fail retry_compensate publish_pending
retry-IsSettled n tx st h p e =
    let r = IsReset-counts n tx st h.safe e in
    elim (Bool-cases (leb 3 (tx.attempts st.step_no))) [
      | inl full ↦
          rw full (λ s. record {
            safe = s;
            quiet = h.quiet;
            when_compensated = λ q. absurd (ground arith);
          })
      | inr room ↦ rw room (λ s. record {
        safe = s;
        quiet = λ c. r.same pending ∙ h.quiet (omega (arith, r.same_comps));
        when_compensated = λ q. absurd (ground (arith, p));
      })
    ]

Advanced-IsSettled :
    (n : ℕ) {tx t : Tx} → n ≤ 2 → Advanced tx t → IsSettled n tx → IsSafe n t → IsSettled n t
unfolding publish_pending create_compensations
Advanced-IsSettled n two waits h s = h
Advanced-IsSettled n {tx} two (creates p l f) h s =
    let c = create-counts n tx h.safe in
    let still : originals pending tx.steps ≡ 0 = elim f [
      | inl some_failed ↦ omega (arith, h.safe.all_asked)
      | inr some_comps ↦ h.quiet some_comps
    ] in
    record {
      safe = s;
      quiet = λ q. c.0 pending ∙ still;
      when_compensated = λ q. absurd (ground (arith, p));
    }
Advanced-IsSettled n {tx} two (retries st p e d c) h s = retry-IsSettled n tx st h p e s
Advanced-IsSettled n {tx} two (compensates p d a c) h s = record {
  safe = s;
  quiet = h.quiet;
  when_compensated =
      λ q. (elim c [ inl some_comps ↦ h.quiet some_comps | inr still ↦ still ], d, a);
}
Advanced-IsSettled n {tx} two (commits p f c a) h s = record {
  safe = s;
  quiet = h.quiet;
  when_compensated = λ q. absurd (ground arith);
}

pub advance-IsSettled : (n : ℕ) (tx : Tx) → n ≤ 2 → IsSettled n tx → IsSettled n (advance tx)
advance-IsSettled n tx two h =
    Advanced-IsSettled n two (advance-Advanced tx) h (advance-IsSafe n tx h.safe)

pub publish_pending-IsSettled :
    (n : ℕ) (tx : Tx) → IsSettled n tx → IsSettled n (publish_pending tx)
unfolding publish_pending
publish_pending-IsSettled n tx h = record {
  safe = publish_pending-IsSafe n tx h.safe;
  quiet = h.quiet;
  when_compensated = h.when_compensated;
}

-- A step that is marked while the transaction is not compensated.
pub mark_step-IsSettled :
    (n m : ℕ) (from to : StepStatus) (tx : Tx) (status : TxStatus)
    → eq_step_status from done ≡ false
    → eq_step_status to pending ≡ false
    → eq_tx_status status compensated ≡ false
    → eq_tx_status status committed ≡ false ⊎ (status ≡ tx.status)
    → IsSettled n tx
    → IsSettled n (record (mark_step m from to tx) { status = status })
unfolding mark_step
mark_step-IsSettled n m from to tx status f t c k h =
    let kept = update_step-counts m 1 from to tx.steps h.safe.numbers f t in
    let marked = mark_step-IsSafe n m from to tx f t h.safe in
    record {
      safe = record {
        numbers = marked.numbers;
        all_asked = marked.all_asked;
        covered = marked.covered;
        when_committed = λ q. elim k [
          | inl other ↦ absurd (ground arith)
          | inr same ↦ marked.when_committed (sym same ∙ q)
        ];
      };
      quiet = λ q. let still = h.quiet (omega (arith, kept.0.same_comps)) in omega (arith, kept.2);
      when_compensated = λ q. absurd (ground arith);
    }

-- A receipt for a pending step.
pub mark_pending-IsSettled :
    (n m : ℕ) (to : StepStatus) (tx : Tx)
    → eq_step_status to pending ≡ false
    → IsSettled n tx
    → IsSettled n (mark_step m pending to tx)
unfolding mark_step
mark_pending-IsSettled n m to tx t h = elim (Bool-cases (eq_tx_status tx.status compensated)) [
  | inr c ↦ mark_step-IsSettled n m pending to tx tx.status refl t c (inr refl) h
  | inl c ↦
      let facts = h.when_compensated (ground arith) in
      rw (mark_step, update_step-quiet m to tx.steps (facts.0) (facts.2)) h
]
