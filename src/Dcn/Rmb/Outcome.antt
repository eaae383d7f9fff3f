-- ===== src/Dcn/Rmb/Outcome.antt =====
-- The ways in which `advance` of templates/bank_dcn/internal/rmb/coordinator.go ends.
use jiade.Prelude.{
  ℕ, ◌-◌, ◌≤◌, ◌<◌, ◌≡◌, ◌⊎◌, refl, ap, true, false, ◌||◌, ltb, some, List, [], ◌∷◌, length,
  Bool-cases, Option-cases, inl, inr, arith,
}
use jiade.Dcn.Rmb.Types.{
  processing, committed, compensated, StepStatus, pending, done, StepRow, Tx, eq_tx_status,
}
use jiade.Dcn.Rmb.Steps.{has_original, comp_steps, first_failed, all_done}
use jiade.Dcn.Rmb.Coordinator.{
  publish_pending, transition, retry_or_fail, settle_compensations, missing, create_compensations,
  compensate, advance,
}
use jiade.Dcn.Rmb.Counts.{originals, done_originals-length, has_original_lem}

pub data Advanced (tx : Tx) : Tx → Type 0 where
  waits : Advanced tx tx
  creates :
      tx.status ≡ processing
      → length (comp_steps tx.steps) < originals done tx.steps
      → (0 < originals StepStatus.failed tx.steps) ⊎ (0 < length (comp_steps tx.steps))
      → Advanced tx (publish_pending (create_compensations tx))
  retries :
      (st : StepRow)
      → tx.status ≡ processing
      → first_failed (comp_steps tx.steps) ≡ some st
      → originals done tx.steps ≤ length (comp_steps tx.steps)
      → 0 < length (comp_steps tx.steps)
      → Advanced tx (retry_or_fail tx st)
  compensates :
      tx.status ≡ processing
      → originals done tx.steps ≤ length (comp_steps tx.steps)
      → all_done (comp_steps tx.steps) ≡ true
      → (0 < length (comp_steps tx.steps)) ⊎ (originals pending tx.steps ≡ 0)
      → Advanced tx (transition tx compensated)
  commits :
      tx.status ≡ processing
      → originals StepStatus.failed tx.steps ≡ 0
      → length (comp_steps tx.steps) ≡ 0
      → all_done tx.steps ≡ true
      → Advanced tx (transition tx committed)

pub missing_lem :
    (steps : List StepRow) → missing steps ≡ originals done steps - length (comp_steps steps)
unfolding missing
missing_lem steps = ap (λ (k : ℕ). k - length (comp_steps steps)) (done_originals-length steps)

settle-Advanced :
    (tx : Tx)
    → tx.status ≡ processing
    → originals done tx.steps ≤ length (comp_steps tx.steps)
    → 0 < length (comp_steps tx.steps)
    → Advanced tx (settle_compensations tx)
unfolding settle_compensations
settle-Advanced tx p d c = elim (Option-cases (first_failed (comp_steps tx.steps))) [
  | inr (st, e) ↦ rw (e, settle_compensations) (retries st p e d c)
  | inl e ↦ elim (Bool-cases (all_done (comp_steps tx.steps))) [
    | inl a ↦ rw (e, settle_compensations, a) (compensates p d a (inl c))
    | inr a ↦ rw (e, settle_compensations, a) waits
  ]
]

none_done : (steps : List StepRow) → ltb 0 (length steps) ≡ false → all_done steps ≡ true
unfolding all_done
none_done [] h = refl
none_done (st ∷ rest) h = absurd (ground arith)

compensate-Advanced :
    (tx : Tx)
    → tx.status ≡ processing
    → (has_original StepStatus.failed tx.steps || ltb 0 (length (comp_steps tx.steps))) ≡ true
    → Advanced tx (compensate tx)
unfolding compensate
compensate-Advanced tx p g =
    let m = missing_lem tx.steps in
    let f = has_original_lem StepStatus.failed tx.steps in
    elim (Bool-cases (ltb 0 (missing tx.steps))) [
      | inl e ↦ rw e (creates p (ground (arith, m)) (ground (arith, f)))
      | inr e ↦
          let d : originals done tx.steps ≤ length (comp_steps tx.steps) = ground (arith, m) in
          elim (Bool-cases (ltb 0 (length (comp_steps tx.steps)))) [
            | inl c ↦ rw (e, c) (settle-Advanced tx p d (ground arith))
            | inr c ↦ elim (Bool-cases (has_original pending tx.steps)) [
              | inl q ↦ rw (e, c, q) waits
              | inr q ↦
                  rw (e, c, q)
                    (compensates p d (none_done (comp_steps tx.steps) c)
                      (inr (ground (arith, has_original_lem pending tx.steps))))
            ]
          ]
    ]

-- `advance` ends in one of these ways.
pub advance-Advanced : (tx : Tx) → Advanced tx (advance tx)
unfolding advance
advance-Advanced tx = elim (Bool-cases (eq_tx_status tx.status processing)) [
  | inr e ↦ rw e waits
  | inl e ↦
      let p : tx.status ≡ processing = ground arith in
      let f = has_original_lem StepStatus.failed tx.steps in
      elim (Bool-cases
        (has_original StepStatus.failed tx.steps || ltb 0 (length (comp_steps tx.steps)))) [
          | inl g ↦ rw (e, g) (compensate-Advanced tx p g)
          | inr g ↦ elim (Bool-cases (all_done tx.steps)) [
            | inl a ↦ rw (e, g, a) (commits p (ground (arith, f)) (ground arith) a)
            | inr a ↦ rw (e, g, a) waits
          ]
        ]
]
