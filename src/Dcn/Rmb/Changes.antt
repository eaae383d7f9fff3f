-- ===== src/Dcn/Rmb/Changes.antt =====
-- What the statements that write the steps of templates/bank_dcn/internal/rmb/coordinator.go do to
-- the counts and the numbers.
use jiade.Prelude.{
  ℕ, suc, zero, ◌+◌, ◌≤◌, ◌≡◌, refl, ap, String, true, false, ◌&&◌, ◌==◌, some, List, [], ◌∷◌,
  length, Bool-cases, Option-cases, inl, inr, arith, str_eq,
}
use jiade.Dcn.Rmb.Types.{
  StepStatus, pending, done, StepRow, eq_step_status, reverse_action, is_compensation,
}
use jiade.Dcn.Rmb.Steps.{
  comp_steps, first_failed, compensation_row, compensations, update_step, reset_step, fail_pending,
}
use jiade.Dcn.Rmb.Counts.{originals, asked, is_compensation_status, Numbered, reset_step-above}

-- What a statement leaves of the steps: the numbers, and how many were asked for and created.
pub record IsKept (k : ℕ) (before after : List StepRow) : Type 0 where
  pub numbers : Numbered k after
  pub same_asked : asked after ≡ asked before
  pub same_comps : length (comp_steps after) ≡ length (comp_steps before)

-- A receipt: done steps stay done, and no step is pending anew.
pub update_step-counts :
    (n k : ℕ) (from to : StepStatus) (steps : List StepRow)
    → Numbered k steps
    → eq_step_status from done ≡ false
    → eq_step_status to pending ≡ false
    → IsKept k steps (update_step n from to steps)
      × (originals done steps ≤ originals done (update_step n from to steps))
      × (originals pending (update_step n from to steps) ≤ originals pending steps)
unfolding update_step originals comp_steps
update_step-counts n k from to [] h f t =
    (record { numbers = tt; same_asked = refl; same_comps = refl }, omega arith, omega arith)
update_step-counts n k from to (st ∷ rest) h f t =
    let ih = update_step-counts n (suc k) from to rest (h.1) f t in
    let changed = is_compensation_status st to in
    elim (Bool-cases (st.step_no == n && eq_step_status st.status from)) [
      | inl e ↦
          rw (e, changed)
            (
              record {
                numbers = (h.0, ih.0.numbers);
                same_asked = ground (arith, ih.0.same_asked);
                same_comps = ground (arith, ih.0.same_comps);
              },
              ground (arith, ih.1),
              ground (arith, ih.2),
            )
      | inr e ↦ rw e (
        record {
          numbers = (h.0, ih.0.numbers);
          same_asked = omega (arith, ih.0.same_asked);
          same_comps = ground (arith, ih.0.same_comps);
        },
        omega (arith, ih.1),
        omega (arith, ih.2),
      )
    ]

pub fail_pending-counts :
    (k : ℕ) (steps : List StepRow)
    → Numbered k steps
    → IsKept k steps (fail_pending steps)
      × (originals done (fail_pending steps) ≡ originals done steps)
      × (originals pending (fail_pending steps) ≡ 0)
unfolding fail_pending originals comp_steps
fail_pending-counts k [] h =
    (record { numbers = tt; same_asked = refl; same_comps = refl }, omega arith, omega arith)
fail_pending-counts k (st ∷ rest) h =
    let ih = fail_pending-counts (suc k) rest (h.1) in
    let changed = is_compensation_status st StepStatus.failed in
    elim (Bool-cases (eq_step_status st.status pending)) [
      | inl e ↦
          rw (e, changed)
            (
              record {
                numbers = (h.0, ih.0.numbers);
                same_asked = ground (arith, ih.0.same_asked);
                same_comps = ground (arith, ih.0.same_comps);
              },
              ground (arith, ih.1),
              ground (arith, ih.2),
            )
      | inr e ↦ rw e (
        record {
          numbers = (h.0, ih.0.numbers);
          same_asked = omega (arith, ih.0.same_asked);
          same_comps = ground (arith, ih.0.same_comps);
        },
        omega (arith, ih.1),
        ground (arith, ih.2),
      )
    ]

-- What a retry keeps.
pub record IsReset (k : ℕ) (steps : List StepRow) (st : StepRow) : Type 0 where
  pub numbers : Numbered k (reset_step st.step_no steps)
  pub same : (s : StepStatus) → originals s (reset_step st.step_no steps) ≡ originals s steps
  pub same_comps : length (comp_steps (reset_step st.step_no steps)) ≡ length (comp_steps steps)
  pub from : k ≤ st.step_no

IsReset-later :
    (k : ℕ) (x : StepRow) (xs : List StepRow) (st : StepRow)
    → Numbered k (x ∷ xs)
    → IsReset (suc k) xs st
    → IsReset k (x ∷ xs) st
unfolding originals comp_steps reset_step
IsReset-later k x xs st h ih =
    let e : (x.step_no == st.step_no) ≡ false = ground (arith, ih.from) in
    record {
      numbers = rw e (h.0, ih.numbers);
      same = λ s. rw e (omega (arith, ih.same s));
      same_comps = rw e (ground (arith, ih.same_comps));
      from = omega (arith, ih.from);
    }

IsReset-here :
    (k : ℕ) (x : StepRow) (xs : List StepRow) (st : StepRow)
    → Numbered k (x ∷ xs)
    → is_compensation x ≡ true
    → some x ≡ some st
    → IsReset k (x ∷ xs) st
unfolding originals comp_steps reset_step
IsReset-here k x xs st h c e =
    let same_row : x ≡ st = cc in
    let number : st.step_no ≡ k = rw (← same_row) (h.0) in
    let above = reset_step-above (suc k) st.step_no xs (h.1) (omega arith) in
    let hit : (x.step_no == st.step_no) ≡ true = ground arith in
    let changed = is_compensation_status x pending in
    record {
      numbers = rw (hit, above) h;
      same = λ s. rw (hit, above, changed, c) refl;
      same_comps = rw (hit, above, changed, c) refl;
      from = omega arith;
    }

pub IsReset-step-counts :
    (k : ℕ) (steps : List StepRow) (st : StepRow)
    → Numbered k steps
    → first_failed (comp_steps steps) ≡ some st
    → IsReset k steps st
unfolding comp_steps first_failed
IsReset-step-counts k [] st h e = absurd (cc)
IsReset-step-counts k (x ∷ xs) st h e = elim (Bool-cases (is_compensation x)) [
  | inr c ↦ IsReset-later k x xs st h (IsReset-step-counts (suc k) xs st (h.1) (rw c at e))
  | inl c ↦ elim (Bool-cases (eq_step_status x.status StepStatus.failed)) [
    | inr f ↦ IsReset-later k x xs st h (IsReset-step-counts (suc k) xs st (h.1) (rw (c, f) at e))
    | inl f ↦ IsReset-here k x xs st h c (rw (c, f) at e)
  ]
]

reverse_action-compensates :
    (st : StepRow) (n : ℕ) (rev : String)
    → reverse_action st.action ≡ some rev
    → is_compensation (compensation_row st n rev) ≡ true
unfolding reverse_action is_compensation
reverse_action-compensates st n rev h = elim (Bool-cases (str_eq st.action "DEBIT")) [
  | inl d ↦ let e : "COMPENSATE_DEBIT" ≡ rev = ground (arith, (rw d at h)) in rw (← e) refl
  | inr d ↦ elim (Bool-cases (str_eq st.action "CREDIT")) [
    | inl c ↦ let e : "COMPENSATE_CREDIT" ≡ rev = ground (arith, (rw (d, c) at h)) in rw (← e) refl
    | inr c ↦ absurd (ground (arith, (rw (d, c) at h)))
  ]
]

-- What the loop that creates compensations gives.
pub record IsCreated (n missing : ℕ) (rows : List StepRow) : Type 0 where
  pub bounded : length rows ≤ missing
  pub none_asked : (s : StepStatus) → originals s rows ≡ 0
  pub all_comps : length (comp_steps rows) ≡ length rows
  pub numbers : Numbered (suc n) rows

pub compensations-IsCreated :
    (sts : List StepRow) (n missing : ℕ) → IsCreated n missing (compensations sts n missing)
unfolding compensations originals comp_steps
compensations-IsCreated [] n missing = record {
  bounded = omega arith;
  none_asked = λ s. refl;
  all_comps = refl;
  numbers = tt;
}
compensations-IsCreated (st ∷ rest) n zero = record {
  bounded = omega arith;
  none_asked = λ s. refl;
  all_comps = refl;
  numbers = tt;
}
compensations-IsCreated (st ∷ rest) n (suc missing) =
    elim (Option-cases (reverse_action st.action)) [
      | inl e ↦ rw (e, compensations) (compensations-IsCreated rest n (suc missing))
      | inr (rev, e) ↦
          let c = reverse_action-compensates st (n + 1) rev e in
          let ih = compensations-IsCreated rest (n + 1) missing in
          let next : suc (n + 1) ≡ suc (suc n) = omega arith in
          rw (e, compensations)
            (record {
              bounded = omega (arith, ih.bounded);
              none_asked = λ s. rw c (omega (arith, ih.none_asked s));
              all_comps = rw c (ap suc ih.all_comps);
              numbers = (omega arith, rw next at ih.numbers);
            })
    ]
