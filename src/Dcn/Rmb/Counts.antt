-- ===== src/Dcn/Rmb/Counts.antt =====
-- How many steps of each kind there are, and what each statement of
-- templates/bank_dcn/internal/rmb/coordinator.go does to the counts.
use jiade.Prelude.{
  ℕ, suc, ◌+◌, ◌<◌, ◌≡◌, refl, ap, ◌∙◌, false, not, ◌&&◌, ◌==◌, ltb, List, [], ◌∷◌, ◌++◌, length,
  if◌then◌else◌, arith,
}
use jiade.Dcn.Rmb.Types.{StepStatus, pending, done, StepRow, eq_step_status, is_compensation}
use jiade.Dcn.Rmb.Steps.{has_original, done_originals, comp_steps, max_no, reset_step}

-- The steps that the request asked for and that have a status.
unfoldable pub originals : StepStatus → List StepRow → ℕ
originals s [] = 0
originals s (st ∷ rest) =
    (if not (is_compensation st) && eq_step_status st.status s then 1 else 0) + originals s rest

-- All steps that the request asked for.
abbrev pub asked : List StepRow → ℕ
asked steps = originals pending steps + originals done steps + originals StepStatus.failed steps

pub done_originals-length :
    (steps : List StepRow) → length (done_originals steps) ≡ originals done steps
unfolding originals done_originals
done_originals-length [] = refl
done_originals-length (st ∷ rest) = ground (arith, done_originals-length rest)

pub has_original_lem :
    (s : StepStatus) (steps : List StepRow) → has_original s steps ≡ ltb 0 (originals s steps)
unfolding originals has_original
has_original_lem s [] = refl
has_original_lem s (st ∷ rest) = ground (arith, has_original_lem s rest)

pub originals-append :
    (s : StepStatus) (xs ys : List StepRow)
    → originals s (xs ++ ys) ≡ originals s xs + originals s ys
unfolding originals
originals-append s [] ys = omega arith
originals-append s (x ∷ xs) ys = omega (arith, originals-append s xs ys)

pub comp_steps-append :
    (xs ys : List StepRow)
    → length (comp_steps (xs ++ ys)) ≡ length (comp_steps xs) + length (comp_steps ys)
unfolding comp_steps
comp_steps-append [] ys = omega arith
comp_steps-append (x ∷ xs) ys = ground (arith, comp_steps-append xs ys)

-- The status is no part of the test for a compensation.
pub is_compensation_status :
    (st : StepRow) (s : StepStatus)
    → is_compensation (record st { status = s }) ≡ is_compensation st
unfolding is_compensation
is_compensation_status st s = refl

-- The k-th step has the number k.
abbrev pub Numbered : ℕ → List StepRow → Type 0
Numbered k [] = Unit
Numbered k (st ∷ rest) = (st.step_no ≡ k) × Numbered (suc k) rest

pub Numbered-append :
    (k : ℕ) (xs ys : List StepRow)
    → Numbered k xs
    → Numbered (k + length xs) ys
    → Numbered k (xs ++ ys)
Numbered-append k [] ys a b = let e : k + 0 ≡ k = omega arith in rw e at b
Numbered-append k (x ∷ xs) ys a b =
    let e : k + suc (length xs) ≡ suc k + length xs = omega arith in
    (a.0, Numbered-append (suc k) xs ys (a.1) (rw e at b))

pub max_no-Numbered :
    (m : ℕ) (steps : List StepRow) → Numbered (suc m) steps → max_no m steps ≡ m + length steps
unfolding max_no
max_no-Numbered m [] h = omega arith
max_no-Numbered m (st ∷ rest) h =
    let e : (if ltb m st.step_no then st.step_no else m) ≡ suc m = ground arith in
    ap (λ (k : ℕ). max_no k rest) e ∙ omega (arith, max_no-Numbered (suc m) rest (h.1))

pub reset_step-above :
    (k n : ℕ) (steps : List StepRow) → Numbered k steps → n < k → reset_step n steps ≡ steps
unfolding reset_step
reset_step-above k n [] h l = refl
reset_step-above k n (st ∷ rest) h l =
    let e : (st.step_no == n) ≡ false = ground arith in
    rw (e, reset_step-above (suc k) n rest (h.1) (omega arith)) refl
