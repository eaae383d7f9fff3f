-- ===== src/Bank/Workflow/Soundness.antt =====
-- Every transaction of the engine keeps an instance sound:
-- templates/bank/internal/platform/workflow/engine.go and admin_ops.go.
use mathlib.Core.Path.{subst}
use jiade.Prelude.{
  ℕ, suc, ◌≤◌, ◌<◌, ◌≡◌, ◌⊎◌, inl, inr, refl, ◌∙◌, true, false, Bool-cases, some, List, length,
  get_elem?, ltb, arith,
}
use jiade.Bank.Workflow.Types.{
  ActionRecord, ActionStatus, waiting_result, failed, Instance, running, Definition, Envelope,
  Outcome,
}
use jiade.Bank.Workflow.Tx.{Tx, upsert, put_at}
use jiade.Bank.Workflow.Engine.{Engine, is_terminal_execution_failure}
use jiade.Bank.Workflow.Results.{forward_outcome}
use jiade.Bank.Workflow.Ensures.{
  Ensures, Ensures-save_action, Ensures-save_instance, Ensures-save_instance_last,
}
use jiade.Bank.Workflow.Ladder.{
  Done, Ladder, Ladder-top, Ladder-put, Ladder-Done, Done-put, length-put, length-put_end,
}
use jiade.Bank.Workflow.Invariant.{
  Shape, IsSound, Sound, kept, upsert-Ladder, upsert-put, continue_compensation-Ensures,
  persist_action_dispatch-Ensures,
}

ltb-false : (a b : ℕ) → ltb a b ≡ false → b ≤ a
ltb-false a b h = ground arith

ltb-true : (a b : ℕ) → ltb a b ≡ true → a < b
ltb-true a b h = ground arith

-- A running instance whose current record waits for its result.
pub record Waits (n : ℕ) (i : Instance) (r : ActionRecord) : Type 0 where
  is_running : i.status ≡ running
  in_range : i.current_action < n
  to_top : length i.actions ≡ suc i.current_action
  ladder : Ladder waiting_result 0 i.current_action i.actions
  own_index : r.index ≡ i.current_action

pub IsSound-Waits :
    (n : ℕ) (i : Instance) (r : ActionRecord)
    → i.status ≡ running
    → IsSound n i
    → get_elem? i.actions i.current_action ≡ some r
    → r.status ≡ waiting_result
    → Waits n i r
IsSound-Waits n i r st sound g w =
    let (lt, len, top) = subst (λ s. Shape n s i.current_action i.actions) st sound in
    elim top [
      | inl h ↦ record {
        is_running = st;
        in_range = lt;
        to_top = len;
        ladder = h;
        own_index = omega (arith, (Ladder-top waiting_result 0 i.current_action i.actions r h g).0);
      }
      | inr h ↦ cc (w, (Ladder-top failed 0 i.current_action i.actions r h g).1)
    ]

-- The records after the current one was written again, waiting or failed.
pub written-Shape :
    (n : ℕ) (i : Instance) (r r' : ActionRecord) (s : ActionStatus)
    → Waits n i r
    → ((xs : List ActionRecord)
        → Ladder s 0 i.current_action xs
        → Ladder waiting_result 0 i.current_action xs ⊎ Ladder failed 0 i.current_action xs)
    → r'.index ≡ r.index
    → r'.status ≡ s
    → IsSound n (record i { revision = suc i.revision; actions = upsert i.actions r' })
written-Shape n i r r' s w side ri rs =
    rw (w.is_running, upsert-put i.actions r' (ri ∙ w.own_index))
      (
        w.in_range,
        length-put 0 i.actions i.current_action r' (omega (arith, w.to_top)) ∙ w.to_top,
        side _ (
            Ladder-put waiting_result s 0 i.current_action i.actions r' w.ladder
              (omega (arith, ri, w.own_index)) rs),
      )

won-Done :
    (n : ℕ) (i : Instance) (r r' : ActionRecord)
    → Waits n i r
    → r'.index ≡ r.index
    → r'.status ≡ ActionStatus.succeeded
    → (length (upsert i.actions r') ≡ suc i.current_action) × Done 0 (upsert i.actions r')
won-Done n i r r' w ri rs = rw (upsert-put i.actions r' (ri ∙ w.own_index)) (
    let len = length-put 0 i.actions i.current_action r' (omega (arith, w.to_top)) ∙ w.to_top in
    (
      len,
      Ladder-Done 0 i.current_action (put_at 0 i.actions i.current_action r')
          (Ladder-put waiting_result ActionStatus.succeeded 0 i.current_action i.actions r' w.ladder
            (omega (arith, ri, w.own_index)) rs)
          len,
    ))

-- The next action's record on top of those that succeeded.
pub next-Shape :
    (n c : ℕ) (xs : List ActionRecord) (r : ActionRecord)
    → c < n
    → length xs ≡ c
    → Done 0 xs
    → r.index ≡ c
    → r.status ≡ waiting_result
    → Shape n running c (upsert xs r)
next-Shape n c xs r lt len done ri rs =
    rw (upsert-put xs r ri, ← len)
      (
        omega (arith, len),
        length-put_end 0 xs r,
        inl (Done-put waiting_result 0 xs r done (omega (arith, ri, len)) rs),
      )

-- The records that `applyForwardResult` writes.
abbrev won_record : ActionRecord → Envelope → Outcome → ActionRecord
won_record r env outcome = record r {
  status = ActionStatus.succeeded;
  output = outcome.output;
  result_event_id = env.message_id;
}

abbrev lost_record : ActionRecord → Envelope → Outcome → ActionRecord
lost_record r env outcome = record r {
  status = failed;
  last_error_class = outcome.class;
  last_error = outcome.message;
  result_event_id = env.message_id;
}

module _ (e : Engine) (def : Definition) (r : ActionRecord) (env : Envelope) (outcome : Outcome)
    (t : Tx) where
  forward_won-Sound :
      Waits (length def.actions) t.inst r
      → outcome.is_success ≡ true
      → Ensures (Sound (length def.actions) t.inst) (forward_outcome e t.inst def r env outcome) t
  unfolding forward_outcome
  forward_won-Sound w won =
      let n = length def.actions in
      let i = t.inst in
      let done = won-Done n i r (won_record r env outcome) w refl refl in
      elim (Bool-cases (ltb (suc i.current_action) n)) [
        | inl more ↦
            rw (won, more, forward_outcome)
              (Ensures-save_action _ _ t (
                Ensures-save_instance _ _ _ (
                  persist_action_dispatch-Ensures e _ def _ (Sound n i) λ t' r' ri rs sends.
                    rw (sends.written, w.is_running)
                      (
                        kept refl refl refl,
                        next-Shape n (suc i.current_action) _ r' (ltb-true _ _ more) done.0 done.1
                            ri rs,
                      ))))
        | inr last ↦
            rw (won, last, forward_outcome)
              (Ensures-save_action _ _ t (
                Ensures-save_instance_last _ _ (
                  kept refl refl refl,
                  (done.0 ∙ omega (arith, w.in_range, ltb-false _ _ last), done.1),
                )))
      ]

  forward_lost-Sound :
      Waits (length def.actions) t.inst r
      → outcome.is_success ≡ false
      → Ensures (Sound (length def.actions) t.inst) (forward_outcome e t.inst def r env outcome) t
  unfolding forward_outcome
  forward_lost-Sound w lost =
      let n = length def.actions in
      let i = t.inst in
      let top =
        upsert-Ladder e n waiting_result failed i.current_action i.actions
          (lost_record r env outcome) w.ladder w.own_index refl
          (omega (arith, w.to_top, w.in_range)) in
      let i' : Instance = record (t.inst) {
        actions = upsert t.inst.actions (lost_record r env outcome);
      } in
      elim (Bool-cases (is_terminal_execution_failure outcome.class)) [
        | inl terminal ↦
            rw (lost, terminal, forward_outcome)
              (Ensures-save_action _ _ t (
                continue_compensation-Ensures e n i i' def failed i.current_action _
                  (kept refl refl refl) (inl refl) top.1 top.0 refl))
        | inr transient ↦
            rw (lost, transient, forward_outcome)
              (Ensures-save_action _ _ t (
                Ensures-save_instance_last _ _
                  (kept refl refl refl, written-Shape n i r _ failed w (λ xs h. inr h) refl refl)))
      ]

  pub forward_outcome-Sound :
      Waits (length def.actions) t.inst r
      → Ensures (Sound (length def.actions) t.inst) (forward_outcome e t.inst def r env outcome) t
  forward_outcome-Sound w = elim (Bool-cases outcome.is_success) [
    | inl won ↦ forward_won-Sound w won
    | inr lost ↦ forward_lost-Sound w lost
  ]
