-- ===== src/Bank/Workflow/Undoing.antt =====
-- The compensation walk keeps an instance sound: `applyCompensationResult` of
-- templates/bank/internal/platform/workflow/engine.go and the operations of admin_ops.go.
use jiade.Prelude.{suc, ◌≤◌, ◌≡◌, inl, inr, refl, Bool-cases, length}
use jiade.Prelude.Int.{pos, leb_ℤ}
use jiade.Bank.Workflow.Types.{
  no_class, ActionRecord, ActionStatus, Instance, InstanceStatus, Definition, Envelope, Outcome,
}
use jiade.Bank.Workflow.Tx.{Tx, upsert}
use jiade.Bank.Workflow.Engine.{Engine}
use jiade.Bank.Workflow.Results.{compensation_outcome}
use jiade.Bank.Workflow.Ensures.{Ensures, Ensures-save_action, Ensures-save_instance_last}
use jiade.Bank.Workflow.Ladder.{Ladder}
use jiade.Bank.Workflow.Invariant.{
  Sound, kept, upsert-Ladder, undo_below, continue_compensation-Ensures,
}

-- The record that is written for an action once it is undone.
abbrev undone_record : ActionRecord → Envelope → ActionRecord
undone_record r env = record r {
  status = ActionStatus.compensated;
  last_error_class = no_class;
  last_error = "";
  result_event_id = env.message_id;
}

abbrev lost_record : ActionRecord → Envelope → Outcome → ActionRecord
lost_record r env outcome = record r {
  status = ActionStatus.compensation_failed;
  last_error_class = outcome.class;
  last_error = outcome.message;
  result_event_id = env.message_id;
}

module _ (e : Engine) (def : Definition) (r : ActionRecord) (env : Envelope) (outcome : Outcome)
    (t : Tx) where
  -- The outcome of an undo, for the record on top of the ladder.
  pub compensation_outcome-Sound :
      t.inst.status ≡ InstanceStatus.compensating
      → length t.inst.actions ≤ length def.actions
      → Ladder ActionStatus.compensating 0 t.inst.current_action t.inst.actions
      → r.index ≡ t.inst.current_action
      → Ensures
          (Sound (length def.actions) t.inst)
          (compensation_outcome e t.inst def r env outcome)
          t
  unfolding compensation_outcome
  compensation_outcome-Sound st len h ri =
      let n = length def.actions in
      let i = t.inst in
      let lost =
        upsert-Ladder e n ActionStatus.compensating ActionStatus.compensation_failed
          i.current_action i.actions (lost_record r env outcome) h ri refl len in
      let undone =
        upsert-Ladder e n ActionStatus.compensating ActionStatus.compensated i.current_action
          i.actions (undone_record r env) h ri refl len in
      let i' : Instance = record (t.inst) { actions = upsert i.actions (undone_record r env) } in
      elim (Bool-cases outcome.is_success) [
        | inl won ↦
            rw (won, compensation_outcome)
              (Ensures-save_action _ _ t (
                continue_compensation-Ensures e n i i' def ActionStatus.compensated i.current_action
                  _ (kept refl refl refl) (inr refl) undone.1 undone.0 refl))
        | inr failing ↦
            elim (Bool-cases (leb_ℤ e.config.compensation_max_attempts (pos r.attempt))) [
              | inl exhausted ↦
                  rw (failing, exhausted, compensation_outcome)
                    (Ensures-save_action _ _ t
                      (Ensures-save_instance_last _ _ (kept refl refl refl, lost)))
              | inr again ↦
                  rw (failing, again, compensation_outcome)
                    (undo_below e n i i def i.current_action (suc r.attempt) t (kept refl refl refl)
                      st refl len ActionStatus.compensating h)
            ]
      ]
