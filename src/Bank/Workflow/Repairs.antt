-- ===== src/Bank/Workflow/Repairs.antt =====
-- The operator's ways out of a stuck compensation keep an instance sound:
-- templates/bank/internal/platform/workflow/admin_ops.go.
use mathlib.Core.Path.{subst}
use jiade.Prelude.{ℕ, suc, ◌≤◌, ◌≡◌, inr, refl, ◌∙◌, String, true, List, length, arith}
use jiade.Bank.Workflow.Types.{no_class, ActionRecord, ActionStatus, Instance, InstanceStatus}
use jiade.Bank.Workflow.Tx.{Tx, upsert}
use jiade.Bank.Workflow.Engine.{Engine}
use jiade.Bank.Workflow.Admin.{in_compensation, retry_compensation_tx, resolve_compensation_tx}
use jiade.Bank.Workflow.Ensures.{
  Ensures, Ensures-some_or, Ensures-require, Ensures-instance_now, Ensures-save_instance,
  Ensures-save_action,
}
use jiade.Bank.Workflow.Ladder.{Ladder, Ladder-stuck}
use jiade.Bank.Workflow.Invariant.{
  Shape, IsSound, Sound, kept, undo_below, upsert-Ladder, continue_compensation-Ensures,
}
use jiade.Bank.Workflow.Transactions.{action_count}
use jiade.Bank.Workflow.Operators.{eq_instance_status-eq}

-- An instance in compensation has the record that waits for it on top.
climbing :
    (n : ℕ) (st : InstanceStatus) (c : ℕ) (xs : List ActionRecord)
    → in_compensation st ≡ true
    → Shape n st c xs
    → (s : ActionStatus) × (length xs ≤ n) × Ladder s 0 c xs
climbing n InstanceStatus.compensating c xs h shape = (ActionStatus.compensating, shape.0, shape.1)
climbing n InstanceStatus.compensation_failed c xs h shape =
    (ActionStatus.compensation_failed, shape.0, shape.1)
climbing n _ c xs h shape = cc

-- The record that an operator settles.
abbrev undone_record : ActionRecord → ActionRecord
undone_record r = record r {
  status = ActionStatus.compensated;
  last_error_class = no_class;
  last_error = "";
}

module _ (e : Engine) (t : Tx) (sound : IsSound (action_count e.registry t.inst) t.inst) where
  pub retry_compensation_tx-Sound :
      Ensures (Sound (action_count e.registry t.inst) t.inst) (retry_compensation_tx e) t
  unfolding retry_compensation_tx
  retry_compensation_tx-Sound = Ensures-instance_now _ t (
      Ensures-require _ _ _ t λ stuck. Ensures-some_or _ _ _ t λ r stored.
        Ensures-require _ _ _ t λ failing. Ensures-some_or _ _ _ t λ def found.
          let n = action_count e.registry t.inst in
          let shape : Shape n InstanceStatus.compensation_failed t.inst.current_action
              t.inst.actions =
            subst (λ s. Shape n s t.inst.current_action t.inst.actions)
              (eq_instance_status-eq _ _ stuck) sound in
          Ensures-save_instance _ _ t (
            undo_below e n t.inst _ def t.inst.current_action (suc r.attempt) _
              (kept refl refl refl) refl refl shape.0 ActionStatus.compensation_failed shape.1))

  pub resolve_compensation_tx-Sound :
      (name : String)
      → Ensures (Sound (action_count e.registry t.inst) t.inst) (resolve_compensation_tx e name) t
  unfolding resolve_compensation_tx
  resolve_compensation_tx-Sound name = Ensures-instance_now _ t (
      Ensures-require _ _ _ t λ climbs. Ensures-some_or _ _ _ t λ (idx, r) stored.
        Ensures-require _ _ _ t λ stuck. Ensures-some_or _ _ _ t λ def found.
          let i = t.inst in
          let n = action_count e.registry i in
          let (s, len, h) = climbing n i.status i.current_action i.actions climbs sound in
          let found_top = Ladder-stuck name s 0 i.current_action idx i.actions r h stored stuck in
          let at : idx ≡ i.current_action = omega (arith, found_top.0) in
          let top =
            upsert-Ladder e n s ActionStatus.compensated i.current_action i.actions
              (undone_record r) h (found_top.1 ∙ at) refl len in
          let i' : Instance = record (t.inst) { actions = upsert i.actions (undone_record r) } in
          Ensures-save_action _ _ t (
            rw at (
              continue_compensation-Ensures e n i i' def ActionStatus.compensated i.current_action _
                (kept refl refl refl) (inr refl) top.1 top.0 refl)))
