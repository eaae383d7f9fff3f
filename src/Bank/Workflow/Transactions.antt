-- ===== src/Bank/Workflow/Transactions.antt =====
-- The transactions of templates/bank/internal/platform/workflow/engine.go and admin_ops.go keep an
-- instance sound, whatever the actions of its definition answer.
use mathlib.Core.Path.{subst}
use jiade.Prelude.{
  ℕ, ◌≡◌, inl, inr, refl, sym, ap, Bool, true, Bool-cases, none, some, ◌∷◌, length, ◌&&◌, str_eq,
  contains_str, arith,
}
use jiade.Bank.Workflow.Types.{
  ActionRecord, ActionStatus, waiting_result, Instance, InstanceStatus, running, Definition,
  Envelope, eq_action_status,
}
use jiade.Bank.Workflow.Tx.{Tx, M}
use jiade.Bank.Workflow.Registry.{Registry, get}
use jiade.Bank.Workflow.Engine.{Engine}
use jiade.Bank.Workflow.Results.{
  route_result, apply_forward_result, apply_compensation_result, apply_result_tx, is_current_result,
}
use jiade.Bank.Workflow.Ensures.{
  Ensures, Ensures-some_or, Ensures-called, Ensures-require, Ensures-raise, Ensures-pure,
  Ensures-insert_inbox, Ensures-instance_now,
}
use jiade.Bank.Workflow.Ladder.{Ladder-top}
use jiade.Bank.Workflow.Invariant.{Shape, IsSound, Sound, kept}
use jiade.Bank.Workflow.Soundness.{IsSound-Waits, forward_outcome-Sound}
use jiade.Bank.Workflow.Undoing.{compensation_outcome-Sound}

-- The number of actions in the definition that an instance names.
abbrev pub action_count : Registry → Instance → ℕ
action_count registry i = elim (get registry i.typ i.version) [
  | none ↦ 0
  | some def ↦ length def.actions
]

pub count_of :
    (registry : Registry) (i : Instance) (def : Definition)
    → get registry i.typ i.version ≡ some def
    → action_count registry i ≡ length def.actions
count_of registry i def g = ap (λ o. elim o [ none ↦ 0 | some d ↦ length d.actions ]) g

-- The same facts for the number of actions of a definition that was found.
pub IsSound-for : (n k : ℕ) (i : Instance) → n ≡ k → IsSound n i → IsSound k i
IsSound-for n k i q h = subst (λ m. IsSound m i) q h

pub Ensures-for :
    (n k : ℕ) (i : Instance) (m : M (Unit {0})) (t : Tx)
    → n ≡ k
    → Ensures (Sound k i) m t
    → Ensures (Sound n i) m t
Ensures-for n k i m t q h = subst (λ l. Ensures (Sound l i) m t) (sym q) h

pub eq_action_status-eq : (a b : ActionStatus) → eq_action_status a b ≡ true → a ≡ b
eq_action_status-eq a b h = ground arith

and_last : (a b c d : Bool) → (a && (b && (c && d))) ≡ true → d ≡ true
and_last a b c d h = ground arith

has_status :
    (env : Envelope) (r : ActionRecord) (s : ActionStatus)
    → is_current_result env r s ≡ true
    → r.status ≡ s
has_status env r s h = eq_action_status-eq r.status s (
    and_last (str_eq env.action_name r.name) (str_eq env.command_id r.command_id)
      (contains_str env.message_type r.accepted_result_types) (eq_action_status r.status s) h)

module _ (e : Engine) (env : Envelope) (t : Tx)
    (sound : IsSound (action_count e.registry t.inst) t.inst) where
  apply_forward_result-Sound :
      t.inst.status ≡ running
      → Ensures
          (Sound (action_count e.registry t.inst) t.inst)
          (apply_forward_result e t.inst env)
          t
  unfolding apply_forward_result
  apply_forward_result-Sound st = Ensures-some_or _ _ _ t λ r stored.
      Ensures-require _ _ _ t λ current. Ensures-some_or _ _ _ t λ def found.
        Ensures-some_or _ _ _ t λ action present. Ensures-called _ _ t λ outcome applied.
          let count = count_of e.registry t.inst def found in
          Ensures-for _ _ _ _ t count (
            forward_outcome-Sound e def r env outcome t (
              IsSound-Waits (length def.actions) t.inst r st (IsSound-for _ _ t.inst count sound)
                stored (has_status env r waiting_result current)))

  apply_compensation_result-Sound :
      t.inst.status ≡ InstanceStatus.compensating
      → Ensures
          (Sound (action_count e.registry t.inst) t.inst)
          (apply_compensation_result e t.inst env)
          t
  unfolding apply_compensation_result
  apply_compensation_result-Sound st = Ensures-some_or _ _ _ t λ r stored.
      Ensures-require _ _ _ t λ current. Ensures-some_or _ _ _ t λ def found.
        Ensures-some_or _ _ _ t λ action present. Ensures-called _ _ t λ outcome applied.
          let count = count_of e.registry t.inst def found in
          let i = t.inst in
          let shape : Shape (length def.actions) InstanceStatus.compensating i.current_action
              i.actions =
            subst (λ s. Shape (length def.actions) s i.current_action i.actions) st
              (IsSound-for _ _ t.inst count sound) in
          let top =
            Ladder-top ActionStatus.compensating 0 i.current_action i.actions r shape.1 stored in
          Ensures-for _ _ _ _ t count (
            compensation_outcome-Sound e def r env outcome t st shape.0 shape.1
              (omega (arith, top.0)))

  route_result-Sound :
      (s : InstanceStatus)
      → t.inst.status ≡ s
      → Ensures (Sound (action_count e.registry t.inst) t.inst) (route_result e t.inst env s) t
  unfolding route_result
  route_result-Sound running st = apply_forward_result-Sound st
  route_result-Sound InstanceStatus.compensating st = apply_compensation_result-Sound st
  route_result-Sound _ st = Ensures-raise _ t

-- A result that is applied leaves a sound instance sound, and so does a result that is refused or
-- was applied before: the forward and the compensation path alike, whatever the actions answer.
pub apply_result_tx-Sound :
    (e : Engine) (env : Envelope) (t : Tx)
    → IsSound (action_count e.registry t.inst) t.inst
    → Ensures (Sound (action_count e.registry t.inst) t.inst) (apply_result_tx e env) t
unfolding apply_result_tx
apply_result_tx-Sound e env t sound =
    Ensures-insert_inbox _ _ _ t
      (Ensures-instance_now _ t (Ensures-pure _ t (kept refl refl refl, sound)))
      (Ensures-instance_now _ _ (elim (Bool-cases (str_eq env.workflow_id t.inst.id)) [
        | inl own ↦ rw own (
            route_result-Sound e env (record t { inbox = ("workflow", env.message_id) ∷ t.inbox })
              sound t.inst.status refl)
        | inr other ↦ rw other (Ensures-raise _ _)
      ]))
