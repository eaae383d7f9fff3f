-- ===== src/Bank/Workflow/Operators.antt =====
-- The transactions that start an instance, send a late command again, and the operator's ways out
-- of a stuck compensation keep an instance sound:
-- templates/bank/internal/platform/workflow/engine.go and admin_ops.go.
use mathlib.Core.Path.{subst}
use jiade.Prelude.{
  ℕ, suc, ◌<◌, ◌≡◌, inl, inr, refl, sym, ap, String, true, false, Bool-cases, Option, none, some,
  [], ◌==◌, ◌||◌, leb, length, get_elem?, arith,
}
use jiade.Bank.Workflow.Types.{
  ActionRecord, waiting_result, Instance, InstanceStatus, running, preparing, Definition, Attempt,
  good, bad, eq_action_status, eq_instance_status,
}
use jiade.Bank.Workflow.Tx.{Tx, ◌>>=◌}
use jiade.Bank.Workflow.Registry.{get}
use jiade.Bank.Workflow.Engine.{Engine, now, build_envelope}
use jiade.Bank.Workflow.Resume.{
  reject_tx, start_running, dispatch_first_tx, prepared_tx, prepare_tx, redispatch_action,
  redispatch_record, redispatch_tx,
}
use jiade.Bank.Workflow.Ensures.{
  Ensures, Ensures-some_or, Ensures-called, Ensures-raise, Ensures-pure, Ensures-instance_now,
  Ensures-then, Ensures-save_instance, Ensures-save_instance_last,
}
use jiade.Bank.Workflow.Ladder.{Done}
use jiade.Bank.Workflow.Invariant.{
  Shape, IsSound, Sound, SameIdentity, kept, persist_action_dispatch-Ensures,
}
use jiade.Bank.Workflow.Soundness.{IsSound-Waits, next-Shape, written-Shape}
use jiade.Bank.Workflow.Transactions.{
  action_count, count_of, IsSound-for, Ensures-for, eq_action_status-eq,
}

pub eq_instance_status-eq : (a b : InstanceStatus) → eq_instance_status a b ≡ true → a ≡ b
eq_instance_status-eq a b h = ground arith

not_zero : (n : ℕ) → (n == 0) ≡ false → 0 < n
not_zero n h = ground arith

-- A preparing instance has no records.
fresh : (n : ℕ) (i : Instance) → i.status ≡ preparing → IsSound n i → i.actions ≡ []
fresh n i st sound = subst (λ s. Shape n s i.current_action i.actions) st sound

module _ (e : Engine) (t : Tx) where
  reject_tx-Sound :
      (n : ℕ) (text : String) → IsSound n t.inst → Ensures (Sound n t.inst) (reject_tx e text) t
  unfolding reject_tx
  reject_tx-Sound n text sound =
      Ensures-instance_now _ t (elim (Bool-cases (eq_instance_status t.inst.status preparing)) [
        | inl first ↦ rw first (
            Ensures-save_instance_last _ t
              (kept refl refl refl, fresh n t.inst (eq_instance_status-eq _ _ first) sound))
        | inr later ↦ rw later (Ensures-pure _ t (kept refl refl refl, sound))
      ])

  start_running-Sound :
      (def : Definition) (prepared : String)
      → t.inst.actions ≡ []
      → 0 < length def.actions
      → Ensures (Sound (length def.actions) t.inst) (start_running e t.inst def prepared) t
  unfolding start_running now
  start_running-Sound def prepared none_yet some_actions = Ensures-then _ _ t _ _ refl (
      Ensures-save_instance _ _ _ (
        persist_action_dispatch-Ensures e _ def _ (Sound (length def.actions) t.inst)
          λ t' r ri rs sends. rw (sends.written) (
            kept refl refl refl,
            next-Shape (length def.actions) 0 _ r some_actions (ap length none_yet)
                (subst (Done 0) (sym none_yet) tt) ri rs,
          )))

  dispatch_first_tx-Sound :
      (def : Definition) (prepared : String)
      → 0 < length def.actions
      → IsSound (length def.actions) t.inst
      → Ensures (Sound (length def.actions) t.inst) (dispatch_first_tx e def prepared) t
  unfolding dispatch_first_tx
  dispatch_first_tx-Sound def prepared some_actions sound =
      Ensures-instance_now _ t (elim (Bool-cases (eq_instance_status t.inst.status preparing)) [
        | inl first ↦ rw first (
            start_running-Sound def prepared
              (fresh _ t.inst (eq_instance_status-eq _ _ first) sound) some_actions)
        | inr later ↦ rw later (Ensures-pure _ t (kept refl refl refl, sound))
      ])

  prepared_tx-Sound :
      (def : Definition) (answer : Attempt String)
      → IsSound (length def.actions) t.inst
      → Ensures (Sound (length def.actions) t.inst) (prepared_tx e def answer) t
  unfolding prepared_tx
  prepared_tx-Sound def (bad text) sound = reject_tx-Sound _ text sound
  prepared_tx-Sound def (good prepared) sound = elim (Bool-cases (length def.actions == 0)) [
    | inl nothing ↦ rw nothing (Ensures-raise _ t)
    | inr some_actions ↦
        rw some_actions (dispatch_first_tx-Sound def prepared (not_zero _ some_actions) sound)
  ]

  -- The preparation of an instance read earlier, whose identity is still the same.
  pub prepare_tx-Sound :
      (header : Instance)
      → SameIdentity header t.inst
      → IsSound (action_count e.registry t.inst) t.inst
      → Ensures (Sound (action_count e.registry t.inst) t.inst) (prepare_tx e header) t
  unfolding prepare_tx
  prepare_tx-Sound header same sound =
      elim (Bool-cases (eq_instance_status header.status preparing)) [
        | inr later ↦ rw (later, prepare_tx) (Ensures-pure _ t (kept refl refl refl, sound))
        | inl first ↦
            rw (first, prepare_tx)
              (Ensures-some_or _ _ _ t λ def found.
                let own : get e.registry t.inst.typ t.inst.version ≡ some def =
                  rw (same.same_typ, same.same_version) found in
                let count = count_of e.registry t.inst def own in
                Ensures-for _ _ _ _ t count (
                  prepared_tx-Sound def (def.prepare header.input)
                    (IsSound-for _ _ t.inst count sound)))
      ]

  -- Only the deadline and the revision change.
  redispatch_action-Sound :
      (r : ActionRecord) (at : ℕ) (n : ℕ)
      → t.inst.status ≡ running
      → get_elem? t.inst.actions t.inst.current_action ≡ some r
      → r.status ≡ waiting_result
      → IsSound n t.inst
      → Ensures (Sound n t.inst) (redispatch_action e t.inst r at) t
  unfolding redispatch_action
  redispatch_action-Sound r at n st stored waiting sound =
      let w = IsSound-Waits n t.inst r st sound stored waiting in
      Ensures-some_or _ _ _ t λ def found. Ensures-some_or _ _ _ t λ action present.
        Ensures-called _ _ t λ dispatch sent.
          unfold ◌>>=◌ build_envelope in
          record {
            after = (
              kept refl refl refl,
              written-Shape n t.inst r _ waiting_result w (λ xs h. inl h) refl waiting,
            );
          }

module _ (e : Engine) (t : Tx) where
  redispatch_record-Sound :
      (n : ℕ) (o : Option ActionRecord)
      → t.inst.status ≡ running
      → get_elem? t.inst.actions t.inst.current_action ≡ o
      → IsSound n t.inst
      → Ensures (Sound n t.inst) (redispatch_record e t.inst o) t
  unfolding redispatch_record now
  redispatch_record-Sound n none st stored sound = Ensures-pure _ t (kept refl refl refl, sound)
  redispatch_record-Sound n (some r) st stored sound =
      elim (Bool-cases (eq_action_status r.status waiting_result)) [
        | inr other ↦ rw other (Ensures-pure _ t (kept refl refl refl, sound))
        | inl waiting ↦ rw waiting (
            Ensures-then _ _ t (record t { readings = suc t.readings }) (e.clock t.readings) refl
              (elim (Bool-cases (r.deadline_at == 0 || leb (e.clock t.readings) r.deadline_at)) [
                | inl early ↦ rw early (Ensures-pure _ _ (kept refl refl refl, sound))
                | inr late ↦ rw late (
                    redispatch_action-Sound e _ r _ n st stored (eq_action_status-eq _ _ waiting)
                      sound)
              ]))
      ]

  pub redispatch_tx-Sound :
      (n : ℕ) → IsSound n t.inst → Ensures (Sound n t.inst) (redispatch_tx e) t
  unfolding redispatch_tx
  redispatch_tx-Sound n sound =
      Ensures-instance_now _ t (elim (Bool-cases (eq_instance_status t.inst.status running)) [
        | inr other ↦ rw other (Ensures-pure _ t (kept refl refl refl, sound))
        | inl active ↦
            rw active (redispatch_record-Sound n _ (eq_instance_status-eq _ _ active) refl sound)
      ])
