-- ===== src/Bank/Workflow/Once.antt =====
-- A message is processed once: `ApplyResult` of
-- templates/bank/internal/platform/workflow/engine.go and the inbox of postgres.go.
use jiade.Prelude.{
  ◌≡◌, ◌≢◌, inl, inr, refl, sym, ap, ◌∙◌, String, true, Bool-cases, Option-cases, none, some, List,
  [], ◌∷◌, str_eq, str_eq_self, arith,
}
use jiade.Bank.Workflow.Types.{Instance, InstanceStatus, Envelope, Error, instance_not_found}
use jiade.Bank.Workflow.Tx.{Tx, Result, ok, err, ◌>>=◌, in_inbox}
use jiade.Bank.Workflow.Store.{Store, find_row, update_row, open_tx, commit, with_instance}
use jiade.Bank.Workflow.Operations.{apply_result}
use jiade.Bank.Workflow.Rows.{update_row_same}
use jiade.Bank.Workflow.Engine.{
  Engine, build_envelope, persist_action_dispatch, persist_compensation_dispatch,
  continue_compensation,
}
use jiade.Bank.Workflow.Results.{
  forward_outcome, apply_forward_result, compensation_outcome, apply_compensation_result,
  route_result, apply_result_tx,
}

module _ (e : Engine) (env : Envelope) where
  -- What a result does to an instance leaves the inbox and the instance's id alone.
  route_result-keeps :
      (s : InstanceStatus) (t : Tx)
      → ((route_result e t.inst env s t).1.inbox ≡ t.inbox)
        × ((route_result e t.inst env s t).1.inst.id ≡ t.inst.id)
  unfolding route_result apply_forward_result apply_compensation_result forward_outcome
      compensation_outcome continue_compensation persist_action_dispatch
      persist_compensation_dispatch ◌>>=◌ build_envelope
  route_result-keeps s t = (ground arith, ground arith)

  -- A result that was read is in the inbox of the transaction.
  apply_result_tx-marks :
      (t : Tx)
      → (in_inbox "workflow" env.message_id (apply_result_tx e env t).1.inbox ≡ true)
        × ((apply_result_tx e env t).1.inst.id ≡ t.inst.id)
  unfolding apply_result_tx ◌>>=◌
  apply_result_tx-marks t = elim (Bool-cases (in_inbox "workflow" env.message_id t.inbox)) [
    | inl seen ↦ rw seen (seen, refl)
    | inr unseen ↦ elim (Bool-cases (str_eq env.workflow_id t.inst.id)) [
      | inl own ↦
          let t' : Tx = record t { inbox = ("workflow", env.message_id) ∷ t.inbox } in
          let keeps = route_result-keeps t.inst.status t' in
          rw (unseen, own) (rw (keeps.0, str_eq_self env.message_id) refl, keeps.1)
      | inr other ↦ rw (unseen, other) (rw (str_eq_self env.message_id) refl, refl)
    ]
  ]

  -- A result that is in the inbox changes nothing.
  apply_result_tx-again :
      (t : Tx)
      → in_inbox "workflow" env.message_id t.inbox ≡ true
      → apply_result_tx e env t ≡ (ok tt, t)
  unfolding apply_result_tx ◌>>=◌
  apply_result_tx-again t seen = rw seen refl

found_again :
    (id : String) (xs : List Instance) (i j : Instance)
    → find_row id xs ≡ some i
    → str_eq j.id id ≡ true
    → find_row id (update_row id (λ k. j) xs) ≡ some j
unfolding find_row update_row
found_again id [] i j g q = cc
found_again id (x ∷ xs) i j g q = ground (arith, found_again id xs i j)

found_id :
    (id : String) (xs : List Instance) (i : Instance)
    → find_row id xs ≡ some i
    → str_eq i.id id ≡ true
unfolding find_row
found_id id [] i g = cc
found_id id (x ∷ xs) i g = ground (arith, found_id id xs i)

not_ok : (x : Error) → err x ≢ ok tt
not_ok x h = cc

module _ (e : Engine) (env : Envelope) where
  committed_again :
      (i : Instance) (r : Result (Unit {0}) × Tx) (s : Store)
      → find_row env.workflow_id s.rows ≡ some i
      → r.0 ≡ ok tt
      → in_inbox "workflow" env.message_id r.1.inbox ≡ true
      → r.1.inst.id ≡ i.id
      → apply_result e env (commit env.workflow_id r s).1 ≡ (ok tt, (commit env.workflow_id r s).1)
  unfolding apply_result with_instance commit
  committed_again i (err x, t) s g done seen same = cc
  committed_again i (ok a, t) s g done seen same =
      let own : str_eq t.inst.id env.workflow_id ≡ true =
        rw same (found_id env.workflow_id s.rows i g) in
      let found = found_again env.workflow_id s.rows i t.inst g own in
      rw (found, apply_result, with_instance)
        (rw (apply_result_tx-again e env t seen) (
          ap
            (λ xs. (
              ok tt,
              record s {
                rows = xs;
                inbox = t.inbox;
                outbox = t.outbox;
                readings = t.readings;
                ids = t.ids;
              },
            ))
            (update_row_same env.workflow_id _ t.inst found)))

  apply_result_missing :
      (s : Store)
      → find_row env.workflow_id s.rows ≡ none
      → apply_result e env s ≡ (err instance_not_found, s)
  unfolding apply_result with_instance
  apply_result_missing s missing = rw (missing, apply_result, with_instance) refl

  apply_result_found :
      (s : Store) (i : Instance)
      → find_row env.workflow_id s.rows ≡ some i
      → apply_result e env s ≡ commit env.workflow_id (apply_result_tx e env (open_tx i s)) s
  unfolding apply_result with_instance
  apply_result_found s i found = rw (found, apply_result, with_instance) refl

  commit_ok :
      (r : Result (Unit {0}) × Tx) (s : Store)
      → (commit env.workflow_id r s).0 ≡ ok tt
      → r.0 ≡ ok tt
  unfolding commit
  commit_ok (ok a, t) s h = refl
  commit_ok (err x, t) s h = h

  -- A result that was applied and is delivered again changes nothing: the second call answers
  -- without an error and leaves the whole store as the first one left it.
  pub apply_result-once :
      (s : Store)
      → (apply_result e env s).0 ≡ ok tt
      → apply_result e env (apply_result e env s).1 ≡ (ok tt, (apply_result e env s).1)
  apply_result-once s done = elim (Option-cases (find_row env.workflow_id s.rows)) [
    | inl missing ↦
        absurd
          (not_ok instance_not_found (sym (ap (λ r. r.0) (apply_result_missing s missing)) ∙ done))
    | inr (i, found) ↦
        let r = apply_result_tx e env (open_tx i s) in
        let first = apply_result_found s i found in
        let (seen, same) = apply_result_tx-marks e env (open_tx i s) in
        rw first
          (committed_again i r s found (commit_ok r s (sym (ap (λ q. q.0) first) ∙ done)) seen same)
  ]
