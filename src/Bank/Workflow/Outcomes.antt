-- ===== src/Bank/Workflow/Outcomes.antt =====
-- What the statuses of an instance promise, and what ends them:
-- templates/bank/internal/platform/workflow/engine.go.
use jiade.Prelude.{
  ℕ, zero, suc, ◌<◌, ◌≡◌, inl, inr, refl, sym, String, true, some, List, [], ◌∷◌, All, take, drop,
  length, get_elem?, arith,
}
use mathlib.Core.Path.{subst}
use jiade.Bank.Workflow.Types.{
  ActionRecord, ActionStatus, waiting_result, failed, Instance, InstanceStatus, Envelope, running,
  rejected,
}
use jiade.Bank.Workflow.Tx.{Tx, raise, ◌>>=◌}
use jiade.Bank.Workflow.Engine.{Engine}
use jiade.Bank.Workflow.Results.{apply_result_tx, route_result}
use jiade.Bank.Workflow.Resume.{
  prepare_tx, prepared_tx, dispatch_first_tx, reject_tx, redispatch_tx,
}
use jiade.Bank.Workflow.Store.{Store, find_row, is_terminal}
use jiade.Bank.Workflow.Ladder.{IsSettled, Ladder, Done, Undone}
use jiade.Bank.Workflow.Invariant.{Shape}
use jiade.Bank.Workflow.Transactions.{action_count}
use jiade.Bank.Workflow.Rows.{IsSoundRow, All-find}
use jiade.Bank.Workflow.Reach.{Reach, Reach-AllSound}

module _ (e : Engine) (t : Tx) where
  route_result-terminal :
      (env : Envelope) (s : InstanceStatus) (t' : Tx)
      → is_terminal s ≡ true
      → (route_result e t.inst env s t').1 ≡ t'
  unfolding route_result raise
  route_result-terminal env InstanceStatus.succeeded t' h = refl
  route_result-terminal env rejected t' h = refl
  route_result-terminal env InstanceStatus.compensated t' h = refl
  route_result-terminal env InstanceStatus.compensation_failed t' h = refl
  route_result-terminal env _ t' h = cc

  apply_result_tx-terminal :
      (env : Envelope)
      → is_terminal t.inst.status ≡ true
      → (apply_result_tx e env t).1.inst ≡ t.inst
  unfolding apply_result_tx ◌>>=◌
  apply_result_tx-terminal env h = ground (
    arith,
    route_result-terminal env t.inst.status
        (record t { inbox = ("workflow", env.message_id) ∷ t.inbox }) h,
  )

  prepare_tx-terminal :
      (header : Instance)
      → is_terminal t.inst.status ≡ true
      → (prepare_tx e header t).1.inst ≡ t.inst
  unfolding prepare_tx prepared_tx dispatch_first_tx reject_tx ◌>>=◌
  prepare_tx-terminal header h = ground arith

  redispatch_tx-terminal : is_terminal t.inst.status ≡ true → (redispatch_tx e t).1.inst ≡ t.inst
  unfolding redispatch_tx ◌>>=◌
  redispatch_tx-terminal h = ground arith

-- An instance that is over stays as it is: whatever result, preparation or redispatch is tried on
-- it, the transaction leaves the instance unchanged.
pub terminal_absorbs :
    (e : Engine) (t : Tx) (env : Envelope) (header : Instance)
    → is_terminal t.inst.status ≡ true
    → ((apply_result_tx e env t).1.inst ≡ t.inst)
      × ((prepare_tx e header t).1.inst ≡ t.inst)
      × ((redispatch_tx e t).1.inst ≡ t.inst)
terminal_absorbs e t env header h = (
  apply_result_tx-terminal e t env h,
  prepare_tx-terminal e t header h,
  redispatch_tx-terminal e t h,
)

Done-All :
    (k : ℕ) (xs : List ActionRecord) → Done k xs → All (λ r. r.status ≡ ActionStatus.succeeded) xs
Done-All k [] h = tt
Done-All k (x ∷ xs) h = (h.1, Done-All (suc k) xs h.2)

Undone-All : (k : ℕ) (xs : List ActionRecord) → Undone k xs → All (λ r. IsSettled r.status) xs
Undone-All k [] h = tt
Undone-All k (x ∷ xs) h = (h.1, Undone-All (suc k) xs h.2)

Ladder-take :
    (s : ActionStatus) (k c : ℕ) (xs : List ActionRecord)
    → Ladder s k c xs
    → All (λ r. r.status ≡ ActionStatus.succeeded) (take c xs)
Ladder-take s k c [] h = absurd h
Ladder-take s k zero (x ∷ xs) h = tt
Ladder-take s k (suc c) (x ∷ xs) h = (h.1, Ladder-take s (suc k) c xs h.2)

Ladder-drop :
    (s : ActionStatus) (k c : ℕ) (xs : List ActionRecord)
    → Ladder s k c xs
    → All (λ r. IsSettled r.status) (drop (suc c) xs)
Ladder-drop s k c [] h = absurd h
Ladder-drop s k zero (x ∷ xs) h = Undone-All (suc k) xs h.2
Ladder-drop s k (suc c) (x ∷ xs) h = Ladder-drop s (suc k) c xs h.2

Ladder-present :
    (s : ActionStatus) (k c : ℕ) (xs : List ActionRecord)
    → Ladder s k c xs
    → (r : ActionRecord) × (get_elem? xs c ≡ some r) × (r.status ≡ s)
Ladder-present s k c [] h = absurd h
Ladder-present s k zero (x ∷ xs) h = (x, refl, h.1)
Ladder-present s k (suc c) (x ∷ xs) h = Ladder-present s (suc k) c xs h.2

module _ (e : Engine) (s : Store) (id : String) (i : Instance) where
  -- The row of a store that was reached from one without rows.
  reached_row :
      (o : Store)
      → o.rows ≡ []
      → Reach e o s
      → find_row id s.rows ≡ some i
      → (st : InstanceStatus) → i.status ≡ st
      → Shape (action_count e.registry i) st i.current_action i.actions
  reached_row o empty r found st q =
      subst (λ x. Shape (action_count e.registry i) x i.current_action i.actions) q
        (All-find (IsSoundRow e.registry) id s.rows i
          (Reach-AllSound e r (subst (All (IsSoundRow e.registry)) (sym empty) tt)) found)

  -- In a store reached from one without rows by calls of the engine, the recovery loop and the
  -- operators, in any order, an instance that succeeded has a record for each action of its
  -- definition, and each of them succeeded.
  pub succeeded_means :
      (o : Store)
      → o.rows ≡ []
      → Reach e o s
      → find_row id s.rows ≡ some i
      → i.status ≡ InstanceStatus.succeeded
      → (length i.actions ≡ action_count e.registry i)
        × All (λ r. r.status ≡ ActionStatus.succeeded) i.actions
  succeeded_means o empty r found q =
      let (len, done) = reached_row o empty r found InstanceStatus.succeeded q in
      (len, Done-All 0 i.actions done)

  -- In a store reached from one without rows by calls of the engine, the recovery loop and the
  -- operators, in any order, an instance that was compensated has no action left to undo: each of
  -- its records failed or was compensated.
  pub compensated_means :
      (o : Store)
      → o.rows ≡ []
      → Reach e o s
      → find_row id s.rows ≡ some i
      → i.status ≡ InstanceStatus.compensated
      → All (λ r. IsSettled r.status) i.actions
  compensated_means o empty r found q =
      Undone-All 0 i.actions (reached_row o empty r found InstanceStatus.compensated q)

  -- In a store reached from one without rows by calls of the engine, the recovery loop and the
  -- operators, in any order, a running instance stands at an action of its definition, has a
  -- record for each action up to it and none above, and all the records before the current one
  -- succeeded.
  pub running_means :
      (o : Store)
      → o.rows ≡ []
      → Reach e o s
      → find_row id s.rows ≡ some i
      → i.status ≡ running
      → (i.current_action < action_count e.registry i)
        × (length i.actions ≡ suc i.current_action)
        × All (λ r. r.status ≡ ActionStatus.succeeded) (take i.current_action i.actions)
  running_means o empty r found q =
      let (lt, len, top) = reached_row o empty r found running q in
      (
        lt,
        len,
        elim top [
          | inl h ↦ Ladder-take waiting_result 0 i.current_action i.actions h
          | inr h ↦ Ladder-take failed 0 i.current_action i.actions h
        ],
      )

  -- In a store reached from one without rows by calls of the engine, the recovery loop and the
  -- operators, in any order, an instance that is compensating has its current record waiting to be
  -- undone, all the records before it succeeded, and each record above it failed or was
  -- compensated: actions are undone from the last one down, with none left out.
  pub compensating_means :
      (o : Store)
      → o.rows ≡ []
      → Reach e o s
      → find_row id s.rows ≡ some i
      → i.status ≡ InstanceStatus.compensating
      → ((r : ActionRecord) × (get_elem? i.actions i.current_action ≡ some r)
          × (r.status ≡ ActionStatus.compensating))
        × All (λ r. r.status ≡ ActionStatus.succeeded) (take i.current_action i.actions)
        × All (λ r. IsSettled r.status) (drop (suc i.current_action) i.actions)
  compensating_means o empty r found q =
      let (len, h) = reached_row o empty r found InstanceStatus.compensating q in
      (
        Ladder-present ActionStatus.compensating 0 i.current_action i.actions h,
        Ladder-take ActionStatus.compensating 0 i.current_action i.actions h,
        Ladder-drop ActionStatus.compensating 0 i.current_action i.actions h,
      )
