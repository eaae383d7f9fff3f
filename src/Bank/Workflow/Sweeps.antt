-- ===== src/Bank/Workflow/Sweeps.antt =====
-- What the recovery loop does with an instance that it has claimed:
-- templates/bank/internal/platform/workflow/recovery.go.
use jiade.Prelude.{
  ◌<◌, ◌≡◌, refl, ap, ◌∙◌, String, true, false, some, List, [], ◌∷◌, ◌++◌, get_elem?, str_eq,
  str_eq_self, Bool-cases, inl, inr, arith,
}
use jiade.Bank.Workflow.Types.{
  Action, ActionRecord, waiting_result, Instance, running, Dispatch, Envelope, Definition, good,
}
use jiade.Bank.Workflow.Tx.{M, Tx, Result, ok, err, ◌>>=◌, pure, instance_now}
use jiade.Bank.Workflow.Registry.{get}
use jiade.Bank.Workflow.Engine.{Engine, persist_action_dispatch, build_envelope, now}
use jiade.Bank.Workflow.Resume.{
  prepare_tx, prepared_tx, reject_tx, dispatch_first_tx, redispatch_tx, redispatch_record,
  redispatch_action,
}
use jiade.Bank.Workflow.Store.{
  Store, find_row, update_row, open_tx, commit, with_instance, released, release_lease,
}
use jiade.Bank.Workflow.Operations.{prepare_from, prepare, redispatch}
use jiade.Bank.Workflow.Recovery.{after_prepare, process_instance}
use jiade.Bank.Workflow.Rows.{update_row_same}
use jiade.Bank.Workflow.Progress.{redispatch_tx-resends}

-- The row that was written, by its key.
find_row-update_row :
    (id : String) (f : Instance → Instance) (i : Instance) (xs : List Instance)
    → (f i).id ≡ i.id
    → find_row id xs ≡ some i
    → find_row id (update_row id f xs) ≡ some (f i)
unfolding find_row update_row
find_row-update_row id f i [] q h = cc
find_row-update_row id f i (x ∷ xs) q h = elim (Bool-cases (str_eq x.id id)) [
  | inl e ↦
      let same : some x ≡ some i = rw e at h in
      let same_row : x ≡ i = cc in
      let own : str_eq i.id id ≡ true = rw same_row at e in rw (e, same_row, q, own) refl
  | inr e ↦ rw (e, e) (find_row-update_row id f i xs q (rw e at h))
]

released_row :
    (owner : String) (j : Instance)
    → j.lease_owner ≡ owner
    → str_eq owner "" ≡ false
    → ((released owner j).id ≡ j.id)
      × ((released owner j).status ≡ j.status)
      × ((released owner j).current_action ≡ j.current_action)
      × ((released owner j).lease_owner ≡ "")
released_row owner j held named = rw (held, named, str_eq_self owner) (refl, refl, refl, refl)

-- A transaction that leaves its instance alone leaves the store alone.
with_instance_same :
    {A : Type 0} (id : String) (m : M A) (a : A) (s : Store) (i : Instance)
    → find_row id s.rows ≡ some i
    → m (open_tx i s) ≡ (ok a, open_tx i s)
    → with_instance id m s ≡ (ok a, s)
unfolding with_instance commit
with_instance_same id m a s i found same =
    rw (with_instance, found, same)
      (ap (λ xs. (ok a, record s { rows = xs })) (update_row_same id s.rows i found))

-- What a transaction that goes through leaves of its row.
with_instance_ok :
    (id : String) (m : M (Unit {0})) (s : Store) (i : Instance)
    → find_row id s.rows ≡ some i
    → (m (open_tx i s)).0 ≡ ok tt
    → ((with_instance id m s).1.outbox ≡ (m (open_tx i s)).1.outbox)
      × ((with_instance id m s).1.rows ≡ update_row id (λ j. (m (open_tx i s)).1.inst) s.rows)
unfolding with_instance commit
with_instance_ok id m s i found done = rw (with_instance, found) (go (m (open_tx i s)) done)
  where
    go :
        (r : Result (Unit {0}) × Tx)
        → r.0 ≡ ok tt
        → ((commit id r s).1.outbox ≡ r.1.outbox)
          × ((commit id r s).1.rows ≡ update_row id (λ j. r.1.inst) s.rows)
    go (ok x, t) q = (refl, refl)
    go (err x, t) q = absurd (cc)

prepare_tx_running :
    (e : Engine) (i : Instance) (t : Tx) → i.status ≡ running → prepare_tx e i t ≡ (ok tt, t)
unfolding prepare_tx pure
prepare_tx_running e i t st = rw (prepare_tx, st) refl

module _ (e : Engine) (owner id : String) (s : Store) (i : Instance) where
  -- A preparation leaves a running instance alone.
  prepare_running : find_row id s.rows ≡ some i → i.status ≡ running → prepare e id s ≡ (ok tt, s)
  unfolding prepare prepare_from instance_now
  prepare_running found st =
      ap (prepare_from e id) (with_instance_same id instance_now i s i found refl)
      ∙ with_instance_same id (prepare_tx e i) tt s i found
          (prepare_tx_running e i (open_tx i s) st)

  -- The recovery loop sends the overdue command of a running instance again, when the definition is
  -- registered, the action is there and `Execute` answers with a command: processing the instance
  -- that its owner has claimed adds one envelope to the outbox, with the command id and the
  -- idempotency key of the first one, and leaves the instance running at its action with its lease
  -- released.
  pub process_instance-resends :
      (r : ActionRecord) (def : Definition) (a : Action) (d : Dispatch)
      → find_row id s.rows ≡ some i
      → i.id ≡ id
      → i.lease_owner ≡ owner
      → str_eq owner "" ≡ false
      → i.status ≡ running
      → get_elem? i.actions i.current_action ≡ some r
      → r.status ≡ waiting_result
      → 0 < r.deadline_at
      → r.deadline_at < e.clock s.readings
      → get e.registry i.typ i.version ≡ some def
      → get_elem? def.actions i.current_action ≡ some a
      → a.execute (record { instance_of = i; action = r }) ≡ good d
      → ((j : Instance) × (find_row id (process_instance e owner id s).rows ≡ some j)
          × (j.status ≡ running)
          × (j.current_action ≡ i.current_action)
          × (j.lease_owner ≡ ""))
        × ((env : Envelope) × ((process_instance e owner id s).outbox
              ≡ s.outbox ++ (env, d.routing_key) ∷ [])
            × (env.workflow_id ≡ i.id)
            × (env.command_id ≡ r.command_id)
            × (env.idempotency_key ≡ r.idempotency_key)
            × (env.payload ≡ d.payload))
  unfolding process_instance redispatch release_lease
  process_instance-resends r def a d found key held named st stored waiting due late known present
        answer =
      let (sent, at, on, lease, own, (env, queued, w, command, k, payload)) =
        redispatch_tx-resends e (open_tx i s) r def a d st stored waiting due late known present
          answer in
      let (outbox, rows) = with_instance_ok id (redispatch_tx e) s i found sent in
      let j : Instance = (redispatch_tx e (open_tx i s)).1.inst in
      let written : find_row id (redispatch e id s).1.rows ≡ some j =
        rw rows (find_row-update_row id (λ k. j) i s.rows own found) in
      let freed = released_row owner j (lease ∙ held) named in
      let kept : find_row id (process_instance e owner id s).rows ≡ some (released owner j) =
        ap
          (λ (p : Result (Unit {0}) × Store).
            find_row id (update_row id (released owner) (after_prepare e id p).rows))
          (prepare_running found st)
        ∙ find_row-update_row id (released owner) j (redispatch e id s).1.rows freed.0 written in
      (
        (released owner j, kept, freed.1 ∙ on, freed.2 ∙ at, freed.3),
        (
          env,
          ap (λ (p : Result (Unit {0}) × Store). (after_prepare e id p).outbox)
                (prepare_running found st)
              ∙ outbox
              ∙ queued,
          w,
          command,
          k,
          payload,
        ),
      )

redispatch_tx-id : (e : Engine) (t : Tx) → (redispatch_tx e t).1.inst.id ≡ t.inst.id
unfolding redispatch_tx redispatch_record redispatch_action ◌>>=◌ build_envelope now
redispatch_tx-id e t = ground arith

prepare_tx-id :
    (e : Engine) (header : Instance) (t : Tx) → (prepare_tx e header t).1.inst.id ≡ t.inst.id
unfolding prepare_tx prepared_tx reject_tx dispatch_first_tx persist_action_dispatch ◌>>=◌
    build_envelope now
prepare_tx-id e header t = ground arith
