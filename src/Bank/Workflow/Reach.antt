-- ===== src/Bank/Workflow/Reach.antt =====
-- The stores that the engine, the recovery loop and the operators can reach, and what holds of
-- every row of them: templates/bank/internal/platform/workflow.
use mathlib.Core.Path.{subst}
use jiade.Prelude.{
  ℕ, inl, inr, refl, sym, ap, ◌∙◌, String, List, [], ◌∷◌, not, ◌&&◌, Bool-cases, Option-cases,
  str_eq,
}
use jiade.Bank.Workflow.Types.{StartRequest, Envelope}
use jiade.Bank.Workflow.Registry.{get}
use jiade.Bank.Workflow.Engine.{Engine}
use jiade.Bank.Workflow.Resume.{prepare_tx}
use jiade.Bank.Workflow.Store.{
  Store, find_row, create, open_tx, commit, with_instance, claim_runnable, renew_lease,
  release_lease,
}
use jiade.Bank.Workflow.Tx.{Result, ok, err, instance_now}
use jiade.Bank.Workflow.Operations.{
  start, prepare_from, prepare, redispatch, apply_result, retry_compensation, resolve_compensation,
}
use jiade.Prelude.Int.{pos_part}
use jiade.Bank.Workflow.Recovery.{
  RecoveryConfig, after_prepare, process_instance, process_all, run_once, claim_limit,
}
use jiade.Bank.Workflow.Transactions.{apply_result_tx-Sound}
use jiade.Bank.Workflow.Operators.{prepare_tx-Sound, redispatch_tx-Sound}
use jiade.Bank.Workflow.Repairs.{retry_compensation_tx-Sound, resolve_compensation_tx-Sound}
use jiade.Bank.Workflow.Rows.{
  IsSoundRow, AllSound, All-update, update_row_same, claim_rows-All, released-IsSoundRow, same_row,
  with_instance-AllSound,
}

-- One call from outside: by a client, a consumer of results, the recovery loop or an operator.
pub data Step (e : Engine) : Store → Store → Type 0 where
  started : (s : Store) (req : StartRequest) → Step e s (start e req s).1
  prepared : (s : Store) (id : String) → Step e s (prepare e id s).1
  redispatched : (s : Store) (id : String) → Step e s (redispatch e id s).1
  applied : (s : Store) (env : Envelope) → Step e s (apply_result e env s).1
  retried : (s : Store) (id : String) → Step e s (retry_compensation e id s).1
  resolved : (s : Store) (id name : String) → Step e s (resolve_compensation e id name s).1
  claimed :
      (s : Store) (owner : String) (now lease limit : ℕ)
      → Step e s (claim_runnable owner now lease limit s).1
  renewed :
      (s : Store) (id owner : String) (now lease : ℕ)
      → Step e s (renew_lease id owner now lease s).1
  freed : (s : Store) (id owner : String) → Step e s (release_lease id owner s)

pub data Reach (e : Engine) (s : Store) : Store → Type 0 where
  here : Reach e s s
  there : {t u : Store} → Reach e s t → Step e t u → Reach e s u

module _ (e : Engine) where
  start-AllSound :
      (req : StartRequest) (s : Store)
      → AllSound e.registry s
      → AllSound e.registry (start e req s).1
  unfolding start create
  start-AllSound req s sound = elim (Option-cases (get e.registry req.typ req.version)) [
    | inl missing ↦ rw (missing, start) sound
    | inr (def, found) ↦ elim (Option-cases (find_row req.workflow_id s.rows)) [
      | inr (i, taken) ↦ rw (found, taken, start, create) sound
      | inl fresh ↦ rw (found, fresh, start, create) (refl, sound)
    ]
  ]

  prepare-AllSound :
      (id : String) (s : Store) → AllSound e.registry s → AllSound e.registry (prepare e id s).1
  unfolding prepare prepare_from with_instance commit instance_now
  prepare-AllSound id s sound = elim (Option-cases (find_row id s.rows)) [
    | inl missing ↦ rw (missing, prepare, with_instance, prepare_from) sound
    | inr (i, found) ↦
        rw (found, prepare, with_instance, prepare_from)
          (subst (λ t. AllSound e.registry (with_instance id (prepare_tx e i) t).1)
            (sym (ap (λ xs. record s { rows = xs }) (update_row_same id s.rows i found)))
            (with_instance-AllSound e.registry id (prepare_tx e i) s sound
              λ j again h. prepare_tx-Sound e (open_tx j s) i (same_row i j (sym found ∙ again)) h))
  ]

  renew_lease-AllSound :
      (id owner : String) (now lease : ℕ) (s : Store)
      → AllSound e.registry s
      → AllSound e.registry (renew_lease id owner now lease s).1
  unfolding renew_lease
  renew_lease-AllSound id owner now lease s sound = elim (Option-cases (find_row id s.rows)) [
    | inl missing ↦ rw (missing, renew_lease) sound
    | inr (i, found) ↦
        elim (Bool-cases (not (str_eq i.lease_owner "") && str_eq i.lease_owner owner)) [
          | inr other ↦ rw (found, renew_lease, other) sound
          | inl held ↦
              rw (found, renew_lease, held)
                (All-update (IsSoundRow e.registry) id _ s.rows (λ j h. h) sound)
        ]
  ]

  -- No call makes a sound store unsound.
  pub Step-AllSound : {s t : Store} → Step e s t → AllSound e.registry s → AllSound e.registry t
  unfolding redispatch apply_result retry_compensation resolve_compensation claim_runnable
      release_lease
  Step-AllSound (started s req) sound = start-AllSound req s sound
  Step-AllSound (prepared s id) sound = prepare-AllSound id s sound
  Step-AllSound (redispatched s id) sound =
      with_instance-AllSound e.registry id _ s sound
        λ i found h. redispatch_tx-Sound e (open_tx i s) _ h
  Step-AllSound (applied s env) sound =
      with_instance-AllSound e.registry env.workflow_id _ s sound
        λ i found h. apply_result_tx-Sound e env (open_tx i s) h
  Step-AllSound (retried s id) sound =
      with_instance-AllSound e.registry id _ s sound
        λ i found h. retry_compensation_tx-Sound e (open_tx i s) h
  Step-AllSound (resolved s id name) sound =
      with_instance-AllSound e.registry id _ s sound
        λ i found h. resolve_compensation_tx-Sound e (open_tx i s) h name
  Step-AllSound (claimed s owner now lease limit) sound =
      claim_rows-All (IsSoundRow e.registry) owner now _ limit s.rows (λ i h. h) sound
  Step-AllSound (renewed s id owner now lease) sound =
      renew_lease-AllSound id owner now lease s sound
  Step-AllSound (freed s id owner) sound =
      All-update (IsSoundRow e.registry) id _ s.rows
        (λ i h. released-IsSoundRow e.registry owner i h) sound

  -- In every store that calls of the engine, the recovery loop and the operators reach from a store
  -- whose rows are sound, in any order and whatever the actions answer, every row is sound: its
  -- records are those that its status, its current action and its definition allow.
  pub Reach-AllSound : {s t : Store} → Reach e s t → AllSound e.registry s → AllSound e.registry t
  Reach-AllSound here sound = sound
  Reach-AllSound (there r step) sound = Step-AllSound step (Reach-AllSound r sound)

  Reach-trans : {s t u : Store} → Reach e s t → Reach e t u → Reach e s u
  Reach-trans r here = r
  Reach-trans r (there q step) = there (Reach-trans r q) step

  after_prepare-Reach :
      (s : Store) (id : String) (r : Result (Unit {0}) × Store)
      → Reach e s r.1
      → Reach e s (after_prepare e id r)
  after_prepare-Reach s id (err x, t) h = h
  after_prepare-Reach s id (ok done, t) h = there h (redispatched t id)

  process_all-Reach :
      (owner : String) (ids : List String) (s : Store) → Reach e s (process_all e owner ids s)
  unfolding process_all process_instance
  process_all-Reach owner [] s = here
  process_all-Reach owner (id ∷ rest) s =
      let prepared_here = after_prepare-Reach s id (prepare e id s) (there here (prepared s id)) in
      Reach-trans (there prepared_here (freed _ id owner)) (process_all-Reach owner rest _)

  -- A sweep of the recovery loop only reaches what the calls reach, so what holds in every reached
  -- store holds after it.
  pub run_once-Reach : (c : RecoveryConfig) (now : ℕ) (s : Store) → Reach e s (run_once e c now s)
  unfolding run_once
  run_once-Reach c now s =
      let swept = claim_runnable c.owner now (pos_part c.lease) claim_limit s in
      let first : Reach e s swept.1 =
        there here (claimed s c.owner now (pos_part c.lease) claim_limit) in
      Reach-trans first (process_all-Reach c.owner swept.0 swept.1)
