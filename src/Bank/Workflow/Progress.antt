-- ===== src/Bank/Workflow/Progress.antt =====
-- The calls that the engine does not refuse, and what they achieve:
-- templates/bank/internal/platform/workflow/engine.go.
use jiade.Prelude.{
  ℕ, zero, suc, ◌<◌, ◌≤◌, ◌≡◌, refl, ap, ◌∙◌, true, false, some, List, [], ◌∷◌, ◌++◌, length,
  length-append, get_elem?, str_eq, ltb, leb, ◌==◌, ◌||◌, arith,
}
use jiade.Bank.Workflow.Types.{
  Action, ActionRecord, waiting_result, Instance, InstanceStatus, View, Dispatch, Outcome, Envelope,
  Definition, running, good, eq_action_status, eq_instance_status,
}
use jiade.Bank.Workflow.Tx.{Tx, blank, ok, in_inbox, ◌>>=◌}
use jiade.Bank.Workflow.Registry.{get}
use jiade.Bank.Workflow.Engine.{Engine, now, build_envelope, persist_action_dispatch}
use jiade.Bank.Workflow.Results.{
  is_current_result, forward_outcome, apply_forward_result, route_result, apply_result_tx,
}
use jiade.Bank.Workflow.Resume.{redispatch_tx, redispatch_record, redispatch_action}

-- A result that the current action of a running instance waits for and takes as a success.
pub record Succeeds (e : Engine) (t : Tx) (env : Envelope) (def : Definition) : Type 0 where
  pub current : ActionRecord
  pub action : Action
  pub outcome : Outcome
  pub is_new : in_inbox "workflow" env.message_id t.inbox ≡ false
  pub own : str_eq env.workflow_id t.inst.id ≡ true
  pub status : t.inst.status ≡ running
  pub stored : get_elem? t.inst.actions t.inst.current_action ≡ some current
  pub expected : is_current_result env current waiting_result ≡ true
  pub known : get e.registry t.inst.typ t.inst.version ≡ some def
  pub present : get_elem? def.actions t.inst.current_action ≡ some action
  pub read :
      action.apply_result (record { instance_of = t.inst; action = current }) env ≡ good outcome
  pub success : outcome.is_success ≡ true

-- An action that has a command to send, whatever it is shown.
abbrev pub Answers : Action → Type 0
Answers a = (v : View) → (d : Dispatch) × (a.execute v ≡ good d)

elem-lt : {A : Type 0} (xs : List A) (i : ℕ) (a : A) → get_elem? xs i ≡ some a → i < length xs
elem-lt [] i a h = cc
elem-lt (x ∷ xs) zero a h = omega arith
elem-lt (x ∷ xs) (suc i) a h = omega (arith, elem-lt xs i a h)

-- A command that can be sent is sent.
persist_action_dispatch-sends :
    (e : Engine) (i : Instance) (def : Definition) (a : Action) (t : Tx)
    → get_elem? def.actions i.current_action ≡ some a
    → Answers a
    → ((persist_action_dispatch e i def t).0 ≡ ok tt)
      × ((persist_action_dispatch e i def t).1.inst.status ≡ t.inst.status)
      × ((persist_action_dispatch e i def t).1.inst.current_action ≡ t.inst.current_action)
      × (length (persist_action_dispatch e i def t).1.outbox ≡ suc (length t.outbox))
unfolding persist_action_dispatch ◌>>=◌ build_envelope
persist_action_dispatch-sends e i def a t there answers =
    let view : View = record {
      instance_of = i;
      action = record (blank i.current_action) { name = a.name };
    } in
    rw (there, persist_action_dispatch, (answers view).1)
      (refl, refl, refl, length-append t.outbox _ ∙ omega arith)

module _ (e : Engine) (t : Tx) (env : Envelope) (def : Definition) (h : Succeeds e t env def) where
  taken :
      (t' : Tx)
      → apply_forward_result e t.inst env t'
        ≡ forward_outcome e t.inst def h.current env h.outcome t'
  unfolding ◌>>=◌ apply_forward_result
  taken t' = rw (apply_forward_result, h.stored, h.expected, h.known, h.present, h.read) refl

  routed :
      (s : InstanceStatus)
      → s ≡ running
      → route_result e t.inst env s ≡ apply_forward_result e t.inst env
  unfolding route_result
  routed s q = ap (route_result e t.inst env) q

  accepted :
      apply_result_tx e env t
      ≡ forward_outcome e t.inst def h.current env h.outcome
          (record t { inbox = ("workflow", env.message_id) ∷ t.inbox })
  unfolding apply_result_tx ◌>>=◌
  accepted =
      let t' : Tx = record t { inbox = ("workflow", env.message_id) ∷ t.inbox } in
      let read : apply_result_tx e env t ≡ route_result e t.inst env t.inst.status t' =
        rw (h.is_new, h.own) refl in
      read ∙ ap (λ m. m t') (routed t.inst.status h.status) ∙ taken t'

  -- A result that is taken as the success of the last action ends the instance: the transaction
  -- goes through, the instance has succeeded, and no command is sent.
  pub last_result-succeeds :
      length def.actions ≤ suc t.inst.current_action
      → ((apply_result_tx e env t).0 ≡ ok tt)
        × ((apply_result_tx e env t).1.inst.status ≡ InstanceStatus.succeeded)
        × ((apply_result_tx e env t).1.outbox ≡ t.outbox)
  unfolding ◌>>=◌ forward_outcome
  last_result-succeeds last =
      let no_more : ltb (suc t.inst.current_action) (length def.actions) ≡ false = ground arith in
      rw (accepted, h.success, no_more, forward_outcome) (refl, refl, refl)

  -- A result that is taken as the success of an earlier action moves on to the next one, when that
  -- one has a command to send: the transaction goes through, the instance still runs at the next
  -- index, and one command is added to the outbox.
  pub earlier_result-advances :
      (next : Action)
      → get_elem? def.actions (suc t.inst.current_action) ≡ some next
      → Answers next
      → ((apply_result_tx e env t).0 ≡ ok tt)
        × ((apply_result_tx e env t).1.inst.status ≡ running)
        × ((apply_result_tx e env t).1.inst.current_action ≡ suc t.inst.current_action)
        × (length (apply_result_tx e env t).1.outbox ≡ suc (length t.outbox))
  unfolding ◌>>=◌ forward_outcome
  earlier_result-advances next there answers =
      let inside = elem-lt def.actions _ next there in
      let more : ltb (suc t.inst.current_action) (length def.actions) ≡ true = ground arith in
      let sent = persist_action_dispatch-sends e _ def next _ there answers in
      rw (accepted, h.success, more, forward_outcome) (sent.0, sent.1 ∙ h.status, sent.2, sent.3)

module _ (e : Engine) (t : Tx) (r : ActionRecord) (def : Definition) (a : Action)
    (d : Dispatch) where
  -- A redispatch of a running instance whose current command is overdue sends it again, when the
  -- definition is registered, the action is there and `Execute` answers with a command for what it
  -- is shown: the transaction goes through and adds one envelope to the outbox, with the command id and the
  -- idempotency key of the first one, under the routing key of the new dispatch, and the instance
  -- stays at its action, running, under the lease that it had.
  pub redispatch_tx-resends :
      t.inst.status ≡ running
      → get_elem? t.inst.actions t.inst.current_action ≡ some r
      → r.status ≡ waiting_result
      → 0 < r.deadline_at
      → r.deadline_at < e.clock t.readings
      → get e.registry t.inst.typ t.inst.version ≡ some def
      → get_elem? def.actions t.inst.current_action ≡ some a
      → a.execute (record { instance_of = t.inst; action = r }) ≡ good d
      → ((redispatch_tx e t).0 ≡ ok tt)
        × ((redispatch_tx e t).1.inst.current_action ≡ t.inst.current_action)
        × ((redispatch_tx e t).1.inst.status ≡ running)
        × ((redispatch_tx e t).1.inst.lease_owner ≡ t.inst.lease_owner)
        × ((redispatch_tx e t).1.inst.id ≡ t.inst.id)
        × ((env : Envelope) × ((redispatch_tx e t).1.outbox ≡ t.outbox ++ (env, d.routing_key) ∷ [])
            × (env.workflow_id ≡ t.inst.id)
            × (env.command_id ≡ r.command_id)
            × (env.idempotency_key ≡ r.idempotency_key)
            × (env.payload ≡ d.payload))
  unfolding redispatch_tx redispatch_record redispatch_action ◌>>=◌ build_envelope now
  redispatch_tx-resends st stored waiting due late known present answer =
      let waits : eq_action_status r.status waiting_result ≡ true = rw waiting refl in
      let over : (r.deadline_at == 0 || leb (e.clock t.readings) r.deadline_at) ≡ false =
        ground arith in
      let active : eq_instance_status t.inst.status running ≡ true = rw st refl in
      let again : redispatch_tx e t
          ≡ redispatch_action e t.inst r (e.clock t.readings)
              (record t { readings = suc t.readings }) =
        rw (active, redispatch_tx, stored, redispatch_record, waits, over) refl in
      rw (again, redispatch_action, known, present, answer)
        (refl, refl, st, refl, refl, (_, refl, refl, refl, refl, refl))
