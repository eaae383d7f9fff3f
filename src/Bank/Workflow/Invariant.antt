-- ===== src/Bank/Workflow/Invariant.antt =====
-- What holds of an instance of templates/bank/internal/platform/workflow between two transactions,
-- and what each command that the engine sends does to it.
use jiade.Prelude.{
  ℕ, zero, suc, ◌≤◌, ◌<◌, ◌≡◌, ◌⊎◌, refl, ap, ◌∙◌, some, List, [], ◌∷◌, ◌++◌, String, length,
  get_elem?, arith,
}
use jiade.Bank.Workflow.Types.{
  ActionRecord, ActionStatus, waiting_result, failed, Instance, InstanceStatus, preparing, ready,
  running, rejected, Definition, Envelope,
}
use jiade.Bank.Workflow.Tx.{Tx, ◌>>=◌, upsert, put_at}
use jiade.Bank.Workflow.Ensures.{
  Ensures, Ensures-some_or, Ensures-called, Ensures-save_instance, Ensures-save_instance_last,
}
use jiade.Bank.Workflow.Engine.{
  Engine, build_envelope, last_succeeded_before, persist_action_dispatch,
  persist_compensation_dispatch, continue_compensation,
}
use jiade.Bank.Workflow.Ladder.{
  IsSettled, Done, Undone, Ladder, Ladder-put, Ladder-down, Ladder-Undone, last_succeeded_of_Ladder,
  length-put, Ladder-lt-length,
}

-- The records that an instance may have, by its status, its current action and the number of
-- actions of its definition.
abbrev pub Shape : ℕ → InstanceStatus → ℕ → List ActionRecord → Type 0
Shape n preparing c rs = rs ≡ []
Shape n ready c rs = ⊥
Shape n running c rs =
    (c < n) × (length rs ≡ suc c) × (Ladder waiting_result 0 c rs ⊎ Ladder failed 0 c rs)
Shape n InstanceStatus.succeeded c rs = (length rs ≡ n) × Done 0 rs
Shape n rejected c rs = rs ≡ []
Shape n InstanceStatus.compensating c rs = (length rs ≤ n) × Ladder ActionStatus.compensating 0 c rs
Shape n InstanceStatus.compensated c rs = Undone 0 rs
Shape n InstanceStatus.compensation_failed c rs =
    (length rs ≤ n) × Ladder ActionStatus.compensation_failed 0 c rs

abbrev pub IsSound : ℕ → Instance → Type 0
IsSound n i = Shape n i.status i.current_action i.actions

-- A command was sent: its record is written, and one envelope with the record's command and key
-- is in the outbox.
pub record Sends (i : Instance) (r : ActionRecord) (t t' : Tx) : Type 0 where
  pub envelope : Envelope
  pub key : String
  pub written : t'.inst ≡ record (t.inst) { actions = upsert t.inst.actions r }
  pub queued : t'.outbox ≡ t.outbox ++ (envelope, key) ∷ []
  pub same_inbox : t'.inbox ≡ t.inbox
  pub same_workflow : envelope.workflow_id ≡ i.id
  pub same_command : envelope.command_id ≡ r.command_id
  pub same_key : envelope.idempotency_key ≡ r.idempotency_key

-- Sending the command of the current action writes one record, which waits for its result.
pub persist_action_dispatch-Ensures :
    (e : Engine) (i : Instance) (def : Definition) (t : Tx) (P : Unit {0} → Tx → Type 0)
    → ((t' : Tx) (r : ActionRecord)
        → r.index ≡ i.current_action
        → r.status ≡ waiting_result
        → Sends i r t t'
        → P tt t')
    → Ensures P (persist_action_dispatch e i def) t
unfolding persist_action_dispatch
persist_action_dispatch-Ensures e i def t P h = Ensures-some_or _ _ _ t λ action present.
    Ensures-called _ _ t λ dispatch sent.
      unfold ◌>>=◌ build_envelope in
      record {
        after = h _ _ refl refl (record {
          envelope = _;
          key = _;
          written = refl;
          queued = refl;
          same_inbox = refl;
          same_workflow = refl;
          same_command = refl;
          same_key = refl;
        });
      }

-- Sending the command that undoes an action writes one record, which waits to be compensated and
-- keeps the output of the forward pass.
pub persist_compensation_dispatch-Ensures :
    (e : Engine) (i : Instance) (def : Definition) (idx attempt : ℕ) (t : Tx)
    (P : Unit {0} → Tx → Type 0)
    → ((t' : Tx) (old r : ActionRecord)
        → get_elem? i.actions idx ≡ some old
        → r.index ≡ idx
        → r.status ≡ ActionStatus.compensating
        → r.attempt ≡ attempt
        → r.output ≡ old.output
        → Sends i r t t'
        → P tt t')
    → Ensures P (persist_compensation_dispatch e i def idx attempt) t
unfolding persist_compensation_dispatch
persist_compensation_dispatch-Ensures e i def idx attempt t P h =
    Ensures-some_or _ _ _ t λ action present. Ensures-some_or _ _ _ t λ old stored.
      Ensures-called _ _ t λ dispatch sent.
        unfold ◌>>=◌ build_envelope in
        record {
          after = h _ old _ stored refl refl refl refl (record {
            envelope = _;
            key = _;
            written = refl;
            queued = refl;
            same_inbox = refl;
            same_workflow = refl;
            same_command = refl;
            same_key = refl;
          });
        }

pub upsert-put :
    {c : ℕ} (xs : List ActionRecord) (r : ActionRecord)
    → r.index ≡ c
    → upsert xs r ≡ put_at 0 xs c r
unfolding upsert
upsert-put xs r i = ap (λ k. put_at 0 xs k r) i

-- The parts of an instance that no transaction changes.
pub record SameIdentity (i j : Instance) : Type 0 where
  pub same_id : j.id ≡ i.id
  pub same_typ : j.typ ≡ i.typ
  pub same_version : j.version ≡ i.version

pub kept : {i j : Instance} → j.id ≡ i.id → j.typ ≡ i.typ → j.version ≡ i.version → SameIdentity i j
kept a b c = record { same_id = a; same_typ = b; same_version = c }

-- The transaction leaves a sound instance, with the identity of `i`.
abbrev pub Sound : ℕ → Instance → Unit {0} → Tx → Type 0
Sound n i _ t = SameIdentity i t.inst × IsSound n t.inst

module _ (e : Engine) (n : ℕ) where
  pub upsert-Ladder :
      (s s' : ActionStatus) (c : ℕ) (xs : List ActionRecord) (r : ActionRecord)
      → Ladder s 0 c xs
      → r.index ≡ c
      → r.status ≡ s'
      → length xs ≤ n
      → (length (upsert xs r) ≤ n) × Ladder s' 0 c (upsert xs r)
  upsert-Ladder s s' c xs r h i st l = rw (upsert-put xs r i) (
    rw (length-put 0 xs c r (Ladder-lt-length s 0 c xs h)) l,
    Ladder-put s s' 0 c xs r h (omega arith) st,
  )

  -- Undoing an action below a record that is no success.
  pub undo_below :
      (i₀ i : Instance) (def : Definition) (c attempt : ℕ) (t : Tx)
      → SameIdentity i₀ t.inst
      → t.inst.status ≡ InstanceStatus.compensating
      → t.inst.current_action ≡ c
      → length t.inst.actions ≤ n
      → (s : ActionStatus) → Ladder s 0 c t.inst.actions
      → Ensures (Sound n i₀) (persist_compensation_dispatch e i def c attempt) t
  undo_below i₀ i def c attempt t id st at l s h =
      persist_compensation_dispatch-Ensures e i def c attempt t (Sound n i₀)
        λ t' old r stored ri rs ra ro sends.
          rw (sends.written, st, at)
            (
              kept id.same_id id.same_typ id.same_version,
              upsert-Ladder s ActionStatus.compensating c t.inst.actions r h ri rs l,
            )

  -- The walk goes on below a record that is no success: to the success right below, or to the end.
  pub continue_compensation-Ensures :
      (i₀ i : Instance) (def : Definition) (s : ActionStatus) (c : ℕ) (t : Tx)
      → SameIdentity i₀ i
      → IsSettled s
      → Ladder s 0 c t.inst.actions
      → length t.inst.actions ≤ n
      → i.actions ≡ t.inst.actions
      → Ensures (Sound n i₀) (continue_compensation e i def c) t
  unfolding continue_compensation
  continue_compensation-Ensures i₀ i def s zero t id ne h l same =
      Ensures-save_instance_last _ t
        (kept id.same_id id.same_typ id.same_version, Ladder-Undone s 0 t.inst.actions ne h)
  continue_compensation-Ensures i₀ i def s (suc c) t id ne h l same =
      let down = Ladder-down s 0 c t.inst.actions ne h in
      let found =
        ap (λ xs. last_succeeded_before xs (suc c)) same
        ∙ last_succeeded_of_Ladder 0 c t.inst.actions down in
      rw (found, continue_compensation)
        (Ensures-save_instance _ _ t (
          undo_below i₀ _ def c 1 _ (kept id.same_id id.same_typ id.same_version) refl refl l
            ActionStatus.succeeded down))
