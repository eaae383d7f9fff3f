-- ===== src/Bank/Workflow/Tx.antt =====
-- One transaction on one locked instance: the interface `Tx` of
-- templates/bank/internal/platform/workflow/store.go, as its comments state it, with the two
-- sources of values that the engine reads: the clock and the generator of unique ids.
use jiade.Prelude.{
  ℕ, zero, suc, String, Bool, true, false, Option, none, some, List, [], ◌∷◌, ◌++◌, ◌&&◌, ◌||◌,
  str_eq, if◌then◌else◌,
}
use jiade.Bank.Workflow.Types.{
  no_class, Instance, ActionRecord, ActionStatus, Direction, Envelope, Attempt, good, bad, Error,
  action_error,
}

-- `readings` and `ids` count what was read from the clock and from the generator so far.
pub record Tx : Type 0 where
  pub inst : Instance
  pub inbox : List (String × String)
  pub outbox : List (Envelope × String)
  pub readings : ℕ
  pub ids : ℕ

pub data Result (A : Type 0) : Type 0 where
  ok : A → Result A
  err : Error → Result A

-- A step of a transaction. The state comes back after an error too: the store drops it.
abbrev pub M : Type 0 → Type 0
M A = Tx → Result A × Tx

module _ {A : Type 0} where
  unfoldable pub pure : A → M A
  pure a t = (ok a, t)

  unfoldable pub raise : Error → M A
  raise e t = (err e, t)

  unfoldable pub some_or : Option A → Error → M A
  some_or none e t = (err e, t)
  some_or (some a) e t = (ok a, t)

  -- A call of an action's own code; its error is passed on.
  unfoldable pub called : Attempt A → M A
  called (good a) t = (ok a, t)
  called (bad text) t = (err (action_error text), t)

unfoldable pub require : Bool → Error → M (Unit {0})
require test e t = (if test then ok tt else err e, t)

unfoldable pub instance_now : M Instance
instance_now t = (ok t.inst, t)

-- `SaveInstance` writes all but the actions, which `SaveAction` writes.
unfoldable pub save_instance : Instance → M (Unit {0})
save_instance i t = (ok tt, record t { inst = record i { actions = t.inst.actions } })

-- A record that Go has only allocated.
abbrev pub blank : ℕ → ActionRecord
blank k = record {
  index = k;
  name = "";
  status = ActionStatus.unset;
  direction = Direction.unset;
  attempt = 0;
  idempotency_key = "";
  command_id = "";
  result_event_id = "";
  deadline_at = 0;
  output = "";
  last_error_class = no_class;
  last_error = "";
  accepted_result_types = [];
}

-- The upsert of `SaveAction`: it fills the slice up to the index.
unfoldable pub put_at : ℕ → List ActionRecord → ℕ → ActionRecord → List ActionRecord
put_at k [] zero r = r ∷ []
put_at k [] (suc i) r = blank k ∷ put_at (suc k) [] i r
put_at k (x ∷ xs) zero r = r ∷ xs
put_at k (x ∷ xs) (suc i) r = x ∷ put_at (suc k) xs i r

unfoldable pub upsert : List ActionRecord → ActionRecord → List ActionRecord
unfolding put_at
upsert xs r = put_at 0 xs r.index r

unfoldable pub save_action : ActionRecord → M (Unit {0})
save_action r t = (ok tt, record t { inst = record (t.inst) { actions = upsert t.inst.actions r } })

abbrev pub in_inbox : String → String → List (String × String) → Bool
in_inbox consumer id [] = false
in_inbox consumer id ((c, i) ∷ rest) =
    (str_eq c consumer && str_eq i id) || in_inbox consumer id rest

-- `InsertInbox` reports whether the message is new for the consumer.
unfoldable pub insert_inbox : String → Envelope → M Bool
insert_inbox consumer env t =
    if in_inbox consumer env.message_id t.inbox
    then (ok false, t)
    else (ok true, record t { inbox = (consumer, env.message_id) ∷ t.inbox })

unfoldable pub append_outbox : Envelope → String → M (Unit {0})
append_outbox env key t = (ok tt, record t { outbox = t.outbox ++ (env, key) ∷ [] })

abbrev pub continue : {A B : Type 0} → (A → M B) → Result A × Tx → Result B × Tx
continue f (ok a, t) = f a t
continue f (err x, t) = (err x, t)

-- To open this opens all the steps.
infixl 5 ◌>>=◌ ◌>>◌
unfoldable pub ◌>>=◌ : {A B : Type 0} → M A → (A → M B) → M B
unfolding pure raise some_or called require instance_now save_instance save_action insert_inbox
    append_outbox upsert
◌>>=◌ m f t = continue f (m t)

abbrev pub ◌>>◌ : {A B : Type 0} → M A → M B → M B
m >> k = m >>= λ _. k
