-- ===== src/Bank/Workflow/Ensures.antt =====
-- What a step of a transaction ensures when it succeeds, with a rule for each way to build a step.
-- A step that fails is rolled back, so nothing is asked of it.
use mathlib.Core.Path.{subst}
use jiade.Prelude.{
  String, ◌∷◌, inl, inr, Bool-cases, sym, ap, ◌≡◌, refl, Bool, true, false, Option, none, some,
  if◌then◌else◌,
}
use jiade.Bank.Workflow.Types.{Instance, ActionRecord, Envelope, Error, Attempt, good, bad}
use jiade.Bank.Workflow.Tx.{
  Tx, Result, ok, err, M, continue, ◌>>=◌, ◌>>◌, pure, raise, some_or, called, require,
  instance_now, insert_inbox, in_inbox, save_instance, save_action, upsert,
}

abbrev pub After : {A : Type 0} → (A → Tx → Type 0) → Result A × Tx → Type 0
After P (ok a, t) = P a t
After P (err x, t) = Unit

pub record Ensures {A : Type 0} (P : A → Tx → Type 0) (m : M A) (t : Tx) : Type 0 where
  pub after : After P (m t)

module _ {B : Type 0} {P : B → Tx → Type 0} where
  pub Ensures-raise : (x : Error) (t : Tx) → Ensures P (raise x) t
  unfolding raise
  Ensures-raise x t = record { after = tt }

  pub Ensures-pure : (b : B) (t : Tx) → P b t → Ensures P (pure b) t
  unfolding pure
  Ensures-pure b t h = record { after = h }

  pub Ensures-if :
      (c : Bool) (m n : M B) (t : Tx)
      → (c ≡ true → Ensures P m t)
      → (c ≡ false → Ensures P n t)
      → Ensures P (if c then m else n) t
  Ensures-if true m n t hm hn = hm refl
  Ensures-if false m n t hm hn = hn refl

  pub Ensures-require :
      (c : Bool) (x : Error) (k : M B) (t : Tx)
      → (c ≡ true → Ensures P k t)
      → Ensures P (require c x >> k) t
  unfolding ◌>>=◌
  Ensures-require true x k t h = record { after = (h refl).after }
  Ensures-require false x k t h = record { after = tt }

module _ {A B : Type 0} {P : B → Tx → Type 0} where
  pub Ensures-some_or :
      (o : Option A) (x : Error) (f : A → M B) (t : Tx)
      → ((a : A) → o ≡ some a → Ensures P (f a) t)
      → Ensures P (some_or o x >>= f) t
  unfolding ◌>>=◌
  Ensures-some_or none x f t h = record { after = tt }
  Ensures-some_or (some a) x f t h = record { after = (h a refl).after }

  pub Ensures-called :
      (o : Attempt A) (f : A → M B) (t : Tx)
      → ((a : A) → o ≡ good a → Ensures P (f a) t)
      → Ensures P (called o >>= f) t
  unfolding ◌>>=◌
  Ensures-called (good a) f t h = record { after = (h a refl).after }
  Ensures-called (bad text) f t h = record { after = tt }

  -- A step that cannot fail.
  pub Ensures-then :
      (m : M A) (f : A → M B) (t t' : Tx) (a : A)
      → m t ≡ (ok a, t')
      → Ensures P (f a) t'
      → Ensures P (m >>= f) t
  unfolding ◌>>=◌
  Ensures-then m f t t' a e h = record { after = subst (After P) (sym (ap (continue f) e)) h.after }

module _ {B : Type 0} {P : B → Tx → Type 0} where
  pub Ensures-save_instance :
      (i : Instance) (k : M B) (t : Tx)
      → Ensures P k (record t { inst = record i { actions = t.inst.actions } })
      → Ensures P (save_instance i >> k) t
  unfolding ◌>>=◌
  Ensures-save_instance i k t h = record { after = h.after }

  pub Ensures-save_action :
      (r : ActionRecord) (k : M B) (t : Tx)
      → Ensures P k (record t { inst = record (t.inst) { actions = upsert t.inst.actions r } })
      → Ensures P (save_action r >> k) t
  unfolding ◌>>=◌
  Ensures-save_action r k t h = record { after = h.after }

  pub Ensures-instance_now :
      (f : Instance → M B) (t : Tx) → Ensures P (f t.inst) t → Ensures P (instance_now >>= f) t
  unfolding ◌>>=◌
  Ensures-instance_now f t h = record { after = h.after }

-- The same for a step that ends with the write.
module _ {P : Unit {0} → Tx → Type 0} where
  pub Ensures-save_instance_last :
      (i : Instance) (t : Tx)
      → P tt (record t { inst = record i { actions = t.inst.actions } })
      → Ensures P (save_instance i) t
  unfolding save_instance
  Ensures-save_instance_last i t h = record { after = h }

module _ {B : Type 0} {P : B → Tx → Type 0} where
  pub Ensures-insert_inbox :
      (consumer : String) (env : Envelope) (f : Bool → M B) (t : Tx)
      → Ensures P (f false) t
      → Ensures P (f true) (record t { inbox = (consumer, env.message_id) ∷ t.inbox })
      → Ensures P (insert_inbox consumer env >>= f) t
  unfolding ◌>>=◌
  Ensures-insert_inbox consumer env f t old new =
      elim (Bool-cases (in_inbox consumer env.message_id t.inbox)) [
        | inl seen ↦ record { after = rw seen old.after }
        | inr unseen ↦ record { after = rw unseen new.after }
      ]
