-- ===== src/Commerce/Inventory/Store/Kept.antt =====
-- The transactions of templates/commerce/internal/inventory/store.go, one after another, keep the
-- levels and the reservations in agreement.
use jiade.Prelude.{
  ℕ, ◌≡◌, ◌⊎◌, refl, sym, ap, ◌∙◌, subst, String, Option, none, some, List, [], ◌∷◌, ◌++◌,
  if◌then◌else◌, Bool-cases, inl, inr, arith,
}
use jiade.Commerce.Inventory.Model.{ReservationEvent}
use jiade.Commerce.Inventory.Store.Rows.{
  Outcome, ok, err, ReservationAllocation, Tables, Names, allocations_of_order,
  terminal_order_state, ◌>>=◌,
}
use jiade.Commerce.Inventory.Store.Transition.{
  eq_event, inventory_event_type, can_apply_terminal_fence, settle_allocation, settle_all,
  settle_order, closed_order, transition_order,
}
use jiade.Commerce.Inventory.Store.Facts.{first_ok, NoneActive}
use jiade.Commerce.Inventory.Store.Sound.{IsSound}
use jiade.Commerce.Inventory.Store.Places.{Distinct}
use jiade.Commerce.Inventory.Store.Pending.{
  Pending, Pending-NoneActive, allocations_of_order-Pending,
}
use jiade.Commerce.Inventory.Store.Moved.{AllAgree, allocations_of_order-AllAgree}
use jiade.Commerce.Inventory.Store.Agreed.{IsKept}
use jiade.Commerce.Inventory.Store.Rounds.{IsKept-same, settle_allocation-IsKept}

all_agree :
    {event : ReservationEvent} {now : ℕ} {ys : List ReservationAllocation}
    (xs : List ReservationAllocation) (t t' : Tables)
    → IsKept event now ys t t'
    → AllAgree xs t.reservations
    → AllAgree xs t'.reservations
all_agree [] t t' k h = tt
all_agree (a ∷ xs) t t' k h = (k.agreeing a (h.0), all_agree xs t t' k (h.1))

IsKept-on :
    {event : ReservationEvent} {now : ℕ} {a : ReservationAllocation}
    {xs : List ReservationAllocation} {t u v : Tables}
    → IsKept event now (a ∷ []) t u
    → IsKept event now xs u v
    → IsKept event now (a ∷ xs) t v
IsKept-on {xs} a b = record {
  sound = b.sound;
  distinct = b.distinct;
  agreeing = λ x h. b.agreeing x (a.agreeing x h);
  same_terminal = b.same_terminal ∙ a.same_terminal;
  others = λ o h. b.others o (a.others o h);
  pending = λ o later h. b.pending o later (a.pending o (xs ++ later) h);
}

settle_first :
    (names : Names) (event : ReservationEvent) (now : ℕ) (a : ReservationAllocation)
    (xs ys : List ReservationAllocation) (t t' : Tables)
    → IsSound t
    → Distinct t.levels
    → AllAgree (a ∷ xs) t.reservations
    → ((u : Tables) (bs : List ReservationAllocation)
        → IsSound u
        → Distinct u.levels
        → AllAgree xs u.reservations
        → settle_all names event now xs u ≡ ok (t', bs)
        → IsKept event now xs u t')
    → (o : Outcome (Tables × ReservationAllocation)) → settle_allocation names event now a t ≡ o
    → elim o [
      | err e ↦ err e
      | ok (u, a') ↦
          ◌>>=◌ {B = Tables × List ReservationAllocation}
            (settle_all names event now xs u)
            (λ done. ok (done.0, a' ∷ done.1))
    ]
      ≡ ok (t', ys)
    → IsKept event now (a ∷ xs) t t'
settle_first names event now a xs ys t t' h d g ih (err x) q e = absurd (cc)
settle_first names event now a xs ys t t' h d g ih (ok (u, a')) q e =
    let one = settle_allocation-IsKept names event now a a' t u h d (g.0) q in
    let (done, rest, end) = first_ok (settle_all names event now xs u) _ e in
    let same : done.0 ≡ t' = cc in
    IsKept-on one
      (ih u done.1 one.sound one.distinct (all_agree xs t u one (g.1)) (rw (← same) rest))

settle_all-IsKept :
    (names : Names) (event : ReservationEvent) (now : ℕ) (xs ys : List ReservationAllocation)
    (t t' : Tables)
    → IsSound t
    → Distinct t.levels
    → AllAgree xs t.reservations
    → settle_all names event now xs t ≡ ok (t', ys)
    → IsKept event now xs t t'
unfolding settle_all
settle_all-IsKept names event now [] ys t t' h d g e =
    let same : t ≡ t' = cc in
    subst (λ (x : Tables). IsKept event now [] t x) same (IsKept-same t h d (λ o later k. k))
settle_all-IsKept names event now (a ∷ xs) ys t t' h d g e =
    settle_first names event now a xs ys t t' h d g
      (λ u bs h' d' g' q. settle_all-IsKept names event now xs bs u t' h' d' g' q)
      (settle_allocation names event now a t) refl e

-- The tables agree: the levels are valid and hold what the active reservations have, and the
-- primary keys hold.
pub record IsConsistent (t : Tables) : Type 0 where
  pub sound : IsSound t
  pub distinct : Distinct t.levels

settle_order-IsConsistent :
    (names : Names) (order : String) (event : ReservationEvent) (now : ℕ)
    (xs ys : List ReservationAllocation) (t t' : Tables)
    → IsConsistent t
    → AllAgree xs t.reservations
    → Pending event now order (xs ++ []) t.reservations
    → settle_order names order event now xs t ≡ ok (t', ys)
    → IsConsistent t'
      × (t'.terminal ≡ (order, event) ∷ t.terminal)
      × NoneActive order t'.reservations
      × ((o : String) → NoneActive o t.reservations → NoneActive o t'.reservations)
unfolding settle_order
settle_order-IsConsistent names order event now xs ys t t' c g p e =
    let (done, rest, end) = first_ok (settle_all names event now xs _) _ e in
    let kept =
      settle_all-IsKept names event now xs done.1 _ done.0
        (record {
          levels_valid = c.sound.levels_valid;
          levels_held = c.sound.levels_held;
          ids = c.sound.ids;
        })
        c.distinct g rest in
    let same : record done.0 {
      outbox =
          done.0.outbox
          ++ record {
            event_type = inventory_event_type event;
            order_id = order;
            correlation_id = order;
            allocations = done.1;
          }
            ∷ [];
    }
        ≡ t' =
      cc in
    rw (← same) (
      record {
        sound = record {
          levels_valid = kept.sound.levels_valid;
          levels_held = kept.sound.levels_held;
          ids = kept.sound.ids;
        };
        distinct = kept.distinct;
      },
      kept.same_terminal,
      Pending-NoneActive event now order _ (kept.pending order [] p),
      kept.others,
    )

append_none : (xs : List ReservationAllocation) → xs ++ [] ≡ xs
append_none [] = refl
append_none (a ∷ xs) = ap (λ (zs : List ReservationAllocation). a ∷ zs) (append_none xs)

-- A transition of an order changes nothing, or it ends an order that had not ended, and then the
-- order holds nothing.
pub transition_order_cases :
    (names : Names) (order : String) (event : ReservationEvent) (now : ℕ)
    (ys : List ReservationAllocation) (t t' : Tables)
    → IsConsistent t
    → transition_order names order event now t ≡ ok (t', ys)
    → (t ≡ t')
      ⊎ (terminal_order_state order t.terminal ≡ none)
        × IsConsistent t'
        × (t'.terminal ≡ (order, event) ∷ t.terminal)
        × NoneActive order t'.reservations
        × ((o : String) → NoneActive o t.reservations → NoneActive o t'.reservations)
unfolding transition_order
transition_order_cases names order event now ys t t' c e =
    go (terminal_order_state order t.terminal) refl e
  where
    xs : List ReservationAllocation
    xs = allocations_of_order order t.reservations

    first_of :
        {zs : List ReservationAllocation}
        → ◌≡◌ {A = Outcome (Tables × List ReservationAllocation)} (ok (t, zs)) (ok (t', ys))
        → t ≡ t'
    first_of k = cc

    go :
        (o : Option ReservationEvent)
        → terminal_order_state order t.terminal ≡ o
        → elim o [
          | some terminal ↦ closed_order terminal event t xs
          | none ↦
              if can_apply_terminal_fence xs event now
              then settle_order names order event now xs t
              else ok (t, xs)
        ]
          ≡ ok (t', ys)
        → (t ≡ t')
          ⊎ (terminal_order_state order t.terminal ≡ none)
            × IsConsistent t'
            × (t'.terminal ≡ (order, event) ∷ t.terminal)
            × NoneActive order t'.reservations
            × ((o : String) → NoneActive o t.reservations → NoneActive o t'.reservations)
    go (some terminal) q k = elim (Bool-cases (eq_event terminal event)) [
      | inl z ↦ inl (first_of (rw z at k))
      | inr z ↦ absurd (ground (arith, (rw z at k)))
    ]
    go none q k = elim (Bool-cases (can_apply_terminal_fence xs event now)) [
      | inr z ↦ inl (first_of (rw z at k))
      | inl z ↦
          let done =
            settle_order-IsConsistent names order event now xs ys t t' c
              (allocations_of_order-AllAgree order t.reservations c.sound.ids)
              (subst
                (λ (zs : List ReservationAllocation). Pending event now order zs t.reservations)
                (sym (append_none xs))
                (allocations_of_order-Pending event now order t.reservations z))
              (rw z at k) in
          inr (q, done.0, done.1, done.2, done.3)
    ]
