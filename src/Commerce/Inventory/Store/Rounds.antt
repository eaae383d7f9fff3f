-- ===== src/Commerce/Inventory/Store/Rounds.antt =====
-- `TransitionOrder` of templates/commerce/internal/inventory/store.go keeps the levels and the
-- reservations in agreement.
use jiade.Prelude.{
  ℕ, ◌≡◌, refl, sym, ap, ◌∙◌, subst, String, true, false, ◌&&◌, ◌==◌, Option, none, some, List, [],
  ◌∷◌, ◌++◌, str_eq, eq_iff, Bool-cases, inl, inr, arith, All,
}
use jiade.Prelude.Int.{ℤ}
use jiade.Commerce.Inventory.Model.{
  Level, ReservationState, active, ReservationEvent, commit, Reservation, eq_state,
}
use jiade.Commerce.Inventory.Levels.{IsValid}
use jiade.Commerce.Inventory.Store.Rows.{
  Outcome, ok, err, LevelRow, ReservationAllocation, Tables, Names, find_level, set_state,
  active_with_id, ◌>>=◌, insert_movement,
}
use jiade.Commerce.Inventory.Store.Transition.{
  eq_event, event_name, apply_reservation_transition, reservation_of_allocation, insert_movements,
  settle_row, found_level, is_due, settle_allocation,
}
use jiade.Commerce.Inventory.Store.Facts.{first_ok, insert_movement_ok, DistinctIds}
use jiade.Commerce.Inventory.Store.Sound.{IsSound}
use jiade.Commerce.Inventory.Store.Places.{Distinct}
use jiade.Commerce.Inventory.Store.Pending.{Pending, Pending-settled, Pending-skipped}
use jiade.Commerce.Inventory.Store.Moved.{Agrees, set_state-none}
use jiade.Commerce.Inventory.Store.Effects.{IsMoved, apply_reservation_transition-IsMoved}
use jiade.Commerce.Inventory.Store.Agreed.{IsKept, settled-IsKept}

insert_movements_ok :
    (names : Names) (r : Reservation) (q : ℤ) (event : ReservationEvent) (t t' : Tables)
    → insert_movements names r q event t ≡ ok t'
    → (t'.levels ≡ t.levels) × (t'.reservations ≡ t.reservations) × (t'.terminal ≡ t.terminal)
unfolding insert_movements
insert_movements_ok names r q event t t' h = elim (Bool-cases (eq_event event commit)) [
  | inl e ↦
      let (mid, first, second) =
        first_ok (insert_movement names r q "adjustment" "commit_release" t) _ (rw e at h) in
      let a = insert_movement_ok names r q "adjustment" "commit_release" t mid first in
      let b = insert_movement_ok names r _ "sale" "commit" mid t' second in
      (b.0 ∙ a.0, b.1 ∙ a.1, b.2 ∙ a.2)
  | inr e ↦ insert_movement_ok names r q "adjustment" (event_name event) t t' (rw e at h)
]

ids_absent :
    (id : String) (rs : List Reservation)
    → All (λ d. str_eq d.id id ≡ false) rs
    → active_with_id id rs ≡ 0
unfolding active_with_id
ids_absent id [] h = refl
ids_absent id (r ∷ rest) h = rw (h.0, ids_absent id rest (h.1)) refl

-- The primary key makes the affected rows one or none.
active_with_id-cases :
    (id : String) (rs : List Reservation)
    → DistinctIds rs
    → (active_with_id id rs == 1) ≡ false
    → active_with_id id rs ≡ 0
unfolding active_with_id
active_with_id-cases id [] h e = refl
active_with_id-cases id (r ∷ rest) h e =
    elim (Bool-cases (str_eq r.id id && eq_state r.state active)) [
      | inl q ↦
          let same : r.id ≡ id = (eq_iff r.id id).0 (ground arith) in
          let gone = ids_absent id rest (rw (← same) (h.0)) in
          absurd (ground (arith, (rw (q, gone) at e)))
      | inr q ↦ rw q (active_with_id-cases id rest (h.1) (rw q at e))
    ]

pub IsKept-same :
    {event : ReservationEvent} {now : ℕ} {xs : List ReservationAllocation} (t : Tables)
    → IsSound t
    → Distinct t.levels
    → ((o : String) (later : List ReservationAllocation)
        → Pending event now o (xs ++ later) t.reservations
        → Pending event now o later t.reservations)
    → IsKept event now xs t t
IsKept-same t h d p = record {
  sound = h;
  distinct = d;
  agreeing = λ b k. k;
  same_terminal = refl;
  others = λ o k. k;
  pending = p;
}

row_written :
    (a a' : ReservationAllocation) (s : ReservationState) (o : Outcome Tables) (t' : Tables)
    → ◌>>=◌ {B = Tables × ReservationAllocation} o (λ t. ok (t, record a { state = s }))
      ≡ ok (t', a')
    → o ≡ ok t'
row_written a a' s (ok t) t' h = cc
row_written a a' s (err e) t' h = absurd (cc)

settle_row-IsKept :
    (names : Names) (a a' : ReservationAllocation) (event : ReservationEvent) (c : LevelRow)
    (next : Level) (r : Reservation) (now : ℕ) (t t' : Tables)
    → IsMoved c.level next (reservation_of_allocation a) r
    → find_level a.sku a.location_id t.levels ≡ some c
    → IsSound t
    → Distinct t.levels
    → Agrees a t.reservations
    → settle_row names a event next r t ≡ ok (t', a')
    → IsKept event now (a ∷ []) t t'
unfolding settle_row
settle_row-IsKept names a a' event c next r now t t' m was h d g e =
    elim (Bool-cases (active_with_id r.id t.reservations == 1)) [
      | inr z ↦
          let none_left = active_with_id-cases r.id t.reservations h.ids z in
          let still = set_state-none r.state r.id t.reservations none_left in
          let written : record t { reservations = set_state r.state r.id t.reservations } ≡ t' =
            first_of (rw z at e) in
          let unchanged : t ≡ t' =
            sym (ap (λ (rs : List Reservation). record t { reservations = rs }) still) ∙ written in
          let same : set_state r.state a.id t.reservations ≡ t.reservations =
            rw m.same_id at still in
          subst (λ (x : Tables). IsKept event now (a ∷ []) t x) unchanged
            (IsKept-same t h d (λ o later k.
              subst (λ (rs : List Reservation). Pending event now o later rs) same
                (Pending-settled event now o a later r.state t.reservations m.left k)))
      | inl z ↦
          let one : active_with_id r.id t.reservations ≡ 1 = ground (arith, z) in
          let done =
            insert_movements_ok names r a.quantity event _ t'
              (row_written a a' r.state _ t' (rw z at e)) in
          settled-IsKept {a = a} {c = c}
            (record {
              next = next;
              target = r.state;
              was = was;
              once = rw m.same_id at one;
              left = m.left;
              taken = m.taken;
              valid = m.valid;
              new_levels = done.0;
              new_reservations =
                  done.1 ∙ ap (λ (i : String). set_state r.state i t.reservations) m.same_id;
              same_terminal = done.2;
            })
            h d g
    ]
  where
    first_of :
        {x : Tables}
        → ◌≡◌ {A = Outcome (Tables × ReservationAllocation)} (ok (x, a)) (ok (t', a'))
        → x ≡ t'
    first_of k = cc

due_state :
    (a : ReservationAllocation) (event : ReservationEvent) (now : ℕ)
    → is_due a event now ≡ true
    → a.state ≡ active
due_state a event now h = ground arith

found_level_ok :
    (o : Option LevelRow) (level : Level)
    → found_level o ≡ ok level
    → (c : LevelRow) × (o ≡ some c) × (c.level ≡ level)
found_level_ok none level h = absurd (cc)
found_level_ok (some c) level h = (c, refl, cc)

pub settle_allocation-IsKept :
    (names : Names) (event : ReservationEvent) (now : ℕ) (a a' : ReservationAllocation)
    (t t' : Tables)
    → IsSound t
    → Distinct t.levels
    → Agrees a t.reservations
    → settle_allocation names event now a t ≡ ok (t', a')
    → IsKept event now (a ∷ []) t t'
unfolding settle_allocation
settle_allocation-IsKept names event now a a' t t' h d g e =
    elim (Bool-cases (is_due a event now)) [
      | inr z ↦
          subst (λ (x : Tables). IsKept event now (a ∷ []) t x) (first_of (rw z at e))
            (IsKept-same t h d
              (λ o later k. Pending-skipped event now o a later t.reservations z k))
      | inl z ↦
          let (level, found, rest) =
            first_ok (found_level (find_level a.sku a.location_id t.levels)) _ (rw z at e) in
          let (moved, changed, written) =
            first_ok (apply_reservation_transition level (reservation_of_allocation a) event) _
              rest in
          let (c, was, same) = found_level_ok _ level found in
          let valid : IsValid level = rw same at (h.levels_valid a.sku a.location_id c was) in
          let m =
            apply_reservation_transition-IsMoved level moved.0 (reservation_of_allocation a) moved.1
              event (due_state a event now z) valid changed in
          settle_row-IsKept names a a' event c moved.0 moved.1 now t t' (rw same m) was h d g
            written
    ]
  where
    first_of :
        {x : Tables}
        → ◌≡◌ {A = Outcome (Tables × ReservationAllocation)} (ok (x, a)) (ok (t', a'))
        → x ≡ t'
    first_of k = cc
