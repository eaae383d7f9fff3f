-- ===== src/Commerce/Inventory/Ledger.antt =====
-- A level together with all the reservations made against it, over any sequence of the operations
-- of templates/commerce/internal/inventory/model.go: what the counters mean.
use jiade.Prelude.{
  ℕ, zero, suc, ◌≡◌, sym, ap, ◌∙◌, inl, inr, Option-cases, none, some, List, [], ◌∷◌, get_elem?,
  set, set_same, if◌then◌else◌, arith,
}
use jiade.Prelude.Int.{
  ℤ, pos, ◌+ℤ◌, int_laws, +ℤ_comm, +ℤ_assoc, zero-+ℤ, -ℤ_zero, exchange, regroup,
}
use jiade.Commerce.Inventory.Model.{
  Level, Reservation, ReservationState, ReservationEvent, active, committed, eq_state,
  reservation_target, reserve, apply_reservation_effect,
}
use jiade.Commerce.Inventory.Levels.{
  IsValid, CanReserve, Takes, consumed, reserve_iff, reserve_accepts, effect_cases,
  effect_of_active, reserve-IsValid, apply_reservation_effect-IsValid,
}

pub record Book : Type 0 where
  pub level : Level
  pub holds : List Reservation

-- The sum of the quantities that stand in a state.
unfoldable pub weight : ReservationState → Reservation → ℤ
weight s r = if eq_state r.state s then r.quantity else pos 0

unfoldable pub total : ReservationState → List Reservation → ℤ
unfolding weight
total s [] = pos 0
total s (r ∷ rs) = weight s r +ℤ total s rs

-- A new reservation is placed, or an event meets one that was placed before.
pub data Step (b : Book) : Book → Type 0 where
  place :
      (r : Reservation)
      → (reserve b.level r).2 ≡ none
      → Step b (record { level = (reserve b.level r).0; holds = (reserve b.level r).1 ∷ b.holds })
  settle :
      (i : ℕ) (r : Reservation) (event : ReservationEvent)
      → get_elem? b.holds i ≡ some r
      → Step b (record {
        level = (apply_reservation_effect b.level r event).0;
        holds = set b.holds i (apply_reservation_effect b.level r event).1;
      })

pub data Steps (b : Book) : Book → Type 0 where
  here : Steps b b
  next : {c d : Book} → Steps b c → Step c d → Steps b d

-- The counters say what the reservations say, for a constant amount of stock ever received.
pub record IsBalanced (stock : ℤ) (b : Book) : Type 0 where
  pub valid : IsValid b.level
  pub held : b.level.reserved ≡ total active b.holds
  pub received : b.level.on_hand +ℤ total committed b.holds ≡ stock

total-set :
    (s : ReservationState) (rs : List Reservation) (i : ℕ) (r v : Reservation)
    → get_elem? rs i ≡ some r
    → total s (set rs i v) +ℤ weight s r ≡ total s rs +ℤ weight s v
unfolding total
total-set s [] i r v h = ground arith
total-set s (x ∷ rs) zero r v h = let e : x ≡ r = cc in rw e (omega int_laws)
total-set s (x ∷ rs) (suc i) r v h =
    +ℤ_assoc _ _ _ ∙ ap (λ (z : ℤ). weight s x +ℤ z) (total-set s rs i r v h) ∙ sym (+ℤ_assoc _ _ _)

-- What an event does to the weights of the reservation that it meets.
weight_active : (r : Reservation) → r.state ≡ active → weight active r ≡ r.quantity
unfolding weight
weight_active r h = rw h

weight_active_gone :
    (r : Reservation) (event : ReservationEvent) (target : ReservationState)
    → reservation_target event ≡ some target
    → weight active (record r { state = target }) ≡ pos 0
unfolding weight reservation_target
weight_active_gone r event target h = ground arith

weight_committed :
    (r : Reservation) (event : ReservationEvent) (target : ReservationState)
    → reservation_target event ≡ some target
    → weight committed (record r { state = target }) ≡ consumed event r.quantity
unfolding weight reservation_target
weight_committed r event target h = ground arith

weight_committed_active : (r : Reservation) → r.state ≡ active → weight committed r ≡ pos 0
unfolding weight
weight_committed_active r h = rw h

place-IsBalanced :
    (stock : ℤ) (b : Book) (r : Reservation)
    → IsBalanced stock b
    → CanReserve b.level r
    → IsBalanced stock
        (record { level = (reserve b.level r).0; holds = (reserve b.level r).1 ∷ b.holds })
unfolding total
place-IsBalanced stock b r h c = record {
  valid = reserve-IsValid b.level r h.valid;
  held =
      rw (reserve_accepts b.level r h.valid c) (rw (weight_active r c.held, h.held) (+ℤ_comm _ _));
  received =
      rw (reserve_accepts b.level r h.valid c)
        (rw (weight_committed_active r c.held, zero-+ℤ) h.received);
}

settle-IsBalanced :
    (stock : ℤ) (b : Book) (i : ℕ) (r : Reservation) (event : ReservationEvent)
    (target : ReservationState)
    → IsBalanced stock b
    → get_elem? b.holds i ≡ some r
    → Takes b.level r event
    → reservation_target event ≡ some target
    → IsBalanced stock (record {
      level = (apply_reservation_effect b.level r event).0;
      holds = set b.holds i (apply_reservation_effect b.level r event).1;
    })
settle-IsBalanced stock b i r event target h g t e =
    let done = effect_of_active b.level r event target h.valid t.was_active t.positive t.enough e in
    let moved = λ (s : ReservationState).
      exchange _ _ _ _ (total-set s b.holds i r (record r { state = target }) g) in
    record {
      valid = apply_reservation_effect-IsValid b.level r event h.valid;
      held =
          rw
            (
              done,
              moved active,
              weight_active r t.was_active,
              weight_active_gone r event target e,
              h.held,
            )
            (sym (+ℤ_comm _ _ ∙ zero-+ℤ _));
      received =
          rw
            (
              done,
              moved committed,
              weight_committed_active r t.was_active,
              weight_committed r event target e,
            )
            (regroup _ _ _ _ ∙ -ℤ_zero _ ∙ h.received);
    }

Step-IsBalanced : (stock : ℤ) {b c : Book} → Step b c → IsBalanced stock b → IsBalanced stock c
Step-IsBalanced stock {b} (place r e) h =
    place-IsBalanced stock b r h ((reserve_iff b.level r h.valid).0 e)
Step-IsBalanced stock {b} (settle i r event g) h = elim (effect_cases b.level r event) [
  | inl same ↦ rw (same.0, same.1, set_same _ _ _ g) h
  | inr t ↦ elim (Option-cases (reservation_target event)) [
    | inl unknown ↦ absurd (t.known unknown)
    | inr (target, e) ↦ settle-IsBalanced stock b i r event target h g t e
  ]
]

-- Through any sequence of reservations and events, the level stays valid, what it counts as
-- reserved is the sum of the quantities of the active reservations, and the stock on hand and the
-- quantities of the committed reservations add up to the stock that there was at the start.
pub Steps-IsBalanced :
    (stock : ℤ) {b c : Book} → IsBalanced stock b → Steps b c → IsBalanced stock c
Steps-IsBalanced stock h here = h
Steps-IsBalanced stock h (next steps step) =
    Step-IsBalanced stock step (Steps-IsBalanced stock h steps)
