-- ===== src/Commerce/Inventory/Store/Pending.antt =====
-- The active reservations that `TransitionOrder` of templates/commerce/internal/inventory/store.go
-- has still to settle.
use jiade.Prelude.{
  ℕ, ◌≡◌, refl, sym, subst, String, Bool, true, false, ◌&&◌, ◌||◌, List, [], ◌∷◌, str_eq,
  str_eq_self, eq_iff, if◌then◌else◌, Bool-cases, inl, inr, arith, All,
}
use jiade.Commerce.Inventory.Model.{
  ReservationState, active, ReservationEvent, Reservation, eq_state,
}
use jiade.Commerce.Inventory.Store.Rows.{
  ReservationAllocation, allocation_from_reservation, allocations_of_order, set_state,
}
use jiade.Commerce.Inventory.Store.Transition.{can_apply_terminal_fence, is_due}
use jiade.Commerce.Inventory.Store.Facts.{NoneActive}

-- An allocation with an id that is due stands in a list.
unfoldable pub listed : ReservationEvent → ℕ → String → List ReservationAllocation → Bool
listed event now id [] = false
listed event now id (a ∷ rest) = (str_eq a.id id && is_due a event now) || listed event now id rest

-- Every active reservation of an order is listed.
abbrev pub Pending :
    ReservationEvent → ℕ → String → List ReservationAllocation → List Reservation → Type 0
Pending event now order xs rs =
    All
      (λ r.
        str_eq r.order_id order ≡ true
        → eq_state r.state active ≡ true
        → listed event now r.id xs ≡ true)
      rs

pub Pending-settled :
    (event : ReservationEvent) (now : ℕ) (order : String) (a : ReservationAllocation)
    (xs : List ReservationAllocation) (target : ReservationState) (rs : List Reservation)
    → eq_state target active ≡ false
    → Pending event now order (a ∷ xs) rs
    → Pending event now order xs (set_state target a.id rs)
unfolding set_state listed
Pending-settled event now order a xs target [] g h = tt
Pending-settled event now order a xs target (r ∷ rest) g h =
    elim (Bool-cases (str_eq r.id a.id && eq_state r.state active)) [
      | inl e ↦ rw e (
        (λ o k. absurd (ground (arith, g, k))),
        Pending-settled event now order a xs target rest g (h.1),
      )
      | inr e ↦ rw e (
        (λ o k. ground (arith, h.0 o k, e, k, eq_iff r.id a.id, eq_iff a.id r.id)),
        Pending-settled event now order a xs target rest g (h.1),
      )
    ]

pub Pending-skipped :
    (event : ReservationEvent) (now : ℕ) (order : String) (a : ReservationAllocation)
    (xs : List ReservationAllocation) (rs : List Reservation)
    → is_due a event now ≡ false
    → Pending event now order (a ∷ xs) rs
    → Pending event now order xs rs
unfolding listed
Pending-skipped event now order a xs [] g h = tt
Pending-skipped event now order a xs (r ∷ rest) g h =
    ((λ o k. ground (arith, h.0 o k, g)), Pending-skipped event now order a xs rest g (h.1))

pub Pending-NoneActive :
    (event : ReservationEvent) (now : ℕ) (order : String) (rs : List Reservation)
    → Pending event now order [] rs
    → NoneActive order rs
unfolding listed
Pending-NoneActive event now order [] h = tt
Pending-NoneActive event now order (r ∷ rest) h = (
  (λ o. elim (Bool-cases (eq_state r.state active)) [
    | inl e ↦ absurd (ground (arith, h.0 o e))
    | inr e ↦ e
  ]),
  Pending-NoneActive event now order rest (h.1),
)

pub NoneActive-set_state :
    (o : String) (target : ReservationState) (id : String) (rs : List Reservation)
    → eq_state target active ≡ false
    → NoneActive o rs
    → NoneActive o (set_state target id rs)
unfolding set_state
NoneActive-set_state o target id [] g h = tt
NoneActive-set_state o target id (r ∷ rest) g h =
    elim (Bool-cases (str_eq r.id id && eq_state r.state active)) [
      | inl e ↦ rw e ((λ k. g), NoneActive-set_state o target id rest g (h.1))
      | inr e ↦ rw e (h.0, NoneActive-set_state o target id rest g (h.1))
    ]

fence_head :
    (a : ReservationAllocation) (rest : List ReservationAllocation) (event : ReservationEvent)
    (now : ℕ)
    → can_apply_terminal_fence (a ∷ rest) event now ≡ true
    → (eq_state a.state active ≡ true → is_due a event now ≡ true)
      × (can_apply_terminal_fence rest event now ≡ true)
unfolding can_apply_terminal_fence
fence_head a [] event now h = ((λ k. ground (arith, h, k)), refl)
fence_head a (b ∷ rest) event now h = ((λ k. ground (arith, h, k)), ground (arith, h))

Pending-below :
    (event : ReservationEvent) (now : ℕ) (order : String) (a : ReservationAllocation)
    (xs : List ReservationAllocation) (rs : List Reservation)
    → Pending event now order xs rs
    → Pending event now order (a ∷ xs) rs
unfolding listed
Pending-below event now order a xs [] h = tt
Pending-below event now order a xs (r ∷ rest) h =
    ((λ o k. ground (arith, h.0 o k)), Pending-below event now order a xs rest (h.1))

first_mine :
    (order : String) (r : Reservation) (rest : List Reservation) (b : Bool)
    → str_eq r.order_id order ≡ b
    → allocations_of_order order (r ∷ rest) ≡ (
        if b
        then allocation_from_reservation r ∷ allocations_of_order order rest
        else allocations_of_order order rest)
unfolding allocations_of_order
first_mine order r rest b e = rw e refl

allocation_due :
    (event : ReservationEvent) (now : ℕ) (r : Reservation) (xs : List ReservationAllocation)
    → is_due (allocation_from_reservation r) event now ≡ true
    → listed event now r.id (allocation_from_reservation r ∷ xs) ≡ true
unfolding listed allocation_from_reservation
allocation_due event now r xs d = rw (str_eq_self r.id, d) refl

allocation_state : (r : Reservation) → (allocation_from_reservation r).state ≡ r.state
unfolding allocation_from_reservation
allocation_state r = refl

-- Where the fence lets an event pass, all active reservations of the order are due.
pub allocations_of_order-Pending :
    (event : ReservationEvent) (now : ℕ) (order : String) (rs : List Reservation)
    → can_apply_terminal_fence (allocations_of_order order rs) event now ≡ true
    → Pending event now order (allocations_of_order order rs) rs
allocations_of_order-Pending event now order [] h = tt
allocations_of_order-Pending event now order (r ∷ rest) h =
    go (λ k. allocations_of_order-Pending event now order rest k) (str_eq r.order_id order) refl
      (first_mine order r rest (str_eq r.order_id order) refl) h
  where
    go :
        (can_apply_terminal_fence (allocations_of_order order rest) event now ≡ true
          → Pending event now order (allocations_of_order order rest) rest)
        → (b : Bool) → str_eq r.order_id order ≡ b
        → allocations_of_order order (r ∷ rest) ≡ (
            if b
            then allocation_from_reservation r ∷ allocations_of_order order rest
            else allocations_of_order order rest)
        → can_apply_terminal_fence (allocations_of_order order (r ∷ rest)) event now ≡ true
        → Pending event now order (allocations_of_order order (r ∷ rest)) (r ∷ rest)
    go ih false e q k =
        subst (λ (xs : List ReservationAllocation). Pending event now order xs (r ∷ rest)) (sym q)
          ((λ o. absurd (cc)), ih (rw q at k))
    go ih true e q k =
        let (due, later) =
          fence_head (allocation_from_reservation r) (allocations_of_order order rest) event now
            (rw q at k) in
        subst (λ (xs : List ReservationAllocation). Pending event now order xs (r ∷ rest)) (sym q)
          (
            (λ o a. allocation_due event now r _ (due (rw (allocation_state r) a))),
            Pending-below event now order (allocation_from_reservation r)
                (allocations_of_order order rest) rest (ih later),
          )
