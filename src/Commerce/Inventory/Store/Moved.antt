-- ===== src/Commerce/Inventory/Store/Moved.antt =====
-- What one reservation that is settled by `TransitionOrder` of
-- templates/commerce/internal/inventory/store.go does to the sums.
use jiade.Prelude.{
  ◌≡◌, refl, ap, ◌∙◌, String, true, false, ◌&&◌, List, [], ◌∷◌, str_eq, eq_iff, if◌then◌else◌,
  Bool-cases, inl, inr, arith, All,
}
use jiade.Prelude.Int.{ℤ, pos, ◌+ℤ◌, +ℤ_comm, +ℤ_assoc, zero-+ℤ}
use jiade.Commerce.Inventory.Model.{ReservationState, active, Reservation, eq_state}
use jiade.Commerce.Inventory.Store.Rows.{
  ReservationAllocation, allocation_from_reservation, allocations_of_order, set_state,
  active_with_id,
}
use jiade.Commerce.Inventory.Store.Facts.{same_place, held, DistinctIds}

-- Every row with the id of an allocation has its place and its quantity.
abbrev pub Agrees : ReservationAllocation → List Reservation → Type 0
Agrees a rs =
    All
      (λ r.
        str_eq r.id a.id ≡ true
        → (r.sku ≡ a.sku) × (r.location_id ≡ a.location_id) × (r.quantity ≡ a.quantity))
      rs

pub Agrees-set_state :
    (a : ReservationAllocation) (s : ReservationState) (id : String) (rs : List Reservation)
    → Agrees a rs
    → Agrees a (set_state s id rs)
unfolding set_state
Agrees-set_state a s id [] h = tt
Agrees-set_state a s id (r ∷ rest) h =
    elim (Bool-cases (str_eq r.id id && eq_state r.state active)) [
      | inl e ↦ rw e (h.0, Agrees-set_state a s id rest (h.1))
      | inr e ↦ rw e (h.0, Agrees-set_state a s id rest (h.1))
    ]

ids_away :
    (x s : ReservationState) (id i : String) (rs : List Reservation)
    → All (λ d. str_eq d.id i ≡ false) rs
    → All (λ d. str_eq d.id i ≡ false) (set_state s id rs)
unfolding set_state
ids_away x s id i [] h = tt
ids_away x s id i (r ∷ rest) h = elim (Bool-cases (str_eq r.id id && eq_state r.state active)) [
  | inl e ↦ rw e (h.0, ids_away x s id i rest (h.1))
  | inr e ↦ rw e (h.0, ids_away x s id i rest (h.1))
]

pub DistinctIds-set_state :
    (s : ReservationState) (id : String) (rs : List Reservation)
    → DistinctIds rs
    → DistinctIds (set_state s id rs)
unfolding set_state
DistinctIds-set_state s id [] h = tt
DistinctIds-set_state s id (r ∷ rest) h =
    elim (Bool-cases (str_eq r.id id && eq_state r.state active)) [
      | inl e ↦ rw e (ids_away s s id r.id rest (h.0), DistinctIds-set_state s id rest (h.1))
      | inr e ↦ rw e (ids_away s s id r.id rest (h.0), DistinctIds-set_state s id rest (h.1))
    ]

pub set_state-none :
    (s : ReservationState) (id : String) (rs : List Reservation)
    → active_with_id id rs ≡ 0
    → set_state s id rs ≡ rs
unfolding set_state active_with_id
set_state-none s id [] h = refl
set_state-none s id (r ∷ rest) h = elim (Bool-cases (str_eq r.id id && eq_state r.state active)) [
  | inl e ↦ absurd (ground (arith, (rw e at h)))
  | inr e ↦ rw (e, set_state-none s id rest (rw e at h)) refl
]

-- What one allocation holds at a place.
abbrev pub held_by : String → String → ReservationAllocation → ℤ
held_by s l a = if same_place a.sku a.location_id s l then a.quantity else pos 0

-- The reservation of an allocation no longer holds its part.
pub held-set_state :
    (s l : String) (target : ReservationState) (a : ReservationAllocation) (rs : List Reservation)
    → eq_state target active ≡ false
    → Agrees a rs
    → active_with_id a.id rs ≡ 1
    → held s l (set_state target a.id rs) +ℤ held_by s l a ≡ held s l rs
unfolding set_state active_with_id held
held-set_state s l target a [] g h n = absurd (omega (arith, n))
held-set_state s l target a (r ∷ rest) g h n =
    elim (Bool-cases (str_eq r.id a.id && eq_state r.state active)) [
      | inl e ↦
          let none_left : active_with_id a.id rest ≡ 0 = ground (arith, (rw e at n)) in
          let same = h.0 (ground arith) in
          let is_active : eq_state r.state active ≡ true = ground arith in
          rw (e, set_state-none target a.id rest none_left, g, is_active, same.0, same.1, same.2)
            (ap (λ (z : ℤ). z +ℤ held_by s l a) (zero-+ℤ _) ∙ +ℤ_comm _ _)
      | inr e ↦ rw e (
          +ℤ_assoc _ _ _
          ∙ ap
              (λ (z : ℤ).
                (if eq_state r.state active && same_place r.sku r.location_id s l
                  then r.quantity
                  else pos 0)
                +ℤ z)
              (held-set_state s l target a rest g (h.1) (rw e at n)))
    ]

-- An allocation that was read from the table agrees with it.
Agrees-away :
    (a : ReservationAllocation) (rs : List Reservation)
    → All (λ d. str_eq d.id a.id ≡ false) rs
    → Agrees a rs
Agrees-away a [] h = tt
Agrees-away a (r ∷ rest) h = (λ e. absurd (ground (arith, h.0)), Agrees-away a rest (h.1))

-- All allocations of a list agree.
abbrev pub AllAgree : List ReservationAllocation → List Reservation → Type 0
AllAgree xs rs = All (λ a. Agrees a rs) xs

agree_below :
    (order : String) (r : Reservation) (rs below : List Reservation)
    → All (λ d. str_eq d.id r.id ≡ false) below
    → AllAgree (allocations_of_order order below) rs
    → AllAgree (allocations_of_order order below) (r ∷ rs)
unfolding allocations_of_order allocation_from_reservation
agree_below order r rs [] h a = tt
agree_below order r rs (d ∷ rest) h a = elim (Bool-cases (str_eq d.order_id order)) [
  | inr e ↦ rw e (agree_below order r rs rest (h.1) (rw e at a))
  | inl e ↦
      let a' = rw e at a in
      rw e (
        (λ q. absurd (ground (arith, h.0, eq_iff r.id d.id, eq_iff d.id r.id)), a'.0),
        agree_below order r rs rest (h.1) (a'.1),
      )
]

pub allocations_of_order-AllAgree :
    (order : String) (rs : List Reservation)
    → DistinctIds rs
    → AllAgree (allocations_of_order order rs) rs
unfolding allocations_of_order allocation_from_reservation
allocations_of_order-AllAgree order [] h = tt
allocations_of_order-AllAgree order (r ∷ rest) h =
    let ih = agree_below order r rest rest (h.0) (allocations_of_order-AllAgree order rest (h.1)) in
    elim (Bool-cases (str_eq r.order_id order)) [
      | inr e ↦ rw e ih
      | inl e ↦
          rw e
            ((λ q. (refl, refl, refl), Agrees-away (allocation_from_reservation r) rest (h.0)), ih)
    ]
