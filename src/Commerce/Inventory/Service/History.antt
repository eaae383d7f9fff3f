-- ===== src/Commerce/Inventory/Service/History.antt =====
-- Calls of the service in templates/commerce/internal/inventory/service.go, one after another.
use jiade.Prelude.{
  ℕ, ◌≡◌, ◌⊎◌, refl, subst, String, not, none, some, List, [], ◌∷◌, str_eq, eq_iff, Bool-cases, inl,
  inr, arith, All,
}
use jiade.Commerce.Inventory.Model.{ReservationEvent}
use jiade.Commerce.Inventory.Model.{ReservationEvent}
use jiade.Commerce.Inventory.Store.Rows.{
  Outcome, ok, err, Tables, Names, terminal_order_state, committed_tables,
}
use jiade.Commerce.Inventory.Store.Reserve.{ReserveCommand, ReservationResult}
use jiade.Commerce.Inventory.Store.Transition.{transition_order}
use jiade.Commerce.Inventory.Store.Facts.{first_ok, NoneActive}
use jiade.Commerce.Inventory.Service.{Texts, service_reserve, is_known, service_transition_order}
use jiade.Commerce.Inventory.Store.Kept.{IsConsistent, transition_order_cases}
use jiade.Commerce.Inventory.Service.Quantities.{AllInt64}
use jiade.Commerce.Inventory.Store.Facts.{first_ok, NoneActive}
use jiade.Commerce.Inventory.Service.Served.{service_reserve-IsServed}

pub data Call : Type 0 where
  reserve_call : ℕ → ReserveCommand → Call
  transition_call : ℕ → String → ReservationEvent → Call

-- The tables after a call: an error rolls its transaction back.
unfoldable pub answer : Texts → Names → Call → Tables → Tables
unfolding service_reserve service_transition_order
answer texts names (reserve_call now command) t =
    committed_tables t (service_reserve texts names now command t)
answer texts names (transition_call now order event) t =
    committed_tables t (service_transition_order texts names now order event t)

unfoldable pub answer_all : Texts → Names → List Call → Tables → Tables
unfolding answer
answer_all texts names [] t = t
answer_all texts names (call ∷ rest) t = answer_all texts names rest (answer texts names call t)

abbrev pub IsTyped : Call → Type 0
IsTyped (reserve_call now command) = AllInt64 command.lines
IsTyped (transition_call now order event) = Unit

-- Orders that have ended hold nothing.
abbrev pub IsEmptied : Tables → Type 0
IsEmptied t =
    (o : String) (e : ReservationEvent)
    → terminal_order_state o t.terminal ≡ some e
    → NoneActive o t.reservations

-- What a call does to tables that agree.
abbrev pub Changes : Tables → Tables → Type 0
Changes t t' =
    IsConsistent t'
    × ((t'.terminal ≡ t.terminal)
        ⊎ (order : String) × (event : ReservationEvent) × (terminal_order_state order t.terminal
            ≡ none)
          × (t'.terminal ≡ (order, event) ∷ t.terminal))
    × (IsEmptied t → IsEmptied t')

IsEmptied-after :
    (order : String) (event : ReservationEvent) (t t' : Tables)
    → t'.terminal ≡ (order, event) ∷ t.terminal
    → NoneActive order t'.reservations
    → ((o : String) → NoneActive o t.reservations → NoneActive o t'.reservations)
    → IsEmptied t
    → IsEmptied t'
unfolding terminal_order_state
IsEmptied-after order event t t' ends emptied others k o x z = elim (Bool-cases (str_eq order o)) [
  | inl e ↦
      let same : order ≡ o = (eq_iff order o).0 e in
      subst (λ (i : String). NoneActive i t'.reservations) same emptied
  | inr e ↦ others o (k o x (rw (ends, e) at z))
]

transition-Changes :
    (texts : Texts) (names : Names) (now : ℕ) (order : String) (event : ReservationEvent)
    (t : Tables)
    → IsConsistent t
    → (o : Outcome (Tables × ReservationResult))
    → service_transition_order texts names now order event t ≡ o
    → Changes t (committed_tables t o)
unfolding service_transition_order
transition-Changes texts names now order event t c (err e) q = (c, inl refl, λ k. k)
transition-Changes texts names now order event t c (ok (t', result)) q =
    elim (Bool-cases (str_eq (texts.trim order) "")) [
      | inl z ↦ absurd (ground (arith, (rw z at q)))
      | inr z ↦ elim (Bool-cases (not (is_known event))) [
        | inl y ↦ absurd (ground (arith, (rw (z, y) at q)))
        | inr y ↦
            let (done, moved, end) =
              first_ok (transition_order names (texts.trim order) event now t) _ (rw (z, y) at q) in
            let same : done.0 ≡ t' = cc in
            elim (transition_order_cases names (texts.trim order) event now done.1 t done.0 c
              moved) [
                | inl kept ↦ (
                  rw (← same, ← kept) c,
                  inl (rw (← same, ← kept) refl),
                  λ k. rw (← same, ← kept) k,
                )
                | inr (unended, c', ends, emptied, others) ↦ (
                  rw same at c',
                  inr (texts.trim order, event, unended, rw (← same) ends),
                  λ k o x z. rw (← same) (
                      IsEmptied-after (texts.trim order) event t done.0 ends emptied others k o x
                        (rw (← same) at z)),
                )
              ]
      ]
    ]

reserve-Changes :
    (texts : Texts) (names : Names) (now : ℕ) (command : ReserveCommand) (t : Tables)
    → IsConsistent t
    → AllInt64 command.lines
    → (o : Outcome (Tables × ReservationResult)) → service_reserve texts names now command t ≡ o
    → Changes t (committed_tables t o)
reserve-Changes texts names now command t c i (err e) q = (c, inl refl, λ k. k)
reserve-Changes texts names now command t c i (ok (t', result)) q =
    let done = service_reserve-IsServed texts names now command result t t' c i q in
    (
      done.consistent,
      inl done.same_terminal,
      λ k o x z. done.others o x (rw done.same_terminal at z) (k o x (rw done.same_terminal at z)),
    )

pub answer-Changes :
    (texts : Texts) (names : Names) (call : Call) (t : Tables)
    → IsConsistent t
    → IsTyped call
    → Changes t (answer texts names call t)
unfolding answer
answer-Changes texts names (reserve_call now command) t c i =
    reserve-Changes texts names now command t c i (service_reserve texts names now command t) refl
answer-Changes texts names (transition_call now order event) t c i =
    transition-Changes texts names now order event t c
      (service_transition_order texts names now order event t) refl

-- Whatever calls of `Reserve` and `TransitionOrder` the service answers, one after another, tables
-- that agree agree still: each level has its reserved stock between 0 and the stock on hand, and
-- reserved is the sum of the quantities of the active reservations at that SKU and location; the
-- places of the levels and the ids of the reservations are distinct. The quantities in the
-- commands are values of int64, and a call that fails is rolled back.
pub answer_all-IsConsistent :
    (texts : Texts) (names : Names) (calls : List Call) (t : Tables)
    → IsConsistent t
    → All IsTyped calls
    → IsConsistent (answer_all texts names calls t)
unfolding answer_all
answer_all-IsConsistent texts names [] t c i = c
answer_all-IsConsistent texts names (call ∷ rest) t c i =
    answer_all-IsConsistent texts names rest (answer texts names call t)
      (answer-Changes texts names call t c (i.0)).0 (i.1)

pub answer_all-IsEmptied :
    (texts : Texts) (names : Names) (calls : List Call) (t : Tables)
    → IsConsistent t
    → All IsTyped calls
    → IsEmptied t
    → IsEmptied (answer_all texts names calls t)
unfolding answer_all
answer_all-IsEmptied texts names [] t c i k = k
answer_all-IsEmptied texts names (call ∷ rest) t c i k =
    let changed = answer-Changes texts names call t c (i.0) in
    answer_all-IsEmptied texts names rest (answer texts names call t) (changed.0) (i.1)
      (changed.2 k)
