-- ===== src/Commerce/Inventory/Store/Lines.antt =====
-- What `Reserve` of templates/commerce/internal/inventory/store.go allocates, line by line.
use jiade.Prelude.{
  ◌≡◌, refl, sym, ap, ◌∙◌, subst, String, false, ◌==◌, List, [], ◌∷◌, length, str_eq, if◌then◌else◌,
  Bool-cases, inl, inr, arith, All,
}
use jiade.Prelude.Int.{ℤ, pos, ◌+ℤ◌, ◌≤ℤ◌, eqb_ℤ, +ℤ_comm, +ℤ_assoc, zero-+ℤ}
use jiade.Prelude.Int64.{IsInt64}
use jiade.Commerce.Inventory.Store.Rows.{
  insufficient_stock, Outcome, ok, err, LevelRow, Names, candidate_levels, ◌>>=◌,
}
use jiade.Commerce.Inventory.Store.Reserve.{
  ReserveLine, ReserveCommand, Filling, visit_candidates, reserve_line, reserve_lines,
}
use jiade.Commerce.Inventory.Store.Facts.{NoneActive}
use jiade.Commerce.Inventory.Store.Sound.{IsSound}
use jiade.Commerce.Inventory.Store.Places.{Distinct, candidate_levels-Current}
use jiade.Commerce.Inventory.Store.Filled.{part, amount_of, IsFilled}
use jiade.Commerce.Inventory.Store.Visits.{visit_candidates-IsFilled}

enough :
    (o : Outcome Filling) (f' : Filling)
    → ◌>>=◌ {B = Filling} o
        (λ g. if eqb_ℤ g.remaining (pos 0) then ok g else err insufficient_stock)
      ≡ ok f'
    → (o ≡ ok f') × (f'.remaining ≡ pos 0)
enough (err x) f' h = absurd (cc)
enough (ok g) f' h = elim (Bool-cases (eqb_ℤ g.remaining (pos 0))) [
  | inr e ↦ absurd (ground (arith, (rw e at h)))
  | inl e ↦
      let same : ok g ≡ ok f' = rw e at h in
      let same_filling : g ≡ f' = cc in (same, rw (← same_filling) (ground arith))
]

reserve_line-IsFilled :
    (names : Names) (command : ReserveCommand) (line : ReserveLine) (f f' : Filling)
    → reserve_line names command line f ≡ ok f'
    → IsSound f.tables
    → Distinct f.tables.levels
    → pos 0 ≤ℤ line.quantity
    → IsInt64 line.quantity
    → IsFilled command line.sku (record f { remaining = line.quantity }) f' × (f'.remaining ≡ pos 0)
unfolding reserve_line
reserve_line-IsFilled names command line f f' e h d n i =
    let cs : List LevelRow = candidate_levels line.sku f.tables.levels in
    let start : Filling = record f { remaining = line.quantity } in
    let current = candidate_levels-Current line.sku f.tables.levels d in
    elim (Bool-cases (length cs == 0)) [
      | inl z ↦ absurd (ground (arith, (rw z at e)))
      | inr z ↦
          let (same, empty) =
            enough (visit_candidates names command line.sku cs start) f' (rw z at e) in
          (
            visit_candidates-IsFilled names command line.sku cs start f' same h d (current.0)
                (current.1) n i,
            empty,
          )
    ]

-- What the lines ask for of a SKU.
unfoldable pub wanted : String → List ReserveLine → ℤ
wanted s [] = pos 0
wanted s (line ∷ rest) = part line.sku s line.quantity +ℤ wanted s rest

-- Quantities as `Service.Reserve` lets them pass, or 0.
abbrev pub AllCountable : List ReserveLine → Type 0
AllCountable lines = All (λ line. (pos 0 ≤ℤ line.quantity) × IsInt64 line.quantity) lines

pub record AreFilled (command : ReserveCommand) (lines : List ReserveLine) (f f' : Filling)
    : Type 0 where
  pub sound : IsSound f'.tables
  pub distinct : Distinct f'.tables.levels
  pub same_terminal : f'.tables.terminal ≡ f.tables.terminal
  pub others :
      (o : String)
      → str_eq command.order_id o ≡ false
      → NoneActive o f.tables.reservations
      → NoneActive o f'.tables.reservations
  pub amounts :
      (s : String) → amount_of s f'.allocations ≡ amount_of s f.allocations +ℤ wanted s lines

part_zero : (sku s : String) → part sku s (pos 0) ≡ pos 0
part_zero sku s = ground arith

line_amounts :
    (sku s : String) (before after q r : ℤ)
    → r ≡ pos 0
    → after +ℤ part sku s r ≡ before +ℤ part sku s q
    → after ≡ before +ℤ part sku s q
line_amounts sku s before after q r z e =
    let zero_part : part sku s r ≡ pos 0 = rw z (part_zero sku s) in
    sym (+ℤ_comm _ _ ∙ zero-+ℤ _) ∙ (ap (λ (x : ℤ). after +ℤ x) (sym zero_part) ∙ e)

line_first :
    (names : Names) (command : ReserveCommand) (line : ReserveLine) (rest : List ReserveLine)
    (f f' : Filling)
    → IsSound f.tables
    → Distinct f.tables.levels
    → (pos 0 ≤ℤ line.quantity) × IsInt64 line.quantity
    → ((g : Filling)
        → reserve_lines names command rest g ≡ ok f'
        → IsSound g.tables
        → Distinct g.tables.levels
        → AreFilled command rest g f')
    → (o : Outcome Filling) → reserve_line names command line f ≡ o
    → elim o [ err e ↦ err e | ok g ↦ reserve_lines names command rest g ] ≡ ok f'
    → AreFilled command (line ∷ rest) f f'
unfolding wanted
line_first names command line rest f f' h d c ih (err x) q e = absurd (cc)
line_first names command line rest f f' h d c ih (ok g) q e =
    let (one, empty) = reserve_line-IsFilled names command line f g q h d (c.0) (c.1) in
    let more = ih g e one.sound one.distinct in
    record {
      sound = more.sound;
      distinct = more.distinct;
      same_terminal = more.same_terminal ∙ one.same_terminal;
      others = λ o away k. more.others o away (one.others o away k);
      amounts = λ s.
          let first = line_amounts line.sku s _ _ line.quantity g.remaining empty (one.amounts s) in
          more.amounts s ∙ (ap (λ (z : ℤ). z +ℤ wanted s rest) first ∙ +ℤ_assoc _ _ _);
    }

pub reserve_lines-AreFilled :
    (names : Names) (command : ReserveCommand) (lines : List ReserveLine) (f f' : Filling)
    → reserve_lines names command lines f ≡ ok f'
    → IsSound f.tables
    → Distinct f.tables.levels
    → AllCountable lines
    → AreFilled command lines f f'
unfolding reserve_lines wanted
reserve_lines-AreFilled names command [] f f' e h d c =
    let same : f ≡ f' = cc in
    subst (λ (x : Filling). AreFilled command [] f x) same
      (record {
        sound = h;
        distinct = d;
        same_terminal = refl;
        others = λ o away k. k;
        amounts = λ s. sym (+ℤ_comm _ _ ∙ zero-+ℤ _);
      })
reserve_lines-AreFilled names command (line ∷ rest) f f' e h d c =
    line_first names command line rest f f' h d (c.0)
      (λ g q s' d'. reserve_lines-AreFilled names command rest g f' q s' d' (c.1))
      (reserve_line names command line f) refl e
