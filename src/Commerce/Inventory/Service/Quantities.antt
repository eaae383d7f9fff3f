-- ===== src/Commerce/Inventory/Service/Quantities.antt =====
-- The quantities that `Reserve` of templates/commerce/internal/inventory/service.go adds up.
use jiade.Prelude.{
  ◌≡◌, refl, sym, ap, ◌∙◌, String, false, some, List, [], ◌∷◌, str_eq, eq_iff, Bool-cases, inl, inr,
  arith, All,
}
use jiade.Prelude.Int.{ℤ, pos, ◌+ℤ◌, ◌-ℤ◌, ◌≤ℤ◌, ltb_ℤ, leb_ℤ, int_laws, +ℤ_comm, +ℤ_assoc, zero-+ℤ}
use jiade.Prelude.Int64.{max_int64, IsInt64, add64, sub64, wrap64_self}
use jiade.Commerce.Inventory.Store.Reserve.{ReserveLine}
use jiade.Commerce.Inventory.Store.Filled.{part}
use jiade.Commerce.Inventory.Store.Lines.{wanted, AllCountable}
use jiade.Commerce.Inventory.Service.{
  Texts, quantity_of, set_quantity, is_refused, merge_lines, insert_line, sort_lines,
}

-- The quantities are values of int64.
abbrev pub AllInt64 : List ReserveLine → Type 0
AllInt64 lines = All (λ line. IsInt64 line.quantity) lines

-- What a command asks for of a SKU, with no wrap-around.
unfoldable pub asked : Texts → String → List ReserveLine → ℤ
asked texts s [] = pos 0
asked texts s (line ∷ rest) = part (texts.trim line.sku) s line.quantity +ℤ asked texts s rest

quantity_of-bounds :
    (sku : String) (qs : List ReserveLine)
    → AllCountable qs
    → (pos 0 ≤ℤ quantity_of sku qs) × IsInt64 (quantity_of sku qs)
unfolding quantity_of
quantity_of-bounds sku [] c = (ground arith, ground arith)
quantity_of-bounds sku (line ∷ rest) c = elim (Bool-cases (str_eq line.sku sku)) [
  | inl e ↦ rw e (c.0)
  | inr e ↦ rw e (quantity_of-bounds sku rest (c.1))
]

set_quantity-AllCountable :
    (sku : String) (q : ℤ) (qs : List ReserveLine)
    → (pos 0 ≤ℤ q) × IsInt64 q
    → AllCountable qs
    → AllCountable (set_quantity sku q qs)
unfolding set_quantity
set_quantity-AllCountable sku q [] h c = (h, tt)
set_quantity-AllCountable sku q (line ∷ rest) h c = elim (Bool-cases (str_eq line.sku sku)) [
  | inl e ↦ rw e (h, c.1)
  | inr e ↦ rw e (c.0, set_quantity-AllCountable sku q rest h (c.1))
]

part_sum : (sku s : String) (a b : ℤ) → part sku s (a +ℤ b) ≡ part sku s a +ℤ part sku s b
part_sum sku s a b = elim (Bool-cases (str_eq sku s)) [
  | inl e ↦ rw e refl
  | inr e ↦ rw e (sym (zero-+ℤ _))
]

regrouped : (a b c : ℤ) → a +ℤ b +ℤ c ≡ a +ℤ c +ℤ b
regrouped a b c = omega int_laws

wanted-set_quantity :
    (s sku : String) (v q : ℤ) (qs : List ReserveLine)
    → quantity_of sku qs ≡ v
    → wanted s (set_quantity sku (v +ℤ q) qs) ≡ wanted s qs +ℤ part sku s q
unfolding set_quantity quantity_of wanted
wanted-set_quantity s sku v q [] h =
    rw (← h) (ap (λ (z : ℤ). part sku s z +ℤ pos 0) (zero-+ℤ q) ∙ +ℤ_comm _ _)
wanted-set_quantity s sku v q (line ∷ rest) h = elim (Bool-cases (str_eq line.sku sku)) [
  | inl e ↦
      let same : line.sku ≡ sku = (eq_iff line.sku sku).0 e in
      let value : line.quantity ≡ v = rw e at h in
      rw e (rw (← value, part_sum line.sku s line.quantity q, same) (regrouped _ _ _))
  | inr e ↦
      let value : quantity_of sku rest ≡ v = rw e at h in
      rw e (
        ap (λ (z : ℤ). part line.sku s line.quantity +ℤ z)
          (wanted-set_quantity s sku v q rest value)
        ∙ sym (+ℤ_assoc _ _ _))
]

-- A line that is accepted is added with no wrap-around.
accepted_sum :
    (a q : ℤ)
    → IsInt64 q
    → pos 0 ≤ℤ a
    → leb_ℤ q (pos 0) ≡ false
    → ltb_ℤ (sub64 max_int64 q) a ≡ false
    → (add64 a q ≡ a +ℤ q) × (pos 0 ≤ℤ add64 a q) × IsInt64 (add64 a q)
unfolding ◌-ℤ◌ ◌+ℤ◌
accepted_sum a q i n p h =
    let free : sub64 max_int64 q ≡ max_int64 -ℤ q = wrap64_self (max_int64 -ℤ q) (ground arith) in
    let fits : ltb_ℤ (max_int64 -ℤ q) a ≡ false = rw free at h in
    let sum : add64 a q ≡ a +ℤ q = wrap64_self (a +ℤ q) (ground arith) in
    rw sum (refl, ground arith, ground arith)

-- What the loop over the lines has added up.
pub record IsMerged (texts : Texts) (lines before after : List ReserveLine) : Type 0 where
  pub countable : AllCountable after
  pub sums : (s : String) → wanted s after ≡ wanted s before +ℤ asked texts s lines

merge_step :
    (texts : Texts) (line : ReserveLine) (rest before after : List ReserveLine)
    → IsInt64 line.quantity
    → AllCountable before
    → is_refused (texts.trim line.sku) line before ≡ false
    → (AllCountable (
          set_quantity
            (texts.trim line.sku)
            (add64 (quantity_of (texts.trim line.sku) before) line.quantity)
            before)
        → IsMerged texts rest
            (set_quantity
              (texts.trim line.sku)
              (add64 (quantity_of (texts.trim line.sku) before) line.quantity)
              before)
            after)
    → IsMerged texts (line ∷ rest) before after
unfolding asked
merge_step texts line rest before after i c r ih =
    let sku = texts.trim line.sku in
    let (low, range) = quantity_of-bounds sku before c in
    let (sum, low', range') =
      accepted_sum (quantity_of sku before) line.quantity i low (ground (arith, r))
        (ground (arith, r)) in
    let more = ih (set_quantity-AllCountable sku _ before (low', range') c) in
    record {
      countable = more.countable;
      sums = λ s.
          more.sums s
          ∙ (ap (λ (z : ℤ). wanted s (set_quantity sku z before) +ℤ asked texts s rest) sum
              ∙ (ap (λ (z : ℤ). z +ℤ asked texts s rest)
                    (wanted-set_quantity s sku _ line.quantity before refl)
                  ∙ +ℤ_assoc _ _ _));
    }

pub merge_lines-IsMerged :
    (texts : Texts) (lines before after : List ReserveLine)
    → All (λ line. IsInt64 line.quantity) lines
    → AllCountable before
    → merge_lines texts lines before ≡ some after
    → IsMerged texts lines before after
unfolding merge_lines asked
merge_lines-IsMerged texts [] before after i c e =
    let same : before ≡ after = cc in
    record { countable = rw same at c; sums = λ s. rw (← same) (sym (+ℤ_comm _ _ ∙ zero-+ℤ _)) }
merge_lines-IsMerged texts (line ∷ rest) before after i c e =
    elim (Bool-cases (is_refused (texts.trim line.sku) line before)) [
      | inl z ↦ absurd (ground (arith, (rw z at e)))
      | inr z ↦
          merge_step texts line rest before after (i.0) c z
            (λ k. merge_lines-IsMerged texts rest _ after (i.1) k (rw z at e))
    ]

insert_line-AllCountable :
    (texts : Texts) (new : ReserveLine) (lines : List ReserveLine)
    → (pos 0 ≤ℤ new.quantity) × IsInt64 new.quantity
    → AllCountable lines
    → AllCountable (insert_line texts new lines)
unfolding insert_line
insert_line-AllCountable texts new [] h c = (h, tt)
insert_line-AllCountable texts new (line ∷ rest) h c =
    elim (Bool-cases (texts.before new.sku line.sku)) [
      | inl e ↦ rw e (h, c)
      | inr e ↦ rw e (c.0, insert_line-AllCountable texts new rest h (c.1))
    ]

swapped : (a b c : ℤ) → a +ℤ (b +ℤ c) ≡ b +ℤ (a +ℤ c)
swapped a b c = omega int_laws

wanted-insert_line :
    (texts : Texts) (s : String) (new : ReserveLine) (lines : List ReserveLine)
    → wanted s (insert_line texts new lines) ≡ part new.sku s new.quantity +ℤ wanted s lines
unfolding insert_line wanted
wanted-insert_line texts s new [] = refl
wanted-insert_line texts s new (line ∷ rest) = elim (Bool-cases (texts.before new.sku line.sku)) [
  | inl e ↦ rw e refl
  | inr e ↦ rw e (
      ap (λ (z : ℤ). part line.sku s line.quantity +ℤ z) (wanted-insert_line texts s new rest)
      ∙ swapped _ _ _)
]

-- The order of the lines changes nothing.
pub sort_lines-sums :
    (texts : Texts) (lines : List ReserveLine)
    → AllCountable lines
    → AllCountable (sort_lines texts lines)
      × ((s : String) → wanted s (sort_lines texts lines) ≡ wanted s lines)
unfolding sort_lines wanted
sort_lines-sums texts [] c = (tt, λ s. refl)
sort_lines-sums texts (line ∷ rest) c =
    let (countable, sums) = sort_lines-sums texts rest (c.1) in
    (
      insert_line-AllCountable texts line _ (c.0) countable,
      λ s.
          wanted-insert_line texts s line _
          ∙ ap (λ (z : ℤ). part line.sku s line.quantity +ℤ z) (sums s),
    )
