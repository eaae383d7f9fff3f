-- ===== src/Bank/Workflow/Lookup.antt =====
-- What the registry lets in, and what it finds again:
-- templates/bank/internal/platform/workflow/registry.go.
use jiade.Prelude.{
  ◌≡◌, refl, String, true, false, none, some, List, [], ◌∷◌, ◌&&◌, str_eq, str_eq_self,
  contains_str, arith,
}
use jiade.Prelude.Int.{ℤ, pos, ltb_ℤ, eqb_ℤ}
use jiade.Bank.Workflow.Types.{Action, Definition}
use jiade.Bank.Workflow.Registry.{Registry, get, check_names, validate_definition, register}

-- The actions have names that are not empty, not seen before and all different.
abbrev pub DistinctNames : List String → List Action → Type 0
DistinctNames seen [] = Unit
DistinctNames seen (a ∷ rest) =
    (str_eq a.name "" ≡ false)
    × (contains_str a.name seen ≡ false)
    × DistinctNames (a.name ∷ seen) rest

check_names_sound :
    (seen : List String) (xs : List Action) → check_names seen xs ≡ none → DistinctNames seen xs
unfolding check_names
check_names_sound seen [] h = tt
check_names_sound seen (a ∷ rest) h =
    (ground arith, ground arith, check_names_sound (a.name ∷ seen) rest (ground arith))

eqb_ℤ_self : (x : ℤ) → eqb_ℤ x x ≡ true
eqb_ℤ_self x = ground arith

module _ (r : Registry) (d : Definition) where
  entered_when :
      (register r d).1 ≡ none
      → (validate_definition d.typ d.version d.actions ≡ none)
        × (get r d.typ d.version ≡ none)
        × (register r d ≡ (d ∷ r, none))
  unfolding register
  entered_when h = (ground arith, ground arith, ground arith)

  valid_parts :
      validate_definition d.typ d.version d.actions ≡ none
      → (str_eq d.typ "" ≡ false)
        × (ltb_ℤ d.version (pos 1) ≡ false)
        × (check_names [] d.actions ≡ none)
  unfolding validate_definition
  valid_parts h = (ground arith, ground arith, ground arith)

  -- A definition that the registry lets in has a type that is not empty, a version of 1 or more
  -- and actions whose names are not empty and all different; it is then found under its type and
  -- version, where nothing was found before.
  pub register_accepts :
      (register r d).1 ≡ none
      → (str_eq d.typ "" ≡ false)
        × (ltb_ℤ d.version (pos 1) ≡ false)
        × DistinctNames [] d.actions
        × (get r d.typ d.version ≡ none)
        × (get (register r d).0 d.typ d.version ≡ some d)
  unfolding get
  register_accepts h =
      let (valid, missing, entered) = entered_when h in
      let (typed, versioned, named) = valid_parts valid in
      rw entered (
        typed,
        versioned,
        check_names_sound [] d.actions named,
        missing,
        rw (str_eq_self d.typ, eqb_ℤ_self d.version, get) refl,
      )

  -- Whether a definition is let in or not, every lookup of another type or version answers as
  -- before.
  pub register_frame :
      (typ : String) (version : ℤ)
      → (str_eq d.typ typ && eqb_ℤ d.version version) ≡ false
      → get (register r d).0 typ version ≡ get r typ version
  unfolding register get
  register_frame typ version other = ground arith
