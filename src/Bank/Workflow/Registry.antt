-- ===== src/Bank/Workflow/Registry.antt =====
-- The registry of definitions: templates/bank/internal/platform/workflow/registry.go. The two maps,
-- by type and by version, are one list of definitions; the mutex only makes each call atomic.
use jiade.Prelude.{
  String, Option, none, some, List, [], ◌∷◌, ◌&&◌, contains_str, str_eq, if◌then◌else◌,
}
use jiade.Prelude.Int.{ℤ, pos, ltb_ℤ, eqb_ℤ}
use jiade.Bank.Workflow.Types.{Action, Definition}

pub data RegistryError : Type 0 where
  empty_workflow_type invalid_version empty_action_name : RegistryError
  duplicate_action_name duplicate_definition : RegistryError

abbrev pub Registry : Type 0
Registry = List Definition

unfoldable pub get : Registry → String → ℤ → Option Definition
get [] typ version = none
get (d ∷ ds) typ version =
    if str_eq d.typ typ && eqb_ℤ d.version version then some d else get ds typ version

-- The loop of `validateDefinition` over the actions, with the names seen so far.
unfoldable pub check_names : List String → List Action → Option RegistryError
check_names seen [] = none
check_names seen (a ∷ rest) =
    let later = check_names (a.name ∷ seen) rest in
    if str_eq a.name ""
    then some empty_action_name
    else if contains_str a.name seen
    then some duplicate_action_name
    else later

unfoldable pub validate_definition : String → ℤ → List Action → Option RegistryError
unfolding check_names
validate_definition typ version actions =
    if str_eq typ ""
    then some empty_workflow_type
    else if ltb_ℤ version (pos 1)
    then some invalid_version
    else check_names [] actions

unfoldable pub register : Registry → Definition → Registry × Option RegistryError
unfolding validate_definition get
register r d = elim (validate_definition d.typ d.version d.actions) [
  | some e ↦ (r, some e)
  | none ↦ elim (get r d.typ d.version) [
    | some other ↦ (r, some duplicate_definition)
    | none ↦ (d ∷ r, none)
  ]
]
