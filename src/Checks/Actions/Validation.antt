-- ===== src/Checks/Actions/Validation.antt =====
-- vda5050++/core/checks/action.cpp, `doInsert` and `validateActionWithDeclaration`. How std::stol
-- and std::stod read values, and how values are compared, is an argument.
use text.Mathlib.Text.{◌==◌ as str_eq}
use libvda5050pp.Common.{
  String, Bool, not, Option, none, some, List, [], ◌∷◌, ◌++◌, is_empty, if◌then◌else◌, Result, ok,
  err, ◌>>=◌, invalid_configuration,
}
use libvda5050pp.Common.IdMap.{insert_or_assign}
use libvda5050pp.Message.{Action, ActionParameter}
use libvda5050pp.Checks.Actions.Declaration.{
  ParameterRange, ActionDeclaration, ActionContext, ActionError, context_check, allows, string_type,
  integer_type, float_type, boolean_type, custom_type, action_type_mismatch,
  action_blocking_type_mismatch, unknown_action_parameter, missing_action_parameter,
}
use libvda5050pp.Checks.Actions.Constraint.{
  Checked, ensure_parameter_constraints, ensure_bool_constraints, accepted, refused,
}

-- `extract` by the key: the range, and the others.
unfoldable pub extract :
    String → List ParameterRange → Option (ParameterRange × List ParameterRange)
extract key [] = none
extract key (r ∷ rs) =
    let rest = extract key rs in
    if str_eq r.key key
    then some (r, rs)
    else (elim rest [ none ↦ none | some found ↦ some (found.0, r ∷ found.1) ])

-- What is read by the standard library, and how values are compared.
pub record Readers (Int Float : Type 0) : Type 0 where
  pub read_integer : String → Option Int
  pub less_integer : Int → Int → Bool
  pub read_float : String → Option Float
  pub less_float : Float → Float → Bool
  pub less_string : String → String → Bool

pub data ParameterValue (Int Float : Type 0) : Type 0 where
  integer_value : Int → ParameterValue Int Float
  float_value : Float → ParameterValue Int Float
  boolean_value : Bool → ParameterValue Int Float
  string_value : String → ParameterValue Int Float

-- The map that the caller may pass.
abbrev pub Parameters : Type 0 → Type 0 → Type 0
Parameters Int Float = Option (List (String × ParameterValue Int Float))

unfoldable pub do_insert :
    {V Int Float : Type 0}
    → (V → ParameterValue Int Float)
    → Result (Checked V)
    → String
    → Parameters Int Float
    → Result (Option ActionError × Parameters Int Float)
do_insert wrap checked key parameters = do
  c ← checked
  elim c [
    | refused e ↦ ok (some e, parameters)
    | accepted v ↦
        ok (
          none,
          (elim parameters [ none ↦ none | some m ↦ some (insert_or_assign key (wrap v) m) ]),
        )
  ]

abbrev pub as_list : Option ActionError → List ActionError
as_list none = []
as_list (some e) = e ∷ []

abbrev pub given : Action → List ActionParameter
given a = elim a.action_parameters [ none ↦ [] | some ps ↦ ps ]

-- The errors of a round, in front of those of the rest of the loop.
abbrev pub and_errors :
    {Int Float : Type 0}
    → List ActionError
    → List ActionError × List ParameterRange × Parameters Int Float
    → Result (List ActionError × List ParameterRange × Parameters Int Float)
and_errors es rest = ok (es ++ rest.0, rest.1, rest.2)

module _ {Int Float : Type 0} (readers : Readers Int Float) where
  -- The switch over the type of the declared value.
  unfoldable pub check_value :
      ParameterRange
      → ActionParameter
      → Parameters Int Float
      → Result (Option ActionError × Parameters Int Float)
  unfolding do_insert
  check_value r p parameters = elim r.value_type [
    | integer_type ↦
        do_insert integer_value
          (ensure_parameter_constraints readers.read_integer readers.less_integer r p.value) p.key
          parameters
    | float_type ↦
        do_insert float_value
          (ensure_parameter_constraints readers.read_float readers.less_float r p.value) p.key
          parameters
    | boolean_type ↦ do_insert boolean_value (ensure_bool_constraints r p.value) p.key parameters
    | string_type ↦
        do_insert string_value
          (ensure_parameter_constraints (λ value. some value) readers.less_string r p.value) p.key
          parameters
    | custom_type ↦ err invalid_configuration
  ]

  -- The loop over the parameters: the errors, and the required ranges that no parameter has taken.
  unfoldable pub check_parameters :
      List ActionParameter
      → List ParameterRange
      → List ParameterRange
      → Parameters Int Float
      → Result (List ActionError × List ParameterRange × Parameters Int Float)
  check_parameters [] required optional m = ok ([], required, m)
  check_parameters (p ∷ ps) required optional m = elim (extract p.key required) [
    | some found ↦ (do
      checked ← check_value found.0 p m
      rest ← check_parameters ps found.1 optional checked.1
      and_errors (as_list checked.0) rest)
    | none ↦ elim (extract p.key optional) [
      | some found ↦ (do
        checked ← check_value found.0 p m
        rest ← check_parameters ps required found.1 checked.1
        and_errors (as_list checked.0) rest)
      | none ↦ (do
        rest ← check_parameters ps required optional m
        and_errors (unknown_action_parameter p.key ∷ []) rest)
    ]
  ]

  unfoldable pub validate_action_with_declaration :
      Action
      → ActionContext
      → ActionDeclaration
      → Parameters Int Float
      → Result (List ActionError × Parameters Int Float)
  unfolding check_parameters context_check
  validate_action_with_declaration a context d m = do
    checked ← check_parameters (given a) d.parameter d.optional_parameter m
    ok (
      (if not (str_eq d.action_type a.action_type)
            then action_type_mismatch a.action_type d.action_type ∷ []
            else [])
          ++ (context_check context d
              ++ ((if not (allows d.blocking_types a.blocking_type)
                    then action_blocking_type_mismatch a.blocking_type ∷ []
                    else [])
                  ++ (checked.0
                      ++ (if not (is_empty checked.1)
                          then missing_action_parameter checked.1 ∷ []
                          else [])))),
      checked.2,
    )
