-- ===== src/Checks/Actions/Constraint.antt =====
-- vda5050++/core/checks/action.cpp, `ensureParameterConstraints`. How a value is read and compared
-- is an argument.
use libvda5050pp.Common.{
  String, Bool, true, false, not, Option, none, some, List, [], ◌∷◌, if◌then◌else◌, Result, ok, err,
  ◌>>=◌, invalid_action_parameter_type,
}
use libvda5050pp.Checks.Actions.Declaration.{
  ParameterRange, ActionError, in_values, unreadable_value, below_minimum, above_maximum,
  outside_value_set,
}

-- The value that was read, or the error.
pub data Checked (V : Type 0) : Type 0 where
  accepted : V → Checked V
  refused : ActionError → Checked V

abbrev pub outside : Option (List String) → String → Bool
outside none value = false
outside (some vs) value = not (in_values value vs)

-- A bound that cannot be read throws, out of the function.
abbrev pub bound : {V : Type 0} → (String → Option V) → Option String → (V → Bool) → Result Bool
bound read none breaks = ok false
bound read (some b) breaks = elim (read b) [
  | none ↦ err invalid_action_parameter_type
  | some limit ↦ ok (breaks limit)
]

unfoldable pub ensure_parameter_constraints :
    {V : Type 0}
    → (String → Option V)
    → (V → V → Bool)
    → ParameterRange
    → String
    → Result (Checked V)
ensure_parameter_constraints read less p value = elim (read value) [
  | none ↦ ok (refused (unreadable_value value))
  | some v ↦ (do
    low ← bound read p.ordinal_min (λ least. less v least)
    if low then ok (refused (below_minimum value)) else (do
      high ← bound read p.ordinal_max (λ most. less most v)
      ok (
          if high
          then refused (above_maximum value)
          else (if outside p.value_set value
              then refused (outside_value_set value)
              else accepted v))))
]

-- The specialisation for bool has no bounds.
unfoldable pub parse_bool : String → Option Bool
unfolding in_values
parse_bool value =
    if in_values value
      ("true" ∷ "True" ∷ "TRUE" ∷ "1" ∷ "yes" ∷ "Yes" ∷ "YES" ∷ "on" ∷ "On" ∷ "ON" ∷ [])
    then some true
    else (if in_values value
          ("false" ∷ "False" ∷ "FALSE" ∷ "0" ∷ "no" ∷ "No" ∷ "NO" ∷ "off" ∷ "Off" ∷ "OFF" ∷ [])
        then some false
        else none)

unfoldable pub ensure_bool_constraints : ParameterRange → String → Result (Checked Bool)
ensure_bool_constraints p value = elim (parse_bool value) [
  | none ↦ ok (refused (unreadable_value value))
  | some v ↦
      ok (if outside p.value_set value then refused (outside_value_set value) else accepted v)
]
