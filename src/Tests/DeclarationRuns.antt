-- ===== src/Tests/DeclarationRuns.antt =====
-- An action with two parameters, and its declaration. Integers are read as the length of the text.
use libvda5050pp.Common.{ℕ, ◌≡◌, refl, true, false, none, some, [], ◌∷◌, ltb, All, ok}
use libvda5050pp.Message.{Action, soft_blocking, hard_blocking}
use libvda5050pp.Checks.Actions.Declaration.{
  ParameterRange, integer_type, string_type, ActionDeclaration, node_context, edge_context,
  action_context, below_minimum, missing_action_parameter, allows, context_check, in_values,
}
use libvda5050pp.Checks.Actions.Constraint.{ensure_parameter_constraints}
use libvda5050pp.Checks.Actions.Validation.{
  Readers, given, extract, do_insert, check_value, check_parameters,
  validate_action_with_declaration,
}
use libvda5050pp.Checks.Actions.Validated.{
  has_key, IsDeclared, allowed_in, validate_action_with_declaration-IsDeclared,
}
use libvda5050pp.Tests.Data.{lift}
use Prim.Native.String.{len}

abbrev by_length : Readers ℕ ℕ
by_length = record {
  read_integer = λ v. some (len v);
  less_integer = ltb;
  read_float = λ v. none;
  less_float = ltb;
  less_string = λ v w. false;
}

abbrev height : ParameterRange
height = record {
  key = "height";
  value_type = integer_type;
  ordinal_min = some "xx";
  ordinal_max = some "xxxx";
  value_set = none;
}

abbrev side : ParameterRange
side = record {
  key = "side";
  value_type = string_type;
  ordinal_min = none;
  ordinal_max = none;
  value_set = some ("left" ∷ "right" ∷ []);
}

abbrev lift_declaration : ActionDeclaration
lift_declaration = record {
  action_type = "lift";
  parameter = height ∷ [];
  optional_parameter = side ∷ [];
  blocking_types = soft_blocking ∷ hard_blocking ∷ [];
  instant = false;
  node = true;
  edge = false;
}

abbrev high_lift : Action
high_lift = record lift {
  action_parameters =
      some
        (record { key = "side"; value = "left" } ∷ record { key = "height"; value = "xxx" } ∷ []);
}

high_lift_validates :
    validate_action_with_declaration by_length high_lift node_context lift_declaration none
    ≡ ok ([], none)
unfolding validate_action_with_declaration check_parameters check_value do_insert extract
    ensure_parameter_constraints in_values context_check allows
high_lift_validates = refl

validate_action_with_declaration-IsDeclared_example :
    (lift_declaration.action_type ≡ high_lift.action_type)
    × (allowed_in node_context lift_declaration ≡ true)
    × (allows lift_declaration.blocking_types high_lift.blocking_type ≡ true)
    × All
        (IsDeclared by_length lift_declaration.parameter lift_declaration.optional_parameter)
        (given high_lift)
    × All
        (λ (r : ParameterRange). has_key r.key (given high_lift) ≡ true)
        lift_declaration.parameter
validate_action_with_declaration-IsDeclared_example =
    validate_action_with_declaration-IsDeclared by_length high_lift node_context lift_declaration
      none none high_lift_validates

-- On an edge, without a height, or with one that is too small.
refused_lift :
    validate_action_with_declaration by_length lift edge_context lift_declaration none
    ≡ ok (action_context edge_context ∷ missing_action_parameter (height ∷ []) ∷ [], none)
unfolding validate_action_with_declaration check_parameters check_value do_insert extract
    ensure_parameter_constraints in_values context_check allows
refused_lift = refl

low_lift :
    validate_action_with_declaration by_length
      (record lift { action_parameters = some (record { key = "height"; value = "x" } ∷ []) })
      node_context
      lift_declaration
      none
    ≡ ok (below_minimum "x" ∷ [], none)
unfolding validate_action_with_declaration check_parameters check_value do_insert extract
    ensure_parameter_constraints in_values context_check allows
low_lift = refl
