-- ===== src/Checks/Actions/Declaration.antt =====
-- vda5050++/core/checks/action.cpp: the declarations of actions in the AGV description, the errors
-- and `contextCheck`. A set is the list of its elements; of an error its type and the names in it
-- are kept.
use text.Mathlib.Text.{◌==◌ as str_eq}
use libvda5050pp.Common.{String, Bool, true, false, ◌||◌, Option, List, [], ◌∷◌, if◌then◌else◌}
use libvda5050pp.Message.{BlockingType, none_blocking, soft_blocking, hard_blocking}

pub data ParameterValueType : Type 0 where
  string_type integer_type float_type boolean_type custom_type : ParameterValueType

pub record ParameterRange : Type 0 where
  pub key : String
  pub value_type : ParameterValueType
  pub ordinal_min : Option String
  pub ordinal_max : Option String
  pub value_set : Option (List String)

pub record ActionDeclaration : Type 0 where
  pub action_type : String
  pub parameter : List ParameterRange
  pub optional_parameter : List ParameterRange
  pub blocking_types : List BlockingType
  pub instant : Bool
  pub node : Bool
  pub edge : Bool

pub data ActionContext : Type 0 where
  unspecified_context instant_context edge_context node_context : ActionContext

pub data ActionError : Type 0 where
  action_type_mismatch : String → String → ActionError
  action_context : ActionContext → ActionError
  action_blocking_type_mismatch : BlockingType → ActionError
  unknown_action_parameter : String → ActionError
  unreadable_value below_minimum above_maximum outside_value_set : String → ActionError
  missing_action_parameter : List ParameterRange → ActionError

unfoldable pub context_check : ActionContext → ActionDeclaration → List ActionError
context_check unspecified_context d = []
context_check edge_context d = if d.edge then [] else action_context edge_context ∷ []
context_check instant_context d = if d.instant then [] else action_context instant_context ∷ []
context_check node_context d = if d.node then [] else action_context node_context ∷ []

abbrev pub same_blocking_type : BlockingType → BlockingType → Bool
same_blocking_type none_blocking none_blocking = true
same_blocking_type soft_blocking soft_blocking = true
same_blocking_type hard_blocking hard_blocking = true
same_blocking_type _ _ = false

unfoldable pub allows : List BlockingType → BlockingType → Bool
allows [] b = false
allows (c ∷ cs) b = same_blocking_type c b || allows cs b

unfoldable pub in_values : String → List String → Bool
in_values value [] = false
in_values value (v ∷ vs) = str_eq v value || in_values value vs
