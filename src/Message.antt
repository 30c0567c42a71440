-- ===== src/Message.antt =====
-- The VDA5050 messages, as far as the modelled code reads them. Their C++ types come from the
-- vda5050 message library, which is not part of the repository: a record here has the fields that
-- the code names. A `Payload` is a value that the code only copies.
use libvda5050pp.Common.{ℕ, Bool, String, Option, List}

pub data Payload : Type 0 where
  payload : ℕ → Payload

pub data BlockingType : Type 0 where
  none_blocking soft_blocking hard_blocking : BlockingType

pub data ActionStatus : Type 0 where
  waiting initializing running paused finished failed : ActionStatus

pub record ActionParameter : Type 0 where
  pub key : String
  pub value : String

pub record Action : Type 0 where
  pub action_id : String
  pub action_type : String
  pub action_description : Option String
  pub blocking_type : BlockingType
  pub action_parameters : Option (List ActionParameter)

pub record NodePosition : Type 0 where
  pub map_id : String
  pub pose : Payload

pub record Node : Type 0 where
  pub node_id : String
  pub sequence_id : ℕ  -- uint32_t
  pub released : Bool
  pub node_description : Option String
  pub node_position : Option NodePosition
  pub actions : List Action

pub record Edge : Type 0 where
  pub edge_id : String
  pub sequence_id : ℕ  -- uint32_t
  pub released : Bool
  pub edge_description : Option String
  pub trajectory : Option Payload
  pub actions : List Action

pub record Order : Type 0 where
  pub order_id : String
  pub order_update_id : ℕ  -- uint32_t
  pub nodes : List Node
  pub edges : List Edge

pub record NodeState : Type 0 where
  pub node_id : String
  pub sequence_id : ℕ
  pub node_description : Option String
  pub node_position : Option NodePosition
  pub released : Bool

pub record EdgeState : Type 0 where
  pub edge_id : String
  pub sequence_id : ℕ
  pub edge_description : Option String
  pub released : Bool
  pub trajectory : Option Payload

pub record ActionState : Type 0 where
  pub action_id : String
  pub action_type : String
  pub action_description : Option String
  pub action_status : ActionStatus
  pub result_description : Option String
