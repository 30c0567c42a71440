-- ===== src/State/Graph/Element.antt =====
-- `GraphElement` of graph.h: a node or an edge. The pointers inside are never null, since the
-- constructors refuse that; a null pointer is `none` here.
use libvda5050pp.Common.{
  ℕ, Bool, true, false, not, String, Option, none, some, Result, ok, err, null_pointer,
  invalid_argument,
}
use libvda5050pp.Message.{Node, Edge}

pub data GraphElement : Type 0 where
  node : Node → GraphElement
  edge : Edge → GraphElement

unfoldable pub of_node : Option Node → Result GraphElement
of_node none = err null_pointer
of_node (some n) = ok (node n)

unfoldable pub of_edge : Option Edge → Result GraphElement
of_edge none = err null_pointer
of_edge (some e) = ok (edge e)

abbrev pub get_sequence_id : GraphElement → ℕ
get_sequence_id (node n) = n.sequence_id
get_sequence_id (edge e) = e.sequence_id

unfoldable pub get_id : GraphElement → String
get_id (node n) = n.node_id
get_id (edge e) = e.edge_id

abbrev pub is_node : GraphElement → Bool
is_node (node n) = true
is_node (edge e) = false

abbrev pub is_edge : GraphElement → Bool
is_edge (node n) = false
is_edge (edge e) = true

abbrev pub is_horizon : GraphElement → Bool
is_horizon (node n) = not n.released
is_horizon (edge e) = not e.released

abbrev pub is_base : GraphElement → Bool
is_base g = not (is_horizon g)

unfoldable pub get_node : GraphElement → Result Node
get_node (node n) = ok n
get_node (edge e) = err invalid_argument

unfoldable pub get_edge : GraphElement → Result Edge
get_edge (node n) = err invalid_argument
get_edge (edge e) = ok e
