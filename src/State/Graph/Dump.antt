-- ===== src/State/Graph/Dump.antt =====
-- `getNodes`, `getEdges` and `dumpTo` of graph.cpp: the walks over all elements.
use libvda5050pp.Common.{
  ℕ, Bool, false, ◌&&◌, Option, none, some, List, [], ◌∷◌, ◌++◌, ◌==◌, if◌then◌else◌,
}
use libvda5050pp.Message.{Node, Edge, NodeState, EdgeState}
use libvda5050pp.State.Graph.Element.{GraphElement, node, edge}
use libvda5050pp.State.Graph.Defs.{Graph}

nodes_of : List (ℕ × GraphElement) → List Node
nodes_of [] = []
nodes_of ((seq, node n) ∷ m) = n ∷ nodes_of m
nodes_of ((seq, edge e) ∷ m) = nodes_of m

edges_of : List (ℕ × GraphElement) → List Edge
edges_of [] = []
edges_of ((seq, node n) ∷ m) = edges_of m
edges_of ((seq, edge e) ∷ m) = e ∷ edges_of m

unfoldable pub get_nodes : Graph → List Node
unfolding nodes_of
get_nodes g = nodes_of g.graph

unfoldable pub get_edges : Graph → List Edge
unfolding edges_of
get_edges g = edges_of g.graph

abbrev pub node_state : Node → NodeState
node_state n = record {
  node_id = n.node_id;
  sequence_id = n.sequence_id;
  node_description = n.node_description;
  node_position = n.node_position;
  released = n.released;
}

abbrev pub edge_state : Edge → EdgeState
edge_state e = record {
  edge_id = e.edge_id;
  sequence_id = e.sequence_id;
  edge_description = e.edge_description;
  released = e.released;
  trajectory = e.trajectory;
}

-- The test of `continue`: the AGV is on the element.
abbrev agv_on : Option ℕ → ℕ → Bool
agv_on none seq = false
agv_on (some p) seq = seq == p

push_state : GraphElement → List NodeState × List EdgeState → List NodeState × List EdgeState
push_state (node n) (nodes, edges) = (nodes ++ node_state n ∷ [], edges)
push_state (edge e) (nodes, edges) = (nodes, edges ++ edge_state e ∷ [])

-- The loop of `dumpTo`, which extends both vectors.
dump_from :
    Option ℕ
    → Bool
    → List (ℕ × GraphElement)
    → List NodeState × List EdgeState
    → List NodeState × List EdgeState
unfolding push_state
dump_from agv skip_agv_elem [] states = states
dump_from agv skip_agv_elem ((seq, elem) ∷ m) states =
    dump_from agv skip_agv_elem m
      (if skip_agv_elem && agv_on agv seq then states else push_state elem states)

unfoldable pub dump_to :
    Graph → List NodeState × List EdgeState → Bool → List NodeState × List EdgeState
unfolding dump_from
dump_to g states skip_agv_elem = dump_from g.agv_pos skip_agv_elem g.graph states
