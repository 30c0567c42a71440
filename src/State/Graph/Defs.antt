-- ===== src/State/Graph/Defs.antt =====
-- The methods of `Graph`. Where C++ leaves the result undefined, it is `err undefined`.
use libvda5050pp.Common.{
  ℕ, ◌+◌, max, Bool, true, false, not, ◌&&◌, ◌||◌, String, Option, none, some, List, [], ◌∷◌,
  Result, ok, err, undefined, invalid_argument, out_of_range, ◌>>=◌, ltb, ◌==◌, if◌then◌else◌, u32,
}
use libvda5050pp.Common.OrdMap.{
  find, insert_or_assign, merge, first?, last?, upper_bound, before_upper, erase_from, erase_before,
  copy_range,
}
use libvda5050pp.State.Graph.Element.{
  GraphElement, node, edge, get_sequence_id, is_node, is_edge, is_horizon, is_base, get_node,
}

pub record Graph : Type 0 where
  pub agv_pos : Option ℕ
  pub graph : List (ℕ × GraphElement)

abbrev pub entry : Option (ℕ × GraphElement) → Result (ℕ × GraphElement)
entry none = err undefined
entry (some e) = ok e

unfoldable pub has_base : Graph → Result Bool
has_base g = do e ← entry (first? g.graph); ok (is_base e.1)

unfoldable pub has_horizon : Graph → Result Bool
has_horizon g = do e ← entry (last? g.graph); ok (is_horizon e.1)

unfoldable pub bounds : Graph → Result (ℕ × ℕ)
bounds g = do f ← entry (first? g.graph); l ← entry (last? g.graph); ok (f.0, l.0)

-- `find_if(rbegin, rend, match_base)`
unfoldable pub last_base? : List (ℕ × GraphElement) → Option (ℕ × GraphElement)
last_base? [] = none
last_base? (e ∷ m) = elim (last_base? m) [
  | some f ↦ some f
  | none ↦ (if is_base e.1 then some e else none)
]

abbrev or_invalid_argument : Option (ℕ × GraphElement) → Result (ℕ × GraphElement)
or_invalid_argument none = err invalid_argument
or_invalid_argument (some e) = ok e

unfoldable pub base_bounds : Graph → Result (ℕ × ℕ)
base_bounds g = do
  begin ← entry (first? g.graph)
  it ← or_invalid_argument (last_base? g.graph)
  ok (begin.0, it.0)

unfoldable pub horizon_bounds : Graph → Result (ℕ × ℕ)
horizon_bounds g = do
  all ← bounds g
  base ← base_bounds g
  if base.1 == all.1 then err invalid_argument else ok (u32 (base.1 + 1), all.1)

unfoldable pub clean_horizon : Graph → Result Graph
clean_horizon g = do
  has ← has_horizon g
  if not has
      then ok g
      else (do hb ← horizon_bounds g; ok (record g { graph = erase_from hb.0 g.graph }))

-- The guard of `update`, on the entries on either side of the place of the element.
unfoldable pub breaks_invariant :
    GraphElement → Option (ℕ × GraphElement) → Option (ℕ × GraphElement) → Bool
breaks_invariant element before after =
    (is_base element && (elim before [ none ↦ false | some e ↦ is_horizon e.1 ]))
    || (is_horizon element && (elim after [ none ↦ false | some e ↦ is_base e.1 ]))

unfoldable pub update : Graph → GraphElement → Result Graph
update g element =
    let seq = get_sequence_id element in
    if breaks_invariant element (before_upper seq g.graph) (upper_bound seq g.graph)
    then err invalid_argument
    else ok (record g { graph = insert_or_assign seq element g.graph })

unfoldable pub update_all : Graph → List GraphElement → Result Graph
update_all g [] = ok g
update_all g (e ∷ es) = do g' ← update g e; update_all g' es

-- The constructors from an initializer list and from a list.
unfoldable pub from_elements : List GraphElement → Result Graph
from_elements [] = err invalid_argument
from_elements (e ∷ es) = update_all (record { agv_pos = none; graph = [] }) (e ∷ es)

abbrev pub conflict : Option ℕ → Option ℕ → Bool
conflict (some a) (some b) = not (a == b)
conflict _ _ = false

abbrev pub or_else : Option ℕ → Option ℕ → Option ℕ
or_else (some a) b = some a
or_else none b = b

-- The extended graph, and the range of the new elements.
unfoldable pub extend : Graph → Graph → Result (Graph × (ℕ × ℕ))
extend this other = if conflict this.agv_pos other.agv_pos then err invalid_argument else (do
  b ← base_bounds this
  o ← bounds other
  if not (u32 (b.1 + 1) == o.0) && not (b.1 == o.0) then err invalid_argument else (do
    clean ← clean_horizon (record this { agv_pos = or_else this.agv_pos other.agv_pos })
    ok (record clean { graph = merge other.graph clean.graph }, (max (u32 (b.1 + 1)) o.0, o.1))))

unfoldable pub at : Graph → ℕ → Result GraphElement
at g seq = do
  b ← bounds g
  if ltb b.1 seq || ltb seq b.0
      then err invalid_argument
      else elim (find seq g.graph) [ none ↦ err out_of_range | some e ↦ ok e ]

abbrev pub position_within : Option ℕ → ℕ → ℕ → Option ℕ
position_within none first last = none
position_within (some p) first last = if not (ltb p first) && not (ltb last p) then some p else none

unfoldable pub subgraph : Graph → ℕ → ℕ → Result Graph
subgraph g first last = if ltb last first then err invalid_argument else elim (find first g.graph) [
  | none ↦ err invalid_argument
  | some f ↦ elim (find last g.graph) [
    | none ↦ err invalid_argument
    | some l ↦ ok (record {
      agv_pos = position_within g.agv_pos first last;
      graph = copy_range first last g.graph;
    })
  ]
]

abbrev pub agv_here : Graph → Bool
agv_here g = elim g.agv_pos [ none ↦ false | some p ↦ true ]

unfoldable pub agv_position : Graph → Result ℕ
agv_position g = elim g.agv_pos [ none ↦ err invalid_argument | some p ↦ ok p ]

unfoldable pub current_goal_sequence_id : Graph → Result ℕ
current_goal_sequence_id g = do
  agv_pos ← agv_position g
  e ← at g agv_pos
  ok (if is_node e then u32 (agv_pos + 2) else u32 (agv_pos + 1))

abbrev pub released_node : GraphElement → Bool
released_node (node n) = n.released
released_node (edge e) = false

unfoldable pub current_goal : Graph → Result (Option GraphElement)
current_goal g = do
  goal_pos ← current_goal_sequence_id g
  ok (elim (find goal_pos g.graph) [
    | none ↦ none
    | some e ↦ if released_node e then some e else none
  ])

unfoldable pub current_map : Graph → Result (Option String)
current_map g = do
  here ← (if agv_here g then agv_position g else (do b ← bounds g; ok b.0))
  ge ← at g here
  ge' ← (if is_edge ge then at g (u32 (get_sequence_id ge + 1)) else ok ge)
  n ← get_node ge'
  ok (elim n.node_position [ none ↦ none | some p ↦ some p.map_id ])

unfoldable pub set_agv_last_node_sequence_id : Graph → ℕ → Result Graph
set_agv_last_node_sequence_id g seq_id = elim (find seq_id g.graph) [
  | none ↦ err invalid_argument
  | some e ↦
      if not (is_node e)
      then err invalid_argument
      else (if is_horizon e then err invalid_argument else ok (record g { agv_pos = some seq_id }))
]

-- The `if` in front of the erasure has an empty body: without a position the optional is read all
-- the same.
unfoldable pub trim : Graph → Result Graph
trim g = elim g.agv_pos [
  | none ↦ err undefined
  | some p ↦ ok (record g { graph = erase_before p g.graph })
]
