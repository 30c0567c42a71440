-- ===== src/State/Graph/Range.antt =====
-- `Graph::at`, `currentGoal` and `subgraph`.
use libvda5050pp.Common.{
  ℕ, suc, ◌+◌, ◌≤◌, ◌<◌, ◌≡◌, ◌↔◌, Option, refl, true, not, ◌&&◌, none, some, [], ◌∷◌, arith, All,
  ok, ltb, ◌==◌, if◌then◌else◌, Bool-cases, inl, inr, u32,
}
use libvda5050pp.Common.OrdMap.{
  find, find_below, From, From-mono, first?, last?, erase_before, copy_to, copy_range,
  find-erase_before, erase_before-From, find-copy_to, copy_to-From,
}
use libvda5050pp.State.Graph.Element.{GraphElement, is_node, is_horizon, is_base}
use libvda5050pp.State.Graph.Defs.{
  Graph, bounds, at, subgraph, current_goal, current_goal_sequence_id, agv_position,
  position_within,
}
use libvda5050pp.State.Graph.Valid.{Elements, IsKeyed, BaseFirst, IsSorted, AgvOnBase}
use libvda5050pp.State.Graph.Agv.{erase_before-BaseFirst, erase_before-All}

pub find-last? :
    (n j : ℕ) (e : GraphElement) (m : Elements)
    → From n m
    → find j m ≡ some e
    → (l : ℕ × GraphElement) × (last? m ≡ some l) × (j ≤ l.0) × (n ≤ l.0)
unfolding find last?
find-last? n j e [] s h = cc
find-last? n j e (f ∷ []) s h = (f, refl, ground arith, s.0)
find-last? n j e (f ∷ f' ∷ m) s h = elim (Bool-cases (f.0 == j)) [
  | inl here ↦
      let (l, last, le, low) = find-last? (suc f.0) f'.0 f'.1 (f' ∷ m) s.1 (ground arith) in
      (l, last, ground arith, omega arith)
  | inr later ↦
      let (l, last, le, low) = find-last? (suc f.0) j e (f' ∷ m) s.1 (ground arith) in
      (l, last, le, omega arith)
]

pub find-first? :
    (n j : ℕ) (e : GraphElement) (m : Elements)
    → From n m
    → find j m ≡ some e
    → (f : ℕ × GraphElement) × (first? m ≡ some f) × (f.0 ≤ j)
unfolding find first?
find-first? n j e [] s h = cc
find-first? n j e (f ∷ m) s h = (f, refl, ground (arith, find_below (suc f.0) j m s.1))

-- An element of a graph with ordered keys is found by `at`.
pub at-find :
    (g : Graph) (j : ℕ) (e : GraphElement)
    → From 0 g.graph
    → find j g.graph ≡ some e
    → at g j ≡ ok e
unfolding at bounds
at-find g j e s h =
    let (f, first, low) = find-first? 0 j e g.graph s h in
    let (l, last, high, _) = find-last? 0 j e g.graph s h in ground arith

-- With the AGV on a released node, the current goal is the element two sequence ids further on, if
-- there is one and it is a released node, and there is none otherwise.
pub current_goal_lem :
    (g : Graph) (p : ℕ)
    → IsSorted g
    → AgvOnBase g
    → g.agv_pos ≡ some p
    → p + 2 < 4294967296
    → current_goal g
      ≡ ok (elim (find (p + 2) g.graph) [
        | none ↦ none
        | some e ↦ if is_node e && is_base e then some e else none
      ])
unfolding current_goal current_goal_sequence_id agv_position
current_goal_lem g p v a h small =
    let (e, there, n, b) = a p h in
    let no_wrap : u32 (p + 2) ≡ p + 2 = omega arith in ground (arith, at-find g p e v.ordered there)

copy_to-All : (P : ℕ × GraphElement → Type 0) (k : ℕ) (m : Elements) → All P m → All P (copy_to k m)
unfolding copy_to
copy_to-All P k [] f = tt
copy_to-All P k (e ∷ m) f = ground (arith, copy_to-All P k m f.1)

copy_to-BaseFirst : (k : ℕ) (m : Elements) → BaseFirst m → BaseFirst (copy_to k m)
unfolding copy_to
copy_to-BaseFirst k [] f = tt
copy_to-BaseFirst k (e ∷ m) f =
    ground (arith, copy_to-BaseFirst k m f.1, copy_to-All (λ x. is_horizon x.1 ≡ true) k m)

position_within_lem :
    (agv : Option ℕ) (first last p : ℕ)
    → (position_within agv first last ≡ some p) ↔ ((agv ≡ some p) × (first ≤ p) × (p ≤ last))
position_within_lem none first last p = ground arith
position_within_lem (some q) first last p = ground arith

-- Between two sequence ids of a sorted graph, `subgraph` copies exactly the
-- elements in that closed range; the copy is sorted, and has the AGV position exactly if that
-- lies in the range.
pub subgraph_lem :
    (g : Graph) (first last : ℕ) (f l : GraphElement)
    → IsSorted g
    → first ≤ last
    → find first g.graph ≡ some f
    → find last g.graph ≡ some l
    → (g' : Graph) × (subgraph g first last ≡ ok g')
      × IsSorted g'
      × ((p : ℕ) → (g'.agv_pos ≡ some p) ↔ ((g.agv_pos ≡ some p) × (first ≤ p) × (p ≤ last)))
      × ((j : ℕ)
          → find j g'.graph
            ≡ (if not (ltb j first) && not (ltb last j) then find j g.graph else none))
unfolding subgraph copy_range
subgraph_lem g first last f l v le hf hl =
    let rest : Elements = erase_before first g.graph in
    let ordered : From first rest = erase_before-From 0 first g.graph v.ordered in
    let there : find last rest ≡ some l =
      ground (arith, find-erase_before 0 first last f g.graph v.ordered hf) in
    (
      record {
        agv_pos = position_within g.agv_pos first last;
        graph = copy_range first last g.graph;
      },
      ground arith,
      record {
        ordered =
            From-mono 0 first (copy_to last rest) (omega arith)
              (copy_to-From first last rest ordered);
        keyed = copy_to-All IsKeyed last rest (erase_before-All IsKeyed first g.graph v.keyed);
        separated = copy_to-BaseFirst last rest (erase_before-BaseFirst first g.graph v.separated);
      },
      (λ p. position_within_lem g.agv_pos first last p),
      (λ j. ground (
        arith,
        find-copy_to first last j l rest ordered there,
        find-erase_before 0 first j f g.graph v.ordered hf,
      )),
    )
