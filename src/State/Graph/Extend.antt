-- ===== src/State/Graph/Extend.antt =====
-- `Graph::extend`: the base of this graph, continued by the other graph.
use libvda5050pp.Common.{
  ℕ, ◌+◌, ◌<◌, ◌≡◌, ◌≢◌, ◌⊎◌, refl, true, false, is_empty, Option, none, some, [], ◌∷◌, arith, ok,
  err, invalid_argument, if◌then◌else◌, Option-cases, inl, inr, u32, max,
}
use libvda5050pp.Common.OrdMap.{find, first?, merge, try_emplace, insert_or_assign}
use libvda5050pp.State.Graph.Element.{GraphElement, is_horizon, is_base}
use libvda5050pp.State.Graph.Defs.{
  Graph, has_base, base_bounds, bounds, clean_horizon, extend, conflict, or_else, last_base?,
}
use libvda5050pp.State.Graph.Valid.{Elements, IsKeyed, BaseFirst, IsSorted, Contiguous, merge-All}
use libvda5050pp.State.Graph.Horizon.{keep_base, last_base?-AllHorizon}
use libvda5050pp.State.Graph.Clean.{clean_horizon-keep_base, keep_base-All}
use libvda5050pp.State.Graph.Join.{
  Joins, find-joined, joined-From, joined-BaseFirst, joined-Contiguous,
}

-- An accepted base range is that of a first and a last base element.
base_bounds-parts :
    (g : Graph) (bf bl : ℕ)
    → base_bounds g ≡ ok (bf, bl)
    → (b : ℕ × GraphElement) × (last_base? g.graph ≡ some b) × (b.0 ≡ bl)
unfolding base_bounds
base_bounds-parts g bf bl h = elim (Option-cases (first? g.graph)) [
  | inl empty ↦ absurd (ground arith)
  | inr (e, first) ↦ elim (Option-cases (last_base? g.graph)) [
    | inl missing ↦ absurd (ground arith)
    | inr (b, found) ↦ (b, found, ground arith)
  ]
]

bounds-parts :
    (g : Graph) (f l : ℕ)
    → bounds g ≡ ok (f, l)
    → (o : ℕ × GraphElement) × (first? g.graph ≡ some o) × (o.0 ≡ f)
unfolding bounds
bounds-parts g f l h = elim (Option-cases (first? g.graph)) [
  | inl empty ↦ absurd (ground arith)
  | inr (o, first) ↦ (o, first, ground arith)
]

has_base_of_last :
    (m : Elements) (agv : Option ℕ) (b : ℕ × GraphElement)
    → BaseFirst m
    → last_base? m ≡ some b
    → has_base (record { agv_pos = agv; graph = m }) ≡ ok true
unfolding has_base first? last_base?
has_base_of_last [] agv b f h = cc
has_base_of_last (e ∷ m) agv b f h = ground (arith, last_base?-AllHorizon m)

first-filled : (m : Elements) (o : ℕ × GraphElement) → first? m ≡ some o → is_empty m ≡ false
unfolding first?
first-filled m o h = ground arith

merge-filled : (m l : Elements) → is_empty m ≡ false → is_empty (merge m l) ≡ false
unfolding merge try_emplace insert_or_assign
merge-filled m [] h = h
merge-filled [] (f ∷ l) h = absurd (ground arith)
merge-filled (e ∷ m) (f ∷ l) h = merge-filled (try_emplace f.0 f.1 (e ∷ m)) l (ground arith)

-- The graph that `extend` returns.
extended : Graph → Graph → Graph
extended this other = record {
  agv_pos = or_else this.agv_pos other.agv_pos;
  graph = merge other.graph (keep_base this.graph);
}

-- The hypotheses of an extension: two sorted graphs without gaps, no two
-- AGV positions, and an other graph that starts at the last base element or right behind it.
pub record Extends (n k : ℕ) (this other : Graph) (bf bl of ol : ℕ) : Type 0 where
  pub this_valid : IsSorted this
  pub this_gapless : Contiguous n this.graph
  pub other_valid : IsSorted other
  pub other_gapless : Contiguous k other.graph
  pub one_agv : conflict this.agv_pos other.agv_pos ≡ false
  pub this_base : base_bounds this ≡ ok (bf, bl)
  pub other_range : bounds other ≡ ok (of, ol)
  pub no_overflow : bl + 1 < 4294967296
  pub meets : (bl + 1 ≡ of) ⊎ (bl ≡ of)

module _ (n k : ℕ) (this other : Graph) (bf bl of ol : ℕ)
    (x : Extends n k this other bf bl of ol) where
  extends-Joins :
      (b : ℕ × GraphElement) × (o : ℕ × GraphElement) × Joins n this.graph other.graph b o
  extends-Joins =
      let (b, found, last) = base_bounds-parts this bf bl x.this_base in
      let (o, first, start) = bounds-parts other of ol x.other_range in
      (
        b,
        o,
        record {
          left = x.this_valid.ordered;
          right = x.other_valid.ordered;
          left_sep = x.this_valid.separated;
          right_sep = x.other_valid.separated;
          last_base = found;
          first = first;
          meets = ground (arith, x.meets);
        },
      )

  extended-IsSorted : IsSorted (extended this other)
  unfolding extended
  extended-IsSorted =
      let (b, o, w) = extends-Joins in
      record {
        ordered = joined-From n this.graph other.graph b o w;
        keyed =
            merge-All IsKeyed other.graph (keep_base this.graph) x.other_valid.keyed
              (keep_base-All IsKeyed this.graph x.this_valid.keyed);
        separated = joined-BaseFirst n this.graph other.graph b o w;
      }

  extend-extended : extend this other ≡ ok (extended this other, (max (bl + 1) of, ol))
  unfolding extend extended
  extend-extended =
      let (b, found, last) = base_bounds-parts this bf bl x.this_base in
      let clean : clean_horizon (record this { agv_pos = or_else this.agv_pos other.agv_pos })
          ≡ ok (record {
            agv_pos = or_else this.agv_pos other.agv_pos;
            graph = keep_base this.graph;
          }) =
        clean_horizon-keep_base n (record this { agv_pos = or_else this.agv_pos other.agv_pos })
          (record {
            ordered = x.this_valid.ordered;
            keyed = x.this_valid.keyed;
            separated = x.this_valid.separated;
          })
          x.this_gapless
          (has_base_of_last this.graph (or_else this.agv_pos other.agv_pos) b x.this_valid.separated
            found) in
      let no_wrap : u32 (bl + 1) ≡ bl + 1 = omega (arith, x.no_overflow) in
      ground (arith, x.one_agv, x.this_base, x.other_range, x.meets)

  -- Two sorted graphs without gaps, that do not know two different AGV positions, the other
  -- starting at the last base element of this one or right behind it, which is below the largest
  -- `uint32_t`: `extend` returns. The result is sorted, not empty and without gaps, holds the
  -- elements of the other graph and, where that has none, the base elements of this one, keeps the
  -- known AGV position, and the reported range runs from the first sequence id behind the old base
  -- to the last one of the other graph.
  pub extend_joined :
      (g' : Graph) × (extend this other ≡ ok (g', (max (bl + 1) of, ol)))
      × IsSorted g'
      × (is_empty g'.graph ≡ false)
      × Contiguous n g'.graph
      × (g'.agv_pos ≡ or_else this.agv_pos other.agv_pos)
      × ((j : ℕ)
          → find j g'.graph ≡ (elim (find j other.graph) [
            | some e ↦ some e
            | none ↦ elim (find j this.graph) [
              | none ↦ none
              | some e ↦ if is_base e then some e else none
            ]
          ]))
  unfolding extended
  extend_joined =
      let (b, o, w) = extends-Joins in
      (
        extended this other,
        extend-extended,
        extended-IsSorted,
        merge-filled other.graph (keep_base this.graph) (first-filled other.graph o w.first),
        joined-Contiguous n this.graph other.graph b o w k x.this_gapless x.other_gapless,
        refl,
        find-joined n this.graph other.graph b o w,
      )

-- A graph that has a base is not extended by one that starts elsewhere than at the last base
-- element or right behind it: `extend` throws, whatever else holds of the two.
pub extend_apart :
    (this other : Graph) (bf bl of ol : ℕ)
    → base_bounds this ≡ ok (bf, bl)
    → bounds other ≡ ok (of, ol)
    → bl + 1 < 4294967296
    → bl + 1 ≢ of
    → bl ≢ of
    → extend this other ≡ err invalid_argument
unfolding extend
extend_apart this other bf bl of ol b o small p q =
    let no_wrap : u32 (bl + 1) ≡ bl + 1 = omega arith in ground arith

-- An update of an order whose first node is not released, stitched to the last base node where the
-- AGV stands: the extension is accepted, and the AGV then stands on a horizon element, against the
-- invariant of the class.
pub extend_unreleased :
    (n k : ℕ) (this other : Graph) (bf bl of ol : ℕ) (e : GraphElement)
    → Extends n k this other bf bl of ol
    → this.agv_pos ≡ some bl
    → find bl other.graph ≡ some e
    → is_horizon e ≡ true
    → (g' : Graph) × (extend this other ≡ ok (g', (max (bl + 1) of, ol)))
      × (g'.agv_pos ≡ some bl)
      × (find bl g'.graph ≡ some e)
extend_unreleased n k this other bf bl of ol e x agv found h =
    let (g', returns, valid, filled, gapless, pos, lookup) =
      extend_joined n k this other bf bl of ol x in
    (g', returns, ground arith, ground (arith, lookup bl))
