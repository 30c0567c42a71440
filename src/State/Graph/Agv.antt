-- ===== src/State/Graph/Agv.antt =====
-- The AGV on the graph: `setAgvLastNodeSequenceId`, `trim`, `currentGoal`, `subgraph`.
use libvda5050pp.Common.{
  ℕ, ◌≡◌, none, some, [], ◌∷◌, arith, All, ok, ltb, if◌then◌else◌, Option-cases, inl, inr,
}
use libvda5050pp.Common.OrdMap.{find, From-mono, erase_before, find-erase_before, erase_before-From}
use libvda5050pp.State.Graph.Element.{GraphElement}
use libvda5050pp.State.Graph.Defs.{Graph, set_agv_last_node_sequence_id, trim}
use libvda5050pp.State.Graph.Valid.{Elements, IsKeyed, BaseFirst, IsSorted, AgvOnBase}

-- An accepted position is the only change to the graph, and stands on a released node of it.
pub set_agv_last_node_sequence_id-AgvOnBase :
    (g g' : Graph) (seq : ℕ)
    → set_agv_last_node_sequence_id g seq ≡ ok g'
    → (g'.graph ≡ g.graph) × (g'.agv_pos ≡ some seq) × AgvOnBase g'
unfolding set_agv_last_node_sequence_id
set_agv_last_node_sequence_id-AgvOnBase g g' seq h = elim (Option-cases (find seq g.graph)) [
  | inl missing ↦ absurd (ground arith)
  | inr (e, found) ↦
      (ground arith, ground arith, (λ p q. (e, ground arith, ground arith, ground arith)))
]

pub erase_before-BaseFirst : (k : ℕ) (m : Elements) → BaseFirst m → BaseFirst (erase_before k m)
unfolding erase_before
erase_before-BaseFirst k [] f = tt
erase_before-BaseFirst k (e ∷ m) f = ground (arith, erase_before-BaseFirst k m f.1)

pub erase_before-All :
    (P : ℕ × GraphElement → Type 0) (k : ℕ) (m : Elements) → All P m → All P (erase_before k m)
unfolding erase_before
erase_before-All P k [] f = tt
erase_before-All P k (e ∷ m) f = ground (arith, erase_before-All P k m f.1)

pub trim_lem :
    (g : Graph) (p : ℕ)
    → IsSorted g
    → AgvOnBase g
    → g.agv_pos ≡ some p
    → (g' : Graph) × (trim g ≡ ok g')
      × IsSorted g'
      × AgvOnBase g'
      × ((j : ℕ) → find j g'.graph ≡ (if ltb j p then none else find j g.graph))
unfolding trim
trim_lem g p v a h =
    let (e, there, n, b) = a p h in
    let found = λ (j : ℕ). find-erase_before 0 p j e g.graph v.ordered there in
    (
      record g { graph = erase_before p g.graph },
      ground arith,
      record {
        ordered =
            From-mono 0 p (erase_before p g.graph) (omega arith)
              (erase_before-From 0 p g.graph v.ordered);
        keyed = erase_before-All IsKeyed p g.graph v.keyed;
        separated = erase_before-BaseFirst p g.graph v.separated;
      },
      (λ q w. (e, ground (arith, found q), n, b)),
      found,
    )
