-- ===== src/State/Graph/Update.antt =====
-- `Graph::update` and the constructors, and what they keep of the invariants.
use libvda5050pp.Common.{
  ℕ, ◌≤◌, ◌<◌, ◌≡◌, ◌≢◌, refl, subst, Result-cases, true, false, is_empty, ◌&&◌, none, some, List,
  [], ◌∷◌, arith, All, ok, err, invalid_argument, ◌==◌, if◌then◌else◌, Bool-cases, inl, inr,
}
use libvda5050pp.Common.OrdMap.{
  find, insert_or_assign, upper_bound, before_upper, find-insert_or_assign, insert_or_assign-From,
}
use libvda5050pp.State.Graph.Element.{GraphElement, get_sequence_id, is_horizon, is_base}
use libvda5050pp.State.Graph.Defs.{Graph, update, update_all, breaks_invariant, from_elements}
use libvda5050pp.State.Graph.Valid.{
  Elements, IsKeyed, IsSorted, IsValid, OffHorizon, insert_or_assign-All, All-find,
}
use libvda5050pp.State.Graph.Fits.{Fits, guard-Fits, Fits-guard, insert_or_assign-BaseFirst}

inserted : Graph → GraphElement → Graph
inserted g e = record g { graph = insert_or_assign (get_sequence_id e) e g.graph }

inserted-IsSorted :
    (g : Graph) (e : GraphElement)
    → IsSorted g
    → get_sequence_id e < 4294967296
    → Fits (get_sequence_id e) e g.graph
    → IsSorted (inserted g e)
unfolding inserted
inserted-IsSorted g e v u h = record {
  ordered = insert_or_assign-From 0 (get_sequence_id e) e g.graph v.ordered (omega arith);
  keyed = insert_or_assign-All IsKeyed (get_sequence_id e) e g.graph (refl, u) v.keyed;
  separated = insert_or_assign-BaseFirst 0 (get_sequence_id e) e g.graph v.ordered v.separated h;
}

insert_or_assign-filled :
    (k : ℕ) (e : GraphElement) (m : Elements) → is_empty (insert_or_assign k e m) ≡ false
unfolding insert_or_assign
insert_or_assign-filled k e [] = refl
insert_or_assign-filled k e (f ∷ m) = ground arith

inserted-OffHorizon :
    (g : Graph) (e : GraphElement)
    → OffHorizon g
    → (is_horizon e ≡ true → g.agv_pos ≢ some (get_sequence_id e))
    → OffHorizon (inserted g e)
unfolding inserted
inserted-OffHorizon g e o h p w at_p found = elim (Bool-cases (get_sequence_id e == p)) [
  | inl here ↦
      let x = find-insert_or_assign (get_sequence_id e) p e g.graph in
      let same : get_sequence_id e ≡ p = ground arith in
      elim (Bool-cases (is_horizon e)) [
        | inl hz ↦ absurd (h hz (ground arith))
        | inr b ↦ ground (arith, x)
      ]
  | inr away ↦
      let x = find-insert_or_assign (get_sequence_id e) p e g.graph in
      o p w at_p (ground (arith, x))
]

-- On a graph with the invariants of the class, an element that fits between its neighbours (a base
-- element has only base elements up to its sequence id, a horizon element only horizon ones behind
-- it), and is not a horizon element at the position of the AGV, is accepted: it is then found under
-- its sequence id, every other lookup and the AGV position stay, and the invariants hold again.
pub update_fitting :
    (g : Graph) (e : GraphElement)
    → IsValid g
    → get_sequence_id e < 4294967296
    → Fits (get_sequence_id e) e g.graph
    → (is_horizon e ≡ true → g.agv_pos ≢ some (get_sequence_id e))
    → (g' : Graph) × (update g e ≡ ok g')
      × IsValid g'
      × (g'.agv_pos ≡ g.agv_pos)
      × ((j : ℕ) → find j g'.graph ≡ (if get_sequence_id e == j then some e else find j g.graph))
unfolding update inserted
update_fitting g e v u h a = (
  inserted g e,
  rw (Fits-guard (get_sequence_id e) e g.graph h),
  record {
    sorted = inserted-IsSorted g e v.sorted u h;
    not_empty = insert_or_assign-filled (get_sequence_id e) e g.graph;
    off_horizon = inserted-OffHorizon g e v.off_horizon a;
  },
  refl,
  (λ j. find-insert_or_assign (get_sequence_id e) j e g.graph),
)

-- A horizon element at the position of the AGV that fits between its neighbours is accepted as
-- well, and the AGV is then on the horizon.
pub update_under_agv :
    (g : Graph) (e : GraphElement)
    → IsValid g
    → Fits (get_sequence_id e) e g.graph
    → is_horizon e ≡ true
    → g.agv_pos ≡ some (get_sequence_id e)
    → (g' : Graph) × (update g e ≡ ok g') × ¬ OffHorizon g'
unfolding update inserted
update_under_agv g e v h hz at_e = (
  inserted g e,
  rw (Fits-guard (get_sequence_id e) e g.graph h),
  (λ o.
      let x = find-insert_or_assign (get_sequence_id e) (get_sequence_id e) e g.graph in
      let b = o (get_sequence_id e) e at_e (ground (arith, x)) in absurd (ground arith)),
)

-- On a sorted graph, `update` throws on every element that does not fit between
-- its neighbours.
pub update_misfit :
    (g : Graph) (e : GraphElement)
    → IsSorted g
    → ¬ Fits (get_sequence_id e) e g.graph
    → update g e ≡ err invalid_argument
unfolding update
update_misfit g e v h =
    elim (Bool-cases (
      breaks_invariant e (before_upper (get_sequence_id e) g.graph)
        (upper_bound (get_sequence_id e) g.graph))) [
          | inl refused ↦ rw refused
          | inr fits ↦
              absurd (h (guard-Fits 0 (get_sequence_id e) e g.graph v.ordered v.separated fits))
        ]

-- An update that is accepted keeps the graph sorted.
pub update-IsSorted :
    (g g' : Graph) (e : GraphElement)
    → IsSorted g
    → get_sequence_id e < 4294967296
    → update g e ≡ ok g'
    → IsSorted g'
unfolding update inserted
update-IsSorted g g' e v u h =
    elim (Bool-cases (
      breaks_invariant e (before_upper (get_sequence_id e) g.graph)
        (upper_bound (get_sequence_id e) g.graph))) [
          | inl refused ↦ ground arith
          | inr fits ↦
              let same : inserted g e ≡ g' = ground arith in
              subst IsSorted same (
                inserted-IsSorted g e v u
                  (guard-Fits 0 (get_sequence_id e) e g.graph v.ordered v.separated fits))
        ]

-- A horizon element is never released in place: on a sorted graph, `update` by a base element
-- throws wherever a horizon element has its sequence id.
pub update_release :
    (g : Graph) (e old : GraphElement)
    → IsSorted g
    → is_base e ≡ true
    → find (get_sequence_id e) g.graph ≡ some old
    → is_horizon old ≡ true
    → update g e ≡ err invalid_argument
update_release g e old v b f h = update_misfit g e v λ fits.
    let at_old : (get_sequence_id e ≤ get_sequence_id e → is_base old ≡ true) =
      All-find (λ x. x.0 ≤ get_sequence_id e → is_base x.1 ≡ true) (get_sequence_id e) {e = old}
        g.graph (fits.0 b) f in
    let base : is_base old ≡ true = at_old (omega arith) in ground arith

update_all-IsSorted :
    (g g' : Graph) (es : List GraphElement)
    → IsSorted g
    → All (λ e. get_sequence_id e < 4294967296) es
    → update_all g es ≡ ok g'
    → IsSorted g'
unfolding update_all
update_all-IsSorted g g' [] v u h = let same : g ≡ g' = cc in subst IsSorted same v
update_all-IsSorted g g' (e ∷ es) v u h = elim (Result-cases (update g e)) [
  | inl (g₁, first) ↦
      update_all-IsSorted g₁ g' es (update-IsSorted g g₁ e v u.0 first) u.1 (ground arith)
  | inr (x, thrown) ↦ absurd (ground arith)
]

update_all-keeps :
    (g g' : Graph) (es : List GraphElement)
    → update_all g es ≡ ok g'
    → is_empty g.graph && is_empty es ≡ false
    → (g'.agv_pos ≡ g.agv_pos) × (is_empty g'.graph ≡ false)
unfolding update_all update
update_all-keeps g g' [] h f = ground arith
update_all-keeps g g' (e ∷ es) h f = elim (Result-cases (update g e)) [
  | inl (g₁, first) ↦
      let filled = insert_or_assign-filled (get_sequence_id e) e g.graph in
      ground (arith, update_all-keeps g₁ g' es)
  | inr (x, thrown) ↦ absurd (ground arith)
]

-- A graph that a constructor returns, from elements whose sequence ids are `uint32_t`, has the
-- invariants of the class: it is not empty, no base element follows a horizon element, and the AGV,
-- whose position it does not know, is not on the horizon.
pub from_elements-IsValid :
    (g : Graph) (es : List GraphElement)
    → All (λ e. get_sequence_id e < 4294967296) es
    → from_elements es ≡ ok g
    → IsValid g × (g.agv_pos ≡ none)
unfolding from_elements
from_elements-IsValid g [] u h = absurd (ground arith)
from_elements-IsValid g (e ∷ es) u h =
    let (lost, filled) =
      update_all-keeps (record { agv_pos = none; graph = [] }) g (e ∷ es) h refl in
    (
      record {
        sorted =
            update_all-IsSorted (record { agv_pos = none; graph = [] }) g (e ∷ es)
              (record { ordered = tt; keyed = tt; separated = tt }) u h;
        not_empty = filled;
        off_horizon = λ p w at_p found. absurd (ground arith);
      },
      lost,
    )
