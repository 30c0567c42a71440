-- ===== src/State/Graph/Valid.antt =====
-- The invariants of `Graph`. graph.h states three: the graph is not empty, no base element follows
-- a horizon element, and the AGV is not on the horizon. `IsSorted` has the second, and what the map
-- gives (the keys are the sequence ids, and grow); `IsValid` has all of them.
use libvda5050pp.Common.{ℕ, suc, ◌<◌, ◌≡◌, true, false, some, is_empty, List, [], ◌∷◌, arith, All}
use libvda5050pp.Common.OrdMap.{find, find_below, From, insert_or_assign, try_emplace, merge}
use libvda5050pp.State.Graph.Element.{GraphElement, get_sequence_id, is_node, is_horizon, is_base}
use libvda5050pp.State.Graph.Defs.{Graph}

abbrev pub Elements : Type 0
Elements = List (ℕ × GraphElement)

-- Each element stands under its own sequence id, a `uint32_t`.
abbrev pub IsKeyed : ℕ × GraphElement → Type 0
IsKeyed e = (e.0 ≡ get_sequence_id e.1) × (e.0 < 4294967296)

abbrev pub AllHorizon : Elements → Type 0
AllHorizon = All (λ e. is_horizon e.1 ≡ true)

-- No base element follows a horizon element.
abbrev pub BaseFirst : Elements → Type 0
BaseFirst [] = Unit
BaseFirst (e ∷ m) = (is_horizon e.1 ≡ true → AllHorizon m) × BaseFirst m

pub record IsSorted (g : Graph) : Type 0 where
  pub ordered : From 0 g.graph
  pub keyed : All IsKeyed g.graph
  pub separated : BaseFirst g.graph

-- The AGV's position, where it is known, is not that of a horizon element.
abbrev pub OffHorizon : Graph → Type 0
OffHorizon g =
    (p : ℕ) (e : GraphElement) → g.agv_pos ≡ some p → find p g.graph ≡ some e → is_base e ≡ true

-- The invariants that graph.h states, on a sorted map.
pub record IsValid (g : Graph) : Type 0 where
  pub sorted : IsSorted g
  pub not_empty : is_empty g.graph ≡ false
  pub off_horizon : OffHorizon g

-- The AGV is on a released node of the graph, if it is on the graph at all.
abbrev pub AgvOnBase : Graph → Type 0
AgvOnBase g =
    (p : ℕ)
    → g.agv_pos ≡ some p
    → (e : GraphElement) × (find p g.graph ≡ some e) × (is_node e ≡ true) × (is_base e ≡ true)

-- The sequence ids have no gap.
abbrev pub Contiguous : ℕ → Elements → Type 0
Contiguous n [] = Unit
Contiguous n (e ∷ m) = (e.0 ≡ n) × Contiguous (suc n) m

pub Contiguous-From : (n : ℕ) (m : Elements) → Contiguous n m → From n m
Contiguous-From n [] c = tt
Contiguous-From n ((k, e) ∷ m) (p, c) = (omega arith, rw p (Contiguous-From (suc n) m c))

module _ (P : ℕ × GraphElement → Type 0) where
  pub All-find : (k : ℕ) {e : GraphElement} (m : Elements) → All P m → find k m ≡ some e → P (k, e)
  unfolding find
  All-find k [] a h = cc
  All-find k {e} ((j, w) ∷ m) (p, a) h = ground (arith, All-find k {e = e} m a)

  pub insert_or_assign-All :
      (k : ℕ) (e : GraphElement) (m : Elements)
      → P (k, e)
      → All P m
      → All P (insert_or_assign k e m)
  unfolding insert_or_assign
  insert_or_assign-All k e [] p a = (p, tt)
  insert_or_assign-All k e (f ∷ m) p a = ground (arith, insert_or_assign-All k e m p a.1)

  pub merge-All : (m l : Elements) → All P m → All P l → All P (merge m l)
  unfolding merge try_emplace
  merge-All m [] a b = a
  merge-All m ((k, e) ∷ l) a b =
      merge-All (try_emplace k e m) l (ground (arith, insert_or_assign-All k e m b.0 a)) b.1

AllHorizon-not_base :
    (j : ℕ) (b : GraphElement) (m : Elements)
    → AllHorizon m
    → find j m ≡ some b
    → is_base b ≡ true
    → ⊥
AllHorizon-not_base j b m a h e =
    let hz : is_horizon b ≡ true = All-find (λ x. is_horizon x.1 ≡ true) j m a h in ground arith

-- Read at two lookups.
pub BaseFirst-find :
    (n i j : ℕ) (a b : GraphElement) (m : Elements)
    → From n m
    → BaseFirst m
    → find i m ≡ some a
    → find j m ≡ some b
    → is_horizon a ≡ true
    → is_base b ≡ true
    → j < i
unfolding find
BaseFirst-find n i j a b [] s f p q u v = cc
BaseFirst-find n i j a b ((k, e) ∷ m) s f p q u v = ground (
  arith,
  BaseFirst-find (suc k) i j a b m s.1 f.1,
  AllHorizon-not_base j b m,
  find_below (suc k) i m s.1,
  find_below (suc k) j m s.1,
)
