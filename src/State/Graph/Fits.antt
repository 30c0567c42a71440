-- ===== src/State/Graph/Fits.antt =====
-- Where an element fits into a graph, and that the guard of `Graph::update` tells.
use libvda5050pp.Common.{
  ℕ, suc, ◌≤◌, ◌<◌, ◌≡◌, refl, Bool, true, false, Option, none, some, [], ◌∷◌, arith, All, ltb,
  Bool-cases, Option-cases, inl, inr, ltb→lt,
}
use libvda5050pp.Common.OrdMap.{From, insert_or_assign, upper_bound, before_upper}
use libvda5050pp.State.Graph.Element.{GraphElement, is_horizon, is_base}
use libvda5050pp.State.Graph.Defs.{breaks_invariant}
use libvda5050pp.State.Graph.Valid.{Elements, AllHorizon, BaseFirst, insert_or_assign-All}

-- A base element wants base elements up to its place, a horizon element horizon ones behind it.
abbrev pub Fits : ℕ → GraphElement → Elements → Type 0
Fits seq element m =
    (is_base element ≡ true → All (λ x. x.0 ≤ seq → is_base x.1 ≡ true) m)
    × (is_horizon element ≡ true → All (λ x. seq < x.0 → is_horizon x.1 ≡ true) m)

horizon_at : Option (ℕ × GraphElement) → Bool
horizon_at none = false
horizon_at (some e) = is_horizon e.1

base_at : Option (ℕ × GraphElement) → Bool
base_at none = false
base_at (some e) = is_base e.1

AllHorizon-before :
    (k : ℕ) (e : ℕ × GraphElement) (m : Elements)
    → AllHorizon m
    → before_upper k m ≡ some e
    → is_horizon e.1 ≡ true
unfolding before_upper
AllHorizon-before k e [] a h = cc
AllHorizon-before k e (f ∷ m) a h = ground (arith, AllHorizon-before k e m a.1)

above-All :
    (P : ℕ × GraphElement → Type 0) (k n : ℕ) (m : Elements)
    → From n m
    → k < n
    → All (λ x. x.0 ≤ k → P x) m
above-All P k n [] s h = tt
above-All P k n (f ∷ m) s h =
    ((λ le. absurd (omega arith)), above-All P k (suc f.0) m s.1 (omega arith))

before-All :
    (n k : ℕ) (m : Elements)
    → From n m
    → BaseFirst m
    → horizon_at (before_upper k m) ≡ false
    → All (λ x. x.0 ≤ k → is_base x.1 ≡ true) m
unfolding before_upper horizon_at
before-All n k [] s f h = tt
before-All n k (e ∷ m) s f h = elim (Bool-cases (ltb k e.0)) [
  | inl lt ↦ (
    (λ le. absurd (omega (arith, ltb→lt k e.0 lt))),
    above-All (λ x. is_base x.1 ≡ true) k (suc e.0) m s.1 (omega (arith, ltb→lt k e.0 lt)),
  )
  | inr ge ↦ elim (Option-cases (before_upper k m)) [
    | inl missing ↦ ((λ le. ground arith), before-All (suc e.0) k m s.1 f.1 (ground arith))
    | inr (g, found) ↦ (
      (λ le. ground (arith, AllHorizon-before k g m)),
      before-All (suc e.0) k m s.1 f.1 (ground arith),
    )
  ]
]

horizon-All : (k : ℕ) (m : Elements) → AllHorizon m → All (λ x. k < x.0 → is_horizon x.1 ≡ true) m
horizon-All k [] a = tt
horizon-All k (e ∷ m) a = ((λ _. a.0), horizon-All k m a.1)

upper-All :
    (n k : ℕ) (m : Elements)
    → From n m
    → BaseFirst m
    → base_at (upper_bound k m) ≡ false
    → All (λ x. k < x.0 → is_horizon x.1 ≡ true) m
unfolding upper_bound base_at
upper-All n k [] s f h = tt
upper-All n k (e ∷ m) s f h = elim (Bool-cases (ltb k e.0)) [
  | inl lt ↦ ((λ _. ground arith), horizon-All k m (f.0 (ground arith)))
  | inr ge ↦ ((λ lt. ground arith), upper-All (suc e.0) k m s.1 f.1 (ground arith))
]

-- The guard refuses exactly what does not fit.
pub guard-Fits :
    (n k : ℕ) (e : GraphElement) (m : Elements)
    → From n m
    → BaseFirst m
    → breaks_invariant e (before_upper k m) (upper_bound k m) ≡ false
    → Fits k e m
unfolding breaks_invariant horizon_at base_at
guard-Fits n k e m s f h =
    ((λ b. before-All n k m s f (ground arith)), (λ z. upper-All n k m s f (ground arith)))

before_horizon :
    (k : ℕ) (m : Elements)
    → All (λ x. x.0 ≤ k → is_base x.1 ≡ true) m
    → horizon_at (before_upper k m) ≡ false
unfolding before_upper horizon_at
before_horizon k [] a = refl
before_horizon k (e ∷ m) a = ground (arith, before_horizon k m a.1)

upper_base :
    (k : ℕ) (m : Elements)
    → All (λ x. k < x.0 → is_horizon x.1 ≡ true) m
    → base_at (upper_bound k m) ≡ false
unfolding upper_bound base_at
upper_base k [] a = refl
upper_base k (e ∷ m) a = ground (arith, upper_base k m a.1)

pub Fits-guard :
    (k : ℕ) (e : GraphElement) (m : Elements)
    → Fits k e m
    → breaks_invariant e (before_upper k m) (upper_bound k m) ≡ false
unfolding breaks_invariant horizon_at base_at
Fits-guard k e m h = ground (
  arith,
  λ (b : is_base e ≡ true). before_horizon k m (h.0 b),
  λ (z : is_horizon e ≡ true). upper_base k m (h.1 z),
)

Fits-AllHorizon :
    (n k : ℕ) (m : Elements)
    → From n m
    → k < n
    → All (λ x. k < x.0 → is_horizon x.1 ≡ true) m
    → AllHorizon m
Fits-AllHorizon n k [] s h a = tt
Fits-AllHorizon n k (e ∷ m) s h a =
    (a.0 (omega arith), Fits-AllHorizon (suc e.0) k m s.1 (omega arith) a.1)

pub insert_or_assign-BaseFirst :
    (n k : ℕ) (e : GraphElement) (m : Elements)
    → From n m
    → BaseFirst m
    → Fits k e m
    → BaseFirst (insert_or_assign k e m)
unfolding insert_or_assign
insert_or_assign-BaseFirst n k e [] s f h = ((λ _. tt), tt)
insert_or_assign-BaseFirst n k e (g ∷ m) s f h =
    let fits : Fits k e m = ((λ b. (h.0 b).1), (λ z. (h.1 z).1)) in
    ground (
      arith,
      insert_or_assign-BaseFirst (suc g.0) k e m s.1 f.1 fits,
      insert_or_assign-All (λ x. is_horizon x.1 ≡ true) k e m,
      λ (z : is_horizon e ≡ true) (lt : k < suc g.0).
          Fits-AllHorizon (suc g.0) k m s.1 lt (fits.1 z),
      λ (z : is_horizon e ≡ true) (lt : k < g.0). (h.1 z).0 lt,
      λ (b : is_base e ≡ true) (le : g.0 ≤ k). (h.0 b).0 le,
    )
