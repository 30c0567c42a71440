-- ===== src/State/Graph/Horizon.antt =====
-- `hasHorizon`, `baseBounds`, `horizonBounds` and `cleanHorizon` on a graph without gaps.
use libvda5050pp.Common.{
  ℕ, suc, ◌+◌, ◌≤◌, ◌<◌, ◌≡◌, refl, subst, true, false, Option, none, some, [], ◌∷◌, arith, All, ok,
  if◌then◌else◌, Bool-cases, Option-cases, inl, inr, u32,
}
use libvda5050pp.Common.OrdMap.{From, first?, last?, erase_from}
use libvda5050pp.State.Graph.Element.{GraphElement, is_horizon, is_base}
use libvda5050pp.State.Graph.Defs.{
  has_horizon, base_bounds, horizon_bounds, bounds, clean_horizon, last_base?,
}
use libvda5050pp.State.Graph.Valid.{Elements, IsKeyed, AllHorizon, BaseFirst, IsSorted, Contiguous}

-- The base part of a graph.
unfoldable pub keep_base : Elements → Elements
keep_base [] = []
keep_base (e ∷ m) = if is_base e.1 then e ∷ keep_base m else keep_base m

keep_base-AllHorizon : (m : Elements) → AllHorizon m → keep_base m ≡ []
unfolding keep_base
keep_base-AllHorizon [] a = refl
keep_base-AllHorizon (e ∷ m) a = ground (arith, keep_base-AllHorizon m a.1)

pub last_base?-AllHorizon : (m : Elements) → AllHorizon m → last_base? m ≡ none
unfolding last_base?
last_base?-AllHorizon [] a = refl
last_base?-AllHorizon (e ∷ m) a = ground (arith, last_base?-AllHorizon m a.1)

-- Only a graph of horizon elements has no last base element.
pub last_base?-none : (m : Elements) → last_base? m ≡ none → AllHorizon m
unfolding last_base?
last_base?-none [] h = tt
last_base?-none (e ∷ m) h = ground (arith, last_base?-none m)

pub AllHorizon-last :
    (e : ℕ × GraphElement) (m : Elements) → AllHorizon m → last? m ≡ some e → is_horizon e.1 ≡ true
unfolding last?
AllHorizon-last e [] a l = cc
AllHorizon-last e (g ∷ []) a l = ground arith
AllHorizon-last e (g ∷ g' ∷ m) a l = AllHorizon-last e (g' ∷ m) a.1 l

keep_base_self :
    (e : ℕ × GraphElement) (m : Elements)
    → BaseFirst m
    → last? m ≡ some e
    → is_horizon e.1 ≡ false
    → keep_base m ≡ m
unfolding keep_base last?
keep_base_self e [] f l h = refl
keep_base_self e (g ∷ []) f l h = ground arith
keep_base_self e (g ∷ g' ∷ m) f l h = ground (
  arith,
  keep_base_self e (g' ∷ m) f.1 l h,
  λ (a : AllHorizon (g' ∷ m)). AllHorizon-last e (g' ∷ m) a l,
)

last_base?-ge :
    (n : ℕ) (b : ℕ × GraphElement) (m : Elements) → Contiguous n m → last_base? m ≡ some b → n ≤ b.0
unfolding last_base?
last_base?-ge n b [] c h = cc
last_base?-ge n b (e ∷ m) c h = elim (Option-cases (last_base? m)) [
  | inl missing ↦ ground arith
  | inr (b', found) ↦ ground (arith, last_base?-ge (suc n) b' m c.1 found)
]

erase_from-keep_base :
    (n : ℕ) (b e : ℕ × GraphElement) (m : Elements)
    → Contiguous n m
    → BaseFirst m
    → last_base? m ≡ some b
    → last? m ≡ some e
    → is_horizon e.1 ≡ true
    → erase_from (b.0 + 1) m ≡ keep_base m
unfolding last_base? last? erase_from keep_base
erase_from-keep_base n b e [] c f p l h = cc
erase_from-keep_base n b e (g ∷ []) c f p l h = ground arith
erase_from-keep_base n b e (g ∷ g' ∷ m) c f p l h = elim (Option-cases (last_base? (g' ∷ m))) [
  | inl missing ↦ ground (arith, keep_base-AllHorizon (g' ∷ m) (last_base?-none (g' ∷ m) missing))
  | inr (b', found) ↦ ground (
    arith,
    erase_from-keep_base (suc n) b' e (g' ∷ m) c.1 f.1 found l h,
    last_base?-ge (suc n) b' (g' ∷ m) c.1 found,
    λ (a : AllHorizon (g' ∷ m)). last_base?-AllHorizon (g' ∷ m) a,
  )
]

pub last?-some :
    (e : ℕ × GraphElement) (m : Elements) → (l : ℕ × GraphElement) × (last? (e ∷ m) ≡ some l)
unfolding last?
last?-some e [] = (e, refl)
last?-some e (f ∷ m) = last?-some f m

pub last?-All :
    (P : ℕ × GraphElement → Type 0) (e : ℕ × GraphElement) (m : Elements)
    → All P m
    → last? m ≡ some e
    → P e
unfolding last?
last?-All P e [] a l = cc
last?-All P e (g ∷ []) a l = let same : g ≡ e = cc in subst P same a.0
last?-All P e (g ∷ g' ∷ m) a l = last?-All P e (g' ∷ m) a.1 l

pub last?-From :
    (n : ℕ) (e : ℕ × GraphElement) (m : Elements) → From n m → last? m ≡ some e → n ≤ e.0
unfolding last?
last?-From n e [] s l = cc
last?-From n e (g ∷ []) s l = ground arith
last?-From n e (g ∷ g' ∷ m) s l = omega (arith, last?-From (suc g.0) e (g' ∷ m) s.1 l)

-- The last base element stands before the last element, if that is a horizon element.
pub last_base?-lt :
    (n : ℕ) (b e : ℕ × GraphElement) (m : Elements)
    → From n m
    → last_base? m ≡ some b
    → last? m ≡ some e
    → is_horizon e.1 ≡ true
    → b.0 < e.0
unfolding last_base? last?
last_base?-lt n b e [] s p l h = cc
last_base?-lt n b e (g ∷ []) s p l h = ground arith
last_base?-lt n b e (g ∷ g' ∷ m) s p l h = elim (Option-cases (last_base? (g' ∷ m))) [
  | inl missing ↦ ground (arith, last?-From (suc g.0) e (g' ∷ m) s.1 l)
  | inr (b', found) ↦ ground (arith, last_base?-lt (suc g.0) b' e (g' ∷ m) s.1 found l h)
]

pub last_base?-some :
    (e : ℕ × GraphElement) (m : Elements)
    → is_base e.1 ≡ true
    → (b : ℕ × GraphElement) × (last_base? (e ∷ m) ≡ some b)
unfolding last_base?
last_base?-some e m h = elim (Option-cases (last_base? m)) [
  | inl missing ↦ (e, rw missing (rw h))
  | inr (b, found) ↦ (b, rw found)
]

-- What `cleanHorizon` computes on a graph whose first element is `e` and whose last is `l`.
pub clean_cases :
    (n : ℕ) (agv : Option ℕ) (e b l : ℕ × GraphElement) (m : Elements)
    → IsSorted (record { agv_pos = agv; graph = e ∷ m })
    → Contiguous n (e ∷ m)
    → last_base? (e ∷ m) ≡ some b
    → last? (e ∷ m) ≡ some l
    → clean_horizon (record { agv_pos = agv; graph = e ∷ m })
      ≡ ok (record { agv_pos = agv; graph = keep_base (e ∷ m) })
unfolding clean_horizon has_horizon horizon_bounds base_bounds bounds first?
clean_cases n agv e b l m v c hb hl = elim (Bool-cases (is_horizon l.1)) [
  | inl horizon ↦
      let lt : b.0 < l.0 = last_base?-lt 0 b l (e ∷ m) v.ordered hb hl horizon in
      let small : l.0 < 4294967296 = (last?-All IsKeyed l (e ∷ m) v.keyed hl).1 in
      let cut : erase_from (b.0 + 1) (e ∷ m) ≡ keep_base (e ∷ m) =
        erase_from-keep_base n b l (e ∷ m) c v.separated hb hl horizon in
      let no_wrap : u32 (b.0 + 1) ≡ b.0 + 1 = omega arith in ground arith
  | inr base ↦
      let same : keep_base (e ∷ m) ≡ e ∷ m = keep_base_self l (e ∷ m) v.separated hl base in
      ground arith
]
