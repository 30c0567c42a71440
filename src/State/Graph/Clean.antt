-- ===== src/State/Graph/Clean.antt =====
-- `Graph::cleanHorizon`: what it keeps, and where it keeps too much.
use libvda5050pp.Common.{
  ℕ, suc, ◌+◌, ◌<◌, ◌≡◌, refl, true, Option, none, some, [], ◌∷◌, arith, All, ok, if◌then◌else◌,
  u32,
}
use libvda5050pp.Common.OrdMap.{find, find_below, From, From-mono, first?, last?, erase_from}
use libvda5050pp.State.Graph.Element.{GraphElement, is_horizon, is_base}
use libvda5050pp.State.Graph.Defs.{
  Graph, has_base, has_horizon, base_bounds, horizon_bounds, bounds, clean_horizon, last_base?,
}
use libvda5050pp.State.Graph.Valid.{Elements, IsKeyed, IsSorted, Contiguous}
use libvda5050pp.State.Graph.Horizon.{
  keep_base, clean_cases, last_base?-some, last?-some, last?-All, last_base?-lt,
}

clean_horizon_on :
    (n : ℕ) (agv : Option ℕ) (m : Elements)
    → IsSorted (record { agv_pos = agv; graph = m })
    → Contiguous n m
    → has_base (record { agv_pos = agv; graph = m }) ≡ ok true
    → clean_horizon (record { agv_pos = agv; graph = m })
      ≡ ok (record { agv_pos = agv; graph = keep_base m })
unfolding has_base first?
clean_horizon_on n agv [] v c h = cc
clean_horizon_on n agv (e ∷ m) v c h =
    let (b, hb) = last_base?-some e m (ground arith) in
    let (l, hl) = last?-some e m in clean_cases n agv e b l m v c hb hl

-- On a sorted graph with a base and sequence ids without gaps, `cleanHorizon`
-- removes exactly the horizon elements.
pub clean_horizon-keep_base :
    (n : ℕ) (g : Graph)
    → IsSorted g
    → Contiguous n g.graph
    → has_base g ≡ ok true
    → clean_horizon g ≡ ok (record g { graph = keep_base g.graph })
clean_horizon-keep_base n g v c h = clean_horizon_on n g.agv_pos g.graph v c h

erase_from_missing : (k : ℕ) (m : Elements) → find k m ≡ none → erase_from k m ≡ m
unfolding erase_from find
erase_from_missing k [] h = refl
erase_from_missing k (e ∷ m) h = ground (arith, erase_from_missing k m)

-- Where the sequence id behind the last base element is missing, `cleanHorizon` removes nothing at
-- all, although there is a horizon.
pub clean_horizon_gap :
    (g : Graph) (e b l : ℕ × GraphElement)
    → IsSorted g
    → first? g.graph ≡ some e
    → last_base? g.graph ≡ some b
    → last? g.graph ≡ some l
    → is_horizon l.1 ≡ true
    → find (b.0 + 1) g.graph ≡ none
    → clean_horizon g ≡ ok g
unfolding clean_horizon has_horizon horizon_bounds base_bounds bounds
clean_horizon_gap g e b l v hf hb hl horizon gap =
    let lt : b.0 < l.0 = last_base?-lt 0 b l g.graph v.ordered hb hl horizon in
    let small : l.0 < 4294967296 = (last?-All IsKeyed l g.graph v.keyed hl).1 in
    let no_wrap : u32 (b.0 + 1) ≡ b.0 + 1 = omega arith in
    ground (arith, erase_from_missing (b.0 + 1) g.graph gap)

pub find-keep_base :
    (n j : ℕ) (m : Elements)
    → From n m
    → find j (keep_base m)
      ≡ (elim (find j m) [ none ↦ none | some e ↦ if is_base e then some e else none ])
unfolding find keep_base
find-keep_base n j [] s = refl
find-keep_base n j ((k, e) ∷ m) s =
    ground (arith, find-keep_base (suc k) j m s.1, find_below (suc k) j m s.1)

pub keep_base-From : (n : ℕ) (m : Elements) → From n m → From n (keep_base m)
unfolding keep_base
keep_base-From n [] s = tt
keep_base-From n (e ∷ m) s =
    ground (arith, keep_base-From (suc e.0) m s.1, From-mono n (suc e.0) (keep_base m))

pub keep_base-All : (P : ℕ × GraphElement → Type 0) (m : Elements) → All P m → All P (keep_base m)
unfolding keep_base
keep_base-All P [] a = tt
keep_base-All P (e ∷ m) a = ground (arith, keep_base-All P m a.1)

pub keep_base_base : (m : Elements) → All (λ e. is_base e.1 ≡ true) (keep_base m)
unfolding keep_base
keep_base_base [] = tt
keep_base_base (e ∷ m) = ground (arith, keep_base_base m)
