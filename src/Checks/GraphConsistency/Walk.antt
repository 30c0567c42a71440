-- ===== src/Checks/GraphConsistency/Walk.antt =====
-- The two loops over the nodes and the edges.
use libvda5050pp.Common.{
  ℕ, ◌%◌, ◌≡◌, ◌≢◌, refl, sym, ◌⊎◌, inl, inr, Bool, true, false, not, ◌&&◌, ◌||◌, List, [], ◌∷◌,
  map, arith, All, ◌==◌, if◌then◌else◌,
}
use libvda5050pp.Message.{Node, Edge}
use libvda5050pp.Checks.GraphConsistency.IdSet.{
  contains, insert_id, Grows, insert_id-Grows, contains-insert_id,
}
use libvda5050pp.Checks.GraphConsistency.Defs.{
  CheckError, Walk, found, rejected, take_id, check_node, check_edge, check_nodes, check_edges,
}

-- A sequence id, and whether its element is released.
abbrev pub Key : Type 0
Key = ℕ × Bool

abbrev pub node_key : Node → Key
node_key n = (n.sequence_id, n.released)

abbrev pub edge_key : Edge → Key
edge_key e = (e.sequence_id, e.released)

abbrev same : Bool → Bool → Bool
same true r = r
same false r = not r

-- An element with the sequence id that is released, or one that is not.
unfoldable pub has_id : Bool → ℕ → List Key → Bool
has_id released i [] = false
has_id released i (k ∷ ks) = (k.0 == i && same k.1 released) || has_id released i ks

abbrev pub Distinct : List Key → Type 0
Distinct [] = Unit
Distinct (k ∷ ks) = All (λ j. j.0 ≢ k.0) ks × Distinct ks

abbrev pub New : List ℕ → List ℕ → Key → Type 0
New base horz k = (contains k.0 base ≡ false) × (contains k.0 horz ≡ false)

-- What a loop over the elements with the keys makes of the sets.
pub record Walked (ks : List Key) (base horz base' horz' : List ℕ) : Type 0 where
  pub in_base : (i : ℕ) → contains i base' ≡ (contains i base || has_id true i ks)
  pub in_horz : (i : ℕ) → contains i horz' ≡ (contains i horz || has_id false i ks)
  pub base_grows : Grows 0 base → Grows 0 base'
  pub horz_grows : Grows 0 horz → Grows 0 horz'
  pub fresh : All (New base horz) ks
  pub distinct : Distinct ks

Walked-nil : (base horz : List ℕ) → Walked [] base horz base horz
unfolding has_id
Walked-nil base horz = record {
  in_base = λ i. ground arith;
  in_horz = λ i. ground arith;
  base_grows = λ g. g;
  horz_grows = λ g. g;
  fresh = tt;
  distinct = tt;
}

abbrev pub put : Bool → ℕ → List ℕ → List ℕ
put here seq s = if here then insert_id seq s else s

later :
    (seq : ℕ) (released : Bool) (base horz : List ℕ) (ks : List Key)
    → All (New (put released seq base) (put (not released) seq horz)) ks
    → All (New base horz) ks × All (λ j. j.0 ≢ seq) ks
later seq released base horz [] a = (tt, tt)
later seq true base horz (k ∷ ks) a =
    let (rest, others) = later seq true base horz ks a.1 in
    (
      (ground (arith, contains-insert_id k.0 seq base), rest),
      ((λ p. absurd (ground (arith, contains-insert_id k.0 seq base))), others),
    )
later seq false base horz (k ∷ ks) a =
    let (rest, others) = later seq false base horz ks a.1 in
    (
      (ground (arith, contains-insert_id k.0 seq horz), rest),
      ((λ p. absurd (ground (arith, contains-insert_id k.0 seq horz))), others),
    )

Walked-cons :
    (seq : ℕ) (released : Bool) (ks : List Key) (base horz base' horz' : List ℕ)
    → contains seq base ≡ false
    → contains seq horz ≡ false
    → Walked ks (put released seq base) (put (not released) seq horz) base' horz'
    → Walked ((seq, released) ∷ ks) base horz base' horz'
unfolding has_id
Walked-cons seq released ks base horz base' horz' u v w =
    let (rest, others) = later seq released base horz ks w.fresh in
    record {
      in_base = λ i. ground (arith, w.in_base i, contains-insert_id i seq base);
      in_horz = λ i. ground (arith, w.in_horz i, contains-insert_id i seq horz);
      base_grows = λ g. ground (arith, insert_id-Grows 0 seq base, w.base_grows);
      horz_grows = λ g. ground (arith, insert_id-Grows 0 seq horz, w.horz_grows);
      fresh = ((u, v), rest);
      distinct = (others, w.distinct);
    }

take_id-found :
    (wrong : Bool) (parity duplicate : CheckError) (seq : ℕ) (released : Bool)
    (base horz base' horz' : List ℕ)
    → take_id wrong parity duplicate seq released base horz ≡ found base' horz'
    → (wrong ≡ false)
      × (contains seq base ≡ false)
      × (contains seq horz ≡ false)
      × (base' ≡ put released seq base)
      × (horz' ≡ put (not released) seq horz)
unfolding take_id
take_id-found wrong parity duplicate seq released base horz base' horz' h = ground arith

pub Walk-cases :
    (w : Walk)
    → ((base : List ℕ) × (horz : List ℕ) × (w ≡ found base horz))
      ⊎ ((e : CheckError) × (w ≡ rejected e))
Walk-cases (found base horz) = inl (base, horz, refl)
Walk-cases (rejected e) = inr (e, refl)

abbrev pub IsEven : Node → Type 0
IsEven n = n.sequence_id % 2 ≡ 0

abbrev pub IsOdd : Edge → Type 0
IsOdd e = e.sequence_id % 2 ≡ 1

pub check_nodes-Walked :
    (ns : List Node) (base horz base' horz' : List ℕ)
    → check_nodes ns base horz ≡ found base' horz'
    → All IsEven ns × Walked (map node_key ns) base horz base' horz'
unfolding check_nodes check_node
check_nodes-Walked [] base horz base' horz' h =
    let b : base ≡ base' = ground arith in
    let c : horz ≡ horz' = ground arith in (tt, rw b (rw c (Walked-nil base' horz')))
check_nodes-Walked (n ∷ ns) base horz base' horz' h = elim (Walk-cases (check_node n base horz)) [
  | inr (e, stop) ↦ absurd (ground arith)
  | inl (base₁, horz₁, go) ↦
      let (even, b, c, p, q) =
        take_id-found _ _ _ n.sequence_id n.released base horz base₁ horz₁ go in
      let (evens, walked) = check_nodes-Walked ns base₁ horz₁ base' horz' (ground arith) in
      (
        (ground arith, evens),
        Walked-cons n.sequence_id n.released (map node_key ns) base horz base' horz' b c
            (rw (sym p) (rw (sym q) walked)),
      )
]

pub check_edges-Walked :
    (es : List Edge) (base horz base' horz' : List ℕ)
    → check_edges es base horz ≡ found base' horz'
    → All IsOdd es × Walked (map edge_key es) base horz base' horz'
unfolding check_edges check_edge
check_edges-Walked [] base horz base' horz' h =
    let b : base ≡ base' = ground arith in
    let c : horz ≡ horz' = ground arith in (tt, rw b (rw c (Walked-nil base' horz')))
check_edges-Walked (e ∷ es) base horz base' horz' h = elim (Walk-cases (check_edge e base horz)) [
  | inr (x, stop) ↦ absurd (ground arith)
  | inl (base₁, horz₁, go) ↦
      let (odd, b, c, p, q) =
        take_id-found _ _ _ e.sequence_id e.released base horz base₁ horz₁ go in
      let (odds, walked) = check_edges-Walked es base₁ horz₁ base' horz' (ground arith) in
      (
        (ground arith, odds),
        Walked-cons e.sequence_id e.released (map edge_key es) base horz base' horz' b c
            (rw (sym p) (rw (sym q) walked)),
      )
]
