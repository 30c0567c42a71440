-- ===== src/State/Graph/Join.antt =====
-- The entries that `Graph::extend` leaves: those of the other graph, and the base of this graph.
use libvda5050pp.Common.{
  ℕ, suc, ◌+◌, ◌≤◌, ◌≡◌, ◌⊎◌, true, none, some, [], ◌∷◌, arith, ltb, if◌then◌else◌, Bool-cases,
  Option-cases, inl, inr,
}
use libvda5050pp.Common.OrdMap.{
  find, find_below, From, From-mono, first?, merge, merge-From, find-merge,
}
use libvda5050pp.State.Graph.Element.{GraphElement, is_base}
use libvda5050pp.State.Graph.Defs.{last_base?}
use libvda5050pp.State.Graph.Valid.{
  Elements, BaseFirst, BaseFirst-find, Contiguous, Contiguous-From,
}
use libvda5050pp.State.Graph.Horizon.{keep_base}
use libvda5050pp.State.Graph.Clean.{find-keep_base, keep_base-From}
use libvda5050pp.State.Graph.Lookup.{
  BaseFirst-of_find, Contiguous-find, Contiguous-of_find, last_base?-find, find-last_base?,
}

-- What joins two element maps: the second starts at the last base element of the first, or right
-- behind it.
pub record Joins (n : ℕ) (l m : Elements) (b o : ℕ × GraphElement) : Type 0 where
  pub left : From 0 l
  pub right : From 0 m
  pub left_sep : BaseFirst l
  pub right_sep : BaseFirst m
  pub last_base : last_base? l ≡ some b
  pub first : first? m ≡ some o
  pub meets : (b.0 + 1 ≡ o.0) ⊎ (b.0 ≡ o.0)

first?-From :
    (n j : ℕ) (o : ℕ × GraphElement) (w : GraphElement) (m : Elements)
    → From n m
    → first? m ≡ some o
    → find j m ≡ some w
    → o.0 ≤ j
unfolding first? find
first?-From n j o w [] s f h = cc
first?-From n j o w (e ∷ m) s f h = ground (arith, find_below (suc e.0) j m s.1)

first?-Contiguous :
    (n : ℕ) (o : ℕ × GraphElement) (m : Elements) → Contiguous n m → first? m ≡ some o → o.0 ≡ n
unfolding first?
first?-Contiguous n o [] c h = cc
first?-Contiguous n o (e ∷ m) c h = ground arith

module _ (n : ℕ) (l m : Elements) (b o : ℕ × GraphElement) (w : Joins n l m b o) where
  pub find-joined :
      (j : ℕ)
      → find j (merge m (keep_base l)) ≡ (elim (find j m) [
        | some e ↦ some e
        | none ↦ elim (find j l) [ none ↦ none | some e ↦ if is_base e then some e else none ]
      ])
  find-joined j = ground (
    arith,
    find-merge 0 j m (keep_base l) (keep_base-From 0 l w.left),
    find-keep_base 0 j l w.left,
  )

  pub joined-From : From 0 (merge m (keep_base l))
  joined-From = merge-From 0 m (keep_base l) w.right (keep_base-From 0 l w.left)

  pub joined-BaseFirst : BaseFirst (merge m (keep_base l))
  joined-BaseFirst = BaseFirst-of_find 0 (merge m (keep_base l)) joined-From λ i j a c p q u v.
      ground (
        arith,
        find-joined i,
        find-joined j,
        BaseFirst-find 0 i j a c m w.right w.right_sep,
        first?-From 0 i o a m w.right w.first,
        last_base?-find 0 j b c l w.left w.last_base,
        w.meets,
      )

  base_below :
      (i : ℕ)
      → Contiguous n l
      → n ≤ i
      → i ≤ b.0
      → (a : GraphElement) × (find i l ≡ some a) × (is_base a ≡ true)
  base_below i c lo hi =
      let (at_b, base_b) = find-last_base? 0 b l w.left w.last_base in
      let (a, found) = Contiguous-find n i b.0 b.1 l c at_b lo hi in
      (a, found, ground (arith, BaseFirst-find 0 i b.0 a b.1 l w.left w.left_sep found at_b))

  joined_gapless :
      (k i j : ℕ) (x : GraphElement)
      → Contiguous n l
      → Contiguous k m
      → find j (merge m (keep_base l)) ≡ some x
      → n ≤ i
      → i ≤ j
      → (a : GraphElement) × (find i (merge m (keep_base l)) ≡ some a)
  joined_gapless k i j x c d q lo hi = elim (Option-cases (find i m)) [
    | inr (a, found) ↦ (a, ground (arith, find-joined i))
    | inl missing ↦ elim (Bool-cases (ltb b.0 i)) [
      | inr low ↦
          let (a, found, base) = base_below i c lo (ground arith) in
          (a, ground (arith, find-joined i))
      | inl high ↦ elim (Option-cases (find j m)) [
        | inr (y, there) ↦
            let (a, found) =
              Contiguous-find k i j y m d there
                (ground (arith, first?-Contiguous k o m d w.first, w.meets)) hi in
            absurd (ground arith)
        | inl gone ↦
            absurd (ground (arith, find-joined j, last_base?-find 0 j b x l w.left w.last_base))
      ]
    ]
  ]

  start : (k : ℕ) → Contiguous n l → Contiguous k m → n ≤ k
  start k c d = ground (
    arith,
    first?-Contiguous k o m d w.first,
    (find-last_base? n b l (Contiguous-From n l c) w.last_base).0,
    find_below n b.0 l (Contiguous-From n l c),
    w.meets,
  )

  pub joined-Contiguous :
      (k : ℕ) → Contiguous n l → Contiguous k m → Contiguous n (merge m (keep_base l))
  joined-Contiguous k c d =
      Contiguous-of_find n (merge m (keep_base l))
        (merge-From n m (keep_base l) (From-mono n k m (start k c d) (Contiguous-From k m d))
          (keep_base-From n l (Contiguous-From n l c)))
        λ i j x q lo hi. joined_gapless k i j x c d q lo hi
