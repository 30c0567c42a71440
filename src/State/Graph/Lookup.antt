-- ===== src/State/Graph/Lookup.antt =====
-- What a sorted graph is, read back from lookups.
use libvda5050pp.Common.{
  ℕ, suc, ◌≤◌, ◌<◌, ◌≡◌, true, some, [], ◌∷◌, arith, All, ◌==◌, Bool-cases, Option-cases, inl, inr,
}
use libvda5050pp.Common.OrdMap.{find, find_below, From}
use libvda5050pp.State.Graph.Element.{GraphElement, is_horizon, is_base}
use libvda5050pp.State.Graph.Defs.{last_base?}
use libvda5050pp.State.Graph.Valid.{Elements, BaseFirst, Contiguous, All-find}
use libvda5050pp.State.Graph.Horizon.{last_base?-none}

find_skip :
    (k j : ℕ) (e w : GraphElement) (m : Elements)
    → From (suc k) m
    → find j m ≡ some w
    → (find j ((k, e) ∷ m) ≡ some w) × (k < j)
unfolding find
find_skip k j e w m s h = ground (arith, find_below (suc k) j m s)

pub All-of_find :
    (P : ℕ × GraphElement → Type 0) (n : ℕ) (m : Elements)
    → From n m
    → ((j : ℕ) (w : GraphElement) → find j m ≡ some w → P (j, w))
    → All P m
unfolding find
All-of_find P n [] s h = tt
All-of_find P n ((k, e) ∷ m) s h = (
  h k e (ground arith),
  All-of_find P (suc k) m s.1 (λ j w q. h j w (find_skip k j e w m s.1 q).0),
)

-- The converse of `BaseFirst-find`.
pub BaseFirst-of_find :
    (n : ℕ) (m : Elements)
    → From n m
    → ((i j : ℕ) (a b : GraphElement)
        → find i m ≡ some a
        → find j m ≡ some b
        → is_horizon a ≡ true
        → is_base b ≡ true
        → j < i)
    → BaseFirst m
unfolding find
BaseFirst-of_find n [] s h = tt
BaseFirst-of_find n ((k, e) ∷ m) s h = (
  (λ z.
      All-of_find (λ x. is_horizon x.1 ≡ true) (suc k) m s.1
        λ j w q. elim (Bool-cases (is_horizon w)) [
          | inl horizon ↦ horizon
          | inr base ↦
              let (skip, above) = find_skip k j e w m s.1 q in
              let low : j < k = h k j e w (ground arith) skip z (ground arith) in
              absurd (omega arith)
        ]),
  BaseFirst-of_find (suc k) m s.1
      λ i j a b p q. h i j a b (find_skip k i e a m s.1 p).0 (find_skip k j e b m s.1 q).0,
)

-- Below a key of a graph without gaps every key is there.
pub Contiguous-find :
    (n i j : ℕ) (w : GraphElement) (m : Elements)
    → Contiguous n m
    → find j m ≡ some w
    → n ≤ i
    → i ≤ j
    → (a : GraphElement) × (find i m ≡ some a)
unfolding find
Contiguous-find n i j w [] c h p q = cc
Contiguous-find n i j w ((k, e) ∷ m) c h p q = elim (Bool-cases (k == i)) [
  | inl here ↦ (e, ground arith)
  | inr later ↦
      let (a, found) = Contiguous-find (suc n) i j w m c.1 (ground arith) (ground arith) q in
      (a, ground arith)
]

-- The converse.
pub Contiguous-of_find :
    (n : ℕ) (m : Elements)
    → From n m
    → ((i j : ℕ) (w : GraphElement)
        → find j m ≡ some w
        → n ≤ i
        → i ≤ j
        → (a : GraphElement) × (find i m ≡ some a))
    → Contiguous n m
unfolding find
Contiguous-of_find n [] s h = tt
Contiguous-of_find n ((k, e) ∷ m) s h =
    let (a, found) = h n k e (ground arith) (omega arith) s.0 in
    let first : k ≡ n = ground (arith, find_below k n ((k, e) ∷ m)) in
    (
      first,
      Contiguous-of_find (suc n) m (rw (← first) s.1) λ i j w q lo hi.
          let (b, there) = h i j w (find_skip k j e w m s.1 q).0 (omega arith) hi in
          (b, ground arith),
    )

pub find-last_base? :
    (n : ℕ) (b : ℕ × GraphElement) (m : Elements)
    → From n m
    → last_base? m ≡ some b
    → (find b.0 m ≡ some b.1) × (is_base b.1 ≡ true)
unfolding last_base? find
find-last_base? n b [] s p = cc
find-last_base? n b ((k, e) ∷ m) s p = elim (Option-cases (last_base? m)) [
  | inl missing ↦ ground arith
  | inr (b', found) ↦
      ground (arith, find-last_base? (suc k) b' m s.1 found, find_below (suc k) b'.0 m s.1)
]

-- The last base element bounds the base part.
pub last_base?-find :
    (n j : ℕ) (b : ℕ × GraphElement) (w : GraphElement) (m : Elements)
    → From n m
    → last_base? m ≡ some b
    → find j m ≡ some w
    → is_base w ≡ true
    → j ≤ b.0
unfolding last_base? find
last_base?-find n j b w [] s p q h = cc
last_base?-find n j b w ((k, e) ∷ m) s p q h = elim (Option-cases (last_base? m)) [
  | inl missing ↦ ground (
    arith,
    λ (f : find j m ≡ some w).
        All-find (λ x. is_horizon x.1 ≡ true) j {e = w} m (last_base?-none m missing) f,
  )
  | inr (b', found) ↦ ground (
    arith,
    last_base?-find (suc k) j b' w m s.1 found,
    find-last_base? (suc k) b' m s.1 found,
    find_below (suc k) b'.0 m s.1,
  )
]
