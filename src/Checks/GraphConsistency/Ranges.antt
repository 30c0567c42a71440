-- ===== src/Checks/GraphConsistency/Ranges.antt =====
-- The ranges of the two sets, and what `check_ranges` asks of them.
use libvda5050pp.Common.{
  ℕ, suc, ◌+◌, ◌-◌, ◌≤◌, ◌<◌, ◌≡◌, refl, true, false, ◌||◌, List, [], ◌∷◌, ◌++◌, arith, length,
  length-append, is_empty, u32,
}
use libvda5050pp.Checks.GraphConsistency.IdSet.{
  contains, first_id, last_id, Grows, Grows-mono, contains-range, length_le_range, contains-full,
  contains-append, append-Grows,
}
use libvda5050pp.Checks.GraphConsistency.Defs.{max_seq, min_seq, check_ranges}

pub last_id-append : (s t : List ℕ) → is_empty t ≡ false → last_id (s ++ t) ≡ last_id t
unfolding last_id
last_id-append [] t h = refl
last_id-append (j ∷ []) [] h = absurd (ground arith)
last_id-append (j ∷ []) (k ∷ t) h = refl
last_id-append (j ∷ i ∷ s) t h = last_id-append (i ∷ s) t h

pub contains-last_id : (j : ℕ) (s : List ℕ) → contains (last_id (j ∷ s)) (j ∷ s) ≡ true
unfolding contains last_id
contains-last_id j [] = ground arith
contains-last_id j (k ∷ s) = ground (arith, contains-last_id k s)

-- A set that has as many elements as its range has numbers.
full :
    (i j k x : ℕ) (s : List ℕ)
    → Grows 0 (x ∷ s)
    → last_id (x ∷ s) < 4294967296
    → u32 (last_id (x ∷ s) - x + 1) ≡ suc (length s)
    → contains i (x ∷ s) ≡ true
    → contains k (x ∷ s) ≡ true
    → i ≤ j
    → j ≤ k
    → contains j (x ∷ s) ≡ true
full i j k x s g small size p q lo hi =
    let least = length_le_range 0 x s g in
    let exact : last_id (x ∷ s) ≡ x + length s = omega (arith, least, size, small) in
    let (above, _) = contains-range 0 i x s g p in
    let (_, below) = contains-range 0 k x s g q in
    contains-full 0 j x s g exact (omega (arith, above)) (omega (arith, below))

pub ranges_separated :
    (i j : ℕ) (base horz : List ℕ)
    → Grows 0 base
    → Grows 0 horz
    → check_ranges base horz ≡ []
    → contains i base ≡ true
    → contains j horz ≡ true
    → i < j
unfolding check_ranges first_id contains
ranges_separated i j [] horz g h ok p q = absurd (ground arith)
ranges_separated i j (x ∷ s) [] g h ok p q = absurd (ground arith)
ranges_separated i j (x ∷ s) (y ∷ t) g h ok p q =
    ground (arith, contains-range 0 i x s g, contains-range 0 j y t h)

pub ranges_full :
    (i j k : ℕ) (base horz : List ℕ)
    → Grows 0 base
    → Grows 0 horz
    → last_id base < 4294967296
    → last_id horz < 4294967296
    → check_ranges base horz ≡ []
    → contains i base || contains i horz ≡ true
    → contains k base || contains k horz ≡ true
    → i ≤ j
    → j ≤ k
    → contains j base || contains j horz ≡ true
unfolding check_ranges min_seq max_seq first_id contains
ranges_full i j k [] [] g h u v ok p q lo hi = absurd (ground arith)
ranges_full i j k [] (y ∷ t) g h u v ok p q lo hi = ground (arith, full i j k y t h v)
ranges_full i j k (x ∷ s) [] g h u v ok p q lo hi = ground (arith, full i j k x s g u)
ranges_full i j k (x ∷ s) (y ∷ t) g h u v ok p q lo hi =
    let base_range = length_le_range 0 x s g in
    let horz_range = length_le_range 0 y t h in
    let apart : last_id (x ∷ s) < y = ground arith in
    let joined : Grows 0 (x ∷ s ++ y ∷ t) =
      append-Grows 0 y (x ∷ s) (y ∷ t) g (Grows-mono y y (y ∷ t) (omega arith) (omega arith, h.1))
        (λ m c. ground (arith, contains-range 0 m x s g)) (omega arith) in
    let last : last_id (x ∷ s ++ y ∷ t) ≡ last_id (y ∷ t) = last_id-append (x ∷ s) (y ∷ t) refl in
    let size : u32 (last_id (x ∷ s ++ y ∷ t) - x + 1) ≡ suc (length (s ++ y ∷ t)) =
      ground (arith, length-append s (y ∷ t)) in
    ground (
      arith,
      full i j k x (s ++ y ∷ t) joined,
      contains-append i (x ∷ s) (y ∷ t),
      contains-append j (x ∷ s) (y ∷ t),
      contains-append k (x ∷ s) (y ∷ t),
    )

-- A range without gaps has as many elements as numbers.
last_id-gapless :
    (n j : ℕ) (s : List ℕ)
    → Grows n (j ∷ s)
    → ((i : ℕ) → j ≤ i → i ≤ last_id (j ∷ s) → contains i (j ∷ s) ≡ true)
    → last_id (j ∷ s) ≡ j + length s
unfolding contains last_id
last_id-gapless n j [] g all = omega arith
last_id-gapless n j (k ∷ s) g all =
    let most = length_le_range (suc j) k s g.1 in
    let next : k ≡ suc j = ground (arith, all (suc j), contains-range (suc j) (suc j) k s g.1) in
    let rest = last_id-gapless (suc j) k s g.1 (λ i lo hi. ground (arith, all i)) in
    omega (arith, rest, next)

pub ranges_accept :
    (base horz : List ℕ)
    → Grows 0 base
    → Grows 0 horz
    → is_empty (base ++ horz) ≡ false
    → last_id base < 4294967295
    → last_id horz < 4294967295
    → ((i j : ℕ) → contains i base ≡ true → contains j horz ≡ true → i < j)
    → ((i j k : ℕ)
        → contains i base || contains i horz ≡ true
        → contains k base || contains k horz ≡ true
        → i ≤ j
        → j ≤ k
        → contains j base || contains j horz ≡ true)
    → check_ranges base horz ≡ []
unfolding check_ranges min_seq max_seq first_id contains
ranges_accept [] [] g h e u v sep gap = absurd (ground arith)
ranges_accept [] (y ∷ t) g h e u v sep gap =
    let exact =
      last_id-gapless 0 y t h
        (λ i lo hi. ground (arith, gap y i (last_id (y ∷ t)), contains-last_id y t)) in
    ground (arith, exact)
ranges_accept (x ∷ s) [] g h e u v sep gap =
    let exact =
      last_id-gapless 0 x s g
        (λ i lo hi. ground (arith, gap x i (last_id (x ∷ s)), contains-last_id x s)) in
    ground (arith, exact)
ranges_accept (x ∷ s) (y ∷ t) g h e u v sep gap =
    let apart : last_id (x ∷ s) < y =
      ground (arith, sep (last_id (x ∷ s)) y, contains-last_id x s) in
    let base_range = length_le_range 0 x s g in
    let horz_range = length_le_range 0 y t h in
    let joined : Grows 0 (x ∷ s ++ y ∷ t) =
      append-Grows 0 y (x ∷ s) (y ∷ t) g (Grows-mono y y (y ∷ t) (omega arith) (omega arith, h.1))
        (λ m c. ground (arith, contains-range 0 m x s g)) (omega arith) in
    let last : last_id (x ∷ s ++ y ∷ t) ≡ last_id (y ∷ t) = last_id-append (x ∷ s) (y ∷ t) refl in
    let exact = last_id-gapless 0 x (s ++ y ∷ t) joined (λ i lo hi. ground (
      arith,
      gap x i (last_id (y ∷ t)),
      contains-last_id y t,
      contains-append i (x ∷ s) (y ∷ t),
    )) in
    ground (arith, exact, length-append s (y ∷ t))
