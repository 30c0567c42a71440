-- ===== src/Checks/GraphConsistency/IdSet.antt =====
-- `std::set<uint32_t>`: the list of its elements, in order.
use libvda5050pp.Common.{
  ℕ, suc, ◌+◌, ◌<◌, ◌≤◌, ◌≡◌, refl, Bool, true, false, ◌||◌, List, [], ◌∷◌, ◌++◌, arith, length,
  ltb, ◌==◌, if◌then◌else◌,
}

-- `find(k) != end()`
unfoldable pub contains : ℕ → List ℕ → Bool
contains k [] = false
contains k (j ∷ s) = j == k || contains k s

unfoldable pub insert_id : ℕ → List ℕ → List ℕ
insert_id k [] = k ∷ []
insert_id k (j ∷ s) = if j == k then j ∷ s else (if ltb k j then k ∷ j ∷ s else j ∷ insert_id k s)

-- `*cbegin()` and `*crbegin()`; they are only read where there is an element.
unfoldable pub first_id : List ℕ → ℕ
first_id [] = 0
first_id (j ∷ s) = j

unfoldable pub last_id : List ℕ → ℕ
last_id [] = 0
last_id (j ∷ []) = j
last_id (j ∷ i ∷ s) = last_id (i ∷ s)

-- The elements grow strictly, from the bound on.
abbrev pub Grows : ℕ → List ℕ → Type 0
Grows n [] = Unit
Grows n (j ∷ s) = (n ≤ j) × Grows (suc j) s

pub Grows-mono : (m n : ℕ) (s : List ℕ) → m ≤ n → Grows n s → Grows m s
Grows-mono m n [] le g = tt
Grows-mono m n (j ∷ s) le g = (omega arith, g.1)

pub insert_id-Grows : (n k : ℕ) (s : List ℕ) → n ≤ k → Grows n s → Grows n (insert_id k s)
unfolding insert_id
insert_id-Grows n k [] le g = (le, tt)
insert_id-Grows n k (j ∷ s) le g =
    ground (arith, insert_id-Grows (suc j) k s, Grows-mono (suc k) (suc j) s)

pub contains-insert_id :
    (i k : ℕ) (s : List ℕ) → contains i (insert_id k s) ≡ (k == i || contains i s)
unfolding contains insert_id
contains-insert_id i k [] = refl
contains-insert_id i k (j ∷ s) = ground (arith, contains-insert_id i k s)

pub length-insert_id :
    (k : ℕ) (s : List ℕ) → contains k s ≡ false → length (insert_id k s) ≡ suc (length s)
unfolding contains insert_id
length-insert_id k [] h = refl
length-insert_id k (j ∷ s) h = ground (arith, length-insert_id k s)

pub contains-append : (i : ℕ) (s t : List ℕ) → contains i (s ++ t) ≡ (contains i s || contains i t)
unfolding contains
contains-append i [] t = refl
contains-append i (j ∷ s) t = ground (arith, contains-append i s t)

-- The bounds of the elements.
pub contains-range :
    (n i j : ℕ) (s : List ℕ)
    → Grows n (j ∷ s)
    → contains i (j ∷ s) ≡ true
    → (j ≤ i) × (i ≤ last_id (j ∷ s))
unfolding contains last_id
contains-range n i j [] g h = ground arith
contains-range n i j (k ∷ s) g h =
    ground (arith, contains-range (suc j) i k s g.1, contains-range (suc j) k k s g.1)

pub length_le_range : (n j : ℕ) (s : List ℕ) → Grows n (j ∷ s) → j + length s ≤ last_id (j ∷ s)
unfolding last_id
length_le_range n j [] g = omega arith
length_le_range n j (k ∷ s) g = omega (arith, length_le_range (suc j) k s g.1)

-- As many elements as the range has numbers: all of them.
pub contains-full :
    (n i j : ℕ) (s : List ℕ)
    → Grows n (j ∷ s)
    → last_id (j ∷ s) ≡ j + length s
    → j ≤ i
    → i ≤ last_id (j ∷ s)
    → contains i (j ∷ s) ≡ true
unfolding contains last_id
contains-full n i j [] g full lo hi = ground arith
contains-full n i j (k ∷ s) g full lo hi =
    let tight = length_le_range (suc j) k s g.1 in
    let next : k ≡ suc j = omega (arith, tight, g.1.0, full) in
    let rest : last_id (k ∷ s) ≡ k + length s = omega (arith, full, next) in
    ground (arith, contains-full (suc j) i k s g.1 rest)

-- Two sets, one behind the other.
pub append-Grows :
    (n k : ℕ) (s t : List ℕ)
    → Grows n s
    → Grows k t
    → ((i : ℕ) → contains i s ≡ true → i < k)
    → n ≤ k
    → Grows n (s ++ t)
unfolding contains
append-Grows n k [] t g h below le = Grows-mono n k t le h
append-Grows n k (j ∷ s) t g h below le =
    (g.0, append-Grows (suc j) k s t g.1 h (λ i c. below i (ground arith)) (below j (ground arith)))
