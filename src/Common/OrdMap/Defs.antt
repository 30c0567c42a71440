-- ===== src/Common/OrdMap/Defs.antt =====
-- The operations of the map that the modelled code calls.
use Prim.Native.Nat.{ℕ, suc, ◌≤◌}
use mathlib.Core.List.{List, [], ◌∷◌}
use mathlib.Core.Option.{Option, none, some}
use libvda5050pp.Common.Test.{ltb, ◌==◌, if◌then◌else◌}

module _ {ℓ} {V : Type ℓ} where
  unfoldable pub find : ℕ → List (ℕ × V) → Option V
  find k [] = none
  find k ((j, w) ∷ m) = if j == k then some w else find k m

  unfoldable pub insert_or_assign : ℕ → V → List (ℕ × V) → List (ℕ × V)
  insert_or_assign k v [] = (k, v) ∷ []
  insert_or_assign k v ((j, w) ∷ m) =
      if j == k
      then (k, v) ∷ m
      else (if ltb k j then (k, v) ∷ (j, w) ∷ m else (j, w) ∷ insert_or_assign k v m)

  unfoldable pub try_emplace : ℕ → V → List (ℕ × V) → List (ℕ × V)
  try_emplace k v m = elim (find k m) [ none ↦ insert_or_assign k v m | some w ↦ m ]

  -- `m.merge(n)`: the entries of `n` whose keys `m` lacks are moved to `m`.
  unfoldable pub merge : List (ℕ × V) → List (ℕ × V) → List (ℕ × V)
  merge m [] = m
  merge m ((k, v) ∷ n) = merge (try_emplace k v m) n

  -- `begin()` and `rbegin()`, `none` where they are the end.
  unfoldable pub first? : List (ℕ × V) → Option (ℕ × V)
  first? [] = none
  first? (e ∷ m) = some e

  unfoldable pub last? : List (ℕ × V) → Option (ℕ × V)
  last? [] = none
  last? (e ∷ []) = some e
  last? (e ∷ f ∷ m) = last? (f ∷ m)

  -- The first entry with a greater key.
  unfoldable pub upper_bound : ℕ → List (ℕ × V) → Option (ℕ × V)
  upper_bound k [] = none
  upper_bound k ((j, w) ∷ m) = if ltb k j then some (j, w) else upper_bound k m

  -- The entry before the upper bound.
  unfoldable pub before_upper : ℕ → List (ℕ × V) → Option (ℕ × V)
  before_upper k [] = none
  before_upper k ((j, w) ∷ m) =
      if ltb k j then none else elim (before_upper k m) [ none ↦ some (j, w) | some e ↦ some e ]

  -- `erase(find(k), end())`: nothing is erased where the key is missing.
  unfoldable pub erase_from : ℕ → List (ℕ × V) → List (ℕ × V)
  erase_from k [] = []
  erase_from k ((j, w) ∷ m) = if j == k then [] else (j, w) ∷ erase_from k m

  -- `erase(begin(), find(k))`: everything is erased where the key is missing.
  unfoldable pub erase_before : ℕ → List (ℕ × V) → List (ℕ × V)
  erase_before k [] = []
  erase_before k ((j, w) ∷ m) = if j == k then (j, w) ∷ m else erase_before k m

  -- `copy(f, ++l)` from the iterator at an entry to the one behind the entry of `last`.
  unfoldable pub copy_to : ℕ → List (ℕ × V) → List (ℕ × V)
  copy_to last [] = []
  copy_to last ((j, w) ∷ m) = if j == last then (j, w) ∷ [] else (j, w) ∷ copy_to last m

  unfoldable pub copy_range : ℕ → ℕ → List (ℕ × V) → List (ℕ × V)
  unfolding copy_to erase_before
  copy_range first last m = copy_to last (erase_before first m)

-- The keys grow strictly, from the bound on.
abbrev pub From {ℓ} : {V : Type ℓ} → ℕ → List (ℕ × V) → Type 0
From n [] = Unit
From n (e ∷ m) = (n ≤ e.0) × From (suc e.0) m
