-- ===== src/Common/IdMap.antt =====
-- `std::map` with text keys: the list of its entries, in the order of iteration. `less` is the
-- order of `std::string`, which on UTF-8 text is that of the code points.
use Prim.Native.Char.{code}
use Prim.Native.String.{String}
use mathlib.Core.Path.{◌≡◌, refl}
use mathlib.Core.Bool.{Bool, true, false}
use mathlib.Core.List.{List, [], ◌∷◌}
use mathlib.Core.Option.{Option, none, some}
use native.Mathlib.Omega.{arith}
use text.Mathlib.Text.{◌==◌ as str_eq}
use text.Mathlib.TextEquality.{eq_iff}
use libvda5050pp.Common.Test.{ltb, ◌==◌, if◌then◌else◌}
use libvda5050pp.Common.Lists.{All}

unfoldable pub less : String → String → Bool
less String.[] String.[] = false
less String.[] (String.◌∷◌ d t) = true
less (String.◌∷◌ c s) String.[] = false
less (String.◌∷◌ c s) (String.◌∷◌ d t) =
    if ltb (code c) (code d) then true else (if code c == code d then less s t else false)

module _ {ℓ} {V : Type ℓ} where
  unfoldable pub find : String → List (String × V) → Option V
  find k [] = none
  find k ((j, w) ∷ m) = if str_eq j k then some w else find k m

  unfoldable pub insert_or_assign : String → V → List (String × V) → List (String × V)
  insert_or_assign k v [] = (k, v) ∷ []
  insert_or_assign k v ((j, w) ∷ m) =
      if str_eq j k
      then (k, v) ∷ m
      else (if less k j then (k, v) ∷ (j, w) ∷ m else (j, w) ∷ insert_or_assign k v m)

  -- `insert`: a known key keeps its value.
  unfoldable pub insert : String → V → List (String × V) → List (String × V)
  insert k v m = elim (find k m) [ none ↦ insert_or_assign k v m | some w ↦ m ]

  pub find-insert_or_assign :
      (k j : String) (v : V) (m : List (String × V))
      → find j (insert_or_assign k v m) ≡ (if str_eq k j then some v else find j m)
  unfolding find insert_or_assign
  find-insert_or_assign k j v [] = refl
  find-insert_or_assign k j v ((i, w) ∷ m) =
      ground (arith, eq_iff k j, eq_iff i k, eq_iff i j, find-insert_or_assign k j v m)

  pub insert_or_assign-All :
      (P : String × V → Type 0) (k : String) (v : V) (m : List (String × V))
      → P (k, v)
      → All P m
      → All P (insert_or_assign k v m)
  unfolding insert_or_assign
  insert_or_assign-All P k v [] p a = (p, tt)
  insert_or_assign-All P k v (e ∷ m) p a = ground (arith, insert_or_assign-All P k v m p a.1)

  pub insert-All :
      (P : String × V → Type 0) (k : String) (v : V) (m : List (String × V))
      → P (k, v)
      → All P m
      → All P (insert k v m)
  unfolding insert
  insert-All P k v m p a = ground (arith, insert_or_assign-All P k v m p a)
