-- ===== src/Common/OrdMap/Laws.antt =====
-- Lookups after the operations, and that they keep the order of the keys.
use Prim.Native.Nat.{ℕ, suc, ◌≤◌, ◌<◌}
use mathlib.Core.Path.{◌≡◌, refl}
use mathlib.Core.List.{List, [], ◌∷◌}
use mathlib.Core.Option.{none, some}
use native.Mathlib.Omega.{arith}
use libvda5050pp.Common.Test.{ltb, ◌==◌, if◌then◌else◌}
use libvda5050pp.Common.OrdMap.Defs.{
  find, insert_or_assign, try_emplace, merge, erase_from, erase_before, copy_to, From,
}

module _ {ℓ} {V : Type ℓ} where
  pub find-insert_or_assign :
      (k j : ℕ) (v : V) (m : List (ℕ × V))
      → find j (insert_or_assign k v m) ≡ (if k == j then some v else find j m)
  unfolding find insert_or_assign
  find-insert_or_assign k j v [] = refl
  find-insert_or_assign k j v ((i, w) ∷ m) = ground (arith, find-insert_or_assign k j v m)

  pub From-mono : (a b : ℕ) (m : List (ℕ × V)) → a ≤ b → From b m → From a m
  From-mono a b [] h s = tt
  From-mono a b (e ∷ m) h s = (omega arith, s.1)

  pub find_below : (n j : ℕ) (m : List (ℕ × V)) → From n m → j < n → find j m ≡ none
  unfolding find
  find_below n j [] s h = refl
  find_below n j ((i, w) ∷ m) s h = ground (arith, find_below (suc i) j m s.1)

  pub insert_or_assign-From :
      (n k : ℕ) (v : V) (m : List (ℕ × V)) → From n m → n ≤ k → From n (insert_or_assign k v m)
  unfolding insert_or_assign
  insert_or_assign-From n k v [] s h = (h, tt)
  insert_or_assign-From n k v ((i, w) ∷ m) s h =
      ground (arith, insert_or_assign-From (suc i) k v m s.1)

  pub try_emplace-From :
      (n k : ℕ) (v : V) (m : List (ℕ × V)) → From n m → n ≤ k → From n (try_emplace k v m)
  unfolding try_emplace
  try_emplace-From n k v m s h = ground (arith, insert_or_assign-From n k v m s h)

  pub merge-From : (n : ℕ) (m l : List (ℕ × V)) → From n m → From n l → From n (merge m l)
  unfolding merge
  merge-From n m [] s t = s
  merge-From n m ((k, v) ∷ l) s t =
      merge-From n (try_emplace k v m) l (try_emplace-From n k v m s t.0)
        (From-mono n (suc k) l (omega arith) t.1)

  pub find-try_emplace :
      (k j : ℕ) (v : V) (m : List (ℕ × V))
      → find j (try_emplace k v m)
        ≡ (elim (find j m) [ some w ↦ some w | none ↦ (if k == j then some v else none) ])
  unfolding try_emplace
  find-try_emplace k j v m = ground (arith, find-insert_or_assign k j v m)

  -- An entry of the first map hides one of the second.
  pub find-merge :
      (n j : ℕ) (m l : List (ℕ × V))
      → From n l
      → find j (merge m l) ≡ (elim (find j m) [ some w ↦ some w | none ↦ find j l ])
  unfolding merge find
  find-merge n j m [] t = ground arith
  find-merge n j m ((k, v) ∷ l) t = ground (
    arith,
    find-merge (suc k) j (try_emplace k v m) l t.1,
    find-try_emplace k j v m,
    find_below (suc k) j l t.1,
  )

  pub erase_from-From : (n k : ℕ) (m : List (ℕ × V)) → From n m → From n (erase_from k m)
  unfolding erase_from
  erase_from-From n k [] s = tt
  erase_from-From n k ((i, w) ∷ m) s = ground (arith, erase_from-From (suc i) k m s.1)

  pub erase_before-From : (n k : ℕ) (m : List (ℕ × V)) → From n m → From k (erase_before k m)
  unfolding erase_before
  erase_before-From n k [] s = tt
  erase_before-From n k ((i, w) ∷ m) s = ground (arith, erase_before-From (suc i) k m s.1)

  -- Where the key is there, exactly the entries with smaller keys go.
  pub find-erase_before :
      (n k j : ℕ) (v : V) (m : List (ℕ × V))
      → From n m
      → find k m ≡ some v
      → find j (erase_before k m) ≡ (if ltb j k then none else find j m)
  unfolding find erase_before
  find-erase_before n k j v [] s h = cc
  find-erase_before n k j v ((i, w) ∷ m) s h = ground (
    arith,
    find-erase_before (suc i) k j v m s.1,
    find_below (suc i) k m s.1,
    find_below (suc i) j m s.1,
  )

  pub find-erase_from :
      (n k j : ℕ) (v : V) (m : List (ℕ × V))
      → From n m
      → find k m ≡ some v
      → find j (erase_from k m) ≡ (if ltb j k then find j m else none)
  unfolding find erase_from
  find-erase_from n k j v [] s h = cc
  find-erase_from n k j v ((i, w) ∷ m) s h = ground (
    arith,
    find-erase_from (suc i) k j v m s.1,
    find_below (suc i) k m s.1,
    find_below (suc i) j m s.1,
  )

  pub find-copy_to :
      (n last j : ℕ) (v : V) (m : List (ℕ × V))
      → From n m
      → find last m ≡ some v
      → find j (copy_to last m) ≡ (if ltb last j then none else find j m)
  unfolding find copy_to
  find-copy_to n last j v [] s h = cc
  find-copy_to n last j v ((i, w) ∷ m) s h = ground (
    arith,
    find-copy_to (suc i) last j v m s.1,
    find_below (suc i) last m s.1,
    find_below (suc i) j m s.1,
  )

  pub copy_to-From : (n last : ℕ) (m : List (ℕ × V)) → From n m → From n (copy_to last m)
  unfolding copy_to
  copy_to-From n last [] s = tt
  copy_to-From n last ((i, w) ∷ m) s = ground (arith, copy_to-From (suc i) last m s.1)
