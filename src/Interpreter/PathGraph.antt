-- ===== src/Interpreter/PathGraph.antt =====
-- The graph that the interpreter collects from a path.
use libvda5050pp.Common.{
  ℕ, ◌<◌, ◌≤◌, ◌≡◌, ◌⊎◌, inl, inr, refl, arith, Bool, true, false, Option, none, some, List, [],
  ◌∷◌, ◌++◌, append-nil, append_assoc, ok, All, ltb, Bool-cases, Option-cases,
}
use libvda5050pp.Common.OrdMap.{upper_bound, before_upper, insert_or_assign}
use libvda5050pp.State.Graph.Element.{GraphElement, get_sequence_id, is_horizon}
use libvda5050pp.State.Graph.Defs.{Graph, update, update_all, from_elements, breaks_invariant}

abbrev pub Entry : Type 0
Entry = ℕ × GraphElement

abbrev Below : ℕ → List Entry → Type 0
Below s m = All (λ (x : Entry). x.0 < s) m

abbrev AllBase : List Entry → Type 0
AllBase m = All (λ (x : Entry). is_horizon x.1 ≡ false) m

upper_bound-Below : (s : ℕ) (m : List Entry) → Below s m → upper_bound s m ≡ none
unfolding upper_bound
upper_bound-Below s [] b = refl
upper_bound-Below s (x ∷ m) b = ground (arith, upper_bound-Below s m)

abbrev at_horizon : Option Entry → Bool
at_horizon none = false
at_horizon (some x) = is_horizon x.1

before_upper-AllBase : (s : ℕ) (m : List Entry) → AllBase m → at_horizon (before_upper s m) ≡ false
unfolding before_upper
before_upper-AllBase s [] b = refl
before_upper-AllBase s (x ∷ m) b = elim (Bool-cases (ltb s x.0)) [
  | inl e ↦ ground arith
  | inr e ↦ elim (Option-cases (before_upper s m)) [
    | inl f ↦ ground arith
    | inr (y, f) ↦ ground (arith, before_upper-AllBase s m b.1)
  ]
]

insert_or_assign-end :
    (s : ℕ) (v : GraphElement) (m : List Entry)
    → Below s m
    → insert_or_assign s v m ≡ m ++ (s, v) ∷ []
unfolding insert_or_assign
insert_or_assign-end s v [] b = refl
insert_or_assign-end s v (x ∷ m) b =
    let lt = b.0 in let rest = insert_or_assign-end s v m b.1 in ground arith

-- An element behind all the others, of which none is on the horizon if it is of the base.
update-end :
    (g : Graph) (e : GraphElement)
    → Below (get_sequence_id e) g.graph
    → (is_horizon e ≡ true) ⊎ AllBase g.graph
    → update g e ≡ ok (record g { graph = g.graph ++ (get_sequence_id e, e) ∷ [] })
unfolding update breaks_invariant
update-end g e b (inl h) =
    let x = upper_bound-Below (get_sequence_id e) g.graph b in
    let y = insert_or_assign-end (get_sequence_id e) e g.graph b in ground arith
update-end g e b (inr a) =
    let x = upper_bound-Below (get_sequence_id e) g.graph b in
    let y = insert_or_assign-end (get_sequence_id e) e g.graph b in
    let z = before_upper-AllBase (get_sequence_id e) g.graph a in
    elim (Option-cases (before_upper (get_sequence_id e) g.graph)) [
      | inl f ↦ ground arith
      | inr (p, f) ↦ ground arith
    ]

-- The sequence ids grow strictly.
abbrev pub Ascends : ℕ → List GraphElement → Type 0
Ascends s [] = Unit
Ascends s (e ∷ es) = (s < get_sequence_id e) × Ascends (get_sequence_id e) es

abbrev pub entries : List GraphElement → List Entry
entries [] = []
entries (e ∷ es) = (get_sequence_id e, e) ∷ entries es

abbrev UpTo : ℕ → List Entry → Type 0
UpTo s m = All (λ (x : Entry). x.0 ≤ s) m

UpTo-Below : (s t : ℕ) (m : List Entry) → s < t → UpTo s m → Below t m
UpTo-Below s t [] h b = tt
UpTo-Below s t (x ∷ m) h b = (omega (arith, b.0), UpTo-Below s t m h b.1)

Below-UpTo : (t : ℕ) (e : GraphElement) (m : List Entry) → Below t m → UpTo t (m ++ (t, e) ∷ [])
Below-UpTo t e [] b = (omega arith, tt)
Below-UpTo t e (x ∷ m) b = (omega (arith, b.0), Below-UpTo t e m b.1)

AllBase-append :
    (e : GraphElement) (m : List Entry) (s : ℕ)
    → is_horizon e ≡ false
    → AllBase m
    → AllBase (m ++ (s, e) ∷ [])
AllBase-append e [] s h b = (h, tt)
AllBase-append e (x ∷ m) s h b = (b.0, AllBase-append e m s h b.1)

update_all-horizon :
    (g : Graph) (s : ℕ) (hs : List GraphElement)
    → UpTo s g.graph
    → Ascends s hs
    → All (λ e. is_horizon e ≡ true) hs
    → update_all g hs ≡ ok (record g { graph = g.graph ++ entries hs })
unfolding update_all
update_all-horizon g s [] b a h = let x = append-nil g.graph in cc
update_all-horizon g s (e ∷ hs) b a h =
    let below = UpTo-Below s (get_sequence_id e) g.graph a.0 b in
    let g' : Graph = record g { graph = g.graph ++ (get_sequence_id e, e) ∷ [] } in
    let one : update g e ≡ ok g' = update-end g e below (inl h.0) in
    let rest =
      update_all-horizon g' (get_sequence_id e) hs (Below-UpTo (get_sequence_id e) e g.graph below)
        a.1 h.1 in
    let shift : (g.graph ++ (get_sequence_id e, e) ∷ []) ++ entries hs
        ≡ g.graph ++ (get_sequence_id e, e) ∷ entries hs =
      append_assoc g.graph _ _ in
    ground arith

update_all-base :
    (g : Graph) (s : ℕ) (bs hs : List GraphElement)
    → UpTo s g.graph
    → AllBase g.graph
    → Ascends s (bs ++ hs)
    → All (λ e. is_horizon e ≡ false) bs
    → All (λ e. is_horizon e ≡ true) hs
    → update_all g (bs ++ hs) ≡ ok (record g { graph = g.graph ++ entries (bs ++ hs) })
unfolding update_all
update_all-base g s [] hs b all a h k = update_all-horizon g s hs b a k
update_all-base g s (e ∷ bs) hs b all a h k =
    let below = UpTo-Below s (get_sequence_id e) g.graph a.0 b in
    let g' : Graph = record g { graph = g.graph ++ (get_sequence_id e, e) ∷ [] } in
    let one : update g e ≡ ok g' = update-end g e below (inr all) in
    let rest =
      update_all-base g' (get_sequence_id e) bs hs (Below-UpTo (get_sequence_id e) e g.graph below)
        (AllBase-append e g.graph (get_sequence_id e) h.0 all) a.1 h.1 k in
    let shift : (g.graph ++ (get_sequence_id e, e) ∷ []) ++ entries (bs ++ hs)
        ≡ g.graph ++ (get_sequence_id e, e) ∷ entries (bs ++ hs) =
      append_assoc g.graph _ _ in
    ground arith

-- A path whose base comes before its horizon makes a graph of its elements.
pub from_elements-path :
    (e : GraphElement) (bs hs : List GraphElement)
    → is_horizon e ≡ false
    → Ascends (get_sequence_id e) (bs ++ hs)
    → All (λ x. is_horizon x ≡ false) bs
    → All (λ x. is_horizon x ≡ true) hs
    → from_elements (e ∷ bs ++ hs) ≡ ok (record { agv_pos = none; graph = entries (e ∷ bs ++ hs) })
unfolding from_elements update_all
from_elements-path e bs hs r a h k =
    let g : Graph = record { agv_pos = none; graph = [] } in
    let one : update g e ≡ ok (record { agv_pos = none; graph = (get_sequence_id e, e) ∷ [] }) =
      update-end g e tt (inr tt) in
    let rest =
      update_all-base (record { agv_pos = none; graph = (get_sequence_id e, e) ∷ [] })
        (get_sequence_id e) bs hs (omega arith, tt) (r, tt) a h k in
    ground arith
