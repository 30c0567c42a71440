-- ===== src/Tests/GraphRuns.antt =====
-- `Graph` at small orders.
use libvda5050pp.Common.{
  ℕ, inr, ◌≡◌, ◌≤◌, ◌↔◌, is_empty, refl, true, false, not, ◌&&◌, none, some, [], ◌∷◌, arith, ok,
  err, invalid_argument, ltb, ◌==◌, if◌then◌else◌,
}
use libvda5050pp.Common.OrdMap.{find, first?, last?, upper_bound, before_upper, insert_or_assign}
use libvda5050pp.State.Graph.Element.{is_base}
use libvda5050pp.State.Graph.Defs.{
  Graph, has_base, base_bounds, bounds, last_base?, clean_horizon, update, breaks_invariant,
  from_elements, update_all, extend, current_goal, subgraph,
}
use libvda5050pp.State.Graph.Valid.{IsSorted, IsValid, OffHorizon, AgvOnBase, Contiguous}
use libvda5050pp.State.Graph.Fits.{Fits}
use libvda5050pp.State.Graph.Update.{
  update_fitting, update_misfit, update_under_agv, update-IsSorted, from_elements-IsValid,
}
use libvda5050pp.State.Graph.Horizon.{keep_base}
use libvda5050pp.State.Graph.Clean.{clean_horizon-keep_base}
use libvda5050pp.State.Graph.Extend.{Extends, extend_joined, extend_unreleased}
use libvda5050pp.State.Graph.Range.{current_goal_lem, subgraph_lem}
use libvda5050pp.Tests.Data.{n, e, small, more}

pub small-IsSorted : IsSorted small
small-IsSorted = record { ordered = ground arith; keyed = ground arith; separated = ground arith }

more-IsSorted : IsSorted more
more-IsSorted = record { ordered = ground arith; keyed = ground arith; separated = ground arith }

small-AgvOnBase : AgvOnBase small
unfolding find
small-AgvOnBase p q = let here : p ≡ 0 = ground arith in (n 0 true, rw here refl, refl, refl)

small-IsValid : IsValid small
unfolding find
small-IsValid = record {
  sorted = small-IsSorted;
  not_empty = refl;
  off_horizon = λ p w q found. let here : p ≡ 0 = ground arith in ground arith;
}

-- A horizon element behind the horizon.
new-Fits : Fits 5 (e 5 false) small.graph
new-Fits = ground arith

update_fitting_example :
    (g' : Graph) × (update small (e 5 false) ≡ ok g')
    × IsValid g'
    × (g'.agv_pos ≡ some 0)
    × ((j : ℕ) → find j g'.graph ≡ (if 5 == j then some (e 5 false) else find j small.graph))
update_fitting_example =
    update_fitting small (e 5 false) small-IsValid (omega arith) new-Fits λ h q. ground arith

-- A base element behind the horizon.
base-not-Fits : ¬ Fits 5 (e 5 true) small.graph
base-not-Fits = ground arith

update_misfit_example : update small (e 5 true) ≡ err invalid_argument
update_misfit_example = update_misfit small (e 5 true) small-IsSorted base-not-Fits

update-IsSorted_example :
    IsSorted (record small { graph = insert_or_assign 5 (e 5 false) small.graph })
unfolding update breaks_invariant upper_bound before_upper insert_or_assign
update-IsSorted_example =
    update-IsSorted small (record small { graph = insert_or_assign 5 (e 5 false) small.graph })
      (e 5 false) small-IsSorted (omega arith) refl

abbrev first_three : Graph
first_three = record { agv_pos = none; graph = (0, n 0 true) ∷ (1, e 1 true) ∷ (2, n 2 false) ∷ [] }

from_elements-IsValid_example : IsValid first_three × (first_three.agv_pos ≡ none)
unfolding from_elements update_all update breaks_invariant upper_bound before_upper insert_or_assign
from_elements-IsValid_example =
    from_elements-IsValid first_three (n 0 true ∷ e 1 true ∷ n 2 false ∷ []) (ground arith) refl

clean_horizon-keep_base_example :
    clean_horizon small ≡ ok (record small { graph = keep_base small.graph })
unfolding has_base first?
clean_horizon-keep_base_example = clean_horizon-keep_base 0 small small-IsSorted (ground arith) refl

-- The edge behind the base is missing.
abbrev gap : Graph
gap = record small { graph = (0, n 0 true) ∷ (2, n 2 false) ∷ [] }

extends :
    (pos : ℕ) (other : Graph)
    → IsSorted other
    → Contiguous 2 other.graph
    → other.agv_pos ≡ none
    → bounds other ≡ ok (2, 4)
    → Extends 0 2 (record small { agv_pos = some pos }) other 0 2 2 4
unfolding base_bounds last_base? first?
extends pos other v c p b = record {
  this_valid = record { ordered = ground arith; keyed = ground arith; separated = ground arith };
  this_gapless = ground arith;
  other_valid = v;
  other_gapless = c;
  one_agv = ground arith;
  this_base = refl;
  other_range = b;
  no_overflow = omega arith;
  meets = inr refl;
}

pub more-Extends : Extends 0 2 small more 0 2 2 4
unfolding bounds first? last?
more-Extends = extends 0 more more-IsSorted (ground arith) refl refl

extend_joined_example :
    (g' : Graph) × (extend small more ≡ ok (g', (3, 4)))
    × IsSorted g'
    × (is_empty g'.graph ≡ false)
    × Contiguous 0 g'.graph
    × (g'.agv_pos ≡ some 0)
    × ((j : ℕ)
        → find j g'.graph ≡ (elim (find j more.graph) [
          | some e ↦ some e
          | none ↦ elim (find j small.graph) [
            | none ↦ none
            | some e ↦ if is_base e then some e else none
          ]
        ]))
extend_joined_example = extend_joined 0 2 small more 0 2 2 4 more-Extends

-- A graph that starts at 6.
abbrev pub far : Graph
far = record { agv_pos = none; graph = (6, n 6 true) ∷ [] }

abbrev extended : Graph
extended = record {
  agv_pos = some 0;
  graph = (0, n 0 true) ∷ (1, e 1 true) ∷ (2, n 2 true) ∷ (3, e 3 true) ∷ (4, n 4 true) ∷ [];
}

-- The AGV has reached node 2.
abbrev arrived : Graph
arrived = record small { agv_pos = some 2 }

-- An update that takes the release of node 2 back.
abbrev withdrawn : Graph
withdrawn = record { agv_pos = none; graph = (2, n 2 false) ∷ (3, e 3 false) ∷ (4, n 4 false) ∷ [] }

withdrawn-Extends : Extends 0 2 arrived withdrawn 0 2 2 4
unfolding bounds first? last?
withdrawn-Extends =
    extends 2 withdrawn
      (record { ordered = ground arith; keyed = ground arith; separated = ground arith })
      (ground arith) refl refl

extend_unreleased_example :
    (g' : Graph) × (extend arrived withdrawn ≡ ok (g', (3, 4)))
    × (g'.agv_pos ≡ some 2)
    × (find 2 g'.graph ≡ some (n 2 false))
unfolding find
extend_unreleased_example =
    extend_unreleased 0 2 arrived withdrawn 0 2 2 4 (n 2 false) withdrawn-Extends refl refl refl

-- The AGV stands on the only node.
abbrev alone : Graph
alone = record { agv_pos = some 0; graph = (0, n 0 true) ∷ [] }

alone-IsValid : IsValid alone
unfolding find
alone-IsValid = record {
  sorted = record { ordered = ground arith; keyed = ground arith; separated = ground arith };
  not_empty = refl;
  off_horizon = λ p w q found. let here : p ≡ 0 = ground arith in ground arith;
}

withdrawn_node-Fits : Fits 0 (n 0 false) alone.graph
withdrawn_node-Fits = ground arith

update_under_agv_example : (g' : Graph) × (update alone (n 0 false) ≡ ok g') × ¬ OffHorizon g'
update_under_agv_example =
    update_under_agv alone (n 0 false) alone-IsValid withdrawn_node-Fits refl refl

current_goal_lem_example : current_goal small ≡ ok (some (n 2 true))
unfolding find
current_goal_lem_example =
    current_goal_lem small 0 small-IsSorted small-AgvOnBase refl (omega arith)

subgraph_lem_example :
    (g' : Graph) × (subgraph small 1 3 ≡ ok g')
    × IsSorted g'
    × ((p : ℕ) → (g'.agv_pos ≡ some p) ↔ ((some 0 ≡ some p) × (1 ≤ p) × (p ≤ 3)))
    × ((j : ℕ)
        → find j g'.graph ≡ (if not (ltb j 1) && not (ltb 3 j) then find j small.graph else none))
unfolding find
subgraph_lem_example =
    subgraph_lem small 1 3 (e 1 true) (e 3 false) small-IsSorted (omega arith) refl refl
