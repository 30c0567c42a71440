-- ===== src/Interpreter/ActionRun.antt =====
-- From any of the actions of a node or an edge the handlers go on to the end of them.
use libvda5050pp.Common.{
  inl, inr, ◌≡◌, refl, ◌∙◌, subst, Bool, true, false, ◌||◌, List, [], ◌∷◌, ◌++◌, map, append-nil,
  append_assoc,
}
use libvda5050pp.Message.{Action, BlockingType, none_blocking, soft_blocking, hard_blocking}
use libvda5050pp.Order.Scheduler.State.{QueueEvent, action_group}
use libvda5050pp.Interpreter.Events.{new_action}
use libvda5050pp.Interpreter.Iter.{IterState, EventIter, ceil_blocking_type}
use libvda5050pp.Interpreter.Goes.{Goes, skips, yields, Goes-append}
use libvda5050pp.Interpreter.Groups.{
  flush, groups, stops, ceiling_after, blocking_cases, groups-none, groups-soft, groups-hard,
  stops-none, stops-soft, stops-hard,
}
use libvda5050pp.Interpreter.Actions.{at_actions, Cycle}
use libvda5050pp.Interpreter.TakeAction.{take_none, take_soft, take_hard, wait_hard}

or_false : (b : Bool) → b || false ≡ b
or_false true = refl
or_false false = refl

or_true : (b : Bool) → b || true ≡ true
or_true true = refl
or_true false = refl

ceiling_after-none :
    (as' g : List Action) (c : BlockingType) → ceiling_after as' g none_blocking ≡ none_blocking
ceiling_after-none [] [] c = refl
ceiling_after-none [] (b ∷ g) c = refl
ceiling_after-none (a ∷ as') g c = refl

ceiling_after-append :
    (as' g : List Action) (a : Action) (c : BlockingType)
    → ceiling_after as' (g ++ a ∷ []) c ≡ none_blocking
ceiling_after-append [] [] a c = refl
ceiling_after-append [] (b ∷ g) a c = refl
ceiling_after-append (x ∷ as') g a c = refl

-- What the handlers are at when the actions have ended.
abbrev pub past_actions :
    EventIter
    → IterState
    → List Action
    → List Action
    → BlockingType
    → Bool
    → List QueueEvent
    → EventIter
past_actions it next as' group c stop q =
    at_actions it next [] [] (ceiling_after as' group c) (stop || stops as')
      (q ++ groups as' group c)

past_soft :
    (it : EventIter) (next : IterState) (a : Action) (as' g : List Action) (c : BlockingType)
    (s : Bool) (q : List QueueEvent)
    → a.blocking_type ≡ soft_blocking
    → past_actions it next as' (g ++ a ∷ []) (ceil_blocking_type c soft_blocking) true q
      ≡ past_actions it next (a ∷ as') g c s q
past_soft it next a as' g c s q e =
    let x = ceiling_after-append as' g a (ceil_blocking_type c soft_blocking) in
    let y = groups-soft a as' g c e in let z = stops-soft a as' e in let w = or_true s in cc

past_none :
    (it : EventIter) (next : IterState) (a : Action) (as' g : List Action) (c : BlockingType)
    (s : Bool) (q : List QueueEvent)
    → a.blocking_type ≡ none_blocking
    → past_actions it next as' (g ++ a ∷ []) (ceil_blocking_type c none_blocking) s q
      ≡ past_actions it next (a ∷ as') g c s q
past_none it next a as' g c s q e =
    let x = ceiling_after-append as' g a (ceil_blocking_type c none_blocking) in
    let y = groups-none a as' g c e in let z = stops-none a as' e in cc

past_hard :
    (it : EventIter) (next : IterState) (a : Action) (as' g : List Action) (c : BlockingType)
    (s : Bool) (q : List QueueEvent)
    → a.blocking_type ≡ hard_blocking
    → past_actions it next as' [] none_blocking true
        ((q ++ flush g c) ++ action_group (a ∷ []) hard_blocking ∷ [])
      ≡ past_actions it next (a ∷ as') g c s q
past_hard it next a as' g c s q e =
    let x = ceiling_after-none as' [] c in
    let y = groups-hard a as' g c e in
    let z = stops-hard a as' e in
    let w = or_true s in
    let one : ((q ++ flush g c) ++ action_group (a ∷ []) hard_blocking ∷ [])
          ++ groups as' [] none_blocking
        ≡ (q ++ flush g c) ++ action_group (a ∷ []) hard_blocking ∷ groups as' [] none_blocking =
      append_assoc (q ++ flush g c) _ _ in
    let two : (q ++ flush g c) ++ action_group (a ∷ []) hard_blocking ∷ groups as' [] none_blocking
        ≡ q ++ (flush g c ++ action_group (a ∷ []) hard_blocking ∷ groups as' [] none_blocking) =
      append_assoc q (flush g c) _ in
    cc

module _ {handling queueing next : IterState} (cycle : Cycle handling queueing next) where
  past_end :
      (it : EventIter) (group : List Action) (c : BlockingType) (s : Bool) (q : List QueueEvent)
      → Goes (at_actions it handling [] group c s q) [] (past_actions it next [] group c s q)
  unfolding groups stops flush
  past_end it [] c s q = skips (cycle.ends it [] c s q) (
      subst (λ r. Goes (at_actions it queueing [] [] c s q) [] r)
        (let u = append-nil q in let v = or_false s in cc) (cycle.queues it [] [] c s q))
  past_end it (b ∷ g) c s q = skips (cycle.ends it (b ∷ g) c s q) (
      subst (λ r. Goes (at_actions it queueing [] (b ∷ g) c s q) [] r) (let v = or_false s in cc)
        (cycle.queues it [] (b ∷ g) c s q))

  -- A hard action that finds no open group. `go` is what happens to the actions behind it.
  alone :
      (it : EventIter) (a : Action) (as' : List Action) (c : BlockingType) (s : Bool)
      (q : List QueueEvent)
      → a.blocking_type ≡ hard_blocking
      → ((r : List QueueEvent)
          → Goes
              (at_actions it handling as' [] none_blocking true r)
              (map new_action as')
              (past_actions it next as' [] none_blocking true r))
      → Goes (at_actions it handling (a ∷ as') [] c s q) (map new_action (a ∷ as')) (
          past_actions it next as' [] none_blocking true
            (q ++ action_group (a ∷ []) hard_blocking ∷ []))
  unfolding groups stops flush
  alone it a [] c s q e go =
      yields
        (cycle.takes it [] c s q a []
          ∙ take_hard queueing a [] (at_actions it handling (a ∷ []) [] c s q) e refl)
        (subst (λ r. Goes (at_actions it queueing [] (a ∷ []) hard_blocking true q) [] r)
          (let u = append-nil (q ++ action_group (a ∷ []) hard_blocking ∷ []) in cc)
          (cycle.queues it [] (a ∷ []) hard_blocking true q))
  alone it a (b ∷ as') c s q e go =
      yields
        (cycle.takes it [] c s q a (b ∷ as')
          ∙ take_hard queueing a (b ∷ as') (at_actions it handling (a ∷ b ∷ as') [] c s q) e refl)
        (Goes-append (cycle.queues it (b ∷ as') (a ∷ []) hard_blocking true q)
          (go (q ++ action_group (a ∷ []) hard_blocking ∷ [])))

  hard_go :
      (it : EventIter) (a : Action) (as' group : List Action) (c : BlockingType) (s : Bool)
      (q : List QueueEvent)
      → a.blocking_type ≡ hard_blocking
      → ((r : List QueueEvent)
          → Goes
              (at_actions it handling as' [] none_blocking true r)
              (map new_action as')
              (past_actions it next as' [] none_blocking true r))
      → Goes
          (at_actions it handling (a ∷ as') group c s q)
          (map new_action (a ∷ as'))
          (past_actions it next (a ∷ as') group c s q)
  unfolding flush
  hard_go it a as' [] c s q e go =
      subst (λ r. Goes (at_actions it handling (a ∷ as') [] c s q) (map new_action (a ∷ as')) r)
        (let u = append-nil q in let v = past_hard it next a as' [] c s q e in cc)
        (alone it a as' c s q e go)
  hard_go it a as' (b ∷ g) c s q e go =
      skips
        (cycle.takes it (b ∷ g) c s q a as'
          ∙ wait_hard queueing a b as' g (at_actions it handling (a ∷ as') (b ∷ g) c s q) e refl)
        (Goes-append (cycle.queues it (a ∷ as') (b ∷ g) c s q) (
          subst
            (λ r.
              Goes
                (at_actions it handling (a ∷ as') [] none_blocking s
                  (q ++ action_group (b ∷ g) c ∷ []))
                (map new_action (a ∷ as')) r)
            (past_hard it next a as' (b ∷ g) c s q e)
            (alone it a as' none_blocking s (q ++ action_group (b ∷ g) c ∷ []) e go)))

  -- The handlers announce each action, and queue the groups.
  pub actions_go :
      (it : EventIter) (as' group : List Action) (c : BlockingType) (s : Bool) (q : List QueueEvent)
      → Goes
          (at_actions it handling as' group c s q)
          (map new_action as')
          (past_actions it next as' group c s q)
  actions_go it [] group c s q = past_end it group c s q
  actions_go it (a ∷ as') group c s q = elim (blocking_cases a.blocking_type) [
    | inl e ↦ hard_go it a as' group c s q e (λ r. actions_go it as' [] none_blocking true r)
    | inr (inl e) ↦
        yields
          (cycle.takes it group c s q a as'
            ∙ take_soft queueing a as' (at_actions it handling (a ∷ as') group c s q) e)
          (subst
            (λ r.
              Goes
                (at_actions it handling as' (group ++ a ∷ []) (ceil_blocking_type c soft_blocking)
                  true q)
                (map new_action as') r)
            (past_soft it next a as' group c s q e)
            (actions_go it as' (group ++ a ∷ []) (ceil_blocking_type c soft_blocking) true q))
    | inr (inr e) ↦
        yields
          (cycle.takes it group c s q a as'
            ∙ take_none queueing a as' (at_actions it handling (a ∷ as') group c s q) e)
          (subst
            (λ r.
              Goes
                (at_actions it handling as' (group ++ a ∷ []) (ceil_blocking_type c none_blocking) s
                  q)
                (map new_action as') r)
            (past_none it next a as' group c s q e)
            (actions_go it as' (group ++ a ∷ []) (ceil_blocking_type c none_blocking) s q))
  ]
