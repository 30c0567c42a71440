-- ===== src/Interpreter/Account.antt =====
-- What becomes of the actions and of the legs of an order.
use libvda5050pp.Common.{
  inl, inr, ◌≡◌, refl, sym, ap, ◌∙◌, List, [], ◌∷◌, ◌++◌, map, append-nil, append_assoc,
}
use libvda5050pp.Message.{Action, BlockingType, none_blocking, soft_blocking, hard_blocking}
use libvda5050pp.Order.Scheduler.State.{QueueEvent, navigation_step, action_group}
use libvda5050pp.Interpreter.Events.{
  Event, clear_actions, new_action, queued, graph_extension, graph_replacement,
}
use libvda5050pp.Interpreter.Iter.{ceil_blocking_type}
use libvda5050pp.Interpreter.Groups.{
  flush, groups, blocking_cases, groups-none, groups-soft, groups-hard,
}
use libvda5050pp.Interpreter.Expected.{Leg}

-- The actions that are announced.
unfoldable pub announced : List Event → List Action
announced [] = []
announced (new_action a ∷ es) = a ∷ announced es
announced (clear_actions ∷ es) = announced es
announced (queued q ∷ es) = announced es
announced (graph_extension g u ∷ es) = announced es
announced (graph_replacement g o ∷ es) = announced es

-- The actions of the groups in a queue.
unfoldable pub grouped : List QueueEvent → List Action
grouped [] = []
grouped (action_group as' b ∷ q) = as' ++ grouped q
grouped (navigation_step n e s ∷ q) = grouped q

-- The legs that the AGV is sent over.
unfoldable pub driven : List QueueEvent → List Leg
driven [] = []
driven (action_group as' b ∷ q) = driven q
driven (navigation_step n e s ∷ q) = record { via = e; goal = n } ∷ driven q

-- The events for the queue of the scheduler.
unfoldable pub queue_of : List Event → List QueueEvent
queue_of [] = []
queue_of (queued q ∷ es) = q ∷ queue_of es
queue_of (new_action a ∷ es) = queue_of es
queue_of (clear_actions ∷ es) = queue_of es
queue_of (graph_extension g u ∷ es) = queue_of es
queue_of (graph_replacement g o ∷ es) = queue_of es

-- The actions along some legs.
unfoldable pub actions_along : List Leg → List Action
actions_along [] = []
actions_along (l ∷ ls) = l.via.actions ++ (l.goal.actions ++ actions_along ls)

pub announced-append : (es fs : List Event) → announced (es ++ fs) ≡ announced es ++ announced fs
unfolding announced
announced-append [] fs = refl
announced-append (new_action a ∷ es) fs = ap (λ x. a ∷ x) (announced-append es fs)
announced-append (clear_actions ∷ es) fs = announced-append es fs
announced-append (queued q ∷ es) fs = announced-append es fs
announced-append (graph_extension g u ∷ es) fs = announced-append es fs
announced-append (graph_replacement g o ∷ es) fs = announced-append es fs

pub queue_of-append : (es fs : List Event) → queue_of (es ++ fs) ≡ queue_of es ++ queue_of fs
unfolding queue_of
queue_of-append [] fs = refl
queue_of-append (queued q ∷ es) fs = ap (λ x. q ∷ x) (queue_of-append es fs)
queue_of-append (new_action a ∷ es) fs = queue_of-append es fs
queue_of-append (clear_actions ∷ es) fs = queue_of-append es fs
queue_of-append (graph_extension g u ∷ es) fs = queue_of-append es fs
queue_of-append (graph_replacement g o ∷ es) fs = queue_of-append es fs

pub grouped-append : (p q : List QueueEvent) → grouped (p ++ q) ≡ grouped p ++ grouped q
unfolding grouped
grouped-append [] q = refl
grouped-append (action_group as' b ∷ p) q =
    ap (λ x. as' ++ x) (grouped-append p q) ∙ sym (append_assoc as' (grouped p) (grouped q))
grouped-append (navigation_step n e s ∷ p) q = grouped-append p q

pub driven-append : (p q : List QueueEvent) → driven (p ++ q) ≡ driven p ++ driven q
unfolding driven
driven-append [] q = refl
driven-append (action_group as' b ∷ p) q = driven-append p q
driven-append (navigation_step n e s ∷ p) q =
    ap (λ x. record { via = e; goal = n } ∷ x) (driven-append p q)

pub announced-news : (as' : List Action) → announced (map new_action as') ≡ as'
unfolding announced
announced-news [] = refl
announced-news (a ∷ as') = ap (λ x. a ∷ x) (announced-news as')

pub announced-queued : (q : List QueueEvent) → announced (map queued q) ≡ []
unfolding announced
announced-queued [] = refl
announced-queued (e ∷ q) = announced-queued q

pub queue_of-news : (as' : List Action) → queue_of (map new_action as') ≡ []
unfolding queue_of
queue_of-news [] = refl
queue_of-news (a ∷ as') = queue_of-news as'

pub queue_of-queued : (q : List QueueEvent) → queue_of (map queued q) ≡ q
unfolding queue_of
queue_of-queued [] = refl
queue_of-queued (e ∷ q) = ap (λ x. e ∷ x) (queue_of-queued q)

grouped-flush : (g : List Action) (c : BlockingType) → grouped (flush g c) ≡ g
unfolding grouped flush
grouped-flush [] c = refl
grouped-flush (a ∷ g) c = append-nil (a ∷ g)

joined :
    (as' g : List Action) (a : Action) (q : List QueueEvent)
    → grouped q ≡ (g ++ a ∷ []) ++ as'
    → grouped q ≡ g ++ a ∷ as'
joined as' g a q p = p ∙ append_assoc g (a ∷ []) as'

pub grouped-groups : (as' g : List Action) (c : BlockingType) → grouped (groups as' g c) ≡ g ++ as'
unfolding groups grouped
grouped-groups [] g c = grouped-flush g c ∙ sym (append-nil g)
grouped-groups (a ∷ as') g c = elim (blocking_cases a.blocking_type) [
  | inl e ↦
      ap grouped (groups-hard a as' g c e)
      ∙ grouped-append (flush g c)
          (action_group (a ∷ []) hard_blocking ∷ groups as' [] none_blocking)
      ∙ ap (λ x. x ++ a ∷ grouped (groups as' [] none_blocking)) (grouped-flush g c)
      ∙ ap (λ x. g ++ a ∷ x) (grouped-groups as' [] none_blocking)
  | inr (inl e) ↦
      ap grouped (groups-soft a as' g c e)
      ∙ joined as' g a (groups as' (g ++ a ∷ []) (ceil_blocking_type c soft_blocking))
          (grouped-groups as' (g ++ a ∷ []) (ceil_blocking_type c soft_blocking))
  | inr (inr e) ↦
      ap grouped (groups-none a as' g c e)
      ∙ joined as' g a (groups as' (g ++ a ∷ []) (ceil_blocking_type c none_blocking))
          (grouped-groups as' (g ++ a ∷ []) (ceil_blocking_type c none_blocking))
]

driven-flush : (g : List Action) (c : BlockingType) → driven (flush g c) ≡ []
unfolding driven flush
driven-flush [] c = refl
driven-flush (a ∷ g) c = refl

pub driven-groups : (as' g : List Action) (c : BlockingType) → driven (groups as' g c) ≡ []
unfolding groups driven
driven-groups [] g c = driven-flush g c
driven-groups (a ∷ as') g c = elim (blocking_cases a.blocking_type) [
  | inl e ↦
      ap driven (groups-hard a as' g c e)
      ∙ driven-append (flush g c)
          (action_group (a ∷ []) hard_blocking ∷ groups as' [] none_blocking)
      ∙ ap (λ x. x ++ driven (groups as' [] none_blocking)) (driven-flush g c)
      ∙ driven-groups as' [] none_blocking
  | inr (inl e) ↦
      ap driven (groups-soft a as' g c e)
      ∙ driven-groups as' (g ++ a ∷ []) (ceil_blocking_type c soft_blocking)
  | inr (inr e) ↦
      ap driven (groups-none a as' g c e)
      ∙ driven-groups as' (g ++ a ∷ []) (ceil_blocking_type c none_blocking)
]
