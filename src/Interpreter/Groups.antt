-- ===== src/Interpreter/Groups.antt =====
-- The groups that the actions of a node or an edge are meant to form.
use libvda5050pp.Common.{
  ◌⊎◌, inl, inr, ◌≡◌, refl, Bool, true, false, List, [], ◌∷◌, ◌++◌, arith, is_empty, if◌then◌else◌,
}
use libvda5050pp.Message.{Action, BlockingType, none_blocking, soft_blocking, hard_blocking}
use libvda5050pp.Order.Scheduler.State.{QueueEvent, action_group}
use libvda5050pp.Interpreter.Iter.{ceil_blocking_type}

-- An empty group is no event.
unfoldable pub flush : List Action → BlockingType → List QueueEvent
flush group ceiling = if is_empty group then [] else action_group group ceiling ∷ []

-- A hard action stands alone; the others in a row form a group. `group` is what is open already.
unfoldable pub groups : List Action → List Action → BlockingType → List QueueEvent
groups [] group ceiling = flush group ceiling
groups (a ∷ as') group ceiling = elim a.blocking_type [
  | hard_blocking ↦
      flush group ceiling ++ action_group (a ∷ []) hard_blocking ∷ groups as' [] none_blocking
  | soft_blocking ↦ groups as' (group ++ a ∷ []) (ceil_blocking_type ceiling soft_blocking)
  | none_blocking ↦ groups as' (group ++ a ∷ []) (ceil_blocking_type ceiling none_blocking)
]

-- The AGV has to stop for a soft or a hard action.
unfoldable pub stops : List Action → Bool
stops [] = false
stops (a ∷ as') = elim a.blocking_type [
  | hard_blocking ↦ true
  | soft_blocking ↦ true
  | none_blocking ↦ stops as'
]

-- The blocking type that the next group starts from.
abbrev pub ceiling_after : List Action → List Action → BlockingType → BlockingType
ceiling_after [] [] ceiling = ceiling
ceiling_after [] (a ∷ group) ceiling = none_blocking
ceiling_after (a ∷ as') group ceiling = none_blocking

pub blocking_cases :
    (b : BlockingType) → (b ≡ hard_blocking) ⊎ (b ≡ soft_blocking) ⊎ (b ≡ none_blocking)
blocking_cases hard_blocking = inl refl
blocking_cases soft_blocking = inr (inl refl)
blocking_cases none_blocking = inr (inr refl)

pub groups-none :
    (a : Action) (as' group : List Action) (c : BlockingType)
    → a.blocking_type ≡ none_blocking
    → groups (a ∷ as') group c ≡ groups as' (group ++ a ∷ []) (ceil_blocking_type c none_blocking)
unfolding groups
groups-none a as' group c e = ground arith

pub groups-soft :
    (a : Action) (as' group : List Action) (c : BlockingType)
    → a.blocking_type ≡ soft_blocking
    → groups (a ∷ as') group c ≡ groups as' (group ++ a ∷ []) (ceil_blocking_type c soft_blocking)
unfolding groups
groups-soft a as' group c e = ground arith

pub groups-hard :
    (a : Action) (as' group : List Action) (c : BlockingType)
    → a.blocking_type ≡ hard_blocking
    → groups (a ∷ as') group c
      ≡ flush group c ++ action_group (a ∷ []) hard_blocking ∷ groups as' [] none_blocking
unfolding groups
groups-hard a as' group c e = ground arith

pub stops-none :
    (a : Action) (as' : List Action) → a.blocking_type ≡ none_blocking → stops (a ∷ as') ≡ stops as'
unfolding stops
stops-none a as' e = ground arith

pub stops-soft :
    (a : Action) (as' : List Action) → a.blocking_type ≡ soft_blocking → stops (a ∷ as') ≡ true
unfolding stops
stops-soft a as' e = ground arith

pub stops-hard :
    (a : Action) (as' : List Action) → a.blocking_type ≡ hard_blocking → stops (a ∷ as') ≡ true
unfolding stops
stops-hard a as' e = ground arith
