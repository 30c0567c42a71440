-- ===== src/Interpreter/Ceiling.antt =====
-- The blocking types of the groups.
use libvda5050pp.Common.{◌≡◌, ◌≢◌, ◌⊎◌, refl, ap, ◌∙◌, List, [], ◌∷◌, ◌++◌}
use libvda5050pp.Message.{Action, Order, BlockingType, none_blocking, soft_blocking, hard_blocking}
use libvda5050pp.Order.Scheduler.State.{QueueEvent, navigation_step, action_group}
use libvda5050pp.Interpreter.Iter.{ceil_blocking_type}

-- The highest blocking type of some actions.
unfoldable pub highest : List Action → BlockingType
highest [] = none_blocking
highest (a ∷ as') = ceil_blocking_type a.blocking_type (highest as')

-- A group has the highest blocking type of its actions, and a hard action is alone in it.
abbrev pub Proper : QueueEvent → Type 0
Proper (navigation_step n e s) = Unit
Proper (action_group as' b) =
    (b ≡ highest as') × ((b ≢ hard_blocking) ⊎ ((a : Action) × (as' ≡ a ∷ [])))

ceil_assoc :
    (a b c : BlockingType)
    → ceil_blocking_type a (ceil_blocking_type b c) ≡ ceil_blocking_type (ceil_blocking_type a b) c
unfolding ceil_blocking_type
ceil_assoc hard_blocking b c = refl
ceil_assoc none_blocking b c = refl
ceil_assoc soft_blocking hard_blocking c = refl
ceil_assoc soft_blocking none_blocking c = refl
ceil_assoc soft_blocking soft_blocking hard_blocking = refl
ceil_assoc soft_blocking soft_blocking soft_blocking = refl
ceil_assoc soft_blocking soft_blocking none_blocking = refl

ceil-none : (b : BlockingType) → ceil_blocking_type b none_blocking ≡ b
unfolding ceil_blocking_type
ceil-none hard_blocking = refl
ceil-none soft_blocking = refl
ceil-none none_blocking = refl

pub highest-append :
    (g : List Action) (a : Action)
    → highest (g ++ a ∷ []) ≡ ceil_blocking_type (highest g) a.blocking_type
unfolding highest ceil_blocking_type
highest-append [] a = ceil-none a.blocking_type
highest-append (b ∷ g) a =
    ap (ceil_blocking_type b.blocking_type) (highest-append g a)
    ∙ ceil_assoc b.blocking_type (highest g) a.blocking_type
