-- ===== src/Interpreter/TakeAction.antt =====
-- The handling of one action, by its blocking type.
use libvda5050pp.Common.{◌≡◌, refl, true, List, [], ◌∷◌, ◌++◌, arith}
use libvda5050pp.Message.{Action, BlockingType, none_blocking, soft_blocking, hard_blocking}
use libvda5050pp.Interpreter.Events.{new_action}
use libvda5050pp.Interpreter.Iter.{IterState, EventIter, ceil_blocking_type, skip, yield_event}
use libvda5050pp.Interpreter.Handlers.{handle_action, take_action}

pub take_none :
    (queue : IterState) (a : Action) (as' : List Action) (it : EventIter)
    → a.blocking_type ≡ none_blocking
    → handle_action queue a as' it
      ≡ yield_event (new_action a) (record it {
        current_action_group_blocking_type =
            ceil_blocking_type it.current_action_group_blocking_type none_blocking;
        current_action_group = it.current_action_group ++ a ∷ [];
        actions = as';
      })
unfolding handle_action take_action
take_none queue a as' it e = ground arith

pub take_soft :
    (queue : IterState) (a : Action) (as' : List Action) (it : EventIter)
    → a.blocking_type ≡ soft_blocking
    → handle_action queue a as' it
      ≡ yield_event (new_action a) (record it {
        stop_at_goal = true;
        current_action_group_blocking_type =
            ceil_blocking_type it.current_action_group_blocking_type soft_blocking;
        current_action_group = it.current_action_group ++ a ∷ [];
        actions = as';
      })
unfolding handle_action take_action
take_soft queue a as' it e = ground arith

ceil-hard : (c : BlockingType) → ceil_blocking_type c hard_blocking ≡ hard_blocking
unfolding ceil_blocking_type
ceil-hard hard_blocking = refl
ceil-hard soft_blocking = refl
ceil-hard none_blocking = refl

pub take_hard :
    (queue : IterState) (a : Action) (as' : List Action) (it : EventIter)
    → a.blocking_type ≡ hard_blocking
    → it.current_action_group ≡ []
    → handle_action queue a as' it
      ≡ yield_event (new_action a) (record it {
        iter_state = queue;
        stop_at_goal = true;
        current_action_group_blocking_type = hard_blocking;
        current_action_group = a ∷ [];
        actions = as';
      })
unfolding handle_action take_action
take_hard queue a as' it e z =
    let h : ceil_blocking_type it.current_action_group_blocking_type hard_blocking ≡ hard_blocking =
      ceil-hard it.current_action_group_blocking_type in
    ground arith

pub wait_hard :
    (queue : IterState) (a b : Action) (as' g : List Action) (it : EventIter)
    → a.blocking_type ≡ hard_blocking
    → it.current_action_group ≡ b ∷ g
    → handle_action queue a as' it ≡ skip (record it { iter_state = queue })
unfolding handle_action take_action
wait_hard queue a b as' g it e z = ground arith
