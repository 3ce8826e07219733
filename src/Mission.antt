-- ===== src/Mission.antt =====
-- Source/Mission: the mission object that an `Issuer` (Issuer.h) and an `Executor` (Executor.h)
-- share, and what each of them does to it under its lock. A wait frees the lock; what the other side
-- does meanwhile is an argument.
pub mod Runs
pub mod Blocked
pub mod Attach
mod Examples
use se_navi_common.Common.{
  ℕ, zero, suc, Bool, true, false, List, [], ◌∷◌, Option, none, some, if◌then◌else◌,
}
use se_navi_common.Common.Int.{ℤ, pos, ◌+ℤ◌, i32}

pub data MissionStatus : Type 0 where
  standby validating acting : MissionStatus

pub data MissionOperation : Type 0 where
  set_goal_operation cancel_operation : MissionOperation

pub data MissionResult : Type 0 where
  accept reject aborted timeout succeed : MissionResult

-- The coordinates are the bit patterns of `double` numbers.
pub record MissionGoal : Type 0 where
  pub x : ℕ
  pub y : ℕ
  pub yaw : ℕ

pub record MissionObject : Type 0 where
  pub status : MissionStatus
  pub result : MissionResult
  pub operation : MissionOperation
  pub mission_id : ℤ
  pub goal : MissionGoal

end_acting : MissionResult → MissionStatus → MissionObject → MissionObject
end_acting result acting o = record o { result = result }
end_acting result standby o = o
end_acting result validating o = o

-- `Executor::abort` and `Executor::done`.
pub abort : MissionObject → MissionObject
unfolding end_acting
abort o = end_acting aborted o.status o

pub done : MissionObject → MissionObject
unfolding end_acting
done o = end_acting succeed o.status o

-- The goal callback may change the goal, which it takes by reference.
abbrev pub GoalCallback : Type 0
GoalCallback = Option (MissionGoal → Bool × MissionGoal)

unfoldable pub validate : GoalCallback → MissionObject → MissionObject
validate none o = o
validate (some on_goal) o =
    let (valid, goal) = on_goal o.goal in
    record o { goal = goal; result = if valid then accept else reject; status = validating }

unfoldable pub serve_standby : GoalCallback → MissionOperation → MissionObject → MissionObject
unfolding validate
serve_standby goal_cb set_goal_operation o = validate goal_cb o
serve_standby goal_cb cancel_operation o = o

serve_acting : MissionOperation → MissionObject → MissionObject
serve_acting cancel_operation o = record o { result = aborted }
serve_acting set_goal_operation o = o

serve_status : GoalCallback → MissionStatus → MissionObject → MissionObject
unfolding serve_standby serve_acting
serve_status goal_cb standby o = serve_standby goal_cb o.operation o
serve_status goal_cb acting o = serve_acting o.operation o
serve_status goal_cb validating o = o

-- `Executor::process` behind its wait; the flag is `timeout`.
pub serve : GoalCallback → Bool → MissionObject → MissionObject
unfolding serve_status
serve goal_cb true o = o
serve goal_cb false o = serve_status goal_cb o.status o

-- The wait of `Executor::process`: each wait returns with a flag and a new state. None: still waiting
-- when these waits are over.
unfoldable pub wait_mission :
    List (Bool × MissionObject)
    → Bool
    → MissionStatus
    → MissionObject
    → Option (Bool × MissionObject)
wait_mission waits flag standby o = some (flag, o)
wait_mission waits flag acting o = some (flag, o)
wait_mission [] flag validating o = none
wait_mission ((seen_flag, seen) ∷ waits) flag validating o =
    wait_mission waits seen_flag seen.status seen

serve_waited : GoalCallback → MissionObject → Option (Bool × MissionObject) → MissionObject
unfolding serve
serve_waited goal_cb o none = o
serve_waited goal_cb o (some (flag, seen)) = serve goal_cb flag seen

-- One pass of the loop of `Executor::process`.
pub executor_pass : GoalCallback → List (Bool × MissionObject) → MissionObject → MissionObject
unfolding serve_waited
executor_pass goal_cb waits o = serve_waited goal_cb o (wait_mission waits false o.status o)

-- `Issuer::setGoal` up to its wait, on an object in STANDBY. The `int` of the id wraps around.
unfoldable pub request : MissionGoal → MissionObject → MissionObject
request goal o = record o {
  mission_id = i32 (o.mission_id +ℤ pos 1);
  goal = goal;
  operation = set_goal_operation;
}

-- `while(status != MISSION_VALIDATING) timed_wait`, over the states that the waits return with.
unfoldable pub wait_validating :
    List MissionObject → MissionStatus → MissionObject → Option MissionObject
wait_validating seen validating o = some o
wait_validating [] standby o = none
wait_validating [] acting o = none
wait_validating (o' ∷ seen) standby o = wait_validating seen o'.status o'
wait_validating (o' ∷ seen) acting o = wait_validating seen o'.status o'

start_acting : MissionResult → MissionObject → Bool × MissionObject
start_acting reject o = (false, o)
start_acting accept o = (true, record o { status = acting })
start_acting aborted o = (true, record o { status = acting })
start_acting timeout o = (true, record o { status = acting })
start_acting succeed o = (true, record o { status = acting })

validated : Option MissionObject → Option (Bool × MissionObject)
unfolding start_acting
validated none = none
validated (some o) = some (start_acting o.result o)

set_goal_on :
    MissionGoal → List MissionObject → MissionStatus → MissionObject → Option (Bool × MissionObject)
unfolding validated
set_goal_on goal seen standby o = validated (wait_validating seen standby (request goal o))
set_goal_on goal seen validating o = some (false, o)
set_goal_on goal seen acting o = some (false, o)

-- `Issuer::setGoal`, on an object that was obtained. None: still waiting when the waits are over.
pub set_goal : MissionGoal → List MissionObject → MissionObject → Option (Bool × MissionObject)
unfolding set_goal_on
set_goal goal seen o = set_goal_on goal seen o.status o

is_over : MissionResult → Bool
is_over aborted = true
is_over succeed = true
is_over accept = false
is_over reject = false
is_over timeout = false

-- `Issuer::process` behind its wait for the status ACTING: whether it sets `trigger`.
pub triggers : MissionObject → Bool
unfolding is_over
triggers o = is_over o.result

-- The wait of `Issuer::action`, with `timeout - times` for the second argument. Each wait returns
-- with `trigger` and a new state. The result is `times > timeout`.
unfoldable pub wait_trigger :
    (ℕ → Bool × MissionObject) → ℕ → Bool → MissionObject → Bool × MissionObject
wait_trigger others left true o = (false, o)
wait_trigger others zero false o = (true, (others zero).1)
wait_trigger others (suc left) false o =
    wait_trigger others left (others (suc left)).0 (others (suc left)).1

abbrev over : MissionObject → MissionResult → Bool × Option MissionResult × MissionObject
over o aborted = (false, some aborted, o)
over o accept = (true, none, record o { status = standby })
over o reject = (true, none, record o { status = standby })
over o timeout = (true, none, record o { status = standby })
over o succeed = (true, none, record o { status = standby })

-- The end of `Issuer::action`: what it returns, the `last_result` that it sets, and the object.
finish_action : Bool × MissionObject → Bool × Option MissionResult × MissionObject
finish_action (true, o) = (false, some timeout, o)
finish_action (false, o) = over o o.result

act :
    (ℕ → Bool × MissionObject)
    → ℕ
    → Bool
    → Option (Bool × MissionObject)
    → Option (Bool × Option MissionResult × MissionObject)
unfolding finish_action
act others limit trigger none = none
act others limit trigger (some (false, o)) = some (false, some reject, o)
act others limit trigger (some (true, o)) =
    some (finish_action (wait_trigger others limit trigger o))

-- `Issuer::action`, for a timeout that is not negative; `trigger` is what it is when the wait begins.
pub action :
    MissionGoal
    → List MissionObject
    → (ℕ → Bool × MissionObject)
    → ℕ
    → Bool
    → MissionObject
    → Option (Bool × Option MissionResult × MissionObject)
unfolding act
action goal seen others limit trigger o = act others limit trigger (set_goal goal seen o)

-- `Issuer::cancel`.
pub cancel : MissionObject → MissionObject
cancel o = record o { operation = cancel_operation }
