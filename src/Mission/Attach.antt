-- ===== src/Mission/Attach.antt =====
-- How an issuer comes to the mission object (`Issuer::obtainObject`, Source/Mission/Issuer.h), and what
-- that does to a mission that is running.
use se_navi_common.Common.{
  ◌≡◌, refl, ap, Bool, true, false, List, [], Option, none, some, if◌then◌else◌,
}
use se_navi_common.Mission.{
  MissionOperation, set_goal_operation, standby, validating, accept, reject, MissionGoal,
  MissionObject, end_acting, abort, done, validate, serve_standby, serve_status, serve,
  wait_mission, serve_waited, executor_pass, set_goal,
}

-- None: there is no object of the right size. An object that is there gets the status STANDBY.
unfoldable pub obtain_object : Option MissionObject → Option MissionObject
obtain_object none = none
obtain_object (some o) = some (record o { status = standby })

-- `if(!object) { obtainObject(); ... }`, for an issuer that has its object or not.
abbrev pub found_object : Bool → Option MissionObject → Option MissionObject
found_object true world = world
found_object false world = obtain_object world

abbrev pub at_object : Option (Bool × MissionObject) → Option (Bool × Option MissionObject)
at_object none = none
at_object (some r) = some (r.0, some r.1)

abbrev pub set_goal_found :
    MissionGoal → List MissionObject → Option MissionObject → Option (Bool × Option MissionObject)
set_goal_found goal seen none = some (false, none)
set_goal_found goal seen (some o) = at_object (set_goal goal seen o)

-- All of `setGoal`. None: still waiting when the waits are over.
unfoldable pub set_goal_from :
    Bool
    → MissionGoal
    → List MissionObject
    → Option MissionObject
    → Option (Bool × Option MissionObject)
set_goal_from attached goal seen world = set_goal_found goal seen (found_object attached world)

-- What an executor's pass does with a mission object in STANDBY.
validated_again :
    (on_goal : MissionGoal → Bool × MissionGoal) (op : MissionOperation) (o : MissionObject)
    → op ≡ set_goal_operation
    → serve_standby (some on_goal) op o ≡ validate (some on_goal) o
unfolding serve_standby
validated_again on_goal op o e = ap (λ x. serve_standby (some on_goal) x o) e

-- An issuer that comes to a mission object in any status, so one whose mission runs, and whose
-- last operation was to set a goal: obtainObject leaves it such that done and abort do nothing,
-- and the next pass of the executor, which does not wait, validates the old goal again, so the
-- mission that was running is validated a second time without a new goal.
pub obtain_interrupts :
    (o : MissionObject) (on_goal : MissionGoal → Bool × MissionGoal)
    → o.operation ≡ set_goal_operation
    → (o' : MissionObject) × ((obtain_object (some o) ≡ some o')
        × ((done o' ≡ o')
            × ((abort o' ≡ o')
                × (executor_pass (some on_goal) [] o' ≡ record o {
                  goal = (on_goal o.goal).1;
                  result = if (on_goal o.goal).0 then accept else reject;
                  status = validating;
                }))))
unfolding obtain_object done abort end_acting executor_pass serve_waited serve serve_status validate
    wait_mission
obtain_interrupts o on_goal e = (
  record o { status = standby },
  (refl, (refl, (refl, validated_again on_goal o.operation (record o { status = standby }) e))),
)
