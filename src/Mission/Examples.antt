-- ===== src/Mission/Examples.antt =====
-- The laws of missions at concrete values.
use se_navi_common.Common.{
  ℕ, ◌≡◌, refl, Bool, true, false, [], ◌∷◌, none, some, ltb, lt→ltb, if◌then◌else◌, arith,
}
use se_navi_common.Common.Int.{pos, ◌+ℤ◌, i32}
use se_navi_common.Mission.{
  act, finish_action, wait_trigger, set_goal_on, validated, wait_validating, start_acting,
  serve_waited, wait_mission, serve, serve_status, serve_standby, validate, request, standby,
  validating, acting, set_goal_operation, cancel_operation, accept, aborted, succeed, MissionGoal,
  MissionObject, abort, done, executor_pass, set_goal, action,
}
use se_navi_common.Mission.Runs.{answered, started, finished, action_succeeds}
use se_navi_common.Mission.Attach.{obtain_object, obtain_interrupts}
use se_navi_common.Mission.Blocked.{failed_blocks}

abbrev here : MissionGoal
here = record { x = 1; y = 2; yaw = 3 }

abbrev there : MissionGoal
there = record { x = 4; y = 5; yaw = 6 }

abbrev free : MissionObject
free = record {
  status = standby;
  result = accept;
  operation = set_goal_operation;
  mission_id = pos 6;
  goal = there;
}

abbrev running : MissionObject
running = record {
  status = acting;
  result = aborted;
  operation = cancel_operation;
  mission_id = pos 7;
  goal = here;
}

abbrev accepts : MissionGoal → Bool × MissionGoal
accepts goal = (true, goal)

abbrev gives_up : ℕ → Bool × MissionObject
gives_up k = (true, abort (started here here free))

-- The executor is done in the second wait for the trigger, with 28 waits left.
abbrev done_later : ℕ → Bool × MissionObject
done_later k = if ltb 28 k then (false, free) else finished here here accepts free refl refl

action_succeeds_example :
    action here (free ∷ answered here accepts free ∷ []) done_later 29 false free
    ≡ some (
      true,
      none,
      record free {
        status = standby;
        result = succeed;
        operation = set_goal_operation;
        mission_id = pos 7;
        goal = here;
      },
    )
unfolding ◌+ℤ◌
action_succeeds_example =
    action_succeeds here here accepts free refl refl (free ∷ []) done_later 27 29 (refl, tt)
      (omega arith) (λ k h j. rw (lt→ltb 28 k h) refl) refl (omega arith, omega arith)

-- An aborted mission: the action fails in the state that the executor left.
failed :
    action here (answered here accepts free ∷ []) (λ k. (true, running)) 30 false free
    ≡ some (false, some aborted, running)
unfolding i32 ◌+ℤ◌ action act finish_action wait_trigger set_goal set_goal_on validated
    wait_validating start_acting executor_pass serve_waited wait_mission serve serve_status
    serve_standby validate request
failed = refl

failed_blocks_example : set_goal there [] running ≡ some (false, running)
failed_blocks_example =
    failed_blocks (λ k. (true, running)) (λ k h. cc h) here there (answered here accepts free ∷ [])
      [] 30 false free running (some aborted) failed

abbrev mission_of_7 : MissionObject
mission_of_7 = record running { operation = set_goal_operation }

obtain_interrupts_example :
    (o' : MissionObject) × ((obtain_object (some mission_of_7) ≡ some o')
      × ((done o' ≡ o')
          × ((abort o' ≡ o')
              × (executor_pass (some accepts) [] o'
                  ≡ record mission_of_7 { result = accept; status = validating }))))
obtain_interrupts_example = obtain_interrupts mission_of_7 accepts refl
