-- ===== src/Mission/Runs.antt =====
-- Missions from their goal to their end.
use se_navi_common.Common.{
  ℕ, zero, suc, ◌<◌, ◌≤◌, ◌≡◌, refl, ap, ◌∙◌, Bool, true, false, ◌==◌, ==_iff, Bool-cases, inl, inr,
  List, [], ◌∷◌, ◌++◌, none, some, All, arith,
}
use se_navi_common.Common.Int.{pos, ◌+ℤ◌, i32_id, IsInt32}
use se_navi_common.Mission.{
  standby, validating, acting, set_goal_operation, accept, succeed, MissionGoal, MissionObject,
  end_acting, done, validate, serve_standby, serve_status, serve, wait_mission, serve_waited,
  executor_pass, request, wait_validating, start_acting, validated, set_goal_on, set_goal, is_over,
  triggers, wait_trigger, finish_action, act, action,
}

-- The object after the executor's answer to a goal.
abbrev pub answered :
    MissionGoal → (MissionGoal → Bool × MissionGoal) → MissionObject → MissionObject
answered goal on_goal o = executor_pass (some on_goal) [] (request goal o)

abbrev pub started : MissionGoal → MissionGoal → MissionObject → MissionObject
started goal goal' o = record (request goal o) { goal = goal'; result = accept; status = acting }

-- Waits that show the status STANDBY go on until the answer.
wait_skips :
    (early : List MissionObject) (o' o : MissionObject)
    → All (λ (s : MissionObject). s.status ≡ standby) early
    → o'.status ≡ validating
    → wait_validating (early ++ (o' ∷ [])) standby o ≡ some o'
unfolding wait_validating
wait_skips [] o' o none_answers answers = ap (λ x. wait_validating [] x o') answers
wait_skips (s ∷ early) o' o none_answers answers =
    ap (λ x. wait_validating (early ++ (o' ∷ [])) x s) none_answers.0
    ∙ wait_skips early o' s none_answers.1 answers

later : (limit left : ℕ) → left < suc limit → (limit == left) ≡ false → suc left < suc limit
later limit left h e = ground arith

earlier : (limit left : ℕ) → left < suc limit → (limit == left) ≡ false → left < limit
earlier limit left h e = ground arith

-- Waits without a trigger go on until it is set.
trigger_in :
    (others : ℕ → Bool × MissionObject) (o o' : MissionObject) (left limit : ℕ)
    → left < limit
    → ((k : ℕ) → suc left < k → k ≤ limit → (others k).0 ≡ false)
    → others (suc left) ≡ (true, o')
    → wait_trigger others limit false o ≡ (false, o')
unfolding wait_trigger
trigger_in others o o' left zero within quiet ends = absurd (omega (arith, within))
trigger_in others o o' left (suc limit) within quiet ends = elim (Bool-cases (limit == left)) [
  | inl e ↦
      ap (λ n. wait_trigger others limit (others (suc n)).0 (others (suc n)).1)
        ((==_iff limit left).0 e)
      ∙ ap (λ (r : Bool × MissionObject). wait_trigger others limit r.0 r.1) ends
  | inr e ↦
      ap (λ t. wait_trigger others limit t (others (suc limit)).1)
        (quiet (suc limit) (later limit left within e) (omega arith))
      ∙ trigger_in others (others (suc limit)).1 o' left limit (earlier limit left within e)
          (λ k h j. quiet k h (omega (arith, j))) ends
]

module _ (goal goal' : MissionGoal) (on_goal : MissionGoal → Bool × MissionGoal) (o : MissionObject)
    (free : o.status ≡ standby) (accepts : on_goal goal ≡ (true, goal')) where
  goal_accepted : set_goal goal (answered goal on_goal o ∷ []) o ≡ some (true, started goal goal' o)
  unfolding set_goal set_goal_on validated wait_validating start_acting executor_pass serve_waited
      wait_mission serve serve_status serve_standby validate request
  goal_accepted = rw (free, accepts)

  answered_validating : (answered goal on_goal o).status ≡ validating
  unfolding executor_pass serve_waited wait_mission serve serve_status serve_standby validate
      request
  answered_validating = rw free refl

  -- `setGoal` with waits that end before the executor has answered.
  goal_accepted_late :
      (early : List MissionObject)
      → All (λ (s : MissionObject). s.status ≡ standby) early
      → set_goal goal (early ++ (answered goal on_goal o ∷ [])) o
        ≡ some (true, started goal goal' o)
  unfolding set_goal set_goal_on validated executor_pass serve_waited wait_mission serve
      serve_status serve_standby validate request start_acting
  goal_accepted_late early none_answers =
      ap (λ x. set_goal_on goal (early ++ (answered goal on_goal o ∷ [])) x o) free
      ∙ ap validated (
          wait_skips early (answered goal on_goal o) (request goal o) none_answers
            answered_validating)
      ∙ rw (free, accepts) refl

  -- The state that the executor's `done` shows to the issuer, and whether it triggers.
  abbrev pub finished : Bool × MissionObject
  finished = (triggers (done (started goal goal' o)), done (started goal goal' o))

  -- From an object in STANDBY: if the goal callback accepts the goal, the executor answers in a
  -- wait of setGoal, behind any number of wake-ups that show the object in STANDBY, its done
  -- shows in a wait for the trigger, behind any number of waits in which the trigger was not set
  -- and within the limit, and the next mission id fits an int, then action, with the trigger not
  -- set before, returns true, leaves its last_result alone, and leaves the object in STANDBY
  -- with the next mission id, the goal as the callback left it, the operation SET_GOAL and the
  -- result SUCCEED, and nothing else changed.
  pub action_succeeds :
      (early : List MissionObject) (others : ℕ → Bool × MissionObject) (left limit : ℕ)
      → All (λ (s : MissionObject). s.status ≡ standby) early
      → left < limit
      → ((k : ℕ) → suc left < k → k ≤ limit → (others k).0 ≡ false)
      → others (suc left) ≡ finished
      → IsInt32 (o.mission_id +ℤ pos 1)
      → action goal (early ++ (answered goal on_goal o ∷ [])) others limit false o
        ≡ some (
          true,
          none,
          record o {
            status = standby;
            result = succeed;
            operation = set_goal_operation;
            mission_id = o.mission_id +ℤ pos 1;
            goal = goal';
          },
        )
  unfolding action act finish_action triggers is_over done end_acting request
  action_succeeds early others left limit none_answers within quiet ends id =
      ap (act others limit false) (goal_accepted_late early none_answers)
      ∙ ap (λ r. some (finish_action r))
          (trigger_in others (started goal goal' o) (done (started goal goal' o)) left limit within
            quiet ends)
      ∙ ap
          (λ z.
            some (
              true,
              none,
              record (done (started goal goal' o)) { mission_id = z; status = standby },
            ))
          (i32_id (o.mission_id +ℤ pos 1) id)

  -- From an object in STANDBY: if the goal callback accepts the goal and the executor answers in
  -- the first wait of setGoal, an action that begins with the trigger still set returns true at
  -- once and sets the status to STANDBY, with the result ACCEPT, whatever the executor does
  -- afterwards.
  pub stale_trigger :
      (others : ℕ → Bool × MissionObject) (limit : ℕ)
      → action goal (answered goal on_goal o ∷ []) others limit true o
        ≡ some (true, none, record (started goal goal' o) { status = standby })
  unfolding action act finish_action wait_trigger
  stale_trigger others limit = ap (act others limit true) goal_accepted

-- On an object in STANDBY whose operation is still SET_GOAL, a pass of an executor with a goal
-- callback validates the old goal once more and leaves the status VALIDATING, and setGoal on the
-- object that it leaves returns false and changes nothing.
pub stale_goal :
    (on_goal : MissionGoal → Bool × MissionGoal) (o : MissionObject) (goal : MissionGoal)
    (seen : List MissionObject)
    → o.status ≡ standby
    → o.operation ≡ set_goal_operation
    → ((executor_pass (some on_goal) [] o).status ≡ validating)
      × (set_goal goal seen (executor_pass (some on_goal) [] o)
          ≡ some (false, executor_pass (some on_goal) [] o))
unfolding set_goal set_goal_on executor_pass serve_waited wait_mission serve serve_status
    serve_standby validate
stale_goal on_goal o goal seen free op = (rw (free, op), rw (free, op))
