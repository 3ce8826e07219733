-- ===== src/Mission/Blocked.antt =====
-- What keeps a mission object from being free for the next goal.
use se_navi_common.Common.{
  ℕ, zero, suc, ◌≡◌, ◌≢◌, sym, refl, ap, ◌∙◌, Bool, true, false, List, [], ◌∷◌, Option, none, some,
}
use se_navi_common.Mission.{
  MissionResult, MissionStatus, standby, validating, acting, accept, reject, aborted, timeout,
  succeed, MissionGoal, MissionObject, request, wait_validating, start_acting, validated,
  set_goal_on, set_goal, wait_trigger, over, finish_action, act, action,
}

abbrev pub IsBusy : Bool × MissionObject → Type 0
IsBusy seen = seen.1.status ≢ standby

busy_refuses :
    (goal : MissionGoal) (seen : List MissionObject) (x : MissionStatus) (o : MissionObject)
    → x ≢ standby
    → set_goal_on goal seen x o ≡ some (false, o)
unfolding set_goal_on
busy_refuses goal seen standby o busy = absurd (busy refl)
busy_refuses goal seen validating o busy = refl
busy_refuses goal seen acting o busy = refl

-- A wait for the trigger ends in the state that it began with or in one that the other side left.
wait_trigger-busy :
    (others : ℕ → Bool × MissionObject) (left : ℕ) (trigger : Bool) (o : MissionObject)
    → ((k : ℕ) → (others k).1.status ≢ standby)
    → o.status ≢ standby
    → (wait_trigger others left trigger o).1.status ≢ standby
unfolding wait_trigger
wait_trigger-busy others left true o all h = h
wait_trigger-busy others zero false o all h = all 0
wait_trigger-busy others (suc left) false o all h =
    wait_trigger-busy others left (others (suc left)).0 (others (suc left)).1 all (all (suc left))

-- Where the action fails at its end, the object is the one that the wait left.
finish-failed :
    (w : Bool × MissionObject) (r : Option MissionResult) (o' : MissionObject)
    → finish_action w ≡ (false, r, o')
    → w.1 ≡ o'
unfolding finish_action
finish-failed (true, o) r o' h = ap (λ q. q.2) h
finish-failed (false, o) r o' h = from o.result h
  where
    from : (x : MissionResult) → over o x ≡ (false, r, o') → o ≡ o'
    from aborted h' = ap (λ q. q.2) h'
    from accept h' = absurd (cc (ap (λ q. q.0) h'))
    from reject h' = absurd (cc (ap (λ q. q.0) h'))
    from timeout h' = absurd (cc (ap (λ q. q.0) h'))
    from succeed h' = absurd (cc (ap (λ q. q.0) h'))

-- What `setGoal` leaves is not free: it refused, or the goal is validated or acted on.
start-busy :
    (x : MissionResult) (o : MissionObject)
    → o.status ≡ validating
    → (start_acting x o).1.status ≢ standby
unfolding start_acting
start-busy reject o e h = absurd (cc (e, h))
start-busy accept o e h = absurd (cc h)
start-busy aborted o e h = absurd (cc h)
start-busy timeout o e h = absurd (cc h)
start-busy succeed o e h = absurd (cc h)

abbrev from_some {ℓ} : {A : Type ℓ} → A → Option A → A
from_some d none = d
from_some d (some a) = a

some-injective : {A : Type 0} (a b : A) → some a ≡ some b → a ≡ b
some-injective a b h = ap (from_some a) h

wait_validating-ends :
    (seen : List MissionObject) (x : MissionStatus) (o o' : MissionObject)
    → o.status ≡ x
    → wait_validating seen x o ≡ some o'
    → o'.status ≡ validating
unfolding wait_validating
wait_validating-ends seen validating o o' e h = ap (λ q. q.status) (sym (some-injective o o' h)) ∙ e
wait_validating-ends [] standby o o' e h = absurd (cc h)
wait_validating-ends [] acting o o' e h = absurd (cc h)
wait_validating-ends (o1 ∷ seen) standby o o' e h = wait_validating-ends seen o1.status o1 o' refl h
wait_validating-ends (o1 ∷ seen) acting o o' e h = wait_validating-ends seen o1.status o1 o' refl h

validated-busy :
    (w : Option MissionObject) (r : Bool × MissionObject)
    → ((o' : MissionObject) → w ≡ some o' → o'.status ≡ validating)
    → validated w ≡ some r
    → r.1.status ≢ standby
unfolding validated
validated-busy none r ends h e = absurd (cc h)
validated-busy (some o') r ends h e =
    start-busy o'.result o' (ends o' refl)
      (ap (λ q. q.1.status) (some-injective (start_acting o'.result o') r h) ∙ e)

set_goal-busy :
    (goal : MissionGoal) (seen : List MissionObject) (x : MissionStatus) (o : MissionObject)
    (r : Bool × MissionObject)
    → o.status ≡ x
    → set_goal_on goal seen x o ≡ some r
    → r.1.status ≢ standby
unfolding set_goal_on request
set_goal-busy goal seen standby o r e h k =
    validated-busy (wait_validating seen standby (request goal o)) r
      (λ o'. wait_validating-ends seen standby (request goal o) o' e) h k
set_goal-busy goal seen validating o r e h k =
    cc (e, ap (λ q. q.1.status) (some-injective (false, o) r h) ∙ k)
set_goal-busy goal seen acting o r e h k =
    cc (e, ap (λ q. q.1.status) (some-injective (false, o) r h) ∙ k)

module _ (others : ℕ → Bool × MissionObject) (all : (k : ℕ) → (others k).1.status ≢ standby) where
  act-failed :
      (limit : ℕ) (trigger : Bool) (w : Option (Bool × MissionObject)) (r : Option MissionResult)
      (o' : MissionObject)
      → ((q : Bool × MissionObject) → w ≡ some q → q.1.status ≢ standby)
      → act others limit trigger w ≡ some (false, r, o')
      → o'.status ≢ standby
  unfolding act
  act-failed limit trigger none r o' busy h e = absurd (cc h)
  act-failed limit trigger (some (false, o)) r o' busy h e =
      busy (false, o) refl
        (ap (λ q. q.2.status) (some-injective (false, some reject, o) (false, r, o') h) ∙ e)
  act-failed limit trigger (some (true, o)) r o' busy h e =
      let w = wait_trigger others limit trigger o in
      wait_trigger-busy others limit trigger o all (busy (true, o) refl) (
        ap (λ q. q.status)
          (finish-failed w r o' (some-injective (finish_action w) (false, r, o') h))
        ∙ e)

  -- If the other side never sets the status to STANDBY in the waits of an action, and the action
  -- returns false, for any reason, then every later setGoal on the object that it leaves returns
  -- false and changes nothing.
  pub failed_blocks :
      (goal next_goal : MissionGoal) (seen next_seen : List MissionObject) (limit : ℕ)
      (trigger : Bool) (o o' : MissionObject) (r : Option MissionResult)
      → action goal seen others limit trigger o ≡ some (false, r, o')
      → set_goal next_goal next_seen o' ≡ some (false, o')
  unfolding action set_goal
  failed_blocks goal next_goal seen next_seen limit trigger o o' r h =
      busy_refuses next_goal next_seen o'.status o' (
        act-failed limit trigger (set_goal goal seen o) r o'
          (λ q e. set_goal-busy goal seen o.status o q refl e) h)
