-- ===== src/Timer/Examples.antt =====
-- Timers of Source/Timer/TimerManager.h at work.
use se_navi_common.Common.{
  ℕ, ◌+◌, ◌≡◌, ◌++◌, refl, true, false, if◌then◌else◌, List, [], ◌∷◌, none, some, arith, ◌==◌, ok,
}
use se_navi_common.Common.Int.{pos, ◌+ℤ◌, ◌·ℤ◌}
use se_navi_common.Time.{Time, Duration, time_total, duration_total}
use se_navi_common.Time.Stamp
use se_navi_common.Timer.{
  TimerInfo, QueueCallback, Manager, no_stamp, no_span, find_timer, add, schedule, set_period,
  update_next,
}
use se_navi_common.Callbacks.{CallResult, success, State, call_available}
use se_navi_common.Timer.Queueing.{timers_of, queued, all_called, thread_pass-call_available}
use se_navi_common.Timer.Thread.{callback_of, Pass, thread_pass, call_queued}
use se_navi_common.Timer.Handle.{Impl, stop_impl}
use se_navi_common.Timer.Stopping.{NoneOf, stop_calls_none}
use se_navi_common.Callbacks.{remove_by_id, contains}
use se_navi_common.Callbacks.Running.{keep, runs, info_of, ready_to_call}
use se_navi_common.Timer.Order.{is_before, IsOrdered, Always, waiting-IsOrdered}
use se_navi_common.Timer.Dispatch.{Due, Waits}
use se_navi_common.Timer.Period.{Others, update_next_lem}
use se_navi_common.Timer.Calls.{CallsAgain, call-Waiting}

abbrev at : ℕ → Time
at n = record { sec = n; nsec = 0 }

abbrev span : ℕ → Duration
span n = record { sec = pos n; nsec = pos 0 }

-- A timer of a handle and a period, that is expected at some second.
abbrev timer : ℕ → ℕ → ℕ → TimerInfo
timer handle period next = record {
  handle = handle;
  period = span period;
  callback = 1;
  callback_queue = 7;
  last_cb_duration = no_span;
  last_expected = at 15;
  next_expected = at next;
  last_real = no_stamp;
  tracked = none;
  waiting_callbacks = 0;
  oneshot = false;
  total_calls = 0;
}

-- The first is expected at 20 and the second, whose period is shorter, at 30.
abbrev manager : Manager
manager = record {
  timers = timer 0 10 20 ∷ timer 1 2 30 ∷ [];
  new_timer = false;
  waiting = 0 ∷ 1 ∷ [];
  id_counter = 2;
  thread_started = true;
}

abbrev from : ℕ → ℕ → Time
from n i = at (n + i)

in_order : IsOrdered manager
unfolding is_before find_timer
in_order = ((refl, tt), (tt, tt))

waiting_example :
    Always (λ (r : ℕ × Manager). IsOrdered r.1) (add (span 5) 1 7 none false (at 20) manager)
    × (Always IsOrdered (schedule 0 (at 20) manager)
        × Always IsOrdered (set_period 0 true (span 5) (at 20) (at 20) (at 20) manager))
waiting_example =
    waiting-IsOrdered 0 true (span 5) 1 7 none false (at 20) (at 20) (at 20) manager in_order

abbrev callback_name : QueueCallback → ℕ
callback_name e = e.timer + 100

abbrev succeed : ℕ → State → CallResult × State
succeed cb s = (success, s)

thread_queue_example :
    (p : Pass) × ((thread_pass (from 20) (at 20) manager ≡ ok p)
      × ((manager.waiting ≡ timers_of p.events ++ p.waiting)
          × ((call_available succeed 2 none (
                  queued succeed
                    (λ cb. success)
                    (λ cb s. refl)
                    (λ cb. refl)
                    callback_name
                    3
                    (7 ∷ [])
                    p.events)
                ≡ some (
                    all_called succeed
                      (λ cb. success)
                      (λ cb s. refl)
                      (λ cb. refl)
                      callback_name
                      3
                      (7 ∷ [])
                      p.events))
              × (Due (from 20) 2 (from 20 1) p.events × Waits manager.timers p.current p.waiting))))
unfolding find_timer Stamp.less
thread_queue_example =
    thread_pass-call_available succeed (λ cb. success) (λ cb s. refl) (λ cb. refl) callback_name 3
      (7 ∷ []) 2 (from 20) (at 20) manager refl in_order (refl, (refl, tt)) (omega arith)
      (omega arith)

-- The time goes back from 20 to 5. The second timer is expected at 8 then, and is not called at 9.
abbrev jumped_timers : List TimerInfo
jumped_timers =
    record (timer 0 10 16) { last_expected = at 6 }
    ∷ record (timer 1 2 8) { last_expected = at 6 }
    ∷ []

abbrev back : ℕ → Time
back i = if i == 2 then at 9 else at (5 + i)

update_next_example :
    update_next (at 21) (timer 0 10 20)
    ≡ ok (record (timer 0 10 20) { last_expected = at 20; next_expected = at 30 })
unfolding time_total duration_total ◌+ℤ◌ ◌·ℤ◌
update_next_example =
    update_next_lem (timer 0 10 20) (at 21) (at 30) (at 40) (omega arith, omega arith)
      ((omega arith, omega arith), refl, omega arith) (omega arith, omega arith)
      (omega arith, omega arith) (omega arith, omega arith) refl refl refl

-- The timer of handle 0, started, and a queue with a callback of each timer.
abbrev running_timer : Impl
running_timer = record {
  started = true;
  timer_handle = 0;
  period = span 10;
  callback = 1;
  callback_queue = 7;
  tracked_object = none;
  oneshot = false;
}

abbrev both_queued : State
both_queued = record {
  queue = record {
    callbacks = info_of 100 0 false ∷ info_of 101 1 false ∷ [];
    calling = 0;
    enabled = true;
    id_info = 0 ∷ 1 ∷ [];
  };
  tls = ready_to_call (info_of 102 0 false ∷ []);
  trace = [];
}

stop_example :
    ((stop_impl running_timer manager).0 ≡ some 7)
    × (NoneOf 0 (remove_by_id 0 both_queued).queue.callbacks
        × (NoneOf 0 (
              keep
                (runs (remove_by_id 0 both_queued).queue.id_info)
                (remove_by_id 0 both_queued).tls.callbacks)
            × ((p : Pass) × ((thread_pass (from 20) (at 20) (stop_impl running_timer manager).1.1
                    ≡ ok p)
                  × Others 0 (timers_of p.events)))))
unfolding find_timer Stamp.less contains
stop_example =
    stop_calls_none running_timer manager (timer 0 10 20) both_queued (from 20) (at 20) refl refl
      in_order ((refl, tt), (tt, tt)) (refl, (refl, tt)) (refl, (refl, tt)) refl

call_example_timer : Always (CallsAgain 0) (
    call_queued
      (λ object. true)
      (λ s. s)
      (at 20)
      (at 20)
      (at 21)
      (at 21)
      (callback_of (timer 0 10 20))
      manager)
unfolding find_timer
call_example_timer =
    call-Waiting (λ object. true) (λ s. s) (at 20) (at 20) (at 21) (at 21)
      (callback_of (timer 0 10 20)) manager (timer 0 10 20) refl refl (λ s t. t)
