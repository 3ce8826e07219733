-- ===== src/Timer/Thread.antt =====
-- The thread of `TimerManager` (Source/Timer/TimerManager.h), and the callbacks that it makes for
-- timers that are due.
use se_navi_common.Common.{
  ℕ, suc, ◌+◌, ◌-◌, ◌%◌, ◌^◌, Bool, true, false, not, ◌&&◌, ◌||◌, ◌==◌, if◌then◌else◌, List, [],
  ◌∷◌, Option, none, some, Result, ok, and_then,
}
use se_navi_common.Time.{Time, TimeError}
use se_navi_common.Time.Stamp
use se_navi_common.Timer.{TimerInfo, QueueCallback, Manager, find_timer, change, schedule}

-- `tracked_object.lock()`, where there is a tracked object; `alive` has the objects that still exist.
abbrev pub is_tracked : (ℕ → Bool) → Option ℕ → Bool
is_tracked alive none = true
is_tracked alive (some object) = alive object

abbrev pub pending : (ℕ → Bool) → Time → Option TimerInfo → Bool
pending alive now none = false
pending alive now (some info) =
    is_tracked alive info.tracked
    && (Stamp.less_equal info.next_expected now || not (info.waiting_callbacks == 0))

-- `hasPending`.
unfoldable pub has_pending : (ℕ → Bool) → Time → ℕ → Manager → Bool
has_pending alive now handle s = pending alive now (find_timer handle s.timers)

-- The callback that the thread makes for a timer that is due.
abbrev pub callback_of : TimerInfo → QueueCallback
callback_of info = record {
  timer = info.handle;
  last_expected = info.last_expected;
  last_real = info.last_real;
  current_expected = info.next_expected;
}

-- A pass of the thread over the waiting timers: what it adds to the queues, what still waits, its
-- last reading of the clock, and the timer that it saw last.
pub record Pass : Type 0 where
  pub events : List QueueCallback
  pub waiting : List ℕ
  pub timers : List TimerInfo
  pub current : Time
  pub last : Option TimerInfo

abbrev pub one_more : TimerInfo → TimerInfo
one_more info = record info { waiting_callbacks = (info.waiting_callbacks + 1) % 2 ^ 32 }

abbrev pub is_due : Time → Option TimerInfo → Bool
is_due current none = false
is_due current (some info) = Stamp.less_equal info.next_expected current

abbrev pub with_event : QueueCallback → Pass → Pass
with_event e p = record p { events = e ∷ p.events }

abbrev pub stopped : List ℕ → List TimerInfo → Time → Option TimerInfo → Pass
stopped waiting timers current last = record {
  events = [];
  waiting = waiting;
  timers = timers;
  current = current;
  last = last;
}

abbrev pub fired : Option TimerInfo → Pass → Pass
fired none p = p
fired (some info) p = with_event (callback_of info) p

-- The loop of `threadFunc` over `waiting_`, which takes a reading of the clock for each timer.
unfoldable pub run_due : (ℕ → Time) → ℕ → Time → List TimerInfo → Option TimerInfo → List ℕ → Pass
run_due clock i current timers last [] = stopped [] timers current last
run_due clock i current timers last (h ∷ hs) =
    let found = find_timer h timers in
    let rest = run_due clock (suc i) (clock i) (change h one_more timers) found hs in
    if is_due current found then fired found rest else stopped (h ∷ hs) timers current found

abbrev pub jumped : Time → TimerInfo → Result TimeError TimerInfo
jumped current info =
    if Stamp.less current info.last_expected
    then (and_then (Stamp.add current info.period)
        λ next. ok (record info { last_expected = current; next_expected = next }))
    else ok info

-- `threadFunc`, where the time has jumped backwards.
unfoldable pub jump_back : Time → List TimerInfo → Result TimeError (List TimerInfo)
jump_back current [] = ok []
jump_back current (info ∷ infos) =
    and_then (jumped current info)
      λ info'. and_then (jump_back current infos) λ infos'. ok (info' ∷ infos')

-- A pass of `threadFunc` up to its wait, given the reading of the pass before.
unfoldable pub thread_pass : (ℕ → Time) → Time → Manager → Result TimeError Pass
thread_pass clock current s =
    if Stamp.less (clock 0) current
    then (and_then (jump_back (clock 1) s.timers)
        λ timers. ok (run_due clock 3 (clock 2) timers none s.waiting))
    else ok (run_due clock 2 (clock 1) s.timers none s.waiting)

-- `TimerQueueCallback::call`, with what the callback does to the manager; true is Success.
abbrev pub called_back :
    (Manager → Manager)
    → Time
    → Time
    → Time
    → Time
    → QueueCallback
    → Manager
    → Result TimeError (Bool × Manager)
called_back run real start end now cb s =
    let s' = run s in
    and_then (Stamp.sub end start) λ took.
      and_then
        (schedule cb.timer now (record s' {
          timers =
              change cb.timer (λ i. record i { last_cb_duration = took; last_real = real })
                s'.timers;
        }))
        λ s''. ok (true, s'')

abbrev pub call_tracked :
    Bool
    → (Manager → Manager)
    → Time
    → Time
    → Time
    → Time
    → QueueCallback
    → Manager
    → Result TimeError (Bool × Manager)
call_tracked false run real start end now cb s = ok (false, s)
call_tracked true run real start end now cb s = called_back run real start end now cb s

abbrev pub call_found :
    (ℕ → Bool)
    → (Manager → Manager)
    → Time
    → Time
    → Time
    → Time
    → QueueCallback
    → Manager
    → Option TimerInfo
    → Result TimeError (Bool × Manager)
call_found alive run real start end now cb s none = ok (false, s)
call_found alive run real start end now cb s (some info) =
    call_tracked (is_tracked alive info.tracked) run real start end now cb (record s {
      timers =
          change cb.timer (λ i. record i { total_calls = (i.total_calls + 1) % 2 ^ 32 }) s.timers;
    })

unfoldable pub call_queued :
    (ℕ → Bool)
    → (Manager → Manager)
    → Time
    → Time
    → Time
    → Time
    → QueueCallback
    → Manager
    → Result TimeError (Bool × Manager)
call_queued alive run real start end now cb s =
    call_found alive run real start end now cb s (find_timer cb.timer s.timers)

-- `~TimerQueueCallback`.
unfoldable pub release : QueueCallback → Manager → Manager
release cb s = record s {
  timers =
      change cb.timer
        (λ i. record i { waiting_callbacks = (i.waiting_callbacks + 2 ^ 32 - 1) % 2 ^ 32 })
        s.timers;
}
