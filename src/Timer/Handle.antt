-- ===== src/Timer/Handle.antt =====
-- `Timer::Impl` (Source/Timer/Timer.h, Timer.cpp), over the manager of all timers. A `Timer` without
-- one does nothing.
use se_navi_common.Common.{
  ℕ, Bool, true, false, not, ◌||◌, ◌==◌, if◌then◌else◌, Option, none, some, Result, ok, and_then,
}
use se_navi_common.Time.{Time, Duration, TimeError}
use se_navi_common.Time.Span
use se_navi_common.Timer.{Manager, add, remove, set_period}
use se_navi_common.Timer.Thread.{has_pending}

pub record Impl : Type 0 where
  pub started : Bool
  pub timer_handle : ℕ
  pub period : Duration
  pub callback : ℕ
  pub callback_queue : ℕ
  pub tracked_object : Option ℕ
  pub oneshot : Bool

-- The handle -1, as a bit pattern.
abbrev pub no_handle : ℕ
no_handle = 4_294_967_295

-- `isValid`.
pub is_valid : Impl → Bool
is_valid t = not (Span.is_zero t.period)

-- `start`. The tracked object is none where there is none or it is gone.
unfoldable pub start_impl : Time → Impl → Manager → Result TimeError (Impl × Manager)
start_impl now t s =
    if t.started
    then ok (t, s)
    else (and_then (add t.period t.callback t.callback_queue t.tracked_object t.oneshot now s)
        λ r. ok (record t { timer_handle = r.0; started = true }, r.1))

-- `stop`, with the queue that is told to remove the timer's callbacks.
unfoldable pub stop_impl : Impl → Manager → Option ℕ × (Impl × Manager)
stop_impl t s =
    if t.started
    then (let (queue, s') = remove t.timer_handle s in
        (queue, (record t { started = false; timer_handle = no_handle }, s')))
    else (none, (t, s))

-- `hasPending`.
pub has_pending_impl : (ℕ → Bool) → Time → Impl → Manager → Bool
unfolding is_valid
has_pending_impl alive now t s =
    if not (is_valid t) || t.timer_handle == no_handle
    then false
    else has_pending alive now t.timer_handle s

-- `setPeriod`.
pub set_period_impl :
    Duration → Bool → Time → Time → Time → Impl → Manager → Result TimeError (Impl × Manager)
set_period_impl period reset now1 now2 now3 t s =
    and_then (set_period t.timer_handle reset period now1 now2 now3 s)
      λ s'. ok (record t { period = period }, s')

-- `TimerOptions` and its constructor.
pub record TimerOptions : Type 0 where
  pub period : Duration
  pub callback : ℕ
  pub callback_queue : ℕ
  pub tracked_object : Option ℕ
  pub oneshot : Bool
  pub autostart : Bool

abbrev pub timer_options : Duration → ℕ → ℕ → Bool → Bool → TimerOptions
timer_options period callback queue oneshot autostart = record {
  period = period;
  callback = callback;
  callback_queue = queue;
  tracked_object = none;
  oneshot = oneshot;
  autostart = autostart;
}

-- The constructors of `Impl` and of `Timer` with options. `autostart` is not read.
abbrev pub new_impl : TimerOptions → Impl
new_impl ops = record {
  started = false;
  timer_handle = no_handle;
  period = ops.period;
  callback = ops.callback;
  callback_queue = ops.callback_queue;
  tracked_object = ops.tracked_object;
  oneshot = ops.oneshot;
}

-- The operations of `Timer`, which may have no `Impl`.
abbrev pub with_impl : Impl × Manager → Option Impl × Manager
with_impl r = (some r.0, r.1)

unfoldable pub start_timer : Time → Option Impl → Manager → Result TimeError (Option Impl × Manager)
start_timer now none s = ok (none, s)
start_timer now (some t) s = and_then (start_impl now t s) λ r. ok (with_impl r)

unfoldable pub stop_timer : Option Impl → Manager → Option ℕ × (Option Impl × Manager)
stop_timer none s = (none, (none, s))
stop_timer (some t) s = let (queue, r) = stop_impl t s in (queue, with_impl r)

unfoldable pub has_pending_timer : (ℕ → Bool) → Time → Option Impl → Manager → Bool
unfolding has_pending_impl
has_pending_timer alive now none s = false
has_pending_timer alive now (some t) s = has_pending_impl alive now t s

unfoldable pub set_period_timer :
    Duration
    → Bool
    → Time
    → Time
    → Time
    → Option Impl
    → Manager
    → Result TimeError (Option Impl × Manager)
unfolding set_period_impl
set_period_timer period reset now1 now2 now3 none s = ok (none, s)
set_period_timer period reset now1 now2 now3 (some t) s =
    and_then (set_period_impl period reset now1 now2 now3 t s) λ r. ok (with_impl r)
