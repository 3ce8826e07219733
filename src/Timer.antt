-- ===== src/Timer.antt =====
-- Source/Timer: `TimerManager` (TimerManager.h) with the clock, the durations and the events that
-- Timer.cpp takes for its parameters. A timer's object is reached by its handle, and a handle is the
-- bit pattern of its `int32_t`. The readings of the clock are arguments.
pub mod Thread
pub mod Order
pub mod Dispatch
pub mod Period
pub mod Calls
pub mod Handle
pub mod Queueing
pub mod Stopping
mod Examples
use se_navi_common.Common.{
  ℕ, zero, suc, ◌+◌, ◌-◌, ◌%◌, ◌^◌, Bool, true, false, not, ◌&&◌, ◌||◌, ◌==◌, if◌then◌else◌, List,
  [], ◌∷◌, ◌++◌, Option, none, some, Result, ok, err, and_then,
}
use se_navi_common.Common.Int.{pos}
use se_navi_common.Time.{Time, Duration, TimeError}
use se_navi_common.Time.Stamp
use se_navi_common.Time.Span

-- `tracked` is the tracked object, where there is one. Callbacks, queues and objects are named by
-- numbers.
pub record TimerInfo : Type 0 where
  pub handle : ℕ
  pub period : Duration
  pub callback : ℕ
  pub callback_queue : ℕ
  pub last_cb_duration : Duration
  pub last_expected : Time
  pub next_expected : Time
  pub last_real : Time
  pub tracked : Option ℕ
  pub waiting_callbacks : ℕ
  pub oneshot : Bool
  pub total_calls : ℕ

-- `TimerQueueCallback`.
pub record QueueCallback : Type 0 where
  pub timer : ℕ
  pub last_expected : Time
  pub last_real : Time
  pub current_expected : Time

pub record Manager : Type 0 where
  pub timers : List TimerInfo
  pub new_timer : Bool
  pub waiting : List ℕ
  pub id_counter : ℕ
  pub thread_started : Bool

-- `T()`, `D()` and `T(INT_MAX, 999999999)`.
abbrev pub no_stamp : Time
no_stamp = record { sec = 0; nsec = 0 }

abbrev pub no_span : Duration
no_span = record { sec = pos 0; nsec = pos 0 }

abbrev pub never : Time
never = record { sec = 2_147_483_647; nsec = 999_999_999 }

-- `findTimer`.
unfoldable pub find_timer : ℕ → List TimerInfo → Option TimerInfo
find_timer handle [] = none
find_timer handle (info ∷ infos) =
    let rest = find_timer handle infos in if info.handle == handle then some info else rest

-- A null pointer is less than any other.
abbrev pub compare_infos : Option TimerInfo → Option TimerInfo → Bool
compare_infos (some l) (some r) = Stamp.less l.next_expected r.next_expected
compare_infos none (some r) = true
compare_infos none none = false
compare_infos (some l) none = false

-- `waitingCompare`.
unfoldable pub waiting_compare : List TimerInfo → ℕ → ℕ → Bool
waiting_compare timers lhs rhs = compare_infos (find_timer lhs timers) (find_timer rhs timers)

-- `waiting_.sort`, which is stable.
unfoldable pub insert : List TimerInfo → ℕ → List ℕ → List ℕ
insert timers h [] = h ∷ []
insert timers h (k ∷ ks) =
    let rest = insert timers h ks in if waiting_compare timers k h then k ∷ rest else h ∷ k ∷ ks

unfoldable pub sort : List TimerInfo → List ℕ → List ℕ
sort timers [] = []
sort timers (h ∷ hs) = insert timers h (sort timers hs)

-- A change of the timer's object.
unfoldable pub change : ℕ → (TimerInfo → TimerInfo) → List TimerInfo → List TimerInfo
change handle f [] = []
change handle f (info ∷ infos) =
    let rest = change handle f infos in
    if info.handle == handle then f info ∷ infos else info ∷ rest

unfoldable pub erase_timer : ℕ → List TimerInfo → List TimerInfo
erase_timer handle [] = []
erase_timer handle (info ∷ infos) =
    let rest = erase_timer handle infos in if info.handle == handle then infos else info ∷ rest

unfoldable pub erase_waiting : ℕ → List ℕ → List ℕ
erase_waiting handle [] = []
erase_waiting handle (h ∷ hs) =
    let rest = erase_waiting handle hs in if h == handle then hs else h ∷ rest

-- The list of waiting timers is sorted once more, and the thread is notified.
abbrev pub sorted_again : List ℕ → Manager → Manager
sorted_again waiting s = record s { waiting = sort s.timers waiting; new_timer = true }

abbrev pub added : Manager → TimerInfo → ℕ × Manager
added s info = (
  info.handle,
  sorted_again (s.waiting ++ (info.handle ∷ [])) (record s {
    timers = s.timers ++ (info ∷ []);
    id_counter = (s.id_counter + 1) % 2 ^ 32;
    thread_started = true;
  }),
)

-- `add`, with its handle. The object's other members are value-initialized.
unfoldable pub add :
    Duration → ℕ → ℕ → Option ℕ → Bool → Time → Manager → Result TimeError (ℕ × Manager)
add period callback callback_queue tracked oneshot now s = and_then (Stamp.add now period) λ next.
    ok (
      added s (record {
        handle = s.id_counter;
        period = period;
        callback = callback;
        callback_queue = callback_queue;
        last_cb_duration = no_span;
        last_expected = now;
        next_expected = next;
        last_real = no_stamp;
        tracked = tracked;
        waiting_callbacks = 0;
        oneshot = oneshot;
        total_calls = 0;
      }))

abbrev pub queue_of : Option TimerInfo → Option ℕ
queue_of none = none
queue_of (some info) = some info.callback_queue

-- `remove`, with the queue that is told to remove the timer's callbacks.
unfoldable pub remove : ℕ → Manager → Option ℕ × Manager
remove handle s = (
  queue_of (find_timer handle s.timers),
  record s { timers = erase_timer handle s.timers; waiting = erase_waiting handle s.waiting },
)

-- What `updateNext` does to a timer that is not `oneshot`, in two steps.
abbrev pub step_next : Time → TimerInfo → Result TimeError TimerInfo
step_next now info =
    if Stamp.less_equal info.next_expected now
    then (and_then (Stamp.add info.next_expected info.period)
        λ next. ok (record info { last_expected = info.next_expected; next_expected = next }))
    else ok info

abbrev pub skip_next : Time → TimerInfo → Result TimeError TimerInfo
skip_next now info =
    and_then (Stamp.add info.next_expected info.period)
      λ limit. ok (if Stamp.less limit now then record info { next_expected = now } else info)

-- `updateNext`.
unfoldable pub update_next : Time → TimerInfo → Result TimeError TimerInfo
update_next now info =
    if info.oneshot
    then ok (record info { next_expected = never })
    else and_then (step_next now info) (skip_next now)

abbrev pub scheduled : ℕ → Time → Manager → Option TimerInfo → Result TimeError Manager
scheduled handle now s none = ok s
scheduled handle now s (some info) = and_then (update_next now info) λ info'. ok (
    sorted_again (s.waiting ++ (handle ∷ []))
      (record s { timers = change handle (λ i. info') s.timers }))

-- `schedule`; a removed timer is not found.
unfoldable pub schedule : ℕ → Time → Manager → Result TimeError Manager
schedule handle now s = scheduled handle now s (find_timer handle s.timers)

-- The new `next_expected` of `setPeriod`, at its readings of the clock.
abbrev pub next_of : Bool → Duration → Time → Time → Time → TimerInfo → Result TimeError Time
next_of true period now1 now2 now3 info = Stamp.add now1 period
next_of false period now1 now2 now3 info = and_then (Stamp.sub now1 info.last_real) λ elapsed.
    if Span.less elapsed info.period
    then (and_then (Stamp.sub now2 info.last_real) λ elapsed'.
        if Span.greater elapsed' period then ok now3 else Stamp.add info.last_real period)
    else ok info.next_expected

abbrev pub period_set :
    ℕ → Bool → Duration → Time → Time → Time → Manager → Option TimerInfo → Result TimeError Manager
period_set handle reset period now1 now2 now3 s none = ok s
period_set handle reset period now1 now2 now3 s (some info) =
    and_then (next_of reset period now1 now2 now3 info) λ next. ok (
      sorted_again s.waiting (record s {
        timers = change handle (λ i. record i { next_expected = next; period = period }) s.timers;
      }))

-- `setPeriod`.
unfoldable pub set_period :
    ℕ → Bool → Duration → Time → Time → Time → Manager → Result TimeError Manager
set_period handle reset period now1 now2 now3 s =
    period_set handle reset period now1 now2 now3 s (find_timer handle s.timers)
