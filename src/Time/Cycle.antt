-- ===== src/Time/Cycle.antt =====
-- `Rate` of Source/Time/Rate.cpp: a loop that is kept at a fixed cycle time. `WallRate` is the same
-- code over the wall clock.
pub mod Schedule
use se_navi_common.Common.{Bool, true, false, Option, none, some, if◌then◌else◌, Result, ok, err}
use se_navi_common.Common.Int.{pos}
use se_navi_common.Time.{Time, Duration, TimeError}
use se_navi_common.Time.Stamp
use se_navi_common.Time.Span

pub record Rate : Type 0 where
  pub start : Time
  pub expected_cycle_time : Duration
  pub actual_cycle_time : Duration

-- `Duration(0.0)`.
abbrev pub no_time : Duration
no_time = record { sec = pos 0; nsec = pos 0 }

-- The start of the next cycle after a cycle that took too long, given `expected_end` and one cycle
-- more.
late_cycle : Time → Result TimeError Time → Rate → Result TimeError (Option Duration) × Rate
late_cycle actual_end (err e) r = (err e, r)
late_cycle actual_end (ok limit) r =
    (ok none, if Stamp.greater actual_end limit then record r { start = actual_end } else r)

-- From the two differences on.
settle :
    Time
    → Time
    → Result TimeError Duration
    → Result TimeError Duration
    → Rate
    → Result TimeError (Option Duration) × Rate
unfolding late_cycle
settle actual_end expected_end (err e) actual r = (err e, r)
settle actual_end expected_end (ok sleep_time) (err e) r = (err e, r)
settle actual_end expected_end (ok sleep_time) (ok actual) r =
    let r' = record r { actual_cycle_time = actual; start = expected_end } in
    if Span.less_equal sleep_time no_time
    then late_cycle actual_end (Stamp.add expected_end r.expected_cycle_time) r'
    else (ok (some sleep_time), r')

from_end : Time → Result TimeError Time → Rate → Result TimeError (Option Duration) × Rate
unfolding settle
from_end actual_end (err e) r = (err e, r)
from_end actual_end (ok expected_end) r =
    settle actual_end expected_end (Stamp.sub expected_end actual_end)
      (Stamp.sub actual_end r.start) r

first_end : Time → Result TimeError Time → Rate → Result TimeError (Option Duration) × Rate
unfolding from_end
first_end actual_end (err e) r = (err e, r)
first_end actual_end (ok expected_end) r =
    from_end actual_end
      (if Stamp.less actual_end r.start
        then Stamp.add actual_end r.expected_cycle_time
        else ok expected_end)
      r

-- `Rate::sleep` at the clock reading `actual_end`. The result is how long it sleeps; none: it returns
-- false.
pub sleep : Time → Rate → Result TimeError (Option Duration) × Rate
unfolding first_end
sleep actual_end r = first_end actual_end (Stamp.add r.start r.expected_cycle_time) r
