-- ===== src/Time/Examples.antt =====
-- The laws of `Time` and `Duration` at concrete values.
use se_navi_common.Time.Cycle.{Rate, sleep}
use se_navi_common.Time.Cycle.Schedule.{sleep_schedule}
use se_navi_common.Common.{
  ℕ, ◌+◌, ◌==◌, false, if◌then◌else◌, ltb, some, none, ◌≤◌, ◌<◌, ◌≡◌, ◌↔◌, refl, true, ok, arith,
}
use se_navi_common.Common.Int.{i64, u32, pos, negsuc, ◌+ℤ◌, ◌-ℤ◌, ◌·ℤ◌}
use se_navi_common.Time.{
  Time, Duration, time_total, duration_total, TellsTime, normalize_sec_nsec,
  normalize_sec_nsec_unsigned, carry, make_time,
}
use se_navi_common.Time.Stamp
use se_navi_common.Time.Clock.{Clock, now, sleep_duration}
use se_navi_common.Time.Clock.Sleeping.{simulated, sleep_duration_over}
use se_navi_common.Time.Order.{time_order}
use se_navi_common.Time.Arithmetic.{add-TellsTime}

abbrev early : Time
early = record { sec = 7; nsec = 900_000_000 }

abbrev late : Time
late = record { sec = 9; nsec = 100_000_000 }

-- One second and two tenths.
abbrev step : Duration
step = record { sec = pos 1; nsec = pos 200_000_000 }

-- Half a second back.
abbrev back : Duration
back = record { sec = negsuc 0; nsec = pos 500_000_000 }

abbrev longest_back : Duration
longest_back = record { sec = negsuc 2_147_483_647; nsec = pos 0 }

abbrev far : Time
far = record { sec = 3_000_000_000; nsec = 5 }

sum_runs : Stamp.add early step ≡ ok late
unfolding Stamp.add normalize_sec_nsec_unsigned carry i64 ◌+ℤ◌ make_time normalize_sec_nsec u32
sum_runs = refl

time_order_example :
    ((Stamp.less early late ≡ true) ↔ (time_total early < time_total late))
    × ((Stamp.less_equal early late ≡ true) ↔ (time_total early ≤ time_total late))
    × ((Stamp.greater early late ≡ true) ↔ (time_total late < time_total early))
    × ((Stamp.greater_equal early late ≡ true) ↔ (time_total late ≤ time_total early))
    × ((Stamp.equals early late ≡ true) ↔ (early ≡ late))
time_order_example = time_order early late (omega arith) (omega arith)

add_example : TellsTime (pos (time_total early) +ℤ duration_total step) (Stamp.add early step)
add_example = add-TellsTime early step (omega arith) (omega arith)

abbrev half : Duration
half = record { sec = pos 0; nsec = pos 500_000_000 }

abbrev quarter : Duration
quarter = record { sec = pos 0; nsec = pos 250_000_000 }

-- A rate of two cycles a second, asked a quarter of a second after its start.
abbrev beat : Rate
beat = record {
  start = record { sec = 7; nsec = 0 };
  expected_cycle_time = half;
  actual_cycle_time = half;
}

abbrev clock_reading : Time
clock_reading = record { sec = 7; nsec = 250_000_000 }

abbrev beat_end : Time
beat_end = record { sec = 7; nsec = 500_000_000 }

abbrev next_end : Time
next_end = record { sec = 8; nsec = 0 }

sleep_schedule_example : sleep clock_reading beat ≡ (
    if ltb (time_total clock_reading) (time_total beat_end)
    then (ok (some quarter), record beat { start = beat_end; actual_cycle_time = quarter })
    else (
      ok none,
      if ltb (time_total next_end) (time_total clock_reading)
          then record beat { start = clock_reading; actual_cycle_time = quarter }
          else record beat { start = beat_end; actual_cycle_time = quarter },
    ))
unfolding time_total duration_total ◌+ℤ◌ ◌-ℤ◌ ◌·ℤ◌
sleep_schedule_example =
    sleep_schedule beat clock_reading beat_end next_end quarter quarter (omega arith) (omega arith)
      (omega arith) (omega arith) (omega arith) (omega arith) (omega arith) refl refl refl refl
      (omega arith) (omega arith) (omega arith)

abbrev at : ℕ → Time
at n = record { sec = n; nsec = 0 }

-- The simulated time goes on by a second in each wait.
abbrev tick : ℕ → Clock → Clock
tick i c = record c { sim_time = at (c.sim_time.sec + 1) }

-- It goes back in the second wait.
abbrev fall : ℕ → Clock → Clock
fall i c = record c { sim_time = if i == 1 then at 3 else at 6 }

abbrev no_wall : ℕ → ℕ → Time
no_wall i j = at 0

sleep_duration_example :
    sleep_duration tick no_wall 5
      (at 0)
      (record { sec = pos 2; nsec = pos 0 })
      (simulated (at 5) false)
    ≡ some (ok (true, simulated (at 7) false))
unfolding now Stamp.less Stamp.is_zero Stamp.add normalize_sec_nsec_unsigned carry i64 ◌+ℤ◌
    make_time normalize_sec_nsec u32
sleep_duration_example =
    sleep_duration_over tick no_wall 2 5 (at 0) (at 5) (at 7) (record { sec = pos 2; nsec = pos 0 })
      false refl refl (refl, (refl, (refl, (refl, refl)))) (omega arith)
