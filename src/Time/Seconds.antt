-- ===== src/Time/Seconds.antt =====
-- Seconds as a number of type `double`: `fromSec` and `toSec` (Source/Time/Time.h, Duration.h and
-- Implement/Duration.h), and the members of `Rate` beside `sleep` (Source/Time/Rate.cpp).
use se_navi_common.Common.{ℕ, ◌+◌, ◌/◌, ◌%◌, ◌^◌, arith, Result, ok, and_then}
use se_navi_common.Common.Int.{ℤ, pos, i32, u32}
use se_navi_common.Common.Double.{Double}
use se_navi_common.Time.{Time, Duration, TimeError, giga, make_duration, IsValidTime}
use se_navi_common.Time.Cycle.{Rate}

-- `floor`, `round`, 1e-9, and the casts to and from integers.
pub record Casts (F : Type 0) : Type 0 where
  pub floor : F → F
  pub round : F → F
  pub nano : F
  pub cast_int : F → ℤ
  pub from_int : ℤ → F

module _ {F : Type 0} (d : Double F) (c : Casts F) where
  -- `DurationBase::fromSec`, and the constructor of a `double`. The nanoseconds are not normalized.
  unfoldable pub duration_from_sec : F → Duration
  duration_from_sec t =
      let sec = i32 (c.cast_int (c.floor t)) in
      record {
        sec = sec;
        nsec = i32 (c.cast_int (d.mul (d.sub t (c.from_int sec)) (d.number 1_000_000_000)));
      }

  unfoldable pub duration_to_sec : Duration → F
  duration_to_sec t = d.add (c.from_int t.sec) (d.mul c.nano (c.from_int t.nsec))

  -- `operator*`, and `operator*=`.
  unfoldable pub scale : Duration → F → Duration
  scale t factor = duration_from_sec (d.mul (duration_to_sec t) factor)

  -- "avoid rounding errors".
  abbrev pub with_carry : ℕ → ℕ → Time
  with_carry sec nsec = record { sec = (sec + nsec / giga) % 2 ^ 32; nsec = nsec % giga }

  -- `TimeBase::fromSec`.
  unfoldable pub time_from_sec : F → Time
  time_from_sec t =
      let sec = u32 (c.cast_int (c.floor t)) in
      with_carry sec (
        u32
          (c.cast_int (c.round (d.mul (d.sub t (c.from_int (pos sec))) (d.number 1_000_000_000)))))

  unfoldable pub time_to_sec : Time → F
  time_to_sec t = d.add (c.from_int (pos t.sec)) (d.mul c.nano (c.from_int (pos t.nsec)))

  -- The constructors of `Rate`, given what `Time::now` reads.
  pub rate_of_frequency : Time → F → Rate
  unfolding duration_from_sec
  rate_of_frequency now frequency = record {
    start = now;
    expected_cycle_time = duration_from_sec (d.div (d.number 1) frequency);
    actual_cycle_time = duration_from_sec (d.number 0);
  }

  pub rate_of_duration : Time → Duration → Result TimeError Rate
  unfolding duration_from_sec
  rate_of_duration now cycle = and_then (make_duration cycle.sec cycle.nsec) λ expected.
      ok (record {
        start = now;
        expected_cycle_time = expected;
        actual_cycle_time = duration_from_sec (d.number 0);
      })

  -- `reset` and `cycleTime`.
  pub reset : Time → Rate → Rate
  reset now r = record r { start = now }

  pub cycle_time : Rate → Duration
  cycle_time r = r.actual_cycle_time

  with_carry-IsValidTime : (sec nsec : ℕ) → IsValidTime (with_carry sec nsec)
  with_carry-IsValidTime sec nsec = (omega arith, omega arith)

  -- A `Time` from any number of seconds is well-formed, whatever the rounding does.
  pub time_from_sec-IsValidTime : (t : F) → IsValidTime (time_from_sec t)
  unfolding time_from_sec
  time_from_sec-IsValidTime t = with_carry-IsValidTime _ _
