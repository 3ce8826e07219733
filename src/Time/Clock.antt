-- ===== src/Time/Clock.antt =====
-- The clock of Source/Time/Time.cpp: simulated or system time, its start and its end, and the loops
-- that sleep by it. `walltime` and what happens while the code sleeps are arguments.
pub mod Sleeping
use se_navi_common.Common.{
  ℕ, zero, suc, Bool, true, false, not, ◌&&◌, ◌||◌, if◌then◌else◌, Option, none, some, Result, ok,
  err, and_then,
}
use se_navi_common.Common.Int.{pos}
use se_navi_common.Time.{Time, Duration, TimeError, uint_max}
use se_navi_common.Time.Stamp
use se_navi_common.Time.Span
use se_navi_common.Time.Cycle.{no_time}

-- `g_use_sim_time`, `g_sim_time` and `g_stopped`.
pub record Clock : Type 0 where
  pub use_sim_time : Bool
  pub sim_time : Time
  pub stopped : Bool

abbrev pub first_clock : Clock
first_clock = record {
  use_sim_time = true;
  sim_time = record { sec = 0; nsec = 0 };
  stopped = false;
}

abbrev pub time_max : Time
time_max = record { sec = uint_max; nsec = 999_999_999 }

pub use_system_time : Clock → Bool
use_system_time c = not c.use_sim_time

pub is_sim_time : Clock → Bool
is_sim_time c = c.use_sim_time

pub is_system_time : Clock → Bool
unfolding is_sim_time
is_system_time c = not (is_sim_time c)

-- `now`, given what `walltime` reads.
unfoldable pub now : Time → Clock → Time
now wall c = if c.use_sim_time then c.sim_time else wall

unfoldable pub set_now : Time → Clock → Clock
set_now t c = record c { sim_time = t; use_sim_time = true }

unfoldable pub init : Clock → Clock
init c = record c { stopped = false; use_sim_time = false }

unfoldable pub shutdown : Clock → Clock
shutdown c = record c { stopped = true }

unfoldable pub is_valid_clock : Clock → Bool
is_valid_clock c = not c.use_sim_time || not (Stamp.is_zero c.sim_time)

-- `ros_wallsleep`, given what happens meanwhile; the signals that wake it make no difference.
abbrev pub wall_sleep : (Clock → Clock) → Clock → Bool × Clock
wall_sleep others c = let c' = others c in (not c'.stopped, c')

-- After a wait of `waitForValid` with a timeout.
abbrev pub late_or :
    Result TimeError Duration
    → Duration
    → Clock
    → Option (Result TimeError (Bool × Clock))
    → Option (Result TimeError (Bool × Clock))
late_or (err e) timeout c rest = some (err e)
late_or (ok waited) timeout c rest =
    if Span.greater waited timeout then some (ok (false, c)) else rest

abbrev pub sleep_finished : Option (Bool × Clock) → Option (Result TimeError (Bool × Clock))
sleep_finished none = none
sleep_finished (some r) = some (ok r)

-- The end of a turn of the loop of `Duration::sleep`, with the new end of the sleep.
abbrev pub sleep_turn :
    Result TimeError Time
    → Bool
    → Clock
    → (Time → Option (Result TimeError (Bool × Clock)))
    → Option (Result TimeError (Bool × Clock))
sleep_turn (err e) back c rest = some (err e)
sleep_turn (ok end) true c rest = some (ok (false, c))
sleep_turn (ok end) false c rest = rest end

-- What happens in the i-th wait, and what the i-th turn of a loop reads with its j-th reading.
module _ (others : ℕ → Clock → Clock) (wall : ℕ → ℕ → Time) where
  -- The loop of `waitForValid`; `wall i 0` is its reading. None: out of fuel.
  unfoldable pub wait_valid :
      ℕ → ℕ → Time → Duration → Clock → Option (Result TimeError (Bool × Clock))
  wait_valid zero i start timeout c = none
  wait_valid (suc fuel) i start timeout c =
      let c' = others i c in
      let rest = wait_valid fuel (suc i) start timeout c' in
      if is_valid_clock c || c.stopped
      then some (ok (not c.stopped, c))
      else if Span.greater timeout no_time
      then late_or (Stamp.sub (wall i 0) start) timeout c' rest
      else rest

  -- The loop of `Time::sleepUntil`.
  unfoldable pub until_end : ℕ → ℕ → Time → Time → Clock → Option (Bool × Clock)
  until_end zero i start end c = none
  until_end (suc fuel) i start end c =
      let c' = others i c in
      let rest = until_end fuel (suc i) start end c' in
      if c.stopped || not (Stamp.less (now (wall i 0) c) end)
      then some (true, c)
      else if Stamp.less (now (wall i 1) c') start
      then some (false, c')
      else rest

  -- `Time::sleepUntil`, which reads the clock once before its loop.
  unfoldable pub sleep_until : ℕ → Time → Time → Clock → Option (Result TimeError (Bool × Clock))
  unfolding use_system_time
  sleep_until fuel reading end c =
      if use_system_time c
      then some (
          and_then (Stamp.sub end (now reading c))
            λ d. ok (if Span.greater d no_time then wall_sleep (others 0) c else (true, c)))
      else sleep_finished (until_end fuel 0 (now reading c) end c)

  -- The loop of `Duration::sleep`, where `met` is its `rc`.
  unfoldable pub sleep_loop :
      ℕ → ℕ → Duration → Time → Time → Bool → Clock → Option (Result TimeError (Bool × Clock))
  sleep_loop zero i d start end met c = none
  sleep_loop (suc fuel) i d start end met c =
      let c' = others i c in
      let start' = if Stamp.is_zero start then now (wall i 1) c' else start in
      let rest : Time → Option (Result TimeError (Bool × Clock)) =
        λ end'. sleep_loop fuel (suc i) d start' end' true c' in
      if c.stopped || not (Stamp.less (now (wall i 0) c) end)
      then some (ok (met && not c.stopped, c))
      else sleep_turn (if Stamp.is_zero start then Stamp.add start' d else ok end)
          (Stamp.less (now (wall i 2) c') start') c' rest

  abbrev pub sleep_from :
      ℕ → Duration → Time → Clock → Result TimeError Time → Option (Result TimeError (Bool × Clock))
  sleep_from fuel d start c (err e) = some (err e)
  sleep_from fuel d start c (ok end) =
      sleep_loop fuel 0 d start (if Stamp.is_zero start then time_max else end) false c

  -- `Duration::sleep`.
  unfoldable pub sleep_duration :
      ℕ → Time → Duration → Clock → Option (Result TimeError (Bool × Clock))
  unfolding use_system_time
  sleep_duration fuel reading d c =
      if use_system_time c
      then some (ok (wall_sleep (others 0) c))
      else sleep_from fuel d (now reading c) c (Stamp.add (now reading c) d)

-- `WallTime::sleepUntil`.
unfoldable pub wall_sleep_until :
    (Clock → Clock) → Time → Time → Clock → Result TimeError (Bool × Clock)
wall_sleep_until others reading end c =
    and_then (Stamp.sub end reading)
      λ d. ok (if Span.greater d no_time then wall_sleep others c else (true, c))
