-- ===== src/Time/Clock/Sleeping.antt =====
-- How long the loops of `Time::sleepUntil` and `Duration::sleep` sleep in simulated time
-- (Source/Time/Time.cpp).
use se_navi_common.Common.{
  ℕ, zero, suc, ◌<◌, ◌≡◌, refl, ap, sym, ◌∙◌, Bool, true, false, not, ◌&&◌, ◌||◌, some, ok, arith,
}
use se_navi_common.Time.{Time, Duration}
use se_navi_common.Time.Stamp
use se_navi_common.Time.Clock.{
  Clock, now, use_system_time, until_end, sleep_until, sleep_finished, sleep_loop, sleep_duration,
}

-- Simulated time.
abbrev pub simulated : Time → Bool → Clock
simulated t stopped = record { use_sim_time = true; sim_time = t; stopped = stopped }

abbrev pub has_waited : ℕ → Bool
has_waited zero = false
has_waited (suc n) = true

or_false : (b : Bool) → b || false ≡ b
or_false true = refl
or_false false = refl

or_true : (b : Bool) → b || true ≡ true
or_true true = refl
or_true false = refl

module _ (others : ℕ → Clock → Clock) (wall : ℕ → ℕ → Time) where
  -- The clock after some waits, from the i-th on.
  abbrev pub after : ℕ → ℕ → Clock → Clock
  after i zero c = c
  after i (suc n) c = after (suc i) n (others i c)

  -- The loop is over at the clock before its i-th wait.
  abbrev pub sleep_ends : Time → ℕ → Clock → Bool
  sleep_ends end i c = c.stopped || not (Stamp.less (now (wall i 0) c) end)

  -- Before each of some waits it is not over, and behind each of them the time is not before `start`,
  -- which the j-th reading tells; behind the last of them `End` holds.
  abbrev pub Turns : (ℕ → Clock → Type 0) → ℕ → Time → Time → ℕ → ℕ → Clock → Type 0
  Turns End j start end i zero c = End i c
  Turns End j start end i (suc n) c =
      (sleep_ends end i c ≡ false)
      × ((Stamp.less (now (wall i j) (others i c)) start ≡ false)
          × Turns End j start end (suc i) n (others i c))

  abbrev pub IsOver : Time → ℕ → Clock → Type 0
  IsOver end i c = sleep_ends end i c ≡ true

  -- It is not over, and behind the wait the time is before `start`.
  abbrev pub GoesBack : ℕ → Time → Time → ℕ → Clock → Type 0
  GoesBack j start end i c =
      (sleep_ends end i c ≡ false) × (Stamp.less (now (wall i j) (others i c)) start ≡ true)

  until_end_over :
      (n fuel i : ℕ) (start end : Time) (c : Clock)
      → Turns (IsOver end) 1 start end i n c
      → n < fuel
      → until_end others wall fuel i start end c ≡ some (true, after i n c)
  unfolding until_end
  until_end_over n zero i start end c t h = absurd (omega arith)
  until_end_over zero (suc fuel) i start end c t h = rw t refl
  until_end_over (suc n) (suc fuel) i start end c t h =
      rw (t.0, t.1.0) (until_end_over n fuel (suc i) start end (others i c) t.1.1 (omega arith))

  until_end_back :
      (n fuel i : ℕ) (start end : Time) (c : Clock)
      → Turns (GoesBack 1 start end) 1 start end i n c
      → n < fuel
      → until_end others wall fuel i start end c ≡ some (false, after i (suc n) c)
  unfolding until_end
  until_end_back n zero i start end c t h = absurd (omega arith)
  until_end_back zero (suc fuel) i start end c t h = rw (t.0, t.1) refl
  until_end_back (suc n) (suc fuel) i start end c t h =
      rw (t.0, t.1.0) (until_end_back n fuel (suc i) start end (others i c) t.1.1 (omega arith))

  -- In simulated time, if the code is shut down or the clock reaches the end at the n-th wait of
  -- Time::sleepUntil, not earlier, and behind no wait before it the clock is behind its start,
  -- then sleepUntil returns true after exactly n waits, also if it was shut down before the end,
  -- with fuel for more than n turns.
  pub sleep_until_over :
      (n fuel : ℕ) (reading start end : Time) (stopped : Bool)
      → Turns (IsOver end) 1 start end 0 n (simulated start stopped)
      → n < fuel
      → sleep_until others wall fuel reading end (simulated start stopped)
        ≡ some (ok (true, after 0 n (simulated start stopped)))
  unfolding sleep_until use_system_time now
  sleep_until_over n fuel reading start end stopped t h =
      ap sleep_finished (until_end_over n fuel 0 start end (simulated start stopped) t h)

  -- If the time goes back, the sleep ends behind that wait.
  sleep_until_back :
      (n fuel : ℕ) (reading start end : Time) (stopped : Bool)
      → Turns (GoesBack 1 start end) 1 start end 0 n (simulated start stopped)
      → n < fuel
      → sleep_until others wall fuel reading end (simulated start stopped)
        ≡ some (ok (false, after 0 (suc n) (simulated start stopped)))
  unfolding sleep_until use_system_time now
  sleep_until_back n fuel reading start end stopped t h =
      ap sleep_finished (until_end_back n fuel 0 start end (simulated start stopped) t h)

  sleep_loop_over :
      (n fuel i : ℕ) (d : Duration) (start end : Time) (met : Bool) (c : Clock)
      → Stamp.is_zero start ≡ false
      → Turns (IsOver end) 2 start end i n c
      → n < fuel
      → sleep_loop others wall fuel i d start end met c
        ≡ some (ok ((met || has_waited n) && not (after i n c).stopped, after i n c))
  unfolding sleep_loop
  sleep_loop_over n zero i d start end met c z t h = absurd (omega arith)
  sleep_loop_over zero (suc fuel) i d start end met c z t h =
      rw t (ap (λ b. some (ok (b && not c.stopped, c))) (sym (or_false met)))
  sleep_loop_over (suc n) (suc fuel) i d start end met c z t h =
      rw (t.0, z, t.1.0)
        (sleep_loop_over n fuel (suc i) d start end true (others i c) z t.1.1 (omega arith)
          ∙ ap (λ b. some (ok (b && not (after i (suc n) c).stopped, after i (suc n) c)))
              (sym (or_true met)))

  -- In simulated time whose start is not zero, if the code is shut down or the clock reaches the
  -- start plus the duration at the n-th wait of Duration::sleep, not earlier, and behind no wait
  -- before it the clock is behind its start, then it ends after exactly n waits, with fuel for
  -- more than n turns. It returns true if it waited at all and is not shut down, so it returns
  -- false where the end is reached at once.
  pub sleep_duration_over :
      (n fuel : ℕ) (reading start end : Time) (d : Duration) (stopped : Bool)
      → Stamp.is_zero start ≡ false
      → Stamp.add start d ≡ ok end
      → Turns (IsOver end) 2 start end 0 n (simulated start stopped)
      → n < fuel
      → sleep_duration others wall fuel reading d (simulated start stopped)
        ≡ some (
            ok (
              has_waited n && not (after 0 n (simulated start stopped)).stopped,
              after 0 n (simulated start stopped),
            ))
  unfolding sleep_duration use_system_time now
  sleep_duration_over n fuel reading start end d stopped z e t h =
      rw (e, z) (sleep_loop_over n fuel 0 d start end false (simulated start stopped) z t h)
