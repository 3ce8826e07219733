-- ===== src/Time/Utils.antt =====
-- Source/Time/Utils.h and Utils.cpp: delays, readings of the monotonic clock, and the text of a time.
use se_navi_common.Common.{
  ℕ, zero, suc, ◌+◌, ◌-◌, ◌*◌, ◌/◌, ◌%◌, ◌^◌, ◌≤◌, ◌<◌, ◌≡◌, refl, ap, false, Bool-cases, inl, inr,
  if◌then◌else◌, leb, leb→le, ==_iff, ◌==◌, List, [], ◌∷◌, ◌++◌, Option, none, some, arith, All,
}
use se_navi_common.Common.Int.{ℤ, pos, ◌+ℤ◌}
use se_navi_common.Config.{String}
use se_navi_common.Config.AutoVal.{of_int}

-- One more call of `usleep` before the others.
abbrev pub sleeping : ℕ → Option (List ℕ) → Option (List ℕ)
sleeping us none = none
sleeping us (some rest) = some (us ∷ rest)

-- `delay`: what it calls `usleep` with, on fuel for the turns of its loop.
unfoldable pub delay : ℕ → ℕ → Option (List ℕ)
delay zero ms = none
delay (suc fuel) ms =
    let rest = delay fuel (ms - 1000) in
    if leb 1000 ms
    then sleeping (1000 * 1000) rest
    else if ms == 0
    then some []
    else some (ms * 1000 ∷ [])

-- Given the seconds and nanoseconds that `clock_gettime` reads.
pub get_us : ℕ → ℕ → ℕ
get_us sec nsec = (sec * 1_000_000 + nsec / 1000) % 2 ^ 64

pub get_ms : ℕ → ℕ → ℕ
get_ms sec nsec = (sec * 1000 + nsec / 1_000_000) % 2 ^ 32

-- What `localtime` gives.
pub record Tm : Type 0 where
  pub tm_year : ℤ
  pub tm_mon : ℤ
  pub tm_mday : ℤ
  pub tm_hour : ℤ
  pub tm_min : ℤ
  pub tm_sec : ℤ

unfoldable pub get_time_string : Tm → String
get_time_string t =
    of_int (t.tm_year +ℤ pos 1900)
    ++ (b'-'
        ∷ (of_int (t.tm_mon +ℤ pos 1)
            ++ (b'-'
                ∷ (of_int t.tm_mday
                    ++ (b' '
                        ∷ (of_int t.tm_hour
                            ++ (b':' ∷ (of_int t.tm_min ++ (b':' ∷ of_int t.tm_sec)))))))))

abbrev pub sum : List ℕ → ℕ
sum [] = 0
sum (n ∷ ns) = n + sum ns

-- What a delay calls.
abbrev pub Sleeps : ℕ → Option (List ℕ) → Type 0
Sleeps ms calls =
    (us : List ℕ) × ((calls ≡ some us) × ((sum us ≡ 1000 * ms) × All (λ u. u ≤ 1_000_000) us))

last_call : (ms : ℕ) → ms < 1000 → Sleeps ms (if ms == 0 then some [] else some (ms * 1000 ∷ []))
last_call ms h = elim (Bool-cases (ms == 0)) [
  | inl e ↦ rw e ([], (refl, (omega (arith, (==_iff ms 0).0 e), tt)))
  | inr e ↦ rw e (ms * 1000 ∷ [], (refl, (omega arith, (omega arith, tt))))
]

one_call :
    (ms : ℕ) (rest : Option (List ℕ))
    → 1000 ≤ ms
    → Sleeps (ms - 1000) rest
    → Sleeps ms (sleeping (1000 * 1000) rest)
one_call ms rest h (us, (e, (total, small))) =
    (1_000_000 ∷ us, (ap (sleeping 1_000_000) e, (omega (arith, total), (omega arith, small))))

below_thousand : (ms : ℕ) → leb 1000 ms ≡ false → ms < 1000
below_thousand ms e = ground arith

-- With more turns than the delay has whole seconds, delay ends; the microseconds that it calls
-- usleep with are together the milliseconds that it was asked for, and none of the calls is for
-- more than a second.
pub delay_lem : (fuel ms : ℕ) → ms / 1000 < fuel → Sleeps ms (delay fuel ms)
unfolding delay
delay_lem zero ms h = absurd (omega arith)
delay_lem (suc fuel) ms h = elim (Bool-cases (leb 1000 ms)) [
  | inl e ↦ rw e (
      one_call ms (delay fuel (ms - 1000)) (leb→le 1000 ms e)
        (delay_lem fuel (ms - 1000) (omega (arith, leb→le 1000 ms e))))
  | inr e ↦ rw e (last_call ms (below_thousand ms e))
]
