-- ===== src/Time/Conversion.antt =====
-- Conversions to and from a count of nanoseconds, and the round trips of the arithmetic.
use se_navi_common.Common.{
  ℕ, ◌+◌, ◌/◌, ◌%◌, ◌^◌, ◌<◌, ◌≡◌, refl, ap, subst, inl, inr, Bool-cases, ltb, ltb→lt, ltb→ge,
  arith, ok, err, Result, and_then,
}
use se_navi_common.Common.Int.{
  ℤ, pos, pos_part, neg_part, ◌+ℤ◌, ◌-ℤ◌, ◌·ℤ◌, i64_id, i32_id, IsInt32, int_laws, sum_laws, tdiv,
  tmod,
}
use se_navi_common.Time.{
  Time, Duration, TimeError, giga, uint_max, TellsTime, TellsDuration, time_total, duration_total,
  IsValidTime, IsValidDuration, InDurationRange, normalize_sec_nsec_64,
}
use se_navi_common.Time.Normalize.{make_duration-TellsDuration, tdiv-tmod, one_part}
use se_navi_common.Time.Arithmetic.{
  TellsTime-eq, TellsDuration-eq, add-TellsTime, sub-TellsDuration, neg-TellsDuration,
}
use se_navi_common.Time.Order.{time_total-injective, duration_total-injective}
use se_navi_common.Time.Stamp
use se_navi_common.Time.Span

-- `toNSec` is exact.
pub to_nsec-eq-time_total : (t : Time) → IsValidTime t → Stamp.to_nsec t ≡ time_total t
unfolding Stamp.to_nsec time_total
to_nsec-eq-time_total t h = omega arith

-- Time::fromNSec of any uint64_t gives a well-formed Time for that many nanoseconds, or throws,
-- exactly where these need more than 32 bits of seconds.
pub from_nsec-TellsTime : (n : ℕ) → n < 2 ^ 64 → TellsTime (pos n) (Stamp.from_nsec n)
unfolding Stamp.from_nsec normalize_sec_nsec_64 time_total
from_nsec-TellsTime n h = elim (Bool-cases (ltb uint_max ((0 + n / giga) % 2 ^ 64))) [
  | inl over ↦
      let gt = ltb→lt uint_max ((0 + n / giga) % 2 ^ 64) over in rw over (refl, λ r. omega arith)
  | inr fits ↦
      let le = ltb→ge uint_max ((0 + n / giga) % 2 ^ 64) fits in
      rw fits (omega arith, ap pos (omega arith))
]

pub duration_to_nsec-eq-total :
    (d : Duration) → IsValidDuration d → Span.to_nsec d ≡ duration_total d
unfolding Span.to_nsec duration_total
duration_to_nsec-eq-total d h =
    rw (i64_id (giga ·ℤ d.sec) (omega int_laws), i64_id (giga ·ℤ d.sec +ℤ d.nsec) (omega int_laws))

-- Duration::fromNSec of a number of nanoseconds in the range of a Duration gives a well-formed
-- Duration for it.
pub duration_from_nsec-TellsDuration :
    (z : ℤ) → InDurationRange z → TellsDuration z (Span.from_nsec z)
unfolding Span.from_nsec
duration_from_nsec-TellsDuration z h =
    let q = tdiv-tmod z in
    rw
      (i32_id (tdiv z giga) (omega (arith, q, one_part z)), i32_id (tmod z giga) (omega (arith, q)))
      (TellsDuration-eq (giga ·ℤ tdiv z giga +ℤ tmod z giga) z _
        (make_duration-TellsDuration (tdiv z giga) (tmod z giga) (omega (arith, q, one_part z))
          (omega (arith, q)))
        (omega (sum_laws, q)))

-- Only one well-formed time stands for given nanoseconds.
pub TellsTime-eq-ok :
    (t : Time) (r : Result TimeError Time)
    → IsValidTime t
    → TellsTime (pos (time_total t)) r
    → r ≡ ok t
unfolding time_total
TellsTime-eq-ok t (ok u) ht h = ap ok (time_total-injective u t h.0 ht (ap pos_part h.1))
TellsTime-eq-ok t (err e) ht h = absurd (h.1 (omega arith))

pub TellsDuration-eq-ok :
    (d : Duration) (r : Result TimeError Duration)
    → InDurationRange (duration_total d)
    → IsValidDuration d
    → TellsDuration (duration_total d) r
    → r ≡ ok d
TellsDuration-eq-ok d (ok e) range hd h = ap ok (duration_total-injective e d h.0 hd h.1)
TellsDuration-eq-ok d (err e) range hd h = absurd (h.1 range)

-- Time::fromNSec of the toNSec of a well-formed Time throws nothing and gives the Time back.
pub from_nsec-to_nsec : (t : Time) → IsValidTime t → Stamp.from_nsec (Stamp.to_nsec t) ≡ ok t
from_nsec-to_nsec t h = rw (to_nsec-eq-time_total t h) (
    TellsTime-eq-ok t (Stamp.from_nsec (time_total t)) h
      (from_nsec-TellsTime (time_total t) (unfold time_total in omega arith)))

valid_in_range : (d : Duration) → IsValidDuration d → InDurationRange (duration_total d)
unfolding duration_total
valid_in_range d h = omega int_laws

-- Duration::fromNSec of the toNSec of a well-formed Duration throws nothing and gives the
-- Duration back.
pub duration_from_nsec-to_nsec :
    (d : Duration) → IsValidDuration d → Span.from_nsec (Span.to_nsec d) ≡ ok d
duration_from_nsec-to_nsec d h = rw (duration_to_nsec-eq-total d h) (
    TellsDuration-eq-ok d (Span.from_nsec (duration_total d)) (valid_in_range d h) h
      (duration_from_nsec-TellsDuration (duration_total d) (valid_in_range d h)))

add_told :
    (t u : Time) (r : Result TimeError Duration)
    → IsValidTime t
    → IsValidTime u
    → InDurationRange (pos (time_total t) -ℤ pos (time_total u))
    → TellsDuration (pos (time_total t) -ℤ pos (time_total u)) r
    → and_then r (Stamp.add u) ≡ ok t
add_told t u (ok d) ht hu range h = TellsTime-eq-ok t (Stamp.add u d) ht (
    TellsTime-eq (pos (time_total u) +ℤ duration_total d) (pos (time_total t)) (Stamp.add u d)
      (add-TellsTime u d hu h.0) (omega (sum_laws, ap pos_part h.1, ap neg_part h.1)))
add_told t u (err e) ht hu range h = absurd (h.1 range)

-- For well-formed Times t and u whose seconds differ by what an int32_t holds, and whose
-- difference is in the range of a Duration, u + (t - u) throws nothing and is t.
pub add-sub :
    (t u : Time)
    → IsValidTime t
    → IsValidTime u
    → IsInt32 (pos t.sec -ℤ pos u.sec)
    → InDurationRange (pos (time_total t) -ℤ pos (time_total u))
    → and_then (Stamp.sub t u) (Stamp.add u) ≡ ok t
add-sub t u ht hu near range =
    add_told t u (Stamp.sub t u) ht hu range (sub-TellsDuration t u ht hu near)

sub_told :
    (t u : Time) (d : Duration) (r : Result TimeError Duration)
    → IsValidTime t
    → IsValidTime u
    → pos (time_total u) ≡ pos (time_total t) +ℤ duration_total d
    → InDurationRange (pos 0 -ℤ duration_total d)
    → TellsDuration (pos 0 -ℤ duration_total d) r
    → and_then r (Stamp.add u) ≡ ok t
sub_told t u d (ok e) ht hu sum range h = TellsTime-eq-ok t (Stamp.add u e) ht (
    TellsTime-eq (pos (time_total u) +ℤ duration_total e) (pos (time_total t)) (Stamp.add u e)
      (add-TellsTime u e hu h.0)
      (omega (sum_laws, ap pos_part h.1, ap neg_part h.1, ap pos_part sum, ap neg_part sum)))
sub_told t u d (err e) ht hu sum range h = absurd (h.1 range)

-- Where t + d is u without an exception, for a well-formed Time t and a well-formed Duration d
-- of seconds above INT_MIN, u - d throws nothing and is t.
pub sub_duration-add :
    (t u : Time) (d : Duration)
    → IsValidTime t
    → IsValidDuration d
    → neg_part d.sec < 2 ^ 31
    → Stamp.add t d ≡ ok u
    → Stamp.sub_duration u d ≡ ok t
unfolding Stamp.sub_duration
sub_duration-add t u d ht hd low h =
    let told : TellsTime (pos (time_total t) +ℤ duration_total d) (ok u) =
      subst (TellsTime (pos (time_total t) +ℤ duration_total d)) h (add-TellsTime t d ht hd) in
    sub_told t u d (Span.neg d) ht told.0 told.1 (unfold duration_total in omega int_laws)
      (neg-TellsDuration d hd low)
