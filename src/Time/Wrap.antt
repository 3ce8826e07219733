-- ===== src/Time/Wrap.antt =====
-- Where the arithmetic goes wrong without an exception: an intermediate `int32_t` wraps around before
-- the normalization can see it.
use se_navi_common.Common.{
  ℕ, ◌+◌, ◌-◌, ◌*◌, ◌/◌, ◌%◌, ◌^◌, ◌≤◌, ◌<◌, ◌≡◌, ap, arith, ok, err, Result, and_then,
}
use se_navi_common.Common.Int.{
  pos, pos_part, neg_part, ◌+ℤ◌, ◌-ℤ◌, ◌·ℤ◌, i32_id, i32-sub, i32_high, i32-neg_min, pos-sub,
  int_laws, sum_laws,
}
use se_navi_common.Time.{
  Time, Duration, TimeError, giga, TellsDuration, time_total, duration_total, IsValidTime,
  IsValidDuration, make_duration,
}
use se_navi_common.Time.Normalize.{make_duration-TellsDuration}
use se_navi_common.Time.Arithmetic.{TellsDuration-eq}
use se_navi_common.Time.Order.{duration_total-injective}
use se_navi_common.Time.Stamp
use se_navi_common.Time.Span

-- Where a well-formed Time t is later than u by 2 ^ 31 seconds or more, t - u stands for 2 ^ 32
-- seconds less than the difference, or throws, exactly where that is out of the range of a
-- Duration.
pub sub_wraps :
    (t u : Time)
    → IsValidTime t
    → IsValidTime u
    → u.sec + 2 ^ 31 ≤ t.sec
    → TellsDuration
        (pos (time_total t) -ℤ pos (time_total u) -ℤ pos (giga * 2 ^ 32))
        (Stamp.sub t u)
unfolding Stamp.sub time_total
sub_wraps t u ht hu far =
    rw
      (
        i32-sub t.sec u.sec ht.0 hu.0,
        pos-sub t.sec u.sec (omega arith),
        i32_high (t.sec - u.sec) (omega arith) (omega arith),
        i32-sub t.nsec u.nsec (omega arith) (omega arith),
        i32_id (pos t.nsec -ℤ pos u.nsec) (omega int_laws),
      )
      (TellsDuration-eq
        (giga ·ℤ (pos (t.sec - u.sec) -ℤ pos (2 ^ 32)) +ℤ (pos t.nsec -ℤ pos u.nsec)) _ _
        (make_duration-TellsDuration (pos (t.sec - u.sec) -ℤ pos (2 ^ 32))
          (pos t.nsec -ℤ pos u.nsec) (omega int_laws) (omega int_laws))
        (omega sum_laws))

unchanged :
    (d : Duration) (r : Result TimeError Duration)
    → IsValidDuration d
    → neg_part d.sec ≡ 2 ^ 31
    → TellsDuration (duration_total d) r
    → r ≡ ok d
unchanged d (ok e) hd low h = ap ok (duration_total-injective e d h.0 hd h.1)
unchanged d (err e) hd low h = absurd (h.1 (unfold duration_total in omega int_laws))

neg_min :
    (d : Duration)
    → IsValidDuration d
    → neg_part d.sec ≡ 2 ^ 31
    → d.nsec ≡ pos 0
    → Span.neg d ≡ ok d
unfolding Span.neg
neg_min d hd low whole =
    rw (i32-neg_min d.sec low, i32_id (pos 0 -ℤ d.nsec) (omega int_laws))
      (unchanged d (make_duration d.sec (pos 0 -ℤ d.nsec)) hd low (
        TellsDuration-eq (giga ·ℤ d.sec +ℤ (pos 0 -ℤ d.nsec)) (duration_total d) _
          (make_duration-TellsDuration d.sec (pos 0 -ℤ d.nsec) hd.0 (omega int_laws))
          (unfold duration_total in omega (sum_laws, ap pos_part whole, ap neg_part whole))))

-- The well-formed Duration of INT_MIN seconds and no nanoseconds is its own negation, so
-- subtracting it from any Time gives what adding it gives.
pub sub_duration_min :
    (t : Time) (d : Duration)
    → IsValidDuration d
    → neg_part d.sec ≡ 2 ^ 31
    → d.nsec ≡ pos 0
    → (Span.neg d ≡ ok d) × (Stamp.sub_duration t d ≡ Stamp.add t d)
unfolding Stamp.sub_duration
sub_duration_min t d hd low whole =
    (neg_min d hd low whole, ap (λ r. and_then r (Stamp.add t)) (neg_min d hd low whole))

-- Duration::fromNSec of 2 ^ 31 seconds or more, and less than 2 ^ 32, in nanoseconds, stands for
-- 2 ^ 32 seconds less, or throws, exactly where that is out of the range of a Duration.
pub duration_from_nsec_wraps :
    (n : ℕ)
    → giga * 2 ^ 31 ≤ n
    → n < giga * 2 ^ 32
    → TellsDuration (pos n -ℤ pos (giga * 2 ^ 32)) (Span.from_nsec (pos n))
unfolding Span.from_nsec
duration_from_nsec_wraps n low high =
    rw (i32_high (n / giga) (omega arith) (omega arith), i32_id (pos (n % giga)) (omega arith))
      (TellsDuration-eq (giga ·ℤ (pos (n / giga) -ℤ pos (2 ^ 32)) +ℤ pos (n % giga))
        (pos n -ℤ pos (giga * 2 ^ 32)) _
        (make_duration-TellsDuration (pos (n / giga) -ℤ pos (2 ^ 32)) (pos (n % giga))
          (omega int_laws) (omega arith))
        (omega sum_laws))
