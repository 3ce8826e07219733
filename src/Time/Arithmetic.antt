-- ===== src/Time/Arithmetic.antt =====
-- Sums and differences of `Time` and `Duration` are those of the nanoseconds that they stand for, or
-- throw where these are out of range.
use se_navi_common.Common.{◌+◌, ◌^◌, ◌<◌, ◌≡◌, subst, arith, Result}
use se_navi_common.Common.Int.{
  ℤ, pos, pos_part, neg_part, ◌+ℤ◌, ◌-ℤ◌, ◌·ℤ◌, i64_id, i32_id, i32-sub, IsInt32, eq_of_parts,
  int_laws, sum_laws,
}
use se_navi_common.Time.{
  Time, Duration, TimeError, giga, TellsTime, TellsDuration, time_total, duration_total,
  IsValidTime, IsValidDuration,
}
use se_navi_common.Time.Normalize.{make_duration-TellsDuration, unsigned-TellsTime}
use se_navi_common.Time.Stamp
use se_navi_common.Time.Span

pub TellsTime-eq :
    (y z : ℤ) (r : Result TimeError Time)
    → TellsTime y r
    → pos_part y + neg_part z ≡ pos_part z + neg_part y
    → TellsTime z r
TellsTime-eq y z r h e = subst (λ x. TellsTime x r) (eq_of_parts y z e) h

pub TellsDuration-eq :
    (y z : ℤ) (r : Result TimeError Duration)
    → TellsDuration y r
    → pos_part y + neg_part z ≡ pos_part z + neg_part y
    → TellsDuration z r
TellsDuration-eq y z r h e = subst (λ x. TellsDuration x r) (eq_of_parts y z e) h

-- The sum of a well-formed Time and a well-formed Duration is a well-formed Time that stands for
-- the sum of their nanoseconds, or throws, exactly where that sum is negative or needs more than
-- 32 bits of seconds.
pub add-TellsTime :
    (t : Time) (d : Duration)
    → IsValidTime t
    → IsValidDuration d
    → TellsTime (pos (time_total t) +ℤ duration_total d) (Stamp.add t d)
unfolding Stamp.add time_total duration_total
add-TellsTime t d ht hd =
    rw
      (i64_id (pos t.sec +ℤ d.sec) (omega int_laws), i64_id (pos t.nsec +ℤ d.nsec) (omega int_laws))
      (TellsTime-eq (giga ·ℤ (pos t.sec +ℤ d.sec) +ℤ (pos t.nsec +ℤ d.nsec)) _ _
        (unsigned-TellsTime (pos t.sec +ℤ d.sec) (pos t.nsec +ℤ d.nsec) (omega int_laws)
          (omega int_laws))
        (omega sum_laws))

-- For two well-formed Times whose seconds differ by what an int32_t holds, the difference is a
-- well-formed Duration that stands for the difference of the nanoseconds, or throws, exactly
-- where that is out of the range of a Duration.
pub sub-TellsDuration :
    (t u : Time)
    → IsValidTime t
    → IsValidTime u
    → IsInt32 (pos t.sec -ℤ pos u.sec)
    → TellsDuration (pos (time_total t) -ℤ pos (time_total u)) (Stamp.sub t u)
unfolding Stamp.sub time_total
sub-TellsDuration t u ht hu near =
    rw
      (
        i32-sub t.sec u.sec ht.0 hu.0,
        i32_id (pos t.sec -ℤ pos u.sec) near,
        i32-sub t.nsec u.nsec (omega arith) (omega arith),
        i32_id (pos t.nsec -ℤ pos u.nsec) (omega int_laws),
      )
      (TellsDuration-eq (giga ·ℤ (pos t.sec -ℤ pos u.sec) +ℤ (pos t.nsec -ℤ pos u.nsec)) _ _
        (make_duration-TellsDuration (pos t.sec -ℤ pos u.sec) (pos t.nsec -ℤ pos u.nsec) near
          (omega int_laws))
        (omega sum_laws))

-- For two well-formed Durations, the sum of whose seconds an int32_t holds, the sum is a well-
-- formed Duration that stands for the sum of the nanoseconds, or throws, exactly where that is
-- out of the range of a Duration.
pub duration_add-TellsDuration :
    (d e : Duration)
    → IsValidDuration d
    → IsValidDuration e
    → IsInt32 (d.sec +ℤ e.sec)
    → TellsDuration (duration_total d +ℤ duration_total e) (Span.add d e)
unfolding Span.add duration_total
duration_add-TellsDuration d e hd he fits =
    rw (i32_id (d.sec +ℤ e.sec) fits, i32_id (d.nsec +ℤ e.nsec) (omega int_laws))
      (TellsDuration-eq (giga ·ℤ (d.sec +ℤ e.sec) +ℤ (d.nsec +ℤ e.nsec)) _ _
        (make_duration-TellsDuration (d.sec +ℤ e.sec) (d.nsec +ℤ e.nsec) fits (omega int_laws))
        (omega sum_laws))

-- For two well-formed Durations, the difference of whose seconds an int32_t holds, the
-- difference is a well-formed Duration that stands for the difference of the nanoseconds, or
-- throws, exactly where that is out of the range of a Duration.
pub duration_sub-TellsDuration :
    (d e : Duration)
    → IsValidDuration d
    → IsValidDuration e
    → IsInt32 (d.sec -ℤ e.sec)
    → TellsDuration (duration_total d -ℤ duration_total e) (Span.sub d e)
unfolding Span.sub duration_total
duration_sub-TellsDuration d e hd he fits =
    rw (i32_id (d.sec -ℤ e.sec) fits, i32_id (d.nsec -ℤ e.nsec) (omega int_laws))
      (TellsDuration-eq (giga ·ℤ (d.sec -ℤ e.sec) +ℤ (d.nsec -ℤ e.nsec)) _ _
        (make_duration-TellsDuration (d.sec -ℤ e.sec) (d.nsec -ℤ e.nsec) fits (omega int_laws))
        (omega sum_laws))

-- The negation of a well-formed Duration whose seconds are above INT_MIN is a well-formed
-- Duration that stands for the negated nanoseconds, or throws, exactly where that is out of the
-- range of a Duration.
pub neg-TellsDuration :
    (d : Duration)
    → IsValidDuration d
    → neg_part d.sec < 2 ^ 31
    → TellsDuration (pos 0 -ℤ duration_total d) (Span.neg d)
unfolding Span.neg duration_total
neg-TellsDuration d hd fits =
    rw (i32_id (pos 0 -ℤ d.sec) (omega int_laws), i32_id (pos 0 -ℤ d.nsec) (omega int_laws))
      (TellsDuration-eq (giga ·ℤ (pos 0 -ℤ d.sec) +ℤ (pos 0 -ℤ d.nsec)) _ _
        (make_duration-TellsDuration (pos 0 -ℤ d.sec) (pos 0 -ℤ d.nsec) (omega int_laws)
          (omega int_laws))
        (omega sum_laws))
