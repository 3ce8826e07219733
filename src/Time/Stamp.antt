-- ===== src/Time/Stamp.antt =====
-- The members of `TimeBase` (Source/Time/Time.h, Source/Time/Implement/Time.h).
use se_navi_common.Common.{
  ℕ, ◌+◌, ◌*◌, ◌%◌, ◌^◌, Bool, true, false, ◌&&◌, ltb, leb, ◌==◌, if◌then◌else◌, Result, ok,
  and_then,
}
use se_navi_common.Common.Int.{pos, ◌+ℤ◌, ◌-ℤ◌, i32, i64, u32}
use se_navi_common.Time.{
  Time, Duration, TimeError, giga, normalize_sec_nsec_64, normalize_sec_nsec_unsigned, make_time,
  make_duration,
}
use se_navi_common.Time.Span

-- `operator+(const D&)`.
unfoldable pub add : Time → Duration → Result TimeError Time
add t rhs =
    let sec_sum = i64 (pos t.sec +ℤ rhs.sec) in
    let nsec_sum = i64 (pos t.nsec +ℤ rhs.nsec) in
    and_then (normalize_sec_nsec_unsigned sec_sum nsec_sum) λ p. make_time (u32 p.0) (u32 p.1)

-- `operator-(const T&)`; the carry is left to the constructor.
unfoldable pub sub : Time → Time → Result TimeError Duration
sub t rhs =
    make_duration (i32 (i32 (pos t.sec) -ℤ i32 (pos rhs.sec)))
      (i32 (i32 (pos t.nsec) -ℤ i32 (pos rhs.nsec)))

-- `operator-(const D&)`, and `operator-=`.
unfoldable pub sub_duration : Time → Duration → Result TimeError Time
sub_duration t rhs = and_then (Span.neg rhs) (add t)

-- `operator==`.
unfoldable pub equals : Time → Time → Bool
equals t rhs = t.sec == rhs.sec && t.nsec == rhs.nsec

-- `operator<`.
unfoldable pub less : Time → Time → Bool
less t rhs =
    if ltb t.sec rhs.sec
    then true
    else if t.sec == rhs.sec && ltb t.nsec rhs.nsec
    then true
    else false

-- `operator<=`.
unfoldable pub less_equal : Time → Time → Bool
less_equal t rhs =
    if ltb t.sec rhs.sec
    then true
    else if t.sec == rhs.sec && leb t.nsec rhs.nsec
    then true
    else false

-- `operator>` and `operator>=`.
unfoldable pub greater : Time → Time → Bool
greater t rhs =
    if ltb rhs.sec t.sec
    then true
    else if t.sec == rhs.sec && ltb rhs.nsec t.nsec
    then true
    else false

unfoldable pub greater_equal : Time → Time → Bool
greater_equal t rhs =
    if ltb rhs.sec t.sec
    then true
    else if t.sec == rhs.sec && leb rhs.nsec t.nsec
    then true
    else false

unfoldable pub is_zero : Time → Bool
is_zero t = t.sec == 0 && t.nsec == 0

-- `toNSec` and `fromNSec`, on `uint64_t`.
unfoldable pub to_nsec : Time → ℕ
to_nsec t = (t.sec * giga % 2 ^ 64 + t.nsec) % 2 ^ 64

unfoldable pub from_nsec : ℕ → Result TimeError Time
from_nsec t =
    and_then (normalize_sec_nsec_64 0 t)
      λ p. ok (record { sec = p.0 % 2 ^ 32; nsec = p.1 % 2 ^ 32 })
