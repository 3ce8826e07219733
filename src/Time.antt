-- ===== src/Time.antt =====
-- Source/Time: `Time` and `Duration`, pairs of seconds and nanoseconds in 32 bits each, their
-- arithmetic with the exceptions that it throws, and their order. `WallTime` and `WallDuration` are
-- instances of the same templates and have the same functions.
pub mod Stamp
pub mod Span
pub mod Normalize
pub mod Order
pub mod Arithmetic
pub mod Conversion
pub mod Wrap
pub mod Cycle
pub mod Clock
pub mod Utils
pub mod Seconds
pub mod Print
mod Examples
use se_navi_common.Common.{
  ℕ, ◌+◌, ◌-◌, ◌*◌, ◌/◌, ◌%◌, ◌^◌, ◌<◌, ◌≤◌, ◌≡◌, ◌||◌, ltb, if◌then◌else◌, Result, ok, err,
  and_then,
}
use se_navi_common.Common.Int.{
  ℤ, pos, negsuc, ◌+ℤ◌, ◌-ℤ◌, ◌·ℤ◌, pos_part, neg_part, IsInt32, ltb_ℤ, tdiv, tmod, i32, i64, u32,
}

-- `runtime_error`: "Time is out of dual 32-bit range", "Duration is out of dual 32-bit range".
pub data TimeError : Type 0 where
  time_range duration_range : TimeError

pub record Time : Type 0 where
  pub sec : ℕ
  pub nsec : ℕ

pub record Duration : Type 0 where
  pub sec : ℤ
  pub nsec : ℤ

-- Nanoseconds in a second.
abbrev pub giga : ℕ
giga = 1_000_000_000

abbrev pub uint_max : ℕ
uint_max = 4_294_967_295

abbrev pub int_max : ℕ
int_max = 2_147_483_647

-- `normalizeSecNSec(uint64_t&, uint64_t&)`.
unfoldable pub normalize_sec_nsec_64 : ℕ → ℕ → Result TimeError (ℕ × ℕ)
normalize_sec_nsec_64 sec nsec =
    let nsec_part = nsec % giga in
    let sec_part = nsec / giga in
    let sum = (sec + sec_part) % 2 ^ 64 in
    if ltb uint_max sum then err time_range else ok (sum, nsec_part)

-- `normalizeSecNSec(uint32_t&, uint32_t&)`.
unfoldable pub normalize_sec_nsec : ℕ → ℕ → Result TimeError (ℕ × ℕ)
unfolding normalize_sec_nsec_64
normalize_sec_nsec sec nsec =
    and_then (normalize_sec_nsec_64 sec nsec) λ p. ok (p.0 % 2 ^ 32, p.1 % 2 ^ 32)

-- The carry of `normalizeSecNSecUnsigned` and of `normalizeSecNSecSigned`.
unfoldable pub carry : ℤ → ℤ → ℤ × ℤ
carry sec nsec =
    let nsec_part = tmod nsec giga in
    let sec_part = i64 (sec +ℤ tdiv nsec giga) in
    if ltb_ℤ nsec_part (pos 0)
    then (i64 (sec_part -ℤ pos 1), nsec_part +ℤ pos giga)
    else (sec_part, nsec_part)

unfoldable pub normalize_sec_nsec_unsigned : ℤ → ℤ → Result TimeError (ℤ × ℤ)
normalize_sec_nsec_unsigned sec nsec =
    let (sec_part, nsec_part) = carry sec nsec in
    if ltb_ℤ sec_part (pos 0) || ltb_ℤ (pos uint_max) sec_part
    then err time_range
    else ok (sec_part, nsec_part)

-- `normalizeSecNSecSigned(int64_t&, int64_t&)`. `negsuc int_max` is INT_MIN.
unfoldable pub normalize_sec_nsec_signed_64 : ℤ → ℤ → Result TimeError (ℤ × ℤ)
normalize_sec_nsec_signed_64 sec nsec =
    let (sec_part, nsec_part) = carry sec nsec in
    if ltb_ℤ sec_part (negsuc int_max) || ltb_ℤ (pos int_max) sec_part
    then err duration_range
    else ok (sec_part, nsec_part)

-- `normalizeSecNSecSigned(int32_t&, int32_t&)`.
unfoldable pub normalize_sec_nsec_signed : ℤ → ℤ → Result TimeError (ℤ × ℤ)
unfolding normalize_sec_nsec_signed_64
normalize_sec_nsec_signed sec nsec =
    and_then (normalize_sec_nsec_signed_64 sec nsec) λ p. ok (i32 p.0, i32 p.1)

-- The constructor `TimeBase(uint32_t, uint32_t)`.
unfoldable pub make_time : ℕ → ℕ → Result TimeError Time
make_time sec nsec =
    and_then (normalize_sec_nsec sec nsec) λ p. ok (record { sec = p.0; nsec = p.1 })

-- The constructor `DurationBase(int32_t, int32_t)`.
unfoldable pub make_duration : ℤ → ℤ → Result TimeError Duration
make_duration sec nsec =
    and_then (normalize_sec_nsec_signed sec nsec) λ p. ok (record { sec = p.0; nsec = p.1 })

-- The nanoseconds that a value stands for.
unfoldable pub time_total : Time → ℕ
time_total t = giga * t.sec + t.nsec

unfoldable pub duration_total : Duration → ℤ
duration_total d = giga ·ℤ d.sec +ℤ d.nsec

abbrev pub IsValidTime : Time → Type 0
IsValidTime t = (t.sec < 2 ^ 32) × (t.nsec < giga)

abbrev pub IsValidDuration : Duration → Type 0
IsValidDuration d = IsInt32 d.sec × (neg_part d.nsec ≡ 0) × (pos_part d.nsec < giga)

-- The nanoseconds that 32 bits of seconds can tell.
abbrev pub InTimeRange : ℤ → Type 0
InTimeRange z = (neg_part z ≡ 0) × (pos_part z < giga * 2 ^ 32)

abbrev pub InDurationRange : ℤ → Type 0
InDurationRange z = (neg_part z ≤ giga * 2 ^ 31) × (pos_part z < giga * 2 ^ 31)

-- A result is right for `z` nanoseconds: a well-formed value that stands for them, or the exception,
-- where they are out of range.
abbrev pub TellsTime : ℤ → Result TimeError Time → Type 0
TellsTime z (ok t) = IsValidTime t × (pos (time_total t) ≡ z)
TellsTime z (err e) = (e ≡ time_range) × ¬ InTimeRange z

abbrev pub TellsDuration : ℤ → Result TimeError Duration → Type 0
TellsDuration z (ok d) = IsValidDuration d × (duration_total d ≡ z)
TellsDuration z (err e) = (e ≡ duration_range) × ¬ InDurationRange z
