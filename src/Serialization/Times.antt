-- ===== src/Serialization/Times.antt =====
-- `Serializer< Time >` and `Serializer< Duration >` of Source/Serialization/Serialization.h.
use se_navi_common.Common.{ℕ, ◌^◌, ◌<◌, refl, List, ◌++◌, length-append, arith}
use se_navi_common.Common.Int.{IsInt32, u32}
use se_navi_common.Time.{Time, Duration}
use se_navi_common.Serialization.Stream.{pure, ◌>>=◌, ◌>>◌}
use se_navi_common.Serialization.Serializer.{Serializer}
use se_navi_common.Serialization.Serializer.Soundness.{IsSound}
use se_navi_common.Serialization.Serializer.Compose.{Sends-bind, Receives-bind, Receives-map}
use se_navi_common.Serialization.Scalars.{uint32, int32}
use se_navi_common.Serialization.Scalars.Bytes.{le_bytes, length-le_bytes}
use se_navi_common.Serialization.Scalars.Soundness.{scalar-IsSound, int32-IsSound}

-- A time is read as it was sent, with no normalization.
unfoldable pub time : Serializer Time
time = record {
  write = λ v. uint32.write v.sec >> uint32.write v.nsec;
  read = (do sec ← uint32.read; nsec ← uint32.read; pure (record { sec = sec; nsec = nsec }));
  serialized_length = λ v. 8;
}

pub duration : Serializer Duration
duration = record {
  write = λ v. int32.write v.sec >> int32.write v.nsec;
  read = (do sec ← int32.read; nsec ← int32.read; pure (record { sec = sec; nsec = nsec }));
  serialized_length = λ v. 8;
}

abbrev pub FitsTime : Time → Type 0
FitsTime t = (t.sec < 256 ^ 4) × (t.nsec < 256 ^ 4)

abbrev pub encode_time : Time → List ℕ
encode_time t = le_bytes 4 t.sec ++ le_bytes 4 t.nsec

word-IsSound : IsSound (λ v. v < 256 ^ 4) (le_bytes 4) uint32
word-IsSound = scalar-IsSound 4 (omega arith)

pub time-IsSound : IsSound FitsTime encode_time time
unfolding time
time-IsSound = record {
  sends = λ t fits.
      Sends-bind (le_bytes 4 t.sec) (le_bytes 4 t.nsec) (uint32.write t.sec) (uint32.write t.nsec)
        (word-IsSound.sends t.sec fits.0) (word-IsSound.sends t.nsec fits.1);
  receives = λ t fits.
      Receives-bind {B = Time} (le_bytes 4 t.sec) (le_bytes 4 t.nsec) uint32.read
        (λ sec. uint32.read >>= λ nsec. pure (record { sec = sec; nsec = nsec }))
        (word-IsSound.receives t.sec fits.0)
        (Receives-map {B = Time} (le_bytes 4 t.nsec) uint32.read
          (λ nsec. record { sec = t.sec; nsec = nsec }) (word-IsSound.receives t.nsec fits.1) refl);
  measures = λ t fits. omega (
    arith,
    length-append (le_bytes 4 t.sec) (le_bytes 4 t.nsec),
    length-le_bytes 4 t.sec,
    length-le_bytes 4 t.nsec,
  );
}

abbrev pub FitsDuration : Duration → Type 0
FitsDuration d = IsInt32 d.sec × IsInt32 d.nsec

abbrev pub encode_duration : Duration → List ℕ
encode_duration d = le_bytes 4 (u32 d.sec) ++ le_bytes 4 (u32 d.nsec)

pub duration-IsSound : IsSound FitsDuration encode_duration duration
unfolding duration
duration-IsSound = record {
  sends = λ d fits.
      Sends-bind (le_bytes 4 (u32 d.sec)) (le_bytes 4 (u32 d.nsec)) (int32.write d.sec)
        (int32.write d.nsec) (int32-IsSound.sends d.sec fits.0) (int32-IsSound.sends d.nsec fits.1);
  receives = λ d fits.
      Receives-bind {B = Duration} (le_bytes 4 (u32 d.sec)) (le_bytes 4 (u32 d.nsec)) int32.read
        (λ sec. int32.read >>= λ nsec. pure (record { sec = sec; nsec = nsec }))
        (int32-IsSound.receives d.sec fits.0)
        (Receives-map {B = Duration} (le_bytes 4 (u32 d.nsec)) int32.read
          (λ nsec. record { sec = d.sec; nsec = nsec }) (int32-IsSound.receives d.nsec fits.1)
          refl);
  measures = λ d fits. omega (
    arith,
    length-append (le_bytes 4 (u32 d.sec)) (le_bytes 4 (u32 d.nsec)),
    length-le_bytes 4 (u32 d.sec),
    length-le_bytes 4 (u32 d.nsec),
  );
}
