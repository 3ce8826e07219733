-- ===== src/Serialization/Scalars/Soundness.antt =====
-- The scalar serializers are sound: `n` little-endian bytes carry every value below 256 ^ n.
use se_navi_common.Common.{
  ℕ, ◌+◌, ◌^◌, ◌<◌, ◌≡◌, refl, sym, ap, List, [], ◌∷◌, length, take-append_length, arith, ok,
}
use se_navi_common.Common.Int.{
  IsInt16, IsInt32, u16, u32, signed16-u16, signed32-u32, u16-lt, u32-lt,
}
use se_navi_common.Serialization.Stream.{
  wrote, splice, ◌>>=◌, poke, peek, advance_ok, advance_overrun,
}
use se_navi_common.Serialization.Serializer.Soundness.{Sends, Receives, IsSound}
use se_navi_common.Serialization.Serializer.Compose.{Receives-map}
use se_navi_common.Serialization.Scalars.Bytes.{
  le_bytes, le_value, length-le_bytes, le_value-le_bytes,
}
use se_navi_common.Serialization.Scalars.{
  write_bytes, read_bytes, scalar, int16, int32, boolean, bool_byte,
}

pub Sends-write_bytes : (n : ℕ) (bs : List ℕ) → length bs ≡ n → Sends bs (write_bytes n bs)
unfolding write_bytes ◌>>=◌ poke wrote
Sends-write_bytes n bs h = record {
  sent = λ s room. rw (advance_ok n s (omega arith)) (
      ap
        (λ k.
          (ok tt, record s { memory = splice s.data_ptr bs s.memory; data_ptr = s.data_ptr + k }))
        (sym h));
  unsent = λ s short. rw (advance_overrun n s (omega arith));
}

pub Receives-read_bytes : (n : ℕ) (bs : List ℕ) → length bs ≡ n → Receives bs bs (read_bytes n)
unfolding read_bytes ◌>>=◌ peek
Receives-read_bytes n bs h = record {
  received = λ rest s holds room.
      rw (advance_ok n s (omega arith), holds, ← h, take-append_length bs rest);
  cut_off = λ rest s holds short. rw (advance_overrun n s (omega arith));
}

-- A type of `n` bytes carries every value of its range.
pub scalar-IsSound : (n : ℕ) → n < 2 ^ 32 → IsSound (λ v. v < 256 ^ n) (le_bytes n) (scalar n)
unfolding scalar
scalar-IsSound n h = record {
  sends = λ v fits. Sends-write_bytes n (le_bytes n v) (length-le_bytes n v);
  receives = λ v fits.
      Receives-map (le_bytes n v) (read_bytes n) le_value
        (Receives-read_bytes n (le_bytes n v) (length-le_bytes n v)) (le_value-le_bytes n v fits);
  measures = λ v fits. omega (arith, length-le_bytes n v);
}

pub int32-IsSound : IsSound IsInt32 (λ z. le_bytes 4 (u32 z)) int32
unfolding int32
int32-IsSound = record {
  sends = λ z fits. Sends-write_bytes 4 (le_bytes 4 (u32 z)) (length-le_bytes 4 (u32 z));
  receives = λ z fits.
      Receives-map (le_bytes 4 (u32 z)) (read_bytes 4) _
        (Receives-read_bytes 4 (le_bytes 4 (u32 z)) (length-le_bytes 4 (u32 z)))
        (rw (le_value-le_bytes 4 (u32 z) (u32-lt z)) (signed32-u32 z fits));
  measures = λ z fits. omega (arith, length-le_bytes 4 (u32 z));
}

pub int16-IsSound : IsSound IsInt16 (λ z. le_bytes 2 (u16 z)) int16
unfolding int16
int16-IsSound = record {
  sends = λ z fits. Sends-write_bytes 2 (le_bytes 2 (u16 z)) (length-le_bytes 2 (u16 z));
  receives = λ z fits.
      Receives-map (le_bytes 2 (u16 z)) (read_bytes 2) _
        (Receives-read_bytes 2 (le_bytes 2 (u16 z)) (length-le_bytes 2 (u16 z)))
        (rw (le_value-le_bytes 2 (u16 z) (u16-lt z)) (signed16-u16 z fits));
  measures = λ z fits. omega (arith, length-le_bytes 2 (u16 z));
}

pub boolean-IsSound : IsSound (λ b. Unit {0}) (λ b. bool_byte b ∷ []) boolean
unfolding boolean bool_byte le_value
boolean-IsSound = record {
  sends = λ b fits. Sends-write_bytes 1 (bool_byte b ∷ []) refl;
  receives = λ b fits.
      Receives-map (bool_byte b ∷ []) (read_bytes 1) _
        (Receives-read_bytes 1 (bool_byte b ∷ []) refl) (ground arith);
  measures = λ b fits. refl;
}
