-- ===== src/Serialization/Scalars.antt =====
-- CREATE_SIMPLE_SERIALIZER of Source/Serialization/Serialization.h for the integer and floating
-- types, and `Serializer< bool >`. A floating value is its bit pattern: it is only ever copied. The
-- bytes of a scalar are those of a little-endian machine.
pub mod Bytes
pub mod Soundness
use se_navi_common.Common.{ℕ, Bool, List, [], ◌∷◌, not, ◌==◌, if◌then◌else◌}
use se_navi_common.Common.Int.{ℤ, u16, u32, signed16, signed32}
use se_navi_common.Serialization.Stream.{Action, pure, ◌>>=◌, advance, poke, peek}
use se_navi_common.Serialization.Serializer.{Serializer}
use Bytes.{le_bytes, le_value}

-- `memcpy(stream.advance(n), p, n)`, and the same by a typed store.
unfoldable pub write_bytes : ℕ → List ℕ → Action (Unit {0})
write_bytes n bs = do p ← advance n; poke p bs

-- `memcpy(p, stream.advance(n), n)`, and the same by a typed load.
unfoldable pub read_bytes : ℕ → Action (List ℕ)
read_bytes n = do p ← advance n; peek p n

-- The serializer of an unsigned or floating type of `n` bytes.
unfoldable pub scalar : ℕ → Serializer ℕ
scalar n = record {
  write = λ v. write_bytes n (le_bytes n v);
  read = (do bs ← read_bytes n; pure (le_value bs));
  serialized_length = λ v. n;
}

-- `uint8_t`, `char` as a byte, `uint32_t`, `uint64_t` (also `unsigned long`), `float`, `double`.
abbrev pub uint8 : Serializer ℕ
uint8 = scalar 1

abbrev pub uint32 : Serializer ℕ
uint32 = scalar 4

abbrev pub uint64 : Serializer ℕ
uint64 = scalar 8

abbrev pub float32 : Serializer ℕ
float32 = scalar 4

abbrev pub float64 : Serializer ℕ
float64 = scalar 8

-- `int16_t`: the bytes of its bit pattern.
unfoldable pub int16 : Serializer ℤ
int16 = record {
  write = λ z. write_bytes 2 (le_bytes 2 (u16 z));
  read = (do bs ← read_bytes 2; pure (signed16 (le_value bs)));
  serialized_length = λ z. 2;
}

-- `int32_t`: the bytes of its bit pattern.
pub int32 : Serializer ℤ
int32 = record {
  write = λ z. write_bytes 4 (le_bytes 4 (u32 z));
  read = (do bs ← read_bytes 4; pure (signed32 (le_value bs)));
  serialized_length = λ z. 4;
}

unfoldable pub bool_byte : Bool → ℕ
bool_byte b = if b then 1 else 0

-- `Serializer< bool >`: any byte but 0 is read as true.
unfoldable pub boolean : Serializer Bool
boolean = record {
  write = λ b. write_bytes 1 (bool_byte b ∷ []);
  read = (do bs ← read_bytes 1; pure (not (le_value bs == 0)));
  serialized_length = λ b. 1;
}
