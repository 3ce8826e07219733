-- ===== src/Serialization/Containers.antt =====
-- The serializers of `std::string`, `std::vector` and `boost::array` of
-- Source/Serialization/Serialization.h. The vector and array serializers come in three variants,
-- chosen by the traits of the element type: any type, a type of fixed size, a simple type. A
-- container is read into a freshly made one.
pub mod Soundness
pub mod Fixed
use se_navi_common.Common.{
  ℕ, zero, suc, ◌+◌, ◌*◌, ◌%◌, ◌^◌, List, [], ◌∷◌, ◌++◌, length, take, drop, ltb, if◌then◌else◌,
}
use se_navi_common.Serialization.Stream.{Action, pure, ◌>>=◌, ◌>>◌}
use se_navi_common.Serialization.Serializer.{Serializer}
use se_navi_common.Serialization.Scalars.{uint32, write_bytes, read_bytes}
use se_navi_common.Serialization.Scalars.Bytes.{le_bytes, le_value}

-- `std::string`; a text is the list of its bytes.
pub text : Serializer (List ℕ)
text = record {
  write = λ str.
      uint32.write (length str % 2 ^ 32)
      >> (if ltb 0 (length str) then write_bytes (length str % 2 ^ 32) str else pure tt);
  read = (do len ← uint32.read; if ltb 0 len then read_bytes len else pure []);
  serialized_length = λ str. (4 + length str % 2 ^ 32) % 2 ^ 32;
}

module _ {A : Type 0} (c : Serializer A) where
  -- `for(; it != end; ++it) stream.next(*it);`, writing.
  unfoldable pub write_items : List A → Action (Unit {0})
  write_items [] = pure tt
  write_items (x ∷ xs) = c.write x >> write_items xs

  -- The same loop, reading into a container that was resized to `n` elements.
  unfoldable pub read_items : ℕ → Action (List A)
  read_items zero = pure []
  read_items (suc n) = do x ← c.read; xs ← read_items n; pure (x ∷ xs)

  -- `size += serializationLength(*it)`, from a given `size`.
  unfoldable pub sum_lengths : List A → ℕ → ℕ
  sum_lengths [] size = size
  sum_lengths (x ∷ xs) size = sum_lengths xs ((size + c.serialized_length x) % 2 ^ 32)

  -- `serializationLength(v.front())` times the number of elements, of a container that has some.
  unfoldable pub front_length : List A → ℕ
  front_length [] = 0
  front_length (x ∷ xs) = (c.serialized_length x * (length (x ∷ xs) % 2 ^ 32)) % 2 ^ 32

  pub write_vector : List A → Action (Unit {0})
  write_vector v = uint32.write (length v % 2 ^ 32) >> write_items v

  pub read_vector : Action (List A)
  read_vector = do len ← uint32.read; read_items len

  -- `VectorSerializer` where the element type is not IsFixedSize.
  pub vector : Serializer (List A)
  unfolding write_vector read_vector
  vector = record {
    write = write_vector;
    read = read_vector;
    serialized_length = λ v. sum_lengths v 4;
  }

  -- `VectorSerializer` where the element type is IsFixedSize and not IsSimple: the length of the
  -- first element stands for all.
  pub vector_fixed : Serializer (List A)
  unfolding write_vector read_vector
  vector_fixed = record {
    write = write_vector;
    read = read_vector;
    serialized_length = λ v. (4 + front_length v) % 2 ^ 32;
  }

  -- `ArraySerializer< T, N >` where the element type is not IsFixedSize.
  pub array : ℕ → Serializer (List A)
  array n = record {
    write = write_items;
    read = read_items n;
    serialized_length = λ v. sum_lengths v 0;
  }

  -- `ArraySerializer< T, N >` where the element type is IsFixedSize and not IsSimple.
  pub array_fixed : ℕ → Serializer (List A)
  array_fixed n = record {
    write = write_items;
    read = read_items n;
    serialized_length = front_length;
  }

-- The bytes of `len` elements of `n` bytes each, and the elements that such bytes make. Bytes that
-- are missing are those of an element that `resize` set to zero.
unfoldable pub flat_bytes : ℕ → List ℕ → List ℕ
flat_bytes n [] = []
flat_bytes n (x ∷ xs) = le_bytes n x ++ flat_bytes n xs

unfoldable pub flat_values : ℕ → ℕ → List ℕ → List ℕ
flat_values n zero bs = []
flat_values n (suc len) bs = le_value (take n bs) ∷ flat_values n len (drop n bs)

-- `VectorSerializer` where the element type is IsSimple and has `n` bytes: one `memcpy`.
unfoldable pub write_simple : ℕ → List ℕ → Action (Unit {0})
write_simple n v =
    let len = length v % 2 ^ 32 in
    uint32.write len
    >> (if ltb 0 (length v) then write_bytes ((len * n) % 2 ^ 32) (flat_bytes n v) else pure tt)

unfoldable pub read_block : ℕ → ℕ → Action (List ℕ)
read_block n len = do bs ← read_bytes ((n * len) % 2 ^ 32); pure (flat_values n len bs)

pub vector_simple : ℕ → Serializer (List ℕ)
vector_simple n = record {
  write = write_simple n;
  read = (do len ← uint32.read; if ltb 0 len then read_block n len else pure []);
  serialized_length = λ v. (4 + length v * n) % 2 ^ 32;
}

-- `ArraySerializer< T, N >` where the element type is IsSimple and has `n` bytes.
pub array_simple : ℕ → ℕ → Serializer (List ℕ)
array_simple n len = record {
  write = λ v. write_bytes ((len * n) % 2 ^ 32) (flat_bytes n v);
  read = read_block n len;
  serialized_length = λ v. (len * n) % 2 ^ 32;
}
