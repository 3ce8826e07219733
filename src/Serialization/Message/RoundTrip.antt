-- ===== src/Serialization/Message/RoundTrip.antt =====
-- What `serializeMessage` puts into its buffer, and what `deserializeMessage` makes of it.
use se_navi_common.Common.{
  ℕ, ◌+◌, ◌-◌, ◌%◌, ◌^◌, ◌<◌, ◌≡◌, refl, ap, ap₂, ◌∙◌, sym, List, [], ◌∷◌, ◌++◌, append-nil, length,
  length-append, drop, drop-append_length, arith, ok, err, and_then,
}
use se_navi_common.Common.Int.{pos, u32, ◌-ℤ◌}
use se_navi_common.Serialization.Stream.{
  Stream, overrun, pure, stream_over, splice, wrote, drop-splice, wrote-wrote, bind_ok, ◌>>=◌, ◌>>◌,
  Holds,
}
use se_navi_common.Serialization.Serializer.{Serializer}
use se_navi_common.Serialization.Serializer.Soundness.{IsSound}
use se_navi_common.Serialization.Scalars.{uint32}
use se_navi_common.Serialization.Scalars.Bytes.{le_bytes, length-le_bytes}
use se_navi_common.Serialization.Scalars.Soundness.{scalar-IsSound}
use se_navi_common.Serialization.Message.{
  SerializedMessage, get_data, finish, serialize_message, deserialize_message,
}

drop_all : (xs : List ℕ) → drop (length xs) xs ≡ []
drop_all [] = refl
drop_all (x ∷ xs) = drop_all xs

-- A run that fills the whole array.
pub splice_whole : (bs mem : List ℕ) → length bs ≡ length mem → splice 0 bs mem ≡ bs
splice_whole bs mem h =
    drop-splice 0 bs mem (omega arith)
    ∙ ap (λ l. bs ++ l) (ap (λ k. drop k mem) (omega arith) ∙ drop_all mem)
    ∙ append-nil bs

-- A message behind the count of its bytes.
abbrev pub framed : List ℕ → List ℕ
framed bs = le_bytes 4 (length bs) ++ bs

abbrev pub framed_message : List ℕ → SerializedMessage
framed_message bs = record { buf = framed bs; num_bytes = length bs + 4; message_start = 4 }

length-framed : (bs : List ℕ) → length (framed bs) ≡ length bs + 4
length-framed bs =
    omega (arith, length-append (le_bytes 4 (length bs)) bs, length-le_bytes 4 (length bs))

module _ (new_bytes : ℕ → List ℕ) (new_length : (n : ℕ) → length (new_bytes n) ≡ n) {A : Type 0}
    {Fits : A → Type 0} {encode : A → List ℕ} {c : Serializer A} (h : IsSound Fits encode c) where
  module _ (m : A) (fits : Fits m) (small : length (encode m) + 4 < 2 ^ 32) where
    count_lem : (c.serialized_length m + 4) % 2 ^ 32 ≡ length (encode m) + 4
    count_lem = omega (arith, h.measures m fits)

    announced : (length (encode m) + 4 + 2 ^ 32 - 4) % 2 ^ 32 ≡ length (encode m)
    announced = omega arith

    abbrev buffer : Stream
    buffer = stream_over (new_bytes (length (encode m) + 4)) 0 (length (encode m) + 4)

    abbrev length_bytes : List ℕ
    length_bytes = le_bytes 4 (length (encode m))

    body_runs :
        (get_data >>= λ start. c.write m >> pure start) (wrote length_bytes buffer)
        ≡ (ok 4, wrote (framed (encode m)) buffer)
    unfolding get_data ◌>>=◌ wrote
    body_runs =
        bind_ok (c.write m) (λ _. pure (0 + length length_bytes))
          ((h.sends m fits).sent (wrote length_bytes buffer)
            (omega (arith, length-le_bytes 4 (length (encode m)))))
        ∙ ap₂ (λ (k : ℕ) (t : Stream). (ok k, t))
            (omega (arith, length-le_bytes 4 (length (encode m))))
            (wrote-wrote length_bytes (encode m) buffer)

    whole_runs :
        (uint32.write (length (encode m)) >> (get_data >>= λ start. c.write m >> pure start)) buffer
        ≡ (ok 4, wrote (framed (encode m)) buffer)
    whole_runs =
        bind_ok (uint32.write (length (encode m)))
          (λ _. get_data >>= λ start. c.write m >> pure start)
          (((scalar-IsSound 4 (omega arith)).sends (length (encode m)) (omega arith)).sent buffer
            (omega (arith, length-le_bytes 4 (length (encode m)))))
        ∙ body_runs

    filled : (wrote (framed (encode m)) buffer).memory ≡ framed (encode m)
    unfolding wrote
    filled =
        splice_whole (framed (encode m)) (new_bytes (length (encode m) + 4))
          (omega (arith, length-framed (encode m), new_length (length (encode m) + 4)))

    -- For a sound serializer, a message in its range and an encoding that is, with the four
    -- bytes of its length, below 2 ^ 32 bytes: serializeMessage returns a buffer that holds the
    -- length of the encoding, in four bytes, then the encoding, and nothing else, with
    -- message_start behind the length.
    pub serialize_message_lem : serialize_message new_bytes c m ≡ ok (framed_message (encode m))
    unfolding serialize_message finish
    serialize_message_lem =
        rw (count_lem, announced)
          (ap (finish (length (encode m) + 4)) whole_runs
            ∙ ap
                (λ l. ok (record { buf = l; num_bytes = length (encode m) + 4; message_start = 4 }))
                filled)

module _ {A : Type 0} {Fits : A → Type 0} {encode : A → List ℕ} {c : Serializer A}
    (h : IsSound Fits encode c) where
  -- The stream over `count` bytes behind the length of a framed message.
  abbrev body_stream : A → ℕ → Stream
  body_stream m count = stream_over (framed (encode m)) 4 count

  body-Holds : (m : A) (count : ℕ) → Holds (encode m) [] (body_stream m count)
  body-Holds m count =
      ap (λ k. drop k (framed (encode m))) (sym (length-le_bytes 4 (length (encode m))))
      ∙ drop-append_length (le_bytes 4 (length (encode m))) (encode m)
      ∙ sym (append-nil (encode m))

  count_of : (n : ℕ) → n < 2 ^ 32 → u32 (pos (n + 4) -ℤ pos 4) ≡ n
  unfolding u32 ◌-ℤ◌
  count_of n small = ground arith

  deserialize-framed :
      (m : A)
      → Fits m
      → length (encode m) < 2 ^ 32
      → deserialize_message c (framed_message (encode m)) ≡ ok m
  unfolding deserialize_message
  deserialize-framed m fits small =
      rw (deserialize_message, count_of (length (encode m)) small)
        (ap (λ r. r.0)
          ((h.receives m fits).received [] (body_stream m (length (encode m)))
            (body-Holds m (length (encode m))) (omega arith)))

  -- For a sound serializer and a message in its range: deserializing its framed encoding with
  -- the last bytes cut off, so that n bytes of less than the encoding's length remain behind the
  -- length, throws StreamOverrunException.
  pub deserialize_truncated :
      (m : A) (n : ℕ)
      → Fits m
      → n < length (encode m)
      → n < 2 ^ 32
      → deserialize_message c (record (framed_message (encode m)) { num_bytes = n + 4 })
        ≡ err overrun
  unfolding deserialize_message
  deserialize_truncated m n fits short small =
      rw (deserialize_message, count_of n small)
        ((h.receives m fits).cut_off [] (body_stream m n) (body-Holds m n) (omega arith))

  -- For a sound serializer, a message in its range and an encoding that is, with the four bytes
  -- of its length, below 2 ^ 32 bytes, serializeMessage throws nothing and deserializeMessage
  -- gives the message back, whatever the new array of the requested size holds.
  pub deserialize-serialize :
      (new_bytes : ℕ → List ℕ) (m : A)
      → ((n : ℕ) → length (new_bytes n) ≡ n)
      → Fits m
      → length (encode m) + 4 < 2 ^ 32
      → and_then (serialize_message new_bytes c m) (deserialize_message c) ≡ ok m
  deserialize-serialize new_bytes m new_length fits small =
      rw (serialize_message_lem new_bytes new_length h m fits small)
        (deserialize-framed m fits (omega arith))
