-- ===== src/Serialization/Message/Response.antt =====
-- What `serializeServiceResponse` puts into its buffer.
use se_navi_common.Common.{
  ap₂, Result, ℕ, ◌+◌, ◌-◌, ◌%◌, ◌^◌, ◌<◌, ◌≡◌, refl, ap, ◌∙◌, true, false, List, [], ◌∷◌, length,
  length-append, arith, ok, err, subst,
}
use se_navi_common.Serialization.Stream.{
  StreamError, Stream, Action, pure, stream_over, wrote, ◌>>=◌, ◌>>◌, bind_ok,
}
use se_navi_common.Serialization.Serializer.{Serializer}
use se_navi_common.Serialization.Serializer.Soundness.{Sends, IsSound}
use se_navi_common.Serialization.Serializer.Compose.{Sends-bind}
use se_navi_common.Serialization.Scalars.{uint8, uint32}
use se_navi_common.Serialization.Scalars.Bytes.{le_bytes, length-le_bytes}
use se_navi_common.Serialization.Scalars.Soundness.{scalar-IsSound}
use se_navi_common.Serialization.Message.{finish, serialize_service_response}
use se_navi_common.Serialization.Message.RoundTrip.{splice_whole, framed}

-- A run that sends exactly the bytes of its array.
filled_by :
    (bs : List ℕ) (mem : List ℕ) (count : ℕ) (m : Action (Unit {0}))
    → Sends bs m
    → length mem ≡ count
    → length bs ≡ count
    → finish count ((m >> pure 0) (stream_over mem 0 count))
      ≡ ok (record { buf = bs; num_bytes = count; message_start = 0 })
unfolding finish wrote
filled_by bs mem count m h room same =
    ap (finish count) (bind_ok m (λ _. pure 0) (h.sent (stream_over mem 0 count) (omega arith)))
    ∙ ap (λ l. ok (record { buf = l; num_bytes = count; message_start = 0 }))
        (splice_whole bs mem (omega arith))

flag_bytes : (flag : ℕ) → flag < 256 → le_bytes 1 flag ≡ flag ∷ []
unfolding le_bytes
flag_bytes flag small = ap (λ b. b ∷ []) (omega arith)

Sends-flag : (flag : ℕ) → flag < 256 → Sends (flag ∷ []) (uint8.write flag)
Sends-flag flag small =
    subst (λ bs. Sends bs (uint8.write flag)) (flag_bytes flag small)
      ((scalar-IsSound 1 (omega arith)).sends flag (omega arith))

-- `>>` to the right: the two ways to bracket a run are one action.
>>-assoc :
    {A : Type 0} (m n : Action (Unit {0})) (k : Action A) (s : Stream)
    → (m >> (n >> k)) s ≡ ((m >> n) >> k) s
unfolding ◌>>=◌
>>-assoc {A} m n k s = from (m s).0 refl
  where
    from : (r : Result StreamError (Unit {0})) → (m s).0 ≡ r → (m >> (n >> k)) s ≡ ((m >> n) >> k) s
    from (ok u) e = rw e
    from (err x) e = rw e

module _ (new_bytes : ℕ → List ℕ) (new_length : (n : ℕ) → length (new_bytes n) ≡ n) {A : Type 0}
    {Fits : A → Type 0} {encode : A → List ℕ} {c : Serializer A} (h : IsSound Fits encode c) (m : A)
    (fits : Fits m) where
  -- For a sound serializer, a message in its range and an encoding that is, with five bytes
  -- more, below 2 ^ 32 bytes: serializeServiceResponse of a success returns the byte 1, the
  -- length of the encoding in four bytes and the encoding, and nothing else.
  pub response_ok :
      length (encode m) + 5 < 2 ^ 32
      → serialize_service_response new_bytes c true m
        ≡ ok (record {
          buf = 1 ∷ framed (encode m);
          num_bytes = length (encode m) + 5;
          message_start = 0;
        })
  unfolding serialize_service_response
  response_ok small =
      ap₂
        (λ (count len : ℕ). finish count (
          (uint8.write 1 >> (uint32.write len >> (c.write m >> pure 0)))
            (stream_over (new_bytes count) 0 count)))
        count_ok announced
      ∙ ap (finish (length (encode m) + 5)) (
          >>-assoc (uint8.write 1) (uint32.write (length (encode m))) (c.write m >> pure 0) _
          ∙ >>-assoc (uint8.write 1 >> uint32.write (length (encode m))) (c.write m) (pure 0) _)
      ∙ filled_by (1 ∷ framed (encode m)) (new_bytes (length (encode m) + 5))
          (length (encode m) + 5) (uint8.write 1 >> uint32.write (length (encode m)) >> c.write m)
          (Sends-bind (1 ∷ le_bytes 4 (length (encode m))) (encode m)
            (uint8.write 1 >> uint32.write (length (encode m))) (c.write m)
            (Sends-bind (1 ∷ []) (le_bytes 4 (length (encode m))) (uint8.write 1)
              (uint32.write (length (encode m))) (Sends-flag 1 (omega arith))
              ((scalar-IsSound 4 (omega arith)).sends (length (encode m)) (omega arith)))
            (h.sends m fits))
          (new_length (length (encode m) + 5))
          (omega (
            arith,
            length-append (le_bytes 4 (length (encode m))) (encode m),
            length-le_bytes 4 (length (encode m)),
          ))
    where
      count_ok : (c.serialized_length m + 5) % 2 ^ 32 ≡ length (encode m) + 5
      count_ok = omega (arith, h.measures m fits)

      announced : ((c.serialized_length m + 5) % 2 ^ 32 + 2 ^ 32 - 5) % 2 ^ 32 ≡ length (encode m)
      announced = omega (arith, h.measures m fits)

  -- For a sound serializer, a message in its range and an encoding that is, with one byte more,
  -- below 2 ^ 32 bytes: serializeServiceResponse of a failure returns the byte 0 and the
  -- encoding, without a length, and nothing else.
  pub response_failed :
      length (encode m) + 1 < 2 ^ 32
      → serialize_service_response new_bytes c false m
        ≡ ok (record { buf = 0 ∷ encode m; num_bytes = length (encode m) + 1; message_start = 0 })
  unfolding serialize_service_response
  response_failed small =
      ap
        (λ count.
          finish count
            ((uint8.write 0 >> (c.write m >> pure 0)) (stream_over (new_bytes count) 0 count)))
        count_failed
      ∙ ap (finish (length (encode m) + 1)) (>>-assoc (uint8.write 0) (c.write m) (pure 0) _)
      ∙ filled_by (0 ∷ encode m) (new_bytes (length (encode m) + 1)) (length (encode m) + 1)
          (uint8.write 0 >> c.write m)
          (Sends-bind (0 ∷ []) (encode m) (uint8.write 0) (c.write m) (Sends-flag 0 (omega arith))
            (h.sends m fits))
          (new_length (length (encode m) + 1)) (omega arith)
    where
      count_failed : (c.serialized_length m + 1) % 2 ^ 32 ≡ length (encode m) + 1
      count_failed = omega (arith, h.measures m fits)
