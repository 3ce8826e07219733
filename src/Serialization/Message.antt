-- ===== src/Serialization/Message.antt =====
-- Whole messages: `serializeMessage`, `serializeServiceResponse` and `deserializeMessage` of
-- Source/Serialization/Serialization.h over `SerializedMessage` of SerializedMessage.h.
pub mod RoundTrip
pub mod Response
use se_navi_common.Common.{
  ℕ, ◌+◌, ◌-◌, ◌%◌, ◌^◌, Bool, true, false, List, Result, ok, err, and_then,
}
use se_navi_common.Common.Int.{pos, u32, ◌-ℤ◌}
use se_navi_common.Serialization.Stream.{
  Stream, StreamError, Action, pure, stream_over, ◌>>=◌, ◌>>◌,
}
use se_navi_common.Serialization.Serializer.{Serializer}
use se_navi_common.Serialization.Scalars.{uint8, uint32}

-- `message_start` is an index into `buf`; it stays 0 (null) where the code does not set it.
pub record SerializedMessage : Type 0 where
  pub buf : List ℕ
  pub num_bytes : ℕ
  pub message_start : ℕ

-- `getData()`.
get_data : Action ℕ
get_data s = (ok s.data_ptr, s)

-- What a run that returned the start of the message leaves, or the exception that ended it.
pub finish : ℕ → Result StreamError ℕ × Stream → Result StreamError SerializedMessage
finish count r =
    and_then r.0
      (λ start. ok (record { buf = r.1.memory; num_bytes = count; message_start = start }))

-- `new_bytes n` is the array that `new uint8_t[n]` gives, whatever its bytes are.
module _ (new_bytes : ℕ → List ℕ) {A : Type 0} (c : Serializer A) where
  pub serialize_message : A → Result StreamError SerializedMessage
  unfolding get_data finish
  serialize_message message =
      let count = (c.serialized_length message + 4) % 2 ^ 32 in
      finish count (
        (do
          uint32.write ((count + 2 ^ 32 - 4) % 2 ^ 32)
          start ← get_data
          c.write message
          pure start)
          (stream_over (new_bytes count) 0 count))

  -- The flag is written as a `uint8_t`; only a successful response carries a length.
  pub serialize_service_response : Bool → A → Result StreamError SerializedMessage
  unfolding finish
  serialize_service_response true message =
      let count = (c.serialized_length message + 5) % 2 ^ 32 in
      finish count (
        (do uint8.write 1; uint32.write ((count + 2 ^ 32 - 5) % 2 ^ 32); c.write message; pure 0)
          (stream_over (new_bytes count) 0 count))
  serialize_service_response false message =
      let count = (c.serialized_length message + 1) % 2 ^ 32 in
      finish count
        ((do uint8.write 0; c.write message; pure 0) (stream_over (new_bytes count) 0 count))

pub deserialize_message : {A : Type 0} → Serializer A → SerializedMessage → Result StreamError A
deserialize_message c m =
    (c.read (stream_over m.buf m.message_start (u32 (pos m.num_bytes -ℤ pos m.message_start)))).0
