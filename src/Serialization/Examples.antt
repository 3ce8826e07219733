-- ===== src/Serialization/Examples.antt =====
-- The laws of messages at concrete values.
use se_navi_common.Common.{ℕ, ◌≡◌, List, [], ◌∷◌, replicate, length-replicate, ok, and_then, arith}
use se_navi_common.Serialization.Scalars.Bytes.{le_bytes}
use se_navi_common.Serialization.Containers.{text}
use se_navi_common.Serialization.Containers.Soundness.{encode_text, text-IsSound}
use se_navi_common.Serialization.Message.{serialize_message, deserialize_message}
use se_navi_common.Serialization.Message.RoundTrip.{
  framed_message, serialize_message_lem, deserialize-serialize,
}

abbrev zeros : ℕ → List ℕ
zeros n = replicate n 0

-- "hi!"
abbrev greeting : List ℕ
greeting = 104 ∷ 105 ∷ 33 ∷ []

serialize_message_example :
    serialize_message zeros text greeting ≡ ok (framed_message (encode_text greeting))
unfolding le_bytes
serialize_message_example =
    serialize_message_lem zeros (λ n. length-replicate n 0) text-IsSound greeting (omega arith)
      (omega arith)

deserialize_serialize_example :
    and_then (serialize_message zeros text greeting) (deserialize_message text) ≡ ok greeting
unfolding le_bytes
deserialize_serialize_example =
    deserialize-serialize text-IsSound zeros greeting (λ n. length-replicate n 0) (omega arith)
      (omega arith)
