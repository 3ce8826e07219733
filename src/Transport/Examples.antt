-- ===== src/Transport/Examples.antt =====
-- The laws of the exchanges at concrete values.
use se_navi_common.Common.{
  if◌then◌else◌, ◌==◌, ℕ, ◌≤◌, ◌≡◌, refl, ◌↔◌, true, false, List, [], ◌∷◌, replicate,
  length-replicate, length, none, some, ok, arith,
}
use se_navi_common.Serialization.Scalars.Bytes.{le_bytes}
use se_navi_common.Serialization.Containers.{text}
use se_navi_common.Serialization.Containers.Soundness.{encode_text, text-IsSound}
use se_navi_common.Transport.{Shared, Status, idle, processing, await_reply}
use se_navi_common.Transport.Waiting.{after_waits, await_reply_timeout}
use se_navi_common.Transport.DataSet.{publish, processor_pass}
use se_navi_common.Transport.DataSet.Attach.{attach_loses}
use se_navi_common.Transport.DataSet.Exchange.{publish-processor_pass}
use se_navi_common.Transport.Service.{call, server_pass}
use se_navi_common.Transport.Service.Exchange.{call-server_pass}

abbrev zeros : ℕ → List ℕ
zeros n = replicate n 0

-- "hi!"
abbrev greeting : List ℕ
greeting = 104 ∷ 105 ∷ 33 ∷ []

abbrev before : Shared
before = record { status = idle; buf_len = 0; region = none }

abbrev holds : Status → Shared
holds status = record {
  status = status;
  buf_len = length (encode_text greeting);
  region = some (encode_text greeting);
}

-- The other side is done in the third wait.
abbrev slow : ℕ → Shared → Shared
slow n s = if n == 8 then record s { status = idle } else s

await_reply_example :
    ((await_reply slow 10 processing (holds processing)).0 ≡ true)
    ↔ ((k : ℕ) → k ≤ 10 → (after_waits slow 10 k (holds processing)).status ≡ processing)
await_reply_example = await_reply_timeout slow 10 (holds processing)

publish_example :
    (publish zeros text
        (λ n seen. (processor_pass text true [] seen).1)
        false
        greeting
        (some before)
      ≡ (ok true, some (holds idle)))
    × (processor_pass text true [] (holds processing) ≡ (ok (some greeting), holds idle))
unfolding le_bytes
publish_example =
    publish-processor_pass zeros (λ n. length-replicate n 0) text-IsSound greeting (omega arith)
      (omega arith) false before []

attach_loses_example :
    (publish zeros text (λ n seen. record seen { status = idle }) true greeting (some before)
      ≡ (ok true, some (holds idle)))
    × (processor_pass text true [] (holds idle) ≡ (ok none, holds idle))
unfolding le_bytes
attach_loses_example =
    attach_loses zeros (λ n. length-replicate n 0) text-IsSound greeting (omega arith) (omega arith)
      (λ n seen. record seen { status = idle }) (λ n seen. refl) true before

call_example :
    call text (λ n seen. (server_pass zeros text [] (some greeting) seen).1) (some before)
    ≡ (ok (some greeting), some (holds idle))
unfolding le_bytes
call_example =
    call-server_pass zeros (λ n. length-replicate n 0) text-IsSound greeting (omega arith)
      (omega arith) before
