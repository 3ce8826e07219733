-- ===== src/Transport/DataSet/Attach.antt =====
-- A second publisher that attaches to a data set while another one publishes.
use se_navi_common.Common.{
  ℕ, ◌^◌, ◌<◌, ◌≡◌, refl, ap, ◌∙◌, Bool, true, false, not, List, [], length, Option, none, some, ok,
}
use se_navi_common.Serialization.Serializer.Soundness.{IsSound}
use se_navi_common.Serialization.Serializer.{Serializer}
use se_navi_common.Transport.{Status, idle, processing, Shared, await_reply, wait_while_idle}
use se_navi_common.Transport.Delivery.{store_lem}
use se_navi_common.Transport.DataSet.{
  obtain_oper, finish_publish, publish_on, publish, receive_waited, processor_pass,
}
use se_navi_common.Transport.DataSet.Exchange.{message}

abbrev operation_or : Shared → Option Shared → Shared
operation_or s none = s
operation_or s (some t) = t

module _ (new_bytes : ℕ → List ℕ) (new_length : (n : ℕ) → length (new_bytes n) ≡ n) {A : Type 0}
    {Fits : A → Type 0} {encode : A → List ℕ} {c : Serializer A} (h : IsSound Fits encode c) (m : A)
    (fits : Fits m) (small : length (encode m) < 2 ^ 32) (others : ℕ → Shared → Shared)
    (attaches : (n : ℕ) (seen : Shared) → some (others n seen) ≡ obtain_oper (some seen)) where
  abbrev stored : Status → Shared
  stored status = message new_bytes new_length h m fits small status

  published_on :
      (t : Shared) → publish_on new_bytes c others m (some t) ≡ (ok true, some (stored idle))
  unfolding publish_on finish_publish await_reply
  published_on t =
      ap (finish_publish new_bytes c others) (store_lem new_bytes new_length h m fits small t)
      ∙ ap
          (λ seen.
            let (timeout, s') = await_reply others 10 seen.status seen in
            (ok (not timeout), some s'))
          (ap (operation_or (stored processing)) (attaches 11 (stored processing)))

  -- For a sound serializer, a message in its range, an encoding below 2 ^ 32 bytes and an
  -- existing operation object: if another publisher attaches while publish waits, so that it
  -- does obtainOper, publish returns true and leaves the same state as after a delivery, though
  -- no subscriber has made a pass; and a pass of a subscriber over that state calls nothing
  -- while it waits.
  pub attach_loses :
      (attached : Bool) (s : Shared)
      → (publish new_bytes c others attached m (some s) ≡ (ok true, some (stored idle)))
        × (processor_pass c true [] (stored idle) ≡ (ok none, stored idle))
  unfolding publish processor_pass receive_waited wait_while_idle
  attach_loses true s = (published_on s, refl)
  attach_loses false s = (published_on (record s { status = idle }), refl)
