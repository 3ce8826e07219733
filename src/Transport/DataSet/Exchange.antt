-- ===== src/Transport/DataSet/Exchange.antt =====
-- A publisher and a subscriber on one data set.
use se_navi_common.Common.{
  ℕ, ◌^◌, ◌<◌, ◌≡◌, ap, ◌∙◌, Bool, true, false, not, List, [], ◌∷◌, length, none, some, ok,
}
use se_navi_common.Serialization.Serializer.Soundness.{IsSound}
use se_navi_common.Serialization.Serializer.{Serializer}
use se_navi_common.Transport.{Status, idle, processing, Shared, await_reply, wait_while_idle}
use se_navi_common.Transport.Delivery.{store_lem, load_lem}
use se_navi_common.Transport.DataSet.{
  finish_publish, publish_on, publish, delivered, received, receive, receive_waited, processor_pass,
}

module _ (new_bytes : ℕ → List ℕ) (new_length : (n : ℕ) → length (new_bytes n) ≡ n) {A : Type 0}
    {Fits : A → Type 0} {encode : A → List ℕ} {c : Serializer A} (h : IsSound Fits encode c) (m : A)
    (fits : Fits m) (small : length (encode m) < 2 ^ 32) where
  abbrev pub message : Status → Shared
  message status = record { status = status; buf_len = length (encode m); region = some (encode m) }

  delivers :
      (waits : List (Bool × Shared))
      → processor_pass c true waits (message processing) ≡ (ok (some m), message idle)
  unfolding processor_pass receive_waited receive received wait_while_idle delivered
  delivers waits =
      ap (λ r. delivered c r (message processing))
        (load_lem new_bytes new_length h m fits small processing)

  abbrev subscriber : ℕ → Shared → Shared
  subscriber n seen = (processor_pass c true [] seen).1

  published_on :
      (t : Shared) → publish_on new_bytes c subscriber m (some t) ≡ (ok true, some (message idle))
  unfolding publish_on finish_publish await_reply
  published_on t =
      ap (finish_publish new_bytes c subscriber) (store_lem new_bytes new_length h m fits small t)
      ∙ ap
          (λ seen.
            let (timeout, s') = await_reply subscriber 10 seen.status seen in
            (ok (not timeout), some s'))
          (ap (λ r. r.1) (delivers []))

  -- For a sound serializer, a message in its range, an encoding below 2 ^ 32 bytes and an
  -- existing operation object: if a subscriber with a callback makes its pass in each wait,
  -- publish returns true and leaves the status IDLE and the encoding in the region; and a pass
  -- of the subscriber over the published state calls the callback with the message and sets the
  -- status to IDLE. This holds whether the publisher was attached before or not, and whatever
  -- the region held.
  pub publish-processor_pass :
      (attached : Bool) (s : Shared) (waits : List (Bool × Shared))
      → (publish new_bytes c subscriber attached m (some s) ≡ (ok true, some (message idle)))
        × (processor_pass c true waits (message processing) ≡ (ok (some m), message idle))
  unfolding publish
  publish-processor_pass true s waits = (published_on s, delivers waits)
  publish-processor_pass false s waits = (published_on (record s { status = idle }), delivers waits)

  -- For a sound serializer, a message in its range and an encoding below 2 ^ 32 bytes: a pass of
  -- a subscriber that waits in the status IDLE and is notified of the published state calls
  -- nothing and leaves that state, since timed_wait returns true to a notified wait and the pass
  -- takes that for a timeout; its next pass calls the callback with the message.
  pub notified_pass :
      (s : Shared) (waits : List (Bool × Shared))
      → s.status ≡ idle
      → (processor_pass c true ((true, message processing) ∷ waits) s
          ≡ (ok none, message processing))
        × (processor_pass c true [] (message processing) ≡ (ok (some m), message idle))
  unfolding processor_pass receive_waited receive received wait_while_idle
  notified_pass s waits e = (rw e, delivers [])
