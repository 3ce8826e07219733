-- ===== src/Transport/Delivery.antt =====
-- What goes into shared memory at one side comes out at the other.
use se_navi_common.Common.{
  ℕ, ◌%◌, ◌^◌, ◌<◌, ◌≡◌, ap, ◌∙◌, List, [], append-nil, sym, length, some, ok, arith,
}
use se_navi_common.Serialization.Stream.{Stream, stream_over, wrote}
use se_navi_common.Serialization.Serializer.{Serializer}
use se_navi_common.Serialization.Serializer.Soundness.{IsSound}
use se_navi_common.Serialization.Message.RoundTrip.{splice_whole}
use se_navi_common.Transport.{Status, Shared, from_stream, resize, put, put_at, store, load}

module _ (new_bytes : ℕ → List ℕ) (new_length : (n : ℕ) → length (new_bytes n) ≡ n) {A : Type 0}
    {Fits : A → Type 0} {encode : A → List ℕ} {c : Serializer A} (h : IsSound Fits encode c) (m : A)
    (fits : Fits m) (small : length (encode m) < 2 ^ 32) where
  count_lem : c.serialized_length m ≡ length (encode m)
  count_lem = omega (arith, h.measures m fits)

  -- The shared state with the message in its region.
  abbrev pub holding : Status → Shared
  holding status = record { status = status; buf_len = length (encode m); region = some (encode m) }

  abbrev fresh : Stream
  fresh = stream_over (new_bytes (length (encode m))) 0 (length (encode m) % 2 ^ 32)

  filled : (wrote (encode m) fresh).memory ≡ encode m
  unfolding wrote
  filled =
      splice_whole (encode m) (new_bytes (length (encode m)))
        (omega (arith, new_length (length (encode m))))

  pub store_lem : (s : Shared) → store new_bytes c m s ≡ (ok tt, holding s.status)
  unfolding store put_at put resize
  store_lem s =
      ap
        (λ k.
          put new_bytes c m k (new_bytes k) (record s { buf_len = k; region = some (new_bytes k) }))
        count_lem
      ∙ ap
          (λ r.
            (from_stream r.0, record s { buf_len = length (encode m); region = some r.1.memory }))
          ((h.sends m fits).sent fresh (omega arith))
      ∙ ap (λ l. (ok tt, record s { buf_len = length (encode m); region = some l })) filled

  pub load_lem : (status : Status) → load c (holding status) ≡ ok m
  unfolding load
  load_lem status =
      ap (λ r. from_stream r.0)
        ((h.receives m fits).received [] (stream_over (encode m) 0 (length (encode m) % 2 ^ 32))
          (sym (append-nil (encode m))) (omega arith))
