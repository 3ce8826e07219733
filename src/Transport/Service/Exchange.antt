-- ===== src/Transport/Service/Exchange.antt =====
-- A client and a server on one service.
use se_navi_common.Common.{ℕ, ◌^◌, ◌<◌, ◌≡◌, refl, ap, ◌∙◌, Bool, false, List, [], length, some, ok}
use se_navi_common.Serialization.Serializer.{Serializer}
use se_navi_common.Serialization.Serializer.Soundness.{IsSound}
use se_navi_common.Transport.{Status, idle, processing, Shared, await_reply, wait_while_idle}
use se_navi_common.Transport.Delivery.{store_lem, load_lem}
use se_navi_common.Transport.Service.{loaded, reply, call, served, serve, serve_waited, server_pass}

module _ (new_bytes : ℕ → List ℕ) (new_length : (n : ℕ) → length (new_bytes n) ≡ n) {A : Type 0}
    {Fits : A → Type 0} {encode : A → List ℕ} {c : Serializer A} (h : IsSound Fits encode c) (m : A)
    (fits : Fits m) (small : length (encode m) < 2 ^ 32) where
  abbrev message : Status → Shared
  message status = record { status = status; buf_len = length (encode m); region = some (encode m) }

  serves :
      (waits : List (Bool × Shared)) (s : Shared)
      → s.status ≡ processing
      → server_pass new_bytes c waits (some m) s ≡ (ok tt, message idle)
  unfolding server_pass serve_waited serve served wait_while_idle
  serves waits s e =
      ap (λ x. serve_waited new_bytes c (some m) s (wait_while_idle waits false x s)) e
      ∙ ap (served new_bytes c) (store_lem new_bytes new_length h m fits small s)

  abbrev server : ℕ → Shared → Shared
  server n seen = (server_pass new_bytes c [] (some m) seen).1

  -- For a sound serializer, an answer in its range, an encoding below 2 ^ 32 bytes and an
  -- existing operation object: if the server makes its pass in each wait, call returns true with
  -- the answer that the server's entry gave, and leaves the status IDLE, whatever status and
  -- region it found.
  pub call-server_pass : (s : Shared) → call c server (some s) ≡ (ok (some m), some (message idle))
  unfolding call reply await_reply
  call-server_pass s =
      ap (λ seen. reply c (await_reply server 10 seen.status seen))
        (ap (λ r. r.1) (serves [] (record s { status = processing }) refl))
      ∙ ap (λ r. (loaded r, some (message idle)))
          (load_lem new_bytes new_length h m fits small idle)
