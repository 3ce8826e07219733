-- ===== src/Transport/Service.antt =====
-- `Client` of Source/Service/Client.h and `Server` of Source/Service/Server.h.
pub mod Exchange
use se_navi_common.Common.{ℕ, Bool, true, false, List, Option, none, some, Result, ok, err}
use se_navi_common.Serialization.Serializer.{Serializer}
use se_navi_common.Transport.{
  idle, processing, Shared, TransportError, store, load, await_reply, tries, wait_while_idle,
}

abbrev loaded : {A : Type 0} → Result TransportError A → Result TransportError (Option A)
loaded (ok srv) = ok (some srv)
loaded (err e) = err e

module _ {A : Type 0} (c : Serializer A) where
  -- `call` behind its wait. The result is the answer; none: `call` returns false.
  reply : Bool × Shared → Result TransportError (Option A) × Option Shared
  reply (true, s) = (ok none, some s)
  reply (false, s) = (loaded (load c s), some s)

  -- `Client::call`. A client that is not attached looks for the operation first and leaves its
  -- status as it is.
  pub call :
      (ℕ → Shared → Shared) → Option Shared → Result TransportError (Option A) × Option Shared
  unfolding reply
  call others none = (ok none, none)
  call others (some s) =
      reply (await_reply others tries processing (record s { status = processing }))

module _ (new_bytes : ℕ → List ℕ) {A : Type 0} (c : Serializer A) where
  served : Result TransportError (Unit {0}) × Shared → Result TransportError (Unit {0}) × Shared
  served (ok u, s) = (ok u, record s { status = idle })
  served (err e, s) = (err e, s)

  -- `Server::processor` behind its wait. `srv` is what the service entry answers, none where
  -- there is no entry.
  pub serve : Option A → Shared → Result TransportError (Unit {0}) × Shared
  unfolding served
  serve none s = (ok tt, s)
  serve (some srv) s = served (store new_bytes c srv s)

  serve_waited :
      Option A → Shared → Option (Bool × Shared) → Result TransportError (Unit {0}) × Shared
  unfolding serve
  serve_waited srv s none = (ok tt, s)
  serve_waited srv s (some (timeout, seen)) = serve srv seen

  -- One pass of the loop of `Server::processor`.
  pub server_pass :
      List (Bool × Shared) → Option A → Shared → Result TransportError (Unit {0}) × Shared
  unfolding serve_waited
  server_pass waits srv s = serve_waited srv s (wait_while_idle waits false s.status s)
