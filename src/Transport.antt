-- ===== src/Transport.antt =====
-- The two exchanges over shared memory: Source/DataSet (`Publisher`, `Subscriber`) and
-- Source/Service (`Client`, `Server`). The state of both is the operation record and the region of
-- the message.
pub mod DataSet
pub mod Service
pub mod Waiting
pub mod Delivery
mod Examples
use se_navi_common.Common.{
  ℕ, zero, suc, ◌%◌, ◌^◌, Bool, true, false, List, [], ◌∷◌, Option, none, some, Result, ok, err,
  and_then,
}
use se_navi_common.Serialization.Stream.{StreamError, stream_over}
use se_navi_common.Serialization.Serializer.{Serializer}

-- DATASET_IDLE and DATASET_PROCESSING, SERVICE_IDLE and SERVICE_PROCESSING.
pub data Status : Type 0 where
  idle : Status
  processing : Status

-- `DataSetOperation` and `ServiceOperation` with the bytes of the region beside them. There is no
-- region before the first message.
pub record Shared : Type 0 where
  pub status : Status
  pub buf_len : ℕ
  pub region : Option (List ℕ)

-- `interprocess_exception`, for a region that does not exist, and a `StreamOverrunException`.
pub data TransportError : Type 0 where
  no_region : TransportError
  stream_error : StreamError → TransportError

abbrev pub from_stream : {A : Type 0} → Result StreamError A → Result TransportError A
from_stream (ok a) = ok a
from_stream (err e) = err (stream_error e)

-- `getSrv()`: the mapped bytes of the region.
abbrev pub get_srv : Option (List ℕ) → Result TransportError (List ℕ)
get_srv none = err no_region
get_srv (some bytes) = ok bytes

-- `new_bytes n` is what a region of `n` bytes holds when it is made.
module _ (new_bytes : ℕ → List ℕ) where
  -- `resize(size)`: the old region is removed and a new one made.
  pub resize : ℕ → Shared → Shared
  resize size s = record s { region = some (new_bytes size); buf_len = size }

  module _ {A : Type 0} (c : Serializer A) where
    -- `serialize` into the mapped region. A throw leaves what was written before it.
    put : A → ℕ → List ℕ → Shared → Result TransportError (Unit {0}) × Shared
    put message count addr s =
        let (r, stream) = c.write message (stream_over addr 0 (count % 2 ^ 32)) in
        (from_stream r, record s { region = some stream.memory })

    put_at : A → Shared → Result TransportError (List ℕ) → Result TransportError (Unit {0}) × Shared
    unfolding put
    put_at message s (ok addr) = put message s.buf_len addr s
    put_at message s (err e) = (err e, s)

    -- From `buf_len = serializationLength(ds)` to `serialize(stream, ds)`.
    pub store : A → Shared → Result TransportError (Unit {0}) × Shared
    unfolding resize put_at
    store message s =
        let count = c.serialized_length message in
        let made = resize count (record s { buf_len = count }) in
        put_at message made (get_srv made.region)

-- `deserialize` from the mapped region.
pub load : {A : Type 0} → Serializer A → Shared → Result TransportError A
load c s =
    and_then (get_srv s.region)
      (λ addr. from_stream ((c.read (stream_over addr 0 (s.buf_len % 2 ^ 32))).0))

-- `while(status == PROCESSING) { timed_wait; if(try_times-- < 0) { timeout = true; break; } }` with
-- `try_times + 1` for the first argument. The lock is free during a wait: `others n` is what the
-- other side has done in the wait with `n` left. The result is `timeout`.
unfoldable pub await_reply : (ℕ → Shared → Shared) → ℕ → Status → Shared → Bool × Shared
await_reply others n idle s = (false, s)
await_reply others zero processing s = (true, others zero s)
await_reply others (suc n) processing s =
    await_reply others n (others (suc n) s).status (others (suc n) s)

-- `int try_times = 10;`
abbrev pub tries : ℕ
tries = 11

-- `while(status == IDLE) timeout = req_cond.timed_wait(...)`: each wait returns with a flag, true
-- where it was notified, and a new state. None: still waiting when these waits are over.
unfoldable pub wait_while_idle :
    List (Bool × Shared) → Bool → Status → Shared → Option (Bool × Shared)
wait_while_idle waits timeout processing s = some (timeout, s)
wait_while_idle [] timeout idle s = none
wait_while_idle ((flag, seen) ∷ waits) timeout idle s = wait_while_idle waits flag seen.status seen
