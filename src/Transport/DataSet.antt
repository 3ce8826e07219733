-- ===== src/Transport/DataSet.antt =====
-- `Publisher` of Source/DataSet/Publisher.h and `Subscriber` of Source/DataSet/Subscriber.h.
pub mod Exchange
pub mod Attach
use se_navi_common.Common.{
  ℕ, Bool, true, false, not, ◌&&◌, List, Option, none, some, Result, ok, err,
}
use se_navi_common.Serialization.Serializer.{Serializer}
use se_navi_common.Transport.{
  Status, idle, processing, Shared, TransportError, store, load, await_reply, tries,
  wait_while_idle,
}

-- `obtainOper()` where the publisher has no operation yet. None: there is no operation object of
-- the right size; else the publisher resets its status.
abbrev pub obtain_oper : Option Shared → Option Shared
obtain_oper none = none
obtain_oper (some s) = some (record s { status = idle })

-- The operation that `publish` and `call` go on with, of a side that is attached or not. None: they
-- return false.
abbrev pub operation : Bool → Option Shared → Option Shared
operation true world = world
operation false world = obtain_oper world

module _ (new_bytes : ℕ → List ℕ) {A : Type 0} (c : Serializer A) where
  -- From `status = DATASET_PROCESSING` to the end of `publish`, if nothing was thrown before.
  finish_publish :
      (ℕ → Shared → Shared)
      → Result TransportError (Unit {0}) × Shared
      → Result TransportError Bool × Option Shared
  finish_publish others (err e, s) = (err e, some s)
  finish_publish others (ok u, s) =
      let (timeout, s') = await_reply others tries processing (record s { status = processing }) in
      (ok (not timeout), some s')

  publish_on :
      (ℕ → Shared → Shared) → A → Option Shared → Result TransportError Bool × Option Shared
  unfolding finish_publish
  publish_on others ds none = (ok false, none)
  publish_on others ds (some s) = finish_publish others (store new_bytes c ds s)

  -- `Publisher::publish`. The whole of it but the waits runs under the lock. Afterwards the
  -- publisher is attached where there is an operation.
  pub publish :
      (ℕ → Shared → Shared) → Bool → A → Option Shared → Result TransportError Bool × Option Shared
  unfolding publish_on
  publish others attached ds world = publish_on others ds (operation attached world)

module _ {A : Type 0} (c : Serializer A) where
  delivered : Result TransportError A → Shared → Result TransportError (Option A) × Shared
  delivered (ok ds) s = (ok (some ds), record s { status = idle })
  delivered (err e) s = (err e, s)

  received : Bool → Shared → Result TransportError (Option A) × Shared
  unfolding delivered
  received false s = (ok none, s)
  received true s = delivered (load c s) s

  -- `Subscriber::processor` behind its wait; the result is what `callback` is called with.
  pub receive : Bool → Bool → Shared → Result TransportError (Option A) × Shared
  unfolding received
  receive callback timeout s = received (callback && not timeout) s

  receive_waited :
      Bool → Shared → Option (Bool × Shared) → Result TransportError (Option A) × Shared
  unfolding receive
  receive_waited callback s none = (ok none, s)
  receive_waited callback s (some (timeout, seen)) = receive callback timeout seen

  -- One pass of the loop of `Subscriber::processor`, over the waits that it makes.
  pub processor_pass :
      Bool → List (Bool × Shared) → Shared → Result TransportError (Option A) × Shared
  unfolding receive_waited
  processor_pass callback waits s =
      receive_waited callback s (wait_while_idle waits false s.status s)
