-- ===== src/Callbacks.antt =====
-- `CallbackQueue` of Source/Callbacks/CallbackQueue.{h,cpp}, with the state of one thread that calls
-- callbacks from it. Its operations are taken one after the other: the locks are not in the state.
pub mod Running
pub mod Removal
pub mod Single
mod Examples
use se_navi_common.Common.{
  ℕ, zero, suc, ◌+◌, ◌-◌, ◌%◌, ◌^◌, Bool, true, false, not, ◌&&◌, ◌||◌, ◌==◌, if◌then◌else◌, List,
  [], ◌∷◌, ◌++◌, Option, none, some, length,
}

-- `CallbackInterface::CallResult`.
pub data CallResult : Type 0 where
  success try_again invalid : CallResult

-- `CallOneResult`, whose TryAgain is `not_ready` here.
pub data CallOneResult : Type 0 where
  called not_ready disabled empty : CallOneResult

-- A callback object is named by a number.
pub record CallbackInfo : Type 0 where
  pub callback : ℕ
  pub removal_id : ℕ
  pub marked_for_removal : Bool

-- `id_info` has the keys of `id_info_`; the value at a key has that key for its `id`.
pub record Queue : Type 0 where
  pub callbacks : List CallbackInfo
  pub calling : ℕ
  pub enabled : Bool
  pub id_info : List ℕ

-- `cb_it` is an index into `callbacks`.
pub record Tls : Type 0 where
  pub calling_in_this_thread : ℕ
  pub callbacks : List CallbackInfo
  pub cb_it : ℕ

-- `trace` has what was called, in its order; it is no part of the code.
pub record State : Type 0 where
  pub queue : Queue
  pub tls : Tls
  pub trace : List CallbackInfo

-- `0xffffffffffffffffULL`: no callback is being called.
abbrev pub no_id : ℕ
no_id = 18_446_744_073_709_551_615

unfoldable pub contains : ℕ → List ℕ → Bool
contains id [] = false
contains id (x ∷ xs) = x == id || contains id xs

unfoldable pub get_elem? {ℓ} : {A : Type ℓ} → List A → ℕ → Option A
get_elem? [] i = none
get_elem? (x ∷ xs) zero = some x
get_elem? (x ∷ xs) (suc i) = get_elem? xs i

unfoldable pub erase_at {ℓ} : {A : Type ℓ} → ℕ → List A → List A
erase_at i [] = []
erase_at zero (x ∷ xs) = xs
erase_at (suc i) (x ∷ xs) = x ∷ erase_at i xs

abbrev pub is_nil {ℓ} : {A : Type ℓ} → List A → Bool
is_nil [] = true
is_nil (x ∷ xs) = false

-- `isEmpty()`.
pub is_empty : Queue → Bool
is_empty q = is_nil q.callbacks && q.calling == 0

pub enable : Queue → Queue
enable q = record q { enabled = true }

pub disable : Queue → Queue
disable q = record q { enabled = false }

pub clear : Queue → Queue
clear q = record q { callbacks = [] }

-- `addCallback`.
unfoldable pub add_callback : ℕ → ℕ → Queue → Queue
add_callback callback removal_id q =
    let info : CallbackInfo = record {
      callback = callback;
      removal_id = removal_id;
      marked_for_removal = false;
    } in
    if q.enabled
    then record q {
      callbacks = q.callbacks ++ (info ∷ []);
      id_info = if contains removal_id q.id_info then q.id_info else removal_id ∷ q.id_info;
    }
    else q

-- `id_info_.erase(removal_id)`.
unfoldable pub erase_id : ℕ → List ℕ → List ℕ
erase_id id [] = []
erase_id id (x ∷ xs) = let rest = erase_id id xs in if x == id then rest else x ∷ rest

-- The loop of `removeByID` over `callbacks_`.
unfoldable pub erase_callbacks : ℕ → List CallbackInfo → List CallbackInfo
erase_callbacks id [] = []
erase_callbacks id (info ∷ infos) =
    let rest = erase_callbacks id infos in if info.removal_id == id then rest else info ∷ rest

-- Its loop over the callbacks of this thread.
unfoldable pub mark_callbacks : ℕ → List CallbackInfo → List CallbackInfo
mark_callbacks id [] = []
mark_callbacks id (info ∷ infos) =
    (if info.removal_id == id then record info { marked_for_removal = true } else info)
    ∷ mark_callbacks id infos

-- `removeByID`.
unfoldable pub remove_by_id : ℕ → State → State
remove_by_id id s =
    if contains id s.queue.id_info
    then record s {
      queue = record s.queue {
        callbacks = erase_callbacks id s.queue.callbacks;
        id_info = erase_id id s.queue.id_info;
      };
      tls = record s.tls { callbacks = mark_callbacks id s.tls.callbacks };
    }
    else s

-- The loop of `callOne`: marked callbacks are erased, the first one that is ready is taken out.
unfoldable pub take_ready : (ℕ → Bool) → List CallbackInfo → Option CallbackInfo × List CallbackInfo
take_ready ready [] = (none, [])
take_ready ready (info ∷ infos) =
    let (found, rest) = take_ready ready infos in
    if info.marked_for_removal
    then (found, rest)
    else if ready info.callback
    then (some info, infos)
    else (found, info ∷ rest)

-- `callbacks.erase(cb_it)`, which leaves `cb_it` at the next callback.
abbrev pub erased : State → State
erased s = record s { tls = record s.tls { callbacks = erase_at s.tls.cb_it s.tls.callbacks } }

-- A callback that was called and asks to be called again goes back to the shared queue.
abbrev pub finish_cb : CallbackInfo → CallResult → State → CallOneResult × State
finish_cb info try_again s = if info.marked_for_removal then (called, s) else (
  not_ready,
  record s { queue = record s.queue { callbacks = s.queue.callbacks ++ (info ∷ []) } },
)
finish_cb info success s = (called, s)
finish_cb info invalid s = (called, s)

abbrev pub entering : ℕ → State → State
entering id s = record s { tls = record s.tls { calling_in_this_thread = id } }

-- `if(callOneCB(tls) != Empty) ++called;`
abbrev pub counted : CallOneResult → ℕ → ℕ
counted empty count = count
counted called count = count + 1
counted not_ready count = count + 1
counted disabled count = count + 1

-- What other threads do in the timed wait; none: the timeout is zero, and there is no wait.
abbrev pub wait_for : Option (State → State) → State → State
wait_for none s = s
wait_for (some others) s = others s

-- What a call of a callback returns and does.
module _ (call : ℕ → State → CallResult × State) where
  -- `cb->call()`, where the callback is not marked.
  invoke : CallbackInfo → State → CallResult × State
  invoke info s =
      if info.marked_for_removal
      then (invalid, s)
      else call info.callback (record s { trace = s.trace ++ (info ∷ []) })

  -- The part of `callOneCB` under the shared lock of the id.
  run_cb : CallbackInfo → State → CallOneResult × State
  unfolding invoke
  run_cb info s =
      let last_calling = s.tls.calling_in_this_thread in
      let (result, s') = invoke info (erased (entering info.removal_id s)) in
      finish_cb info result (entering last_calling s')

  run_at : Option CallbackInfo → State → CallOneResult × State
  unfolding run_cb
  run_at none s = (empty, s)
  run_at (some info) s =
      if contains info.removal_id s.queue.id_info then run_cb info s else (called, erased s)

  -- `callOneCB`.
  pub call_one_cb : State → CallOneResult × State
  unfolding run_at
  call_one_cb s =
      let it = if s.tls.calling_in_this_thread == no_id then 0 else s.tls.cb_it in
      run_at (get_elem? s.tls.callbacks it) (record s { tls = record s.tls { cb_it = it } })

  -- `--calling_`, where the result is not Empty.
  leave : CallOneResult × State → CallOneResult × State
  leave (empty, s) = (empty, s)
  leave (called, s) = (
    called,
    record s { queue = record s.queue { calling = (s.queue.calling + 2 ^ 64 - 1) % 2 ^ 64 } },
  )
  leave (not_ready, s) = (
    not_ready,
    record s { queue = record s.queue { calling = (s.queue.calling + 2 ^ 64 - 1) % 2 ^ 64 } },
  )
  leave (disabled, s) = (
    disabled,
    record s { queue = record s.queue { calling = (s.queue.calling + 2 ^ 64 - 1) % 2 ^ 64 } },
  )

  -- `callOne` from its loop on.
  take_one : Option CallbackInfo × List CallbackInfo → State → CallOneResult × State
  unfolding leave
  take_one (none, rest) s = (not_ready, record s { queue = record s.queue { callbacks = rest } })
  take_one (some info, rest) s = leave (
      call_one_cb (record s {
        queue = record s.queue { callbacks = rest; calling = (s.queue.calling + 1) % 2 ^ 64 };
        tls = record s.tls {
          callbacks = s.tls.callbacks ++ (info ∷ []);
          cb_it = if is_nil s.tls.callbacks then 0 else s.tls.cb_it;
        };
      }))

  -- `while(!tls->callbacks.empty())`; the flag is the test. None: out of fuel.
  unfoldable pub call_all : ℕ → ℕ → Bool → State → Option (ℕ × State)
  call_all fuel count true s = some (count, s)
  call_all zero count false s = none
  call_all (suc fuel) count false s =
      let (result, s') = call_one_cb s in
      call_all fuel (counted result count) (is_nil s'.tls.callbacks) s'

  -- `callAvailable` behind its wait, in its three steps.
  pub take_all : State → State
  take_all s =
      let callbacks = s.tls.callbacks ++ s.queue.callbacks in
      record s {
        queue = record s.queue {
          callbacks = [];
          calling = (s.queue.calling + length callbacks) % 2 ^ 64;
        };
        tls = record s.tls {
          callbacks = callbacks;
          cb_it = if is_nil s.tls.callbacks then 0 else s.tls.cb_it;
        };
      }

  leave_all : Option (ℕ × State) → Option State
  leave_all none = none
  leave_all (some (count, s)) = some (record s {
    queue = record s.queue { calling = (s.queue.calling + 2 ^ 64 - count % 2 ^ 64) % 2 ^ 64 };
  })

  pub run_available : ℕ → State → Option State
  unfolding take_all leave_all
  run_available fuel s =
      let taken = take_all s in leave_all (call_all fuel 0 (is_nil taken.tls.callbacks) taken)

  unfoldable pub waited_available : ℕ → State → Option State
  unfolding run_available
  waited_available fuel s =
      if is_nil s.queue.callbacks || not s.queue.enabled then some s else run_available fuel s

  -- `callAvailable`, with fuel for its loop.
  pub call_available : ℕ → Option (State → State) → State → Option State
  unfolding waited_available
  call_available fuel wait s =
      if not s.queue.enabled
      then some s
      else if is_nil s.queue.callbacks
      then waited_available fuel (wait_for wait s)
      else run_available fuel s

  -- `callOne` behind its wait.
  pub run_one : (ℕ → Bool) → State → CallOneResult × State
  unfolding take_one
  run_one ready s = take_one (take_ready ready s.queue.callbacks) s

  waited_one : (ℕ → Bool) → State → CallOneResult × State
  unfolding run_one
  waited_one ready s =
      if is_nil s.queue.callbacks
      then (empty, s)
      else if not s.queue.enabled
      then (disabled, s)
      else run_one ready s

  -- `callOne`; `ready` is what the callbacks' `ready()` returns.
  pub call_one : (ℕ → Bool) → Option (State → State) → State → CallOneResult × State
  unfolding waited_one
  call_one ready wait s =
      if not s.queue.enabled
      then (disabled, s)
      else if is_nil s.queue.callbacks
      then waited_one ready (wait_for wait s)
      else run_one ready s
