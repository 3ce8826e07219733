-- ===== src/Callbacks/Running.antt =====
-- Runs of the queue whose callbacks leave the queue alone.
use se_navi_common.Common.{
  ℕ, zero, suc, ◌+◌, ◌-◌, ◌%◌, ◌^◌, ◌≤◌, ◌<◌, ◌≡◌, refl, ap, ap₂, ◌∙◌, Bool, true, false, not, ◌&&◌,
  if◌then◌else◌, List, [], ◌∷◌, ◌++◌, append_assoc, append-nil, length, Option, none, some, arith,
}
use se_navi_common.Callbacks.{
  CallResult, success, try_again, invalid, CallOneResult, called, not_ready, CallbackInfo, Queue,
  Tls, State, no_id, contains, get_elem?, erase_at, is_nil, finish_cb, invoke, run_cb, run_at,
  call_one_cb, counted, call_all, take_all, leave_all, run_available, waited_available,
  call_available,
}

-- The elements that pass a test, in their order.
unfoldable pub keep {ℓ} : {A : Type ℓ} → (A → Bool) → List A → List A
keep test [] = []
keep test (x ∷ xs) = (if test x then x ∷ [] else []) ++ keep test xs

-- A callback is called if its id is registered and it is not marked.
abbrev pub runs : List ℕ → CallbackInfo → Bool
runs ids info = contains info.removal_id ids && not info.marked_for_removal

abbrev pub asks_again : CallResult → Bool
asks_again try_again = true
asks_again success = false
asks_again invalid = false

-- This thread calls nothing, and has `callbacks` to call.
abbrev pub ready_to_call : List CallbackInfo → Tls
ready_to_call infos = record { calling_in_this_thread = no_id; callbacks = infos; cb_it = 0 }

-- A callback that is not marked, or that is.
abbrev pub info_of : ℕ → ℕ → Bool → CallbackInfo
info_of cb id marked = record { callback = cb; removal_id = id; marked_for_removal = marked }

finishes :
    (r : CallResult) (cb id : ℕ) (rest : List CallbackInfo) (q : Queue) (trace : List CallbackInfo)
    → finish_cb
        (info_of cb id false)
        r
        (record { queue = q; tls = ready_to_call rest; trace = trace })
      ≡ (
        if asks_again r then not_ready else called,
        record {
          queue = record q {
            callbacks = q.callbacks ++ (if asks_again r then info_of cb id false ∷ [] else []);
          };
          tls = ready_to_call rest;
          trace = trace;
        },
      )
finishes try_again cb id rest q trace = refl
finishes success cb id rest q trace = rw (append-nil q.callbacks)
finishes invalid cb id rest q trace = rw (append-nil q.callbacks)

module _ (call : ℕ → State → CallResult × State) (result : ℕ → CallResult)
    (quiet : (cb : ℕ) (s : State) → call cb s ≡ (result cb, s)) where
  abbrev pub retried : List ℕ → CallbackInfo → Bool
  retried ids info = runs ids info && asks_again (result info.callback)

  abbrev pub after_one : CallbackInfo → List CallbackInfo → Queue → List CallbackInfo → State
  after_one info rest q trace = record {
    queue = record q {
      callbacks = q.callbacks ++ (if retried q.id_info info then info ∷ [] else []);
    };
    tls = ready_to_call rest;
    trace = trace ++ (if runs q.id_info info then info ∷ [] else []);
  }

  abbrev before : CallbackInfo → List CallbackInfo → Queue → List CallbackInfo → State
  before info rest q trace = record { queue = q; tls = ready_to_call (info ∷ rest); trace = trace }

  step_of :
      (cb id : ℕ) (marked known : Bool) (rest : List CallbackInfo) (q : Queue)
      (trace : List CallbackInfo)
      → contains id q.id_info ≡ known
      → call_one_cb call (before (info_of cb id marked) rest q trace) ≡ (
        if retried q.id_info (info_of cb id marked) then not_ready else called,
        after_one (info_of cb id marked) rest q trace,
      )
  unfolding call_one_cb run_at run_cb invoke get_elem? erase_at
  step_of cb id true true rest q trace e = rw (e, append-nil q.callbacks, append-nil trace)
  step_of cb id false true rest q trace e =
      rw (e, quiet) (finishes (result cb) cb id rest q (trace ++ (info_of cb id false ∷ [])))
  step_of cb id marked false rest q trace e = rw (e, append-nil q.callbacks, append-nil trace)

  pub one_step :
      (info : CallbackInfo) (rest : List CallbackInfo) (q : Queue) (trace : List CallbackInfo)
      → call_one_cb call (before info rest q trace)
        ≡ (if retried q.id_info info then not_ready else called, after_one info rest q trace)
  one_step info rest q trace =
      step_of info.callback info.removal_id info.marked_for_removal
        (contains info.removal_id q.id_info) rest q trace refl

  count-result :
      (b : Bool) (count : ℕ) → counted (if b then not_ready else called) count ≡ count + 1
  count-result true count = refl
  count-result false count = refl

  -- What the loop leaves.
  abbrev after_all : List CallbackInfo → Queue → List CallbackInfo → State
  after_all infos q trace = record {
    queue = record q { callbacks = q.callbacks ++ keep (retried q.id_info) infos };
    tls = ready_to_call [];
    trace = trace ++ keep (runs q.id_info) infos;
  }

  pub call_all_lem :
      (infos : List CallbackInfo) (fuel count : ℕ) (q : Queue) (trace : List CallbackInfo)
      → length infos ≤ fuel
      → call_all call fuel count
          (is_nil infos)
          (record { queue = q; tls = ready_to_call infos; trace = trace })
        ≡ some (count + length infos, after_all infos q trace)
  unfolding call_all keep
  call_all_lem [] fuel count q trace h =
      rw (append-nil q.callbacks, append-nil trace)
        (ap (λ n. some (n, record { queue = q; tls = ready_to_call []; trace = trace }))
          (omega arith))
  call_all_lem (info ∷ infos) zero count q trace h = absurd (omega arith)
  call_all_lem (info ∷ infos) (suc fuel) count q trace h =
      let s = after_one info infos q trace in
      ap
        (λ (r : CallOneResult × State).
          call_all call fuel (counted r.0 count) (is_nil r.1.tls.callbacks) r.1)
        (one_step info infos q trace)
      ∙ ap (λ n. call_all call fuel n (is_nil infos) s)
          (count-result (retried q.id_info info) count)
      ∙ call_all_lem infos fuel (count + 1) s.queue s.trace (omega arith)
      ∙ ap₂
          (λ n (t : List CallbackInfo × List CallbackInfo). some (
            n,
            record { queue = record q { callbacks = t.0 }; tls = ready_to_call []; trace = t.1 },
          ))
          (omega arith)
          (ap₂ (λ cs ts. (cs, ts)) (append_assoc q.callbacks _ _) (append_assoc trace _ _))

  abbrev pub idle_state : List CallbackInfo → ℕ → List ℕ → List CallbackInfo → State
  idle_state infos calling ids trace = record {
    queue = record { callbacks = infos; calling = calling; enabled = true; id_info = ids };
    tls = ready_to_call [];
    trace = trace;
  }

  counts_back :
      (calling count : ℕ)
      → calling < 2 ^ 64
      → ((calling + count) % 2 ^ 64 + 2 ^ 64 - (0 + count) % 2 ^ 64) % 2 ^ 64 ≡ calling
  counts_back calling count h = omega arith

  -- If every call of a callback leaves the queue alone, callAvailable on an enabled queue with
  -- callbacks, less than 2 ^ 64 of them in progress, in a thread that calls none, ends with fuel
  -- for as many calls as there are callbacks. It calls, in their order, those whose id is
  -- registered and that are not marked; of these the ones that return TryAgain are what is left
  -- in the queue, in their order, and the number of callbacks in progress is what it was.
  pub call_available_lem :
      (fuel calling : ℕ) (wait : Option (State → State)) (info : CallbackInfo)
      (infos : List CallbackInfo) (ids : List ℕ) (trace : List CallbackInfo)
      → length (info ∷ infos) ≤ fuel
      → calling < 2 ^ 64
      → call_available call fuel wait (idle_state (info ∷ infos) calling ids trace)
        ≡ some (
            idle_state
              (keep (retried ids) (info ∷ infos))
              calling
              ids
              (trace ++ keep (runs ids) (info ∷ infos)))
  unfolding call_available run_available take_all leave_all
  call_available_lem fuel calling wait info infos ids trace h1 h2 =
      let infos' = info ∷ infos in
      let q : Queue = record {
        callbacks = [];
        calling = (calling + length infos') % 2 ^ 64;
        enabled = true;
        id_info = ids;
      } in
      ap (leave_all call) (call_all_lem infos' fuel 0 q trace h1)
      ∙ ap
          (λ n.
            some (idle_state (keep (retried ids) infos') n ids (trace ++ keep (runs ids) infos')))
          (counts_back calling (length infos') h2)

  -- A wait that ends without a callback.
  pub call_available_empty :
      (fuel calling : ℕ) (ids : List ℕ) (trace : List CallbackInfo)
      → call_available call fuel none (idle_state [] calling ids trace)
        ≡ some (idle_state [] calling ids trace)
  unfolding call_available waited_available
  call_available_empty fuel calling ids trace = refl
