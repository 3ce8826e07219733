-- ===== src/Callbacks/Single.antt =====
-- `callOne`, with callbacks that leave the queue alone.
use se_navi_common.Common.{
  ℕ, ◌+◌, ◌-◌, ◌%◌, ◌^◌, ◌<◌, ◌≡◌, refl, ap, sym, ◌∙◌, Bool, true, false, not, ◌&&◌, if◌then◌else◌,
  List, [], ◌∷◌, ◌++◌, append_assoc, append-nil, Option, none, some, arith, All,
}
use se_navi_common.Callbacks.{
  CallResult, called, not_ready, CallbackInfo, Queue, State, take_ready, call_one, run_one,
  take_one, leave, waited_one, wait_for, is_nil,
}
use se_navi_common.Callbacks.Running.{keep, runs, retried, after_one, idle_state, one_step, info_of}

abbrev pub is_unmarked : CallbackInfo → Bool
is_unmarked info = not info.marked_for_removal

-- A callback that `callOne` may take.
abbrev pub is_candidate : (ℕ → Bool) → CallbackInfo → Bool
is_candidate ready info = is_unmarked info && ready info.callback

-- The candidate at the head is taken, and another head is passed over.
takes_head :
    (ready : ℕ → Bool) (cb id : ℕ) (marked : Bool) (after : List CallbackInfo)
    → is_candidate ready (info_of cb id marked) ≡ true
    → take_ready ready (info_of cb id marked ∷ after) ≡ (some (info_of cb id marked), after)
unfolding take_ready
takes_head ready cb id true after h = cc h
takes_head ready cb id false after h = rw h refl

passes_head :
    (ready : ℕ → Bool) (cb id : ℕ) (marked : Bool) (rest : List CallbackInfo)
    (found : Option CallbackInfo) (left : List CallbackInfo)
    → is_candidate ready (info_of cb id marked) ≡ false
    → take_ready ready rest ≡ (found, left)
    → take_ready ready (info_of cb id marked ∷ rest)
      ≡ (found, keep is_unmarked (info_of cb id marked ∷ []) ++ left)
unfolding take_ready keep
passes_head ready cb id true rest found left h e = e
passes_head ready cb id false rest found left h e = rw (h, e) refl

keep_head :
    (test : CallbackInfo → Bool) (info : CallbackInfo) (xs ys : List CallbackInfo)
    → keep test (info ∷ []) ++ (keep test xs ++ ys) ≡ keep test (info ∷ xs) ++ ys
unfolding keep
keep_head test info xs ys =
    let head : List CallbackInfo = if test info then info ∷ [] else [] in
    ap (λ h. h ++ (keep test xs ++ ys)) (append-nil head)
    ∙ sym (append_assoc head (keep test xs) ys)

pub found_ready :
    (ready : ℕ → Bool) (before : List CallbackInfo) (info : CallbackInfo)
    (after : List CallbackInfo)
    → All (λ i. is_candidate ready i ≡ false) before
    → is_candidate ready info ≡ true
    → take_ready ready (before ++ (info ∷ after)) ≡ (some info, keep is_unmarked before ++ after)
unfolding keep
found_ready ready [] info after all h =
    takes_head ready info.callback info.removal_id info.marked_for_removal after h
found_ready ready (x ∷ before) info after all h =
    passes_head ready x.callback x.removal_id x.marked_for_removal (before ++ (info ∷ after))
      (some info) (keep is_unmarked before ++ after) all.0
      (found_ready ready before info after all.1 h)
    ∙ ap (λ l. (some info, l)) (keep_head is_unmarked x before after)

pub nothing_ready :
    (ready : ℕ → Bool) (infos : List CallbackInfo)
    → All (λ i. is_candidate ready i ≡ false) infos
    → take_ready ready infos ≡ (none, keep is_unmarked infos)
unfolding keep take_ready
nothing_ready ready [] all = refl
nothing_ready ready (x ∷ infos) all =
    passes_head ready x.callback x.removal_id x.marked_for_removal infos none
      (keep is_unmarked infos) all.0 (nothing_ready ready infos all.1)
    ∙ ap (λ head. (none, head ++ keep is_unmarked infos))
        (append-nil (if is_unmarked x then x ∷ [] else []))

is_nil-append :
    (before : List CallbackInfo) (info : CallbackInfo) (after : List CallbackInfo)
    → is_nil (before ++ (info ∷ after)) ≡ false
is_nil-append [] info after = refl
is_nil-append (x ∷ before) info after = refl

module _ (call : ℕ → State → CallResult × State) (result : ℕ → CallResult)
    (quiet : (cb : ℕ) (s : State) → call cb s ≡ (result cb, s)) where
  counts_back :
      (calling : ℕ) → calling < 2 ^ 64 → ((calling + 1) % 2 ^ 64 + 2 ^ 64 - 1) % 2 ^ 64 ≡ calling
  counts_back calling h = omega arith

  leave_lem :
      (b : Bool) (s : State)
      → leave call (if b then not_ready else called, s) ≡ (
        if b then not_ready else called,
        record s { queue = record s.queue { calling = (s.queue.calling + 2 ^ 64 - 1) % 2 ^ 64 } },
      )
  unfolding leave
  leave_lem true s = refl
  leave_lem false s = refl

  take_one_lem :
      (info : CallbackInfo) (left infos : List CallbackInfo) (calling : ℕ) (ids : List ℕ)
      (trace : List CallbackInfo)
      → calling < 2 ^ 64
      → take_one call (some info, left) (idle_state call result quiet infos calling ids trace) ≡ (
        if retried call result quiet ids info then not_ready else called,
        idle_state call result quiet
            (left ++ (if retried call result quiet ids info then info ∷ [] else []))
            calling
            ids
            (trace ++ (if runs ids info then info ∷ [] else [])),
      )
  unfolding take_one
  take_one_lem info left infos calling ids trace c =
      let q : Queue = record {
        callbacks = left;
        calling = (calling + 1) % 2 ^ 64;
        enabled = true;
        id_info = ids;
      } in
      let again = retried call result quiet ids info in
      ap (leave call) (one_step call result quiet info [] q trace)
      ∙ leave_lem again (after_one call result quiet info [] q trace)
      ∙ ap
          (λ n. (
            if again then not_ready else called,
            idle_state call result quiet (left ++ (if again then info ∷ [] else [])) n ids
                (trace ++ (if runs ids info then info ∷ [] else [])),
          ))
          (counts_back calling c)

  -- If every call of a callback leaves the queue alone, callOne on an enabled queue, with less
  -- than 2 ^ 64 callbacks in progress, in a thread that calls none, takes the first callback
  -- that is ready and not marked, and calls it if its id is registered. The callbacks before it
  -- stay but for the marked ones, those behind it stay, and it goes to the end if it was called
  -- and returned TryAgain. The number of callbacks in progress is what it was.
  pub call_one_lem :
      (ready : ℕ → Bool) (wait : Option (State → State)) (before : List CallbackInfo)
      (info : CallbackInfo) (after : List CallbackInfo) (calling : ℕ) (ids : List ℕ)
      (trace : List CallbackInfo)
      → All (λ i. is_candidate ready i ≡ false) before
      → is_candidate ready info ≡ true
      → calling < 2 ^ 64
      → call_one call ready wait
          (idle_state call result quiet (before ++ (info ∷ after)) calling ids trace)
        ≡ (
          if retried call result quiet ids info then not_ready else called,
          idle_state call result quiet
              ((keep is_unmarked before ++ after)
                ++ (if retried call result quiet ids info then info ∷ [] else []))
              calling
              ids
              (trace ++ (if runs ids info then info ∷ [] else [])),
        )
  unfolding call_one run_one
  call_one_lem ready wait before info after calling ids trace all h c =
      let s = idle_state call result quiet (before ++ (info ∷ after)) calling ids trace in
      ap (λ b. if b then waited_one call ready (wait_for wait s) else run_one call ready s)
        (is_nil-append before info after)
      ∙ ap (λ r. take_one call r s) (found_ready ready before info after all h)
      ∙ take_one_lem info (keep is_unmarked before ++ after) (before ++ (info ∷ after)) calling ids
          trace c
