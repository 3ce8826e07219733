-- ===== src/Callbacks/Examples.antt =====
-- A queue of four callbacks of Source/Callbacks/CallbackQueue.cpp, of which the third asks to be called again.
use se_navi_common.Common.{
  ℕ, ◌≡◌, refl, true, false, not, ◌==◌, if◌then◌else◌, List, [], ◌∷◌, ◌++◌, none, some, arith,
}
use se_navi_common.Callbacks.{
  CallResult, success, try_again, not_ready, CallbackInfo, State, call_available, call_one,
  call_all, call_one_cb, get_elem?, contains, erase_at, remove_by_id,
}
use se_navi_common.Callbacks.Running.{
  keep, runs, retried, idle_state, info_of, call_available_lem, ready_to_call,
}
use se_navi_common.Callbacks.Removal.{Removed, remove_by_id_lem}
use se_navi_common.Callbacks.Single.{is_unmarked, call_one_lem}

abbrev answer : ℕ → CallResult
answer cb = if cb == 3 then try_again else success

abbrev call_answer : ℕ → State → CallResult × State
call_answer cb s = (answer cb, s)

abbrev quiet : (cb : ℕ) (s : State) → call_answer cb s ≡ (answer cb, s)
quiet cb s = refl

abbrev first : CallbackInfo
first = info_of 1 10 true

abbrev others : List CallbackInfo
others = info_of 2 10 false ∷ info_of 3 20 false ∷ info_of 4 30 false ∷ []

abbrev ids : List ℕ
ids = 20 ∷ 10 ∷ []

abbrev queue : State
queue = idle_state call_answer answer quiet (first ∷ others) 5 ids []

call_available_example :
    call_available call_answer 4 none queue
    ≡ some (
        idle_state call_answer answer quiet
          (keep (retried call_answer answer quiet ids) (first ∷ others))
          5
          ids
          ([] ++ keep (runs ids) (first ∷ others)))
call_available_example =
    call_available_lem call_answer answer quiet 4 5 none first others ids [] (omega arith)
      (omega arith)

-- The second and the third are called, and the third stays.
available_run :
    call_available call_answer 4 none queue
    ≡ some (
        idle_state call_answer answer quiet
          (info_of 3 20 false ∷ [])
          5
          ids
          (info_of 2 10 false ∷ info_of 3 20 false ∷ []))
unfolding call_available call_all call_one_cb get_elem? contains erase_at
available_run = refl

call_one_example : call_one call_answer (λ cb. not (cb == 2)) none queue ≡ (
  not_ready,
  idle_state call_answer answer quiet
      ((keep is_unmarked (first ∷ info_of 2 10 false ∷ []) ++ (info_of 4 30 false ∷ []))
        ++ (info_of 3 20 false ∷ []))
      5
      ids
      ([] ++ (info_of 3 20 false ∷ [])),
)
unfolding contains
call_one_example =
    call_one_lem call_answer answer quiet (λ cb. not (cb == 2)) none
      (first ∷ info_of 2 10 false ∷ []) (info_of 3 20 false) (info_of 4 30 false ∷ []) 5 ids []
      (refl, (refl, tt)) refl (omega arith)

abbrev running : State
running = record {
  queue = record {
    callbacks = info_of 2 10 false ∷ info_of 3 20 false ∷ [];
    calling = 0;
    enabled = true;
    id_info = ids;
  };
  tls = ready_to_call (info_of 4 20 false ∷ info_of 5 10 false ∷ []);
  trace = [];
}

remove_by_id_example : Removed 10 running (remove_by_id 10 running)
unfolding contains
remove_by_id_example = remove_by_id_lem 10 running (refl, (refl, tt))
