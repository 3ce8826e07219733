-- ===== src/Timer/Queueing.antt =====
-- The timer thread and the callback queue together: `addCallback` of each callback of a pass
-- (Source/Timer/TimerManager.h), then `callAvailable` (Source/Callbacks/CallbackQueue.cpp).
use se_navi_common.Common.{
  ℕ, suc, ◌^◌, ◌≤◌, ◌<◌, ◌≡◌, refl, ap, ap₂, sym, ◌∙◌, Bool, true, false, ◌||◌, ◌==◌, ==_refl,
  ==_iff, Bool-cases, inl, inr, if◌then◌else◌, List, [], ◌∷◌, ◌++◌, map, length-append,
  append_assoc, append-nil, length, Option, none, some, ok, arith,
}
use se_navi_common.Time.{Time}
use se_navi_common.Time.Stamp
use se_navi_common.Timer.{TimerInfo, QueueCallback, Manager, find_timer}
use se_navi_common.Timer.Thread.{Pass, thread_pass}
use se_navi_common.Timer.Order.{Ordered}
use se_navi_common.Timer.Dispatch.{Due, Waits, Known, callbacks_of, found_callback, thread_pass_lem}
use se_navi_common.Callbacks.{
  CallResult, CallbackInfo, Queue, State, add_callback, contains, call_available,
}
use se_navi_common.Callbacks.Running.{
  keep, runs, asks_again, retried, idle_state, info_of, ready_to_call, call_available_lem,
  call_available_empty,
}

-- The entry of a timer's callback in the queue: its id is that of the timer's object.
abbrev pub entry_of : (QueueCallback → ℕ) → QueueCallback → CallbackInfo
entry_of name e = info_of (name e) e.timer false

-- The callbacks of a pass are added one after the other.
unfoldable pub push : (QueueCallback → ℕ) → List QueueCallback → Queue → Queue
push name [] q = q
push name (e ∷ es) q = push name es (add_callback (name e) e.timer q)

unfoldable pub register : List QueueCallback → List ℕ → List ℕ
register [] ids = ids
register (e ∷ es) ids = register es (if contains e.timer ids then ids else e.timer ∷ ids)

abbrev pub enabled_queue : List CallbackInfo → ℕ → List ℕ → Queue
enabled_queue infos calling ids = record {
  callbacks = infos;
  calling = calling;
  enabled = true;
  id_info = ids;
}

push_lem :
    (name : QueueCallback → ℕ) (es : List QueueCallback) (infos : List CallbackInfo) (calling : ℕ)
    (ids : List ℕ)
    → push name es (enabled_queue infos calling ids)
      ≡ enabled_queue (infos ++ map (entry_of name) es) calling (register es ids)
unfolding push register add_callback
push_lem name [] infos calling ids = ap (λ l. enabled_queue l calling ids) (sym (append-nil infos))
push_lem name (e ∷ es) infos calling ids =
    push_lem name es (infos ++ (entry_of name e ∷ [])) calling
      (if contains e.timer ids then ids else e.timer ∷ ids)
    ∙ ap
        (λ l.
          enabled_queue l calling
            (register es (if contains e.timer ids then ids else e.timer ∷ ids)))
        (append_assoc infos (entry_of name e ∷ []) (map (entry_of name) es))

or_true : (b : Bool) → b || true ≡ true
or_true true = refl
or_true false = refl

registered_one :
    (j k : ℕ) (ids : List ℕ)
    → contains j ids ≡ true
    → contains j (if contains k ids then ids else k ∷ ids) ≡ true
unfolding contains
registered_one j k ids h = elim (Bool-cases (contains k ids)) [
  | inl e ↦ rw e h
  | inr e ↦ rw (e, h) (or_true (k == j))
]

registers_it : (k : ℕ) (ids : List ℕ) → contains k (if contains k ids then ids else k ∷ ids) ≡ true
unfolding contains
registers_it k ids = elim (Bool-cases (contains k ids)) [
  | inl e ↦ rw (e, e) refl
  | inr e ↦ rw (e, ==_refl k) refl
]

still_registered :
    (j : ℕ) (es : List QueueCallback) (ids : List ℕ)
    → contains j ids ≡ true
    → contains j (register es ids) ≡ true
unfolding register
still_registered j [] ids h = h
still_registered j (e ∷ es) ids h = still_registered j es _ (registered_one j e.timer ids h)

-- All of them are called.
all_run :
    (name : QueueCallback → ℕ) (es : List QueueCallback) (ids : List ℕ)
    → keep (runs (register es ids)) (map (entry_of name) es) ≡ map (entry_of name) es
unfolding keep register
all_run name [] ids = refl
all_run name (e ∷ es) ids =
    rw (still_registered e.timer es _ (registers_it e.timer ids))
      (ap (λ l. entry_of name e ∷ l) (all_run name es _))

-- The timers whose callbacks a pass has made, as the queue knows them.
abbrev pub timers_of : List QueueCallback → List ℕ
timers_of [] = []
timers_of (e ∷ es) = e.timer ∷ timers_of es

abbrev Has : ℕ → Option TimerInfo → Type 0
Has h none = Unit
Has h (some info) = info.handle ≡ h

find_timer-Has : (h : ℕ) (timers : List TimerInfo) → Has h (find_timer h timers)
unfolding find_timer
find_timer-Has h [] = tt
find_timer-Has h (info ∷ infos) = elim (Bool-cases (info.handle == h)) [
  | inl t ↦ rw t ((==_iff info.handle h).0 t)
  | inr f ↦ rw f (find_timer-Has h infos)
]

abbrev timer_or : ℕ → Option QueueCallback → ℕ
timer_or h none = h
timer_or h (some e) = e.timer

found_handle :
    (h : ℕ) (found : Option TimerInfo) → Has h found → timer_or h (found_callback found) ≡ h
found_handle h none q = refl
found_handle h (some info) q = q

abbrev head_or : Option QueueCallback → List (Option QueueCallback) → Option QueueCallback
head_or d [] = d
head_or d (o ∷ os) = o

abbrev tail : List (Option QueueCallback) → List (Option QueueCallback)
tail [] = []
tail (o ∷ os) = os

pub found_all :
    (timers : List TimerInfo) (hs : List ℕ) (es : List QueueCallback)
    → map some es ≡ callbacks_of timers hs
    → timers_of es ≡ hs
found_all timers [] [] q = refl
found_all timers [] (e ∷ es) q = cc q
found_all timers (h ∷ hs) [] q = cc q
found_all timers (h ∷ hs) (e ∷ es) q =
    ap₂ (λ x xs. x ∷ xs)
      (ap (λ l. timer_or h (head_or none l)) q
        ∙ found_handle h (find_timer h timers) (find_timer-Has h timers))
      (found_all timers hs es (ap tail q))

length-timers_of : (es : List QueueCallback) → length (timers_of es) ≡ length es
length-timers_of [] = refl
length-timers_of (e ∷ es) = ap suc (length-timers_of es)

taken_fits :
    (es : List QueueCallback) (taken waiting rest : List ℕ)
    → timers_of es ≡ taken
    → waiting ≡ taken ++ rest
    → length es ≤ length waiting
taken_fits es taken waiting rest t w =
    omega (arith, length-timers_of es, ap length t, ap length w ∙ length-append taken rest)

length-map : {A B : Type 0} (f : A → B) (xs : List A) → length (map f xs) ≡ length xs
length-map f [] = refl
length-map f (x ∷ xs) = ap suc (length-map f xs)

none_left :
    (call : ℕ → State → CallResult × State) (result : ℕ → CallResult)
    (quiet : (cb : ℕ) (s : State) → call cb s ≡ (result cb, s)) (ids : List ℕ)
    → ((cb : ℕ) → asks_again (result cb) ≡ false)
    → (infos : List CallbackInfo) → keep (retried call result quiet ids) infos ≡ []
unfolding keep
none_left call result quiet ids never [] = refl
none_left call result quiet ids never (info ∷ infos) = elim (Bool-cases (runs ids info)) [
  | inl e ↦ rw (e, never) (none_left call result quiet ids never infos)
  | inr e ↦ rw e (none_left call result quiet ids never infos)
]

module _ (call : ℕ → State → CallResult × State) (result : ℕ → CallResult)
    (quiet : (cb : ℕ) (s : State) → call cb s ≡ (result cb, s))
    (never : (cb : ℕ) → asks_again (result cb) ≡ false) (name : QueueCallback → ℕ) (calling : ℕ)
    (ids : List ℕ) where
  -- The state of the queue's thread when the callbacks are in the queue.
  abbrev pub queued : List QueueCallback → State
  queued es = record {
    queue = push name es (enabled_queue [] calling ids);
    tls = ready_to_call [];
    trace = [];
  }

  abbrev pub all_called : List QueueCallback → State
  all_called es = idle_state call result quiet [] calling (register es ids) (map (entry_of name) es)

  calls_them :
      (fuel : ℕ) (es : List QueueCallback)
      → length es ≤ fuel
      → calling < 2 ^ 64
      → call_available call fuel none (queued es) ≡ some (all_called es)
  unfolding push register
  calls_them fuel [] h1 h2 = call_available_empty call result quiet fuel calling ids []
  calls_them fuel (e ∷ es) h1 h2 =
      let infos = map (entry_of name) (e ∷ es) in
      let known = register (e ∷ es) ids in
      ap
        (λ q.
          call_available call fuel none (record { queue = q; tls = ready_to_call []; trace = [] }))
        (push_lem name (e ∷ es) [] calling ids)
      ∙ call_available_lem call result quiet fuel calling none (entry_of name e)
          (map (entry_of name) es) known [] (omega (arith, length-map (entry_of name) es)) h2
      ∙ ap₂ (λ l t. some (idle_state call result quiet l calling known t))
          (none_left call result quiet known never infos) (all_run name (e ∷ es) ids)

  -- The timer thread and the callback queue together, where the time has not gone back and the
  -- waiting timers exist and are in order: if the callbacks of a pass all go to one queue, which
  -- was empty and is enabled, and the calls return without TryAgain and leave the queue alone,
  -- then callAvailable on it calls exactly the callbacks of the timers that the pass took from
  -- the front of the waiting list, each once and in that order, and leaves the queue empty, with
  -- fuel for as many calls as timers wait. Each of these timers was due at its reading of the
  -- clock, and no timer that is left was due at the last one.
  pub thread_pass-call_available :
      (fuel : ℕ) (clock : ℕ → Time) (current : Time) (s : Manager)
      → Stamp.less (clock 0) current ≡ false
      → Ordered s.timers s.waiting
      → Known s.timers s.waiting
      → length s.waiting ≤ fuel
      → calling < 2 ^ 64
      → (p : Pass) × ((thread_pass clock current s ≡ ok p)
          × ((s.waiting ≡ timers_of p.events ++ p.waiting)
              × ((call_available call fuel none (queued p.events) ≡ some (all_called p.events))
                  × (Due clock 2 (clock 1) p.events × Waits s.timers p.current p.waiting))))
  thread_pass-call_available fuel clock current s back o k h1 h2 =
      let pass = thread_pass_lem clock current s back o k in
      let p = pass.0 in
      let d = pass.1.1 in
      let same = found_all s.timers d.taken p.events d.events in
      let fits = taken_fits p.events d.taken s.waiting p.waiting same d.splits in
      (
        p,
        (
          pass.1.0,
          (
            d.splits ∙ ap (λ l. l ++ p.waiting) (sym same),
            (calls_them fuel p.events (omega (arith, fits, h1)) h2, (d.due, d.rest)),
          ),
        ),
      )
