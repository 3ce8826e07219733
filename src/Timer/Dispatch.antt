-- ===== src/Timer/Dispatch.antt =====
-- Which timers a pass of the thread calls (Source/Timer/TimerManager.h).
use se_navi_common.Common.{
  ℕ, suc, ◌≡◌, refl, ap, ap₂, sym, ◌∙◌, Bool, true, false, Bool-cases, inl, inr, if◌then◌else◌,
  List, [], ◌∷◌, ◌++◌, Option, none, some, All, arith, ◌==◌, map, ok,
}
use se_navi_common.Time.{Time}
use se_navi_common.Time.Stamp
use se_navi_common.Timer.{TimerInfo, QueueCallback, Manager, find_timer, change}
use se_navi_common.Timer.Thread.{
  callback_of, Pass, one_more, is_due, stopped, fired, run_due, jump_back, thread_pass,
}
use se_navi_common.Timer.Order.{Ordered, is_before, before_infos, earlier}

-- The callback of a timer that is found.
abbrev pub found_callback : Option TimerInfo → Option QueueCallback
found_callback none = none
found_callback (some info) = some (callback_of info)

abbrev pub is_there : Option TimerInfo → Bool
is_there none = false
is_there (some info) = true

-- The callbacks of the timers of some handles.
abbrev pub callbacks_of : List TimerInfo → List ℕ → List (Option QueueCallback)
callbacks_of timers [] = []
callbacks_of timers (h ∷ hs) = found_callback (find_timer h timers) ∷ callbacks_of timers hs

-- Each callback was due at the reading of the clock before it.
abbrev pub Due : (ℕ → Time) → ℕ → Time → List QueueCallback → Type 0
Due clock i current [] = Unit
Due clock i current (e ∷ es) =
    (Stamp.less_equal e.current_expected current ≡ true) × Due clock (suc i) (clock i) es

abbrev pub Waits : List TimerInfo → Time → List ℕ → Type 0
Waits timers current hs = All (λ h. is_due current (find_timer h timers) ≡ false) hs

-- A pass calls the timers at the front that are due at their readings, and leaves the others, of
-- which none is due at its last reading.
pub record Dispatched (timers : List TimerInfo) (clock : ℕ → Time) (i : ℕ) (current : Time)
    (waiting : List ℕ) (p : Pass) : Type 0 where
  pub taken : List ℕ
  pub splits : waiting ≡ taken ++ p.waiting
  pub events : map some p.events ≡ callbacks_of timers taken
  pub due : Due clock i current p.events
  pub rest : Waits timers p.current p.waiting
  pub ordered : Ordered timers p.waiting

abbrev pub Known : List TimerInfo → List ℕ → Type 0
Known timers hs = All (λ h. is_there (find_timer h timers) ≡ true) hs

change_callback :
    (h k : ℕ) (timers : List TimerInfo)
    → found_callback (find_timer k (change h one_more timers))
      ≡ found_callback (find_timer k timers)
unfolding find_timer change
change_callback h k [] = refl
change_callback h k (info ∷ infos) = elim (Bool-cases (info.handle == h)) [
  | inl e ↦ elim (Bool-cases (info.handle == k)) [ inl q ↦ rw (e, q) refl | inr q ↦ rw (e, q) refl ]
  | inr e ↦ elim (Bool-cases (info.handle == k)) [
    | inl q ↦ rw (e, q) refl
    | inr q ↦ rw (e, q) (change_callback h k infos)
  ]
]

abbrev due_callback : Time → Option QueueCallback → Bool
due_callback current none = false
due_callback current (some c) = Stamp.less_equal c.current_expected current

due_same :
    (current : Time) (a b : Option TimerInfo)
    → found_callback a ≡ found_callback b
    → is_due current a ≡ is_due current b
due_same current none none e = refl
due_same current none (some b) e = ap (due_callback current) e
due_same current (some a) none e = ap (due_callback current) e
due_same current (some a) (some b) e = ap (due_callback current) e

later :
    (a b current : Time)
    → earlier b a ≡ false
    → Stamp.less_equal a current ≡ false
    → Stamp.less_equal b current ≡ false
unfolding Stamp.less_equal
later a b current h k = ground arith

later_infos :
    (current : Time) (a b : Option TimerInfo)
    → is_there a ≡ true
    → before_infos b a ≡ false
    → is_due current a ≡ false
    → is_due current b ≡ false
later_infos current none b t h k = cc t
later_infos current (some a) none t h k = refl
later_infos current (some a) (some b) t h k = later a.next_expected b.next_expected current h k

others_later :
    (timers : List TimerInfo) (current : Time) (h : ℕ) (hs : List ℕ)
    → is_there (find_timer h timers) ≡ true
    → All (λ k. is_before timers k h ≡ false) hs
    → is_due current (find_timer h timers) ≡ false
    → Waits timers current hs
unfolding is_before
others_later timers current h [] t all n = tt
others_later timers current h (k ∷ hs) t all n = (
  later_infos current (find_timer h timers) (find_timer k timers) t all.0 n,
  others_later timers current h hs t all.1 n,
)

module _ (timers : List TimerInfo) (clock : ℕ → Time) where
  pass_step :
      (i : ℕ) (current : Time) (now : List TimerInfo) (h : ℕ) (hs : List ℕ)
      (found : Option TimerInfo) (b : Bool) (rest : Pass)
      → found_callback found ≡ found_callback (find_timer h timers)
      → is_due current found ≡ b
      → Ordered timers (h ∷ hs)
      → Known timers (h ∷ hs)
      → Dispatched timers clock (suc i) (clock i) hs rest
      → Dispatched timers clock i current
          (h ∷ hs)
          (if b then fired found rest else stopped (h ∷ hs) now current found)
  pass_step i current now h hs found false rest same e o k d = record {
    taken = [];
    splits = refl;
    events = refl;
    due = tt;
    rest =
        let n = sym (due_same current found (find_timer h timers) same) ∙ e in
        (n, others_later timers current h hs k.0 o.0 n);
    ordered = o;
  }
  pass_step i current now h hs none true rest same e o k d = cc e
  pass_step i current now h hs (some info) true rest same e o k d = record {
    taken = h ∷ d.taken;
    splits = ap (λ l. h ∷ l) d.splits;
    events = ap₂ (λ x l. x ∷ l) same d.events;
    due = (e, d.due);
    rest = d.rest;
    ordered = d.ordered;
  }

  pub run_due_lem :
      (waiting : List ℕ) (i : ℕ) (current : Time) (now : List TimerInfo) (last : Option TimerInfo)
      → ((h : ℕ) → found_callback (find_timer h now) ≡ found_callback (find_timer h timers))
      → Ordered timers waiting
      → Known timers waiting
      → Dispatched timers clock i current waiting (run_due clock i current now last waiting)
  unfolding run_due
  run_due_lem [] i current now last same o k = record {
    taken = [];
    splits = refl;
    events = refl;
    due = tt;
    rest = tt;
    ordered = tt;
  }
  run_due_lem (h ∷ hs) i current now last same o k =
      pass_step i current now h hs (find_timer h now) (is_due current (find_timer h now)) _ (same h)
        refl o k
        (run_due_lem hs (suc i) (clock i) (change h one_more now) (find_timer h now)
          (λ j. change_callback h j now ∙ same j) o.1 k.1)

-- A pass of the timer thread, where the time has not gone back, the waiting timers are in the
-- order of their expected times and all of them exist: it makes one callback for each of the
-- timers that it takes from the front of the list, in their order and with their expected times;
-- each of these was due at the reading of the clock before it; and none of the timers that are
-- left is due at the last reading. They are in their order still.
pub thread_pass_lem :
    (clock : ℕ → Time) (current : Time) (s : Manager)
    → Stamp.less (clock 0) current ≡ false
    → Ordered s.timers s.waiting
    → Known s.timers s.waiting
    → (p : Pass) × ((thread_pass clock current s ≡ ok p)
        × Dispatched s.timers clock 2 (clock 1) s.waiting p)
unfolding thread_pass
thread_pass_lem clock current s h o k = (
  run_due clock 2 (clock 1) s.timers none s.waiting,
  (rw h refl, run_due_lem s.timers clock s.waiting 2 (clock 1) s.timers none (λ j. refl) o k),
)

-- In a pass where the time has gone back, and the new times of all timers are in range, if the
-- timer at the front is not due at its new time, the pass makes no callback and leaves the order
-- of the waiting timers, whichever of them are due.
pub jumped_pass :
    (clock : ℕ → Time) (current : Time) (s : Manager) (timers : List TimerInfo) (h : ℕ)
    (hs : List ℕ) (info : TimerInfo)
    → Stamp.less (clock 0) current ≡ true
    → jump_back (clock 1) s.timers ≡ ok timers
    → s.waiting ≡ h ∷ hs
    → find_timer h timers ≡ some info
    → Stamp.less_equal info.next_expected (clock 2) ≡ false
    → thread_pass clock current s
      ≡ ok (record {
        events = [];
        waiting = h ∷ hs;
        timers = timers;
        current = clock 2;
        last = some info;
      })
unfolding thread_pass run_due
jumped_pass clock current s timers h hs info back j w f n =
    rw (back, j) (ap (λ l. ok (run_due clock 3 (clock 2) timers none l)) w ∙ rw (f, n) refl)
