-- ===== src/Timer/Calls.antt =====
-- What the call of a timer's callback leaves (Source/Timer/TimerManager.h).
use se_navi_common.Common.{
  ℕ, ◌+◌, ◌%◌, ◌^◌, ◌≡◌, refl, subst, ap, sym, ◌∙◌, Bool, true, false, ◌||◌, Bool-cases, inl, inr,
  List, [], ◌∷◌, ◌++◌, Option, none, some, ◌==◌, ==_refl, Result, ok, err, and_then,
}
use se_navi_common.Time.{Time}
use se_navi_common.Time.Stamp
use se_navi_common.Timer.{
  TimerInfo, QueueCallback, Manager, find_timer, insert, sort, change, update_next, scheduled,
  schedule, sorted_again, waiting_compare,
}
use se_navi_common.Timer.Thread.{is_tracked, called_back, call_tracked, call_found, call_queued}
use se_navi_common.Timer.Order.{Always, then_throws, IsOrdered, sort-Ordered}
use se_navi_common.Timer.Dispatch.{is_there}

unfoldable pub is_waiting : ℕ → List ℕ → Bool
is_waiting j [] = false
is_waiting j (h ∷ hs) = h == j || is_waiting j hs

or_swap : (a b c : Bool) → a || (b || c) ≡ b || (a || c)
or_swap true true c = refl
or_swap true false c = refl
or_swap false true c = refl
or_swap false false c = refl

is_waiting-insert :
    (timers : List TimerInfo) (j h : ℕ) (ks : List ℕ)
    → is_waiting j (insert timers h ks) ≡ (h == j) || is_waiting j ks
unfolding is_waiting insert
is_waiting-insert timers j h [] = refl
is_waiting-insert timers j h (k ∷ ks) = elim (Bool-cases (waiting_compare timers k h)) [
  | inl e ↦ rw (e, is_waiting-insert timers j h ks) (or_swap (k == j) (h == j) (is_waiting j ks))
  | inr e ↦ rw e refl
]

is_waiting-sort :
    (timers : List TimerInfo) (j : ℕ) (hs : List ℕ)
    → is_waiting j (sort timers hs) ≡ is_waiting j hs
unfolding is_waiting sort
is_waiting-sort timers j [] = refl
is_waiting-sort timers j (h ∷ hs) =
    is_waiting-insert timers j h (sort timers hs)
    ∙ ap (λ b. (h == j) || b) (is_waiting-sort timers j hs)

or_true : (b : Bool) → b || true ≡ true
or_true true = refl
or_true false = refl

is_waiting_last : (j : ℕ) (hs : List ℕ) → is_waiting j (hs ++ (j ∷ [])) ≡ true
unfolding is_waiting
is_waiting_last j [] = rw (==_refl j) refl
is_waiting_last j (h ∷ hs) = rw (is_waiting_last j hs) (or_true (h == j))

-- Its timer waits, in the order.
abbrev pub Waiting : ℕ → Manager → Type 0
Waiting h s = (is_waiting h s.waiting ≡ true) × IsOrdered s

scheduled-Waiting :
    (h : ℕ) (now : Time) (s : Manager) (found : Option TimerInfo)
    → is_there found ≡ true
    → Always (Waiting h) (scheduled h now s found)
scheduled-Waiting h now s none t = cc t
scheduled-Waiting h now s (some info) t =
    then_throws (Waiting h) (update_next now info)
      (λ info'. ok (
        sorted_again (s.waiting ++ (h ∷ []))
          (record s { timers = change h (λ i. info') s.timers })))
      (λ info'.
        let timers = change h (λ i. info') s.timers in
        (
          is_waiting-sort timers h (s.waiting ++ (h ∷ [])) ∙ is_waiting_last h s.waiting,
          sort-Ordered timers (s.waiting ++ (h ∷ [])),
        ))

still_there :
    (h : ℕ) (f : TimerInfo → TimerInfo) (timers : List TimerInfo)
    → ((i : TimerInfo) → (f i).handle ≡ i.handle)
    → is_there (find_timer h (change h f timers)) ≡ is_there (find_timer h timers)
unfolding find_timer change
still_there h f [] keeps = refl
still_there h f (info ∷ infos) keeps = elim (Bool-cases (info.handle == h)) [
  | inl e ↦ rw (e, keeps info, e) refl
  | inr e ↦ rw (e, e) (still_there h f infos keeps)
]

-- The callback does not remove its timer.
abbrev pub Keeps : ℕ → (Manager → Manager) → Type 0
Keeps h run =
    (s : Manager)
    → is_there (find_timer h s.timers) ≡ true
    → is_there (find_timer h (run s).timers) ≡ true

maps_ok :
    {E A B : Type 0} (P : A → Type 0) (Q : B → Type 0) (g : A → B) (r : Result E A)
    → Always P r
    → ((a : A) → P a → Q (g a))
    → Always Q (and_then r (λ a. ok (g a)))
maps_ok P Q g (ok a) p f = f a p
maps_ok P Q g (err e) p f = tt

-- The callback was called, and its timer waits.
abbrev pub CallsAgain : ℕ → Bool × Manager → Type 0
CallsAgain h r = (r.0 ≡ true) × Waiting h r.1

module _ (alive : ℕ → Bool) (run : Manager → Manager) (real start end now : Time)
    (cb : QueueCallback) where
  called_back-Waiting :
      (s : Manager)
      → is_there (find_timer cb.timer (run s).timers) ≡ true
      → Always (CallsAgain cb.timer) (called_back run real start end now cb s)
  unfolding schedule
  called_back-Waiting s t = then_throws (CallsAgain cb.timer) (Stamp.sub end start) _ (λ took.
      let s' = record (run s) {
        timers =
            change cb.timer (λ i. record i { last_cb_duration = took; last_real = real })
              (run s).timers;
      } in
      maps_ok (Waiting cb.timer) (CallsAgain cb.timer) (λ s''. (true, s''))
        (schedule cb.timer now s')
        (scheduled-Waiting cb.timer now s' (find_timer cb.timer s'.timers) (
          still_there cb.timer (λ i. record i { last_cb_duration = took; last_real = real })
            (run s).timers (λ i. refl)
          ∙ t))
        (λ s'' w. (refl, w)))

  -- If the timer of a queued callback exists, with its tracked object if it has one, and the
  -- user's callback does not remove it, then the call returns Success and the timer waits again,
  -- with the waiting timers in the order of their expected times, or the computation of a time
  -- throws.
  pub call-Waiting :
      (s : Manager) (info : TimerInfo)
      → find_timer cb.timer s.timers ≡ some info
      → is_tracked alive info.tracked ≡ true
      → Keeps cb.timer run
      → Always (CallsAgain cb.timer) (call_queued alive run real start end now cb s)
  unfolding call_queued
  call-Waiting s info f tracked keeps =
      let one_call : TimerInfo → TimerInfo =
        λ i. record i { total_calls = (i.total_calls + 1) % 2 ^ 32 } in
      let s' = record s { timers = change cb.timer one_call s.timers } in
      subst (λ o. Always (CallsAgain cb.timer) (call_found alive run real start end now cb s o))
        (sym f)
        (subst (λ b. Always (CallsAgain cb.timer) (call_tracked b run real start end now cb s'))
          (sym tracked)
          (called_back-Waiting s'
            (keeps s' (still_there cb.timer one_call s.timers (λ i. refl) ∙ ap is_there f))))
