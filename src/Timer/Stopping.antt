-- ===== src/Timer/Stopping.antt =====
-- What is called after `Timer::stop` (Source/Timer/Timer.cpp), which removes the timer from the
-- manager and its callbacks from the queue (Source/Callbacks/CallbackQueue.cpp).
use se_navi_common.Common.{
  ℕ, suc, ◌≡◌, refl, subst, ap, sym, ◌∙◌, Bool, true, false, Bool-cases, inl, inr, ◌&&◌, ◌==◌, List,
  [], ◌∷◌, ◌++◌, some, All, ok, arith,
}
use se_navi_common.Time.{Time}
use se_navi_common.Time.Stamp
use se_navi_common.Timer.{
  TimerInfo, Manager, find_timer, erase_timer, erase_waiting, remove, queue_of,
}
use se_navi_common.Timer.Thread.{Pass, thread_pass}
use se_navi_common.Timer.Handle.{Impl, stop_impl}
use se_navi_common.Timer.Order.{IsOrdered}
use se_navi_common.Timer.Dispatch.{Known, is_there, thread_pass_lem}
use se_navi_common.Timer.Period.{Distinct, Others, remove_lem, find_erased}
use se_navi_common.Timer.Queueing.{timers_of, found_all}
use se_navi_common.Callbacks.{CallbackInfo, State, remove_by_id}
use se_navi_common.Callbacks.Running.{keep, runs}
use se_navi_common.Callbacks.Removal.{Registered, is_other, remove_by_id_lem}

-- None of the callbacks has this id.
abbrev pub NoneOf : ℕ → List CallbackInfo → Type 0
NoneOf id infos = All (λ info. is_other id info ≡ true) infos

keep-NoneOf : (id : ℕ) (infos : List CallbackInfo) → NoneOf id (keep (is_other id) infos)
unfolding keep
keep-NoneOf id [] = tt
keep-NoneOf id (info ∷ infos) = elim (Bool-cases (is_other id info)) [
  | inl e ↦ rw e (e, keep-NoneOf id infos)
  | inr e ↦ rw e (keep-NoneOf id infos)
]

and_right : (a b : Bool) → a && b ≡ true → b ≡ true
and_right true b h = h
and_right false b h = cc h

keep_both-NoneOf :
    (id : ℕ) (test : CallbackInfo → Bool) (infos : List CallbackInfo)
    → NoneOf id (keep (λ info. test info && is_other id info) infos)
unfolding keep
keep_both-NoneOf id test [] = tt
keep_both-NoneOf id test (info ∷ infos) = elim (Bool-cases (test info && is_other id info)) [
  | inl e ↦ rw e (and_right (test info) (is_other id info) e, keep_both-NoneOf id test infos)
  | inr e ↦ rw e (keep_both-NoneOf id test infos)
]

erase-Known :
    (timers : List TimerInfo) (h : ℕ) (hs : List ℕ)
    → Known timers hs
    → Known timers (erase_waiting h hs)
unfolding erase_waiting
erase-Known timers h [] k = tt
erase-Known timers h (j ∷ js) k = elim (Bool-cases (j == h)) [
  | inl e ↦ rw e k.1
  | inr e ↦ rw e (k.0, erase-Known timers h js k.1)
]

still_Known :
    (timers : List TimerInfo) (h : ℕ) (hs : List ℕ)
    → Others h hs
    → Known timers hs
    → Known (erase_timer h timers) hs
still_Known timers h [] out k = tt
still_Known timers h (j ∷ js) out k =
    (ap is_there (find_erased h j timers out.0) ∙ k.0, still_Known timers h js out.1 k.1)

front-Others : (h : ℕ) (hs ks : List ℕ) → Others h (hs ++ ks) → Others h hs
front-Others h [] ks out = tt
front-Others h (j ∷ hs) ks out = (out.0, front-Others h hs ks out.1)

-- A started timer is removed.
stop_removes :
    (t : Impl) (s : Manager)
    → t.started ≡ true
    → ((stop_impl t s).0 ≡ (remove t.timer_handle s).0)
      × ((stop_impl t s).1.1 ≡ (remove t.timer_handle s).1)
unfolding stop_impl
stop_removes t s h = rw h (refl, refl)

-- The passes after a removal.
removed_pass :
    (h : ℕ) (s : Manager) (clock : ℕ → Time) (current : Time)
    → IsOrdered s
    → Distinct s.waiting
    → Known s.timers s.waiting
    → Stamp.less (clock 0) current ≡ false
    → (p : Pass) × ((thread_pass clock current (remove h s).1 ≡ ok p)
        × Others h (timers_of p.events))
unfolding remove
removed_pass h s clock current o d k back =
    let (out, (_, (ordered, _))) = remove_lem h (suc h) s o d (ground arith) in
    let known =
      still_Known s.timers h (erase_waiting h s.waiting) out (erase-Known s.timers h s.waiting k) in
    let (p, (passes, dispatched)) =
      thread_pass_lem clock current (remove h s).1 back ordered known in
    (
      p,
      (
        passes,
        subst (Others h)
            (sym (found_all (erase_timer h s.timers) dispatched.taken p.events dispatched.events))
            (front-Others h dispatched.taken p.waiting (subst (Others h) dispatched.splits out)),
      ),
    )

queue_told : (h : ℕ) (s : Manager) → (remove h s).0 ≡ queue_of (find_timer h s.timers)
unfolding remove
queue_told h s = refl

-- Stopping a timer, in the manager and in its callback queue together: if the timer is started
-- and exists, the waiting timers exist, are in order and none waits twice, and every callback of
-- the queue has a registered id, then stop names the timer's queue; after removeByID for the
-- timer no callback of it is in the queue, and none that the thread has taken would be called;
-- and the next pass of the timer thread, where the time has not gone back, makes none for it.
pub stop_calls_none :
    (t : Impl) (s : Manager) (info : TimerInfo) (queue : State) (clock : ℕ → Time) (current : Time)
    → t.started ≡ true
    → find_timer t.timer_handle s.timers ≡ some info
    → IsOrdered s
    → Distinct s.waiting
    → Known s.timers s.waiting
    → Registered queue
    → Stamp.less (clock 0) current ≡ false
    → ((stop_impl t s).0 ≡ some info.callback_queue)
      × (NoneOf t.timer_handle (remove_by_id t.timer_handle queue).queue.callbacks
          × (NoneOf t.timer_handle (
                keep
                  (runs (remove_by_id t.timer_handle queue).queue.id_info)
                  (remove_by_id t.timer_handle queue).tls.callbacks)
              × ((p : Pass) × ((thread_pass clock current (stop_impl t s).1.1 ≡ ok p)
                    × Others t.timer_handle (timers_of p.events)))))
stop_calls_none t s info queue clock current started there o d k registered back =
    let (told, rest) = stop_removes t s started in
    let removed = remove_by_id_lem t.timer_handle queue registered in
    let (p, (passes, out)) = removed_pass t.timer_handle s clock current o d k back in
    (
      told ∙ queue_told t.timer_handle s ∙ ap queue_of there,
      (
        subst (NoneOf t.timer_handle) (sym removed.queued)
            (keep-NoneOf t.timer_handle queue.queue.callbacks),
        (
          subst (NoneOf t.timer_handle) (sym removed.running)
              (keep_both-NoneOf t.timer_handle (runs queue.queue.id_info) queue.tls.callbacks),
          (p, (ap (thread_pass clock current) rest ∙ passes, out)),
        ),
      ),
    )
