-- ===== src/Condition/Waking.antt =====
-- Which threads are woken at a condition, and what they find (Source/Thread/Condition.h).
use se_navi_common.Common.{
  ℕ, suc, ◌+◌, ◌≤◌, ◌<◌, ◌≡◌, refl, subst, ap, sym, ◌∙◌, Bool, true, false, not, if◌then◌else◌, ltb,
  ◌&&◌, ok, err, arith, Bool-cases, inl, inr, ◌==◌,
}
use se_navi_common.Condition.{wait, Condition, not_signalled, set, wait_ends, infinite_wait}
use se_navi_common.Condition.Threads.{
  System, after_set, Step, sets_it, passes, blocks, times_out, resumes, Steps, here, and_next,
  condition_of,
}

signals :
    (c : Condition) (auto : Bool)
    → c.is_signalled ≡ false
    → c.is_auto_reset ≡ auto
    → set true c ≡ (true, record { is_signalled = true; is_auto_reset = auto })
unfolding set
signals c auto h a = rw h (ap (λ b. (true, record { is_signalled = true; is_auto_reset = b })) a)

woken_more :
    (blocked woken : ℕ) → 0 < blocked → 0 < (if true && ltb 0 blocked then woken + 1 else woken)
woken_more blocked woken h = ground arith

-- A wait of a thread that was woken, where the signal is gone when it has the lock.
wait_fails :
    (c d : Condition) (timeout : ℕ)
    → c.is_signalled ≡ false
    → wait_ends d ≡ err not_signalled
    → wait (λ c'. d) true timeout c ≡ err not_signalled
unfolding wait
wait_fails c d timeout h e = elim (Bool-cases (timeout == infinite_wait)) [
  | inl i ↦ rw (h, i, e) refl
  | inr f ↦ rw (h, f, e) refl
]

-- From any state in which a condition with auto reset is not signalled and a thread is blocked
-- in wait, a state is reached in which a thread is woken, and a wait in which the condition has
-- come to that state fails its assertion, with any timeout that has not run out: after set and
-- before the woken thread has the lock, a third thread can take the signal.
pub stolen_wakeup :
    (s : System) (n : ℕ)
    → s.condition.is_signalled ≡ false
    → s.condition.is_auto_reset ≡ true
    → s.blocked ≡ suc n
    → (t : System) × (Steps s t
        × ((0 < t.woken)
            × ((timeout : ℕ)
                → wait (λ c. t.condition) true timeout s.condition ≡ err not_signalled)))
unfolding set wait_ends
stolen_wakeup s n h auto b =
    let c : Condition = record { is_signalled = true; is_auto_reset = true } in
    let d : Condition = record { is_signalled = false; is_auto_reset = true } in
    let t = after_set (true, c) s in
    (
      record t { condition = d; passed = t.passed + 1 },
      (
        and_next
            (subst (λ r. Step s (after_set r s)) (signals s.condition true h auto) (sets_it true s))
            (and_next (passes t d refl refl) here),
        (
          woken_more s.blocked s.woken (omega (arith, b)),
          λ timeout. wait_fails s.condition d timeout h refl,
        ),
      ),
    )

-- Steps between states where the condition is signalled.
pub data Kept : System → System → Type 0 where
  stay : {s : System} → Kept s s
  go : {s t u : System} → Step s t → t.condition.is_signalled ≡ true → Kept t u → Kept s u

-- No more threads are woken, and the condition is left.
abbrev Unmoved : System → System → Type 0
Unmoved s t = (t.woken ≤ s.woken) × (t.condition ≡ s.condition)

manual_ok : (c : Condition) → c.is_signalled ≡ true → c.is_auto_reset ≡ false → wait_ends c ≡ ok c
unfolding wait_ends
manual_ok c h a = rw (h, a) refl

manual_ended :
    (c d : Condition) → c.is_signalled ≡ true → c.is_auto_reset ≡ false → wait_ends c ≡ ok d → d ≡ c
manual_ended c d h a e = sym (ap (condition_of c) (sym (manual_ok c h a) ∙ e))

kept_at :
    (b : Bool) (r : Bool × Condition) (s : System)
    → b ≡ true
    → after_set (if not b then r else (false, s.condition)) s ≡ s
kept_at true r s h = refl
kept_at false r s h = cc h

kept_set : (s : System) → s.condition.is_signalled ≡ true → after_set (set true s.condition) s ≡ s
unfolding set
kept_set s h = kept_at s.condition.is_signalled _ s h

Step-Unmoved :
    {s t : System}
    → Step s t
    → s.condition.is_signalled ≡ true
    → s.condition.is_auto_reset ≡ false
    → t.condition.is_signalled ≡ true
    → Unmoved s t
unfolding set
Step-Unmoved (sets_it true s) h a k =
    subst (λ t. Unmoved s t) (sym (kept_set s h)) (omega arith, refl)
Step-Unmoved (sets_it false s) h a k = cc k
Step-Unmoved (passes s c q e) h a k = (omega arith, manual_ended s.condition c h a e)
Step-Unmoved (blocks s q) h a k = (omega arith, refl)
Step-Unmoved (times_out s n q) h a k = (omega arith, refl)
Step-Unmoved (resumes s n c q e) h a k = (omega (arith, q), manual_ended s.condition c h a e)

Kept-Unmoved :
    {s t : System}
    → Kept s t
    → s.condition.is_signalled ≡ true
    → s.condition.is_auto_reset ≡ false
    → Unmoved s t
Kept-Unmoved stay h a = (omega arith, refl)
Kept-Unmoved (go one k rest) h a =
    let (w, c) = Step-Unmoved one h a k in
    let (w', c') = Kept-Unmoved rest k (ap (λ d. d.is_auto_reset) c ∙ a) in
    (omega (arith, w, w'), c' ∙ c)

at_most_one : (blocked woken : ℕ) → (if true && ltb 0 blocked then woken + 1 else woken) ≤ woken + 1
at_most_one blocked woken = ground arith

-- For a condition without auto reset that is not signalled: after a call of set, as long as the
-- condition stays signalled, whatever the threads do, at most one thread more than before is
-- woken at any time, and the condition is left as set made it.
pub manual_stuck :
    (s u : System)
    → s.condition.is_signalled ≡ false
    → s.condition.is_auto_reset ≡ false
    → Kept (after_set (set true s.condition) s) u
    → (u.woken ≤ s.woken + 1)
      × (u.condition ≡ record { is_signalled = true; is_auto_reset = false })
manual_stuck s u h manual k =
    let t = after_set (true, record { is_signalled = true; is_auto_reset = false }) s in
    let k' = subst (λ r. Kept (after_set r s) u) (signals s.condition false h manual) k in
    let (fewer, same) = Kept-Unmoved k' refl refl in
    (omega (arith, fewer, at_most_one s.blocked s.woken), same)
