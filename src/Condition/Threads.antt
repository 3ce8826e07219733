-- ===== src/Condition/Threads.antt =====
-- Several threads at one condition (Source/Thread/Condition.h): those that are blocked in `wait`,
-- and those that `set` has notified and that still have to take the lock.
use se_navi_common.Common.{
  ℕ, suc, ◌+◌, ◌-◌, ◌≤◌, ◌<◌, ◌≡◌, refl, subst, ap, Bool, true, false, not, if◌then◌else◌, ltb,
  ◌&&◌, Result, ok, err, arith,
}
use se_navi_common.Condition.{Condition, AssertionFailed, set, wait_ends}

-- The condition, its threads, the calls of `set` that signalled it and the waits that returned
-- COND_OK.
pub record System : Type 0 where
  pub condition : Condition
  pub blocked : ℕ
  pub woken : ℕ
  pub sets : ℕ
  pub passed : ℕ

-- `notify_one` wakes a thread that is blocked, if there is one.
abbrev pub after_set : Bool × Condition → System → System
after_set (notifies, c) s = record s {
  condition = c;
  blocked = if notifies then s.blocked - 1 else s.blocked;
  woken = if notifies && ltb 0 s.blocked then s.woken + 1 else s.woken;
  sets = if notifies then s.sets + 1 else s.sets;
}

-- What a thread does under the lock, or what ends its wait.
pub data Step : System → System → Type 0 where
  sets_it : (signal : Bool) (s : System) → Step s (after_set (set signal s.condition) s)
  passes :
      (s : System) (c : Condition)
      → s.condition.is_signalled ≡ true
      → wait_ends s.condition ≡ ok c
      → Step s (record s { condition = c; passed = s.passed + 1 })
  blocks :
      (s : System)
      → s.condition.is_signalled ≡ false
      → Step s (record s { blocked = s.blocked + 1 })
  times_out : (s : System) (n : ℕ) → s.blocked ≡ suc n → Step s (record s { blocked = n })
  resumes :
      (s : System) (n : ℕ) (c : Condition)
      → s.woken ≡ suc n
      → wait_ends s.condition ≡ ok c
      → Step s (record s { condition = c; woken = n; passed = s.passed + 1 })

pub data Steps : System → System → Type 0 where
  here : {s : System} → Steps s s
  and_next : {s t u : System} → Step s t → Steps t u → Steps s u

abbrev pub flag : Bool → ℕ
flag true = 1
flag false = 0

-- Where the condition is signalled and threads are blocked, one of them has been woken; and each
-- wait that passed, and the signal that is left, belongs to a `set` of its own.
pub record IsFair (s : System) : Type 0 where
  pub auto : s.condition.is_auto_reset ≡ true
  pub no_lost : s.condition.is_signalled ≡ true → 0 < s.blocked → 0 < s.woken
  pub each_once : s.passed + flag s.condition.is_signalled ≤ s.sets

abbrev pub condition_of : Condition → Result AssertionFailed Condition → Condition
condition_of d (ok c) = c
condition_of d (err e) = d

abbrev Cleared : Condition → Type 0
Cleared c = (c.is_signalled ≡ false) × (c.is_auto_reset ≡ true)

ended_at :
    (signalled auto : Bool) (c : Condition)
    → auto ≡ true
    → wait_ends (record { is_signalled = signalled; is_auto_reset = auto }) ≡ ok c
    → (signalled ≡ true) × Cleared c
unfolding wait_ends
ended_at signalled false c h e = cc h
ended_at false true c h e = cc e
ended_at true true c h e = (refl, subst (λ r. Cleared (condition_of c r)) e (refl, refl))

-- A wait that ends well resets the flag.
ended :
    (c d : Condition)
    → c.is_auto_reset ≡ true
    → wait_ends c ≡ ok d
    → (c.is_signalled ≡ true) × Cleared d
ended c d h e = ended_at c.is_signalled c.is_auto_reset d h e

wakes_one :
    (blocked woken : ℕ) → 0 < blocked - 1 → 0 < (if true && ltb 0 blocked then woken + 1 else woken)
wakes_one blocked woken h = ground arith

set_at :
    (b : Bool) (s : System)
    → s.condition.is_signalled ≡ b
    → IsFair s
    → IsFair (
        after_set
          (if not b
            then (true, record s.condition { is_signalled = true })
            else (false, s.condition))
          s)
set_at true s e f = f
set_at false s e f = record {
  auto = f.auto;
  no_lost = λ k l. wakes_one s.blocked s.woken l;
  each_once = omega (arith, f.each_once);
}

set-IsFair : (signal : Bool) (s : System) → IsFair s → IsFair (after_set (set signal s.condition) s)
unfolding set
set-IsFair true s f = set_at s.condition.is_signalled s refl f
set-IsFair false s f = record {
  auto = f.auto;
  no_lost = λ k l. cc k;
  each_once = omega (arith, f.each_once);
}

-- A wait that passes takes a signal.
passed-IsFair :
    (s : System) (c : Condition) (n : ℕ)
    → IsFair s
    → wait_ends s.condition ≡ ok c
    → IsFair (record s { condition = c; woken = n; passed = s.passed + 1 })
passed-IsFair s c n f e =
    let (signalled, (reset, auto)) = ended s.condition c f.auto e in
    record {
      auto = auto;
      no_lost = λ k l. cc (reset, k);
      each_once = omega (arith, f.each_once, ap flag signalled, ap flag reset);
    }

Step-IsFair : {s t : System} → Step s t → IsFair s → IsFair t
Step-IsFair (sets_it signal s) f = set-IsFair signal s f
Step-IsFair (passes s c h e) f = passed-IsFair s c s.woken f e
Step-IsFair (blocks s h) f = record {
  auto = f.auto;
  no_lost = λ k l. cc (h, k);
  each_once = f.each_once;
}
Step-IsFair (times_out s n h) f = record {
  auto = f.auto;
  no_lost = λ k l. f.no_lost k (omega (arith, h));
  each_once = f.each_once;
}
Step-IsFair (resumes s n c h e) f = passed-IsFair s c n f e

-- Threads that set a condition with auto reset, wait for it, run into their timeouts and go on
-- after a wake-up, in any order in which no assertion fails: if the condition is signalled while
-- threads are blocked, one of them has been woken, so no wake-up is lost; and the waits that
-- returned COND_OK, with the signal that is left, are no more than the calls of set that
-- signalled. This holds in each state that is reached from one in which it holds.
pub Steps-IsFair : {s t : System} → Steps s t → IsFair s → IsFair t
Steps-IsFair here f = f
Steps-IsFair (and_next one rest) f = Steps-IsFair rest (Step-IsFair one f)
