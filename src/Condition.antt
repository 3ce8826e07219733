-- ===== src/Condition.antt =====
-- `Condition` of Source/Thread/Condition.h: a flag under a lock that threads set and wait for.
pub mod Threads
pub mod Waking
pub mod Examples
use se_navi_common.Common.{
  ℕ, ◌+◌, ◌-◌, ◌^◌, Bool, true, false, not, if◌then◌else◌, ◌==◌, Result, ok, err,
}

pub record Condition : Type 0 where
  pub is_signalled : Bool
  pub is_auto_reset : Bool

abbrev pub cond_ok : ℕ
cond_ok = 1

-- COND_TIMEOUT, which is -1, as the unsigned long that `wait` returns.
abbrev pub cond_timeout : ℕ
cond_timeout = 2 ^ 64 - 1

abbrev pub infinite_wait : ℕ
infinite_wait = 4_294_967_295

-- `assert(_is_signalled)` fails, which ends the program.
pub data AssertionFailed : Type 0 where
  not_signalled : AssertionFailed

-- `set`, and whether it notifies a thread that waits.
unfoldable pub set : Bool → Condition → Bool × Condition
set true c = if not c.is_signalled then (true, record c { is_signalled = true }) else (false, c)
set false c = (false, record c { is_signalled = false })

-- The end of `wait`, from its assertion on.
unfoldable pub wait_ends : Condition → Result AssertionFailed Condition
wait_ends c =
    if c.is_signalled
    then ok (if c.is_auto_reset then record c { is_signalled = false } else c)
    else err not_signalled

abbrev pub returns_ok : Result AssertionFailed Condition → Result AssertionFailed (ℕ × Condition)
returns_ok (err e) = err e
returns_ok (ok c) = ok (cond_ok, c)

-- `wait`, given what other threads do while it waits and whether `timed_wait` is notified.
unfoldable pub wait :
    (Condition → Condition) → Bool → ℕ → Condition → Result AssertionFailed (ℕ × Condition)
wait others notified timeout c =
    let c' = others c in
    if not c.is_signalled
    then if timeout == infinite_wait
      then returns_ok (wait_ends c')
      else if notified
      then returns_ok (wait_ends c')
      else ok (cond_timeout, c')
    else returns_ok (wait_ends c)
