-- ===== src/Condition/Examples.antt =====
-- Threads at a condition of Source/Thread/Condition.h.
use se_navi_common.Common.{ℕ, ◌<◌, ◌≡◌, refl, Bool, true, false, err, arith}
use se_navi_common.Condition.{Condition, not_signalled, set, wait_ends, wait}
use se_navi_common.Condition.Threads.{
  System, after_set, Steps, and_next, here, sets_it, blocks, resumes, IsFair, Steps-IsFair,
}
use se_navi_common.Condition.Waking.{stolen_wakeup, Kept, stay, go}

abbrev condition_at : Bool → Bool → Condition
condition_at signalled auto = record { is_signalled = signalled; is_auto_reset = auto }

abbrev system : Bool → Bool → ℕ → ℕ → ℕ → ℕ → System
system signalled auto blocked woken sets passed = record {
  condition = condition_at signalled auto;
  blocked = blocked;
  woken = woken;
  sets = sets;
  passed = passed;
}

-- A thread waits, another one signals, and the first goes on.
abbrev wait_and_set : Steps (system false true 0 0 0 0) (system false true 0 0 1 1)
unfolding set wait_ends
wait_and_set = and_next (blocks (system false true 0 0 0 0) refl) (
    and_next (sets_it true (system false true 1 0 0 0))
      (and_next (resumes (system true true 0 1 1 0) 0 (condition_at false true) refl refl) here))

IsFair-example : IsFair (system false true 0 0 1 1)
IsFair-example =
    Steps-IsFair wait_and_set
      (record { auto = refl; no_lost = λ k l. cc k; each_once = omega arith })

stolen_example :
    (t : System) × (Steps (system false true 1 0 0 0) t
      × ((0 < t.woken)
          × ((timeout : ℕ)
              → wait (λ c. t.condition) true timeout (condition_at false true)
                ≡ err not_signalled)))
stolen_example = stolen_wakeup (system false true 1 0 0 0) 0 refl refl refl

-- Two threads wait, and one of them goes on.
abbrev one_goes_on :
    Kept
      (after_set (set true (condition_at false false)) (system false false 2 0 0 0))
      (system true false 1 0 1 1)
unfolding set wait_ends
one_goes_on =
    go (resumes (system true false 1 1 1 0) 0 (condition_at true false) refl refl) refl stay
