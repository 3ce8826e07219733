-- ===== src/Transport/Waiting.antt =====
-- The bounded wait for a reply.
use se_navi_common.Common.{◌↔◌, ℕ, zero, suc, ◌≤◌, ◌≡◌, refl, true, arith}
use se_navi_common.Transport.{Status, idle, processing, Shared, await_reply}

-- The state after `k` of the waits that `await_reply others n` makes.
unfoldable pub after_waits : (ℕ → Shared → Shared) → ℕ → ℕ → Shared → Shared
after_waits others n zero s = s
after_waits others zero (suc k) s = after_waits others zero k (others zero s)
after_waits others (suc n) (suc k) s = after_waits others n k (others (suc n) s)

module _ (others : ℕ → Shared → Shared) where
  ran_out :
      (n : ℕ) (x : Status) (s : Shared)
      → s.status ≡ x
      → (await_reply others n x s).0 ≡ true
      → (k : ℕ) → k ≤ n
      → (after_waits others n k s).status ≡ processing
  unfolding await_reply after_waits
  ran_out n idle s e timeout k h = absurd (cc timeout)
  ran_out n processing s e timeout zero h = e
  ran_out zero processing s e timeout (suc k) h = absurd (omega arith)
  ran_out (suc n) processing s e timeout (suc k) h =
      ran_out n (others (suc n) s).status (others (suc n) s) refl timeout k (omega arith)

  runs_out :
      (n : ℕ) (x : Status) (s : Shared)
      → s.status ≡ x
      → ((k : ℕ) → k ≤ n → (after_waits others n k s).status ≡ processing)
      → (await_reply others n x s).0 ≡ true
  unfolding await_reply after_waits
  runs_out n idle s e stays = absurd (cc (e, stays 0 (omega arith)))
  runs_out zero processing s e stays = refl
  runs_out (suc n) processing s e stays =
      runs_out n (others (suc n) s).status (others (suc n) s) refl
        (λ k h. stays (suc k) (omega arith))

-- The bounded wait of publish and call, which always ends, ends with timeout set exactly if the
-- status is PROCESSING before its first wait and after each of its first n waits, where n is
-- try_times + 1. What happens in the wait after these makes no difference.
pub await_reply_timeout :
    (others : ℕ → Shared → Shared) (n : ℕ) (s : Shared)
    → ((await_reply others n s.status s).0 ≡ true)
      ↔ ((k : ℕ) → k ≤ n → (after_waits others n k s).status ≡ processing)
await_reply_timeout others n s =
    (ran_out others n s.status s refl, runs_out others n s.status s refl)
