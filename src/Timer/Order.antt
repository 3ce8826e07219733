-- ===== src/Timer/Order.antt =====
-- The order of the waiting timers of Source/Timer/TimerManager.h.
use se_navi_common.Common.{
  ℕ, ◌≡◌, refl, sym, ◌∙◌, ◌&&◌, ◌||◌, ◌==◌, ltb, Bool, true, false, Bool-cases, inl, inr, List, [],
  ◌∷◌, ◌++◌, Option, none, some, All, arith, Result, ok, err, and_then,
}
use se_navi_common.Time.{Time, Duration}
use se_navi_common.Time.Stamp
use se_navi_common.Timer.{
  TimerInfo, Manager, find_timer, compare_infos, waiting_compare, insert, sort, add, schedule,
  set_period, scheduled, period_set, next_of, update_next, sorted_again, change,
}

-- The result of code that may throw has a property.
abbrev pub Always {ℓ} : {E : Type 0} {A : Type ℓ} → (A → Type 0) → Result E A → Type 0
Always P (ok a) = P a
Always P (err e) = Unit

-- A time is before another, in seconds or in nanoseconds of the same second.
abbrev pub earlier : Time → Time → Bool
earlier a b = ltb a.sec b.sec || (a.sec == b.sec && ltb a.nsec b.nsec)

-- A timer is expected before another; a handle without a timer comes first.
abbrev pub before_infos : Option TimerInfo → Option TimerInfo → Bool
before_infos none none = false
before_infos none (some r) = true
before_infos (some l) none = false
before_infos (some l) (some r) = earlier l.next_expected r.next_expected

unfoldable pub is_before : List TimerInfo → ℕ → ℕ → Bool
is_before timers k h = before_infos (find_timer k timers) (find_timer h timers)

-- No timer that waits behind another is expected before it.
abbrev pub Ordered : List TimerInfo → List ℕ → Type 0
Ordered timers [] = Unit
Ordered timers (h ∷ hs) = All (λ k. is_before timers k h ≡ false) hs × Ordered timers hs

earlier_not_trans : (a b c : Time) → earlier b a ≡ false → earlier c b ≡ false → earlier c a ≡ false
earlier_not_trans a b c h k = ground arith

earlier_asym : (a b : Time) → earlier a b ≡ true → earlier b a ≡ false
earlier_asym a b h = ground arith

less-earlier : (a b : Time) → Stamp.less a b ≡ earlier a b
unfolding Stamp.less
less-earlier a b = ground arith

compare_before : (a b : Option TimerInfo) → compare_infos a b ≡ before_infos a b
compare_before none none = refl
compare_before none (some b) = refl
compare_before (some a) none = refl
compare_before (some a) (some b) = less-earlier a.next_expected b.next_expected

infos_not_trans :
    (a b c : Option TimerInfo)
    → before_infos b a ≡ false
    → before_infos c b ≡ false
    → before_infos c a ≡ false
infos_not_trans none none none h k = refl
infos_not_trans none none (some c) h k = refl
infos_not_trans none (some b) none h k = refl
infos_not_trans none (some b) (some c) h k = refl
infos_not_trans (some a) none c h k = cc h
infos_not_trans (some a) (some b) none h k = cc k
infos_not_trans (some a) (some b) (some c) h k =
    earlier_not_trans a.next_expected b.next_expected c.next_expected h k

infos_asym : (a b : Option TimerInfo) → before_infos a b ≡ true → before_infos b a ≡ false
infos_asym none none h = refl
infos_asym none (some b) h = refl
infos_asym (some a) none h = cc h
infos_asym (some a) (some b) h = earlier_asym a.next_expected b.next_expected h

module _ (timers : List TimerInfo) where
  compares : (a b : ℕ) → waiting_compare timers a b ≡ is_before timers a b
  unfolding waiting_compare is_before
  compares a b = compare_before (find_timer a timers) (find_timer b timers)

  not_trans :
      (a b c : ℕ)
      → is_before timers b a ≡ false
      → is_before timers c b ≡ false
      → is_before timers c a ≡ false
  unfolding is_before
  not_trans a b c h k =
      infos_not_trans (find_timer a timers) (find_timer b timers) (find_timer c timers) h k

  asym : (a b : ℕ) → is_before timers a b ≡ true → is_before timers b a ≡ false
  unfolding is_before
  asym a b h = infos_asym (find_timer a timers) (find_timer b timers) h

  none_before :
      (a b : ℕ) (hs : List ℕ)
      → is_before timers b a ≡ false
      → All (λ k. is_before timers k b ≡ false) hs
      → All (λ k. is_before timers k a ≡ false) hs
  none_before a b [] h all = tt
  none_before a b (k ∷ hs) h all = (not_trans a b k h all.0, none_before a b hs h all.1)

  insert_behind :
      (a h : ℕ) (hs : List ℕ)
      → is_before timers h a ≡ false
      → All (λ k. is_before timers k a ≡ false) hs
      → All (λ k. is_before timers k a ≡ false) (insert timers h hs)
  unfolding insert
  insert_behind a h [] b all = (b, tt)
  insert_behind a h (k ∷ ks) b all = elim (Bool-cases (waiting_compare timers k h)) [
    | inl e ↦ rw e (all.0, insert_behind a h ks b all.1)
    | inr e ↦ rw e (b, all)
  ]

  insert-Ordered : (h : ℕ) (hs : List ℕ) → Ordered timers hs → Ordered timers (insert timers h hs)
  unfolding insert
  insert-Ordered h [] o = (tt, tt)
  insert-Ordered h (k ∷ ks) o = elim (Bool-cases (waiting_compare timers k h)) [
    | inl e ↦
        rw e (insert_behind k h ks (asym k h (sym (compares k h) ∙ e)) o.0, insert-Ordered h ks o.1)
    | inr e ↦
        let not_first = sym (compares k h) ∙ e in
        rw e ((not_first, none_before h k ks not_first o.0), o)
  ]

  pub sort-Ordered : (hs : List ℕ) → Ordered timers (sort timers hs)
  unfolding sort
  sort-Ordered [] = tt
  sort-Ordered (h ∷ hs) = insert-Ordered h (sort timers hs) (sort-Ordered hs)

pub then_throws :
    {E A B : Type 0} (P : B → Type 0) (r : Result E A) (f : A → Result E B)
    → ((a : A) → Always P (f a))
    → Always P (and_then r f)
then_throws P (ok a) f h = h a
then_throws P (err e) f h = tt

abbrev pub IsOrdered : Manager → Type 0
IsOrdered s = Ordered s.timers s.waiting

scheduled-IsOrdered :
    (handle : ℕ) (now : Time) (s : Manager) (found : Option TimerInfo)
    → IsOrdered s
    → Always IsOrdered (scheduled handle now s found)
scheduled-IsOrdered handle now s none o = o
scheduled-IsOrdered handle now s (some info) o =
    then_throws IsOrdered (update_next now info)
      (λ info'. ok (
        sorted_again (s.waiting ++ (handle ∷ []))
          (record s { timers = change handle (λ i. info') s.timers })))
      (λ info'. sort-Ordered (change handle (λ i. info') s.timers) (s.waiting ++ (handle ∷ [])))

period_set-IsOrdered :
    (handle : ℕ) (reset : Bool) (period : Duration) (now1 now2 now3 : Time) (s : Manager)
    (found : Option TimerInfo)
    → IsOrdered s
    → Always IsOrdered (period_set handle reset period now1 now2 now3 s found)
period_set-IsOrdered handle reset period now1 now2 now3 s none o = o
period_set-IsOrdered handle reset period now1 now2 now3 s (some info) o =
    then_throws IsOrdered (next_of reset period now1 now2 now3 info) _ (λ next.
      sort-Ordered
        (change handle (λ i. record i { next_expected = next; period = period }) s.timers)
        s.waiting)

-- If no waiting timer has an expected time before that of one that waits ahead of it, by seconds
-- and then by nanoseconds, where a handle without a timer counts as the first, this holds after
-- add, after schedule and after setPeriod of any timer, or they throw.
pub waiting-IsOrdered :
    (handle : ℕ) (reset : Bool) (period : Duration) (callback queue : ℕ) (tracked : Option ℕ)
    (oneshot : Bool) (now1 now2 now3 : Time) (s : Manager)
    → IsOrdered s
    → Always (λ (r : ℕ × Manager). IsOrdered r.1) (add period callback queue tracked oneshot now1 s)
      × (Always IsOrdered (schedule handle now1 s)
          × Always IsOrdered (set_period handle reset period now1 now2 now3 s))
unfolding add schedule set_period
waiting-IsOrdered handle reset period callback queue tracked oneshot now1 now2 now3 s o = (
  then_throws (λ (r : ℕ × Manager). IsOrdered r.1) (Stamp.add now1 period) _
      (λ next. sort-Ordered _ _),
  (
    scheduled-IsOrdered handle now1 s (find_timer handle s.timers) o,
    period_set-IsOrdered handle reset period now1 now2 now3 s (find_timer handle s.timers) o,
  ),
)
