-- ===== src/Timer/Period.antt =====
-- When a timer is expected next, and the removal of a timer (Source/Timer/TimerManager.h).
use se_navi_common.Common.{
  ℕ, ◌≡◌, ◌≤◌, ◌<◌, ◌↔◌, refl, subst, ap, ap₂, ◌∙◌, Bool, true, false, Bool-cases, inl, inr,
  if◌then◌else◌, List, [], ◌∷◌, All, arith, ltb, leb, leb→le, le→ltb, ◌==◌, ==_iff, Result, ok,
  and_then,
}
use se_navi_common.Common.Int.{pos, neg_part, pos_part, ◌+ℤ◌, sum_laws}
use se_navi_common.Time.{Time, TimeError, time_total, duration_total, IsValidTime, IsValidDuration}
use se_navi_common.Time.Stamp
use se_navi_common.Time.Order.{time_order}
use se_navi_common.Time.Cycle.Schedule.{add_is, refuted, decided}
use se_navi_common.Timer.{
  TimerInfo, Manager, never, find_timer, erase_timer, erase_waiting, remove, step_next, skip_next,
  update_next,
}
use se_navi_common.Timer.Order.{before_infos, is_before, Ordered, IsOrdered}

not_below : (m n : ℕ) → leb m n ≡ false → ¬ (m ≤ n)
not_below m n e le = ground arith

decides_leb : (b : Bool) (m n : ℕ) → (b ≡ true) ↔ (m ≤ n) → b ≡ leb m n
decides_leb b m n h = elim (Bool-cases (leb m n)) [
  | inl e ↦ rw e (h.1 (leb→le m n e))
  | inr e ↦ rw e (refuted b h (λ le. not_below m n e le))
]

leb_above : (m n : ℕ) → leb m n ≡ false → n < m
leb_above m n e = ground arith

module _ (info : TimerInfo) (now next limit : Time) (he : IsValidTime info.next_expected)
    (hp : IsValidDuration info.period) (hn : IsValidTime now) (hx : IsValidTime next)
    (hl : IsValidTime limit)
    (one : pos (time_total next)
      ≡ pos (time_total info.next_expected) +ℤ duration_total info.period)
    (two : pos (time_total limit) ≡ pos (time_total next) +ℤ duration_total info.period)
    (forward : neg_part (duration_total info.period) ≡ 0) where
  abbrev later_info : TimerInfo
  later_info = record info { last_expected = info.next_expected; next_expected = next }

  step_is :
      step_next now info
      ≡ (if leb (time_total info.next_expected) (time_total now) then ok later_info else ok info)
  step_is =
      ap₂
        (λ b (r : Result TimeError Time).
          if b
          then (and_then r
              λ t. ok (record info { last_expected = info.next_expected; next_expected = t }))
          else ok info)
        (decides_leb (Stamp.less_equal info.next_expected now) (time_total info.next_expected)
          (time_total now) (time_order info.next_expected now he hn).1)
        (add_is info.next_expected next info.period he hx hp one)

  skip_is :
      (i : TimerInfo) (t : Time)
      → IsValidTime i.next_expected
      → IsValidTime t
      → IsValidDuration i.period
      → pos (time_total t) ≡ pos (time_total i.next_expected) +ℤ duration_total i.period
      → skip_next now i
        ≡ ok (if ltb (time_total t) (time_total now) then record i { next_expected = now } else i)
  skip_is i t v vt vp e =
      ap
        (λ (r : Result TimeError Time).
          and_then r λ u. ok (if Stamp.less u now then record i { next_expected = now } else i))
        (add_is i.next_expected t i.period v vt vp e)
      ∙ ap (λ b. ok (if b then record i { next_expected = now } else i))
          (decided (Stamp.less t now) (time_total t) (time_total now) (time_order t now vt hn).0)

  set_next :
      (b : Bool)
      → ◌≡◌ {A = Result TimeError TimerInfo}
          (ok (if b then record later_info { next_expected = now } else later_info))
          (ok (record info {
            last_expected = info.next_expected;
            next_expected = if b then now else next;
          }))
  set_next true = refl
  set_next false = refl

  not_late :
      time_total now < time_total info.next_expected
      → ltb (time_total next) (time_total now) ≡ false
  not_late h =
      le→ltb (time_total next) (time_total now)
        (omega (sum_laws, ap pos_part one, ap neg_part one, forward))

  abbrev stepped : Bool → Result TimeError TimerInfo
  stepped b = if b then ok later_info else ok info

  both_steps :
      (b : Bool)
      → leb (time_total info.next_expected) (time_total now) ≡ b
      → and_then (stepped b) (skip_next now) ≡ (
          if b
          then ok (record info {
            last_expected = info.next_expected;
            next_expected = if ltb (time_total limit) (time_total now) then now else next;
          })
          else ok info)
  both_steps true e =
      skip_is later_info limit hx hl hp two ∙ set_next (ltb (time_total limit) (time_total now))
  both_steps false e =
      skip_is info next he hx hp one
      ∙ ap (λ b. ok (if b then record info { next_expected = now } else info))
          (not_late (leb_above (time_total info.next_expected) (time_total now) e))

  -- updateNext of a timer whose period is not negative, with all times well-formed and the next
  -- two expected times in range: a oneshot timer is expected at the end of time. Another that is
  -- due is expected one period after it was expected, whenever it was called, but at the reading
  -- of the clock if that is behind two periods; one that is not due is left as it is.
  pub update_next_lem : update_next now info ≡ (
      if info.oneshot
      then ok (record info { next_expected = never })
      else if leb (time_total info.next_expected) (time_total now)
      then ok (record info {
        last_expected = info.next_expected;
        next_expected = if ltb (time_total limit) (time_total now) then now else next;
      })
      else ok info)
  unfolding update_next
  update_next_lem =
      ap (λ r. if info.oneshot then ok (record info { next_expected = never }) else r)
        (ap (λ r. and_then r (skip_next now)) step_is
          ∙ both_steps (leb (time_total info.next_expected) (time_total now)) refl)

-- No handle waits twice.
abbrev pub Distinct : List ℕ → Type 0
Distinct [] = Unit
Distinct (h ∷ hs) = All (λ k. (k == h) ≡ false) hs × Distinct hs

not_both : (i h k : ℕ) → (i == h) ≡ true → (k == h) ≡ false → (i == k) ≡ false
not_both i h k e n = ground arith

pub find_erased :
    (h k : ℕ) (timers : List TimerInfo)
    → (k == h) ≡ false
    → find_timer k (erase_timer h timers) ≡ find_timer k timers
unfolding find_timer erase_timer
find_erased h k [] n = refl
find_erased h k (info ∷ infos) n = elim (Bool-cases (info.handle == h)) [
  | inl e ↦ rw (e, not_both info.handle h k e n) refl
  | inr e ↦ elim (Bool-cases (info.handle == k)) [
    | inl q ↦ rw (e, q) refl
    | inr q ↦ rw (e, q) (find_erased h k infos n)
  ]
]

compare_erased :
    (h j k : ℕ) (timers : List TimerInfo)
    → (j == h) ≡ false
    → (k == h) ≡ false
    → is_before (erase_timer h timers) j k ≡ is_before timers j k
unfolding is_before
compare_erased h j k timers n m =
    ap₂ before_infos (find_erased h j timers n) (find_erased h k timers m)

-- The other handles of a list are what is left of it.
erase_others : (P : ℕ → Type 0) (h : ℕ) (hs : List ℕ) → All P hs → All P (erase_waiting h hs)
unfolding erase_waiting
erase_others P h [] all = tt
erase_others P h (k ∷ ks) all = elim (Bool-cases (k == h)) [
  | inl e ↦ rw e all.1
  | inr e ↦ rw e (all.0, erase_others P h ks all.1)
]

erase-Ordered :
    (timers : List TimerInfo) (h : ℕ) (hs : List ℕ)
    → Ordered timers hs
    → Ordered timers (erase_waiting h hs)
unfolding erase_waiting
erase-Ordered timers h [] o = tt
erase-Ordered timers h (k ∷ ks) o = elim (Bool-cases (k == h)) [
  | inl e ↦ rw e o.1
  | inr e ↦
      rw e
        (erase_others (λ j. is_before timers j k ≡ false) h ks o.0, erase-Ordered timers h ks o.1)
]

-- No handle of the list is this one.
abbrev pub Others : ℕ → List ℕ → Type 0
Others h hs = All (λ k. (k == h) ≡ false) hs

erased-Others : (h : ℕ) (hs : List ℕ) → Distinct hs → Others h (erase_waiting h hs)
unfolding erase_waiting
erased-Others h [] d = tt
erased-Others h (k ∷ ks) d = elim (Bool-cases (k == h)) [
  | inl e ↦ rw e (subst (λ x. All (λ j. (j == x) ≡ false) ks) ((==_iff k h).0 e) d.0)
  | inr e ↦ rw e (e, erased-Others h ks d.1)
]

erase-Distinct : (h : ℕ) (hs : List ℕ) → Distinct hs → Distinct (erase_waiting h hs)
unfolding erase_waiting
erase-Distinct h [] d = tt
erase-Distinct h (k ∷ ks) d = elim (Bool-cases (k == h)) [
  | inl e ↦ rw e d.1
  | inr e ↦ rw e (erase_others (λ j. (j == k) ≡ false) h ks d.0, erase-Distinct h ks d.1)
]

still_compared :
    (timers : List TimerInfo) (h k : ℕ) (ks : List ℕ)
    → (k == h) ≡ false
    → Others h ks
    → All (λ j. is_before timers j k ≡ false) ks
    → All (λ j. is_before (erase_timer h timers) j k ≡ false) ks
still_compared timers h k [] n out all = tt
still_compared timers h k (j ∷ ks) n out all =
    (compare_erased h j k timers out.0 n ∙ all.0, still_compared timers h k ks n out.1 all.1)

still_Ordered :
    (timers : List TimerInfo) (h : ℕ) (hs : List ℕ)
    → Others h hs
    → Ordered timers hs
    → Ordered (erase_timer h timers) hs
still_Ordered timers h [] out o = tt
still_Ordered timers h (k ∷ ks) out o =
    (still_compared timers h k ks out.0 out.1 o.0, still_Ordered timers h ks out.1 o.1)

-- If the waiting timers are in order and none waits twice, then after remove the timer does not
-- wait, no timer waits twice, those that wait are in order, and every other timer is what it
-- was.
pub remove_lem :
    (h k : ℕ) (s : Manager)
    → IsOrdered s
    → Distinct s.waiting
    → (k == h) ≡ false
    → Others h (remove h s).1.waiting
      × (Distinct (remove h s).1.waiting
          × (IsOrdered (remove h s).1
              × (find_timer k (remove h s).1.timers ≡ find_timer k s.timers)))
unfolding remove
remove_lem h k s o d n =
    let out = erased-Others h s.waiting d in
    (
      out,
      (
        erase-Distinct h s.waiting d,
        (
          still_Ordered s.timers h (erase_waiting h s.waiting) out
              (erase-Ordered s.timers h s.waiting o),
          find_erased h k s.timers n,
        ),
      ),
    )
