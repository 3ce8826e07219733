-- ===== src/Time/Cycle/Schedule.antt =====
-- When a rate sleeps and when its next cycle starts (Source/Time/Rate.cpp).
use se_navi_common.Common.{
  ℕ, ◌+◌, ◌*◌, ◌^◌, ◌≤◌, ◌<◌, ◌≡◌, ◌↔◌, refl, sym, ap, ◌∙◌, subst, Bool, true, false, Bool-cases,
  inl, inr, none, some, if◌then◌else◌, ltb, ltb→lt, ltb→ge, ok, arith,
}
use se_navi_common.Common.Int.{pos, pos_part, neg_part, ◌+ℤ◌, ◌-ℤ◌, ◌·ℤ◌, int_laws, sum_laws}
use se_navi_common.Time.{
  Time, Duration, giga, time_total, duration_total, TellsTime, TellsDuration, IsValidTime,
  IsValidDuration, InDurationRange,
}
use se_navi_common.Time.Stamp
use se_navi_common.Time.Span
use se_navi_common.Time.Order.{time_order, duration_order}
use se_navi_common.Time.Arithmetic.{add-TellsTime, sub-TellsDuration}
use se_navi_common.Time.Conversion.{TellsTime-eq-ok, TellsDuration-eq-ok}
use se_navi_common.Time.Cycle.{Rate, no_time, late_cycle, settle, from_end, first_end, sleep}

pub add_is :
    (t u : Time) (d : Duration)
    → IsValidTime t
    → IsValidTime u
    → IsValidDuration d
    → pos (time_total u) ≡ pos (time_total t) +ℤ duration_total d
    → Stamp.add t d ≡ ok u
add_is t u d ht hu hd e =
    TellsTime-eq-ok u (Stamp.add t d) hu
      (subst (λ z. TellsTime z (Stamp.add t d)) (sym e) (add-TellsTime t d ht hd))

-- Times that are less than 2 ^ 30 seconds apart.
abbrev pub IsNear : Time → Time → Type 0
IsNear t u =
    (time_total t < time_total u + giga * 2 ^ 30) × (time_total u < time_total t + giga * 2 ^ 30)

sub_is :
    (t u : Time) (d : Duration)
    → IsValidTime t
    → IsValidTime u
    → IsValidDuration d
    → IsNear t u
    → duration_total d ≡ pos (time_total t) -ℤ pos (time_total u)
    → Stamp.sub t u ≡ ok d
sub_is t u d ht hu hd near e =
    TellsDuration-eq-ok d (Stamp.sub t u) (subst InDurationRange (sym e) (omega int_laws)) hd (
      subst (λ z. TellsDuration z (Stamp.sub t u)) (sym e)
        (sub-TellsDuration t u ht hu (unfold time_total in omega int_laws)))

-- A test that decides a statement is false where the statement does not hold.
pub refuted : {P : Type 0} (b : Bool) → (b ≡ true) ↔ P → ¬ P → b ≡ false
refuted true h n = absurd (n (h.0 refl))
refuted false h n = refl

pub decided : (b : Bool) (m n : ℕ) → (b ≡ true) ↔ (m < n) → b ≡ ltb m n
decided b m n h = elim (Bool-cases (ltb m n)) [
  | inl e ↦ rw e (h.1 (ltb→lt m n e))
  | inr e ↦ let ge = ltb→ge m n e in rw e (refuted b h (omega arith))
]

no_time-total : duration_total no_time ≡ pos 0
unfolding duration_total ◌+ℤ◌ ◌·ℤ◌
no_time-total = refl

module _ (r : Rate) (now ends limit : Time) (d a : Duration) (hs : IsValidTime r.start)
    (hn : IsValidTime now) (he : IsValidTime ends) (hl : IsValidTime limit)
    (hc : IsValidDuration r.expected_cycle_time) (hd : IsValidDuration d) (ha : IsValidDuration a)
    (one : pos (time_total ends) ≡ pos (time_total r.start) +ℤ duration_total r.expected_cycle_time)
    (two : pos (time_total limit) ≡ pos (time_total ends) +ℤ duration_total r.expected_cycle_time)
    (left : duration_total d ≡ pos (time_total ends) -ℤ pos (time_total now))
    (took : duration_total a ≡ pos (time_total now) -ℤ pos (time_total r.start))
    (forward : time_total r.start ≤ time_total now) (near_end : IsNear ends now)
    (near_start : IsNear now r.start) where
  settled : sleep now r ≡ settle now ends (ok d) (ok a) r
  unfolding sleep first_end from_end
  settled = rw (
    add_is r.start ends r.expected_cycle_time hs he hc one,
    refuted (Stamp.less now r.start) (time_order now r.start hn hs).0 (omega arith),
    sub_is ends now d he hn hd near_end left,
    sub_is now r.start a hn hs ha near_start took,
  )

  late_cycle_lem :
      late_cycle now
        (Stamp.add ends r.expected_cycle_time)
        (record r { start = ends; actual_cycle_time = a })
      ≡ (
        ok none,
        if ltb (time_total limit) (time_total now)
            then record r { start = now; actual_cycle_time = a }
            else record r { start = ends; actual_cycle_time = a },
      )
  unfolding late_cycle
  late_cycle_lem = rw (add_is ends limit r.expected_cycle_time he hl hc two) (
      ap
        (λ b. (
          ok none,
          if b
              then record r { start = now; actual_cycle_time = a }
              else record r { start = ends; actual_cycle_time = a },
        ))
        (decided (Stamp.greater now limit) (time_total limit) (time_total now)
          (time_order now limit hn hl).2))

  short : time_total now < time_total ends → Span.less_equal d no_time ≡ false
  short h = refuted (Span.less_equal d no_time) (duration_order d no_time hd (omega arith)).1 (λ le.
      omega (
        sum_laws,
        ap pos_part left,
        ap neg_part left,
        ap pos_part no_time-total,
        ap neg_part no_time-total,
      ))

  none_left : time_total ends ≤ time_total now → Span.less_equal d no_time ≡ true
  none_left h = (duration_order d no_time hd (omega arith)).1.1 (
      omega (
        sum_laws,
        ap pos_part left,
        ap neg_part left,
        ap pos_part no_time-total,
        ap neg_part no_time-total,
      ))

  -- Rate::sleep where the clock has not gone back: for well-formed values, with a clock reading
  -- less than 2 ^ 30 seconds from the start and from the end of the cycle, and with the end of
  -- the next cycle in range. Before the end of the cycle it sleeps for what is left of it;
  -- otherwise it returns false. The next cycle starts at the end of this one, but at the reading
  -- where that is behind the end of the next cycle too. The actual cycle time is the reading
  -- less the start.
  pub sleep_schedule : sleep now r ≡ (
      if ltb (time_total now) (time_total ends)
      then (ok (some d), record r { start = ends; actual_cycle_time = a })
      else (
        ok none,
        if ltb (time_total limit) (time_total now)
            then record r { start = now; actual_cycle_time = a }
            else record r { start = ends; actual_cycle_time = a },
      ))
  unfolding settle
  sleep_schedule = settled ∙ elim (Bool-cases (ltb (time_total now) (time_total ends))) [
    | inl e ↦ rw (e, short (ltb→lt (time_total now) (time_total ends) e))
    | inr e ↦ rw (e, none_left (ltb→ge (time_total now) (time_total ends) e)) late_cycle_lem
  ]
