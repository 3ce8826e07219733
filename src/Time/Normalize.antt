-- ===== src/Time/Normalize.antt =====
-- The three normalizations keep the number of nanoseconds, bring the second part below a second, and
-- throw exactly where the first part leaves its 32 bits.
use se_navi_common.Common.{
  ℕ, suc, ◌+◌, ◌*◌, ◌/◌, ◌%◌, ◌^◌, ◌≤◌, ◌<◌, ◌≡◌, refl, ◌⊎◌, inl, inr, Bool-cases, ltb, ltb→lt,
  ltb→ge, subst, and_then, arith,
}
use se_navi_common.Common.Int.{
  ℤ, pos, negsuc, pos_part, neg_part, ◌+ℤ◌, ◌-ℤ◌, ◌·ℤ◌, tdiv, tmod, u32, u32_id, eq_of_parts,
  i64_id, i32_id, IsInt32, int_laws, ltb_ℤ, ltb_ℤ→lt, ltb_ℤ→ge, negated_pos, negated_neg,
}
use se_navi_common.Time.{
  giga, int_max, uint_max, TellsTime, time_total, TellsDuration, duration_total, carry,
  normalize_sec_nsec, normalize_sec_nsec_unsigned, normalize_sec_nsec_signed, make_time,
  make_duration,
}

-- `p` stands for the same time as `sec` and `nsec`, with nanoseconds below a second.
pub record Carried (sec nsec : ℤ) (p : ℤ × ℤ) : Type 0 where
  pub nonneg : neg_part p.1 ≡ 0
  pub below : pos_part p.1 < giga
  pub same :
      giga * pos_part p.0 + pos_part p.1 + giga * neg_part sec + neg_part nsec
      ≡ giga * neg_part p.0 + giga * pos_part sec + pos_part nsec

-- Far from the bounds of `int64_t`.
abbrev pub IsModerate : ℤ → Type 0
IsModerate z = (neg_part z ≤ 2 ^ 62) × (pos_part z ≤ 2 ^ 62)

-- The quotient and the remainder of C have the sign of the dividend.
pub tdiv-tmod :
    (n : ℤ)
    → (pos_part n ≡ giga * pos_part (tdiv n giga) + pos_part (tmod n giga))
      × (neg_part n ≡ giga * neg_part (tdiv n giga) + neg_part (tmod n giga))
      × (pos_part (tmod n giga) < giga)
      × (neg_part (tmod n giga) < giga)
tdiv-tmod (pos n) = omega arith
tdiv-tmod (negsuc n) = omega (
  arith,
  negated_pos (suc n / giga),
  negated_neg (suc n / giga),
  negated_pos (suc n % giga),
  negated_neg (suc n % giga),
)

-- A number has a positive or a negative part, not both.
pub one_part : (z : ℤ) → (pos_part z ≡ 0) ⊎ (neg_part z ≡ 0)
one_part (pos n) = inr refl
one_part (negsuc n) = inl refl

pub carry-Carried :
    (sec nsec : ℤ) → IsModerate sec → IsModerate nsec → Carried sec nsec (carry sec nsec)
unfolding carry
carry-Carried sec nsec hs hn = elim (Bool-cases (ltb_ℤ (tmod nsec giga) (pos 0))) [
  | inl e ↦
      let lt = ltb_ℤ→lt (tmod nsec giga) (pos 0) e in
      rw
        (
          e,
          i64_id (sec +ℤ tdiv nsec giga) (omega (int_laws, tdiv-tmod nsec)),
          i64_id (sec +ℤ tdiv nsec giga -ℤ pos 1) (omega (int_laws, tdiv-tmod nsec)),
        )
        (record {
          nonneg = omega (int_laws, tdiv-tmod nsec);
          below = omega (int_laws, tdiv-tmod nsec);
          same = omega (int_laws, tdiv-tmod nsec, one_part (tmod nsec giga));
        })
  | inr e ↦
      let ge = ltb_ℤ→ge (tmod nsec giga) (pos 0) e in
      rw (e, i64_id (sec +ℤ tdiv nsec giga) (omega (int_laws, tdiv-tmod nsec)))
        (record {
          nonneg = omega (int_laws, tdiv-tmod nsec, one_part (tmod nsec giga));
          below = omega (int_laws, tdiv-tmod nsec);
          same = omega (int_laws, tdiv-tmod nsec, one_part (tmod nsec giga));
        })
]

module _ (sec nsec : ℤ) (hs : IsInt32 sec) (hn : IsInt32 nsec) where
  carried : Carried sec nsec (carry sec nsec)
  carried = carry-Carried sec nsec (omega arith) (omega arith)

  -- The constructor of a Duration from any two int32_t numbers gives a well-formed Duration for
  -- the same nanoseconds, or throws, exactly where these are out of the range of a Duration.
  pub make_duration-TellsDuration : TellsDuration (giga ·ℤ sec +ℤ nsec) (make_duration sec nsec)
  unfolding make_duration normalize_sec_nsec_signed duration_total
  make_duration-TellsDuration =
      let c = carried in
      elim (Bool-cases (ltb_ℤ (carry sec nsec).0 (negsuc int_max))) [
        | inl low ↦
            let lt = ltb_ℤ→lt (carry sec nsec).0 (negsuc int_max) low in
            rw low (refl, λ r. omega int_laws)
        | inr not_low ↦
            let ge = ltb_ℤ→ge (carry sec nsec).0 (negsuc int_max) not_low in
            elim (Bool-cases (ltb_ℤ (pos int_max) (carry sec nsec).0)) [
              | inl high ↦
                  let gt = ltb_ℤ→lt (pos int_max) (carry sec nsec).0 high in
                  rw (not_low, high) (refl, λ r. omega int_laws)
              | inr not_high ↦
                  let le = ltb_ℤ→ge (pos int_max) (carry sec nsec).0 not_high in
                  rw
                    (
                      not_low,
                      not_high,
                      i32_id (carry sec nsec).0 (omega (arith, one_part (carry sec nsec).0)),
                      i32_id (carry sec nsec).1 (omega arith),
                    )
                    (omega (int_laws, one_part (carry sec nsec).0))
            ]
      ]

-- The constructor of a Time from any two uint32_t numbers gives a well-formed Time for the same
-- nanoseconds, or throws, exactly where these need more than 32 bits of seconds.
pub make_time-TellsTime :
    (sec nsec : ℕ)
    → sec < 2 ^ 32
    → nsec < 2 ^ 32
    → TellsTime (pos (giga * sec + nsec)) (make_time sec nsec)
unfolding make_time normalize_sec_nsec time_total
make_time-TellsTime sec nsec hs hn =
    elim (Bool-cases (ltb uint_max ((sec + nsec / giga) % 2 ^ 64))) [
      | inl over ↦
          let gt = ltb→lt uint_max ((sec + nsec / giga) % 2 ^ 64) over in
          rw over (refl, λ r. omega arith)
      | inr fits ↦
          let le = ltb→ge uint_max ((sec + nsec / giga) % 2 ^ 64) fits in rw fits (omega int_laws)
    ]

-- The unsigned normalization and the constructor behind it, as they are composed.
module _ (sec nsec : ℤ) (hs : IsModerate sec) (hn : IsModerate nsec) where
  pub unsigned-TellsTime :
      TellsTime
        (giga ·ℤ sec +ℤ nsec)
        (and_then (normalize_sec_nsec_unsigned sec nsec) λ p. make_time (u32 p.0) (u32 p.1))
  unfolding normalize_sec_nsec_unsigned
  unsigned-TellsTime =
      let c = carry-Carried sec nsec hs hn in
      elim (Bool-cases (ltb_ℤ (carry sec nsec).0 (pos 0))) [
        | inl low ↦
            let lt = ltb_ℤ→lt (carry sec nsec).0 (pos 0) low in rw low (refl, λ r. omega int_laws)
        | inr not_low ↦
            let ge = ltb_ℤ→ge (carry sec nsec).0 (pos 0) not_low in
            elim (Bool-cases (ltb_ℤ (pos uint_max) (carry sec nsec).0)) [
              | inl high ↦
                  let gt = ltb_ℤ→lt (pos uint_max) (carry sec nsec).0 high in
                  rw (not_low, high) (refl, λ r. omega int_laws)
              | inr not_high ↦
                  let le = ltb_ℤ→ge (pos uint_max) (carry sec nsec).0 not_high in
                  let whole : neg_part (carry sec nsec).0 ≡ 0 =
                    omega (arith, one_part (carry sec nsec).0) in
                  let small : pos_part (carry sec nsec).0 < 2 ^ 32 =
                    omega (arith, one_part (carry sec nsec).0) in
                  rw
                    (
                      not_low,
                      not_high,
                      u32_id (carry sec nsec).0 whole small,
                      u32_id (carry sec nsec).1 (omega arith) (omega arith),
                    )
                    (subst
                      (λ z.
                        TellsTime z
                          (make_time (pos_part (carry sec nsec).0) (pos_part (carry sec nsec).1)))
                      (eq_of_parts _ _ (omega int_laws))
                      (make_time-TellsTime (pos_part (carry sec nsec).0)
                        (pos_part (carry sec nsec).1) small (omega arith)))
            ]
      ]
