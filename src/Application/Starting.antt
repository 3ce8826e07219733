-- ===== src/Application/Starting.antt =====
-- What `initialize` of Source/Application/Application.h returns, for programs with a short name.
use se_navi_common.Common.{
  ℕ, ◌≤◌, ◌≡◌, refl, ap, ◌∙◌, Bool, true, false, Bool-cases, inl, inr, ◌&&◌, not, if◌then◌else◌,
  lt→ltb, [], length, Option, none, some, Result, ok, and_then, arith,
}
use se_navi_common.Common.Int.{ℤ, pos, ◌-ℤ◌, ltb_ℤ}
use se_navi_common.Config.{String}
use se_navi_common.Time.Utils.{Tm}
use se_navi_common.Time.Clock.{Clock, init}
use se_navi_common.Console.{
  Console, Overrun, Output, output, put_line, debug, shown, error, show_debug_on, redirect,
  redirect_failed, opened, make_fails, open_fails, log_fifo_path,
}
use se_navi_common.Console.Bounds.{IsTm, whole, put_line_lem}
use se_navi_common.Application.{
  Options, Machine, Run, printed_by, say, with_debug, say_debug, redirected, start_log, say_core,
  warned, is_missing, first_core, cores_of, show_core, core_text, mask_of, bind_core, returned,
  is_invalid, choose_core, set_verbose, apply_options, initialize,
}

-- A line of a program with a short name is put out.
put_line_short :
    (level : ℕ) (c : Console) (now : Tm) (text : String)
    → IsTm now
    → length c.app_name ≤ 72
    → put_line level c now text ≡ ok (output c (whole level c now text))
put_line_short level c now text h short =
    let (puts, bound) = put_line_lem level c now text h in
    puts ∙ (rw (lt→ltb (length (whole level c now text)) 1000 (omega (arith, bound, short))) refl)

-- The name and the debug switch of a console.
abbrev pub Keeps : Console → Console → Type 0
Keeps c c' = (c'.app_name ≡ c.app_name) × (c'.show_debug ≡ c.show_debug)

-- A run that is all right, and keeps these of the console.
abbrev pub Goes : Console → Result Overrun Run → Type 0
Goes c result = (r : Run) × ((result ≡ ok r) × Keeps c r.0)

Goes-then :
    (c : Console) (first : Result Overrun Run) (next : Run → Result Overrun Run)
    → Goes c first
    → ((r : Run) → Keeps c r.0 → Goes c (next r))
    → Goes c (and_then first next)
Goes-then c first next (r, (e, keeps)) h =
    let (r', (e', keeps')) = h r keeps in (r', (ap (λ x. and_then x next) e ∙ e', keeps'))

-- The core, if one is chosen, is less than the number of cores.
abbrev pub is_core_fine : Machine → Option ℤ → Bool
is_core_fine sys none = true
is_core_fine sys (some core_id) = ltb_ℤ core_id (pos sys.cpu_core_num)

invalid_core : (n : ℕ) (z : ℤ) → ltb_ℤ (pos n -ℤ pos 1) z ≡ true → ltb_ℤ z (pos n) ≡ false
unfolding ◌-ℤ◌
invalid_core n z e = ground arith

valid_core : (n : ℕ) (z : ℤ) → ltb_ℤ (pos n -ℤ pos 1) z ≡ false → ltb_ℤ z (pos n) ≡ true
unfolding ◌-ℤ◌
valid_core n z e = ground arith

module _ (sys : Machine) (times : (i : ℕ) → IsTm (sys.local_time i)) (c : Console)
    (short : length c.app_name ≤ 72) where
  Keeps-short : (c' : Console) → Keeps c c' → length c'.app_name ≤ 72
  Keeps-short c' k = omega (arith, short, ap length k.0)

  Goes-say : (level : ℕ) (text : String) (r : Run) → Keeps c r.0 → Goes c (say sys level text r)
  unfolding say
  Goes-say level text r k = (
    _,
    (
      ap (printed_by sys r) (
          put_line_short level r.0 (sys.local_time (length r.1)) text (times (length r.1))
            (Keeps-short r.0 k)),
      k,
    ),
  )

  debug_switch :
      (b : Bool) (c' : Console) (now : Tm) (text : String)
      → c'.show_debug ≡ b
      → debug c' now text ≡ (if not b then ok none else shown (put_line b'D' c' now text))
  unfolding debug
  debug_switch b c' now text e =
      ap (λ x. if not x then ok none else shown (put_line b'D' c' now text)) e

  Goes-say_debug : (text : String) (r : Run) → Keeps c r.0 → Goes c (say_debug sys text r)
  unfolding say_debug
  Goes-say_debug text r k =
      let now = sys.local_time (length r.1) in
      let after =
        λ (x : Result Overrun (Option Output)). and_then x (λ o. ok (with_debug sys r o)) in
      elim (Bool-cases r.0.show_debug) [
        | inl e ↦ (
          _,
          (
            ap after (
                debug_switch true r.0 now text e
                ∙ ap shown
                    (put_line_short b'D' r.0 now text (times (length r.1)) (Keeps-short r.0 k))),
            k,
          ),
        )
        | inr e ↦ (r, (ap after (debug_switch false r.0 now text e), k))
      ]

  Goes-warned :
      (failed : Bool) (text : String) (r : Run) → Keeps c r.0 → Goes c (warned sys failed text r)
  Goes-warned true text r k = Goes-say b'W' text r k
  Goes-warned false text r k = (r, (refl, k))

  Goes-redirect_failed :
      (c' : Console) (now : Tm) (text : String) (r : Run)
      → IsTm now
      → Keeps c c'
      → Goes c (and_then (redirect_failed c' now text) (λ d. ok (redirected sys r d)))
  unfolding error
  Goes-redirect_failed c' now text r h k = (
    _,
    (
      ap
          (λ x.
            and_then
              (and_then x (λ out. ok (record {
                result = false;
                console = c';
                printed_line = some out;
                masks_stdout = false;
              })))
              (λ d. ok (redirected sys r d)))
          (put_line_short b'E' c' now text h (Keeps-short c' k)),
      k,
    ),
  )

  Goes-opened :
      (id : ℤ) (now : Tm) (r : Run)
      → IsTm now
      → Keeps c r.0
      → Goes c (and_then (opened id r.0 now) (λ d. ok (redirected sys r d)))
  Goes-opened id now r h k = elim (Bool-cases (ltb_ℤ id (pos 0))) [
    | inl e ↦ rw e (Goes-redirect_failed (record r.0 { log_fifo_id = id }) now open_fails r h k)
    | inr e ↦ rw e (_, (refl, k))
  ]

  Goes-start_log : (log : Bool) (r : Run) → Keeps c r.0 → Goes c (start_log sys log r)
  unfolding start_log redirect
  Goes-start_log false r k = (r, (refl, k))
  Goes-start_log true r k =
      let now = sys.local_time (length r.1) in
      elim (Bool-cases (sys.makes (log_fifo_path r.0))) [
        | inl e ↦ rw e (Goes-opened (sys.opens (log_fifo_path r.0)) now r (times (length r.1)) k)
        | inr e ↦ rw e (Goes-redirect_failed r.0 now make_fails r (times (length r.1)) k)
      ]

  Goes-say_core : (core : Option ℕ) (r : Run) → Keeps c r.0 → Goes c (say_core sys core r)
  Goes-say_core none r k = (r, (refl, k))
  Goes-say_core (some i) r k = Goes-say_debug _ r k

  Goes-show_core : (r : Run) → Keeps c r.0 → Goes c (show_core sys r)
  unfolding show_core
  Goes-show_core r k =
      Goes-then c (warned sys (is_missing sys sys.affinity) _ r) _
        (Goes-warned (is_missing sys sys.affinity) _ r k)
        (λ r' k'.
          Goes-say_core (first_core sys (cores_of sys sys.affinity) 0 sys.cpu_core_num) r' k')

  Goes-bind_core : (core_id : ℤ) (r : Run) → Keeps c r.0 → Goes c (bind_core sys core_id r)
  unfolding bind_core
  Goes-bind_core core_id r k =
      Goes-then c (say sys b'M' (core_text sys core_id) r) _
        (Goes-say b'M' (core_text sys core_id) r k)
        λ r' k'.
          Goes-then c (warned sys (not (sys.sets_affinity (mask_of sys core_id))) _ r') _
            (Goes-warned (not (sys.sets_affinity (mask_of sys core_id))) _ r' k')
            λ r'' k''. Goes-show_core r'' k''

  -- A start that is all right and returns a result.
  abbrev pub Returns : Console → Bool → Result Overrun (Bool × Run) → Type 0
  Returns c' result start = (r : Run) × ((start ≡ ok (result, r)) × Keeps c' r.0)

  Returns-returned :
      (result : Bool) (step : Result Overrun Run)
      → Goes c step
      → Returns c result (returned sys result step)
  Returns-returned result step (r, (e, k)) = (r, (ap (returned sys result) e, k))

  Returns-choose_core :
      (core : Option ℤ) (r : Run)
      → Keeps c r.0
      → Returns c (is_core_fine sys core) (choose_core sys core r)
  unfolding choose_core
  Returns-choose_core none r k = (r, (refl, k))
  Returns-choose_core (some core_id) r k = elim (Bool-cases (is_invalid sys core_id)) [
    | inl e ↦
        rw (e, invalid_core sys.cpu_core_num core_id e)
          (Returns-returned false _ (Goes-say b'E' _ r k))
    | inr e ↦
        rw (e, valid_core sys.cpu_core_num core_id e)
          (Returns-returned true _ (Goes-bind_core core_id r k))
  ]

-- The options, behind a run that has kept the console.
Returns-apply_options :
    (sys : Machine) (times : (i : ℕ) → IsTm (sys.local_time i)) (options : Options) (c : Console)
    (r : Run)
    → length c.app_name ≤ 72
    → Keeps c r.0
    → (r' : Run) × ((apply_options sys options r
          ≡ ok (not options.help && is_core_fine sys options.core, r'))
        × Keeps (if options.help then c else show_debug_on options.verbose c) r'.0)
unfolding apply_options
Returns-apply_options sys times options c r short k = elim (Bool-cases options.help) [
  | inl e ↦ rw e (_, (refl, k))
  | inr e ↦ rw e (
      let c' = show_debug_on options.verbose c in
      let (r', (e', k')) =
        Goes-start_log sys times c' short options.log (set_verbose sys options.verbose r)
          (k.0, refl) in
      let (r'', (e'', k'')) = Returns-choose_core sys times c' short options.core r' k' in
      (r'', (ap (λ x. and_then x (λ y. choose_core sys options.core y)) e' ∙ e'', k'')))
]

-- For a program whose name has at most 72 characters, and local times of which all fields are in
-- their ranges and the year has four digits: initialize initializes the clock, overruns no
-- buffer whatever the system answers, and returns true exactly if no help is asked for and the
-- core, if one is given, is less than the number of cores; the console keeps its name, and shows
-- debug lines if it was asked to, or as before where help is asked for.
pub initialize_lem :
    (sys : Machine) (options : Options) (clock : Clock) (c : Console)
    → ((i : ℕ) → IsTm (sys.local_time i))
    → length c.app_name ≤ 72
    → (r : Run) × ((initialize sys options clock c
          ≡ (init clock, ok (not options.help && is_core_fine sys options.core, r)))
        × Keeps (if options.help then c else show_debug_on options.verbose c) r.0)
unfolding initialize
initialize_lem sys options clock c times short =
    let (r, (e, k)) = Goes-say sys times c short b'M' _ (c, []) (refl, refl) in
    let (r', (e', k')) = Returns-apply_options sys times options c r short k in
    (
      r',
      (
        ap (λ x. (init clock, x)) (ap (λ x. and_then x (λ y. apply_options sys options y)) e ∙ e'),
        k',
      ),
    )
