-- ===== src/Application.antt =====
-- Source/Application/Application.h: the name of the program and `initialize`, over what the command
-- line was parsed into and what the operating system answers. A text is a C string without its end.
pub mod Starting
pub mod Naming
pub mod Examples
use se_navi_common.Common.{
  ℕ, zero, suc, ◌+◌, ◌==◌, Bool, true, false, ◌&&◌, not, if◌then◌else◌, ltb, List, [], ◌∷◌, ◌++◌,
  length, take, drop, Option, none, some, Result, ok, err, and_then,
}
use se_navi_common.Common.Int.{ℤ, pos, ltb_ℤ, ◌-ℤ◌}
use se_navi_common.Common.Text.{codes}
use se_navi_common.Config.{String, find_last}
use se_navi_common.Config.AutoVal.{of_int}
use se_navi_common.Time.Utils.{Tm}
use se_navi_common.Time.Clock.{Clock, init}
use se_navi_common.Console.{
  Console, console_of, Overrun, buffer_overrun, Output, to_stdout, put_line, debug, show_debug_on,
  Redirected, redirect,
}

-- `substr(last_slash_index + 1, -1)`; an index of -1 is none.
abbrev pub behind_slash : Option ℕ → String → String
behind_slash none path = path
behind_slash (some i) path = drop (suc i) path

-- `getSelfName`, given what the link of the program points to. `readlink` writes at most 1024
-- characters and no end, so that a path of so many is read beyond the array.
unfoldable pub get_self_name : Option String → Result Overrun String
get_self_name none = ok []
get_self_name (some target) =
    let full_path = take 1024 target in
    if length full_path == 0
    then ok []
    else if ltb (length full_path) 1024
    then ok (behind_slash (find_last (λ c. c == b'/') full_path) full_path)
    else err buffer_overrun

-- The constructor.
abbrev pub new_console : Option String → Result Overrun Console
new_console target = and_then (get_self_name target) λ self_name. ok (console_of self_name)

-- The options that `parse_command_line` finds.
pub record Options : Type 0 where
  pub help : Bool
  pub log : Bool
  pub verbose : Bool
  pub core : Option ℤ

-- What the rest of the world answers: the local time at each line of the log, the fifo of the log
-- (whether it can be made, and what `open` returns), `get_nprocs`, whether `sched_setaffinity` takes a
-- mask, the cores of `sched_getaffinity` (none: it fails), `getpid`, and the help text.
pub record Machine : Type 0 where
  pub local_time : ℕ → Tm
  pub makes : String → Bool
  pub opens : String → ℤ
  pub cpu_core_num : ℕ
  pub sets_affinity : Option ℤ → Bool
  pub affinity : Option (ℕ → Bool)
  pub pid : ℤ
  pub help_text : String

-- The console and what has been printed.
abbrev pub Run : Type 0
Run = Console × List Output

module _ (sys : Machine) where
  abbrev pub printed_by : Run → Result Overrun Output → Result Overrun Run
  printed_by r out = and_then out λ o. ok (r.0, r.1 ++ (o ∷ []))

  -- A line of a level.
  unfoldable pub say : ℕ → String → Run → Result Overrun Run
  say level text r = printed_by r (put_line level r.0 (sys.local_time (length r.1)) text)

  abbrev pub with_debug : Run → Option Output → Run
  with_debug r none = r
  with_debug r (some o) = (r.0, r.1 ++ (o ∷ []))

  unfoldable pub say_debug : String → Run → Result Overrun Run
  say_debug text r =
      and_then (debug r.0 (sys.local_time (length r.1)) text) λ o. ok (with_debug r o)

  abbrev pub redirected : Run → Redirected → Run
  redirected r d = with_debug (d.console, r.1) d.printed_line

  -- `if(vm.count("log")) console.redirect();`, whose result is not looked at.
  unfoldable pub start_log : Bool → Run → Result Overrun Run
  start_log log r =
      if log
      then and_then (redirect sys.makes sys.opens r.0 (sys.local_time (length r.1)))
          (λ d. ok (redirected r d))
      else ok r

  -- `CPU_SET` into an empty mask of 1024 cores: another number leaves it empty.
  abbrev pub mask_of : ℤ → Option ℤ
  mask_of core_id =
      if ltb_ℤ core_id (pos 1024) && not (ltb_ℤ core_id (pos 0)) then some core_id else none

  -- The first core in the mask, from `i` on.
  unfoldable pub first_core : (ℕ → Bool) → ℕ → ℕ → Option ℕ
  first_core get i zero = none
  first_core get i (suc n) = let rest = first_core get (suc i) n in if get i then some i else rest

  abbrev pub say_core : Option ℕ → Run → Result Overrun Run
  say_core none r = ok r
  say_core (some i) r =
      say_debug
        (codes "this process "
          ++ (of_int sys.pid ++ (codes " is running processor : " ++ of_int (pos i))))
        r

  abbrev pub cores_of : Option (ℕ → Bool) → ℕ → Bool
  cores_of none i = false
  cores_of (some get) i = get i

  -- A warning where a call of the system has failed.
  abbrev pub warned : Bool → String → Run → Result Overrun Run
  warned failed text r = if failed then say b'W' text r else ok r

  abbrev pub is_missing : Option (ℕ → Bool) → Bool
  is_missing none = true
  is_missing (some get) = false

  -- Behind the call of `sched_setaffinity`.
  unfoldable pub show_core : Run → Result Overrun Run
  show_core r =
      and_then (warned (is_missing sys.affinity) (codes "cound not get cpu affinity") r)
        λ r'. say_core (first_core (cores_of sys.affinity) 0 sys.cpu_core_num) r'

  -- "CPU has %d core, let application runs on core %d."
  abbrev pub core_text : ℤ → String
  core_text core_id =
      codes "CPU has "
      ++ (of_int (pos sys.cpu_core_num)
          ++ (codes " core, let application runs on core " ++ (of_int core_id ++ codes ".")))

  unfoldable pub bind_core : ℤ → Run → Result Overrun Run
  bind_core core_id r = and_then (say b'M' (core_text core_id) r) λ r'.
      and_then
        (warned (not (sys.sets_affinity (mask_of core_id)))
          (codes "could not set CPU affinity, continuing") r')
        λ r''. show_core r''

  abbrev pub returned : Bool → Result Overrun Run → Result Overrun (Bool × Run)
  returned result r = and_then r λ r'. ok (result, r')

  -- `core_id > (cpu_core_num - 1)`.
  abbrev pub is_invalid : ℤ → Bool
  is_invalid core_id = ltb_ℤ (pos sys.cpu_core_num -ℤ pos 1) core_id

  unfoldable pub choose_core : Option ℤ → Run → Result Overrun (Bool × Run)
  choose_core none r = ok (true, r)
  choose_core (some core_id) r =
      if is_invalid core_id
      then returned false (say b'E' (codes "invalid core id!") r)
      else returned true (bind_core core_id r)

  -- `console.showDebug(...)`.
  abbrev pub set_verbose : Bool → Run → Run
  set_verbose verbose r = (show_debug_on verbose r.0, r.1)

  -- Behind the parsing of the command line. The help goes to the standard output.
  unfoldable pub apply_options : Options → Run → Result Overrun (Bool × Run)
  apply_options options r =
      if options.help
      then ok (false, (r.0, r.1 ++ (to_stdout sys.help_text ∷ [])))
      else and_then (start_log options.log (set_verbose options.verbose r))
          λ r'. choose_core options.core r'

  -- `initialize`: the clock, what it returns, the console and what it prints.
  unfoldable pub initialize : Options → Clock → Console → Clock × Result Overrun (Bool × Run)
  initialize options clock console = (
    init clock,
    and_then (say b'M' (codes "Application is initializing...") (console, []))
        (λ r. apply_options options r),
  )
