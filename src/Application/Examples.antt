-- ===== src/Application/Examples.antt =====
-- A program of Source/Application/Application.h on a machine with four cores.
use se_navi_common.Common.{◌≡◌, true, false, [], ◌∷◌, some, ok, arith}
use se_navi_common.Common.Int.{pos, ◌-ℤ◌}
use se_navi_common.Config.{String}
use se_navi_common.Time.Clock.{first_clock, init}
use se_navi_common.Console.{console_of, show_debug_on}
use se_navi_common.Console.Examples.{noon, noon-IsTm}
use se_navi_common.Application.{Machine, Options, Run, get_self_name, initialize}
use se_navi_common.Application.Starting.{Keeps, initialize_lem}
use se_navi_common.Application.Naming.{IsNameOf, get_self_name_lem}

abbrev small_machine : Machine
small_machine = record {
  local_time = λ i. noon;
  makes = λ path. true;
  opens = λ path. pos 3;
  cpu_core_num = 4;
  sets_affinity = λ mask. true;
  affinity = some (λ i. true);
  pid = pos 77;
  help_text = [];
}

abbrev bound_options : Options
bound_options = record { help = false; log = true; verbose = true; core = some (pos 1) }

abbrev program_path : String
program_path = b'/' ∷ b'a' ∷ b'/' ∷ b'n' ∷ b'a' ∷ b'v' ∷ []

get_self_name_example :
    (name : String) × ((get_self_name (some program_path) ≡ ok name) × IsNameOf program_path name)
get_self_name_example = get_self_name_lem program_path (omega arith)

initialize_example :
    (r : Run) × ((initialize small_machine bound_options first_clock
          (console_of (b'n' ∷ b'a' ∷ b'v' ∷ []))
        ≡ (init first_clock, ok (true, r)))
      × Keeps (show_debug_on true (console_of (b'n' ∷ b'a' ∷ b'v' ∷ []))) r.0)
unfolding ◌-ℤ◌
initialize_example =
    initialize_lem small_machine bound_options first_clock (console_of (b'n' ∷ b'a' ∷ b'v' ∷ []))
      (λ i. noon-IsTm) (omega arith)
