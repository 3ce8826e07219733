-- ===== src/Console/Examples.antt =====
-- Lines of Source/Console/Console.h.
use se_navi_common.Common.{◌+◌, ◌≤◌, ◌≡◌, refl, [], ◌∷◌, length, ok, arith}
use se_navi_common.Common.Int.{pos, ◌+ℤ◌}
use se_navi_common.Config.AutoVal.{digits, of_int}
use se_navi_common.Time.Utils.{Tm, get_time_string}
use se_navi_common.Console.{console_of, output, put_line}
use se_navi_common.Console.Bounds.{IsTm, whole, put_line_lem}

abbrev pub noon : Tm
noon = record {
  tm_year = pos 116;
  tm_mon = pos 9;
  tm_mday = pos 17;
  tm_hour = pos 12;
  tm_min = pos 0;
  tm_sec = pos 5;
}

abbrev pub noon-IsTm : IsTm noon
noon-IsTm = record {
  year = (refl, omega arith);
  mon = (refl, omega arith);
  mday = (refl, omega arith);
  hour = (refl, omega arith);
  min = (refl, omega arith);
  sec = (refl, omega arith);
}

line_example :
    (put_line b'M' (console_of (b'a' ∷ [])) noon (b'h' ∷ b'i' ∷ [])
      ≡ ok (
          output
            (console_of (b'a' ∷ []))
            (whole b'M' (console_of (b'a' ∷ [])) noon (b'h' ∷ b'i' ∷ []))))
    × (length (whole b'M' (console_of (b'a' ∷ [])) noon (b'h' ∷ b'i' ∷ [])) ≤ 927 + 1)
unfolding get_time_string of_int digits ◌+ℤ◌
line_example = put_line_lem b'M' (console_of (b'a' ∷ [])) noon (b'h' ∷ b'i' ∷ []) noon-IsTm
