-- ===== src/Config/Assignment.antt =====
-- The conversions of `AutoVal` (Source/ConfigFile/ConfigFile.cpp) between texts and unsigned or
-- floating-point numbers, and its assignments. An `AutoVal` is its `m_value`.
use se_navi_common.Common.{ℕ, ◌^◌, ◌<◌, ◌≡◌, refl, ap, ◌∙◌, Bool, List, Option, none, some, arith}
use se_navi_common.Common.Int.{ℤ, pos, u32, u32_id}
use se_navi_common.Config.{String, Entry, value_default}
use se_navi_common.Config.AutoVal.{of_int, to_int, to_int-of_int, of_bool}

-- `AutoVal(unsigned int)`.
pub of_unsigned : ℕ → String
unfolding of_int
of_unsigned n = of_int (pos n)

abbrev pub as_unsigned : Option ℤ → Option ℕ
as_unsigned none = none
as_unsigned (some z) = some (u32 z)

-- `operator unsigned int`. None: `atoi` is undefined.
unfoldable pub to_unsigned : String → Option ℕ
to_unsigned s = as_unsigned (to_int s)

-- `operator=`: what the `AutoVal` was before is gone.
pub assign_copy : String → String → String
assign_copy other m_value = other

pub assign_text : String → String → String
assign_text s m_value = s

pub assign_bool : Bool → String → String
assign_bool d m_value = of_bool d

pub assign_int : ℤ → String → String
assign_int i m_value = of_int i

pub assign_unsigned : ℕ → String → String
assign_unsigned i m_value = of_unsigned i

-- Numbers of type `double`, given how a stream writes them and `atof`.
module _ {F : Type 0} (print_double : F → String) (atof : String → F) where
  pub of_double : F → String
  of_double d = print_double d

  pub assign_double : F → String → String
  assign_double d m_value = of_double d

  pub to_double : String → F
  to_double s = atof s

-- An unsigned number that fits into an `int` comes back.
pub to_unsigned-of_unsigned : (n : ℕ) → n < 2 ^ 31 → to_unsigned (of_unsigned n) ≡ some n
unfolding to_unsigned of_unsigned
to_unsigned-of_unsigned n h =
    ap as_unsigned (to_int-of_int (pos n) (omega (arith, h)))
    ∙ ap some (u32_id (pos n) refl (omega (arith, h)))

-- `value` with a default of each type.
pub value_bool : String → String → Bool → List Entry → String × List Entry
value_bool section entry def content = value_default section entry (of_bool def) content

pub value_int : String → String → ℤ → List Entry → String × List Entry
value_int section entry def content = value_default section entry (of_int def) content

pub value_unsigned : String → String → ℕ → List Entry → String × List Entry
value_unsigned section entry def content = value_default section entry (of_unsigned def) content

pub value_double :
    {F : Type 0} → (F → String) → String → String → F → List Entry → String × List Entry
value_double print_double section entry def content =
    value_default section entry (print_double def) content
