-- ===== src/Console.antt =====
-- Source/Console/Console.h: lines of a log, that are put together in a buffer of 1000 characters. A
-- text is a C string, without its end.
pub mod Bounds
pub mod Examples
use se_navi_common.Common.{
  ℕ, ◌+◌, ◌-◌, Bool, true, false, ◌&&◌, ◌||◌, not, if◌then◌else◌, leb, ltb, List, [], ◌∷◌, ◌++◌,
  length, take, Option, none, some, Result, ok, err, and_then,
}
use se_navi_common.Common.Int.{ℤ, pos, negsuc, ltb_ℤ}
use se_navi_common.Config.{String}
use se_navi_common.Time.Utils.{Tm, get_time_string}

pub record Console : Type 0 where
  pub app_name : String
  pub show_debug : Bool
  pub log_fifo_id : ℤ

-- The constructors.
abbrev pub unknown_console : Console
unknown_console = record {
  app_name = b'U' ∷ b'N' ∷ b'K' ∷ b'N' ∷ b'O' ∷ b'W' ∷ b'N' ∷ [];
  show_debug = false;
  log_fifo_id = negsuc 0;
}

abbrev pub console_of : String → Console
console_of name = record { app_name = name; show_debug = true; log_fifo_id = negsuc 0 }

-- What the destructor closes.
abbrev pub closed_fifo : Console → Option ℤ
closed_fifo c = if ltb_ℤ (pos 0) c.log_fifo_id then some c.log_fifo_id else none

pub data Overrun : Type 0 where
  buffer_overrun : Overrun

-- `strcat` into an array of `size` characters.
unfoldable pub strcat : ℕ → String → String → Result Overrun String
strcat size out text =
    if leb (length (out ++ text) + 1) size then ok (out ++ text) else err buffer_overrun

-- Several calls of it.
unfoldable pub strcats : ℕ → String → List String → Result Overrun String
strcats size out [] = ok out
strcats size out (text ∷ texts) = and_then (strcat size out text) λ out'. strcats size out' texts

-- `vsnprintf` into an array of `size` characters, of a format that gives `text`.
abbrev pub printed : ℕ → String → String
printed size text = take (size - 1) text

-- Where a line goes.
pub data Output : Type 0 where
  to_fifo : ℤ → String → Output
  to_stdout : String → Output

abbrev pub output : Console → String → Output
output c out = if ltb_ℤ (pos 0) c.log_fifo_id then to_fifo c.log_fifo_id out else to_stdout out

-- The parts of a line of a level, which is a character.
abbrev pub line : ℕ → Console → Tm → String → List String
line level c now text =
    (b'[' ∷ [])
    ∷ get_time_string now
    ∷ (b']' ∷ b'[' ∷ [])
    ∷ c.app_name
    ∷ (b']' ∷ b'[' ∷ level ∷ b']' ∷ b':' ∷ [])
    ∷ printed 900 text
    ∷ (b'\n' ∷ [])
    ∷ []

unfoldable pub put_line : ℕ → Console → Tm → String → Result Overrun Output
put_line level c now text =
    and_then (strcats 1000 [] (line level c now text)) λ out. ok (output c out)

pub message : Console → Tm → String → Result Overrun Output
message = put_line b'M'

pub warning : Console → Tm → String → Result Overrun Output
warning = put_line b'W'

unfoldable pub error : Console → Tm → String → Result Overrun Output
error = put_line b'E'

abbrev pub shown : Result Overrun Output → Result Overrun (Option Output)
shown (ok out) = ok (some out)
shown (err e) = err e

unfoldable pub debug : Console → Tm → String → Result Overrun (Option Output)
debug c now text = if not c.show_debug then ok none else shown (put_line b'D' c now text)

abbrev pub show_debug_on : Bool → Console → Console
show_debug_on on c = record c { show_debug = on }

-- "/tmp/" and ".log".
abbrev pub log_fifo_path : Console → String
log_fifo_path c =
    (b'/' ∷ b't' ∷ b'm' ∷ b'p' ∷ b'/' ∷ []) ++ (c.app_name ++ (b'.' ∷ b'l' ∷ b'o' ∷ b'g' ∷ []))

-- What `redirect` returns and prints, and whether it masks the standard output.
pub record Redirected : Type 0 where
  pub result : Bool
  pub console : Console
  pub printed_line : Option Output
  pub masks_stdout : Bool

abbrev fifo_fails : String
fifo_fails =
    b' ' ∷ b'l' ∷ b'o' ∷ b'g' ∷ b' ' ∷ b'f' ∷ b'i' ∷ b'f' ∷ b'o' ∷ b' ' ∷ b'f' ∷ b'a' ∷ b'i' ∷ b'l'
    ∷ b'!' ∷ []

-- "Make log fifo fail!" and "Open log fifo fail!".
abbrev pub make_fails : String
make_fails = b'M' ∷ b'a' ∷ b'k' ∷ b'e' ∷ fifo_fails

abbrev pub open_fails : String
open_fails = b'O' ∷ b'p' ∷ b'e' ∷ b'n' ∷ fifo_fails

abbrev pub redirect_failed : Console → Tm → String → Result Overrun Redirected
redirect_failed c now text = and_then (error c now text) λ out.
    ok (record { result = false; console = c; printed_line = some out; masks_stdout = false })

abbrev pub opened : ℤ → Console → Tm → Result Overrun Redirected
opened id c now =
    if ltb_ℤ id (pos 0)
    then redirect_failed (record c { log_fifo_id = id }) now open_fails
    else ok (record {
      result = true;
      console = record c { log_fifo_id = id };
      printed_line = none;
      masks_stdout = true;
    })

-- `redirect`, given whether a path is a pipe after `mkfifo` and what `open` returns for it.
unfoldable pub redirect : (String → Bool) → (String → ℤ) → Console → Tm → Result Overrun Redirected
redirect makes opens c now =
    if not (makes (log_fifo_path c))
    then redirect_failed c now make_fails
    else opened (opens (log_fifo_path c)) c now
