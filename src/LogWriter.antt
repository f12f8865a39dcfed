-- ===== src/LogWriter.antt =====
-- ae/log_writer.h and ae/log_writer.cpp: the log filter, the names of the levels and the hex dump.
-- What a call writes is the list of its records, to the registered callback or to standard output.
pub mod Filter
pub mod Hex
use ae_proxy.Base.{
  ℕ, zero, suc, ◌+◌, ◌-◌, ◌/◌, ◌%◌, Bool, true, false, not, ◌&&◌, List, [], ◌∷◌, ◌++◌, Option, some,
  none, ℤ, is_negative, ltb, leb, if◌then◌else◌, length, get_elem?,
}
use Prim.Native.String.{String}

pub data Level : Type 0 where
  debug_level info_level warn_level error_level fatal_level : Level

abbrev pub level_value : Level → ℕ
level_value debug_level = 0
level_value info_level = 1
level_value warn_level = 2
level_value error_level = 3
level_value fatal_level = 4

-- `LevelSize`
abbrev pub level_size : ℕ
level_size = 5

abbrev pub level_names : List String
level_names = "Debug" ∷ "Info" ∷ "Warn" ∷ "Error" ∷ "Fatal" ∷ []

abbrev pub null_level : String
null_level = "NullLevel"

pub record LogWriter : Type 0 where
  pub has_callback : Bool  -- `callback_` is set
  pub level : ℤ

-- The constructor's singleton.
abbrev pub new_log_writer : LogWriter
new_log_writer = record { has_callback = false; level = ℤ.pos 0 }

pub data Written : Type 0 where
  to_callback : Level → String → Written
  to_std_out : Option String → String → Written

-- `register_interface`; a null function clears the callback.
unfoldable pub register_interface : LogWriter → Bool → LogWriter
register_interface w present = record w { has_callback = present }

unfoldable pub set_level : LogWriter → ℤ → LogWriter
set_level w level = record w { level = level }

-- The test lets the index `levelStr_.size()` through; `none` is the read past the vector's end.
unfoldable pub get_level_name : ℤ → Option String
get_level_name (ℤ.pos n) = if leb n level_size then get_elem? level_names n else some null_level
get_level_name (ℤ.negsuc n) = some null_level

-- `level >= level_` between ints.
abbrev pub reaches : Level → ℤ → Bool
reaches l (ℤ.pos n) = leb n (level_value l)
reaches l (ℤ.negsuc n) = true

unfoldable pub write : LogWriter → Level → String → List Written
unfolding get_level_name
write w l text =
    if leb (level_value l) (level_value error_level)
      && (reaches l w.level && leb (level_value debug_level) (level_value l))
    then (if w.has_callback
        then to_callback l text ∷ []
        else to_std_out (get_level_name (ℤ.pos (level_value l))) text ∷ [])
    else []

unfoldable pub fatal : LogWriter → String → List Written
unfolding write
fatal w text = write w fatal_level text

unfoldable pub error : LogWriter → String → List Written
unfolding write
error w text = write w error_level text

unfoldable pub warn : LogWriter → String → List Written
unfolding write
warn w text = write w warn_level text

unfoldable pub info : LogWriter → String → List Written
unfolding write
info w text = write w info_level text

unfoldable pub debug : LogWriter → String → List Written
unfolding write
debug w text = write w debug_level text

-- A digit of `%x`.
abbrev pub hex_digit : ℕ → ℕ
hex_digit n = if ltb n 10 then b'0' + n else b'a' + (n - 10)

-- `sprintf(buf, " 0x%x ", (unsigned char)data[i])`, without the final NUL.
unfoldable pub hex_entry : ℕ → List ℕ
hex_entry n =
    if ltb n 16
    then b' ' ∷ b'0' ∷ b'x' ∷ hex_digit n ∷ b' ' ∷ []
    else b' ' ∷ b'0' ∷ b'x' ∷ hex_digit (n / 16) ∷ hex_digit (n % 16) ∷ b' ' ∷ []

-- The loop over `data`, appending to `message`.
unfoldable pub to_hex : List ℕ → List ℕ → List ℕ
unfolding hex_entry
to_hex message [] = message
to_hex message (x ∷ rest) = to_hex (message ++ hex_entry x) rest
