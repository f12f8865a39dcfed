-- ===== src/LogWriter/Filter.antt =====
-- Which messages ae/log_writer.cpp lets through, and its level names.
use Prim.Native.String.{String}
use ae_proxy.Base.{
  zero, suc, ◌≡◌, ◌≢◌, ◌↔◌, refl, [], ◌∷◌, none, ℤ, if◌then◌else◌, get_elem?, arith,
}
use ae_proxy.LogWriter.{
  Level, debug_level, info_level, warn_level, error_level, fatal_level, level_value, level_names,
  LogWriter, to_callback, to_std_out, get_level_name, reaches, write, fatal,
}

-- No message at level Fatal is ever written, at any threshold, with or without a callback.
fatal-silent : (w : LogWriter) (text : String) → fatal w text ≡ []
unfolding fatal
fatal-silent w text = refl

-- A message below Fatal is written exactly once if its level reaches the threshold, to the callback
-- if one is registered and otherwise to standard output under the level's own name; and not at
-- all if its level is below the threshold.
write_lem :
    (w : LogWriter) (l : Level) (text : String)
    → l ≢ fatal_level
    → write w l text ≡ (
        if reaches l w.level
        then (if w.has_callback
            then to_callback l text
            else to_std_out (get_elem? level_names (level_value l)) text)
          ∷ []
        else [])
unfolding write
write_lem w debug_level text h = ground arith
write_lem w info_level text h = ground arith
write_lem w warn_level text h = ground arith
write_lem w error_level text h = ground arith
write_lem w fatal_level text h = absurd (h refl)

-- Asking for a level's name reads past the end of the vector exactly for the number 5.
pub get_level_name-outside : (n : ℤ) → (get_level_name n ≡ none) ↔ (n ≡ ℤ.pos 5)
unfolding get_level_name
get_level_name-outside n = (only n, λ e. rw e)
  where
    only : (n : ℤ) → get_level_name n ≡ none → n ≡ ℤ.pos 5
    only (ℤ.negsuc n) e = cc
    only (ℤ.pos zero) e = cc
    only (ℤ.pos (suc zero)) e = cc
    only (ℤ.pos (suc (suc zero))) e = cc
    only (ℤ.pos (suc (suc (suc zero)))) e = cc
    only (ℤ.pos (suc (suc (suc (suc zero))))) e = cc
    only (ℤ.pos (suc (suc (suc (suc (suc zero)))))) e = refl
    only (ℤ.pos (suc (suc (suc (suc (suc (suc n))))))) e = ground arith
