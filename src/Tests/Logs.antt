-- ===== src/Tests/Logs.antt =====
-- The log filter and the hex dump.
use ae_proxy.Base.{ℕ, ◌≡◌, refl, List, [], ◌∷◌, arith}
use ae_proxy.LogWriter.{to_hex}
use ae_proxy.LogWriter.Hex.{read_hex, read_hex-to_hex}

to_hex_run : to_hex [] (0xab ∷ 7 ∷ []) ≡ 32 ∷ 48 ∷ 120 ∷ 97 ∷ 98 ∷ 32 ∷ 32 ∷ 48 ∷ 120 ∷ 55 ∷ 32 ∷ []
unfolding to_hex
to_hex_run = refl

read_hex-to_hex_example :
    (dump : List ℕ) × (to_hex (b'm' ∷ []) (0xab ∷ 7 ∷ []) ≡ b'm' ∷ dump)
    × (read_hex dump ≡ 0xab ∷ 7 ∷ [])
read_hex-to_hex_example = read_hex-to_hex (b'm' ∷ []) (0xab ∷ 7 ∷ []) (omega arith)
