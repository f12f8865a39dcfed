-- ===== src/LogWriter/Hex.antt =====
-- The hex dump of ae/log_writer.cpp.
use ae_proxy.Base.{
  ℕ, ◌+◌, ◌-◌, ◌*◌, ◌/◌, ◌%◌, ◌<◌, ◌≤◌, ◌≡◌, refl, ap, inl, inr, false, List, [], ◌∷◌, ◌++◌,
  append-nil, append_assoc, All, length, ltb, ltb→lt, ◌==◌, if◌then◌else◌, Bool-cases, arith,
}
use ae_proxy.PacketBuffer.{IsByte}
use ae_proxy.LogWriter.{hex_digit, hex_entry, to_hex}

-- Reading a dump: after "0x" one digit and a blank, or two digits and a blank.
digit_value : ℕ → ℕ
digit_value c = if ltb c b'a' then c - b'0' else c - b'a' + 10

pub read_hex : List ℕ → List ℕ
unfolding digit_value
read_hex (a ∷ b ∷ c ∷ d ∷ e ∷ []) = digit_value d ∷ []
read_hex (a ∷ b ∷ c ∷ d ∷ e ∷ g ∷ rest) =
    let one_digit = digit_value d ∷ read_hex (g ∷ rest) in
    let two_digits = (digit_value d * 16 + digit_value e) ∷ read_hex rest in
    if e == b' ' then one_digit else two_digits
read_hex _ = []

-- Each formatted byte, with its NUL, fits the array `char buf[8]`.
hex_entry-fits : (n : ℕ) → IsByte n → length (hex_entry n) + 1 ≤ 8
unfolding hex_entry
hex_entry-fits n h = ground arith

digit_value-hex_digit : (n : ℕ) → n < 16 → digit_value (hex_digit n) ≡ n
unfolding digit_value
digit_value-hex_digit n h = ground arith

hex_digit-ne_blank : (n : ℕ) → (hex_digit n == b' ') ≡ false
hex_digit-ne_blank n = ground arith

read_hex-entry :
    (n : ℕ) (rest : List ℕ) → IsByte n → read_hex (hex_entry n ++ rest) ≡ n ∷ read_hex rest
unfolding read_hex hex_entry
read_hex-entry n rest h = elim (Bool-cases (ltb n 16)) [
  | inl small ↦ rw small (one (ltb→lt _ _ small) rest)
  | inr large ↦
      rw
        (
          large,
          hex_digit-ne_blank (n % 16),
          digit_value-hex_digit (n / 16) (omega arith),
          digit_value-hex_digit (n % 16) (omega arith),
        )
        (ap (λ x. x ∷ read_hex rest) (omega arith))
]
  where
    one :
        n < 16
        → (rest : List ℕ)
        → read_hex (b' ' ∷ b'0' ∷ b'x' ∷ hex_digit n ∷ b' ' ∷ rest) ≡ n ∷ read_hex rest
    one small [] = ap (λ d. d ∷ []) (digit_value-hex_digit n small)
    one small (x ∷ rest) = ap (λ d. d ∷ read_hex (x ∷ rest)) (digit_value-hex_digit n small)

to_hex-append : (message bytes : List ℕ) → to_hex message bytes ≡ message ++ to_hex [] bytes
unfolding to_hex
to_hex-append message [] = rw append-nil
to_hex-append message (x ∷ rest) =
    rw (to_hex-append (message ++ hex_entry x) rest, to_hex-append (hex_entry x) rest)
      (append_assoc message (hex_entry x) (to_hex [] rest))

-- The dump is appended to the message, and reading it gives the bytes back.
pub read_hex-to_hex :
    (message bytes : List ℕ)
    → All IsByte bytes
    → (dump : List ℕ) × (to_hex message bytes ≡ message ++ dump) × (read_hex dump ≡ bytes)
unfolding to_hex read_hex
read_hex-to_hex message bytes h = (to_hex [] bytes, to_hex-append message bytes, whole bytes h)
  where
    whole : (bytes : List ℕ) → All IsByte bytes → read_hex (to_hex [] bytes) ≡ bytes
    whole [] h = refl
    whole (x ∷ rest) h =
        rw (to_hex-append (hex_entry x) rest, read_hex-entry x (to_hex [] rest) h.0)
          (ap (◌∷◌ x) (whole rest h.1))
