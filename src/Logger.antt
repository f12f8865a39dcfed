-- ===== src/Logger.antt =====
-- `hex_print` of base/logger.h: the text that it prints for an array. The macros of that file print their
-- arguments only.
use ae_proxy.Base.{
  ℕ, zero, suc, ◌+◌, ◌-◌, ◌*◌, ◌/◌, ◌%◌, ◌<◌, ◌≡◌, arith, refl, inl, inr, List, [], ◌∷◌, ◌++◌,
  length, drop, drop-append, All, ltb, ◌==◌, if◌then◌else◌, Bool-cases, ◌&&◌,
}
use ae_proxy.PacketBuffer.{IsByte}

-- A digit of `%x`.
abbrev hex_digit : ℕ → ℕ
hex_digit d = if ltb d 10 then b'0' + d else b'a' + (d - 10)

-- `%0wx`; fuel for each digit beyond the first.
unfoldable pub hex_number : ℕ → ℕ → ℕ → List ℕ
hex_number zero w n = hex_digit (n % 16) ∷ []
hex_number (suc fuel) w n =
    let rest = hex_number fuel (w - 1) (n / 16) in
    if ltb n 16 && ltb w 2 then hex_digit n ∷ [] else rest ++ (hex_digit (n % 16) ∷ [])

-- `"\n%s %04x "` before each sixteenth byte.
unfoldable pub line_head : List ℕ → ℕ → List ℕ
line_head pipe i =
    if i % 16 == 0 then 10 ∷ pipe ++ (32 ∷ hex_number (i + 4) 4 i ++ (32 ∷ [])) else []

-- A blank before each eighth.
unfoldable pub group_head : ℕ → List ℕ
group_head i = if i % 8 == 0 then 32 ∷ [] else []

-- `"%02x "`
unfoldable pub hex_byte : ℕ → List ℕ
hex_byte b = hex_digit (b / 16) ∷ hex_digit (b % 16) ∷ 32 ∷ []

-- The loop from an index on, and what is printed behind it.
unfoldable pub hex_loop : List ℕ → ℕ → List ℕ → List ℕ
hex_loop pipe i [] = 10 ∷ 10 ∷ []
hex_loop pipe i (c ∷ cs) =
    line_head pipe i ++ (group_head i ++ (hex_byte c ++ hex_loop pipe (suc i) cs))

abbrev pub hex_print : List ℕ → List ℕ → List ℕ
hex_print c pipe = hex_loop pipe 0 c

-- A reader that knows how many bytes there are, and the text of the pipe.
abbrev digit_value : ℕ → ℕ
digit_value d = if ltb d b'a' then d - b'0' else d - b'a' + 10

unfoldable pub read_byte : List ℕ → ℕ
read_byte [] = 0
read_byte (h ∷ []) = 0
read_byte (h ∷ l ∷ text) = digit_value h * 16 + digit_value l

unfoldable pub read_dump : List ℕ → ℕ → ℕ → List ℕ → List ℕ
read_dump pipe i zero text = []
read_dump pipe i (suc n) text =
    let digits = drop (length (group_head i)) (drop (length (line_head pipe i)) text) in
    read_byte digits ∷ read_dump pipe (suc i) n (drop 3 digits)

digit_value-hex_digit : (d : ℕ) → d < 16 → digit_value (hex_digit d) ≡ d
digit_value-hex_digit d h = elim (Bool-cases (ltb d 10)) [
  | inl small ↦ rw small (ground arith)
  | inr large ↦ rw large (ground arith)
]

read_byte-hex_byte : (c : ℕ) (rest : List ℕ) → c < 256 → read_byte (hex_byte c ++ rest) ≡ c
unfolding read_byte hex_byte
read_byte-hex_byte c rest h =
    rw (digit_value-hex_digit (c / 16) (omega arith), digit_value-hex_digit (c % 16) (omega arith))
      (omega arith)

-- The bytes can be read back from what is printed, whatever the text of the pipe is.
read_dump-hex_loop :
    (pipe : List ℕ) (i : ℕ) (cs : List ℕ)
    → All IsByte cs
    → read_dump pipe i (length cs) (hex_loop pipe i cs) ≡ cs
unfolding read_dump hex_loop hex_byte
read_dump-hex_loop pipe i [] hs = refl
read_dump-hex_loop pipe i (c ∷ cs) (h, hs) =
    let later = hex_loop pipe (suc i) cs in
    let rest = hex_byte c ++ later in
    rw (drop-append (line_head pipe i) (group_head i ++ rest), drop-append (group_head i) rest)
      (λ k. read_byte-hex_byte c later h k ∷ read_dump-hex_loop pipe (suc i) cs hs k)

-- The first line of a dump of two bytes, behind a pipe of one letter.
printed : hex_print (10 ∷ 255 ∷ []) (b'>' ∷ []) ≡ (
    10 ∷ b'>' ∷ 32 ∷ b'0' ∷ b'0' ∷ b'0' ∷ b'0' ∷ 32 ∷ 32 ∷ b'0' ∷ b'a' ∷ 32 ∷ b'f' ∷ b'f' ∷ 32 ∷ 10
    ∷ 10 ∷ [])
unfolding hex_loop line_head group_head hex_byte hex_number
printed = refl
