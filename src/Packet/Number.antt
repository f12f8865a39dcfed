-- ===== src/Packet/Number.antt =====
-- ae/packet.h: `pack_num` and `unpack_num`, for an unsigned type of `w` bytes.
use native.Mathlib.Nat.{pow-suc, pow-le-pow_right, mod-eq_of_lt}
use mathlib.Core.List.{reverse, reverse-cons}
use ae_proxy.Base.{
  ℕ, zero, suc, ◌+◌, ◌*◌, ◌/◌, ◌%◌, ◌^◌, ◌<◌, ◌≤◌, ◌≡◌, refl, sym, ap, ◌∙◌, List, [], ◌∷◌, ◌++◌,
  length, length-append, All, append-nil, append_assoc, arith,
}
use ae_proxy.PacketBuffer.{IsByte}

pub data DataMode : Type 0 where
  big_endian little_endian : DataMode

-- `for (i = 0; i < size; i++) { data[i] = num & 0xff; num >>= 8; }`
pack_low_first : ℕ → ℕ → List ℕ
pack_low_first zero num = []
pack_low_first (suc left) num = (num % 256) ∷ pack_low_first left (num / 256)

-- The same from index `size - 1` down: `written` is what stands behind the index.
pack_high_first : ℕ → ℕ → List ℕ → List ℕ
pack_high_first zero num written = written
pack_high_first (suc left) num written = pack_high_first left (num / 256) ((num % 256) ∷ written)

unfoldable pub pack_num : DataMode → ℕ → ℕ → List ℕ
unfolding pack_low_first pack_high_first
pack_num big_endian w num = pack_high_first w num []
pack_num little_endian w num = pack_low_first w num

-- `num <<= 8; num |= byte;` in a type of `modulus` values. The shift leaves the low eight bits 0,
-- so the or is a sum.
abbrev shift_in : ℕ → ℕ → ℕ → ℕ
shift_in modulus num byte = num * 256 % modulus + byte

unpack_forward : ℕ → ℕ → List ℕ → ℕ
unpack_forward modulus num [] = num
unpack_forward modulus num (x ∷ rest) = unpack_forward modulus (shift_in modulus num x) rest

-- The loop from index `size - 1` down takes the last byte first.
unpack_backward : ℕ → List ℕ → ℕ
unpack_backward modulus [] = 0
unpack_backward modulus (x ∷ rest) = shift_in modulus (unpack_backward modulus rest) x

-- The list holds the `w` bytes that are read.
unfoldable pub unpack_num : DataMode → ℕ → List ℕ → ℕ
unfolding unpack_forward unpack_backward
unpack_num big_endian w bytes = unpack_forward (256 ^ w) 0 bytes
unpack_num little_endian w bytes = unpack_backward (256 ^ w) bytes

length-pack_low_first : (w num : ℕ) → length (pack_low_first w num) ≡ w
unfolding pack_low_first
length-pack_low_first zero num = refl
length-pack_low_first (suc w) num = ap suc (length-pack_low_first w (num / 256))

pack_low_first-IsByte : (w num : ℕ) → All IsByte (pack_low_first w num)
unfolding pack_low_first
pack_low_first-IsByte zero num = tt
pack_low_first-IsByte (suc w) num = (omega arith, pack_low_first-IsByte w (num / 256))

pack_high_first-eq-reverse :
    (w num : ℕ) (written : List ℕ)
    → pack_high_first w num written ≡ reverse (pack_low_first w num) ++ written
unfolding pack_high_first pack_low_first
pack_high_first-eq-reverse zero num written = refl
pack_high_first-eq-reverse (suc w) num written =
    rw
      (
        pack_high_first-eq-reverse w (num / 256) ((num % 256) ∷ written),
        reverse-cons (num % 256) (pack_low_first w (num / 256)),
      )
      (sym (append_assoc (reverse (pack_low_first w (num / 256))) ((num % 256) ∷ []) written))

unpack_forward-append :
    (m num : ℕ) (xs ys : List ℕ)
    → unpack_forward m num (xs ++ ys) ≡ unpack_forward m (unpack_forward m num xs) ys
unfolding unpack_forward
unpack_forward-append m num [] ys = refl
unpack_forward-append m num (x ∷ xs) ys = unpack_forward-append m (shift_in m num x) xs ys

unpack_forward-reverse :
    (m : ℕ) (xs : List ℕ) → unpack_forward m 0 (reverse xs) ≡ unpack_backward m xs
unfolding unpack_forward unpack_backward
unpack_forward-reverse m [] = refl
unpack_forward-reverse m (x ∷ xs) =
    rw (reverse-cons x xs, unpack_forward-append m 0 (reverse xs) (x ∷ []))
      (ap (λ num. shift_in m num x) (unpack_forward-reverse m xs))

-- The number that the bytes stand for, the lowest byte first.
value : List ℕ → ℕ
value [] = 0
value (x ∷ rest) = x + 256 * value rest

value-lt : (xs : List ℕ) → All IsByte xs → value xs < 256 ^ length xs
unfolding value
value-lt [] h = omega arith
value-lt (x ∷ xs) h = omega (arith, pow-suc 256 (length xs), value-lt xs h.1)

value-pack_low_first : (w num : ℕ) → num < 256 ^ w → value (pack_low_first w num) ≡ num
unfolding value pack_low_first
value-pack_low_first zero num h = omega arith
value-pack_low_first (suc w) num h =
    let smaller : num / 256 < 256 ^ w = omega (arith, pow-suc 256 w) in
    omega (arith, value-pack_low_first w (num / 256) smaller)

pack_low_first-value : (xs : List ℕ) → All IsByte xs → pack_low_first (length xs) (value xs) ≡ xs
unfolding value pack_low_first
pack_low_first-value [] h = refl
pack_low_first-value (x ∷ xs) h =
    let low : (x + 256 * value xs) % 256 ≡ x = omega arith in
    let high : (x + 256 * value xs) / 256 ≡ value xs = omega arith in
    rw (low, high) (ap (◌∷◌ x) (pack_low_first-value xs h.1))

-- No shift loses a bit while the bytes fit the type.
unpack_backward-eq-value :
    (w : ℕ) (xs : List ℕ) → All IsByte xs → length xs ≤ w → unpack_backward (256 ^ w) xs ≡ value xs
unfolding unpack_backward value
unpack_backward-eq-value w [] h fits = refl
unpack_backward-eq-value w (x ∷ xs) h fits =
    rw (unpack_backward-eq-value w xs h.1 (omega arith), mod-eq_of_lt below) (omega arith)
  where
    below : value xs * 256 < 256 ^ w
    below = omega (
      arith,
      value-lt xs h.1,
      pow-suc 256 (length xs),
      pow-le-pow_right {n = 256} (omega arith) fits,
    )

length-reverse : (xs : List ℕ) → length (reverse xs) ≡ length xs
length-reverse [] = refl
length-reverse (x ∷ xs) =
    omega
      (arith, ap length (reverse-cons x xs), length-append (reverse xs) (x ∷ []), length-reverse xs)

pub length-pack_num : (m : DataMode) (w num : ℕ) → length (pack_num m w num) ≡ w
unfolding pack_num
length-pack_num big_endian w num =
    rw (pack_high_first-eq-reverse w num [], append-nil, length-reverse)
      (length-pack_low_first w num)
length-pack_num little_endian w num = length-pack_low_first w num

unpack_num_low :
    (w num : ℕ) → num < 256 ^ w → unpack_backward (256 ^ w) (pack_low_first w num) ≡ num
unpack_num_low w num h =
    unpack_backward-eq-value w (pack_low_first w num) (pack_low_first-IsByte w num)
      (omega (arith, length-pack_low_first w num))
    ∙ value-pack_low_first w num h

-- In either byte order, reading the bytes that `pack_num` wrote for a number that fits `w` bytes
-- gives the number back.
pub unpack_num-pack_num :
    (m : DataMode) (w num : ℕ) → num < 256 ^ w → unpack_num m w (pack_num m w num) ≡ num
unfolding pack_num unpack_num
unpack_num-pack_num big_endian w num h =
    rw (pack_high_first-eq-reverse w num [], append-nil)
      (unpack_forward-reverse (256 ^ w) (pack_low_first w num) ∙ unpack_num_low w num h)
unpack_num-pack_num little_endian w num h = unpack_num_low w num h
