-- ===== src/ListBuffer.antt =====
-- ae/list_buffer.h and ae/list_buffer.cpp: the byte buffer over a linked list. The oldest byte is
-- the head of the list.
use ae_proxy.Base.{
  ℕ, zero, suc, ◌≤◌, ◌<◌, ◌≡◌, refl, List, [], ◌∷◌, ◌++◌, ℤ, success, failure, length, take, drop,
  ltb, if◌then◌else◌, append-nil, append_assoc, lt→ltb, le→ltb, arith,
}
use ae_proxy.PacketBuffer
use ae_proxy.PacketBuffer.{PacketBuffer}

pub record ListBuffer : Type 0 where
  pub buffer : List ℕ

abbrev pub empty_buffer : ListBuffer
empty_buffer = record { buffer = [] }

-- `for (i = 0; i < size; i++) buffer_.push_back(data[i]);`
append_loop : List ℕ → List ℕ → List ℕ
append_loop buffer [] = buffer
append_loop buffer (x ∷ rest) = append_loop (buffer ++ x ∷ []) rest

unfoldable pub append : ListBuffer → List ℕ → ListBuffer × ℤ
unfolding append_loop
append b bytes = (record b { buffer = append_loop b.buffer bytes }, success)

-- N rounds of `data.push_back(*it); it++;`, the list being what `it` has not passed.
read_loop : List ℕ → List ℕ → ℕ → List ℕ
read_loop text it zero = text
read_loop text [] (suc n) = text
read_loop text (x ∷ it) (suc n) = read_loop (text ++ x ∷ []) it n

unfoldable pub read_buffer_n : ListBuffer → List ℕ → ℕ → List ℕ × ℤ
unfolding read_loop
read_buffer_n b text n =
    if ltb (length b.buffer) n then (text, failure) else (read_loop text b.buffer n, success)

unfoldable pub read_size : ListBuffer → ℕ
read_size b = length b.buffer

-- The loop breaks at the empty list.
clear_loop : List ℕ → ℕ → List ℕ
clear_loop buffer zero = buffer
clear_loop [] (suc n) = []
clear_loop (x ∷ buffer) (suc n) = clear_loop buffer n

unfoldable pub clear_buffer_n : ListBuffer → ℕ → ListBuffer × ℤ
unfolding clear_loop
clear_buffer_n b n = (record b { buffer = clear_loop b.buffer n }, success)

unfoldable pub clear : ListBuffer → ListBuffer × ℤ
clear b = (record b { buffer = [] }, success)

unfoldable pub list_buffer : PacketBuffer ListBuffer
list_buffer = record {
  append = append;
  read_buffer_n = read_buffer_n;
  clear_buffer_n = clear_buffer_n;
  clear = clear;
  read_size = read_size;
}

append_loop-eq-append : (buffer bytes : List ℕ) → append_loop buffer bytes ≡ buffer ++ bytes
unfolding append_loop
append_loop-eq-append buffer [] = rw append-nil
append_loop-eq-append buffer (x ∷ rest) =
    rw (append_loop-eq-append (buffer ++ x ∷ []) rest) (append_assoc buffer (x ∷ []) rest)

read_loop-eq-take :
    (text it : List ℕ) (n : ℕ) → n ≤ length it → read_loop text it n ≡ text ++ take n it
unfolding read_loop
read_loop-eq-take text it zero h = rw append-nil
read_loop-eq-take text [] (suc n) h = absurd (omega arith)
read_loop-eq-take text (x ∷ it) (suc n) h =
    rw (read_loop-eq-take (text ++ x ∷ []) it n (omega arith))
      (append_assoc text (x ∷ []) (take n it))

clear_loop-eq-drop : (buffer : List ℕ) (n : ℕ) → clear_loop buffer n ≡ drop n buffer
unfolding clear_loop
clear_loop-eq-drop buffer zero = refl
clear_loop-eq-drop [] (suc n) = refl
clear_loop-eq-drop (x ∷ buffer) (suc n) = clear_loop-eq-drop buffer n

read-ok :
    (b : ListBuffer) (text : List ℕ) (n : ℕ)
    → n ≤ length b.buffer
    → read_buffer_n b text n ≡ (text ++ take n b.buffer, success)
unfolding read_buffer_n
read-ok b text n h = rw (le→ltb (length b.buffer) n h, read_loop-eq-take text b.buffer n h)

read-short :
    (b : ListBuffer) (text : List ℕ) (n : ℕ)
    → length b.buffer < n
    → read_buffer_n b text n ≡ (text, failure)
unfolding read_buffer_n
read-short b text n h = rw (lt→ltb (length b.buffer) n h)

-- The linked list keeps the contract of a packet buffer: its bytes are a first-in first-out
-- sequence that `append` extends, `clear_buffer_n` shortens at the front, `clear` empties, and
-- `read_buffer_n` copies from the front if it holds as many bytes, or refuses.
pub list_buffer-Laws : PacketBuffer.Laws list_buffer (λ b. b.buffer)
unfolding list_buffer append clear_buffer_n clear read_size
list_buffer-Laws = record {
  append_contents = λ b bytes. append_loop-eq-append b.buffer bytes;
  read_ok = read-ok;
  read_short = read-short;
  clear_n_contents = λ b n. clear_loop-eq-drop b.buffer n;
  clear_contents = λ b. refl;
  read_size_lem = λ b. refl;
}
