-- ===== src/PacketBuffer.antt =====
-- ae/packet_buffer.h: the abstract byte buffer that a connection reads packets from, as a record
-- of its virtual methods, and what an implementation promises of them. A pointer with its size
-- is a list of bytes; a method that mutates the buffer returns the new one with its status.
use ae_proxy.Base.{ℕ, ◌<◌, ◌≤◌, ◌≡◌, List, [], ◌++◌, ℤ, success, failure, length, take, drop}

abbrev pub IsByte : ℕ → Type 0
IsByte b = b < 256

pub record PacketBuffer (S : Type 0) : Type 0 where
  pub append : S → List ℕ → S × ℤ
  pub read_buffer_n : S → List ℕ → ℕ → List ℕ × ℤ
  pub clear_buffer_n : S → ℕ → S × ℤ
  pub clear : S → S × ℤ
  pub read_size : S → ℕ

-- The contract, over the bytes that a buffer holds. A read appends to the caller's string and
-- leaves the buffer alone; it fails, with the string unchanged, when too few bytes are there.
pub record Laws {S : Type 0} (b : PacketBuffer S) (contents : S → List ℕ) : Type 0 where
  pub append_contents :
      (s : S) (bytes : List ℕ) → contents (b.append s bytes).0 ≡ contents s ++ bytes
  pub read_ok :
      (s : S) (text : List ℕ) (n : ℕ)
      → n ≤ length (contents s)
      → b.read_buffer_n s text n ≡ (text ++ take n (contents s), success)
  pub read_short :
      (s : S) (text : List ℕ) (n : ℕ)
      → length (contents s) < n
      → b.read_buffer_n s text n ≡ (text, failure)
  pub clear_n_contents : (s : S) (n : ℕ) → contents (b.clear_buffer_n s n).0 ≡ drop n (contents s)
  pub clear_contents : (s : S) → contents (b.clear s).0 ≡ []
  pub read_size_lem : (s : S) → b.read_size s ≡ length (contents s)
