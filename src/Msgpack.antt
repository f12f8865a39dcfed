-- ===== src/Msgpack.antt =====
-- How app/udp_proxy.cpp and app/tcp_proxy.cpp read the objects of a buffer: the loop of their `unpack`.
-- `msgpack_unpack_next` is a parameter: at an offset of the buffer, `none` for any return value but
-- success, else the object and the next offset.
pub mod Folding
use ae_proxy.Base.{
  ℕ, zero, suc, ◌-◌, ◌%◌, ◌^◌, List, Option, none, some, ℤ, ltb, if◌then◌else◌, length,
}

-- The types of `msgpack_object` that the proxies read; an integer is the 64 bits of `via.i64`.
pub data Object : Type 0 where
  str : List ℕ → Object
  integer : ℕ → Object
  other : Object

-- The low half of 64 bits as an int.
abbrev pub to_int : ℕ → ℤ
to_int bits =
    let low = bits % 2 ^ 32 in if ltb low (2 ^ 31) then ℤ.pos low else ℤ.negsuc (2 ^ 32 - 1 - low)

-- `msgpack_unpack_next`
abbrev pub Unpacker : Type 0
Unpacker = List ℕ → ℕ → Option (Object × ℕ)

-- What is read, or that it is undefined in C++.
pub data Unpacked {ℓ} (F : Type ℓ) : Type ℓ where
  decoded : F → Unpacked F
  undefined : Unpacked F
  out_of_fuel : Unpacked F

-- `assign` is the `switch` of the loop: the locals after the object with this index, if it is defined.
module _ {ℓ} {F : Type ℓ} (assign : ℕ → Object → F → Option F) where
  abbrev pub assigned : Option F → (F → Unpacked F) → Unpacked F
  assigned none continue = undefined
  assigned (some f) continue = continue f

  unfoldable pub unpack_loop : Unpacker → List ℕ → ℕ → ℕ → Option (Object × ℕ) → F → Unpacked F
  unpack_loop next buffer zero i ret f = out_of_fuel
  unpack_loop next buffer (suc fuel) i none f = decoded f
  unpack_loop next buffer (suc fuel) i (some (obj, offset)) f =
      assigned (assign i obj f) (λ f'. unpack_loop next buffer fuel (suc i) (next buffer offset) f')

  -- From the locals as they are declared; each object takes a byte or more.
  unfoldable pub unpack_objects : Unpacker → List ℕ → F → Unpacked F
  unpack_objects next buffer f =
      unpack_loop next buffer (suc (suc (length buffer))) 0 (next buffer 0) f
