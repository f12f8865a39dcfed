-- ===== src/UdpProxy/Unpacking.antt =====
-- What `UdpProxy::unpack` of app/udp_proxy.cpp reads from a datagram.
use ae_proxy.Base.{
  ℕ, suc, ◌+◌, ◌≡◌, ◌≢◌, ◌⊎◌, inl, inr, refl, ap, subst, arith, ◌∙◌, List, [], ◌∷◌, none, some,
}
use mathlib.Core.Option.{bind}
use ae_proxy.Msgpack.{
  Object, str, integer, to_int, Unpacker, decoded, out_of_fuel, unpack_objects, unpack_loop,
}
use ae_proxy.Msgpack.Folding.{
  Advances, Yields, Ignores, assign_all, assign_all-Ignores, as_unpacked, objects_end,
  unpack_objects-assign_all,
}
use ae_proxy.SocketAddr.{SocketAddr}
use ae_proxy.UdpProxy.{no_fields, assign, forward, Sessions, unpack}

-- The loop over the objects of a datagram ends within one round for each of its bytes and one more.
unpack_ends : (next : Unpacker) (buffer : List ℕ) → Advances next → unpack next buffer ≢ out_of_fuel
unfolding unpack
unpack_ends next buffer adv = objects_end assign next buffer no_fields adv

Ignores-assign : Ignores assign 3
Ignores-assign j obj f =
    let behind : suc (suc (suc j)) ≡ j + 3 = omega arith in
    subst (λ k. assign k obj f ≡ some f) behind refl

-- A datagram of an ip, a port and a message, and of whatever objects after them, is read as these:
-- the port as the int of its low 32 bits.
pub unpack_lem :
    (next : Unpacker) (buffer ip : List ℕ) (bits : ℕ) (message : List ℕ) (more : List Object)
    → Advances next
    → Yields next buffer (next buffer 0) (str ip ∷ integer bits ∷ str message ∷ more)
    → unpack next buffer
      ≡ decoded (record { ip = ip; port = some (to_int bits); message = message })
unfolding unpack assign_all bind
unpack_lem next buffer ip bits message more adv y =
    unpack_objects-assign_all assign next buffer (str ip ∷ integer bits ∷ str message ∷ more)
      no_fields adv y
    ∙ ap as_unpacked (
        assign_all-Ignores assign 3 more
          (record { ip = ip; port = some (to_int bits); message = message }) Ignores-assign)

-- A datagram of less than two objects, the first of them a string, leaves the port uninitialised,
-- which `forward` then reads.
forward-short :
    (next : Unpacker) (buffer ip : List ℕ) (from : SocketAddr) (sessions : Sessions)
    → Yields next buffer (next buffer 0) [] ⊎ Yields next buffer (next buffer 0) (str ip ∷ [])
    → forward next from buffer sessions ≡ none
unfolding forward unpack unpack_objects unpack_loop Yields
forward-short next buffer ip from sessions (inl y) = rw y refl
forward-short next buffer ip from sessions (inr (o, e, y)) = rw (e, y) refl
