-- ===== src/TcpProxy/Binding.antt =====
-- What a client of app/tcp_proxy.cpp asks for, and what it gets.
use ae_proxy.Base.{
  ℕ, suc, ◌+◌, ◌%◌, ◌^◌, ◌≡◌, ◌⊎◌, ◌↔◌, sym, inl, inr, refl, ap, subst, arith, ◌∙◌, List, [], ◌∷◌,
  ◌++◌, none, some, ℤ, is_zero, if◌then◌else◌, false, lookup, same_text_self,
}
use mathlib.Core.List.{tail-eq_of_cons-eq}
use mathlib.Core.Option.{bind}
use ae_proxy.SocketAddr.{new_addr, addr_to_string, ipv4}
use ae_proxy.SocketAddr.Decimal.{to_string, to_string-injective}
use ae_proxy.Msgpack.{Object, str, integer, to_int, Unpacker, decoded}
use ae_proxy.Msgpack.Folding.{
  Advances, Yields, Ignores, assign_all, assign_all-Ignores, as_unpacked, unpack_objects-assign_all,
}
use ae_proxy.UdpProxy.{c_str, to_ushort}
use ae_proxy.TcpConnection.{TcpConnection, write}
use ae_proxy.TcpClient.{connect_success}
use ae_proxy.TcpServer.{get_connection}
use ae_proxy.TcpProxy.{
  no_fields, assign, unpack, handle_unpacked, connect_real_server, Request, on_proxy_message,
  TcpProxy, set_session, client_writes, on_connect_status,
}

Ignores-assign : Ignores assign 4
Ignores-assign j obj f =
    let behind : suc (suc (suc (suc j))) ≡ j + 4 = omega arith in
    subst (λ k. assign k obj f ≡ some f) behind refl

-- A message of a command, an ip, a port and a text, and of whatever objects after them, is read as these.
unpack_lem :
    (next : Unpacker) (buffer : List ℕ) (command : ℕ) (ip : List ℕ) (port : ℕ) (message : List ℕ)
    (more : List Object)
    → Advances next
    → Yields next buffer
        (next buffer 0)
        (integer command ∷ str ip ∷ integer port ∷ str message ∷ more)
    → unpack next buffer
      ≡ decoded (record {
        command = some (to_int command);
        ip = ip;
        port = some (to_int port);
        message = message;
      })
unfolding unpack assign_all bind
unpack_lem next buffer command ip port message more adv y =
    unpack_objects-assign_all assign next buffer
      (integer command ∷ str ip ∷ integer port ∷ str message ∷ more) no_fields adv y
    ∙ ap as_unpacked (
        assign_all-Ignores assign 4 more
          (record {
            command = some (to_int command);
            ip = ip;
            port = some (to_int port);
            message = message;
          })
          Ignores-assign)

append-cancel : (xs ys zs : List ℕ) → xs ++ ys ≡ xs ++ zs → ys ≡ zs
append-cancel [] ys zs e = e
append-cancel (x ∷ xs) ys zs e = append-cancel xs ys zs (tail-eq_of_cons-eq e)

to_ushort_small : (port : ℤ) → to_ushort port % 2 ^ 16 ≡ to_ushort port
to_ushort_small (ℤ.pos n) = omega arith
to_ushort_small (ℤ.negsuc n) = omega arith

-- The agent's name for the server is the text of the address just when the port fits 16 bits.
label_iff :
    (host : List ℕ) (port : ℤ)
    → (host ++ (b':' ∷ to_string port) ≡ addr_to_string (new_addr host (to_ushort port) ipv4))
      ↔ (port ≡ ℤ.pos (to_ushort port))
unfolding addr_to_string
label_iff host port = (to, back)
  where
    colon : ℕ → List ℕ
    colon n = host ++ (b':' ∷ to_string (ℤ.pos n))

    to :
        host ++ (b':' ∷ to_string port) ≡ colon (to_ushort port % 2 ^ 16)
        → port ≡ ℤ.pos (to_ushort port)
    to e =
        to_string-injective port (ℤ.pos (to_ushort port % 2 ^ 16))
          (tail-eq_of_cons-eq (append-cancel host _ _ e))
        ∙ ap ℤ.pos (to_ushort_small port)

    back :
        port ≡ ℤ.pos (to_ushort port)
        → host ++ (b':' ∷ to_string port) ≡ colon (to_ushort port % 2 ^ 16)
    back e = ap (λ p. host ++ (b':' ∷ to_string p)) e ∙ ap colon (sym (to_ushort_small port))

-- A message that msgpack reads as a command, an ip, a port and a text, from a client that the server
-- has, asks for one connection if the command is 0, and for nothing otherwise: to the address
-- of the ip up to its first NUL and of 16 bits of the port. When it succeeds, the client has a session with the server, under a name that shows the port in
-- full, and the text is written to the client itself. For a port that fits 16 bits the name is that
-- of the address; for another it never is.
pub on_proxy_message-on_connect_status :
    (next : Unpacker) (buffer client : List ℕ) (command : ℕ) (ip : List ℕ) (port : ℕ)
    (message : List ℕ) (more : List Object) (p : TcpProxy) (c : TcpConnection) (rst : ℤ)
    → Advances next
    → Yields next buffer
        (next buffer 0)
        (integer command ∷ str ip ∷ integer port ∷ str message ∷ more)
    → get_connection client p.server ≡ some c
    → (request : Request) × (p' : TcpProxy) × (on_proxy_message next client buffer
        ≡ some (if is_zero (to_int command) then request ∷ [] else []))
      × (request.connects_to ≡ new_addr (c_str ip) (to_ushort (to_int port)) ipv4)
      × ((request.agent.server_address ≡ addr_to_string request.connects_to)
          ↔ (to_int port ≡ ℤ.pos (to_ushort (to_int port))))
      × (on_connect_status connect_success client request.agent.server_address request.message rst p
          ≡ some (p', (write c rst message false).1))
      × (lookup client p'.sessions ≡ some (c_str ip ++ (b':' ∷ to_string (to_int port))))
unfolding on_proxy_message on_connect_status set_session lookup connect_real_server bind
on_proxy_message-on_connect_status next buffer client command ip port message more p c rst adv y e =
    (
      connect_real_server client ip (to_int port) message,
      set_session client (c_str ip ++ (b':' ∷ to_string (to_int port))) p,
      ap (handle_unpacked client) (unpack_lem next buffer command ip port message more adv y),
      refl,
      label_iff (c_str ip) (to_int port),
      ap
          (λ o. some (
            set_session client (c_str ip ++ (b':' ∷ to_string (to_int port))) p,
            client_writes o rst message,
          ))
          e,
      rw (same_text_self client) refl,
    )

-- A message that ends before its port leaves a number uninitialised, which the proxy then reads: an
-- empty one, one of a command, and one of a command and an ip.
on_proxy_message-short :
    (next : Unpacker) (buffer client : List ℕ) (command : ℕ) (ip : List ℕ)
    → Advances next
    → (Yields next buffer (next buffer 0) []
        ⊎ (Yields next buffer (next buffer 0) (integer command ∷ [])
            ⊎ Yields next buffer (next buffer 0) (integer command ∷ str ip ∷ [])))
    → on_proxy_message next client buffer ≡ none
unfolding on_proxy_message unpack assign_all bind
on_proxy_message-short next buffer client command ip adv y = elim y [
  | inl y ↦
      ap (handle_unpacked client) (unpack_objects-assign_all assign next buffer [] no_fields adv y)
  | inr (inl y) ↦
      ap (handle_unpacked client)
        (unpack_objects-assign_all assign next buffer (integer command ∷ []) no_fields adv y)
  | inr (inr y) ↦
      ap (handle_unpacked client) (
        unpack_objects-assign_all assign next buffer (integer command ∷ str ip ∷ []) no_fields adv
          y)
]
