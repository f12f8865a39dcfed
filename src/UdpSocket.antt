-- ===== src/UdpSocket.antt =====
-- ae/udp_socket.h and ae/udp_socket.cpp: a UDP socket. The version of its addresses is set by
-- `try_bind_and_read` only; reading it before is `none`. `inet_ntop` and libuv's numbers are arguments.
pub mod Sending
use ae_proxy.Base.{
  ℕ, ◌≡◌, refl, Bool, true, false, List, [], ◌∷◌, Option, none, some, ℤ, is_zero, is_positive,
  is_negative, if◌then◌else◌,
}
use ae_proxy.TcpConnection.{Handle, opened, closing}
use ae_proxy.SocketAddr.{SocketAddr, Ipv, from_sockaddr}

pub record UdpSocket : Type 0 where
  pub handle : Handle
  pub reading : Bool
  pub ipv : Option Ipv
  pub on_close_set : Bool
  pub on_message_set : Bool

pub data UdpEffect : Type 0 where
  calls_on_message : SocketAddr → List ℕ → UdpEffect
  calls_on_close : UdpEffect
  logs_read_error : ℤ → UdpEffect

-- `try_bind_and_read`, by what the bind returns and what the start of reading returns.
unfoldable pub try_bind_and_read : UdpSocket → Ipv → ℤ → ℤ → UdpSocket × ℤ
try_bind_and_read s ipv bound rst =
    if is_zero bound
    then (record s { ipv = some ipv; reading = true }, rst)
    else (record s { ipv = some ipv }, bound)

unfoldable pub try_read : UdpSocket → ℤ → UdpSocket × ℤ
try_read s rst = (record s { reading = true }, rst)

abbrev pub on_close_completed : UdpSocket → List UdpEffect
on_close_completed s = if s.on_close_set then calls_on_close ∷ [] else []

abbrev pub close_udp_handle : Handle → UdpSocket → UdpSocket × List UdpEffect
close_udp_handle opened s = (record s { handle = closing }, [])
close_udp_handle _ s = (s, on_close_completed s)

unfoldable pub close_udp : UdpSocket → Bool → UdpSocket × List UdpEffect
close_udp s has_callback =
    close_udp_handle s.handle (record s { reading = false; on_close_set = has_callback })

-- `SocketAddr addr(from, ipv_)` and the call.
abbrev pub deliver_from :
    (List ℕ → Ipv → List ℕ) → Option Ipv → List ℕ → ℕ → List ℕ → Option (List UdpEffect)
deliver_from inet_ntop none addr port buf = none
deliver_from inet_ntop (some ipv) addr port buf =
    some (calls_on_message (from_sockaddr inet_ntop addr port ipv) buf ∷ [])

unfoldable pub on_udp_message :
    (List ℕ → Ipv → List ℕ) → UdpSocket → List ℕ → ℕ → List ℕ → Option (List UdpEffect)
on_udp_message inet_ntop s addr port buf =
    if s.on_message_set then deliver_from inet_ntop s.ipv addr port buf else some []

unfoldable pub on_udp_receive :
    (List ℕ → Ipv → List ℕ) → UdpSocket → ℤ → List ℕ → ℕ → List ℕ → Option (List UdpEffect)
on_udp_receive inet_ntop s nread addr port buf =
    if is_negative nread
    then some (logs_read_error nread ∷ [])
    else if is_positive nread
    then on_udp_message inet_ntop s addr port buf
    else some []

-- An agent's socket, which reads after `try_read` alone, makes the sender's address with an
-- uninitialised version as soon as a datagram arrives.
on_udp_receive-try_read :
    (inet_ntop : List ℕ → Ipv → List ℕ) (s : UdpSocket) (rst nread : ℤ) (addr : List ℕ) (port : ℕ)
    (buf : List ℕ)
    → s.ipv ≡ none
    → s.on_message_set ≡ true
    → is_negative nread ≡ false
    → is_positive nread ≡ true
    → on_udp_receive inet_ntop (try_read s rst).0 nread addr port buf ≡ none
unfolding on_udp_receive on_udp_message try_read
on_udp_receive-try_read inet_ntop s rst nread addr port buf unset has_callback h k =
    rw (h, k, has_callback, unset) refl
