-- ===== src/UdpSocket/Sending.antt =====
-- `send` of ae/udp_socket.cpp, and the sends of app/udp_agent.cpp over it: the requests that it
-- allocates, which their callback deletes. libuv's numbers are arguments.
use ae_proxy.Base.{
  ℕ, zero, suc, ◌+◌, ◌≡◌, arith, ap, subst, Bool, true, false, List, [], ◌∷◌, Option, none, some, ℤ,
  is_zero, if◌then◌else◌,
}
use mathlib.Core.Option.{bind, bind-eq-some_iff, some-injective, none-ne-some}
use ae_proxy.SocketAddr.{SocketAddr}
use ae_proxy.UdpProxy.{UdpAgent}

pub data SendEffect : Type 0 where
  requests_send : SocketAddr → List ℕ → SendEffect
  logs_send_error : ℤ → SendEffect

-- How many `uv_udp_send_t` there are, and how many of them libuv has taken.
pub record Requests : Type 0 where
  pub allocated : ℕ
  pub in_flight : ℕ

-- `rst` is what `uv_udp_send` returns, and what `send` returns.
unfoldable pub send : SocketAddr → List ℕ → ℤ → Requests → Requests × ℤ × List SendEffect
send to buf rst r = (
  record {
    allocated = suc r.allocated;
    in_flight = if is_zero rst then suc r.in_flight else r.in_flight;
  },
  rst,
  requests_send to buf ∷ [],
)

-- The callback of a request that libuv has taken, which deletes it.
abbrev pub delete_request : ℕ → ℕ → ℤ → Option (Requests × List SendEffect)
delete_request (suc n) (suc k) status = some (
  record { allocated = n; in_flight = k },
  if is_zero status then [] else logs_send_error status ∷ [],
)
delete_request zero (suc k) status = none
delete_request n zero status = none

unfoldable pub sent : ℤ → Requests → Option (Requests × List SendEffect)
sent status r = delete_request r.allocated r.in_flight status

-- The two sends that the header calls obsoleted, which do without `send`.
abbrev pub send_to_server2 : UdpAgent → List ℕ → ℤ → Requests → Requests × ℤ × List SendEffect
send_to_server2 agent buf rst r = send agent.server buf rst r

abbrev pub send_to_client2 : UdpAgent → List ℕ → ℤ → Requests → Requests × ℤ × List SendEffect
send_to_client2 agent buf rst r = send agent.client buf rst r

pub data SendEvent : Type 0 where
  sends : SocketAddr → List ℕ → ℤ → SendEvent
  answers_send : ℤ → SendEvent

unfoldable pub send_step : Requests → SendEvent → Option Requests
send_step r (sends to buf rst) = some (send to buf rst r).0
send_step r (answers_send status) = bind (sent status r) (λ (r', effects). some r')

unfoldable pub send_run : Requests → List SendEvent → Option Requests
send_run r [] = some r
send_run r (e ∷ events) = bind (send_step r e) (λ r'. send_run r' events)

-- The sends that libuv refuses.
abbrev pub refused : SendEvent → ℕ
refused (sends to buf rst) = if is_zero rst then 0 else 1
refused (answers_send status) = 0

unfoldable pub refusals : List SendEvent → ℕ
refusals [] = 0
refusals (e ∷ events) = refused e + refusals events

send-refused :
    (n k lost : ℕ) (ok : Bool)
    → n ≡ k + lost
    → suc n ≡ (if ok then suc k else k) + (lost + (if ok then 0 else 1))
send-refused n k lost true h = omega arith
send-refused n k lost false h = omega arith

answer-refused :
    (n k lost : ℕ) (status : ℤ) (r' : Requests)
    → n ≡ k + lost
    → bind (delete_request n k status) (λ (r, effects). some r) ≡ some r'
    → r'.allocated ≡ r'.in_flight + (lost + 0)
unfolding bind
answer-refused (suc n) (suc k) lost status r' h run =
    let taken = ap (λ r. r.allocated) (some-injective _ r' run) in
    let left = ap (λ r. r.in_flight) (some-injective _ r' run) in omega arith
answer-refused zero (suc k) lost status r' h run = absurd (none-ne-some r' run)
answer-refused zero zero lost status r' h run = absurd (none-ne-some r' run)
answer-refused (suc n) zero lost status r' h run = absurd (none-ne-some r' run)

send_step-refused :
    (r r' : Requests) (e : SendEvent) (lost : ℕ)
    → r.allocated ≡ r.in_flight + lost
    → send_step r e ≡ some r'
    → r'.allocated ≡ r'.in_flight + (lost + refused e)
unfolding send_step send sent
send_step-refused r r' (sends to buf rst) lost same run =
    let e = some-injective (send to buf rst r).0 r' run in
    subst (λ q. q.allocated ≡ q.in_flight + (lost + refused (sends to buf rst))) e
      (send-refused r.allocated r.in_flight lost (is_zero rst) same)
send_step-refused r r' (answers_send status) lost same run =
    answer-refused r.allocated r.in_flight lost status r' same run

-- After any sends and answers of libuv, the requests that are still allocated are the ones that libuv
-- has taken and not answered, and one for each send that it refused, which nothing deletes. At first
-- some requests are in flight and some lost.
pub send_run-refusals :
    (r r' : Requests) (events : List SendEvent) (lost : ℕ)
    → r.allocated ≡ r.in_flight + lost
    → send_run r events ≡ some r'
    → r'.allocated ≡ r'.in_flight + (lost + refusals events)
unfolding send_run refusals
send_run-refusals r r' [] lost same run =
    subst (λ q. q.allocated ≡ q.in_flight + (lost + 0)) (some-injective r r' run) (omega arith)
send_run-refusals r r' (e ∷ events) lost same run =
    let (r1, happens, later) = (bind-eq-some_iff (send_step r e) _).0 run in
    let same1 = send_step-refused r r1 e lost same happens in
    let all = send_run-refusals r1 r' events (lost + refused e) same1 later in omega arith
