-- ===== src/Main.antt =====
-- app/main.cpp: the options, the configuration and the choice of the proxy. The parser of options and
-- the reader of JSON are parameters, which are `none` where they throw. Texts are lists of bytes.
use ae_proxy.Base.{
  ℕ, List, [], ◌∷◌, Option, none, some, ℤ, success, failure, ◌==◌, if◌then◌else◌, same_text,
}
use mathlib.Core.Option.{bind}
use ae_proxy.SocketAddr.{SocketAddr, new_addr, ipv4}
use ae_proxy.UdpProxy.{c_str, to_ushort}

abbrev pub tcp_proxy_mode : ℕ
tcp_proxy_mode = 0

abbrev pub udp_proxy_mode : ℕ
udp_proxy_mode = 1

pub record Args : Type 0 where
  pub config_file : List ℕ
  pub mode : ℕ

-- What is asked of `cxxopts::ParseResult`; an option that is not given has its default value.
pub record ParseResult : Type 0 where
  pub help : ℕ
  pub config : List ℕ
  pub mode : List ℕ

-- `exit` with a status, or the end of `parse_args`.
pub data Parsed : Type 0 where
  exits : ℤ → Parsed
  returns : Args → Parsed

-- "udp"
abbrev pub udp_text : List ℕ
udp_text = b'u' ∷ b'd' ∷ b'p' ∷ []

abbrev pub set_args : ParseResult → Args → Args
set_args result args =
    let configured = record args { config_file = result.config } in
    if same_text result.mode udp_text
    then record configured { mode = udp_proxy_mode }
    else configured

abbrev pub after_parse : Option ParseResult → Args → Parsed
after_parse none args = exits failure
after_parse (some result) args =
    if result.help == 0 then returns (set_args result args) else exits success

unfoldable pub parse_args : (List (List ℕ) → Option ParseResult) → List (List ℕ) → Args → Parsed
unfolding same_text
parse_args parse argv args = after_parse (parse argv) args

-- What is asked of the JSON of the configuration, by the names of the proxy and its field.
pub record Config (J : Type 0) : Type 0 where
  pub load : List ℕ → Option J
  pub get_string : J → List ℕ → List ℕ → Option (List ℕ)
  pub get_int : J → List ℕ → List ℕ → Option ℤ

-- The part of `Proxy` that its constructor fills.
pub record Proxy : Type 0 where
  pub addr : SocketAddr
  pub ip : List ℕ
  pub port : ℤ

abbrev pub new_proxy : List ℕ → ℤ → Proxy
new_proxy ip port = record {
  addr = new_addr (c_str ip) (to_ushort port) ipv4;
  ip = c_str ip;
  port = port;
}

-- How the program begins to run: with a status that it exits with, by an exception that nothing
-- catches, or as one of the proxies.
pub data Run : Type 0 where
  ends_with : ℤ → Run
  throws : Run
  runs_tcp : Proxy → Run
  runs_udp : Proxy → Run

-- "self.ip" and "self.port"
abbrev pub self_ip : List ℕ
self_ip = b's' ∷ b'e' ∷ b'l' ∷ b'f' ∷ b'.' ∷ b'i' ∷ b'p' ∷ []

abbrev pub self_port : List ℕ
self_port = b's' ∷ b'e' ∷ b'l' ∷ b'f' ∷ b'.' ∷ b'p' ∷ b'o' ∷ b'r' ∷ b't' ∷ []

-- "tcp.proxy" and "udp.proxy"
abbrev pub tcp_section : List ℕ
tcp_section = b't' ∷ b'c' ∷ b'p' ∷ b'.' ∷ b'p' ∷ b'r' ∷ b'o' ∷ b'x' ∷ b'y' ∷ []

abbrev pub udp_section : List ℕ
udp_section = b'u' ∷ b'd' ∷ b'p' ∷ b'.' ∷ b'p' ∷ b'r' ∷ b'o' ∷ b'x' ∷ b'y' ∷ []

module _ {J : Type 0} (config : Config J) where
  -- `tcp_proxy` and `udp_proxy`
  abbrev pub configured_proxy : List ℕ → J → Option Proxy
  configured_proxy name jc =
      bind (config.get_string jc name self_ip)
        (λ ip. bind (config.get_int jc name self_port) (λ port. some (new_proxy ip port)))

  abbrev pub run_as : (Proxy → Run) → Option Proxy → Run
  run_as kind none = throws
  run_as kind (some proxy) = kind proxy

  abbrev pub run_mode : ℕ → Option J → Run
  run_mode mode none = throws
  run_mode mode (some jc) =
      if mode == tcp_proxy_mode
      then run_as runs_tcp (configured_proxy tcp_section jc)
      else run_as runs_udp (configured_proxy udp_section jc)

  abbrev pub main_with : Parsed → Run
  main_with (exits status) = ends_with status
  main_with (returns args) = run_mode args.mode (config.load args.config_file)

  -- `main` up to the loop.
  unfoldable pub main : (List (List ℕ) → Option ParseResult) → List ℕ → List (List ℕ) → Run
  unfolding parse_args
  main parse default_file argv =
      main_with
        (parse_args parse argv (record { config_file = default_file; mode = tcp_proxy_mode }))
