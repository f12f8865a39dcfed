-- ===== src/TcpServer/Timed/Expiry.antt =====
-- Which connections of ae/tcp_server.cpp the end of their wrappers closes.
use ae_proxy.Base.{
  ℕ, ◌≡◌, ◌≢◌, inl, inr, refl, ap, sym, ◌∙◌, true, false, ◌&&◌, List, Option, none, some, ==_iff,
  if◌then◌else◌, Bool-cases, Option-cases, arith, lookup, update, get_elem?,
}
use mathlib.Core.Bool.{and-false, true≢false}
use mathlib.Core.Option.{none-ne-some, some-injective}
use ae_proxy.TcpConnection.{TcpConnection}
use ae_proxy.TcpServer.{TcpServer, get_connection}
use ae_proxy.TcpServer.Table.{
  AreAlive, lookup-AreAlive, lookup-update, lookup-update_ne, lookup-update_missing,
}
use ae_proxy.TcpServer.Closing.{
  closed_down, after_close, socket_closed-opened, socket_closed-quiet, after_close-AreAlive,
}
use ae_proxy.TcpServer.Timed.{is_wrapper, wrapper_dies}

-- Each connection's wrapper was made for it.
abbrev pub AreOwned : List (List ℕ) → List (List ℕ × TcpConnection) → Type 0
AreOwned wrappers entries =
    (name : List ℕ) (c : TcpConnection) (v : ℕ)
    → lookup name entries ≡ some c
    → c.wrapper ≡ some v
    → get_elem? wrappers v ≡ some name

-- A connection after the end of a wrapper.
abbrev pub expired : ℕ → TcpConnection → TcpConnection
expired v c = if is_wrapper v c.wrapper && c.on_connect_close_set then closed_down c else c

pub record Changes (f : TcpConnection → TcpConnection) (s s' : TcpServer) : Type 0 where
  pub found :
      (name : List ℕ) (c : TcpConnection)
      → lookup name s.connections ≡ some c
      → lookup name s'.connections ≡ some (f c)
  pub missing :
      (name : List ℕ) → lookup name s.connections ≡ none → lookup name s'.connections ≡ none

-- Nothing takes a wrapper from its connection.
expired-wrapper : (v : ℕ) (c : TcpConnection) → (expired v c).wrapper ≡ c.wrapper
expired-wrapper v c = ground arith

is_wrapper-eq : (v : ℕ) (o : Option ℕ) → is_wrapper v o ≡ true → o ≡ some v
is_wrapper-eq v none h = ground arith
is_wrapper-eq v (some u) h = ap some ((==_iff u v).0 h)

module _ (wrappers : List (List ℕ)) (v : ℕ) (s : TcpServer) (alive : AreAlive s.connections)
    (owned : AreOwned wrappers s.connections) where
  -- No connection has the wrapper.
  no_owner : get_elem? wrappers v ≡ none → Changes (expired v) s s
  no_owner g = record {
    found = λ name c e. elim (Bool-cases (is_wrapper v c.wrapper)) [
      | inl mine ↦
          absurd (none-ne-some _ (sym g ∙ owned name c v e (is_wrapper-eq v c.wrapper mine)))
      | inr other ↦ rw other e
    ];
    missing = λ name e. e;
  }

  module _ (key : List ℕ) (g : get_elem? wrappers v ≡ some key) where
    owner :
        (name : List ℕ) (c : TcpConnection)
        → lookup name s.connections ≡ some c
        → is_wrapper v c.wrapper ≡ true
        → name ≡ key
    owner name c e mine =
        some-injective name key (sym (owned name c v e (is_wrapper-eq v c.wrapper mine)) ∙ g)

    -- The connection that the wrapper was made for is gone, has another one, or closes already.
    quiet_owner :
        ((c : TcpConnection)
          → lookup key s.connections ≡ some c
          → (is_wrapper v c.wrapper && c.on_connect_close_set) ≡ false)
        → Changes (expired v) s s
    quiet_owner quiet = record {
      found = λ name c e. elim (Bool-cases (is_wrapper v c.wrapper)) [
        | inl mine ↦
            rw (quiet c (ap (λ k. lookup k s.connections) (sym (owner name c e mine)) ∙ e)) e
        | inr other ↦ rw other e
      ];
      missing = λ name e. e;
    }

    module _ (a : TcpConnection) (e : lookup key s.connections ≡ some a)
        (own : is_wrapper v a.wrapper ≡ true) (set : a.on_connect_close_set ≡ true) where
      expired_owner : expired v a ≡ closed_down a
      expired_owner =
          ap (λ b. if b then closed_down a else a) (ap (λ b. b && a.on_connect_close_set) own ∙ set)

      closes_owner : Changes (expired v) s (after_close key a s)
      closes_owner = record {
        found = λ name c e'. elim (Bool-cases (is_wrapper v c.wrapper)) [
          | inl mine ↦
              let same = owner name c e' mine in
              let this : c ≡ a =
                some-injective c a (sym e' ∙ (ap (λ k. lookup k s.connections) same ∙ e)) in
              ap (λ k. lookup k (update key (closed_down a) s.connections)) same
              ∙ (lookup-update key (closed_down a) a s.connections e
                  ∙ ap some (sym (ap (expired v) this ∙ expired_owner)))
          | inr other ↦
              let apart : name ≢ key = λ same. true≢false (
                sym own
                ∙ (ap (λ x. is_wrapper v x.wrapper)
                      (some-injective a c
                        (sym e ∙ (ap (λ k. lookup k s.connections) (sym same) ∙ e')))
                    ∙ other)) in
              rw other (lookup-update_ne name key (closed_down a) s.connections apart ∙ e')
        ];
        missing = λ name e'. lookup-update_missing name key (closed_down a) s.connections e';
      }

  -- The end of a wrapper closes the open connection that it was made for, and changes no other.
  pub wrapper_dies_lem :
      (s' : TcpServer) × (wrapper_dies (get_elem? wrappers v) v s ≡ some s')
      × AreAlive s'.connections
      × Changes (expired v) s s'
  unfolding get_connection
  wrapper_dies_lem = elim (Option-cases (get_elem? wrappers v)) [
    | inl g ↦ (s, rw g refl, alive, no_owner g)
    | inr (key, g) ↦ elim (Option-cases (lookup key s.connections)) [
      | inl e ↦ (
        s,
        rw g (rw e refl),
        alive,
        quiet_owner key g (λ c e'. absurd (none-ne-some _ (sym e ∙ e'))),
      )
      | inr (a, e) ↦
          let this = λ (c : TcpConnection) (e' : lookup key s.connections ≡ some c).
            some-injective c a (sym e' ∙ e) in
          elim (Bool-cases (is_wrapper v a.wrapper)) [
            | inr other ↦ (
              s,
              rw g (rw e (rw other refl)),
              alive,
              quiet_owner key g
                  (λ c e'. rw (ap (λ x. is_wrapper v x.wrapper) (this c e') ∙ other) refl),
            )
            | inl own ↦ elim (lookup-AreAlive key s.connections a alive e) [
              | inl (h, k) ↦ (
                after_close key a s,
                rw g (rw e (rw own (socket_closed-opened key a s e h k))),
                after_close-AreAlive key a s alive,
                closes_owner key g a e own k,
              )
              | inr (h, k, l) ↦ (
                s,
                rw g (rw e (rw own (socket_closed-quiet key a s k))),
                alive,
                quiet_owner key g (λ c e'.
                    ap (λ x. is_wrapper v x.wrapper && x.on_connect_close_set) (this c e')
                    ∙ (ap (λ b. is_wrapper v a.wrapper && b) k
                        ∙ and-false (is_wrapper v a.wrapper))),
              )
            ]
          ]
    ]
  ]

  pub expired-AreOwned :
      (s' : TcpServer) → Changes (expired v) s s' → AreOwned wrappers s'.connections
  expired-AreOwned s' ch name c' u e w = elim (Option-cases (lookup name s.connections)) [
    | inl gone ↦ absurd (none-ne-some _ (sym (ch.missing name gone) ∙ e))
    | inr (c, e') ↦ owned name c u e' (
        sym (expired-wrapper v c)
        ∙ (ap (λ x. x.wrapper) (some-injective (expired v c) c' (sym (ch.found name c e') ∙ e))
            ∙ w))
  ]
