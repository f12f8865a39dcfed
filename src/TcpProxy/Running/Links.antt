-- ===== src/TcpProxy/Running/Links.antt =====
-- The agents of app/tcp_proxy.cpp, through an event.
use ae_proxy.Base.{
  ℕ, zero, suc, ◌≡◌, ◌≢◌, inl, inr, refl, ap, sym, ◌∙◌, true, List, [], ◌∷◌, ◌++◌, none, some,
  get_elem?, set, Bool-cases, subst, All,
}
use mathlib.Core.Option.{some-injective, none-ne-some}
use ae_proxy.TcpServer.{TcpServer, get_connection}
use ae_proxy.TcpProxy.Running.{Link, has_left, detach}

-- The same agent, which is connected if it was.
abbrev pub Continues : Link → Link → Type 0
Continues l l' =
    (l'.name ≡ l.name)
    × (l'.request ≡ l.request)
    × (l.client.connection ≢ none → l'.client.connection ≢ none)

-- Each agent is still there.
unfoldable pub Extends : List Link → List Link → Type 0
Extends links links' =
    (i : ℕ) (l : Link)
    → get_elem? links i ≡ some l
    → (l' : Link) × (get_elem? links' i ≡ some l') × Continues l l'

pub Extends-same : (links : List Link) → Extends links links
unfolding Extends
Extends-same links i l e = (l, e, (refl, refl, λ h. h))

pub Extends-trans : (a b c : List Link) → Extends a b → Extends b c → Extends a c
unfolding Extends
Extends-trans a b c f g i l e =
    let (l1, e1, (n1, r1, c1)) = f i l e in
    let (l2, e2, (n2, r2, c2)) = g i l1 e1 in (l2, e2, (n2 ∙ n1, r2 ∙ r1, λ h. c2 (c1 h)))

pub Extends-append : (links more : List Link) → Extends links (links ++ more)
unfolding Extends
Extends-append [] more i l e = absurd (none-ne-some l e)
Extends-append (x ∷ links) more zero l e = (l, e, (refl, refl, λ h. h))
Extends-append (x ∷ links) more (suc i) l e = Extends-append links more i l e

pub Extends-set :
    (links : List Link) (i : ℕ) (l l' : Link)
    → get_elem? links i ≡ some l
    → Continues l l'
    → Extends links (set links i l')
unfolding Extends
Extends-set [] i l l' e h j k e' = absurd (none-ne-some k e')
Extends-set (x ∷ links) zero l l' e h zero k e' =
    let same : l ≡ k = some-injective l k (sym e ∙ e') in
    (l', refl, subst (λ m. Continues m l') same h)
Extends-set (x ∷ links) zero l l' e h (suc j) k e' = (k, e', (refl, refl, λ c. c))
Extends-set (x ∷ links) (suc i) l l' e h zero k e' = (k, e', (refl, refl, λ c. c))
Extends-set (x ∷ links) (suc i) l l' e h (suc j) k e' = Extends-set links i l l' e h j k e'

pub Extends-detach : (s : TcpServer) (links : List Link) → Extends links (detach s links)
unfolding Extends detach
Extends-detach s [] i l e = absurd (none-ne-some l e)
Extends-detach s (x ∷ links) zero l e =
    let same : x ≡ l = some-injective x l e in
    elim (Bool-cases (has_left (get_connection x.name s))) [
      | inl left ↦ rw left (
        record x { detached = true },
        refl,
        subst (λ m. Continues m (record x { detached = true })) same (refl, refl, λ h. h),
      )
      | inr here ↦ rw here (x, refl, subst (λ m. Continues m x) same (refl, refl, λ h. h))
    ]
Extends-detach s (x ∷ links) (suc i) l e = Extends-detach s links i l e

-- An agent of this client whose connection to this server succeeded.
unfoldable pub HasAgent : List Link → List ℕ × List ℕ → Type 0
HasAgent links (name, target) =
    (i : ℕ) × (l : Link) × (get_elem? links i ≡ some l)
    × (l.name ≡ name)
    × (l.request.agent.server_address ≡ target)
    × (l.client.connection ≢ none)

pub HasAgent-Extends :
    (links links' : List Link) (entries : List (List ℕ × List ℕ))
    → Extends links links'
    → All (HasAgent links) entries
    → All (HasAgent links') entries
unfolding Extends HasAgent
HasAgent-Extends links links' [] ext hs = _
HasAgent-Extends links links' ((name, target) ∷ entries) ext ((i, l, e, n, t, c), hs) =
    let (l', e', (n', r', c')) = ext i l e in
    (
      (i, l', e', n' ∙ n, ap (λ q. q.agent.server_address) r' ∙ t, c' c),
      HasAgent-Extends links links' entries ext hs,
    )
