-- ===== src/TcpServer/Timed/Heard.antt =====
-- When a connection of ae/tcp_server.cpp was last heard, and what the wheel was given since.
use ae_proxy.Base.{
  ℕ, zero, suc, ◌≡◌, ◌⊎◌, inl, inr, refl, Bool, true, false, ◌||◌, List, [], ◌∷◌, ◌==◌, ==_iff,
  ==_self, Bool-cases, arith, same_text, same_text_eq, same_text_self, ◌≢◌,
}
use ae_proxy.TimerWheel.{Event, inserts}
use ae_proxy.TimerWheel.Tracks.{inserted_at}
use ae_proxy.TcpServer.Timed.{
  Happening, connects, speaks, times, stream_ends, handle_finishes, program_closes,
}

-- The name was accepted or sent a message, and exactly `age` ticks came after that, in a history whose
-- newest event stands first.
unfoldable pub heard : List ℕ → ℕ → List Happening → Bool
heard name age [] = false
heard name zero (connects k ∷ hs) = same_text k name || heard name zero hs
heard name (suc age) (connects k ∷ hs) = heard name (suc age) hs
heard name zero (speaks k ∷ hs) = same_text k name || heard name zero hs
heard name (suc age) (speaks k ∷ hs) = heard name (suc age) hs
heard name zero (times ∷ hs) = false
heard name (suc age) (times ∷ hs) = heard name age hs
heard name age (stream_ends k ∷ hs) = heard name age hs
heard name age (handle_finishes k ∷ hs) = heard name age hs
heard name age (program_closes k ∷ hs) = heard name age hs

-- What is heard of a name.
pub data Sound : Type 0 where
  arrival message : Sound

unfoldable pub sounds : Sound → List ℕ → Happening
sounds arrival k = connects k
sounds message k = speaks k

same_text-ne : (xs ys : List ℕ) → xs ≢ ys → same_text xs ys ≡ false
same_text-ne xs ys apart = elim (Bool-cases (same_text xs ys)) [
  | inl e ↦ absurd (apart (same_text_eq xs ys e))
  | inr e ↦ e
]

module _ (hs : List Happening) where
  pub heard-now : (sound : Sound) (k : List ℕ) → heard k zero (sounds sound k ∷ hs) ≡ true
  unfolding heard sounds
  heard-now arrival k = rw (same_text_self k) refl
  heard-now message k = rw (same_text_self k) refl

  pub heard-before :
      (sound : Sound) (k name : List ℕ) (age : ℕ)
      → heard name age hs ≡ true
      → heard name age (sounds sound k ∷ hs) ≡ true
  unfolding heard sounds
  heard-before arrival k name zero h = ground arith
  heard-before arrival k name (suc age) h = h
  heard-before message k name zero h = ground arith
  heard-before message k name (suc age) h = h

  pub heard-other :
      (sound : Sound) (k name : List ℕ) (age : ℕ)
      → k ≢ name
      → heard name age (sounds sound k ∷ hs) ≡ true
      → heard name age hs ≡ true
  unfolding heard sounds
  heard-other arrival k name zero apart h = rw (same_text-ne k name apart) at h
  heard-other arrival k name (suc age) apart h = h
  heard-other message k name zero apart h = rw (same_text-ne k name apart) at h
  heard-other message k name (suc age) apart h = h

module _ (u : ℕ) (es : List Event) where
  pub inserted_at-now : inserted_at u zero (inserts u ∷ es) ≡ true
  unfolding inserted_at
  inserted_at-now = rw (==_self u) refl

  pub inserted_at-before :
      (v age : ℕ) → inserted_at v age es ≡ true → inserted_at v age (inserts u ∷ es) ≡ true
  unfolding inserted_at
  inserted_at-before v zero h = ground arith
  inserted_at-before v (suc age) h = h

  pub inserted_at-cases :
      (v age : ℕ)
      → inserted_at v age (inserts u ∷ es) ≡ true
      → ((u ≡ v) × (age ≡ 0)) ⊎ (inserted_at v age es ≡ true)
  unfolding inserted_at
  inserted_at-cases v zero h = elim (Bool-cases (u == v)) [
    | inl e ↦ inl ((==_iff u v).0 e, refl)
    | inr e ↦ inr (rw e at h)
  ]
  inserted_at-cases v (suc age) h = inr h
