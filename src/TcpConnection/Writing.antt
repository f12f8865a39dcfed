-- ===== src/TcpConnection/Writing.antt =====
-- What a write and a close of ae/tcp_connection.cpp answer.
use ae_proxy.Base.{
  ℕ, ◌+◌, ◌≡◌, ◌⊎◌, inl, inr, refl, Bool, true, false, List, [], ◌∷◌, ℤ, pos, negsuc, failure,
  success, is_zero, Bool-cases, if◌then◌else◌, zero, suc, arith,
}
use ae_proxy.TcpConnection.{
  TcpConnection, Effect, calls_after_write, requests_write, logs_error, write, written, after_write,
  close, opened, calls_close_complete, on_socket_close, on_message,
}

-- How often the write's callback is called.
unfoldable pub answers : List Effect → ℕ
answers [] = 0
answers (calls_after_write status buf ∷ rest) = 1 + answers rest
answers (_ ∷ rest) = answers rest

is_zero-success : (z : ℤ) → is_zero z ≡ true → z ≡ success
is_zero-success (pos zero) h = refl
is_zero-success (pos (suc n)) h = ground arith
is_zero-success (negsuc n) h = ground arith

-- A write with a callback is answered once: at once when the connection is disconnected or `uv_write`
-- refuses, and only by the callback of `uv_write` when it accepts.
pub answers-write :
    (c : TcpConnection) (rst status : ℤ) (buf : List ℕ)
    → (((write c rst buf true).1 ≡ (requests_write buf ∷ []))
        × ((write c rst buf true).0 ≡ success)
        × (answers (written status buf true) ≡ 1))
      ⊎ ((answers (write c rst buf true).1 ≡ 1)
          × ((write c rst buf true).0 ≡ (if c.connected then rst else failure)))
unfolding write answers
answers-write c rst status buf = elim (Bool-cases c.connected) [
  | inl up ↦ rw up (accepted (Bool-cases (is_zero rst)))
  | inr down ↦ rw down (inr (refl, refl))
]
  where
    accepted :
        (is_zero rst ≡ true) ⊎ (is_zero rst ≡ false)
        → (((if is_zero rst
                then requests_write buf ∷ []
                else logs_error rst ∷ after_write true rst buf)
              ≡ (requests_write buf ∷ []))
            × (rst ≡ success)
            × (answers (written status buf true) ≡ 1))
          ⊎ ((answers (
                  if is_zero rst
                  then requests_write buf ∷ []
                  else logs_error rst ∷ after_write true rst buf)
                ≡ 1)
              × (rst ≡ rst))
    accepted (inl ok) = inl (rw ok refl, is_zero-success rst ok, refl)
    accepted (inr refused) = inr (rw refused refl, refl)

-- Once a connection is closed, neither a message nor the end of its socket calls anyone, and a second
-- close is answered at once, while the first one waits for libuv.
close-close :
    (c : TcpConnection) (first : Bool) (buf : List ℕ)
    → c.handle ≡ opened
    → ((close c first).1 ≡ [])
      × (on_socket_close (close c first).0 ≡ [])
      × (on_message (close c first).0 buf ≡ [])
      × ((close (close c first).0 true).1 ≡ (calls_close_complete c.name ∷ []))
unfolding close
close-close c first buf is_open = simp is_open (refl, refl, refl, refl)
