-- ===== src/TcpClient/Reporting.antt =====
-- The life of a connection of ae/tcp_client.cpp, as the program is told of it.
use ae_proxy.Base.{ℕ, ◌≡◌, refl, Bool, true, false, List, [], ◌∷◌, ℤ, negsuc, failure}
use ae_proxy.TcpConnection.{
  logs_error, calls_connect_close, close, write, after_write, on_mesage_receive,
}
use ae_proxy.TcpClient.{TcpClient, on_connect, on_connect_close, client_write, receive}

-- A client that has connected and whose read then fails, by an error that is no end of file, tells the
-- end of its connection once and closes it; from the error on every write, before and after the
-- close, returns -1 and is answered with Disconnected, whatever libuv would say.
receive-on_connect :
    (is_eof : ℤ → Bool) (client : TcpClient) (name buf text : List ℕ) (n : ℕ) (rst : ℤ)
    (told : Bool)
    → is_eof (negsuc n) ≡ false
    → (let connected = (on_connect true name client).0 in
        let failed = receive is_eof (negsuc n) buf connected in
        let closed = on_connect_close failed.0 in
        (failed.1 ≡ (logs_error (negsuc n) ∷ calls_connect_close name ∷ []))
        × (closed.1 ≡ [])
        × (client_write failed.0 rst text told ≡ (failure, after_write told failure text))
        × (client_write closed.0 rst text told ≡ (failure, after_write told failure text)))
unfolding on_connect receive on_mesage_receive on_connect_close close client_write write
receive-on_connect is_eof client name buf text n rst told e = (rw e refl, refl, refl, refl)
