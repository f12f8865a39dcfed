-- ===== src/TcpProxy/Running/Honest.antt =====
-- The reports of an agent of app/tcp_proxy.cpp, beside its connection.
use ae_proxy.Base.{
  ◌≡◌, ◌≢◌, inl, inr, refl, ap, sym, Bool, true, false, List, ℕ, [], ◌∷◌, Option, none, some,
  if◌then◌else◌, is_nil, All, Bool-cases,
}
use mathlib.Core.Bool.{true≢false}
use mathlib.Core.Option.{none-ne-some}
use ae_proxy.TcpConnection.{TcpConnection, Handle, opened, closing, closed, close, close_complete}
use ae_proxy.TcpClient.{
  TcpClient, ConnectStatus, connect_success, connect_fail, connect_close, on_connect,
  after_connect_fail, on_connect_close, client_finishes, after_effects, CloseCallback, no_callback,
  calls_on_close, calls_program, run_close_callback, close_current, finish_client,
  finish_connection,
}
use ae_proxy.TcpProxy.Running.{statuses_of, of_reports, after_close}

is_success : ConnectStatus → Bool
is_success connect_success = true
is_success connect_fail = false
is_success connect_close = false

abbrev NoSuccess : List ConnectStatus → Type 0
NoSuccess statuses = All (λ status. status ≢ connect_success) statuses

-- What an agent does with its client: see above.
abbrev pub IsHonest : TcpClient → TcpClient × List ConnectStatus → Type 0
IsHonest c (c', statuses) =
    (c.connection ≢ none → c'.connection ≢ none)
    × All (λ status. status ≡ connect_success → c'.connection ≢ none) statuses

fail_ne : connect_fail ≢ connect_success
unfolding is_success
fail_ne e = true≢false (sym (ap is_success e))

close_ne : connect_close ≢ connect_success
unfolding is_success
close_ne e = true≢false (sym (ap is_success e))

without_success :
    (c c' : TcpClient) (statuses : List ConnectStatus)
    → (c.connection ≢ none → c'.connection ≢ none)
    → NoSuccess statuses
    → IsHonest c (c', statuses)
without_success c c' statuses kept hs = (kept, all statuses hs)
  where
    all :
        (sts : List ConnectStatus)
        → NoSuccess sts
        → All (λ status. status ≡ connect_success → c'.connection ≢ none) sts
    all [] hs = _
    all (st ∷ sts) (h, hs) = ((λ e. absurd (h e)), all sts hs)

reports_one :
    (b : Bool) (status : ConnectStatus)
    → status ≢ connect_success
    → NoSuccess (if b then status ∷ [] else [])
reports_one true status h = (h, _)
reports_one false status h = _

statuses_of-close :
    (b : Bool) (callback : CloseCallback) (c : TcpClient)
    → NoSuccess (statuses_of (if b then [] else run_close_callback callback c))
unfolding statuses_of
statuses_of-close true closes c = _
statuses_of-close false no_callback c = _
statuses_of-close false calls_on_close c = elim (Bool-cases c.connect_callback_set) [
  | inl e ↦ rw e (close_ne, _)
  | inr e ↦ rw e _
]
statuses_of-close false (calls_program true) c = _
statuses_of-close false (calls_program false) c = _

some_ne : {c : TcpConnection} → some c ≢ none
some_ne e = none-ne-some _ (sym e)

pub on_connect-IsHonest :
    (ok : Bool) (name : List ℕ) (c : TcpClient) → IsHonest c (on_connect ok name c)
unfolding on_connect
on_connect-IsHonest true name c = elim (Bool-cases c.connect_callback_set) [
  | inl e ↦ rw e ((λ h. some_ne), ((λ h. some_ne), _))
  | inr e ↦ rw e ((λ h. some_ne), _)
]
on_connect-IsHonest false name c = ((λ h. h), _)

pub after_connect_fail-IsHonest : (c : TcpClient) → IsHonest c (c, after_connect_fail c)
after_connect_fail-IsHonest c =
    without_success c c _ (λ h. h) (reports_one c.connect_callback_set connect_fail fail_ne)

closed_current :
    (o : Option TcpConnection) (c : TcpClient)
    → c.connection ≡ o
    → let (c', effects) = close_current o c in IsHonest c (of_reports (after_effects c' effects))
unfolding statuses_of
closed_current none c e = ((λ h. h), _)
closed_current (some conn) c e =
    let (conn', effects) = close conn true in
    let c' = record c { connection = some conn'; close_callback = calls_on_close } in
    without_success c c' _ (λ h. some_ne) (statuses_of-close (is_nil effects) calls_on_close c')

pub after_close-IsHonest : (c : TcpClient) → IsHonest c (after_close c)
unfolding on_connect_close
after_close-IsHonest c = closed_current c.connection c refl

finished :
    (handle : Handle) (conn : TcpConnection) (c : TcpClient)
    → IsHonest c (of_reports (finish_connection handle conn c))
unfolding statuses_of
finished opened conn c = ((λ h. h), _)
finished closing conn c =
    let conn' = record conn { handle = closed } in
    let c' = record c { connection = some conn' } in
    without_success c c' _ (λ h. some_ne)
      (statuses_of-close (is_nil (close_complete conn')) c.close_callback c')
finished closed conn c = ((λ h. h), _)

finished_current :
    (o : Option TcpConnection) (c : TcpClient) → IsHonest c (of_reports (finish_client o c))
unfolding statuses_of
finished_current none c = ((λ h. h), _)
finished_current (some conn) c = finished conn.handle conn c

pub client_finishes-IsHonest : (c : TcpClient) → IsHonest c (of_reports (client_finishes c))
unfolding client_finishes
client_finishes-IsHonest c = finished_current c.connection c
