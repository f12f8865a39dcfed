-- ===== src/TcpServer/Posting.antt =====
-- The writes that a program posts to the loop, by the name of a connection: `write_in_loop` of
-- ae/tcp_server.cpp and ae/tcp_connection.cpp, with what happens to the connection before the loop runs
-- the task and before libuv answers. Each write has a callback, and a number.
pub mod Answering
use ae_proxy.Base.{
  ℕ, zero, suc, ◌+◌, Bool, true, false, List, [], ◌∷◌, ◌++◌, Option, none, some, ℤ, failure, ◌==◌,
  if◌then◌else◌,
}
use mathlib.Core.Option.{bind}
use ae_proxy.TcpConnection.{
  TcpConnection, Effect, calls_message, calls_connect_close, calls_close_complete,
  calls_after_write, requests_write, logs_error, requests_shutdown, after_write, write,
  write_in_loop, written,
}
use ae_proxy.TcpServer.{TcpServer, get_connection, Event, step}

-- A task of `write_in_loop`: its weak pointer is expired once the connection has left the map, which
-- holds the last pointer to it; a later connection may have the name.
pub record Task : Type 0 where
  pub id : ℕ
  pub name : List ℕ
  pub buf : List ℕ
  pub expired : Bool

pub record Posting : Type 0 where
  pub server : TcpServer
  pub queue : List Task  -- of the loop, the oldest first
  pub in_flight : List ℕ  -- what libuv has taken
  pub answered : List ℕ  -- one entry for each call of a write's callback
  pub next : ℕ

-- What a write's effects are to its callback.
unfoldable pub place : ℕ → List Effect → Posting → Posting
place id [] p = p
place id (calls_after_write status buf ∷ effects) p =
    place id effects (record p { answered = id ∷ p.answered })
place id (requests_write buf ∷ effects) p =
    place id effects (record p { in_flight = id ∷ p.in_flight })
place id (calls_message buf ∷ effects) p = place id effects p
place id (calls_connect_close name ∷ effects) p = place id effects p
place id (calls_close_complete name ∷ effects) p = place id effects p
place id (logs_error status ∷ effects) p = place id effects p
place id (requests_shutdown ∷ effects) p = place id effects p

-- `TcpServer::write_in_loop`, by what the name leads to.
abbrev pub post_to : Option TcpConnection → List ℕ → List ℕ → Posting → Posting
post_to none name buf p =
    place p.next (after_write true failure buf) (record p { next = suc p.next })
post_to (some c) name buf p =
    let task : Task = record { id = p.next; name = name; buf = buf; expired = false } in
    record p { queue = p.queue ++ (task ∷ []); next = suc p.next }

-- The same in the loop's own thread, where `run_in_this_loop` runs the task at once.
abbrev pub run_here : Option TcpConnection → ℤ → List ℕ → Posting → Posting
run_here none rst buf p =
    place p.next (after_write true failure buf) (record p { next = suc p.next })
run_here (some c) rst buf p = place p.next (write c rst buf true).1 (record p { next = suc p.next })

-- The weak pointer's `lock`.
abbrev pub lock : Task → TcpServer → Option TcpConnection
lock t s = if t.expired then none else get_connection t.name s

abbrev pub place_ran : ℕ → Option (List Effect) → Posting → Option Posting
place_ran id none p = none
place_ran id (some effects) p = some (place id effects p)

-- The loop runs its oldest task; `rst` is what `uv_write` returns, if it is called.
abbrev pub run_oldest : List Task → ℤ → Posting → Option Posting
run_oldest [] rst p = some p
run_oldest (t ∷ queue) rst p =
    place_ran t.id (write_in_loop (lock t p.server) rst t.buf true) (record p { queue = queue })

unfoldable pub has : ℕ → List ℕ → Bool
has id [] = false
has id (x ∷ xs) = let later = has id xs in if id == x then true else later

unfoldable pub remove : ℕ → List ℕ → List ℕ
remove id [] = []
remove id (x ∷ xs) = let later = remove id xs in if id == x then xs else x ∷ later

-- libuv answers a write that it has taken.
abbrev pub answer : ℕ → ℤ → List ℕ → Posting → Posting
answer id status buf p =
    if has id p.in_flight
    then place id (written status buf true) (record p { in_flight = remove id p.in_flight })
    else p

abbrev pub is_gone : Option TcpConnection → Bool
is_gone none = true
is_gone (some c) = false

-- The weak pointers to connections that have left the map.
unfoldable pub expire_tasks : TcpServer → List Task → List Task
expire_tasks s [] = []
expire_tasks s (t ∷ queue) =
    (if is_gone (get_connection t.name s) then record t { expired = true } else t)
    ∷ expire_tasks s queue

pub data PostEvent : Type 0 where
  posts : List ℕ → List ℕ → PostEvent  -- from another thread
  posts_here : List ℕ → ℤ → List ℕ → PostEvent
  runs : ℤ → PostEvent
  completes : ℕ → ℤ → List ℕ → PostEvent
  happens : Event → PostEvent  -- at the server

unfoldable pub post_step : Posting → PostEvent → Option Posting
post_step p (posts name buf) = some (post_to (get_connection name p.server) name buf p)
post_step p (posts_here name rst buf) = some (run_here (get_connection name p.server) rst buf p)
post_step p (runs rst) = run_oldest p.queue rst p
post_step p (completes id status buf) = some (answer id status buf p)
post_step p (happens e) =
    bind (step p.server e) (λ s. some (record p { server = s; queue = expire_tasks s p.queue }))

unfoldable pub post_run : Posting → List PostEvent → Option Posting
post_run p [] = some p
post_run p (e ∷ events) = bind (post_step p e) (λ p'. post_run p' events)
