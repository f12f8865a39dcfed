-- ===== src/Tests/Posts.antt =====
-- Writes that are posted to the loop of a server.
use ae_proxy.Base.{
  ◌≡◌, ◌∷◌, [], List, refl, some, ℤ, failure, lookup, same_text, update, erase, ltb,
}
use mathlib.Core.Option.{bind}
use ae_proxy.TcpConnection.{close, write, write_in_loop}
use ae_proxy.TcpServer.{accepts, ends, finishes, step, get_connection, accepted, close_connection}
use ae_proxy.TcpServer.Posting.{
  Posting, PostEvent, posts, posts_here, runs, completes, happens, post_run, post_step, place, has,
  remove, expire_tasks,
}
use ae_proxy.TcpServer.Posting.Answering.{count, bit, post_run-answered}
use ae_proxy.Tests.Promises.{empty_server, guest, other}

-- One write to nobody, one that libuv takes, one whose connection goes before the loop runs it and whose
-- name another connection gets, one that libuv refuses, and two in the thread of the loop.
abbrev writes : List PostEvent
writes =
    posts guest (1 ∷ [])
    ∷ happens (accepts guest)
    ∷ posts guest (2 ∷ [])
    ∷ runs (ℤ.pos 0)
    ∷ posts guest (3 ∷ [])
    ∷ happens (ends guest)
    ∷ happens (finishes guest)
    ∷ happens (accepts guest)
    ∷ posts guest (4 ∷ [])
    ∷ runs (ℤ.pos 0)
    ∷ runs failure
    ∷ posts_here other (ℤ.pos 0) (5 ∷ [])
    ∷ posts_here guest failure (6 ∷ [])
    ∷ completes 1 (ℤ.pos 0) (2 ∷ [])
    ∷ []

abbrev after_writes : Posting
after_writes = record {
  server = record empty_server {
    connections = (guest, accepted guest) ∷ [];
    announced = guest ∷ guest ∷ [];
    notified = guest ∷ [];
  };
  queue = [];
  in_flight = [];
  answered = 1 ∷ 5 ∷ 4 ∷ 3 ∷ 2 ∷ 0 ∷ [];
  next = 6;
}

writes_run :
    post_run
      (record { server = empty_server; queue = []; in_flight = []; answered = []; next = 0 })
      writes
    ≡ some after_writes
unfolding post_run post_step place has remove expire_tasks step get_connection lookup same_text
    update erase close close_connection write write_in_loop bind
writes_run = refl

post_run-answered_example : count 2 after_writes.answered ≡ bit (ltb 2 after_writes.next)
post_run-answered_example =
    post_run-answered empty_server after_writes writes 2 writes_run refl refl
