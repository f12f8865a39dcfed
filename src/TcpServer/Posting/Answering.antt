-- ===== src/TcpServer/Posting/Answering.antt =====
-- The answers to the posted writes of ae/tcp_server.cpp.
use ae_proxy.Base.{
  ℕ, suc, ◌+◌, ◌≡◌, arith, refl, ap, sym, ◌∙◌, subst, inl, inr, Bool, true, false, List, [], ◌∷◌,
  ◌++◌, Option, none, some, ℤ, is_zero, ltb, ◌==◌, ==_iff, Bool-cases,
}
use mathlib.Core.Bool.{true≢false}
use mathlib.Core.Option.{bind-eq-some_iff, some-injective}
use ae_proxy.TcpConnection.{TcpConnection, write, write_in_loop}
use ae_proxy.TcpServer.{TcpServer, get_connection, step}
use ae_proxy.TcpServer.Posting.{
  Task, Posting, place, post_to, lock, run_oldest, has, remove, answer, is_gone, expire_tasks,
  PostEvent, posts, posts_here, run_here, runs, completes, happens, post_step, post_run, place_ran,
}

abbrev pub bit : Bool → ℕ
bit true = 1
bit false = 0

unfoldable pub count : ℕ → List ℕ → ℕ
count i [] = 0
count i (x ∷ xs) = bit (i == x) + count i xs

-- The same of the tasks' numbers.
unfoldable pub count_tasks : ℕ → List Task → ℕ
count_tasks i [] = 0
count_tasks i (t ∷ queue) = bit (i == t.id) + count_tasks i queue

-- Where a write may be: in the queue, with libuv, or answered.
abbrev pub places : ℕ → Posting → ℕ
places i p = count_tasks i p.queue + count i p.in_flight + count i p.answered

count_tasks-snoc :
    (i : ℕ) (queue : List Task) (t : Task)
    → count_tasks i (queue ++ (t ∷ [])) ≡ count_tasks i queue + bit (i == t.id)
unfolding count_tasks
count_tasks-snoc i [] t = omega arith
count_tasks-snoc i (x ∷ queue) t = let e = count_tasks-snoc i queue t in omega arith

count_tasks-expire_tasks :
    (i : ℕ) (s : TcpServer) (queue : List Task)
    → count_tasks i (expire_tasks s queue) ≡ count_tasks i queue
unfolding count_tasks expire_tasks
count_tasks-expire_tasks i s [] = refl
count_tasks-expire_tasks i s (t ∷ queue) =
    let e = count_tasks-expire_tasks i s queue in
    elim (Bool-cases (is_gone (get_connection t.name s))) [
      | inl gone ↦ rw gone (ap (λ n. bit (i == t.id) + n) e)
      | inr here ↦ rw here (ap (λ n. bit (i == t.id) + n) e)
    ]

count-remove :
    (i id : ℕ) (xs : List ℕ)
    → has id xs ≡ true
    → count i xs ≡ count i (remove id xs) + bit (i == id)
unfolding count has remove
count-remove i id [] h = absurd (true≢false (sym h))
count-remove i id (x ∷ xs) h = elim (Bool-cases (id == x)) [
  | inl same ↦
      let e = (==_iff id x).0 same in
      rw same (ap (λ y. bit (i == y) + count i xs) (sym e) ∙ omega arith)
  | inr other ↦ let later = count-remove i id xs (rw other at h) in rw other (omega arith)
]

-- One more place for the write, and none for another.
abbrev Adds : ℕ → Posting → Posting → Type 0
Adds id p q = (q.next ≡ p.next) × ((i : ℕ) → places i q ≡ places i p + bit (i == id))

place-write :
    (id : ℕ) (c : TcpConnection) (rst : ℤ) (buf : List ℕ) (p : Posting)
    → Adds id p (place id (write c rst buf true).1 p)
unfolding place write count
place-write id c rst buf p = elim (Bool-cases c.connected) [
  | inr down ↦ rw down (refl, λ i. omega arith)
  | inl up ↦ elim (Bool-cases (is_zero rst)) [
    | inl taken ↦ rw (up, taken) (refl, λ i. omega arith)
    | inr refused ↦ rw (up, refused) (refl, λ i. omega arith)
  ]
]

-- What a task does: it answers or hands the write to libuv.
task-Adds :
    (id : ℕ) (o : Option TcpConnection) (rst : ℤ) (buf : List ℕ) (p q : Posting)
    → place_ran id (write_in_loop o rst buf true) p ≡ some q
    → Adds id p q
unfolding write_in_loop place count
task-Adds id none rst buf p q h = subst (Adds id p) (some-injective _ q h) (refl, λ i. omega arith)
task-Adds id (some c) rst buf p q h =
    subst (Adds id p) (some-injective _ q h) (place-write id c rst buf p)

-- Each write that was posted is in one place, and no other number is in any.
abbrev pub IsSettled : Posting → Type 0
IsSettled p = (i : ℕ) → places i p ≡ bit (ltb i p.next)

ltb-suc : (i n : ℕ) → bit (ltb i (suc n)) ≡ bit (ltb i n) + bit (i == n)
ltb-suc i n = ground arith

post_to-IsSettled :
    (o : Option TcpConnection) (name buf : List ℕ) (p : Posting)
    → IsSettled p
    → IsSettled (post_to o name buf p)
unfolding place count
post_to-IsSettled none name buf p h i =
    let before = h i in let more = ltb-suc i p.next in omega arith
post_to-IsSettled (some c) name buf p h i =
    let task : Task = record { id = p.next; name = name; buf = buf; expired = false } in
    let before = h i in
    let more = ltb-suc i p.next in let longer = count_tasks-snoc i p.queue task in omega arith

run_here-IsSettled :
    (o : Option TcpConnection) (rst : ℤ) (buf : List ℕ) (p : Posting)
    → IsSettled p
    → IsSettled (run_here o rst buf p)
unfolding place count
run_here-IsSettled none rst buf p h i =
    let before = h i in let more = ltb-suc i p.next in omega arith
run_here-IsSettled (some c) rst buf p h i =
    let (kept, adds) = place-write p.next c rst buf (record p { next = suc p.next }) in
    let before = h i in
    let after = adds i in
    let more = ltb-suc i p.next in let bound = ap (λ n. bit (ltb i n)) kept in omega arith

run_oldest-IsSettled :
    (queue : List Task) (rst : ℤ) (p q : Posting)
    → p.queue ≡ queue
    → IsSettled p
    → run_oldest queue rst p ≡ some q
    → IsSettled q
unfolding count_tasks
run_oldest-IsSettled [] rst p q same h e = subst IsSettled (some-injective p q e) h
run_oldest-IsSettled (t ∷ queue) rst p q same h e = λ i.
    let (kept, adds) =
      task-Adds t.id (lock t p.server) rst t.buf (record p { queue = queue }) q e in
    let before = h i in
    let after = adds i in
    let taken = ap (count_tasks i) same in let bound = ap (λ n. bit (ltb i n)) kept in omega arith

answer-IsSettled :
    (id : ℕ) (status : ℤ) (buf : List ℕ) (p : Posting)
    → IsSettled p
    → IsSettled (answer id status buf p)
unfolding place count
answer-IsSettled id status buf p h = elim (Bool-cases (has id p.in_flight)) [
  | inr absent ↦ rw absent h
  | inl taken ↦
      rw taken
        (λ i. let before = h i in let fewer = count-remove i id p.in_flight taken in omega arith)
]

post_step-IsSettled :
    (p q : Posting) (e : PostEvent) → IsSettled p → post_step p e ≡ some q → IsSettled q
unfolding post_step
post_step-IsSettled p q (posts name buf) h run =
    subst IsSettled (some-injective _ q run)
      (post_to-IsSettled (get_connection name p.server) name buf p h)
post_step-IsSettled p q (posts_here name rst buf) h run =
    subst IsSettled (some-injective _ q run)
      (run_here-IsSettled (get_connection name p.server) rst buf p h)
post_step-IsSettled p q (runs rst) h run = run_oldest-IsSettled p.queue rst p q refl h run
post_step-IsSettled p q (completes id status buf) h run =
    subst IsSettled (some-injective _ q run) (answer-IsSettled id status buf p h)
post_step-IsSettled p q (happens e) h run =
    let (s, does, result) = (bind-eq-some_iff (step p.server e) _).0 run in
    subst IsSettled (some-injective _ q result)
      (λ i. let before = h i in let same = count_tasks-expire_tasks i s p.queue in omega arith)

post_run-IsSettled :
    (p q : Posting) (events : List PostEvent)
    → IsSettled p
    → post_run p events ≡ some q
    → IsSettled q
unfolding post_run
post_run-IsSettled p q [] h run = subst IsSettled (some-injective p q run) h
post_run-IsSettled p q (e ∷ events) h run =
    let (p1, does, later) = (bind-eq-some_iff (post_step p e) _).0 run in
    post_run-IsSettled p1 q events (post_step-IsSettled p p1 e h does) later

-- Whatever happens at the server between, of what the server takes, each write that is posted by name
-- with a callback, from the loop's thread or another, is answered exactly once when the loop has run
-- its tasks and libuv has answered what it took; a number that no write has is not answered. At first
-- nothing was posted.
pub post_run-answered :
    (s : TcpServer) (p : Posting) (events : List PostEvent) (i : ℕ)
    → post_run (record { server = s; queue = []; in_flight = []; answered = []; next = 0 }) events
      ≡ some p
    → p.queue ≡ []
    → p.in_flight ≡ []
    → count i p.answered ≡ bit (ltb i p.next)
unfolding count count_tasks
post_run-answered s p events i run ran done =
    let start : Posting = record {
      server = s;
      queue = [];
      in_flight = [];
      answered = [];
      next = 0;
    } in
    let settled = post_run-IsSettled start p events (λ j. ground arith) run i in
    let none_waits = ap (count_tasks i) ran in let none_flies = ap (count i) done in omega arith
