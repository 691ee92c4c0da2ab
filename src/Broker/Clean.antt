-- ===== src/Broker/Clean.antt =====
-- `Service::_clean_dead_tasks` of src/service.cpp and `Server::delete_queue` of src/server.cpp: what
-- they take out of the deques of a queue line. No other thread holds the line, so that `try_lock`
-- succeeds.
use ijson.Prelude.{
  ℕ, suc, ◌-◌, not, ◌||◌, List, [], ◌∷◌, ◌++◌, Bytes, text, ◌==◌, if◌then◌else◌, Option, none, some,
  set,
}
use ijson.Prelude.Int.{negsuc}
use ijson.Mapper
use ijson.Broker.{
  Message, QueueLine, M, pure, ◌>>=◌, ◌>>◌, skip, gets, modify, connect, unlink, noexcept,
}
use ijson.Broker.Http.{reply}
use ijson.Broker.Queues.{line, set_clients, set_workers, is_waiting_job, is_waiting_result, upto}
use ijson.Broker.Worker.{release, pop_item}

-- The loop over the workers of one queue: those that stay.
unfoldable pub clean_workers : List ℕ → M (List ℕ)
unfolding unlink
clean_workers [] = pure []
clean_workers (c ∷ cs) =
    let rest = clean_workers cs in
    do
      k ← connect c
      if k.closed || not (is_waiting_job k.status)
          then (do unlink c; rest)
          else (do kept ← rest; pure (c ∷ kept))

-- The loop over the messages of one queue; a deleted message gives back its link.
unfoldable pub clean_clients : List Message → M (List Message)
unfolding unlink noexcept
clean_clients [] = pure []
clean_clients (m ∷ ms) =
    let rest = clean_clients ms in
    let keep = (do kept ← rest; pure (m ∷ kept)) in
    elim m.conn [
      | none ↦ keep
      | some c ↦ (do
        k ← connect c
        if k.closed || not (is_waiting_result k.status)
            then (do noexcept (unlink c); rest)
            else keep)
    ]

-- One queue line, for each of the loops.
unfoldable pub clean_line : ℕ → List ℕ → M (Unit {0})
unfolding clean_workers clean_clients
clean_line q [] = skip
clean_line q (r ∷ rs) = do
  l ← line q
  workers ← clean_workers (l.queue r).workers
  set_workers q r workers
  clients ← clean_clients (l.queue r).clients
  set_clients q r clients
  clean_line q rs

-- The loop over the queue lines, from the line `q`.
unfoldable pub clean_lines : ℕ → List (Option QueueLine) → M (Unit {0})
unfolding clean_line upto
clean_lines q [] = skip
clean_lines q (none ∷ ls) = clean_lines (suc q) ls
clean_lines q (some l ∷ ls) = do
  n ← gets (λ s. s.threads)
  clean_line q (upto 0 n)
  clean_lines (suc q) ls

-- `_clean_dead_tasks`
unfoldable pub clean_dead_tasks : M (Unit {0})
unfolding clean_lines
clean_dead_tasks = do ls ← gets (λ s. s.queue_list); clean_lines 0 ls

-- The clients of a queue that is deleted hear of it.
unfoldable pub close_clients : List Message → M (Unit {0})
unfolding reply
close_clients [] = skip
close_clients (m ∷ ms) = do
  elim m.conn [
    | none ↦ skip
    | some c ↦ (do k ← connect c; if k.closed then skip else reply c (text "400 Closed") (negsuc 0))
  ]
  close_clients ms

-- Its workers, which also lose the link of the deque.
unfoldable pub close_workers : List ℕ → M (Unit {0})
unfolding unlink reply
close_workers [] = skip
close_workers (c ∷ cs) = do
  unlink c
  k ← connect c
  if k.closed then skip else reply c (text "400 Closed") (negsuc 0)
  close_workers cs

-- The loop over the loops' queues: the messages, which are released at the end.
unfoldable pub close_line : QueueLine → List ℕ → M (List Message)
unfolding close_clients close_workers
close_line l [] = pure []
close_line l (r ∷ rs) = do
  close_clients (l.queue r).clients
  close_workers (l.queue r).workers
  gone ← close_line l rs
  pure ((l.queue r).clients ++ gone)

-- The destructor of the list of workers.
unfoldable pub pop_all : List ℕ → M (Unit {0})
unfolding pop_item
pop_all [] = skip
pop_all (c ∷ cs) = do pop_item c; pop_all cs

-- `delete_queue`
unfoldable pub delete_queue : Bytes → M (Unit {0})
unfolding close_line release pop_all upto
delete_queue key = do
  n ← gets (λ s. (Mapper.del s.mapper key).1)
  modify (λ s. record s { mapper = (Mapper.del s.mapper key).0 })
  if n == 0 then skip else (do
    l ← line (n - 1)
    threads ← gets (λ s. s.threads)
    gone ← close_line l (upto 0 threads)
    pop_all l.workers
    modify (λ s. record s { queue_list = set s.queue_list (n - 1) none })
    release gone)
