-- ===== src/Tests/Loops.antt =====
-- What the loops do between their events, and the search for a worker, at small servers.
use ijson.Prelude.{ℕ, ◌≡◌, refl, arith, true, [], ◌∷◌, text, ◌==◌, if◌then◌else◌, none, some}
use ijson.Prelude.Int.{pos}
use ijson.Broker.{
  Status, net, worker_wait_job, busy, Connect, QueueLine, Server, ok, fault, ◌>>=◌, ◌>>◌, gets,
  modify, skip, connect,
}
use ijson.Slice.{is_empty}
use ijson.Broker.Queues.{find_worker}
use ijson.Broker.Poll.{delete_all, Kernel, migrate_send, delete_connections}
use ijson.Broker.Poll.Migration.{Ends}
use ijson.Broker.Poll.Moves.{Gone, migrate_send_lem}
use ijson.Broker.FindWorker.{Suits}
use ijson.Broker.FindWorker.Search.{Searched, find_worker_lem, find_worker-some}
use ijson.Tests.Jobs.{connection, server}

abbrev always : Kernel
always calls = true

-- A client and a worker on their way to the loop 1.
abbrev going : ℕ → Status → Connect
going fd status = record (connection (text "7") status) { need_loop = 1; go_loop = true; fd = fd }

abbrev leaving : Server
leaving = record (server (λ c. if c == 0 then going 5 net else going 6 worker_wait_job) []) {
  threads = 2;
  connections = λ fd. if fd == 5 then some 0 else if fd == 6 then some 1 else none;
  max_fd = 6;
}

migrate_send_lem_example : Ends (migrate_send always (pos 9) 0) (Gone 0) leaving
migrate_send_lem_example = migrate_send_lem always (λ calls. refl) (pos 9) refl 0 leaving

-- A loop with a connection that wants to write, and with two dead ones, one linked again.
abbrev waiting : Server
waiting =
    record (server
      (λ c.
        if c == 0
        then record (connection [] net) { writing = true; link = 0 }
        else record (connection [] net) { link = c })
      []) {
        to_send = λ n. if n == 0 then 0 ∷ [] else [];
        dead = λ n. if n == 0 then 0 ∷ 1 ∷ [] else [];
      }

-- A connection without a link that is listed twice is read after its deletion.
delete_twice_test : delete_connections true 0 (record waiting { dead = λ n. 0 ∷ 0 ∷ [] }) ≡ fault
unfolding delete_connections delete_all ◌>>=◌ ◌>>◌ gets modify skip connect
delete_twice_test = refl

-- A worker that waits at the other loop.
abbrev other : QueueLine
other = record {
  name = text "a";
  last_worker = 0;
  info = [];
  queue = λ r. record { workers = if r == 1 then 1 ∷ [] else []; clients = [] };
  workers = [];
}

abbrev searching : Server
searching =
    record (server (λ c. if c == 0 then connection [] net else connection [] worker_wait_job) []) {
      threads = 2;
      queue_list = some other ∷ [];
    }

find_worker_lem_example : Searched 0 [] other (0 ∷ 1 ∷ []) searching
find_worker_lem_example =
    find_worker_lem (0 ∷ 1 ∷ []) 0 [] other searching refl (refl, (refl, tt)) (λ c. ground arith)

find_worker-some_example :
    (v : ℕ) × (t : Server) × (find_worker 0 [] (0 ∷ 1 ∷ []) searching ≡ ok (some v) t)
    × Suits searching.connects [] v
    × ((t.connects v).status ≡ busy)
unfolding is_empty
find_worker-some_example =
    find_worker-some (0 ∷ 1 ∷ []) 0 [] other searching 1 refl (refl, (refl, tt)) (λ c. ground arith)
      refl (refl, refl, refl)
