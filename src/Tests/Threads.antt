-- ===== src/Tests/Threads.antt =====
-- The locks of 32 loops, the service thread of a server with two loops, and a worker whose time is over.
use ijson.Prelude.{ℕ, ◌-◌, ◌*◌, ◌/◌, ◌≡◌, ◌≤◌, refl, arith, false, [], ◌∷◌, some, none}
use ijson.Prelude.Int.{pos}
use ijson.Locks.{Lock, autolock, unlock}
use ijson.Locks.Scope.{wanted, autolock_lem}
use ijson.Broker.{Server, QueueLine, worker_wait_job}
use ijson.Broker.Queues.{upto}
use ijson.Broker.Round.{check_timeout}
use ijson.Broker.Timeouts.{answered}
use ijson.Broker.Timeouts.Lists.{Finishes, check_timeout_lem}
use ijson.Service.Thread.{Service, at_start, percent}
use ijson.Service.Share.{percent_lem}
use ijson.Tests.Jobs.{server, connection}

autolock_lem_example :
    (l : Lock) × (autolock 32 (some 3) (λ i. false) ≡ some l)
    × ((i : ℕ) → l.locked i ≡ wanted (some 3) 32 i)
    × ((i : ℕ) → (unlock 32 l).locked i ≡ false)
autolock_lem_example = autolock_lem 32 (some 3) (λ i. false) (omega arith) (λ i. refl)

-- With 33 loops the shift is undefined.
many_test : autolock 33 none (λ i. false) ≡ none
unfolding autolock
many_test = refl

percent_lem_example :
    (percent 500000000 700000000 600000000 ≡ pos ((700000000 - 600000000) * 100 / 500000000))
    × ((700000000 - 600000000) * 100 / 500000000 ≤ 100)
percent_lem_example =
    percent_lem 500000000 700000000 600000000 (omega arith) (omega arith) (omega arith)
      (omega arith) (omega arith)

abbrev service : Service
service = at_start 2 1000 (0 ∷ 0 ∷ [])

abbrev line : QueueLine
line = record {
  name = [];
  last_worker = 0;
  info = [];
  queue = λ r. record { workers = 1 ∷ []; clients = [] };
  workers = [];
}

-- A worker that waits since 50 seconds, and pings every 10.
abbrev late : Server
late =
    record (server (λ c. record (connection [] worker_wait_job) { ping = 10; ping_timeout = 60 })
      []) { queue_list = some line ∷ []; now = 100 }

check_timeout_lem_example : Finishes check_timeout 100 (1 ∷ []) late
unfolding upto
check_timeout_lem_example = check_timeout_lem late

answered_test : (answered 100 (late.connects 1)).ping_timeout ≡ 110
answered_test = refl
