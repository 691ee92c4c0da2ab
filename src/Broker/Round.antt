-- ===== src/Broker/Round.antt =====
-- The rounds of src/server.cpp's loops, the steps of all threads, and the states that they come to.
use ijson.Prelude.{
  ℕ, ◌+◌, ◌-◌, ◌%◌, ◌^◌, Bool, false, not, ◌||◌, List, [], ◌∷◌, text, ltb, leb, ◌==◌, if◌then◌else◌,
  Option, none, some, length, Error, ◌≡◌,
}
use ijson.Prelude.Int.{ℤ, pos}
use ijson.Mapper.{init}
use ijson.NetFilter.{NetFilter}
use ijson.Broker.{
  Connect, Queue, QueueLine, Server, ok, thrown, M, pure, ◌>>=◌, ◌>>◌, skip, gets, modify, connect,
  update, new_connect,
}
use ijson.Broker.Http.{status, done}
use ijson.Broker.Poll.{Kernel, perform_to_send, migrate_send, delete_connections, migrate_recv}
use ijson.Broker.Queues.{upto, is_waiting_job}
use ijson.Broker.Request.{after_job}
use ijson.Broker.Clean.{clean_dead_tasks}
use ijson.Service.Thread.{Service, service_round}
use ijson.Broker.Events.{System, Event, accept, handle}

-- One worker in `_check_timeout`.
unfoldable pub time_out : ℕ → ℕ → M (Unit {0})
unfolding status done
time_out now w = do
  k ← connect w
  if k.ping == 0 || ltb now k.ping_timeout || k.closed || not (is_waiting_job k.status)
      then skip
      else (do
        update w (λ k. record k { status = after_job k })
        status w (text "408 Timeout")
        done w
        update w (λ k. record k { ping_timeout = (now + k.ping) % 2 ^ 32 }))

unfoldable pub time_out_all : ℕ → List ℕ → M (Unit {0})
unfolding time_out
time_out_all now [] = skip
time_out_all now (w ∷ ws) = do time_out now w; time_out_all now ws

unfoldable pub time_out_line : ℕ → (ℕ → Queue) → List ℕ → M (Unit {0})
unfolding time_out_all
time_out_line now queue [] = skip
time_out_line now queue (i ∷ is) = do time_out_all now (queue i).workers; time_out_line now queue is

unfoldable pub time_out_lines : ℕ → List (Option QueueLine) → M (Unit {0})
unfolding time_out_line upto
time_out_lines now [] = skip
time_out_lines now (none ∷ ls) = time_out_lines now ls
time_out_lines now (some l ∷ ls) = do
  n ← gets (λ s. s.threads)
  time_out_line now l.queue (upto 0 n)
  time_out_lines now ls

-- `_check_timeout`
unfoldable pub check_timeout : M (Unit {0})
unfolding time_out_lines
check_timeout = do now ← gets (λ s. s.now); ls ← gets (λ s. s.queue_list); time_out_lines now ls

unfoldable pub handle_all : System → ℕ → List (ℕ × Event) → M Bool
unfolding handle
handle_all sys nloop [] = pure false
handle_all sys nloop ((fd, event) ∷ es) = do
  go ← handle sys nloop fd event
  more ← handle_all sys nloop es
  pure (go || more)

-- Every hundredth round of the loop 0 looks for timeouts.
unfoldable pub count_down : System → M (Unit {0})
unfolding check_timeout
count_down sys = do
  n ← gets (λ s. s.countdown)
  if leb n 1
      then (do
        modify (λ s. record s { countdown = 100 })
        if sys.unlocked then check_timeout else skip)
      else modify (λ s. record s { countdown = s.countdown - 1 })

-- A round of `Loop::_loop`, for what `epoll_wait` returns.
unfoldable pub round : System → ℕ → List (ℕ × Event) → M (Unit {0})
unfolding handle_all count_down perform_to_send migrate_send delete_connections migrate_recv
round sys nloop events = do
  modify (λ s. record s { stat_ioevent = s.stat_ioevent + length events })
  go ← handle_all sys nloop events
  if nloop == 0 then count_down sys else skip
  perform_to_send sys.kernel nloop
  if go then migrate_send sys.kernel sys.socket nloop else skip
  delete_connections sys.free nloop
  migrate_recv nloop

-- The server as its constructor and `Server::start` leave it, with `threads` loops at work.
abbrev pub started : ℕ → Bool → ℕ → List ℕ → Server
started threads jsonrpc2 now random = record {
  threads = threads;
  jsonrpc2 = jsonrpc2;
  connects = λ c. new_connect 0 false false false;
  mapper = init;
  queue_list = [];
  wait_response = [];
  dead = λ n. [];
  to_send = λ n. [];
  accept_request = λ n. false;
  calls = [];
  freed = [];
  fake_fd = pos 0;
  countdown = 100;
  stat_call = 0;
  stat_result = 0;
  index = 0;
  now = now;
  random = random;
  connections = λ fd. none;
  max_fd = 0;
  active_loop = 0;
  stat_connect = 0;
  stat_request = 0;
  stat_recv = 0;
  stat_send = 0;
  stat_ioevent = 0;
  stat_starttime = now;
}

-- What a thread does next: the main thread accepts; a loop has a round, or any part of one, so that
-- the parts of different loops may mix; the service has a round, cleans the queues or chooses the loop
-- of the next connection; and the clock goes on.
pub data Step : Type 0 where
  accepts : Kernel → List NetFilter → ℕ → ℕ → ℕ → Connect → Step
  rounds : System → ℕ → List (ℕ × Event) → Step
  handles : System → ℕ → ℕ → Event → Step
  switches : Kernel → ℕ → Step
  sends_over : Kernel → ℤ → ℕ → Step
  deletes : Bool → ℕ → Step
  takes_over : ℕ → Step
  times_out cleans : Step
  serves : ℕ → List ℕ → Service → Step
  chooses ticks : ℕ → Step

unfoldable pub step : Step → M (Unit {0})
unfolding accept round handle perform_to_send migrate_send delete_connections migrate_recv
    check_timeout clean_dead_tasks service_round
step (accepts kernel filters fd ip c fresh) = accept kernel filters fd ip c fresh
step (rounds sys nloop events) = round sys nloop events
step (handles sys nloop fd event) = (do go ← handle sys nloop fd event; skip)
step (switches kernel nloop) = perform_to_send kernel nloop
step (sends_over kernel socket nloop) = migrate_send kernel socket nloop
step (deletes free nloop) = delete_connections free nloop
step (takes_over nloop) = migrate_recv nloop
step times_out = check_timeout
step cleans = clean_dead_tasks
step (serves now usages v) = (do w ← service_round now usages v; skip)
step (chooses n) = modify (λ s. record s { active_loop = n })
step (ticks now) = modify (λ s. record s { now = now })

-- The states that the broker comes to from `s`: each step ends, or its thread does by an exception.
pub data Reach (s : Server) : Server → Type 0 where
  here : Reach s s
  returns : {t u : Server} → Reach s t → (k : Step) → step k t ≡ ok tt u → Reach s u
  raises : {t u : Server} → Reach s t → (k : Step) (e : Error) → step k t ≡ thrown e u → Reach s u
