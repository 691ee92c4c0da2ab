-- ===== src/Broker/Sound/Steps.antt =====
-- The steps of the loops and of the service, and what they keep from the start on.
use ijson.Prelude.{
  subst, Bool, true, false, ℕ, not, ltb, leb, ◌||◌, List, [], ◌∷◌, Option, none, some, ◌==◌,
}
use ijson.Prelude.Int.{pos, negsuc, eqb_ℤ}
use ijson.NetFilter.{NetFilter, valid_ip}
use ijson.Broker.{◌>>=◌, Connect, Queue, QueueLine, Server, Run, ok, thrown, fault, hang, M, close}
use ijson.Broker.Queues.{upto, is_waiting_job}
use ijson.Broker.Poll.{Kernel}
use ijson.Broker.Events.{
  accept, close_fd, guarded, close_if, Event, failed, readable, not_ready, unreadable, writable,
  on_place, goes, System, handle_event, handle,
}
use ijson.Broker.Round.{
  time_out, time_out_all, time_out_line, time_out_lines, check_timeout, handle_all, count_down,
  round, started, Step, accepts, rounds, handles, switches, sends_over, deletes, takes_over,
  times_out, cleans, serves, chooses, ticks, step, Reach, here, returns, raises,
}
use ijson.Service.Thread.{Service, sub_64, free_memory, clean_round, balance, service_round}
use ijson.Broker.Sound.{
  Keeps, Any, AreLines, Ends, IsSound, Keeps-next, Keeps-then, Keeps-connect, Keeps-gets, Keeps-if,
  Keeps-option, Keeps-skip, Keeps-update, Keeps-throw, Keeps-pure,
}
use ijson.Broker.Sound.Requests.{sound_rules}
use ijson.Broker.Sound.Answers.{on_disconnect-Keeps}
use ijson.Broker.Sound.Cleaning.{clean_dead_tasks-Keeps}
use ijson.Broker.Sound.Loops.{on_recv-Keeps, on_send-Keeps}
use ijson.Broker.Sound.Polls.{
  polls_rules, set_poll_mode-Keeps, perform_to_send-Keeps, migrate_send-Keeps,
  delete_connections-Keeps, migrate_recv-Keeps,
}

accept-Keeps :
    (kernel : Kernel) (filters : List NetFilter) (fd ip c : ℕ) (fresh : Connect)
    → Keeps Any (accept kernel filters fd ip c fresh)
unfolding accept
accept-Keeps kernel filters fd ip c fresh = Keeps-next _ _ (Keeps-gets _) (λ place.
    Keeps-if (leb 16384 fd) _ _ (Keeps-throw _) (
      Keeps-if (not (valid_ip filters ip)) _ _ Keeps-skip
        (Keeps-option place _ _ (search polls_rules depth 24) (λ d. Keeps-throw _))))

close_fd-Keeps : (kernel : Kernel) (fd : ℕ) → Keeps Any (close_fd kernel fd)
unfolding close_fd
close_fd-Keeps kernel fd = Keeps-next _ _ (Keeps-gets _) (λ place.
    Keeps-option place _ _ (Keeps-throw _)
      (λ c. search (polls_rules, on_disconnect-Keeps) depth 20))

guarded-Keeps : (c : ℕ) (m : M (Unit {0})) → Keeps Any m → Keeps Any (guarded c m)
unfolding guarded
guarded-Keeps c m k = record { at = λ s h. closing (m s) (k.at s h) }
  where
    closing :
        (r : Run (Unit {0}))
        → Ends Any r
        → Ends Any
            (elim r [ ok a t ↦ ok a t | thrown e t ↦ close c t | fault ↦ fault | hang ↦ hang ])
    closing (ok a t) h = h
    closing (thrown e t) h = (Keeps-update c (λ k. record k { closed = true })).at t h
    closing fault h = tt
    closing hang h = tt

close_if-Keeps : (kernel : Kernel) (fd c : ℕ) → Keeps Any (close_if kernel fd c)
unfolding close_if
close_if-Keeps kernel fd c = search (sound_rules, close_fd-Keeps)

goes-Keeps : (c : ℕ) → Keeps Any (goes c)
unfolding goes
goes-Keeps c = Keeps-next _ _ (Keeps-connect c) (λ k. Keeps-pure _ tt)

on_place-Keeps :
    (nloop : ℕ) (place : Option ℕ) (f : ℕ → M Bool)
    → ((c : ℕ) → Keeps Any (f c))
    → Keeps Any (on_place nloop place f)
unfolding on_place ◌>>=◌
on_place-Keeps nloop none f k = record { at = λ s h. tt }
on_place-Keeps nloop (some c) f k =
    Keeps-next _ _ (Keeps-connect c) (λ d. Keeps-if (d.nloop == nloop) _ _ (k c) (Keeps-pure _ tt))

event-Keeps :
    (sys : System) (nloop fd : ℕ) (event : Event) → Keeps Any (handle_event sys nloop fd event)
unfolding handle_event
event-Keeps sys nloop fd failed =
    Keeps-next _ _ (Keeps-gets _)
      (λ place. Keeps-then _ _ (close_fd-Keeps sys.kernel fd) (Keeps-pure _ tt))
event-Keeps sys nloop fd (readable []) = Keeps-next _ _ (Keeps-gets _) (λ place.
    on_place-Keeps nloop place _
      (λ c. Keeps-then _ _ (close_fd-Keeps sys.kernel fd) (goes-Keeps c)))
event-Keeps sys nloop fd (readable (a ∷ s)) = Keeps-next _ _ (Keeps-gets _) (λ place.
    on_place-Keeps nloop place _ (λ c. Keeps-then _ _ (search sound_rules) (
      Keeps-then _ _ (guarded-Keeps c _ (on_recv-Keeps sys.junk sys.version c (a ∷ s)))
        (Keeps-then _ _ (close_if-Keeps sys.kernel fd c) (goes-Keeps c)))))
event-Keeps sys nloop fd not_ready =
    Keeps-next _ _ (Keeps-gets _) (λ place. on_place-Keeps nloop place _ (λ c. Keeps-pure _ tt))
event-Keeps sys nloop fd unreadable =
    Keeps-next _ _ (Keeps-gets _) (λ place. on_place-Keeps nloop place _ (λ c. Keeps-throw _))
event-Keeps sys nloop fd (writable sent) = Keeps-next _ _ (Keeps-gets _) (λ place.
    on_place-Keeps nloop place _ (λ c.
      Keeps-then _ _ (guarded-Keeps c _ (on_send-Keeps sent c))
        (Keeps-then _ _ (close_if-Keeps sys.kernel fd c) (goes-Keeps c))))

handle-Keeps : (sys : System) (nloop fd : ℕ) (event : Event) → Keeps Any (handle sys nloop fd event)
unfolding handle
handle-Keeps sys nloop fd event = Keeps-next _ _ (Keeps-gets _) (λ fake.
    Keeps-if (eqb_ℤ (pos fd) fake) _ _
      (Keeps-then _ _ (set_poll_mode-Keeps sys.kernel nloop (pos fd) (negsuc 0))
        (Keeps-pure false tt))
      (event-Keeps sys nloop fd event))

handle_all-Keeps :
    (sys : System) (nloop : ℕ) (es : List (ℕ × Event)) → Keeps Any (handle_all sys nloop es)
unfolding handle_all
handle_all-Keeps sys nloop [] = Keeps-pure _ tt
handle_all-Keeps sys nloop ((fd, event) ∷ es) =
    Keeps-next _ _ (handle-Keeps sys nloop fd event)
      (λ go. Keeps-next _ _ (handle_all-Keeps sys nloop es) (λ more. Keeps-pure _ tt))

time_out-Keeps : (now w : ℕ) → Keeps Any (time_out now w)
unfolding time_out
time_out-Keeps now w = Keeps-next _ _ (Keeps-connect w) (λ k.
    Keeps-if (k.ping == 0 || ltb now k.ping_timeout || k.closed || not (is_waiting_job k.status)) _
      _ Keeps-skip (search sound_rules depth 16))

time_out_all-Keeps : (now : ℕ) (ws : List ℕ) → Keeps Any (time_out_all now ws)
unfolding time_out_all
time_out_all-Keeps now [] = Keeps-skip
time_out_all-Keeps now (w ∷ ws) = Keeps-then _ _ (time_out-Keeps now w) (time_out_all-Keeps now ws)

time_out_line-Keeps :
    (now : ℕ) (queue : ℕ → Queue) (is : List ℕ) → Keeps Any (time_out_line now queue is)
unfolding time_out_line
time_out_line-Keeps now queue [] = Keeps-skip
time_out_line-Keeps now queue (i ∷ is) =
    Keeps-then _ _ (time_out_all-Keeps now (queue i).workers) (time_out_line-Keeps now queue is)

time_out_lines-Keeps : (now : ℕ) (ls : List (Option QueueLine)) → Keeps Any (time_out_lines now ls)
unfolding time_out_lines
time_out_lines-Keeps now [] = Keeps-skip
time_out_lines-Keeps now (none ∷ ls) = time_out_lines-Keeps now ls
time_out_lines-Keeps now (some l ∷ ls) =
    Keeps-next _ _ (Keeps-gets _) (λ n.
      Keeps-then _ _ (time_out_line-Keeps now l.queue (upto 0 n)) (time_out_lines-Keeps now ls))

check_timeout-Keeps : Keeps Any check_timeout
unfolding check_timeout
check_timeout-Keeps =
    Keeps-next _ _ (Keeps-gets _) (λ now. Keeps-next _ _ (Keeps-gets _) (time_out_lines-Keeps now))

count_down-Keeps : (sys : System) → Keeps Any (count_down sys)
unfolding count_down
count_down-Keeps sys = Keeps-next _ _ (Keeps-gets _) (λ n.
    Keeps-if (leb n 1) _ _
      (Keeps-then _ _ (search sound_rules)
        (Keeps-if sys.unlocked _ _ check_timeout-Keeps Keeps-skip))
      (search sound_rules))

round-Keeps : (sys : System) (nloop : ℕ) (es : List (ℕ × Event)) → Keeps Any (round sys nloop es)
unfolding round
round-Keeps sys nloop es = Keeps-then _ _ (search sound_rules) (
    Keeps-next _ _ (handle_all-Keeps sys nloop es) (λ go.
      Keeps-then _ _ (Keeps-if (nloop == 0) _ _ (count_down-Keeps sys) Keeps-skip) (
        Keeps-then _ _ (perform_to_send-Keeps sys.kernel nloop) (
          Keeps-then _ _
            (Keeps-if go _ _ (migrate_send-Keeps sys.kernel sys.socket nloop) Keeps-skip)
            (Keeps-then _ _ (delete_connections-Keeps sys.free nloop)
              (migrate_recv-Keeps nloop))))))

clean_round-Keeps : (v : Service) → Keeps Any (clean_round v)
unfolding clean_round
clean_round-Keeps v =
    Keeps-if (leb v.clean_tasks 1) _ _ (Keeps-then _ _ clean_dead_tasks-Keeps (Keeps-pure _ tt))
      (Keeps-pure _ tt)

balance-Keeps : (now : ℕ) (usages : List ℕ) (v : Service) → Keeps Any (balance now usages v)
unfolding balance
balance-Keeps now usages v =
    Keeps-if (ltb 1 v.threads) _ _
      (Keeps-if (sub_64 now v.prev_time == 0) _ _ (record { at = λ s h. tt })
        (Keeps-then _ _ (search sound_rules) (Keeps-pure _ tt)))
      (Keeps-pure _ tt)

service_round-Keeps :
    (now : ℕ) (usages : List ℕ) (v : Service) → Keeps Any (service_round now usages v)
unfolding service_round free_memory
service_round-Keeps now usages v =
    Keeps-then _ _ (search sound_rules)
      (Keeps-next _ _ (clean_round-Keeps v) (balance-Keeps now usages))

step-Keeps : (k : Step) → Keeps Any (step k)
unfolding step
step-Keeps (accepts kernel filters fd ip c fresh) = accept-Keeps kernel filters fd ip c fresh
step-Keeps (rounds sys nloop es) = round-Keeps sys nloop es
step-Keeps (handles sys nloop fd event) =
    Keeps-next _ _ (handle-Keeps sys nloop fd event) (λ go. Keeps-skip)
step-Keeps (switches kernel nloop) = perform_to_send-Keeps kernel nloop
step-Keeps (sends_over kernel socket nloop) = migrate_send-Keeps kernel socket nloop
step-Keeps (deletes free nloop) = delete_connections-Keeps free nloop
step-Keeps (takes_over nloop) = migrate_recv-Keeps nloop
step-Keeps times_out = check_timeout-Keeps
step-Keeps cleans = clean_dead_tasks-Keeps
step-Keeps (serves now usages v) =
    Keeps-next _ _ (service_round-Keeps now usages v) (λ w. Keeps-skip)
step-Keeps (chooses n) = search sound_rules
step-Keeps (ticks now) = search sound_rules

-- A step of any thread, at a state where the map has each key once and every queue is in order of priority,
-- leaves a state where both hold, whether it returns or ends by an exception.
pub step-IsSound : (k : Step) (s : Server) → IsSound s → Ends Any (step k s)
step-IsSound k s h = (step-Keeps k).at s h

-- In every state that is reached from the start of the server the map of the waiting clients has
-- each key once and every queue is in order of priority.
pub Reach-IsSound :
    (threads : ℕ) (jsonrpc2 : Bool) (now : ℕ) (random : List ℕ) (t : Server)
    → Reach (started threads jsonrpc2 now random) t
    → IsSound t
Reach-IsSound threads jsonrpc2 now random t here = record { waiting = tt; lines = tt }
Reach-IsSound threads jsonrpc2 now random u (returns {t = t} r k e) =
    (subst (Ends Any) e (step-IsSound k t (Reach-IsSound threads jsonrpc2 now random t r))).0
Reach-IsSound threads jsonrpc2 now random u (raises {t = t} r k x e) =
    subst (Ends Any) e (step-IsSound k t (Reach-IsSound threads jsonrpc2 now random t r))

-- In every state that is reached from the start of the server, by any sequence of steps of its
-- threads, each of which returns or ends by an exception, every queue of messages of every queue
-- line is in order of priority.
pub Reach-AreLines :
    (threads : ℕ) (jsonrpc2 : Bool) (now : ℕ) (random : List ℕ) (t : Server)
    → Reach (started threads jsonrpc2 now random) t
    → AreLines t.queue_list
Reach-AreLines threads jsonrpc2 now random t r =
    (Reach-IsSound threads jsonrpc2 now random t r).lines
