-- ===== src/Broker/Sound/Polls.antt =====
-- What a loop does between its events leaves the map and the queues sound.
use ijson.Prelude.{ℕ, List, [], ◌∷◌, Bool, ◌||◌, not, ◌==◌}
use ijson.Prelude.Int.{ℤ}
use ijson.Broker.{PollCall, M}
use ijson.Broker.Poll.{
  listed, Kernel, epoll_ctl, must, set_poll_mode, switch_mode, loop_accept, wake, switch_all,
  perform_to_send, delete_all, delete_connections, send_over, each_place, migrate_send,
  request_again, migrate_recv, is_migration,
}
use ijson.Broker.Sound.{
  Keeps, Any, Keeps-next, Keeps-then, Keeps-connect, Keeps-gets, Keeps-if, Keeps-option, Keeps-skip,
  Keeps-throw,
}
use ijson.Broker.Sound.Requests.{sound_rules, client_request-Keeps}

epoll_ctl-Keeps :
    (kernel : Kernel) (nloop : ℕ) (call : PollCall) → Keeps Any (epoll_ctl kernel nloop call)
unfolding epoll_ctl
epoll_ctl-Keeps kernel nloop call = search sound_rules

must-Keeps : (b : Bool) → Keeps Any (must b)
unfolding must
must-Keeps b = Keeps-if b _ _ Keeps-skip (Keeps-throw _)

pub set_poll_mode-Keeps :
    (kernel : Kernel) (nloop : ℕ) (fd st : ℤ) → Keeps Any (set_poll_mode kernel nloop fd st)
unfolding set_poll_mode
set_poll_mode-Keeps kernel nloop fd st = search (sound_rules, epoll_ctl-Keeps, must-Keeps)

pub switch_mode-Keeps : (kernel : Kernel) (c : ℕ) → Keeps Any (switch_mode kernel c)
unfolding switch_mode
switch_mode-Keeps kernel c = search (sound_rules, set_poll_mode-Keeps) depth 16

pub loop_accept-Keeps : (kernel : Kernel) (nloop c : ℕ) → Keeps Any (loop_accept kernel nloop c)
unfolding loop_accept
loop_accept-Keeps kernel nloop c = search (sound_rules, epoll_ctl-Keeps, must-Keeps) depth 16

wake-Keeps : (kernel : Kernel) (socket : ℤ) (nloop : ℕ) → Keeps Any (wake kernel socket nloop)
unfolding wake
wake-Keeps kernel socket nloop = search (sound_rules, epoll_ctl-Keeps, must-Keeps) depth 16

switch_all-Keeps : (kernel : Kernel) (cs : List ℕ) → Keeps Any (switch_all kernel cs)
unfolding switch_all
switch_all-Keeps kernel [] = Keeps-skip
switch_all-Keeps kernel (c ∷ cs) =
    Keeps-then _ _ (switch_mode-Keeps kernel c) (switch_all-Keeps kernel cs)

pub perform_to_send-Keeps : (kernel : Kernel) (nloop : ℕ) → Keeps Any (perform_to_send kernel nloop)
unfolding perform_to_send
perform_to_send-Keeps kernel nloop = search (sound_rules, switch_all-Keeps) depth 16

delete_all-Keeps : (cs : List ℕ) → Keeps Any (delete_all cs)
unfolding delete_all
delete_all-Keeps [] = Keeps-skip
delete_all-Keeps (c ∷ cs) = Keeps-next _ _ (Keeps-gets (λ s. listed c s.freed)) (λ gone.
    Keeps-then _ _ (Keeps-if gone _ _ (record { at = λ s h. tt }) Keeps-skip) (
      Keeps-next _ _ (Keeps-connect c) (λ k.
        Keeps-then _ _ (Keeps-if (k.link == 0) _ _ (search sound_rules) Keeps-skip)
          (delete_all-Keeps cs))))

pub delete_connections-Keeps : (free : Bool) (nloop : ℕ) → Keeps Any (delete_connections free nloop)
unfolding delete_connections
delete_connections-Keeps free nloop = search (sound_rules, delete_all-Keeps) depth 16

send_over-Keeps :
    (kernel : Kernel) (socket : ℤ) (nloop c : ℕ) → Keeps Any (send_over kernel socket nloop c)
unfolding send_over
send_over-Keeps kernel socket nloop c = Keeps-next _ _ (Keeps-connect c) (λ k.
    Keeps-if (not (k.nloop == nloop) || not k.go_loop || k.need_loop == nloop) _ _ Keeps-skip
      (search (sound_rules, set_poll_mode-Keeps, loop_accept-Keeps, wake-Keeps) depth 16))

each_place-Keeps :
    (fds : List ℕ) (f : ℕ → M (Unit {0}))
    → ((c : ℕ) → Keeps Any (f c))
    → Keeps Any (each_place fds f)
unfolding each_place
each_place-Keeps [] f k = Keeps-skip
each_place-Keeps (fd ∷ fds) f k =
    Keeps-next _ _ (Keeps-gets _)
      (λ place. Keeps-then _ _ (Keeps-option place _ _ Keeps-skip k) (each_place-Keeps fds f k))

pub migrate_send-Keeps :
    (kernel : Kernel) (socket : ℤ) (nloop : ℕ) → Keeps Any (migrate_send kernel socket nloop)
unfolding migrate_send
migrate_send-Keeps kernel socket nloop =
    Keeps-next _ _ (Keeps-gets _)
      (λ last. each_place-Keeps _ _ (send_over-Keeps kernel socket nloop))

request_again-Keeps : (nloop c : ℕ) → Keeps Any (request_again nloop c)
unfolding request_again
request_again-Keeps nloop c = Keeps-next _ _ (Keeps-connect c) (λ k.
    Keeps-if (not (k.nloop == nloop) || not (is_migration k.status) || k.closed) _ _ Keeps-skip
      (Keeps-next _ _ (client_request-Keeps nloop k.name c) (λ r. Keeps-skip)))

pub migrate_recv-Keeps : (nloop : ℕ) → Keeps Any (migrate_recv nloop)
unfolding migrate_recv
migrate_recv-Keeps nloop = Keeps-next _ _ (Keeps-gets _) (λ asked.
    Keeps-if asked _ _
      (Keeps-then _ _ (search sound_rules)
        (Keeps-next _ _ (Keeps-gets _) (λ last. each_place-Keeps _ _ (request_again-Keeps nloop))))
      Keeps-skip)

pub ruleset polls_rules = (
  sound_rules, set_poll_mode-Keeps, switch_mode-Keeps, loop_accept-Keeps, perform_to_send-Keeps,
  delete_connections-Keeps, migrate_send-Keeps, migrate_recv-Keeps,
)
