-- ===== src/Broker/Poll.antt =====
-- What a loop of src/server.cpp does for its sockets between the events: the modes of `epoll`, the
-- connections without links, and the connections that go from loop to loop. What `epoll_ctl` answers
-- is a function of the calls up to that one, in all loops.
pub mod Calls
pub mod Migration
pub mod Moves
pub mod Clearing
pub mod Switching
use ijson.Prelude.{
  ℕ, ◌+◌, ◌/◌, ◌%◌, Bool, true, false, not, ◌||◌, List, [], ◌∷◌, ◌++◌, ◌==◌, if◌then◌else◌, none,
  some, exception,
}
use ijson.Prelude.Int.{ℤ, pos, negsuc, eqb_ℤ, leb_ℤ}
use ijson.Broker.{
  Status, migration, Connect, PollCall, poll_add, poll_mod, poll_del, M, ◌>>=◌, ◌>>◌, throw, skip,
  gets, modify, connect, update, put_at, fault,
}
use ijson.Broker.Queues.{upto}
use ijson.Broker.Request.{client_request}

-- Whether the call at the head, after those behind it, succeeds.
abbrev pub Kernel : Type 0
Kernel = List (ℕ × PollCall) → Bool

unfoldable pub epoll_ctl : Kernel → ℕ → PollCall → M Bool
epoll_ctl kernel nloop call = do
  modify (λ s. record s { calls = (nloop, call) ∷ s.calls })
  gets (λ s. kernel s.calls)

unfoldable pub must : Bool → M (Unit {0})
must b = if b then skip else throw exception

-- The bits for reading and for writing, of an integer in two's complement.
abbrev pub reads : ℤ → Bool
reads (pos n) = n % 2 == 1
reads (negsuc n) = n % 2 == 0

abbrev pub writes : ℤ → Bool
writes (pos n) = n / 2 % 2 == 1
writes (negsuc n) = n / 2 % 2 == 0

-- The call of `Loop::set_poll_mode`, and the function.
abbrev pub mode_call : ℤ → ℤ → PollCall
mode_call fd st = if eqb_ℤ st (negsuc 0) then poll_del fd else poll_mod fd (reads st) (writes st)

unfoldable pub set_poll_mode : Kernel → ℕ → ℤ → ℤ → M (Unit {0})
unfolding epoll_ctl must
set_poll_mode kernel nloop fd st = do ok ← epoll_ctl kernel nloop (mode_call fd st); must ok

-- `get_socket_status`
abbrev pub socket_status : Connect → ℤ
socket_status k =
    if k.closed then negsuc 0 else pos ((if k.writing then 3 else 1) + (if k.stale then 252 else 0))

-- `Connect::_switch_mode`
unfoldable pub switch_mode : Kernel → ℕ → M (Unit {0})
unfolding set_poll_mode
switch_mode kernel c = do
  k ← connect c
  if eqb_ℤ (socket_status k) k.active then skip else (do
    set_poll_mode kernel k.nloop (pos k.fd) (socket_status k)
    update c (λ k. record k { active = socket_status k }))

-- `Loop::accept`
unfoldable pub loop_accept : Kernel → ℕ → ℕ → M (Unit {0})
unfolding epoll_ctl must
loop_accept kernel nloop c = do
  update c (λ k. record k { nloop = nloop; need_loop = nloop })
  k ← connect c
  let st = socket_status k
  if eqb_ℤ st (negsuc 0)
      then throw exception
      else (do ok ← epoll_ctl kernel nloop (poll_add (pos k.fd) (reads st) (writes st)); must ok)

-- `Loop::wake`; `socket` is what the system's function of that name returns.
unfoldable pub wake : Kernel → ℤ → ℕ → M (Unit {0})
unfolding epoll_ctl must
wake kernel socket nloop = do
  fd ← gets (λ s. s.fake_fd)
  if eqb_ℤ fd (pos 0)
      then (do modify (λ s. record s { fake_fd = socket }); must (leb_ℤ (pos 0) socket))
      else skip
  fd ← gets (λ s. s.fake_fd)
  ok ← epoll_ctl kernel nloop (poll_add fd false false)
  must ok

unfoldable pub switch_all : Kernel → List ℕ → M (Unit {0})
unfolding switch_mode
switch_all kernel [] = skip
switch_all kernel (c ∷ cs) = do switch_mode kernel c; switch_all kernel cs

-- `_perform_to_send`
unfoldable pub perform_to_send : Kernel → ℕ → M (Unit {0})
unfolding switch_all
perform_to_send kernel nloop = do
  cs ← gets (λ s. s.to_send nloop)
  switch_all kernel cs
  modify (λ s. record s { to_send = put_at s.to_send nloop [] })

abbrev pub listed : ℕ → List ℕ → Bool
listed c [] = false
listed c (d ∷ ds) = c == d || listed c ds

-- The loop of `_delete_connections`. To read one that is deleted is a wild access.
unfoldable pub delete_all : List ℕ → M (Unit {0})
delete_all [] = skip
delete_all (c ∷ cs) = do
  gone ← gets (λ s. listed c s.freed)
  if gone then wild else skip
  k ← connect c
  if k.link == 0 then modify (λ s. record s { freed = s.freed ++ c ∷ [] }) else skip
  delete_all cs
  where
    wild : M (Unit {0})
    wild _ = fault

-- `_delete_connections`; `free` is what `try_lock` returns.
unfoldable pub delete_connections : Bool → ℕ → M (Unit {0})
unfolding delete_all
delete_connections free nloop = do
  cs ← gets (λ s. s.dead nloop)
  if free
      then (do delete_all cs; modify (λ s. record s { dead = put_at s.dead nloop [] }))
      else skip

abbrev pub is_migration : Status → Bool
is_migration migration = true
is_migration _ = false

-- The connection at a place, as `_migrate_send` goes on with it.
unfoldable pub send_over : Kernel → ℤ → ℕ → ℕ → M (Unit {0})
unfolding set_poll_mode loop_accept wake
send_over kernel socket nloop c = do
  k ← connect c
  if not (k.nloop == nloop) || not k.go_loop || k.need_loop == nloop then skip else (do
    update c (λ k. record k { go_loop = false })
    if k.closed then skip else (do
      set_poll_mode kernel nloop (pos k.fd) (negsuc 0)
      loop_accept kernel k.need_loop c
      if is_migration k.status
          then (do
            modify (λ s. record s { accept_request = put_at s.accept_request k.need_loop true })
            wake kernel socket k.need_loop)
          else skip))

-- A loop over places, which passes over the empty ones.
unfoldable pub each_place : List ℕ → (ℕ → M (Unit {0})) → M (Unit {0})
each_place [] f = skip
each_place (fd ∷ fds) f = do
  place ← gets (λ s. s.connections fd)
  elim place [ none ↦ skip | some c ↦ f c ]
  each_place fds f

-- `_migrate_send`
unfoldable pub migrate_send : Kernel → ℤ → ℕ → M (Unit {0})
unfolding send_over each_place upto
migrate_send kernel socket nloop = do
  last ← gets (λ s. s.max_fd)
  each_place (upto 0 (last + 1)) (send_over kernel socket nloop)

unfoldable pub request_again : ℕ → ℕ → M (Unit {0})
unfolding client_request
request_again nloop c = do
  k ← connect c
  if not (k.nloop == nloop) || not (is_migration k.status) || k.closed
      then skip
      else (do r ← client_request nloop k.name c; skip)

-- `_migrate_recv`
unfoldable pub migrate_recv : ℕ → M (Unit {0})
unfolding request_again each_place upto
migrate_recv nloop = do
  asked ← gets (λ s. s.accept_request nloop)
  if asked
      then (do
        modify (λ s. record s { accept_request = put_at s.accept_request nloop false })
        last ← gets (λ s. s.max_fd)
        each_place (upto 0 (last + 1)) (request_again nloop))
      else skip
