-- ===== src/Broker/Events.antt =====
-- The events of src/server.cpp: a connection is accepted, read, written or closed.
use ijson.Prelude.{
  ℕ, ◌+◌, Bool, false, not, List, [], ◌∷◌, Bytes, ltb, leb, ◌==◌, if◌then◌else◌, Option, none, some,
  length, exception,
}
use ijson.Prelude.Int.{ℤ, pos, negsuc, eqb_ℤ}
use ijson.NetFilter.{NetFilter, valid_ip}
use ijson.Broker.{
  Connect, ok, thrown, fault, hang, M, pure, ◌>>=◌, ◌>>◌, and_then, throw, skip, gets, modify,
  connect, store, close, link, unlink,
}
use ijson.Broker.Poll.{Kernel, set_poll_mode, switch_mode, loop_accept}
use ijson.Broker.Worker.{without}
use ijson.Broker.Answer.{on_disconnect}
use ijson.Broker.Receive.{on_recv, on_send}

abbrev pub place_at : (ℕ → Option ℕ) → ℕ → Option ℕ → ℕ → Option ℕ
place_at f fd v i = if i == fd then v else f i

-- A round of `Server::_accept`: the socket `fd` of the address `ip`, with the connection `c` that
-- `new` makes, `fresh`; the place of a deleted one can be used again.
unfoldable pub accept : Kernel → List NetFilter → ℕ → ℕ → ℕ → Connect → M (Unit {0})
unfolding valid_ip link loop_accept without
accept kernel filters fd ip c fresh = do
  place ← gets (λ s. s.connections fd)
  if leb 16384 fd then throw exception else if not (valid_ip filters ip) then skip else elim place [
    | some _ ↦ throw exception
    | none ↦ (do
      modify (λ s. record s {
        connects = store s.connects c fresh;
        connections = place_at s.connections fd (some c);
        freed = without c s.freed;
      })
      link c
      modify (λ s. record s { max_fd = if ltb s.max_fd fd then fd else s.max_fd })
      loop ← gets (λ s. s.active_loop)
      loop_accept kernel loop c
      modify (λ s. record s { stat_connect = s.stat_connect + 1 }))
  ]

-- `Loop::_close`
unfoldable pub close_fd : Kernel → ℕ → M (Unit {0})
unfolding switch_mode on_disconnect unlink
close_fd kernel fd = do
  place ← gets (λ s. s.connections fd)
  elim place [
    | none ↦ throw exception
    | some c ↦ (do
      close c
      switch_mode kernel c
      on_disconnect c
      unlink c
      modify (λ s. record s { connections = place_at s.connections fd none }))
  ]

-- An exception of a handler closes the connection.
unfoldable pub guarded : ℕ → M (Unit {0}) → M (Unit {0})
guarded c m s = elim (m s) [
  | ok a t ↦ ok a t
  | thrown e t ↦ close c t
  | fault ↦ fault
  | hang ↦ hang
]

unfoldable pub close_if : Kernel → ℕ → ℕ → M (Unit {0})
unfolding close_fd
close_if kernel fd c = do k ← connect c; if k.closed then close_fd kernel fd else skip

-- What `epoll_wait` says of a socket: an error; room, with the number that `send` returns; or that
-- there is something to read, with the bytes that `recv` gives, none at the end, or with its error:
-- that nothing is there yet, or another one.
pub data Event : Type 0 where
  failed : Event
  readable : Bytes → Event
  not_ready : Event
  unreadable : Event
  writable : ℤ → Event

-- What a round of a loop gets from the system: the answers of `epoll_ctl`, `socket` and `try_lock`
-- on the loop's and on the global mutex, and the value of a variable that is not set.
pub record System : Type 0 where
  pub kernel : Kernel
  pub socket : ℤ
  pub version : Bytes
  pub free : Bool
  pub unlocked : Bool
  pub junk : ℤ

-- The connection of the socket, if this loop has it; a socket without one is a wild access.
unfoldable pub on_place : ℕ → Option ℕ → (ℕ → M Bool) → M Bool
unfolding pure
on_place nloop none f s = fault
on_place nloop (some c) f s =
    and_then (connect c s) (λ k. if k.nloop == nloop then f c else pure false)

-- Whether the connection is to go to another loop.
unfoldable pub goes : ℕ → M Bool
goes c = do k ← connect c; pure k.go_loop

-- One event in the loop `nloop`.
unfoldable pub handle_event : System → ℕ → ℕ → Event → M Bool
unfolding close_fd close_if on_recv on_send on_place guarded goes
handle_event sys nloop fd event = do
  place ← gets (λ s. s.connections fd)
  elim event [
    | failed ↦ (do close_fd sys.kernel fd; pure false)
    | readable [] ↦ on_place nloop place (λ c. do close_fd sys.kernel fd; goes c)
    | readable (a ∷ s) ↦ on_place nloop place (λ c. do
      modify (λ t. record t { stat_recv = t.stat_recv + length (a ∷ s) })
      guarded c (on_recv sys.junk sys.version c (a ∷ s))
      close_if sys.kernel fd c
      goes c)
    | not_ready ↦ on_place nloop place (λ c. pure false)
    | unreadable ↦ on_place nloop place (λ c. throw exception)
    | writable sent ↦
        on_place nloop place (λ c. do guarded c (on_send sent c); close_if sys.kernel fd c; goes c)
  ]

-- The socket that wakes a loop is none of a connection.
unfoldable pub handle : System → ℕ → ℕ → Event → M Bool
unfolding handle_event set_poll_mode
handle sys nloop fd event = do
  fake ← gets (λ s. s.fake_fd)
  if eqb_ℤ (pos fd) fake
      then (do set_poll_mode sys.kernel nloop (pos fd) (negsuc 0); pure false)
      else handle_event sys nloop fd event
