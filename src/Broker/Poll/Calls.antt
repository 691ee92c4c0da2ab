-- ===== src/Broker/Poll/Calls.antt =====
-- The calls of `epoll_ctl` in src/server.cpp when they all succeed.
use ijson.Prelude.{
  ℕ, ◌≡◌, Bool-cases, inl, inr, true, false, ◌∷◌, [], ◌⊎◌, if◌then◌else◌, arith, List,
}
use ijson.Prelude.Int.{ℤ, pos, negsuc, eqb_ℤ, leb_ℤ}
use ijson.Broker.{
  Connect, Server, PollCall, poll_add, ok, store, ◌>>=◌, ◌>>◌, connect, update, modify, gets, skip,
  throw,
}
use ijson.Broker.Poll.{
  Kernel, epoll_ctl, must, set_poll_mode, mode_call, loop_accept, wake, socket_status, reads,
  writes,
}

-- The call stands among those that were made.
abbrev pub Made : ℕ × PollCall → List (ℕ × PollCall) → Type 0
Made call [] = ⊥
Made call (made ∷ calls) = (made ≡ call) ⊎ Made call calls

-- The call of a loop is made.
abbrev pub called : ℕ → PollCall → Server → Server
called n call s = record s { calls = (n, call) ∷ s.calls }

-- The connection is the loop's.
abbrev pub settled : ℕ → Connect → Connect
settled n k = record k { nloop = n; need_loop = n }

abbrev pub accepted : ℕ → ℕ → Server → Server
accepted n c s =
    let k = s.connects c in
    let st = socket_status k in
    called n (poll_add (pos k.fd) (reads st) (writes st))
      (record s { connects = store s.connects c (settled n k) })

-- The socket that wakes the loops, made with the first use.
abbrev pub awake : ℤ → Server → ℤ
awake socket s = if eqb_ℤ s.fake_fd (pos 0) then socket else s.fake_fd

abbrev pub woken : ℤ → ℕ → Server → Server
woken socket n s =
    called n (poll_add (awake socket s) false false) (record s { fake_fd = awake socket s })

module _ (kernel : Kernel) (works : (calls : List (ℕ × PollCall)) → kernel calls ≡ true) where
  epoll_ctl-works :
      (n : ℕ) (call : PollCall) (s : Server) → epoll_ctl kernel n call s ≡ ok true (called n call s)
  unfolding epoll_ctl ◌>>=◌ ◌>>◌ modify gets
  epoll_ctl-works n call s = rw (works ((n, call) ∷ s.calls))

  pub set_poll_mode-works :
      (n : ℕ) (fd st : ℤ) (s : Server)
      → set_poll_mode kernel n fd st s ≡ ok tt (called n (mode_call fd st) s)
  unfolding set_poll_mode ◌>>=◌ must skip throw
  set_poll_mode-works n fd st s = rw (epoll_ctl-works n (mode_call fd st) s)

  pub loop_accept-works :
      (n c : ℕ) (s : Server)
      → (s.connects c).closed ≡ false
      → loop_accept kernel n c s ≡ ok tt (accepted n c s)
  unfolding loop_accept ◌>>=◌ ◌>>◌ must skip throw update connect
  loop_accept-works n c s e =
      let k = s.connects c in
      let st = socket_status k in
      let t = record s { connects = store s.connects c (settled n k) } in
      let same : t.connects c ≡ settled n k = ground arith in
      let alive : eqb_ℤ st (negsuc 0) ≡ false = ground (arith, e) in
      rw (same, alive, epoll_ctl-works n (poll_add (pos k.fd) (reads st) (writes st)) t)

  pub wake-works :
      (socket : ℤ) (n : ℕ) (s : Server)
      → leb_ℤ (pos 0) socket ≡ true
      → wake kernel socket n s ≡ ok tt (woken socket n s)
  unfolding wake ◌>>=◌ ◌>>◌ must skip throw gets modify
  wake-works socket n s e =
      let t = record s { fake_fd = awake socket s } in
      let made = epoll_ctl-works n (poll_add (awake socket s) false false) t in
      elim (Bool-cases (eqb_ℤ s.fake_fd (pos 0))) [
        | inl y ↦ ground (arith, y, e, made)
        | inr y ↦ ground (arith, y, e, made)
      ]
