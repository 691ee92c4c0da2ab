-- ===== src/Broker/Poll/Migration.antt =====
-- A connection that leaves its loop in `_migrate_send` of src/server.cpp, when the calls of `epoll_ctl`
-- succeed.
use ijson.Prelude.{
  ℕ, ◌≡◌, refl, ◌∙◌, ap, Bool-cases, inl, inr, Bool, true, false, not, ◌||◌, List, if◌then◌else◌,
  arith, ◌==◌,
}
use ijson.Prelude.Int.{ℤ, pos, negsuc, leb_ℤ}
use ijson.Broker.{
  Connect, Server, PollCall, poll_add, poll_del, M, ok, store, put_at, ◌>>=◌, ◌>>◌, connect, update,
  modify, skip,
}
use ijson.Broker.Poll.{Kernel, mode_call, send_over, is_migration, reads, writes, socket_status}
use ijson.Broker.Poll.Calls.{
  Made, called, accepted, woken, set_poll_mode-works, loop_accept-works, wake-works,
}

-- A connection of the loop that is to go to another one, and what becomes of it.
abbrev pub leaves : ℕ → Connect → Bool
leaves n k = not (not (k.nloop == n) || not k.go_loop || k.need_loop == n)

abbrev pub moved : ℕ → Connect → Connect
moved n k =
    if leaves n k
    then (if k.closed
        then record k { go_loop = false }
        else record k { go_loop = false; nloop = k.need_loop })
    else k

-- Its socket is taken off the loop's `epoll`, and given to that of the other loop, with its mode.
abbrev exit_call : ℕ → Connect → ℕ × PollCall
exit_call n k = (n, poll_del (pos k.fd))

abbrev entry_call : Connect → ℕ × PollCall
entry_call k =
    (k.need_loop, poll_add (pos k.fd) (reads (socket_status k)) (writes (socket_status k)))

abbrev pub Handed : ℕ → Connect → List (ℕ × PollCall) → Type 0
Handed n k calls =
    leaves n k ≡ true → k.closed ≡ false → Made (exit_call n k) calls × Made (entry_call k) calls

pub record Sent (n c : ℕ) (s t : Server) : Type 0 where
  pub connects : (d : ℕ) → t.connects d ≡ (if d == c then moved n (s.connects c) else s.connects d)
  pub places : t.connections ≡ s.connections
  pub kept : (call : ℕ × PollCall) → Made call s.calls → Made call t.calls
  pub handed : Handed n (s.connects c) t.calls

abbrev pub Ends : M (Unit {0}) → (Server → Server → Type 0) → Server → Type 0
Ends m R s = (t : Server) × (m s ≡ ok tt t) × R s t

same-store : (c d : ℕ) (f : ℕ → Connect) → f d ≡ (if d == c then f c else f d)
same-store c d f = ground arith

-- The connection without its wish to go.
abbrev stopped : ℕ → Server → Server
stopped c s = record s { connects = store s.connects c (record (s.connects c) { go_loop = false }) }

-- The connection at the new loop, which is told of a request.
abbrev over : ℕ → ℕ → Server → Server
over n c s =
    let k = s.connects c in
    accepted k.need_loop c (called n (mode_call (pos k.fd) (negsuc 0)) (stopped c s))

abbrev told : ℤ → ℕ → Server → Server
told socket m s = woken socket m (record s { accept_request = put_at s.accept_request m true })

module _ (kernel : Kernel) (works : (calls : List (ℕ × PollCall)) → kernel calls ≡ true)
    (socket : ℤ) (made : leb_ℤ (pos 0) socket ≡ true) (n : ℕ) where
  stays-Sent :
      (c : ℕ) (s : Server)
      → leaves n (s.connects c) ≡ false
      → Ends (send_over kernel socket n c) (Sent n c) s
  unfolding send_over ◌>>=◌ connect skip
  stays-Sent c s e = (
    s,
    ground (arith, e),
    record {
      connects = λ d. rw e (same-store c d s.connects);
      places = refl;
      kept = λ call m. m;
      handed = λ f. let clash : ⊥ = ground (arith, e, f) in elim clash [ ];
    },
  )

  closed-Sent :
      (c : ℕ) (s : Server)
      → leaves n (s.connects c) ≡ true
      → (s.connects c).closed ≡ true
      → Ends (send_over kernel socket n c) (Sent n c) s
  unfolding send_over ◌>>=◌ ◌>>◌ connect update skip
  closed-Sent c s e f = (
    stopped c s,
    ground (arith, e, f),
    record {
      connects = λ d. rw (e, f) refl;
      places = refl;
      kept = λ call m. m;
      handed = λ _ g. let clash : ⊥ = ground (arith, f, g) in elim clash [ ];
    },
  )

  open_over :
      (c : ℕ) (s : Server)
      → leaves n (s.connects c) ≡ true
      → (s.connects c).closed ≡ false
      → send_over kernel socket n c s ≡ (
          if is_migration (s.connects c).status
          then ok tt (told socket (s.connects c).need_loop (over n c s))
          else ok tt (over n c s))
  unfolding send_over ◌>>=◌ ◌>>◌ connect update skip modify
  open_over c s e f =
      let k = s.connects c in
      let t = called n (mode_call (pos k.fd) (negsuc 0)) (stopped c s) in
      let u = record (over n c s) { accept_request = put_at s.accept_request k.need_loop true } in
      let poll = set_poll_mode-works kernel works n (pos k.fd) (negsuc 0) (stopped c s) in
      let alive : (t.connects c).closed ≡ false = ground (arith, f) in
      let enter = loop_accept-works kernel works k.need_loop c t alive in
      let call = wake-works kernel works socket k.need_loop u made in
      ground (arith, e, f, poll, enter, call)

  over-connects :
      (c : ℕ) (s : Server)
      → leaves n (s.connects c) ≡ true
      → (s.connects c).closed ≡ false
      → (d : ℕ)
      → (over n c s).connects d ≡ (if d == c then moved n (s.connects c) else s.connects d)
  over-connects c s e f d =
      let k = s.connects c in
      let same : (stopped c s).connects c ≡ record k { go_loop = false } = ground arith in
      elim (Bool-cases (d == c)) [ inl y ↦ rw (y, same, e, f) refl | inr y ↦ rw y refl ]

  over-Handed : (c : ℕ) (s : Server) → Handed n (s.connects c) (over n c s).calls
  over-Handed c s _ _ =
      let k = s.connects c in
      let same : (stopped c s).connects c ≡ record k { go_loop = false } = ground arith in
      (
        inr (inl refl),
        inl (
            ap
              (λ z. (
                k.need_loop,
                poll_add (pos z.fd) (reads (socket_status z)) (writes (socket_status z)),
              ))
              same),
      )

  open-Sent :
      (c : ℕ) (s : Server)
      → leaves n (s.connects c) ≡ true
      → (s.connects c).closed ≡ false
      → Ends (send_over kernel socket n c) (Sent n c) s
  open-Sent c s e f =
      let k = s.connects c in
      elim (Bool-cases (is_migration k.status)) [
        | inl y ↦ (
          told socket k.need_loop (over n c s),
          open_over c s e f ∙ (rw y refl),
          record {
            connects = over-connects c s e f;
            places = refl;
            kept = λ call m. inr (inr (inr m));
            handed = λ a b. let (x, z) = over-Handed c s a b in (inr x, inr z);
          },
        )
        | inr y ↦ (
          over n c s,
          open_over c s e f ∙ (rw y refl),
          record {
            connects = over-connects c s e f;
            places = refl;
            kept = λ call m. inr (inr m);
            handed = over-Handed c s;
          },
        )
      ]

  pub send_over-Sent : (c : ℕ) (s : Server) → Ends (send_over kernel socket n c) (Sent n c) s
  send_over-Sent c s = elim (Bool-cases (leaves n (s.connects c))) [
    | inl e ↦ elim (Bool-cases (s.connects c).closed) [
      | inl f ↦ closed-Sent c s e f
      | inr f ↦ open-Sent c s e f
    ]
    | inr e ↦ stays-Sent c s e
  ]
