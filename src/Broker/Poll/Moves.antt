-- ===== src/Broker/Poll/Moves.antt =====
-- `_migrate_send` of src/server.cpp, when the calls of `epoll_ctl` succeed.
use ijson.Prelude.{
  ℕ, suc, ◌+◌, ◌≡◌, refl, ◌≢◌, zero, ◌≤◌, ◌<◌, sym, subst, ap, ◌∙◌, Bool-cases, inl, inr, Bool,
  true, false, ◌||◌, List, [], ◌∷◌, Option, none, some, if◌then◌else◌, arith, ◌==◌,
}
use ijson.Prelude.Int.{ℤ, pos, leb_ℤ}
use ijson.Broker.{Connect, Server, PollCall, poll_add, poll_del, ◌>>=◌, ◌>>◌, gets, skip}
use ijson.Broker.Queues.{upto}
use ijson.Broker.Poll.{Kernel, send_over, each_place, migrate_send, reads, writes, socket_status}
use ijson.Broker.Poll.Calls.{Made}
use ijson.Broker.Changed.{once_more, same_for}
use ijson.Broker.Poll.Migration.{leaves, moved, Handed, Sent, Ends, send_over-Sent}

-- The loop over the places.
abbrev is_place : Option ℕ → ℕ → Bool
is_place none d = false
is_place (some c) d = d == c

abbrev pub stands : (ℕ → Option ℕ) → List ℕ → ℕ → Bool
stands f [] d = false
stands f (fd ∷ fds) d = is_place (f fd) d || stands f fds d

-- Every connection at the places has gone where it is to go, with its socket.
pub record Moved (n : ℕ) (fds : List ℕ) (s t : Server) : Type 0 where
  pub connects :
      (d : ℕ)
      → t.connects d ≡ (if stands s.connections fds d then moved n (s.connects d) else s.connects d)
  pub places : t.connections ≡ s.connections
  pub kept : (call : ℕ × PollCall) → Made call s.calls → Made call t.calls
  pub handed : (d : ℕ) → stands s.connections fds d ≡ true → Handed n (s.connects d) t.calls

or_true : (a b : Bool) → b ≡ true → (a || b) ≡ true
or_true true b e = refl
or_true false b e = e

leaves-moved : (n : ℕ) (k : Connect) → leaves n (moved n k) ≡ false
leaves-moved n k = elim (Bool-cases (leaves n k)) [
  | inl y ↦ elim (Bool-cases k.closed) [
    | inl z ↦ rw (y, z) (ground arith)
    | inr z ↦ rw (y, z) (ground arith)
  ]
  | inr y ↦ rw y y
]

moved-stays : (n : ℕ) (k : Connect) → leaves n k ≡ false → moved n k ≡ k
moved-stays n k e = rw e refl

-- One place, and the others.
module _ (n fd c : ℕ) (fds : List ℕ) (s t u : Server) (e : s.connections fd ≡ some c)
    (h : Sent n c s t) (k : Moved n fds t u) where
  at_place : (d : ℕ) → (d == c) ≡ true → t.connects d ≡ moved n (s.connects d)
  at_place d y =
      let same : c ≡ d = ground (arith, y) in
      h.connects d ∙ (rw y (ap (λ z. moved n (s.connects z)) same))

  elsewhere : (d : ℕ) → (d == c) ≡ false → t.connects d ≡ s.connects d
  elsewhere d y = h.connects d ∙ (rw y refl)

  stands-cons : (d : ℕ) → stands s.connections (fd ∷ fds) d ≡ (d == c || stands t.connections fds d)
  stands-cons d = rw (e, h.places) refl

  Moved-cons : Moved n (fd ∷ fds) s u
  Moved-cons = record {
    connects = λ d. k.connects d ∙ elim (Bool-cases (d == c)) [
      | inl y ↦
          once_more (moved n) (λ x. moved-stays n (moved n x) (leaves-moved n x))
            (stands t.connections fds d) (s.connects d) (t.connects d) (at_place d y)
          ∙ sym (rw (stands-cons d, y) refl)
      | inr y ↦
          same_for (moved n) (stands t.connections fds d) (stands s.connections (fd ∷ fds) d)
            (s.connects d) (t.connects d) (elsewhere d y) (stands-cons d ∙ (rw y refl))
    ];
    places = k.places ∙ h.places;
    kept = λ call m. k.kept call (h.kept call m);
    handed = λ d i. elim (Bool-cases (d == c)) [
      | inl y ↦ λ a b.
          let same : c ≡ d = ground (arith, y) in
          let (x, z) = subst (λ v. Handed n (s.connects v) t.calls) same h.handed a b in
          (k.kept _ x, k.kept _ z)
      | inr y ↦
          subst (λ v. Handed n v u.calls) (elsewhere d y)
            (k.handed d (sym (stands-cons d ∙ (rw y refl)) ∙ i))
    ];
  }

Moved-none :
    (n fd : ℕ) (fds : List ℕ) (s t : Server)
    → s.connections fd ≡ none
    → Moved n fds s t
    → Moved n (fd ∷ fds) s t
Moved-none n fd fds s t e k = record {
  connects = λ d. rw e (k.connects d);
  places = k.places;
  kept = k.kept;
  handed = λ d. rw e (k.handed d);
}

-- What `_migrate_send` leaves: every connection of a socket has gone where it is to go, the socket of
-- one that is open is taken off the loop and added to the other loop, and no other connection is
-- changed.
pub record Gone (n : ℕ) (s t : Server) : Type 0 where
  pub over :
      (fd d : ℕ) → fd ≤ s.max_fd → s.connections fd ≡ some d → t.connects d ≡ moved n (s.connects d)
  pub handed :
      (fd d : ℕ)
      → fd ≤ s.max_fd
      → s.connections fd ≡ some d
      → leaves n (s.connects d) ≡ true
      → (s.connects d).closed ≡ false
      → Made (n, poll_del (pos (s.connects d).fd)) t.calls
        × Made
            (
              (s.connects d).need_loop,
              poll_add
                  (pos (s.connects d).fd)
                  (reads (socket_status (s.connects d)))
                  (writes (socket_status (s.connects d))),
            )
            t.calls
  pub others : (d : ℕ) → ((fd : ℕ) → s.connections fd ≢ some d) → t.connects d ≡ s.connects d

stands-at :
    (f : ℕ → Option ℕ) (i n fd d : ℕ)
    → i ≤ fd
    → fd < i + n
    → f fd ≡ some d
    → stands f (upto i n) d ≡ true
unfolding upto
stands-at f i zero fd d h k e = let less : ⊥ = omega arith in elim less [ ]
stands-at f i (suc n) fd d h k e = elim (Bool-cases (i == fd)) [
  | inl y ↦ let same : i ≡ fd = ground (arith, y) in rw (same, e) (ground arith)
  | inr y ↦
      or_true (is_place (f i) d) (stands f (upto (suc i) n) d)
        (stands-at f (suc i) n fd d (ground (arith, y)) (omega arith) e)
]

not_place : (o : Option ℕ) (d : ℕ) → o ≢ some d → is_place o d ≡ false
not_place none d h = refl
not_place (some c) d h = elim (Bool-cases (d == c)) [
  | inl y ↦ let same : c ≡ d = ground (arith, y) in elim (h (ap some same)) [ ]
  | inr y ↦ y
]

not_stands :
    (f : ℕ → Option ℕ) (fds : List ℕ) (d : ℕ) → ((fd : ℕ) → f fd ≢ some d) → stands f fds d ≡ false
not_stands f [] d h = refl
not_stands f (fd ∷ fds) d h = rw (not_place (f fd) d (h fd), not_stands f fds d h) refl

module _ (kernel : Kernel) (works : (calls : List (ℕ × PollCall)) → kernel calls ≡ true)
    (socket : ℤ) (made : leb_ℤ (pos 0) socket ≡ true) (n : ℕ) where
  each_place-cons :
      (fd : ℕ) (fds : List ℕ) (s : Server) (o : Option ℕ)
      → s.connections fd ≡ o
      → ((t : Server) → Ends (each_place fds (send_over kernel socket n)) (Moved n fds) t)
      → Ends (each_place (fd ∷ fds) (send_over kernel socket n)) (Moved n (fd ∷ fds)) s
  unfolding each_place ◌>>=◌ ◌>>◌ gets skip
  each_place-cons fd fds s none e ih =
      let (t, r, k) = ih s in (t, rw e r, Moved-none n fd fds s t e k)
  each_place-cons fd fds s (some c) e ih =
      let (t, r, h) = send_over-Sent kernel works socket made n c s in
      let (u, q, k) = ih t in (u, rw (e, r) q, Moved-cons n fd c fds s t u e h k)

  each_place-Moved :
      (fds : List ℕ) (s : Server)
      → Ends (each_place fds (send_over kernel socket n)) (Moved n fds) s
  unfolding each_place ◌>>=◌ ◌>>◌ gets skip
  each_place-Moved [] s = (
    s,
    refl,
    record { connects = λ d. refl; places = refl; kept = λ call m. m; handed = λ d i. cc },
  )
  each_place-Moved (fd ∷ fds) s =
      each_place-cons fd fds s (s.connections fd) refl (each_place-Moved fds)

  -- With calls of `epoll_ctl` and `socket` that succeed, `_migrate_send` returns; every connection
  -- at a place up to `max_fd` that is in the loop, wants to go and has another loop to go to has
  -- left its wish and, if its socket is open, is in that loop, and the calls were made that take
  -- the socket off this loop's `epoll` and add it, with its mode, to that of the other; and a
  -- connection that stands at no place is as before.
  pub migrate_send_lem : (s : Server) → Ends (migrate_send kernel socket n) (Gone n) s
  unfolding migrate_send ◌>>=◌ gets
  migrate_send_lem s =
      let fds = upto 0 (s.max_fd + 1) in
      let (t, r, k) = each_place-Moved fds s in
      let at : (fd d : ℕ)
          → fd ≤ s.max_fd
          → s.connections fd ≡ some d
          → stands s.connections fds d ≡ true =
        λ fd d h e. stands-at s.connections 0 (s.max_fd + 1) fd d (omega arith) (omega arith) e in
      (
        t,
        r,
        record {
          over = λ fd d h e. k.connects d ∙ (rw (at fd d h e) refl);
          handed = λ fd d h e. k.handed d (at fd d h e);
          others = λ d h. k.connects d ∙ (rw (not_stands s.connections fds d h) refl);
        },
      )
