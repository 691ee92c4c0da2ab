-- ===== src/Broker/Sent.antt =====
-- What the functions of HttpSender change: the output of one connection, and nothing else that a
-- handler reads.
use mathlib.Core.List.{append_assoc}
use ijson.Prelude.{
  ℕ, ◌≡◌, refl, ◌∙◌, ap, inl, inr, Bool, false, ◌||◌, [], ◌++◌, Bytes, text, length, if◌then◌else◌,
  Bool-cases, arith, exception, ◌==◌,
}
use ijson.Prelude.Int.{pos}
use ijson.Buffer.{number}
use ijson.Broker.{
  Connect, Server, Run, ok, M, store, and_then, ◌>>◌, throw, write_mode_on, ◌>>=◌, connect, update,
  skip, pure, gets, modify,
}
use ijson.Broker.Http.{crlf, add, status, header, done_body}

-- A connection but for its output.
abbrev pub core : Connect → Connect
core k = record k { send_buffer = []; writing = false }

pub record Sent (c : ℕ) (bytes : Bytes) (s t : Server) : Type 0 where
  pub buffers :
      (d : ℕ)
      → (t.connects d).send_buffer
        ≡ (if d == c then (s.connects d).send_buffer ++ bytes else (s.connects d).send_buffer)
  pub cores : (d : ℕ) → core (t.connects d) ≡ core (s.connects d)
  pub waiting : t.wait_response ≡ s.wait_response
  pub lines : t.queue_list ≡ s.queue_list

-- A handler sends the bytes and returns.
abbrev pub Sends : ℕ → Bytes → Run (Unit {0}) → Server → Type 0
Sends c bytes r s = (t : Server) × (r ≡ ok tt t) × Sent c bytes s t

pub Sent-trans :
    {c : ℕ} {x y : Bytes} {s t u : Server} → Sent c x s t → Sent c y t u → Sent c (x ++ y) s u
Sent-trans {c} {x} {y} {s} {t} {u} h k = record {
  buffers = λ d. both d;
  cores = λ d. k.cores d ∙ h.cores d;
  waiting = k.waiting ∙ h.waiting;
  lines = k.lines ∙ h.lines;
}
  where
    both :
        (d : ℕ)
        → (u.connects d).send_buffer
          ≡ (if d == c then (s.connects d).send_buffer ++ (x ++ y) else (s.connects d).send_buffer)
    both d = ground (arith, h.buffers d, k.buffers d, append_assoc (s.connects d).send_buffer x y)

pub Sends-then :
    (c : ℕ) (x y : Bytes) (m n : M (Unit {0})) (s : Server)
    → Sends c x (m s) s
    → ((t : Server) → Sent c x s t → Sends c y (n t) t)
    → Sends c (x ++ y) ((m >> n) s) s
unfolding ◌>>◌
Sends-then c x y m n s (t, e, h) k =
    let (u, e', h') = k t h in (u, ap (λ r. and_then r (λ _. n)) e ∙ e', Sent-trans h h')

abbrev pub status_line : Bool → Bytes → Bytes
status_line keep line =
    text "HTTP/1.1 " ++ line ++ crlf ++ (if keep then text "Connection: keep-alive" ++ crlf else [])

abbrev pub header_line : Bytes → Bytes → Bytes
header_line key value = key ++ text ": " ++ value ++ crlf

abbrev pub payload : Bytes → Bytes
payload body =
    if length body == 0
    then text "Content-Length: 0" ++ crlf ++ crlf
    else text "Content-Length: " ++ number (pos (length body)) ++ crlf ++ crlf ++ body

written-Sent :
    (c : ℕ) (bytes : Bytes) (s : Server)
    → Sent c bytes s (record s {
      connects =
          store s.connects c
            (record (s.connects c) { send_buffer = (s.connects c).send_buffer ++ bytes });
    })
written-Sent c bytes s = record {
  buffers = λ d. ground arith;
  cores = λ d. ground arith;
  waiting = refl;
  lines = refl;
}

pub status-Sends :
    (c : ℕ) (line : Bytes) (s : Server)
    → Sends c (status_line (s.connects c).keep_alive line) (status c line s) s
unfolding status ◌>>=◌ connect update
status-Sends c line s = (_, refl, written-Sent c (status_line (s.connects c).keep_alive line) s)

pub header-Sends :
    (c : ℕ) (key value : Bytes) (s : Server)
    → Sends c (header_line key value) (header c key value s) s
unfolding header update
header-Sends c key value s = (_, refl, written-Sent c (header_line key value) s)

-- The socket is polled for writing; it is queued for that once.
write_mode_on-Sends :
    (c : ℕ) (bytes : Bytes) (s t : Server) → Sent c bytes s t → Sends c bytes (write_mode_on c t) s
unfolding write_mode_on ◌>>=◌ connect skip pure ◌>>◌ throw gets modify update
write_mode_on-Sends c bytes s t h =
    elim (Bool-cases ((t.connects c).closed || (t.connects c).writing)) [
      | inl e ↦ rw e (t, refl, h)
      | inr e ↦ rw e (
        _,
        refl,
        record {
          buffers = λ d. ground (arith, h.buffers d);
          cores = λ d. ground (arith, h.cores d);
          waiting = h.waiting;
          lines = h.lines;
        },
      )
    ]

-- An open socket is written.
done_body-open :
    (c : ℕ) (body : Bytes) (s : Server)
    → (s.connects c).closed ≡ false
    → done_body c body s
      ≡ write_mode_on c (record s {
        connects =
            store s.connects c
              (record (s.connects c) { send_buffer = (s.connects c).send_buffer ++ payload body });
      })
unfolding done_body ◌>>=◌ ◌>>◌ connect update
done_body-open c body s e =
    ap (λ b. (if b then throw exception else (do add c (payload body); write_mode_on c)) s) e

-- A body is sent on an open socket.
pub done_body-Sends :
    (c : ℕ) (body : Bytes) (s : Server)
    → (s.connects c).closed ≡ false
    → Sends c (payload body) (done_body c body s) s
done_body-Sends c body s e =
    let t = record s {
      connects =
          store s.connects c
            (record (s.connects c) { send_buffer = (s.connects c).send_buffer ++ payload body });
    } in
    let (u, p, h) = write_mode_on-Sends c (payload body) s t (written-Sent c (payload body) s) in
    (u, done_body-open c body s e ∙ p, h)
