-- ===== src/Broker/Deliver.antt =====
-- `worker_result`: the result goes to the client that waits under the id.
use ijson.Prelude.{
  ℕ, ◌+◌, ◌≡◌, refl, ◌∙◌, ap, inl, inr, Bool, true, false, not, ◌++◌, Bytes, text, if◌then◌else◌,
  Bool-cases, arith, some, ◌==◌, ◌<◌,
}
use ijson.Prelude.Int.{ℤ, pos, negsuc}
use ijson.Broker.{
  net, Server, ok, M, pure, store, skip, and_then, ◌>>=◌, ◌>>◌, find_waiting, erase_waiting,
  connect, set_status, gets, modify, update,
}
use ijson.Broker.Http.{status, header, done_body}
use ijson.Broker.Links.{unlinked, unlink-linked}
use ijson.Broker.Sent.{
  Sends, Sent, Sends-then, status_line, header_line, payload, status-Sends, header-Sends,
  done_body-Sends,
}
use ijson.Broker.Answer.{worker_result, migrate, migrate_if}

-- The bytes of an answer with an id.
abbrev pub response : Bool → Bytes → Bytes → Bytes
response keep id body =
    status_line keep (text "200 OK") ++ (header_line (text "Id") id ++ payload body)

abbrev answer : ℕ → Bytes → Bytes → M (Unit {0})
answer c id body = do status c (text "200 OK"); header c (text "Id") id; done_body c body

still_open :
    (c : ℕ) (x : Bytes) (s t : Server)
    → Sent c x s t
    → (s.connects c).closed ≡ false
    → (t.connects c).closed ≡ false
still_open c x s t h e = ap (λ k. k.closed) (h.cores c) ∙ e

answer-Sends :
    (c : ℕ) (id body : Bytes) (s : Server)
    → (s.connects c).closed ≡ false
    → Sends c (response (s.connects c).keep_alive id body) (answer c id body s) s
answer-Sends c id body s e =
    Sends-then c (status_line (s.connects c).keep_alive (text "200 OK"))
      (header_line (text "Id") id ++ payload body) (status c (text "200 OK"))
      (do header c (text "Id") id; done_body c body) s (status-Sends c (text "200 OK") s)
      λ t h.
        Sends-then c (header_line (text "Id") id) (payload body) (header c (text "Id") id)
          (done_body c body) t (header-Sends c (text "Id") id t)
          λ u k. done_body-Sends c body u (
            still_open c (header_line (text "Id") id) t u k
              (still_open c (status_line (s.connects c).keep_alive (text "200 OK")) s t h e))

-- The client has the worker's body, waits no longer, and is entered under the id no longer; no
-- other connection gets a byte or changes its status.
pub record Delivered (id : Bytes) (client worker : ℕ) (s t : Server) : Type 0 where
  pub output :
      (d : ℕ)
      → (t.connects d).send_buffer ≡ (
          if d == client
          then (s.connects d).send_buffer
            ++ response (s.connects client).keep_alive id (s.connects worker).body
          else (s.connects d).send_buffer)
  pub statuses :
      (d : ℕ) → (t.connects d).status ≡ (if d == client then net else (s.connects d).status)
  pub waiting : t.wait_response ≡ erase_waiting id s.wait_response
  pub links : (t.connects client).link + 1 ≡ (s.connects client).link
  pub lines : t.queue_list ≡ s.queue_list

abbrev pub erased : Bytes → Server → Server
erased id s = record s { wait_response = erase_waiting id s.wait_response }

-- The steps of `worker_result` after the entry is found and the socket is seen to be open.
abbrev rest : Bytes → ℕ → ℕ → M ℤ
rest id client worker = do
  k ← connect worker
  answer client id k.body
  set_status client net
  migrate_if worker client
  pure (pos 0)

still_unlinked :
    (id : Bytes) (client : ℕ) (s : Server)
    → (s.connects client).closed ≡ false
    → ((unlinked client (erased id s)).connects client).closed ≡ false
still_unlinked id client s o = ground arith

worker_result-some :
    (id : Bytes) (client worker : ℕ) (s : Server)
    → find_waiting id s.wait_response ≡ some client
    → (s.connects client).closed ≡ false
    → 0 < (s.connects client).link
    → worker_result id (some worker) s ≡ rest id client worker (unlinked client (erased id s))
unfolding worker_result ◌>>=◌ gets connect ◌>>◌ modify update
worker_result-some id client worker s e o l =
    rw (e, unlink-linked client (erased id s) l)
      (ap
        (λ b.
          (if b then pure (negsuc 1) else rest id client worker) (unlinked client (erased id s)))
        (still_unlinked id client s o))

-- What follows the answer: the client reads again, maybe in another loop.
record Ended (client : ℕ) (s t : Server) : Type 0 where
  buffers : (d : ℕ) → (t.connects d).send_buffer ≡ (s.connects d).send_buffer
  statuses : (d : ℕ) → (t.connects d).status ≡ (if d == client then net else (s.connects d).status)
  links : (d : ℕ) → (t.connects d).link ≡ (s.connects d).link
  waiting : t.wait_response ≡ s.wait_response
  lines : t.queue_list ≡ s.queue_list

finish_client : ℕ → ℕ → M ℤ
finish_client client worker = do set_status client net; migrate_if worker client; pure (pos 0)

-- What a migration leaves as it is.
record Moved (s t : Server) : Type 0 where
  buffers : (d : ℕ) → (t.connects d).send_buffer ≡ (s.connects d).send_buffer
  statuses : (d : ℕ) → (t.connects d).status ≡ (s.connects d).status
  links : (d : ℕ) → (t.connects d).link ≡ (s.connects d).link
  waiting : t.wait_response ≡ s.wait_response
  lines : t.queue_list ≡ s.queue_list

going : ℕ → Server → Server
going w s = record s { connects = store s.connects w (record (s.connects w) { go_loop = true }) }

going_to : ℕ → ℕ → Server → Server
going_to n c s = record s {
  connects = store s.connects c (record (s.connects c) { go_loop = true; need_loop = n });
}

going-Moved : (w : ℕ) (s : Server) → Moved s (going w s)
unfolding going
going-Moved w s = record {
  buffers = λ d. ground arith;
  statuses = λ d. ground arith;
  links = λ d. ground arith;
  waiting = refl;
  lines = refl;
}

going_to-Moved : (n c : ℕ) (s : Server) → Moved s (going_to n c s)
unfolding going_to
going_to-Moved n c s = record {
  buffers = λ d. ground arith;
  statuses = λ d. ground arith;
  links = λ d. ground arith;
  waiting = refl;
  lines = refl;
}

migrate-Moved : (w c : ℕ) (s : Server) → (t : Server) × (migrate w c s ≡ ok tt t) × Moved s t
unfolding migrate going going_to ◌>>=◌ connect ◌>>◌ update
migrate-Moved w c s =
    let h = going-Moved w s in
    let k = going_to-Moved (s.connects w).need_loop c (going w s) in
    (
      going_to (s.connects w).need_loop c (going w s),
      refl,
      record {
        buffers = λ d. k.buffers d ∙ h.buffers d;
        statuses = λ d. k.statuses d ∙ h.statuses d;
        links = λ d. k.links d ∙ h.links d;
        waiting = refl;
        lines = refl;
      },
    )

migrate_if-Moved : (w c : ℕ) (s : Server) → (t : Server) × (migrate_if w c s ≡ ok tt t) × Moved s t
unfolding ◌>>=◌ connect skip
migrate_if-Moved w c s =
    let k = s.connects w in
    let go = λ (b : Bool). (if b then migrate w c else skip) s in
    elim (Bool-cases (not (k.nloop == k.need_loop))) [
      | inl e ↦ let (t, p, h) = migrate-Moved w c s in (t, ap go e ∙ p, h)
      | inr e ↦ (
        s,
        ap go e,
        record {
          buffers = λ d. refl;
          statuses = λ d. refl;
          links = λ d. refl;
          waiting = refl;
          lines = refl;
        },
      )
    ]

reading : ℕ → Server → Server
reading c s = record s { connects = store s.connects c (record (s.connects c) { status = net }) }

reading-Ended : (c : ℕ) (s : Server) → Ended c s (reading c s)
unfolding reading
reading-Ended c s = record {
  buffers = λ d. ground arith;
  statuses = λ d. ground arith;
  links = λ d. ground arith;
  waiting = refl;
  lines = refl;
}

finish_client-ok :
    (client worker : ℕ) (s : Server)
    → (t : Server) × (finish_client client worker s ≡ ok (pos 0) t) × Ended client s t
unfolding finish_client reading ◌>>◌ ◌>>=◌ pure update connect
finish_client-ok client worker s =
    let h = reading-Ended client s in
    let (t, p, k) = migrate_if-Moved worker client (reading client s) in
    (
      t,
      ap (λ x. and_then x (λ _. pure (pos 0))) p,
      record {
        buffers = λ d. k.buffers d ∙ h.buffers d;
        statuses = λ d. k.statuses d ∙ h.statuses d;
        links = λ d. k.links d ∙ h.links d;
        waiting = k.waiting ∙ h.waiting;
        lines = k.lines ∙ h.lines;
      },
    )

-- The result of a worker goes to the client that waits under its id, if that client has a link and
-- its socket is open: the client gets the answer with the id and the worker's body and no other
-- connection gets a byte, the client has the status net and one link less, and the id's entry is
-- erased.
pub worker_result_lem :
    (id : Bytes) (client worker : ℕ) (s : Server)
    → find_waiting id s.wait_response ≡ some client
    → (s.connects client).closed ≡ false
    → 0 < (s.connects client).link
    → (t : Server) × (worker_result id (some worker) s ≡ ok (pos 0) t)
      × Delivered id client worker s t
unfolding finish_client ◌>>=◌ ◌>>◌ connect status
worker_result_lem id client worker s e o l =
    let r = unlinked client (erased id s) in
    let (t, p, h) =
      answer-Sends client id (r.connects worker).body r (still_unlinked id client s o) in
    let (u, q, k) = finish_client-ok client worker t in
    (
      u,
      worker_result-some id client worker s e o l
          ∙ ap (λ x. and_then x (λ _. finish_client client worker)) p
          ∙ q,
      record {
        output = λ d. ground (arith, h.buffers d, k.buffers d);
        statuses = λ d. ground (arith, ap (λ c. c.status) (h.cores d), k.statuses d);
        waiting = k.waiting ∙ h.waiting;
        links = ground (arith, ap (λ c. c.link) (h.cores client), k.links client);
        lines = k.lines ∙ h.lines;
      },
    )
