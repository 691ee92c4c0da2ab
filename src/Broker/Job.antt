-- ===== src/Broker/Job.antt =====
-- `client_request` and a worker with ids: the job that the worker gets, and the client's entry.
pub mod Answered
use ijson.Prelude.{
  ℕ, ◌+◌, ◌≡◌, ◌≢◌, refl, ◌∙◌, ap, Bool, false, ◌++◌, Bytes, text, if◌then◌else◌, arith, none, some,
  ◌==◌, ◌<◌,
}
use ijson.Prelude.Int.{ℤ, pos}
use ijson.Slice.Compare.{equal_refl}
use ijson.Broker.{
  net, client_wait_result, Server, ok, M, pure, store, skip, and_then, ◌>>◌, find_waiting,
  put_waiting, erase_waiting, link, set_status, modify, update, ◌>>=◌, connect,
}
use ijson.Broker.Http.{status, header, done_body}
use ijson.Broker.Waiting.{find-put, erase-put}
use ijson.Broker.Sent.{
  Sends, Sent, Sent-trans, status_line, header_line, payload, status-Sends, header-Sends,
  done_body-Sends,
}
use ijson.Broker.Request.{send_id}
use ijson.Broker.Answer.{worker_result}
use ijson.Broker.Deliver.{response, worker_result_lem}

-- The bytes of a job with an id.
abbrev pub job : Bool → Bytes → Bytes → Bytes → Bytes
job keep id name body =
    status_line keep (text "200 OK")
    ++ (header_line (text "Id") id ++ (header_line (text "Name") name ++ payload body))

-- Steps that send bytes and go on.
abbrev Feeds : ℕ → Bytes → (M ℤ → M ℤ) → Server → Type 0
Feeds c x f s = (t : Server) × ((n : M ℤ) → f n s ≡ n t) × Sent c x s t

Feeds-one :
    (c : ℕ) (x : Bytes) (m : M (Unit {0})) (s : Server)
    → Sends c x (m s) s
    → Feeds c x (λ n. m >> n) s
unfolding ◌>>◌
Feeds-one c x m s (t, p, h) = (t, λ n. ap (λ r. and_then r (λ _. n)) p, h)

Feeds-then :
    (c : ℕ) (x y : Bytes) (f g : M ℤ → M ℤ) (s : Server)
    → Feeds c x f s
    → ((t : Server) → Sent c x s t → Feeds c y g t)
    → Feeds c (x ++ y) (λ n. f (g n)) s
Feeds-then c x y f g s (t, p, h) k =
    let (u, q, h') = k t h in (u, λ n. p (g n) ∙ q n, Sent-trans h h')

still_open :
    (c : ℕ) (x : Bytes) (s t : Server)
    → Sent c x s t
    → (s.connects c).closed ≡ false
    → (t.connects c).closed ≡ false
still_open c x s t h e = ap (λ k. k.closed) (h.cores c) ∙ e

give : ℕ → Bytes → Bytes → Bytes → M ℤ → M ℤ
give w id name body n = do
  status w (text "200 OK")
  header w (text "Id") id
  header w (text "Name") name
  done_body w body
  n

give-Feeds :
    (w : ℕ) (id name body : Bytes) (s : Server)
    → (s.connects w).closed ≡ false
    → Feeds w (job (s.connects w).keep_alive id name body) (give w id name body) s
unfolding give
give-Feeds w id name body s e =
    let a = status_line (s.connects w).keep_alive (text "200 OK") in
    let b = header_line (text "Id") id in
    let c = header_line (text "Name") name in
    Feeds-then w a (b ++ (c ++ payload body)) (λ n. status w (text "200 OK") >> n)
      (λ n. header w (text "Id") id >> (header w (text "Name") name >> (done_body w body >> n))) s
      (Feeds-one w a (status w (text "200 OK")) s (status-Sends w (text "200 OK") s))
      λ t h.
        Feeds-then w b (c ++ payload body) (λ n. header w (text "Id") id >> n)
          (λ n. header w (text "Name") name >> (done_body w body >> n)) t
          (Feeds-one w b (header w (text "Id") id) t (header-Sends w (text "Id") id t))
          λ u k.
            Feeds-then w c (payload body) (λ n. header w (text "Name") name >> n)
              (λ n. done_body w body >> n) u
              (Feeds-one w c (header w (text "Name") name) u (header-Sends w (text "Name") name u))
              λ v l. Feeds-one w (payload body) (done_body w body) v (
                done_body-Sends w body v
                  (still_open w c u v l (still_open w b t u k (still_open w a s t h e))))

-- What `send_id` does once the job is sent.
wait_for : Bytes → ℕ → ℕ → M ℤ
wait_for id client worker = do
  modify (λ s. record s { wait_response = put_waiting id client s.wait_response })
  link client
  set_status client client_wait_result
  set_status worker net
  pure (pos 0)

send_id-plain :
    (name : Bytes) (client worker : ℕ) (s : Server)
    → (s.connects worker).fail_on_disconnect ≡ false
    → send_id name client worker s
      ≡ give worker
          (s.connects client).id
          name
          (s.connects client).body
          (wait_for (s.connects client).id client worker)
          s
unfolding send_id give wait_for ◌>>=◌ ◌>>◌ skip connect
send_id-plain name client worker s e =
    let c = s.connects client in
    let w = s.connects worker in
    ap
      (λ b.
        and_then
          ((if b
              then (do update worker (λ k. record k { client = some client }); link client)
              else skip)
            s)
          (λ _. give worker c.id name c.body (wait_for c.id client worker)))
      e

-- The worker has the job; the client is linked, waits, and is entered under its id.
pub record Handed (name : Bytes) (client worker : ℕ) (s t : Server) : Type 0 where
  pub output :
      (d : ℕ)
      → (t.connects d).send_buffer ≡ (
          if d == worker
          then (s.connects d).send_buffer
            ++ job
                (s.connects worker).keep_alive
                (s.connects client).id
                name
                (s.connects client).body
          else (s.connects d).send_buffer)
  pub entry : t.wait_response ≡ put_waiting (s.connects client).id client s.wait_response
  pub statuses :
      (d : ℕ)
      → (t.connects d).status ≡ (
          if d == worker
          then net
          else if d == client
          then client_wait_result
          else (s.connects d).status)
  pub links :
      (d : ℕ)
      → (t.connects d).link ≡ (if d == client then (s.connects d).link + 1 else (s.connects d).link)
  pub sockets : (d : ℕ) → (t.connects d).closed ≡ (s.connects d).closed
  pub keeps : (d : ℕ) → (t.connects d).keep_alive ≡ (s.connects d).keep_alive
  pub lines : t.queue_list ≡ s.queue_list

entering : Bytes → ℕ → ℕ → Server → Server
entering id client worker s =
    let a = record s {
      wait_response = put_waiting id client s.wait_response;
      connects =
          store s.connects client
            (record (s.connects client) { link = (s.connects client).link + 1 });
    } in
    let b = record a {
      connects =
          store a.connects client (record (a.connects client) { status = client_wait_result });
    } in
    record b { connects = store b.connects worker (record (b.connects worker) { status = net }) }

wait_for-ok :
    (id : Bytes) (client worker : ℕ) (s : Server)
    → wait_for id client worker s ≡ ok (pos 0) (entering id client worker s)
unfolding wait_for link entering ◌>>◌ modify update pure
wait_for-ok id client worker s = refl

module _ (id : Bytes) (client worker : ℕ) (s : Server) (d : ℕ) where
  entering-buffer :
      ((entering id client worker s).connects d).send_buffer ≡ (s.connects d).send_buffer
  unfolding entering
  entering-buffer = ground arith

  entering-status : ((entering id client worker s).connects d).status ≡ (
      if d == worker
      then net
      else if d == client
      then client_wait_result
      else (s.connects d).status)
  unfolding entering
  entering-status = ground arith

  entering-link :
      ((entering id client worker s).connects d).link
      ≡ (if d == client then (s.connects d).link + 1 else (s.connects d).link)
  unfolding entering
  entering-link = ground arith

  entering-closed : ((entering id client worker s).connects d).closed ≡ (s.connects d).closed
  unfolding entering
  entering-closed = ground arith

  entering-keep : ((entering id client worker s).connects d).keep_alive ≡ (s.connects d).keep_alive
  unfolding entering
  entering-keep = ground arith

-- A job that is sent to a worker with ids, which is open and asks for no notice of a disconnect,
-- reaches the worker with the client's id and body, and no other connection gets a byte; the
-- client is entered under its id and has one link more, the worker's status is net and that of a
-- client other than the worker is client_wait_result; sockets and queue lines stay.
pub send_id_lem :
    (name : Bytes) (client worker : ℕ) (s : Server)
    → (s.connects worker).fail_on_disconnect ≡ false
    → (s.connects worker).closed ≡ false
    → (t : Server) × (send_id name client worker s ≡ ok (pos 0) t) × Handed name client worker s t
send_id_lem name client worker s f o =
    let id = (s.connects client).id in
    let (t, p, h) = give-Feeds worker id name (s.connects client).body s o in
    let u = entering id client worker t in
    (
      u,
      send_id-plain name client worker s f
          ∙ p (wait_for id client worker)
          ∙ wait_for-ok id client worker t,
      record {
        output = λ d. entering-buffer id client worker t d ∙ h.buffers d;
        entry = unfold entering in ap (put_waiting id client) h.waiting;
        statuses = λ d.
            entering-status id client worker t d
            ∙ ap (λ x. if d == worker then net else if d == client then client_wait_result else x)
                (ap (λ k. k.status) (h.cores d));
        links = λ d.
            entering-link id client worker t d
            ∙ ap (λ x. if d == client then x + 1 else x) (ap (λ k. k.link) (h.cores d));
        sockets = λ d. entering-closed id client worker t d ∙ ap (λ k. k.closed) (h.cores d);
        keeps = λ d. entering-keep id client worker t d ∙ ap (λ k. k.keep_alive) (h.cores d);
        lines = unfold entering in h.lines;
      },
    )
