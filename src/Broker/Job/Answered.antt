-- ===== src/Broker/Job/Answered.antt =====
-- `client_request` and then `worker_result`: a job goes to a worker with ids and its result comes back.
use ijson.Prelude.{
  ℕ, ◌+◌, ◌≡◌, ◌≢◌, refl, ◌∙◌, ap, Bool, false, ◌++◌, Bytes, if◌then◌else◌, arith, none, some, ◌==◌,
  ◌<◌,
}
use ijson.Prelude.Int.{pos}
use ijson.Slice.Compare.{equal_refl}
use ijson.Broker.{net, Server, ok, store, find_waiting, erase_waiting}
use ijson.Broker.Waiting.{find-put, erase-put}
use ijson.Broker.Request.{send_id}
use ijson.Broker.Answer.{worker_result}
use ijson.Broker.Deliver.{response, worker_result_lem}
use ijson.Broker.Job.{job, send_id_lem}

abbrev pub with_body : ℕ → Bytes → Server → Server
with_body c b s = record s { connects = store s.connects c (record (s.connects c) { body = b }) }

with_body-body : (c : ℕ) (b : Bytes) (s : Server) → ((with_body c b s).connects c).body ≡ b
with_body-body c b s = ground arith

with_body-other :
    (c d : ℕ) (b : Bytes) (s : Server) → d ≢ c → (with_body c b s).connects d ≡ s.connects d
with_body-other c d b s n = ground arith

if_same : {A : Type 0} (n : ℕ) (x y : A) → (if n == n then x else y) ≡ x
if_same n x y = ground arith

if_other : {A : Type 0} (m n : ℕ) (x y : A) → m ≢ n → (if m == n then x else y) ≡ y
if_other m n x y h = ground arith

link_positive : (a b : ℕ) → a ≡ b + 1 → 0 < a
link_positive a b h = omega arith

link_back : (a b c : ℕ) → a + 1 ≡ b → b ≡ c + 1 → a ≡ c
link_back a b c h k = omega arith

same_response :
    {b b' : Bytes} {k k' : Bool} {x x' : Bytes} (id : Bytes)
    → b ≡ b'
    → k ≡ k'
    → x ≡ x'
    → b ++ response k id x ≡ b' ++ response k' id x'
same_response id p q r = rw (p, q, r) refl

-- For an open worker with ids that asks for no notice of a disconnect and an open client, another
-- connection whose id no client is entered under, the job is sent and the client is noted; when
-- the worker then brings a body under that id, the client gets that body under that id, has the
-- status net and as many links as before, and the waiting clients are those of before.
pub send_id-worker_result :
    (name result : Bytes) (client worker : ℕ) (s : Server)
    → (s.connects worker).fail_on_disconnect ≡ false
    → (s.connects worker).closed ≡ false
    → (s.connects client).closed ≡ false
    → client ≢ worker
    → find_waiting (s.connects client).id s.wait_response ≡ none
    → (t : Server) × (u : Server) × (send_id name client worker s ≡ ok (pos 0) t)
      × (worker_result (s.connects client).id (some worker) (with_body worker result t)
          ≡ ok (pos 0) u)
      × ((u.connects client).send_buffer
          ≡ (s.connects client).send_buffer
            ++ response (s.connects client).keep_alive (s.connects client).id result)
      × ((u.connects client).status ≡ net)
      × ((u.connects client).link ≡ (s.connects client).link)
      × (u.wait_response ≡ s.wait_response)
send_id-worker_result name result client worker s f o c n m =
    let id = (s.connects client).id in
    let (t, p, h) = send_id_lem name client worker s f o in
    let v = with_body worker result t in
    let same = with_body-other worker client result t n in
    let entered =
      ap (find_waiting id) h.entry
      ∙ find-put id id client s.wait_response
      ∙ ap (λ b. if b then some client else find_waiting id s.wait_response) (equal_refl id) in
    let link =
      ap (λ k. k.link) same
      ∙ h.links client
      ∙ if_same client ((s.connects client).link + 1) (s.connects client).link in
    let unclosed = ap (λ k. k.closed) same ∙ h.sockets client ∙ c in
    let (u, q, k) =
      worker_result_lem id client worker v entered unclosed
        (link_positive (v.connects client).link (s.connects client).link link) in
    let unread =
      ap (λ k. k.send_buffer) same
      ∙ h.output client
      ∙ if_other client worker
          ((s.connects client).send_buffer
            ++ job (s.connects worker).keep_alive id name (s.connects client).body)
          (s.connects client).send_buffer n in
    (
      t,
      u,
      p,
      q,
      k.output client
          ∙ if_same client
              ((v.connects client).send_buffer
                ++ response (v.connects client).keep_alive id (v.connects worker).body)
              (v.connects client).send_buffer
          ∙ same_response id unread (ap (λ k. k.keep_alive) same ∙ h.keeps client)
              (with_body-body worker result t),
      k.statuses client ∙ if_same client net (v.connects client).status,
      link_back (u.connects client).link (v.connects client).link (s.connects client).link k.links
          link,
      k.waiting ∙ ap (erase_waiting id) h.entry ∙ erase-put id client s.wait_response m,
    )
