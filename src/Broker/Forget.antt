-- ===== src/Broker/Forget.antt =====
-- `on_disconnect` of a client that waits for a result: whose entry it takes out.
use ijson.Prelude.{
  ℕ, ◌+◌, ◌≡◌, refl, ◌∙◌, ap, Bool, false, true, not, ◌&&◌, arith, Option, none, some, ◌<◌, Bytes,
  if◌then◌else◌,
}
use ijson.Prelude.Int.{negsuc}
use ijson.Slice.{is_empty}
use ijson.Slice.Compare.{equal_refl}
use ijson.Broker.{
  client_wait_result, Server, ok, find_waiting, unlink, skip, ◌>>=◌, connect, gets, ◌>>◌, modify,
  pure,
}
use ijson.Broker.Links.{unlinked, unlink-linked}
use ijson.Broker.Waiting.{IsMap, find-erase}
use ijson.Broker.Answer.{forget_client, worker_result}
use ijson.Broker.Queues.{is_waiting_result}
use ijson.Broker.Request.{is_some}
use ijson.Broker.Deliver.{erased}

is_entered : Server → ℕ → Bool
is_entered s conn =
    is_waiting_result (s.connects conn).status
    && not (is_empty (s.connects conn).id)
    && is_some (find_waiting (s.connects conn).id s.wait_response)

forget_client-entered :
    (conn : ℕ) (s : Server)
    → is_entered s conn ≡ true
    → forget_client conn s ≡ unlink conn (erased (s.connects conn).id s)
unfolding forget_client is_entered ◌>>=◌ connect gets ◌>>◌ modify
forget_client-entered conn s e =
    ap (λ b. (if b then (λ s'. unlink conn (erased (s.connects conn).id s')) else skip) s) e

waiting-entered :
    (conn other : ℕ) (s : Server)
    → (s.connects conn).status ≡ client_wait_result
    → is_empty (s.connects conn).id ≡ false
    → find_waiting (s.connects conn).id s.wait_response ≡ some other
    → is_entered s conn ≡ true
unfolding is_entered
waiting-entered conn other s w n e = rw (w, n, e) refl

forget_client-waiting :
    (conn other : ℕ) (s : Server)
    → (s.connects conn).status ≡ client_wait_result
    → is_empty (s.connects conn).id ≡ false
    → find_waiting (s.connects conn).id s.wait_response ≡ some other
    → 0 < (s.connects conn).link
    → forget_client conn s ≡ ok tt (unlinked conn (erased (s.connects conn).id s))
forget_client-waiting conn other s w n e l =
    forget_client-entered conn s (waiting-entered conn other s w n e)
    ∙ unlink-linked conn (erased (s.connects conn).id s) l

worker_result-none :
    (id : Bytes) (worker : Option ℕ) (s : Server)
    → find_waiting id s.wait_response ≡ none
    → worker_result id worker s ≡ ok (negsuc 0) s
unfolding worker_result ◌>>=◌ gets pure
worker_result-none id worker s e = rw e refl

-- A client that goes away while it waits for a result, with an id that some client, itself or
-- another, is entered under, takes that entry out and gives up a link of its own for it, so that a
-- result which a worker then brings for the id finds nobody and is refused; the waiting clients
-- are a map with distinct keys, and the client has a link and a non-empty id.
pub forget_client_lem :
    (conn other worker : ℕ) (s : Server)
    → (s.connects conn).status ≡ client_wait_result
    → is_empty (s.connects conn).id ≡ false
    → find_waiting (s.connects conn).id s.wait_response ≡ some other
    → IsMap s.wait_response
    → 0 < (s.connects conn).link
    → (t : Server) × (forget_client conn s ≡ ok tt t)
      × ((t.connects conn).link + 1 ≡ (s.connects conn).link)
      × (worker_result (s.connects conn).id (some worker) t ≡ ok (negsuc 0) t)
forget_client_lem conn other worker s w n e m l =
    let id = (s.connects conn).id in
    let gone =
      find-erase id id s.wait_response m
      ∙ ap (λ b. if b then none else find_waiting id s.wait_response) (equal_refl id) in
    (
      unlinked conn (erased id s),
      forget_client-waiting conn other s w n e l,
      ground arith,
      worker_result-none id (some worker) (unlinked conn (erased id s)) gone,
    )
