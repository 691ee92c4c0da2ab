-- ===== src/Broker/Entries/Requests.antt =====
-- What `client_request` of src/server.cpp does before and beside the entry of a client: none of it
-- changes the map of the waiting clients.
use ijson.Prelude.{
  ℕ, ◌+◌, Bool, true, false, not, ◌&&◌, List, [], ◌∷◌, Bytes, text, some, length, invalid_data,
  no_data, exception, Result,
}
use ijson.Prelude.Int.{ℤ, negsuc}
use ijson.Json.{Json}
use ijson.Broker.{M, pure, throw, update, generate_id, ◌>>=◌, ◌>>◌}
use ijson.Broker.Http.{reply}
use ijson.Broker.Queues.{is_waiting_job, passes_over, pick_worker, find_worker}
use ijson.Broker.Request.{scan_id, find_id, give_back, send_async, send_noid, enqueue}
use ijson.Broker.Entries.{
  Still, Still-next, Still-then, Still-connect, Still-if, Still-option, Still-pure, Still-throw,
  Still-update, Still-line, Still-set_workers, still_rules,
}

pick_worker-Still : (required : Bytes) (ws : List ℕ) → Still (pick_worker required ws)
unfolding pick_worker
pick_worker-Still required [] = search still_rules
pick_worker-Still required (w ∷ ws) = Still-next _ _ (Still-connect w) (λ k.
    Still-if (passes_over required k.connection_id) _ _
      (Still-next _ _ (pick_worker-Still required ws) (λ x. Still-pure _))
      (Still-then _ _ (search still_rules) (
        Still-if (not k.closed && is_waiting_job k.status) _ _
          (Still-then _ _ (Still-update w _) (Still-pure _)) (pick_worker-Still required ws))))

pub find_worker-Still : (q : ℕ) (required : Bytes) (rs : List ℕ) → Still (find_worker q required rs)
unfolding find_worker
find_worker-Still q required [] = search still_rules
find_worker-Still q required (r ∷ rs) = Still-next _ _ (Still-line q) (λ l.
    Still-next _ _ (pick_worker-Still required (l.queue r).workers) (λ x.
      Still-then _ _ (Still-set_workers q r x.0)
        (Still-option x.1 _ _ (find_worker-Still q required rs) (λ w. Still-pure (some w)))))

pub find_id-Still : (client : ℕ) → Still (find_id client)
unfolding find_id
find_id-Still client =
    Still-next _ _ (Still-connect client)
      (λ k. Still-if _ _ _ (Still-pure true) (found (scan_id (length k.json.unread + 1) k.json)))
  where
    found :
        (r : Result (Json × Bytes))
        → Still (elim r as (λ _. M Bool) [
          | Result.err invalid_data ↦ pure false
          | Result.err e ↦ throw e
          | Result.ok (j, []) ↦ (do
            id ← generate_id
            update client (λ k. record k { json = j; id = id })
            pure true)
          | Result.ok (j, (a ∷ s)) ↦ (do
            update client (λ k. record k { json = j; id = a ∷ s })
            pure true)
        ])
    found (Result.err invalid_data) = Still-pure false
    found (Result.err no_data) = Still-throw no_data
    found (Result.err exception) = Still-throw exception
    found (Result.ok (j, [])) = search still_rules depth 16
    found (Result.ok (j, (a ∷ s))) = search still_rules depth 16

pub give_back-Still : (q worker : ℕ) → Still (give_back q worker)
unfolding give_back
give_back-Still q worker = search still_rules depth 16

pub send_async-Still : (name : Bytes) (client worker : ℕ) → Still (send_async name client worker)
unfolding send_async
send_async-Still name client worker = search still_rules depth 16

pub send_noid-Still : (name : Bytes) (client worker : ℕ) → Still (send_noid name client worker)
unfolding send_noid
send_noid-Still name client worker = search still_rules depth 20

pub enqueue-Still : (nloop q : ℕ) (name : Bytes) (client : ℕ) → Still (enqueue nloop q name client)
unfolding enqueue
enqueue-Still nloop q name client = search still_rules depth 24

-- What an id in use leads to.
abbrev pub refuse : ℕ → ℕ → ℕ → M ℤ
refuse q client worker = do
  give_back q worker
  reply client (text "400 Collision Id") (negsuc 0)
  pure (negsuc 2)

pub refuse-Still : (q client worker : ℕ) → Still (refuse q client worker)
refuse-Still q client worker = search (still_rules, give_back-Still) depth 16
