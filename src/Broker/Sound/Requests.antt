-- ===== src/Broker/Sound/Requests.antt =====
-- What a request of a client keeps: its job goes to a worker, or it waits behind all of its priority.
use ijson.Prelude.{
  ◌&&◌, not, ℕ, ◌+◌, Bool, true, false, List, [], ◌∷◌, Bytes, some, length, invalid_data, no_data,
  exception, Result,
}
use ijson.Json.{Json}
use ijson.Broker.{
  pure, throw, update, generate_id, ◌>>◌, M, ◌>>=◌, modify, put_waiting, erase_waiting,
}
use ijson.Broker.Waiting.{put-IsMap, erase-IsMap}
use ijson.Broker.Priority.{insert_message-IsOrdered}
use ijson.Broker.Queues.{loop_order, is_waiting_job, passes_over, pick_worker, find_worker}
use ijson.Broker.Request.{
  scan_id, find_id, give_back, send_async, send_noid, send_id, dispatch_id, dispatch, enqueue,
  client_request,
}
use ijson.Broker.Sound.{
  Keeps, Any, Keeps-next, Keeps-then, Keeps-connect, Keeps-update, Keeps-if, Keeps-option,
  Keeps-pure, Keeps-throw, Keeps-gets,
}
use ijson.Broker.Sound.Links.{links_rules, unlink-Keeps}
use ijson.Broker.Sound.Lines.{lines_rules, Keeps-line, Keeps-set_workers, get_queue-Keeps}

pub Keeps-put :
    (id : Bytes) (c : ℕ)
    → Keeps Any (modify (λ s. record s { wait_response = put_waiting id c s.wait_response }))
unfolding modify
Keeps-put id c = record {
  at = λ s h. (record { waiting = put-IsMap id c s.wait_response h.waiting; lines = h.lines }, tt);
}

pub Keeps-erase :
    (id : Bytes)
    → Keeps Any (modify (λ s. record s { wait_response = erase_waiting id s.wait_response }))
unfolding modify
Keeps-erase id = record {
  at = λ s h. (record { waiting = erase-IsMap id s.wait_response h.waiting; lines = h.lines }, tt);
}

pub ruleset sound_rules = (lines_rules, links_rules, Keeps-put, Keeps-erase)

pick_worker-Keeps : (required : Bytes) (ws : List ℕ) → Keeps Any (pick_worker required ws)
unfolding pick_worker
pick_worker-Keeps required [] = search sound_rules
pick_worker-Keeps required (w ∷ ws) = Keeps-next _ _ (Keeps-connect w) (λ k.
    Keeps-if (passes_over required k.connection_id) _ _
      (Keeps-next _ _ (pick_worker-Keeps required ws) (λ x. Keeps-pure _ tt))
      (Keeps-then _ _ (unlink-Keeps w) (
        Keeps-if (not k.closed && is_waiting_job k.status) _ _
          (Keeps-then _ _ (Keeps-update w _) (Keeps-pure _ tt)) (pick_worker-Keeps required ws))))

find_worker-Keeps : (q : ℕ) (required : Bytes) (rs : List ℕ) → Keeps Any (find_worker q required rs)
unfolding find_worker
find_worker-Keeps q required [] = search sound_rules
find_worker-Keeps q required (r ∷ rs) = Keeps-line q _ (λ l _.
    Keeps-next _ _ (pick_worker-Keeps required (l.queue r).workers) (λ x.
      Keeps-then _ _ (Keeps-set_workers q r x.0)
        (Keeps-option x.1 _ _ (find_worker-Keeps q required rs) (λ w. Keeps-pure (some w) tt))))

pub find_id-Keeps : (client : ℕ) → Keeps Any (find_id client)
unfolding find_id
find_id-Keeps client =
    Keeps-next _ _ (Keeps-connect client)
      (λ k. Keeps-if _ _ _ (Keeps-pure true tt) (found (scan_id (length k.json.unread + 1) k.json)))
  where
    found :
        (r : Result (Json × Bytes))
        → Keeps Any (elim r as (λ _. M Bool) [
          | Result.err invalid_data ↦ pure false
          | Result.err e ↦ throw e
          | Result.ok (j, []) ↦ (do
            id ← generate_id
            update client (λ k. record k { json = j; id = id })
            pure true)
          | Result.ok (j, (a ∷ s)) ↦ (do
            update client (λ k. record k { json = j; id = a ∷ s })
            pure true)
        ])
    found (Result.err invalid_data) = Keeps-pure false tt
    found (Result.err no_data) = Keeps-throw no_data
    found (Result.err exception) = Keeps-throw exception
    found (Result.ok (j, [])) = search sound_rules depth 16
    found (Result.ok (j, (a ∷ s))) = search sound_rules depth 16

give_back-Keeps : (q worker : ℕ) → Keeps Any (give_back q worker)
unfolding give_back
give_back-Keeps q worker = search sound_rules depth 16

send_async-Keeps : (name : Bytes) (client worker : ℕ) → Keeps Any (send_async name client worker)
unfolding send_async
send_async-Keeps name client worker = search sound_rules depth 16

send_noid-Keeps : (name : Bytes) (client worker : ℕ) → Keeps Any (send_noid name client worker)
unfolding send_noid
send_noid-Keeps name client worker = search sound_rules depth 20

send_id-Keeps : (name : Bytes) (client worker : ℕ) → Keeps Any (send_id name client worker)
unfolding send_id
send_id-Keeps name client worker = Keeps-next _ _ (Keeps-connect client) (λ c.
    Keeps-next _ _ (Keeps-connect worker) (λ w. Keeps-then _ _ (search sound_rules depth 24) (
      Keeps-then _ _ (search sound_rules) (
        Keeps-then _ _ (search sound_rules) (
          Keeps-then _ _ (search sound_rules) (
            Keeps-then _ _ (search sound_rules)
              (Keeps-then _ _ (Keeps-put c.id client) (search sound_rules))))))))

dispatch-Keeps :
    (q : ℕ) (name : Bytes) (client worker : ℕ) → Keeps Any (dispatch q name client worker)
unfolding dispatch dispatch_id
dispatch-Keeps q name client worker =
    search
      (
        sound_rules, send_async-Keeps, send_noid-Keeps, send_id-Keeps, find_id-Keeps,
        give_back-Keeps,
      )
      depth 24

enqueue-Keeps : (nloop q : ℕ) (name : Bytes) (client : ℕ) → Keeps Any (enqueue nloop q name client)
unfolding enqueue
enqueue-Keeps nloop q name client = search (sound_rules, insert_message-IsOrdered) depth 24

pub client_request-Keeps :
    (nloop : ℕ) (name : Bytes) (client : ℕ) → Keeps Any (client_request nloop name client)
unfolding client_request
client_request-Keeps nloop name client = Keeps-then _ _ (search sound_rules) (
    Keeps-next _ _ (get_queue-Keeps name false) (λ found.
      Keeps-option found _ _ (search sound_rules) (λ q. Keeps-next _ _ (Keeps-connect client) (λ c.
        Keeps-next _ _ (Keeps-gets _) (λ n.
          Keeps-next _ _ (find_worker-Keeps q c.required_worker (loop_order nloop n)) (λ chosen.
            Keeps-option chosen _ _ (enqueue-Keeps nloop q name client)
              (dispatch-Keeps q name client)))))))
