-- ===== src/Broker/Request.antt =====
-- `Loop::client_request` of src/server.cpp.
use ijson.Prelude.{
  ℕ, zero, suc, ◌+◌, Bool, true, false, not, ◌&&◌, ◌||◌, List, [], ◌∷◌, ◌++◌, Bytes, text, ◌==◌,
  if◌then◌else◌, Option, none, some, length, Error, no_data, invalid_data, exception,
}
use ijson.Prelude
use ijson.Prelude.Int.{ℤ, pos, negsuc}
use ijson.Slice.{equal_text, is_empty}
use ijson.Json.{Json, scan}
use ijson.Broker.{
  Status, net, worker_wait_job, worker_wait_result, client_wait_result, worker_mode_async, Connect,
  Message, M, pure, ◌>>=◌, ◌>>◌, throw, skip, gets, modify, connect, update, set_status, link,
  generate_id, find_waiting, put_waiting,
}
use ijson.Broker.Http.{status, header, done_body, reply}
use ijson.Broker.Queues.{
  get_queue, line, set_clients, set_workers, loop_order, find_worker, insert_message,
}

-- The loop that looks for the field `id`, on fuel: the scanner, and the value or nothing.
unfoldable pub scan_id : ℕ → Json → Prelude.Result (Json × Bytes)
unfolding scan equal_text
scan_id zero j = Prelude.ok (j, [])
scan_id (suc fuel) j = elim (scan j) [
  | Prelude.err e ↦ Prelude.err e
  | Prelude.ok (false, j') ↦ Prelude.ok (j', [])
  | Prelude.ok (true, j') ↦
      (let rest = scan_id fuel j' in
        if equal_text j'.key (text "id") then Prelude.ok (j', j'.value) else rest)
]

-- The id of a request: its header's, its body's, or a new one. `false` is a body that is no JSON.
-- A field takes at least a byte of the body, which bounds the rounds.
unfoldable pub find_id : ℕ → M Bool
unfolding scan_id generate_id
find_id client = do
  k ← connect client
  if not (is_empty k.id) then pure true else (elim (scan_id (length k.json.unread + 1) k.json) [
    | Prelude.err invalid_data ↦ pure false
    | Prelude.err e ↦ throw e
    | Prelude.ok (j, []) ↦ (do
      id ← generate_id
      update client (λ k. record k { json = j; id = id })
      pure true)
    | Prelude.ok (j, (a ∷ s)) ↦ (do
      update client (λ k. record k { json = j; id = a ∷ s })
      pure true)
  ])

-- A worker goes back to the front of its own loop's queue.
unfoldable pub give_back : ℕ → ℕ → M (Unit {0})
unfolding link
give_back q worker = do
  link worker
  set_status worker worker_wait_job
  k ← connect worker
  l ← line q
  set_workers q k.nloop (worker ∷ (l.queue k.nloop).workers)

abbrev pub after_job : Connect → Status
after_job k = if k.worker_mode then worker_mode_async else net

-- The client wants no answer: the worker has the job, and the client is told at once.
unfoldable pub send_async : Bytes → ℕ → ℕ → M ℤ
unfolding status header done_body reply
send_async name client worker = do
  update worker (λ k. record k { status = after_job k })
  c ← connect client
  status worker (text "200 OK")
  header worker (text "Name") name
  header worker (text "Async") (text "true")
  done_body worker c.body
  reply client (text "200 OK") (pos 1)
  pure (pos 0)

-- A worker with no ids: it is tied to the client until its result.
unfoldable pub send_noid : Bytes → ℕ → ℕ → M ℤ
unfolding link status header done_body
send_noid name client worker = do
  update worker (λ k. record k { client = some client })
  link client
  set_status client client_wait_result
  set_status worker worker_wait_result
  c ← connect client
  status worker (text "200 OK")
  header worker (text "Name") name
  done_body worker c.body
  pure (pos 0)

-- A worker that answers by the id: the client is noted under it.
unfoldable pub send_id : Bytes → ℕ → ℕ → M ℤ
unfolding link status header done_body put_waiting
send_id name client worker = do
  c ← connect client
  w ← connect worker
  if w.fail_on_disconnect
      then (do update worker (λ k. record k { client = some client }); link client)
      else skip
  status worker (text "200 OK")
  header worker (text "Id") c.id
  header worker (text "Name") name
  done_body worker c.body
  modify (λ s. record s { wait_response = put_waiting c.id client s.wait_response })
  link client
  set_status client client_wait_result
  set_status worker net
  pure (pos 0)

abbrev pub is_some : Option ℕ → Bool
is_some none = false
is_some (some _) = true

-- A worker with ids: a request with a bad body, or with an id in use, gives the worker back.
unfoldable pub dispatch_id : ℕ → Bytes → ℕ → ℕ → M ℤ
unfolding find_id give_back send_id reply find_waiting
dispatch_id q name client worker = do
  found ← find_id client
  if not found
      then (do give_back q worker; reply client (text "400 No Id") (negsuc 0); pure (negsuc 2))
      else (do
        c ← connect client
        taken ← gets (λ s. is_some (find_waiting c.id s.wait_response))
        if taken
            then (do
              give_back q worker
              reply client (text "400 Collision Id") (negsuc 0)
              pure (negsuc 2))
            else send_id name client worker)

-- The job goes to a worker.
unfoldable pub dispatch : ℕ → Bytes → ℕ → ℕ → M ℤ
unfolding send_async send_noid dispatch_id
dispatch q name client worker = do
  c ← connect client
  w ← connect worker
  if c.no_response
      then send_async name client worker
      else if w.noid
      then send_noid name client worker
      else dispatch_id q name client worker

-- The message of a request, and the client that is left: `move` and `attach_buffer` empty buffers.
abbrev pub async_message : Bytes → Connect → Message
async_message name c = record {
  priority = c.priority;
  required_worker = c.required_worker;
  conn = none;
  buf = c.body;
  name = name;
}

abbrev pub sync_message : ℕ → Connect → Message
sync_message client c = record {
  priority = c.priority;
  required_worker = c.required_worker;
  conn = some client;
  buf = [];
  name = [];
}

-- No worker waits: the request does.
unfoldable pub enqueue : ℕ → ℕ → Bytes → ℕ → M ℤ
unfolding link reply insert_message
enqueue nloop q name client = do
  c ← connect client
  l ← line q
  if equal_text c.header_option (text "if present") && Prelude.is_nil l.workers
      then (do reply client (text "204 No Content") (pos 1); pure (pos 0))
      else if c.no_response
      then (do
        update client (λ k. record k { required_worker = []; body = [] })
        set_clients q nloop (insert_message (async_message name c) (l.queue nloop).clients)
        reply client (text "200 OK") (pos 1)
        pure (pos 0))
      else (do
        update client (λ k. record k { required_worker = []; name = name })
        link client
        set_clients q nloop (insert_message (sync_message client c) (l.queue nloop).clients)
        set_status client client_wait_result
        pure (pos 0))

-- `client_request`, on the loop `nloop`.
unfoldable pub client_request : ℕ → Bytes → ℕ → M ℤ
unfolding get_queue find_worker loop_order dispatch enqueue reply
client_request nloop name client = do
  modify (λ s. record s { stat_call = s.stat_call + 1 })
  found ← get_queue name false
  elim found [
    | none ↦ (do reply client (text "404 Not Found") (negsuc 32600); pure (negsuc 0))
    | some q ↦ (do
      c ← connect client
      n ← gets (λ s. s.threads)
      chosen ← find_worker q c.required_worker (loop_order nloop n)
      elim chosen [ none ↦ enqueue nloop q name client | some w ↦ dispatch q name client w ])
  ]
