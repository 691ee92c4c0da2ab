-- ===== src/Broker/Rpc.antt =====
-- The requests of a worker and the commands: `rpc_add`, `rpc_result`, `pub`, `create_queue` and
-- `delete_queue` of src/connect.cpp. `junk` is what an uninitialised result of `_add_worker` holds.
pub mod Publish
use ijson.Prelude.{
  ℕ, zero, suc, ◌+◌, Bool, true, false, not, ◌&&◌, List, [], ◌∷◌, ◌++◌, Bytes, text, ◌==◌,
  if◌then◌else◌, none, some, length,
}
use ijson.Prelude.Int.{ℤ, pos, negsuc, eqb_ℤ}
use ijson.Slice.{equal_text, is_empty}
use ijson.Buffer.{number}
use ijson.Json.{scan, unescape, left_by_unescape}
use ijson.Broker.{
  net, Connect, M, pure, ◌>>=◌, ◌>>◌, skip, modify, connect, update, set_status, lift,
  write_mode_on,
}
use ijson.Broker.Http.{crlf, reply}
use ijson.Broker.Queues.{get_queue, line, is_waiting_job}
use ijson.Broker.Request.{scan_id, after_job}
use ijson.Broker.Worker.{add_worker, strip_slash}
use ijson.Broker.Answer.{worker_result}
use ijson.Broker.Clean

-- `json.scan()`, on the connection's scanner.
unfoldable pub scan_field : ℕ → M Bool
unfolding scan
scan_field c = do
  k ← connect c
  (found, j) ← lift (scan k.json)
  update c (λ k. record k { json = j })
  pure found

-- The field `name`: the value is copied and unescaped in place, as far as that goes.
unfoldable pub take_name : ℕ → M (Unit {0})
unfolding unescape left_by_unescape
take_name c = do
  k ← connect c
  update c (λ k. record k { name = left_by_unescape k.json.value })
  name ← lift (unescape k.json.value)
  update c (λ k. record k { name = name })

abbrev pub without_ids : Connect → Connect
without_ids k = record k { noid = true; fail_on_disconnect = true }

unfoldable pub take_option : ℕ → M (Unit {0})
take_option c = do
  k ← connect c
  if equal_text k.json.value (text "no_id")
      then update c without_ids
      else if equal_text k.json.value (text "fail_on_disconnect")
      then update c (λ k. record k { fail_on_disconnect = true })
      else skip

unfoldable pub take_field : ℕ → M (Unit {0})
unfolding take_name take_option
take_field c = do
  k ← connect c
  if equal_text k.json.key (text "name")
      then take_name c
      else if equal_text k.json.key (text "info")
      then update c (λ k. record k { info = k.json.value })
      else if equal_text k.json.key (text "option")
      then take_option c
      else skip

-- The loop of `rpc_add` over the fields, on fuel: a field takes a byte at least.
unfoldable pub take_fields : ℕ → ℕ → M (Unit {0})
unfolding scan_field take_field
take_fields zero c = skip
take_fields (suc fuel) c =
    let rest = take_fields fuel c in
    do found ← scan_field c; if found then (do take_field c; rest) else skip

-- `rpc_add`
unfoldable pub rpc_add : ℤ → ℕ → M (Unit {0})
unfolding take_fields reply add_worker
rpc_add junk c = do
  k ← connect c
  take_fields (length k.json.unread + 1) c
  k ← connect c
  if is_empty k.name
      then (do
        update c (λ k. record k { worker_mode = false })
        reply c (text "400 No name") (negsuc 32601))
      else (do
        if k.worker_mode then update c without_ids else skip
        add_worker junk k.nloop k.name c)

-- The id of a result: the one given, or the field `id` of a body that is no parameter of a call.
unfoldable pub result_id : ℕ → Bytes → M Bytes
unfolding scan_id
result_id c id = do
  k ← connect c
  if not (is_empty id && k.json.level == 0) then pure id else (do
    (j, found) ← lift (scan_id (length k.json.unread + 1) k.json)
    update c (λ k. record k { json = j })
    pure found)

-- `rpc_result`
unfoldable pub rpc_result : ℕ → Bytes → M (Unit {0})
unfolding result_id worker_result reply
rpc_result c id = do
  id ← result_id c id
  if is_empty id then reply c (text "400 No id") (negsuc 0) else (do
    modify (λ s. record s { stat_result = s.stat_result + 1 })
    r ← worker_result id (some c)
    if eqb_ℤ r (pos 0)
        then reply c (text "200 OK") (pos 1)
        else if eqb_ℤ r (negsuc 1)
        then reply c (text "499 Closed") (negsuc 0)
        else reply c (text "400 Wrong id") (negsuc 0))
  set_status c net

-- The bytes that `pub` sends.
unfoldable pub pub_message : Bytes → Bytes → Bytes
unfolding number
pub_message name body =
    text "HTTP/1.1 200 OK"
    ++ crlf
    ++ text "Connection: keep-alive"
    ++ crlf
    ++ text "Name: "
    ++ name
    ++ crlf
    ++ text "Async: true"
    ++ crlf
    ++ (if length body == 0
        then text "Content-Length: 0" ++ crlf ++ crlf
        else text "Content-Length: " ++ number (pos (length body)) ++ crlf ++ crlf ++ body)

abbrev pub push_message : ℕ → Bytes → M (Unit {0})
push_message w message =
    update w (λ k. record k { direct_message = k.direct_message ++ message ∷ [] })

-- A worker that waits for a job gets the message as its job; one without ids that does not wait gets
-- it later.
unfoldable pub publish_one : Bytes → ℕ → M (Unit {0})
unfolding write_mode_on
publish_one message w = do
  k ← connect w
  if is_waiting_job k.status
      then (do
        update w (λ k. record k { status = after_job k })
        push_message w message
        write_mode_on w)
      else if k.noid
      then push_message w message
      else skip

-- The loop of `pub` over the workers of the queue.
unfoldable pub pub_loop : Bytes → List ℕ → M (Unit {0})
unfolding publish_one
pub_loop message [] = skip
pub_loop message (w ∷ ws) = do publish_one message w; pub_loop message ws

-- `pub`
unfoldable pub publish_to : ℕ → Bytes → M (Unit {0})
unfolding get_queue reply pub_message pub_loop
publish_to c name = do
  found ← get_queue name false
  elim found [
    | none ↦ reply c (text "404 Not Found") (negsuc 32600)
    | some q ↦ (do
      k ← connect c
      l ← line q
      pub_loop (pub_message name k.body) l.workers
      reply c (text "200 OK") (pos 1))
  ]

-- `create_queue`
unfoldable pub create_queue : ℕ → Bytes → M (Unit {0})
unfolding get_queue reply
create_queue c name =
    if is_empty name
    then reply c (text "400 Wrong queue") (negsuc 32599)
    else (do _ ← get_queue (strip_slash name) true; reply c (text "200 OK") (pos 1))

-- `delete_queue`
unfoldable pub delete_queue : ℕ → Bytes → M (Unit {0})
unfolding Clean.delete_queue reply
delete_queue c name =
    if is_empty name
    then reply c (text "400 Wrong queue") (negsuc 32599)
    else (do Clean.delete_queue (strip_slash name); reply c (text "200 OK") (pos 1))
