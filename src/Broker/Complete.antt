-- ===== src/Broker/Complete.antt =====
-- `header_completed` of src/connect.cpp: what a complete request asks for.
use ijson.Prelude.{
  ℕ, zero, suc, ◌+◌, Bool, true, false, not, ◌&&◌, ◌||◌, [], Bytes, text, ◌==◌, if◌then◌else◌,
  length,
}
use ijson.Prelude.Int.{ℤ, pos, negsuc, eqb_ℤ}
use ijson.Slice.{equal_text, is_empty}
use ijson.Json.{load}
use ijson.Broker.{
  Status, net, worker_mode_async, RequestType, no_type, get, get_plus, worker, async, publish,
  result, create, del, M, pure, ◌>>=◌, ◌>>◌, skip, modify, connect, update, set_status,
}
use ijson.Broker.Http.{status, done_body, reply}
use ijson.Broker.Request.{client_request, is_some}
use ijson.Broker.Worker.{pop_item, strip_slash}
use ijson.Broker.Answer.{worker_result_noid}
use ijson.Broker.Rpc.{
  scan_field, rpc_add, rpc_result, publish_to, create_queue, delete_queue, without_ids,
}
use ijson.Broker.Details.{send_details, send_help}

abbrev pub is_async : Status → Bool
is_async worker_mode_async = true
is_async _ = false

abbrev pub is_result : RequestType → Bool
is_result result = true
is_result _ = false

-- A request in the worker mode: the result, and the next job or the end of the mode.
unfoldable pub worker_request : ℤ → ℕ → M (Unit {0})
unfolding worker_result_noid pop_item reply rpc_add
worker_request junk c = do
  k ← connect c
  if is_async k.status then skip else (do _ ← worker_result_noid c; skip)
  k ← connect c
  if equal_text k.header_option (text "stop")
      then (do
        if is_some k.worker_item then pop_item c else skip
        update c (λ k. record k { worker_mode = false })
        reply c (text "200 OK") (pos 1)
        set_status c net)
      else rpc_add junk c

-- A request of a worker without ids that has a job: the result.
unfoldable pub noid_request : ℕ → M (Unit {0})
unfolding worker_result_noid reply
noid_request c = do
  k ← connect c
  if not (equal_text k.path (text "rpc/result")) && not (is_result k.type)
      then reply c (text "400 Result expected") (negsuc 0)
      else (do
        r ← worker_result_noid c
        if eqb_ℤ r (pos 0)
            then reply c (text "200 OK") (pos 1)
            else if eqb_ℤ r (negsuc 1)
            then reply c (text "499 Closed") (negsuc 0)
            else skip
        set_status c net)

-- A request with a type.
unfoldable pub typed_request : ℤ → ℕ → RequestType → M (Unit {0})
unfolding client_request rpc_add publish_to rpc_result create_queue delete_queue reply
typed_request junk c t = do
  update c (λ k. record k { name = k.path })
  k ← connect c
  elim t [
    | async ↦ (do
      update c (λ k. record k { no_response = true })
      _ ← client_request k.nloop k.name c
      skip)
    | get_plus ↦ (do update c without_ids; rpc_add junk c)
    | get ↦ rpc_add junk c
    | worker ↦ (do update c (λ k. record k { worker_mode = true }); rpc_add junk c)
    | publish ↦ publish_to c k.name
    | result ↦
        rpc_result c (if is_empty k.id && not (equal_text k.path (text "/")) then k.path else k.id)
    | create ↦ create_queue c k.path
    | del ↦ delete_queue c k.path
    | no_type ↦ reply c (text "400 Wrong type") (negsuc 32601)
  ]

-- The fields of `rpc/call`: the method, the id and the parameters.
pub record Call : Type 0 where
  pub method : Bytes
  pub id : Bytes
  pub params : Bytes

unfoldable pub call_field : ℕ → Call → M Call
call_field c call = do
  k ← connect c
  if equal_text k.json.key (text "method")
      then pure (record call { method = k.json.value })
      else if equal_text k.json.key (text "id") && is_empty call.id
      then (do
        update c (λ k. record k { id = k.json.value })
        pure (record call { id = k.json.value }))
      else if equal_text k.json.key (text "params")
      then pure (record call { params = k.json.value })
      else pure call

-- The loop over the fields, on fuel: a field takes a byte at least.
unfoldable pub call_fields : ℕ → ℕ → Call → M Call
unfolding scan_field call_field
call_fields zero c call = pure call
call_fields (suc fuel) c call =
    let rest = call_fields fuel c in
    do found ← scan_field c; if found then (do next ← call_field c call; rest next) else pure call

-- A request by the name of a method.
unfoldable pub method_request : ℤ → Bytes → ℕ → Bytes → Bytes → M (Unit {0})
unfolding rpc_add rpc_result send_details send_help client_request
method_request junk version c method id =
    if equal_text method (text "rpc/worker")
    then (do update c (λ k. record k { worker_mode = true }); rpc_add junk c)
    else if equal_text method (text "rpc/add")
    then rpc_add junk c
    else if equal_text method (text "rpc/result")
    then rpc_result c id
    else if equal_text method (text "rpc/details")
    then send_details version c
    else if equal_text method (text "/") || equal_text method (text "rpc/help")
    then send_help version c
    else (do
      update c (λ k. record k { no_response = equal_text k.header_option (text "async") })
      k ← connect c
      _ ← client_request k.nloop method c
      skip)

-- `rpc/call`
unfoldable pub call_request : ℤ → Bytes → ℕ → M (Unit {0})
unfolding call_fields load method_request reply
call_request junk version c = do
  k ← connect c
  call ← call_fields (length k.json.unread + 1) c (record { method = []; id = k.id; params = [] })
  if is_empty call.params
      then skip
      else update c (λ k. record k { json = load k.json call.params 1 })
  if is_empty (strip_slash call.method)
      then reply c (text "400 No method") (negsuc 32600)
      else method_request junk version c (strip_slash call.method) call.id

-- A request of a client, or of a worker that has no job.
unfoldable pub plain_request : ℤ → Bytes → ℕ → M (Unit {0})
unfolding load typed_request call_request method_request
plain_request junk version c = do
  update c (λ k. record k { json = load k.json k.body 0 })
  k ← connect c
  elim k.type [
    | no_type ↦
        if equal_text k.path (text "rpc/call")
        then call_request junk version c
        else method_request junk version c k.path k.id
    | t ↦ typed_request junk c t
  ]

-- `header_completed`, without what it logs.
unfoldable pub header_completed : ℤ → Bytes → ℕ → M (Unit {0})
unfolding status done_body worker_request noid_request plain_request
header_completed junk version c = do
  modify (λ s. record s { stat_request = s.stat_request + 1 })
  update c (λ k. record k { keep_alive = k.http_version == 11 })
  k ← connect c
  if equal_text k.path (text "echo")
      then (do status c (text "200 OK"); done_body c (text "ok"))
      else if k.worker_mode
      then worker_request junk c
      else if k.noid
      then noid_request c
      else plain_request junk version c
