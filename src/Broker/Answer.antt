-- ===== src/Broker/Answer.antt =====
-- Results and disconnects: `worker_result`, `worker_result_noid`, `on_disconnect` and `migrate` of
-- src/server.cpp.
use ijson.Prelude.{
  ℕ, ◌+◌, Bool, true, false, not, ◌&&◌, [], Bytes, text, ◌==◌, if◌then◌else◌, Option, none, some,
  exception,
}
use ijson.Prelude.Int.{ℤ, pos, negsuc}
use ijson.Slice.{is_empty}
use ijson.Broker.{
  Status, net, worker_wait_result, M, pure, ◌>>=◌, ◌>>◌, throw, skip, gets, modify, connect, update,
  set_status, unlink, find_waiting, erase_waiting,
}
use ijson.Broker.Http.{status, header, done_body, done_error, reply}
use ijson.Broker.Queues.{is_waiting_result}
use ijson.Broker.Request.{is_some}
use ijson.Broker.Worker.{pop_item}

-- `migrate`
unfoldable pub migrate : ℕ → ℕ → M (Unit {0})
migrate w c = do
  k ← connect w
  update w (λ k. record k { go_loop = true })
  update c (λ d. record d { go_loop = true; need_loop = k.need_loop })

abbrev pub migrate_if : ℕ → ℕ → M (Unit {0})
migrate_if w c = do k ← connect w; if not (k.nloop == k.need_loop) then migrate w c else skip

-- `worker_result`; a worker that is gone is `none`.
unfoldable pub worker_result : Bytes → Option ℕ → M ℤ
unfolding find_waiting erase_waiting unlink status header done_body done_error migrate
worker_result id worker = do
  found ← gets (λ s. find_waiting id s.wait_response)
  elim found [
    | none ↦ pure (negsuc 0)
    | some client ↦ (do
      modify (λ s. record s { wait_response = erase_waiting id s.wait_response })
      unlink client
      c ← connect client
      if c.closed then pure (negsuc 1) else (do
        elim worker [
          | some w ↦ (do
            k ← connect w
            status client (text "200 OK")
            header client (text "Id") id
            done_body client k.body)
          | none ↦ (do
            status client (text "503 Service Unavailable")
            header client (text "Id") id
            done_error client (negsuc 0))
        ]
        set_status client net
        elim worker [ some w ↦ migrate_if w client | none ↦ skip ]
        pure (pos 0)))
  ]

-- `worker_result_noid`
unfoldable pub worker_result_noid : ℕ → M ℤ
unfolding unlink status done_body migrate
worker_result_noid worker = do
  modify (λ s. record s { stat_result = s.stat_result + 1 })
  w ← connect worker
  elim w.client [
    | none ↦ throw exception
    | some client ↦ (do
      if w.worker_mode
          then skip
          else update worker (λ k. record k { noid = false; fail_on_disconnect = false })
      update worker (λ k. record k { client = none })
      unlink client
      c ← connect client
      if c.closed then pure (negsuc 1) else (do
        set_status client net
        status client (text "200 OK")
        done_body client w.body
        migrate_if worker client
        pure (pos 0)))
  ]

-- A client that waits under its id is no longer waited for.
unfoldable pub forget_client : ℕ → M (Unit {0})
unfolding find_waiting erase_waiting unlink
forget_client conn = do
  k ← connect conn
  found ← gets (λ s. find_waiting k.id s.wait_response)
  if is_waiting_result k.status && not (is_empty k.id) && is_some found
      then (do
        modify (λ s. record s { wait_response = erase_waiting k.id s.wait_response })
        unlink conn)
      else skip

abbrev pub is_waiting_for_result : Status → Bool
is_waiting_for_result worker_wait_result = true
is_waiting_for_result _ = false

-- The client of a worker with no ids, or of one with ids, hears that the worker is gone.
unfoldable pub fail_client : ℕ → M (Unit {0})
unfolding worker_result reply
fail_client conn = do
  k ← connect conn
  if k.noid
      then (if is_waiting_for_result k.status
          then elim k.client [
            | none ↦ throw exception
            | some client ↦ (do
              c ← connect client
              if c.closed then skip else reply client (text "503 Service Unavailable") (negsuc 0)
              set_status client net)
          ]
          else if is_some k.client
          then throw exception
          else skip)
      else elim k.client [
        | none ↦ skip
        | some client ↦ (do c ← connect client; _ ← worker_result c.id none; skip)
      ]

-- `on_disconnect`
unfoldable pub on_disconnect : ℕ → M (Unit {0})
unfolding pop_item forget_client fail_client unlink
on_disconnect conn = do
  k ← connect conn
  if is_some k.worker_item then pop_item conn else skip
  update conn (λ k. record k { direct_message = [] })
  forget_client conn
  if not k.fail_on_disconnect then skip else (do
    fail_client conn
    k ← connect conn
    elim k.client [
      | none ↦ skip
      | some client ↦ (do unlink client; update conn (λ k. record k { client = none }))
    ])
