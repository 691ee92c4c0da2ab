-- ===== src/Broker/Worker.antt =====
-- `Loop::add_worker` and `_add_worker` of src/server.cpp, and the WorkerList of src/workerlist.cpp
-- as far as they use it. Deleted messages give back their links at the end, as the GC object does.
use ijson.Prelude.{
  ℕ, zero, suc, ◌+◌, Bool, true, false, not, ◌&&◌, ◌||◌, List, [], ◌∷◌, ◌++◌, Bytes, text, ◌==◌,
  if◌then◌else◌, Option, none, some, length, Error, no_data, invalid_data, exception,
}
use ijson.Prelude
use ijson.Prelude.Int.{ℤ, pos, negsuc, eqb_ℤ}
use ijson.Slice.{equal, is_empty}
use ijson.Json.{unescape}
use ijson.Broker.{
  Status, net, worker_wait_job, worker_wait_result, busy, Message, fault, M, pure, ◌>>=◌, ◌>>◌,
  skip, gets, modify, connect, update, set_status, link, unlink, noexcept, generate_id,
  find_waiting, put_waiting, write_mode_on,
}
use ijson.Broker.Http.{status, header, done_body, reply}
use ijson.Broker.Queues.{
  get_queue, line, update_line, set_clients, set_workers, loop_order, passes_over,
  is_waiting_result,
}
use ijson.Broker.Request.{find_id, after_job, is_some}

unfoldable pub without : ℕ → List ℕ → List ℕ
without c [] = []
without c (x ∷ xs) = if x == c then xs else x ∷ without c xs

-- `WorkerList::push`
unfoldable pub push_item : ℕ → ℕ → M (Unit {0})
unfolding link
push_item q c = do
  link c
  update_line q (λ l. record l { workers = c ∷ l.workers })
  update c (λ k. record k { worker_item = some q })

-- `WorkerItem::pop`, with the destructor, which no exception leaves.
unfoldable pub pop_item : ℕ → M (Unit {0})
unfolding unlink noexcept without
pop_item c = do
  k ← connect c
  elim k.worker_item [
    | none ↦ fault_step
    | some q ↦ (do
      update_line q (λ l. record l { workers = without c l.workers })
      noexcept (unlink c)
      update c (λ k. record k { worker_item = none }))
  ]
  where
    fault_step : M (Unit {0})
    fault_step _ = fault

-- The info text of the queue; one that cannot be unescaped is dropped.
unfoldable pub clean_info : Bytes → Bytes
unfolding unescape
clean_info s = elim (unescape s) [ Prelude.ok t ↦ t | Prelude.err e ↦ [] ]

abbrev pub Kept : Type 0
Kept = List Message × List Message × Option Message

-- The loop of `_add_worker` over the messages of one queue: those that stay, those that are
-- deleted, and the one that is taken. A client that is taken is `busy`.
unfoldable pub take_message : ℕ → List Message → M Kept
unfolding find_id reply find_waiting
take_message worker [] = pure ([], [], none)
take_message worker (m ∷ ms) =
    let rest = take_message worker ms in
    let keep = (do (kept, gone, found) ← rest; pure (m ∷ kept, gone, found)) in
    let drop = (do (kept, gone, found) ← rest; pure (kept, m ∷ gone, found)) in
    let take = pure (ms, m ∷ [], some m) in
    let check = λ (client : ℕ). (do
      c ← connect client
      taken ← gets (λ s. is_some (find_waiting c.id s.wait_response))
      if not taken then take else (do
        reply client (text "400 Collision Id") (negsuc 0)
        set_status client net
        drop)) in
    do
      w ← connect worker
      if passes_over m.required_worker w.connection_id then keep else elim m.conn [
        | none ↦ take
        | some client ↦ (do
          c ← connect client
          if c.closed || not (is_waiting_result c.status) then drop else (do
            set_status client busy
            if w.noid then take else (do
              found ← find_id client
              if found
                  then check client
                  else (do reply client (text "400 No Id") (negsuc 0); drop))))
      ]

-- The loop over the loops' queues: the deleted messages, and the one that is taken.
unfoldable pub find_message : ℕ → ℕ → List ℕ → M (List Message × Option Message)
unfolding take_message
find_message q worker [] = pure ([], none)
find_message q worker (r ∷ rs) = do
  l ← line q
  (kept, gone, found) ← take_message worker (l.queue r).clients
  set_clients q r kept
  elim found [
    | some m ↦ pure (gone, some m)
    | none ↦ (do (more, m) ← find_message q worker rs; pure (gone ++ more, m))
  ]

-- The worker gets the job of an async message. `result` is not set: `junk` is what it holds.
unfoldable pub take_async : ℤ → ℕ → Message → M ℤ
unfolding status header done_body
take_async junk worker m = do
  update worker (λ k. record k { status = after_job k })
  status worker (text "200 OK")
  header worker (text "Name") m.name
  header worker (text "Async") (text "true")
  done_body worker m.buf
  pure junk

-- The worker gets the job of a client that waits.
unfoldable pub take_client : ℕ → ℕ → M ℤ
unfolding link status header done_body put_waiting
take_client worker client = do
  w ← connect worker
  if w.fail_on_disconnect
      then (do update worker (λ k. record k { client = some client }); link client)
      else skip
  c ← connect client
  if w.noid
      then (do
        set_status worker worker_wait_result
        status worker (text "200 OK")
        header worker (text "Name") c.name
        done_body worker c.body
        pure (pos 1))
      else (do
        status worker (text "200 OK")
        header worker (text "Id") c.id
        header worker (text "Name") c.name
        done_body worker c.body
        modify (λ s. record s { wait_response = put_waiting c.id client s.wait_response })
        link client
        set_status worker net
        pure (pos 1))

-- The closed workers, and this one, leave the queue.
unfoldable pub drop_workers : ℕ → List ℕ → M (List ℕ)
unfolding unlink
drop_workers worker [] = pure []
drop_workers worker (c ∷ cs) =
    let rest = drop_workers worker cs in
    do
      k ← connect c
      if k.closed || c == worker then (do unlink c; rest) else (do kept ← rest; pure (c ∷ kept))

-- No message: the worker waits.
unfoldable pub wait_job : ℕ → ℕ → ℕ → M ℤ
unfolding drop_workers link
wait_job nloop q worker = do
  l ← line q
  kept ← drop_workers worker (l.queue nloop).workers
  set_workers q nloop (kept ++ worker ∷ [])
  link worker
  set_status worker worker_wait_job
  pure (pos 0)

abbrev waits_job : Status → Bool
waits_job worker_wait_job = true
waits_job _ = false

-- The worker's place in the list that `pub` goes through.
unfoldable pub register : ℕ → Bytes → ℕ → M (Unit {0})
unfolding push_item
register q name worker = do
  k ← connect worker
  if is_some k.worker_item then skip else (do
    if k.worker_mode || k.noid || waits_job k.status then push_item q worker else skip
    if not k.worker_mode && k.noid
        then update worker (λ k. record k { worker_sub_name = name })
        else skip)

-- The destructors of the deleted messages.
unfoldable pub release : List Message → M (Unit {0})
unfolding unlink noexcept
release [] = skip
release (m ∷ ms) = elim m.conn [ none ↦ release ms | some c ↦ (do noexcept (unlink c); release ms) ]

-- `_add_worker` after the checks: a job, or a place in the queue.
unfoldable pub serve : ℤ → ℕ → ℕ → Bytes → ℕ → M ℤ
unfolding find_message loop_order take_async take_client wait_job register release
serve junk nloop q name worker = do
  now ← gets (λ s. s.now)
  update_line q (λ l. record l { last_worker = now })
  n ← gets (λ s. s.threads)
  (gone, found) ← find_message q worker (loop_order nloop n)
  result ← elim found [
    | none ↦ wait_job nloop q worker
    | some m ↦ elim m.conn [ none ↦ take_async junk worker m | some c ↦ take_client worker c ]
  ]
  register q name worker
  release gone
  pure result

abbrev pub strip_slash : Bytes → Bytes
strip_slash [] = []
strip_slash (a ∷ s) = if a == b'/' then s else a ∷ s

-- `_add_worker`
unfoldable pub add_one : ℤ → ℕ → Bytes → ℕ → M ℤ
unfolding get_queue clean_info generate_id pop_item write_mode_on serve
add_one junk nloop name worker = do
  let name = strip_slash name
  found ← get_queue name true
  elim found [
    | none ↦ fault_step
    | some q ↦ (do
      k ← connect worker
      if is_empty k.info then skip else update_line q (λ l. record l { info = clean_info k.info })
      if is_empty k.connection_id
          then (do id ← generate_id; update worker (λ k. record k { connection_id = id }))
          else skip
      if not k.worker_mode && is_some k.worker_item && not (equal k.worker_sub_name name)
          then (do pop_item worker; update worker (λ k. record k { direct_message = [] }))
          else skip
      k ← connect worker
      if Prelude.is_nil k.direct_message
          then serve junk nloop q name worker
          else (do write_mode_on worker; pure (pos 1)))
  ]
  where
    fault_step : M ℤ
    fault_step _ = fault

-- The names of `add_worker`: each separator ends one; the last is none if it is empty.
unfoldable pub split_names : Bytes → Bytes → List Bytes
split_names [] [] = []
split_names (a ∷ s) [] = (a ∷ s) ∷ []
split_names part (a ∷ s) =
    let ended = split_names [] s in
    let more = split_names (part ++ a ∷ []) s in
    if a == b',' || a == b' ' then part ∷ ended else more

-- The loop of `add_worker`: the worker is taken once a name's result is 1.
unfoldable pub add_names : ℤ → ℕ → List Bytes → ℕ → M (Unit {0})
unfolding add_one
add_names junk nloop [] worker = skip
add_names junk nloop (n ∷ ns) worker = do
  r ← add_one junk nloop n worker
  if eqb_ℤ r (pos 1) then skip else add_names junk nloop ns worker

unfoldable pub add_worker : ℤ → ℕ → Bytes → ℕ → M (Unit {0})
unfolding split_names add_names
add_worker junk nloop name worker = add_names junk nloop (split_names [] name) worker
