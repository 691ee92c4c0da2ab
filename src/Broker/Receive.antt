-- ===== src/Broker/Receive.antt =====
-- `on_recv` and `on_send` of src/connect.cpp. What is left of a request for the next call is kept as
-- bytes, also where the source keeps a pointer into memory that it may use again.
pub mod Rounds
use ijson.Prelude.{
  ℕ, zero, suc, ◌+◌, ◌-◌, ◌%◌, ◌^◌, Bool, true, false, not, ◌&&◌, ◌||◌, List, [], ◌∷◌, ◌++◌, Bytes,
  text, ltb, ◌==◌, if◌then◌else◌, Option, none, some, length, take, drop, exception, invalid_data,
}
use ijson.Prelude.Int.{ℤ, pos, negsuc, ◌-ℤ◌, eqb_ℤ, leb_ℤ}
use ijson.Slice.{is_empty, pop_line, rstrip}
use ijson.Json.{reset}
use ijson.Broker.{
  Status, net, worker_wait_result, worker_mode_async, no_type, HttpStep, http_start, http_header,
  http_read_body, http_request_completed, Connect, Server, fault, M, pure, ◌>>=◌, ◌>>◌, throw, skip,
  gets, modify, connect, update, close, catch_invalid, unlink, write_mode_off,
}
use ijson.Broker.Http.{reply}
use ijson.Broker.Answer.{is_waiting_for_result}
use ijson.Broker.Complete.{header_completed, is_async}
use ijson.Broker.Parse.{read_method, read_header}

abbrev pub is_net : Status → Bool
is_net net = true
is_net _ = false

-- Whether the connection reads a request now.
abbrev pub reads : Connect → Bool
reads k =
    is_net k.status
    || (is_waiting_for_result k.status && k.noid)
    || (is_async k.status && k.worker_mode)

abbrev pub set_step : ℕ → HttpStep → M (Unit {0})
set_step c step = update c (λ k. record k { http_step = step })

abbrev pub keep_bytes : ℕ → Bytes → M (Unit {0})
keep_bytes c s = update c (λ k. record k { buffer = k.buffer ++ s })

abbrev pub invalid : ℕ → M (Unit {0})
invalid c = reply c (text "400 Invalid data") (negsuc 32699)

-- `header_completed` in its `try` block.
unfoldable pub complete : ℤ → Bytes → ℕ → M (Unit {0})
unfolding header_completed reply
complete junk version c = catch_invalid (header_completed junk version c) (invalid c)

-- The fields of a new request, but for the flags of a worker.
abbrev pub cleared : Connect → Connect
cleared k = record k {
  body = [];
  id = [];
  header_option = [];
  info = [];
  json = reset k.json;
  name = if k.worker_mode then k.name else [];
  content_length = pos 0;
  priority = pos 0;
  required_worker = [];
  no_response = false;
  type = no_type;
}

-- The flags of a worker at a new request.
unfoldable pub reset_worker : ℕ → M (Unit {0})
unfolding unlink
reset_worker c = do
  k ← connect c
  if is_waiting_for_result k.status
      then (if k.noid then skip else throw exception)
      else if k.worker_mode
      then (if is_async k.status then skip else throw exception)
      else (do
        update c (λ k. record k { fail_on_disconnect = false })
        elim k.client [ none ↦ skip | some d ↦ unlink d ]
        update c (λ k. record k { client = none; noid = false }))

-- The request line; `false` closes the connection.
unfoldable pub start_request : ℕ → Bytes → M Bool
unfolding reset reset_worker read_method
start_request c line = do
  update c cleared
  reset_worker c
  good ← read_method c line
  if good then (do set_step c http_header; pure true) else (do close c; pure false)

-- One line that is not empty; `false` ends `on_recv`.
unfoldable pub take_line : ℕ → Bytes → M Bool
unfolding start_request read_header reply
take_line c line = do
  k ← connect c
  elim k.http_step [
    | http_start ↦ start_request c line
    | http_header ↦ (do catch_invalid (read_header c line) (invalid c); pure true)
    | http_read_body ↦ pure true
    | http_request_completed ↦ pure true
  ]

-- The body as far as it is there, and what is behind it. A negative length is a slice that ends
-- before it begins, which is copied without end.
unfoldable pub take_body : ℕ → Bytes → M Bytes
unfolding ◌-ℤ◌
take_body c input = do
  k ← connect c
  elim k.content_length [
    | negsuc n ↦ wild
    | pos n ↦ if n == 0 then pure input else (do
      update c (λ k. record k { body = take n input })
      if ltb (length (take n input)) n then set_step c http_read_body else skip
      pure (drop n input))
  ]
  where
    wild : M Bytes
    wild _ = fault

abbrev pub is_completed : HttpStep → Bool
is_completed http_request_completed = true
is_completed _ = false

abbrev pub is_header : HttpStep → Bool
is_header http_header = true
is_header _ = false

-- The empty line: the bytes of the next request, if it is to be read at once, or what is left.
unfoldable pub end_headers : ℤ → Bytes → ℕ → Bytes → M (Bool × Bytes)
unfolding take_body complete
end_headers junk version c input = do
  k ← connect c
  if not (is_header k.http_step) then throw invalid_data else (do
    set_step c http_request_completed
    input ← take_body c input
    update c (λ k. record k { buffer = [] })
    k ← connect c
    if not (is_completed k.http_step) then pure (false, input) else (do
      complete junk version c
      k ← connect c
      if is_empty input
          then pure (false, input)
          else if is_net k.status
          then (do set_step c http_start; pure (true, input))
          else throw exception))

-- A round of the loop over the lines: what follows it is `more`, and `none` ends `on_recv`.
unfoldable pub round :
    (Bytes → M (Option Bytes)) → ℤ → Bytes → ℕ → Bytes → Option (Bytes × Bytes) → M (Option Bytes)
unfolding rstrip take_line end_headers
round more junk version c input none = pure (some input)
round more junk version c input (some (line, rest)) =
    if is_empty (rstrip line)
    then (do
      (again, left) ← end_headers junk version c rest
      if again then more left else pure (some left))
    else (do going ← take_line c (rstrip line); if going then more rest else pure none)

-- The loop over the lines, on fuel: a line takes a byte at least.
unfoldable pub take_lines : ℕ → ℤ → Bytes → ℕ → Bytes → M (Option Bytes)
unfolding pop_line round
take_lines zero junk version c input = pure (some input)
take_lines (suc fuel) junk version c input =
    round (take_lines fuel junk version c) junk version c input (pop_line input)

-- After the loop: the start of a line is kept.
unfoldable pub finish_recv : ℕ → Bytes → M (Unit {0})
finish_recv c input = do
  k ← connect c
  elim k.http_step [
    | http_request_completed ↦ set_step c http_start
    | http_read_body ↦ skip
    | http_start ↦ keep_bytes c input
    | http_header ↦ keep_bytes c input
  ]

unfoldable pub recv_lines : ℤ → Bytes → ℕ → Bytes → M (Unit {0})
unfolding take_lines finish_recv
recv_lines junk version c input = do
  left ← take_lines (length input + 1) junk version c input
  elim left [ none ↦ skip | some input ↦ finish_recv c input ]

-- The bytes of a body that has begun.
unfoldable pub recv_body : ℤ → Bytes → ℕ → Bytes → M (Unit {0})
unfolding ◌-ℤ◌ complete recv_lines
recv_body junk version c input = do
  k ← connect c
  elim (k.content_length -ℤ pos (length k.body)) [
    | negsuc n ↦ wild
    | pos n ↦
        if ltb (length input) n
        then update c (λ k. record k { body = k.body ++ input; buffer = [] })
        else (do
          update c (λ k. record k { body = k.body ++ take n input })
          complete junk version c
          set_step c http_start
          if is_empty (drop n input) then skip else recv_lines junk version c (drop n input))
  ]
  where
    wild : M (Unit {0})
    wild _ = fault

abbrev pub is_body : HttpStep → Bool
is_body http_read_body = true
is_body _ = false

-- `on_recv`
unfoldable pub on_recv : ℤ → Bytes → ℕ → Bytes → M (Unit {0})
unfolding recv_body recv_lines
on_recv junk version c buf = do
  now ← gets (λ s. s.now)
  update c (λ k. if k.ping == 0 then k else record k { ping_timeout = (now + k.ping) % 2 ^ 32 })
  k ← connect c
  if not (reads k) then keep_bytes c buf else (do
    if is_empty k.buffer then skip else keep_bytes c buf
    let input = (if is_empty k.buffer then buf else k.buffer ++ buf)
    if is_body k.http_step then recv_body junk version c input else recv_lines junk version c input)

-- The first message of those that wait, or none.
abbrev sent_now : ℤ → ℕ
sent_now (pos n) = n
sent_now (negsuc n) = 0

unfoldable pub count_sent : ℤ → M (Unit {0})
count_sent sent =
    if leb_ℤ (pos 0) sent
    then modify (λ s. record s { stat_send = s.stat_send + sent_now sent })
    else throw exception

-- The part of `on_send` that calls `send`, which returns `sent`: the number of bytes, or -1.
unfoldable pub send_some : ℤ → ℕ → M (Unit {0})
unfolding count_sent
send_some sent c = do
  k ← connect c
  if is_empty k.send_buffer
      then elim k.direct_message [
        | [] ↦ skip
        | (message ∷ rest) ↦ (do
          update c (λ k. record k { direct_message = rest })
          count_sent sent
          update c (λ k. record k { send_buffer = drop (sent_now sent) message }))
      ]
      else (do
        count_sent sent
        update c (λ k. record k { send_buffer = drop (sent_now sent) k.send_buffer }))

-- `on_send`
unfoldable pub on_send : ℤ → ℕ → M (Unit {0})
unfolding send_some write_mode_off
on_send sent c = do
  send_some sent c
  k ← connect c
  if not (is_empty k.send_buffer) then skip else if k.keep_alive then write_mode_off c else close c
