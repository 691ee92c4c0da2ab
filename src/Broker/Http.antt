-- ===== src/Broker/Http.antt =====
-- HttpSender of src/connect.cpp: the bytes of an answer.
use ijson.Prelude.{[], ◌∷◌, ◌++◌, ℕ, Bytes, text, ◌==◌, if◌then◌else◌, length, exception}
use ijson.Prelude.Int.{ℤ, pos, negsuc, eqb_ℤ}
use ijson.Buffer.{number}
use ijson.Broker.{M, ◌>>=◌, ◌>>◌, connect, update, throw, gets, write_mode_on}

abbrev pub crlf : Bytes
crlf = b'\r' ∷ b'\n' ∷ []

-- `send_buffer.add`
abbrev pub add : ℕ → Bytes → M (Unit {0})
add c s = update c (λ k. record k { send_buffer = k.send_buffer ++ s })

-- `status`
unfoldable pub status : ℕ → Bytes → M (Unit {0})
status c line = do
  k ← connect c
  add c (
      text "HTTP/1.1 "
      ++ line
      ++ crlf
      ++ (if k.keep_alive then text "Connection: keep-alive" ++ crlf else []))

-- `header`
unfoldable pub header : ℕ → Bytes → Bytes → M (Unit {0})
header c key value = add c (key ++ text ": " ++ value ++ crlf)

-- `done(body)`
unfoldable pub done_body : ℕ → Bytes → M (Unit {0})
unfolding write_mode_on number
done_body c body = do
  k ← connect c
  if k.closed then throw exception else (do
    add c (
        if length body == 0
        then text "Content-Length: 0" ++ crlf ++ crlf
        else text "Content-Length: " ++ number (pos (length body)) ++ crlf ++ crlf ++ body)
    write_mode_on c)

-- `done()`
unfoldable pub done : ℕ → M (Unit {0})
unfolding write_mode_on
done c = do
  k ← connect c
  if k.closed
      then throw exception
      else (do add c (text "Content-Length: 0" ++ crlf ++ crlf); write_mode_on c)

-- The messages of `done(error)`.
unfoldable pub error_message : ℤ → Bytes
error_message e =
    if eqb_ℤ e (negsuc 32699)
    then text
        "{\"jsonrpc\": \"2.0\", \"error\": {\"code\": -32700, \"message\": \"Parse error\"}, \"id\": null}"
    else if eqb_ℤ e (negsuc 32599)
    then text
        "{\"jsonrpc\": \"2.0\", \"error\": {\"code\": -32600, \"message\": \"Invalid Request\"}, \"id\": null}"
    else if eqb_ℤ e (negsuc 32600)
    then text
        "{\"jsonrpc\": \"2.0\", \"error\": {\"code\": -32601, \"message\": \"Method not found\"}, \"id\": null}"
    else if eqb_ℤ e (negsuc 32601)
    then text
        "{\"jsonrpc\": \"2.0\", \"error\": {\"code\": -32602, \"message\": \"Invalid params\"}, \"id\": null}"
    else if eqb_ℤ e (negsuc 0)
    then text
        "{\"jsonrpc\": \"2.0\", \"error\": {\"code\": -32001, \"message\": \"Error, see http code\"}, \"id\": null}"
    else if eqb_ℤ e (pos 1)
    then text "{\"jsonrpc\": \"2.0\", \"result\": true, \"id\": null}"
    else text
        "{\"jsonrpc\": \"2.0\", \"error\": {\"code\": -32603, \"message\": \"Internal error\"}, \"id\": null}"

-- `done(error)`
unfoldable pub done_error : ℕ → ℤ → M (Unit {0})
unfolding done done_body error_message
done_error c e = do
  rpc ← gets (λ s. s.jsonrpc2)
  if rpc then done_body c (error_message e) else done c

-- `status(…)->done(error)`
unfoldable pub reply : ℕ → Bytes → ℤ → M (Unit {0})
unfolding status done_error
reply c line e = do status c line; done_error c e
