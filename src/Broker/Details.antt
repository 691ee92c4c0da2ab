-- ===== src/Broker/Details.antt =====
-- The reports of src/connect.cpp: `send_details` and `send_help`. The version is set by the build. The
-- block of the buffer is followed where `escape`, which does not make it grow, writes into it.
use ijson.Prelude.{
  ℕ, ◌+◌, ◌-◌, Bool, true, false, List, [], ◌∷◌, ◌++◌, Bytes, text, if◌then◌else◌, Option, none,
  some, length, replicate, Result, ok, err,
}
use ijson.Prelude.Int.{ℤ, pos, sub_ℕ, leb_ℤ}
use ijson.Slice.{is_empty, compare}
use ijson.Buffer.{Buffer, empty_buffer, number, resize, resize_to, add, add_text, add_number}
use ijson.Json.{escape}
use ijson.Broker.{Connect, Queue, QueueLine, Server, M, fault, ◌>>=◌, ◌>>◌, gets}
use ijson.Broker.Http.{status, done_body}
use ijson.Broker.Queues.{upto}

abbrev quote : Bytes
quote = b'"' ∷ []

abbrev newline : Bytes
newline = b'\n' ∷ []

-- The buffer of a report; `none` after a write past the end of its block.
abbrev Report : Type 0
Report = Option Buffer

infixl 4 ◌▷◌
abbrev ◌▷◌ : Report → (Report → Report) → Report
r ▷ f = f r

-- `res.add("…")`, and of a slice, which has a pointer here.
unfoldable pub add_chars : Bytes → Report → Report
unfolding add_text
add_chars s none = none
add_chars s (some b) = some (add_text b s)

abbrev written : Result Buffer → Report
written (ok b) = some b
written (err e) = none

unfoldable pub add_slice : Bytes → Report → Report
unfolding add
add_slice s none = none
add_slice s (some b) = written (add b (some s))

-- `res.add_number(n)`
unfoldable pub add_integer : ℤ → Report → Report
unfolding add_number
add_integer n none = none
add_integer n (some b) = written (add_number b n)

-- `int start = res.size(); res.add(s); json::escape(res, start)`
unfoldable pub add_escaped : Bytes → Report → Report
unfolding escape add_slice
add_escaped s none = none
add_escaped s (some b) = elim (add_slice s (some b)) [
  | none ↦ none
  | some b' ↦ escape b' (length b.content)
]

-- The loop over the workers of one queue; `first` before the first id of the line.
unfoldable pub add_ids : (ℕ → Connect) → List ℕ → Bool × Report → Bool × Report
unfolding add_escaped add_slice
add_ids f [] r = r
add_ids f (w ∷ ws) (first, res) =
    let id = (f w).connection_id in
    let opened = res ▷ add_slice (if first then quote else b',' ∷ quote) in
    let named = if is_empty id then opened else add_escaped id opened in
    add_ids f ws (false, named ▷ add_slice quote)

-- The same over the loops' queues.
unfoldable pub add_line_ids : (ℕ → Connect) → (ℕ → Queue) → List ℕ → Bool × Report → Bool × Report
unfolding add_ids
add_line_ids f queue [] r = r
add_line_ids f queue (i ∷ is) r = add_line_ids f queue is (add_ids f (queue i).workers r)

unfoldable pub count_workers : (ℕ → Queue) → List ℕ → ℕ
count_workers queue [] = 0
count_workers queue (i ∷ is) = length (queue i).workers + count_workers queue is

unfoldable pub count_clients : (ℕ → Queue) → List ℕ → ℕ
count_clients queue [] = 0
count_clients queue (i ∷ is) = length (queue i).clients + count_clients queue is

abbrev natural : ℕ → Bytes
natural n = number (pos n)

-- One queue line.
unfoldable pub add_line : ℕ → (ℕ → Connect) → QueueLine → Report → Report
unfolding add_chars add_slice add_integer upto add_line_ids count_workers count_clients add_escaped
add_line threads f l res =
    let loops = upto 0 threads in
    let begun =
      res
      ▷ add_chars quote
      ▷ add_slice l.name
      ▷ add_chars (text "\":{\"last_worker\":")
      ▷ add_integer (pos l.last_worker)
      ▷ add_chars (text ",\"worker_ids\":[") in
    let counted =
      (add_line_ids f l.queue loops (true, begun)).1
      ▷ add_chars (text "],\"workers\":")
      ▷ add_integer (pos (count_workers l.queue loops))
      ▷ add_chars (text ",\"clients\":")
      ▷ add_integer (pos (count_clients l.queue loops)) in
    let informed =
      counted ▷ add_chars (text ",\"info\":\"") ▷ add_escaped l.info ▷ add_chars quote in
    (if is_empty l.info then counted else informed) ▷ add_chars (text "}," ++ newline)

unfoldable pub add_lines : ℕ → (ℕ → Connect) → List (Option QueueLine) → Report → Report
unfolding add_line
add_lines threads f [] res = res
add_lines threads f (none ∷ ls) res = add_lines threads f ls res
add_lines threads f (some l ∷ ls) res = add_lines threads f ls (add_line threads f l res)

-- The numbers of the server.
unfoldable pub details_head : Bytes → Server → Report → Report
unfolding add_chars add_integer
details_head version s res =
    res
    ▷ add_chars (text "{\"$info\":{")
    ▷ add_chars (text "\"version\":\"")
    ▷ add_chars version
    ▷ add_chars (text "\",\"uptime\":")
    ▷ add_integer (sub_ℕ s.now s.stat_starttime)
    ▷ add_chars (text ",\"connect\":")
    ▷ add_integer (pos s.stat_connect)
    ▷ add_chars (text ",\"request\":")
    ▷ add_integer (pos s.stat_request)
    ▷ add_chars (text ",\"call\":")
    ▷ add_integer (pos s.stat_call)
    ▷ add_chars (text ",\"result\":")
    ▷ add_integer (pos s.stat_result)
    ▷ add_chars (text ",\"recv\":")
    ▷ add_integer (pos s.stat_recv)
    ▷ add_chars (text ",\"send\":")
    ▷ add_integer (pos s.stat_send)
    ▷ add_chars (text ",\"io_event\":")
    ▷ add_integer (pos s.stat_ioevent)
    ▷ add_chars (text "}," ++ newline)

-- The last comma and newline are cut off.
unfoldable pub cut_comma : Report → Report
unfolding resize_to
cut_comma none = none
cut_comma (some b) = resize_to b 0 (length b.content - 2)

unfoldable pub details : Bytes → Server → Report
unfolding details_head add_lines cut_comma add_chars resize empty_buffer
details version s =
    some (resize empty_buffer 256)
    ▷ details_head version s
    ▷ add_lines s.threads s.connects s.queue_list
    ▷ cut_comma
    ▷ add_chars (b'}' ∷ [])

-- `send_details`
unfoldable pub send_details : Bytes → ℕ → M (Unit {0})
unfolding details status done_body
send_details version c = do
  report ← gets (details version)
  elim report [ none ↦ wild | some b ↦ (do status c (text "200 OK"); done_body c b.content) ]
  where
    wild : M (Unit {0})
    wild _ = fault

abbrev pub help_msg : Bytes
help_msg =
    text "\n\nType of request (header type/x-type):\n"
    ++ text "  \"type: get\" - get a task\n"
    ++ text "  \"type: get+\" - get a task with keep-alive\n"
    ++ text "  \"type: worker\" - worker mode\n"
    ++ text "  \"type: async\" - send a command async\n"
    ++ text "  \"type: pub\" - publish a message (send message to all workers)\n"
    ++ text "  \"type: result\" - result from worker to client\n"
    ++ text "  \"type: create\" - create a queue\n"
    ++ text "  \"type: delete\" - delete a queue\n\n"
    ++ text "Another options (header):\n"
    ++ text "  \"priority: 15\" - set priority for request\n"
    ++ text "  \"set-id: 15\" - set id for worker\n"
    ++ text "  \"worker-id: 15\" - call worker with specific id\n"
    ++ text "  \"timeout: 60\" - timeout for worker in sec\n\n"
    ++ text "rpc/details  - get details in json\n\n"

-- The queue lines in the order of their names.
unfoldable pub insert_line : QueueLine → List QueueLine → List QueueLine
unfolding compare
insert_line l [] = l ∷ []
insert_line l (k ∷ ks) =
    let rest = insert_line l ks in
    if leb_ℤ (compare l.name k.name) (pos 0) then l ∷ k ∷ ks else k ∷ rest

unfoldable pub sorted_lines : List (Option QueueLine) → List QueueLine
unfolding insert_line
sorted_lines [] = []
sorted_lines (none ∷ ls) = sorted_lines ls
sorted_lines (some l ∷ ls) = insert_line l (sorted_lines ls)

-- The line of a queue in the help.
unfoldable pub help_line : ℕ → QueueLine → Bytes
unfolding number upto count_workers count_clients
help_line threads l =
    let loops = upto 0 threads in
    l.name
    ++ replicate (20 - length l.name) b' '
    ++ b' ' ∷ natural (count_clients l.queue loops)
    ++ b'/' ∷ natural (count_workers l.queue loops)
    ++ (if is_empty l.info then [] else text "  " ++ l.info)
    ++ newline

unfoldable pub help_lines : ℕ → List QueueLine → Bytes
unfolding help_line
help_lines threads [] = []
help_lines threads (l ∷ ls) = help_line threads l ++ help_lines threads ls

-- `send_help`
unfoldable pub send_help : Bytes → ℕ → M (Unit {0})
unfolding sorted_lines help_lines status done_body
send_help version c = do
  lines ← gets (λ s. help_lines s.threads (sorted_lines s.queue_list))
  status c (text "200 OK")
  done_body c (text "ijson " ++ version ++ help_msg ++ lines)
