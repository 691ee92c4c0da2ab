-- ===== src/Tests/Jobs.antt =====
-- The broker at a server of two connections: 0 is a client with the id "7", 1 is a worker.
use ijson.Prelude.{
  not, ◌||◌, ℕ, ◌+◌, ◌≡◌, refl, arith, true, false, [], ◌∷◌, ◌++◌, List, Bytes, text, ◌==◌,
  if◌then◌else◌, none, some, ok,
}
use ijson.Prelude.Int.{ℤ, pos, negsuc}
use ijson.Slice.{equal, is_empty}
use ijson.Json.{Json}
use ijson.Mapper.{init}
use ijson.Broker.{
  Status, net, worker_wait_job, client_wait_result, new_connect, Connect, Message, Server, ok,
  find_waiting,
}
use ijson.Broker.Clean.{clean_workers}
use ijson.Broker.Drop.{Dropped, clean_workers_lem}
use ijson.Broker.Queues.{is_waiting_job, insert_message}
use ijson.Broker.Request.{scan_id, send_id}
use ijson.Broker.Answer.{worker_result, forget_client}
use ijson.Broker.Deliver.{response, Delivered, worker_result_lem}
use ijson.Broker.Forget.{forget_client_lem}
use ijson.Broker.Ids.{scan_id-fuel}
use ijson.Broker.Job.{Handed, send_id_lem}
use ijson.Broker.Job.Answered.{with_body, send_id-worker_result}
use ijson.Broker.Pick.{Picked, pick_worker_lem}
use ijson.Broker.Priority.{IsOrdered, Inserted, insert_message_lem, insert_message-IsOrdered}

abbrev no_json : Json
no_json = record { key = []; value = []; level = 0; status = 0; source = []; unread = [] }

abbrev id_json : Json
id_json = record {
  key = [];
  value = [];
  level = 0;
  status = 0;
  source = text "{\"id\": 15}";
  unread = text "{\"id\": 15}";
}

abbrev pub connection : Bytes → Status → Connect
connection id status = record (new_connect 0 true false false) {
  link = 1;
  status = status;
  body = text "{}";
  id = id;
  connection_id = text "w";
}

abbrev pub server : (ℕ → Connect) → List (Bytes × ℕ) → Server
server connects waiting = record {
  threads = 1;
  jsonrpc2 = false;
  connects = connects;
  mapper = init;
  queue_list = [];
  wait_response = waiting;
  dead = λ n. [];
  to_send = λ n. [];
  accept_request = λ n. false;
  calls = [];
  freed = [];
  fake_fd = pos 0;
  countdown = 100;
  stat_call = 0;
  stat_result = 0;
  index = 0;
  now = 0;
  random = [];
  connections = λ _. none;
  max_fd = 0;
  active_loop = 0;
  stat_connect = 0;
  stat_request = 0;
  stat_recv = 0;
  stat_send = 0;
  stat_ioevent = 0;
  stat_starttime = 0;
}

abbrev pub two : Server
two = server (λ c. if c == 0 then connection (text "7") net else connection [] worker_wait_job) []

abbrev waiting : Server
waiting =
    server (λ c. if c == 1 then connection [] net else connection (text "7") client_wait_result)
      ((text "7", 0) ∷ [])

send_id-worker_result_example :
    (t : Server) × (u : Server) × (send_id (text "sum") 0 1 two ≡ ok (pos 0) t)
    × (worker_result (text "7") (some 1) (with_body 1 (text "42") t) ≡ ok (pos 0) u)
    × ((u.connects 0).send_buffer ≡ [] ++ response true (text "7") (text "42"))
    × ((u.connects 0).status ≡ net)
    × ((u.connects 0).link ≡ 1)
    × (u.wait_response ≡ [])
unfolding find_waiting
send_id-worker_result_example =
    send_id-worker_result (text "sum") (text "42") 0 1 two refl refl refl (λ e. omega arith) refl

send_id_lem_example :
    (t : Server) × (send_id (text "sum") 0 1 two ≡ ok (pos 0) t) × Handed (text "sum") 0 1 two t
send_id_lem_example = send_id_lem (text "sum") 0 1 two refl refl

worker_result_lem_example :
    (t : Server) × (worker_result (text "7") (some 1) waiting ≡ ok (pos 0) t)
    × Delivered (text "7") 0 1 waiting t
unfolding find_waiting equal
worker_result_lem_example = worker_result_lem (text "7") 0 1 waiting refl refl (omega arith)

forget_client_lem_example :
    (t : Server) × (forget_client 2 waiting ≡ ok tt t)
    × ((t.connects 2).link + 1 ≡ 1)
    × (worker_result (text "7") (some 1) t ≡ ok (negsuc 0) t)
unfolding find_waiting equal is_empty
forget_client_lem_example = forget_client_lem 2 0 1 waiting refl refl refl (refl, tt) (omega arith)

pick_worker_lem_example : Picked two [] (1 ∷ [])
pick_worker_lem_example = pick_worker_lem two [] (1 ∷ []) (λ c. ground arith)

abbrev message : ℤ → Message
message p = record { priority = p; required_worker = []; conn = none; buf = []; name = [] }

abbrev messages : List Message
messages = message (pos 5) ∷ message (pos 0) ∷ []

messages-IsOrdered : IsOrdered messages
messages-IsOrdered = ((refl, tt), (tt, tt))

insert_message_lem_example :
    Inserted (message (pos 3)) messages (insert_message (message (pos 3)) messages)
insert_message_lem_example = insert_message_lem (message (pos 3)) messages messages-IsOrdered

insert_message-IsOrdered_example : IsOrdered (insert_message (message (pos 3)) messages)
insert_message-IsOrdered_example =
    insert_message-IsOrdered (message (pos 3)) messages messages-IsOrdered

scan_id-fuel_example : scan_id 20 id_json ≡ scan_id 30 id_json
scan_id-fuel_example = scan_id-fuel 20 30 id_json (omega arith) (omega arith)

clean_workers_lem_example :
    Dropped
      (λ c. (two.connects c).closed || not (is_waiting_job (two.connects c).status))
      two
      (0 ∷ 1 ∷ [])
      (clean_workers (0 ∷ 1 ∷ []) two)
clean_workers_lem_example = clean_workers_lem two (0 ∷ 1 ∷ []) (λ c. ground arith)
