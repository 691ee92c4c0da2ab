-- ===== src/Tests/Runs.antt =====
-- A broker from its start: a worker and a client are accepted, and each sends a request.
use ijson.Prelude.{
  ℕ, ◌^◌, ◌≤◌, arith, ◌≡◌, refl, ◌/◌, ◌%◌, ◌==◌, if◌then◌else◌, true, false, [], ◌∷◌, ◌++◌, text,
  Option, some, List, Bytes,
}
use ijson.Prelude.Int.{ℤ, pos, negsuc}
use ijson.Broker.{
  Message, QueueLine, Connect, Server, Run, ok, thrown, fault, hang, new_connect, find_waiting,
  pure, ◌>>=◌, ◌>>◌, throw, skip, gets, modify, connect, update, lift, catch_invalid,
}
use ijson.Broker.Queues.{line, update_line, set_workers, set_clients, settle}
use ijson.Slice.{is_empty, remove, equal, equal_text, atoi}
use ijson.Broker.Answer.{worker_result}
use ijson.Broker.Receive.{take_lines}
use ijson.Broker.Receive.Rounds.{take_lines-fuel}
use ijson.Broker.Request.{client_request}
use ijson.Broker.Entries.Collision.{Entered, client_request-Entered}
use ijson.Broker.Rpc.{pub_loop}
use ijson.Broker.Rpc.Publish.{Published, pub_loop_lem}
use ijson.Broker.Parse.{read_path}
use ijson.Broker.Parse.Path.{read_path-line}
use ijson.Broker.Deliver.{Delivered}
use ijson.Broker.Sound.{AreLines}
use ijson.Broker.Sound.Steps.{Reach-AreLines}
use ijson.Broker.Sound.Once.{worker_result-once}
use ijson.NetFilter.{mask_of}
use ijson.NetFilter.Mask.{ones, mask_of-prefix}
use ijson.Options.{Options, start, default_options, parse_options, started_threads}
use ijson.Options.Threads.{parse_options-start}
use ijson.Mapper.{find, add, init}
use ijson.Broker.Http.{crlf}
use ijson.Broker.Poll.{Kernel}
use ijson.Broker.Events.{readable, System}
use ijson.Broker.Round.{started, Step, accepts, rounds, handles, step, Reach, here, returns}

abbrev fresh : ℕ → Connect
fresh fd = new_connect fd false false false

abbrev at_start : Server
at_start = started 1 false 0 (5 ∷ [])

-- Every call of `epoll_ctl` succeeds.
abbrev always : Kernel
always calls = true

abbrev quiet : System
quiet = record {
  kernel = always;
  socket = pos 9;
  version = text "1.0";
  free = true;
  unlocked = true;
  junk = pos 0;
}

abbrev first : Step
first = accepts always [] 5 0 0 (fresh 5)

abbrev second : Step
second = accepts always [] 6 0 1 (fresh 6)

abbrev asks : Step
asks =
    rounds quiet 0
      ((6, readable (text "GET /a HTTP/1.1" ++ crlf ++ text "Type: get" ++ crlf ++ crlf)) ∷ [])

abbrev calls : Step
calls =
    rounds quiet 0
      ((5, readable (text "POST /a HTTP/1.1" ++ crlf ++ text "Id: 7" ++ crlf ++ crlf)) ∷ [])

-- The state that a step comes to.
abbrev landed : Run (Unit {0}) → Server
landed (ok a s) = s
landed (thrown e s) = s
landed fault = at_start
landed hang = at_start

abbrev outcome : Run (Unit {0}) → ℕ
outcome (ok a s) = 0
outcome (thrown e s) = 1
outcome fault = 2
outcome hang = 3

-- The states that the four steps come to.
abbrev one : Server
one = landed (step first at_start)

abbrev two : Server
two = landed (step second one)

abbrev three : Server
three = landed (step asks two)

abbrev four : Server
four = landed (step calls three)

waiting_test : four.wait_response ≡ (text "7", 0) ∷ []
unfolding step find_waiting pure ◌>>=◌ ◌>>◌ throw skip gets modify connect update lift catch_invalid
    line update_line set_workers set_clients settle is_empty remove find add init
waiting_test = refl

open_test : ((four.connects 0).closed ≡ false) × ((four.connects 0).link ≡ 2)
unfolding step find_waiting pure ◌>>=◌ ◌>>◌ throw skip gets modify connect update lift catch_invalid
    line update_line set_workers set_clients settle is_empty remove find add init
open_test = (refl, refl)

answer_test :
    (four.connects 1).send_buffer
    ≡ text "HTTP/1.1 200 OK"
      ++ crlf
      ++ text "Connection: keep-alive"
      ++ crlf
      ++ text "Id: 7"
      ++ crlf
      ++ text "Name: a"
      ++ crlf
      ++ text "Content-Length: 0"
      ++ crlf
      ++ crlf
unfolding step find_waiting pure ◌>>=◌ ◌>>◌ throw skip gets modify connect update lift catch_invalid
    line update_line set_workers set_clients settle is_empty remove find add init
answer_test = refl

reached : Reach at_start four
unfolding step find_waiting pure ◌>>=◌ ◌>>◌ throw skip gets modify connect update lift catch_invalid
    line update_line set_workers set_clients settle is_empty remove find add init
reached = returns (returns (returns (returns here first refl) second refl) asks refl) calls refl

-- A client makes the queue and waits in it, and another one of a higher priority.
abbrev prior : Bytes → Bytes
prior p = text "POST /a HTTP/1.1" ++ crlf ++ text "Priority: " ++ p ++ crlf ++ crlf

abbrev creates : Step
creates =
    handles quiet 0 5
      (readable (text "POST /a HTTP/1.1" ++ crlf ++ text "Type: create" ++ crlf ++ crlf))

abbrev waits_low : Step
waits_low = handles quiet 0 5 (readable (prior (text "1")))

abbrev waits_high : Step
waits_high = handles quiet 0 6 (readable (prior (text "5")))

abbrev created : Server
created = landed (step creates two)

abbrev low : Server
low = landed (step waits_low created)

abbrev high : Server
high = landed (step waits_high low)

abbrev priorities : List Message → List ℤ
priorities [] = []
priorities (m ∷ ms) = m.priority ∷ priorities ms

abbrev first_priorities : List (Option QueueLine) → List ℤ
first_priorities (some l ∷ ls) = priorities (l.queue 0).clients
first_priorities _ = []

priorities_test : first_priorities high.queue_list ≡ pos 5 ∷ pos 1 ∷ []
unfolding step find_waiting pure ◌>>=◌ ◌>>◌ throw skip gets modify connect update lift catch_invalid
    line update_line set_workers set_clients settle is_empty remove find add init atoi
priorities_test = refl

reached_queue : Reach at_start created
unfolding step find_waiting pure ◌>>=◌ ◌>>◌ throw skip gets modify connect update lift catch_invalid
    line update_line set_workers set_clients settle is_empty remove find add init atoi
reached_queue = returns (returns (returns here first refl) second refl) creates refl

reached_low : Reach at_start low
unfolding step find_waiting pure ◌>>=◌ ◌>>◌ throw skip gets modify connect update lift catch_invalid
    line update_line set_workers set_clients settle is_empty remove find add init atoi
reached_low = returns reached_queue waits_low refl

reached_high : Reach at_start high
unfolding step find_waiting pure ◌>>=◌ ◌>>◌ throw skip gets modify connect update lift catch_invalid
    line update_line set_workers set_clients settle is_empty remove find add init atoi
reached_high = returns reached_low waits_high refl

Reach-AreLines_example : AreLines high.queue_list
Reach-AreLines_example = Reach-AreLines 1 false 0 (5 ∷ []) high reached_high

worker_result-once_example :
    (t : Server) × (worker_result (text "7") (some 1) four ≡ ok (pos 0) t)
    × Delivered (text "7") 0 1 four t
    × ((later : Option ℕ) → worker_result (text "7") later t ≡ ok (negsuc 0) t)
unfolding step find_waiting equal pure ◌>>=◌ ◌>>◌ throw skip gets modify connect update lift
    catch_invalid line update_line set_workers set_clients settle is_empty remove find add init
worker_result-once_example =
    worker_result-once 1 false 0 (5 ∷ []) (text "7") 0 1 four reached refl refl (omega arith)

-- A client asks with the id 7, under which another one waits, and a worker is there.
abbrev crowded : Server
crowded = record three {
  connects = λ c. if c == 0 then record (three.connects 0) { id = text "7" } else three.connects c;
  wait_response = (text "7", 5) ∷ [];
}

client_request-Entered_example : Entered (text "7") 5 (client_request 0 (text "a") 0 crowded)
unfolding find_waiting equal
client_request-Entered_example = client_request-Entered 0 (text "a") 0 (text "7") 5 crowded refl

abbrev value_of : Run ℤ → ℤ
value_of (ok a s) = a
value_of _ = pos 7

crowded_test : value_of (client_request 0 (text "a") 0 crowded) ≡ negsuc 2
unfolding step client_request find_waiting equal pure ◌>>=◌ ◌>>◌ throw skip gets modify connect
    update lift catch_invalid line update_line set_workers set_clients settle is_empty remove find
    add init
crowded_test = refl

pub_loop_lem_example :
    (t : Server) × (pub_loop (text "news") (1 ∷ []) three ≡ ok tt t)
    × Published (text "news") (1 ∷ []) three t
pub_loop_lem_example = pub_loop_lem (text "news") (1 ∷ []) three (refl, tt)

take_lines-fuel_example :
    take_lines 40 (pos 0) (text "1.0") 0 (text "GET /a HTTP/1.1" ++ crlf) two
    ≡ take_lines 90 (pos 0) (text "1.0") 0 (text "GET /a HTTP/1.1" ++ crlf) two
take_lines-fuel_example =
    take_lines-fuel 40 90 (pos 0) (text "1.0") 0 (text "GET /a HTTP/1.1" ++ crlf) two (omega arith)
      (omega arith)

-- A body of a negative length is copied without end.
negative_test :
    step
      (handles quiet 0 5
        (readable (text "POST /a HTTP/1.1" ++ crlf ++ text "Content-Length: -1" ++ crlf ++ crlf)))
      one
    ≡ fault
unfolding step find_waiting atoi pure ◌>>=◌ ◌>>◌ throw skip gets modify connect update lift
    catch_invalid line update_line set_workers set_clients settle is_empty remove find add init
negative_test = refl

read_path-line_example :
    read_path (text "POST" ++ b' ' ∷ b'/' ∷ (text "rpc/add" ++ b' ' ∷ text "HTTP/1.1"))
    ≡ text "rpc/add"
read_path-line_example =
    read_path-line (text "POST") b'r' (text "pc/add") (text "HTTP/1.1")
      (refl, (refl, (refl, (refl, tt)))) (refl, (refl, (refl, (refl, (refl, (refl, (refl, tt)))))))

mask_of-prefix_example :
    (mask_of (pos 20) / 2 ^ 24 ≡ ones 20 % 2 ^ 8)
    × (mask_of (pos 20) / 2 ^ 16 % 2 ^ 8 ≡ ones 20 / 2 ^ 8 % 2 ^ 8)
    × (mask_of (pos 20) / 2 ^ 8 % 2 ^ 8 ≡ ones 20 / 2 ^ 16 % 2 ^ 8)
    × (mask_of (pos 20) % 2 ^ 8 ≡ ones 20 / 2 ^ 24 % 2 ^ 8)
mask_of-prefix_example = mask_of-prefix 20 (omega arith)

abbrev two_threads : Options
two_threads = record default_options { threads = pos 2; host = text "127.0.0.1" }

two_threads-start :
    parse_options (λ _. 0) default_options (text "--threads" ∷ text "2" ∷ []) ≡ start two_threads
unfolding parse_options is_empty equal_text atoi
two_threads-start = refl

parse_options-start_example :
    (1 ≤ started_threads (pos 2))
    × (started_threads (pos 2) ≤ 32)
    × (is_empty (text "127.0.0.1") ≡ false)
parse_options-start_example =
    parse_options-start (λ _. 0) (text "--threads" ∷ text "2" ∷ []) two_threads two_threads-start
