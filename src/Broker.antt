-- ===== src/Broker.antt =====
-- The broker: the state that src/server.h and src/connect.h declare, and the steps over it. A
-- pointer to a Connect is its number, a pointer to a QueueLine its index in `queue_list`. Each
-- handler runs alone: what the mutexes keep apart is not interleaved here.
pub mod Http
pub mod Queues
pub mod Request
pub mod Worker
pub mod Answer
pub mod Parse
pub mod Rpc
pub mod Details
pub mod Complete
pub mod Receive
pub mod Poll
pub mod Events
pub mod Round
pub mod Sound
pub mod Changed
pub mod Timeouts
pub mod Links
pub mod Sent
pub mod Clean
pub mod Drop
pub mod Deliver
pub mod Ids
pub mod Job
pub mod Forget
pub mod Priority
pub mod Waiting
pub mod Pick
pub mod FindWorker
pub mod Entries
use ijson.Prelude.{
  ℕ, ◌+◌, ◌-◌, ◌*◌, ◌%◌, ◌^◌, Bool, true, false, ◌||◌, List, [], ◌∷◌, ◌++◌, Bytes, ◌==◌,
  if◌then◌else◌, Option, none, some, Error, exception, invalid_data, Result,
}
use ijson.Prelude.Int.{ℤ, pos}
use ijson.Slice.{equal}
use ijson.Buffer.{hex}
use ijson.Json.{Json}
use ijson.Mapper.{Mapper}

pub data Status : Type 0 where
  net worker_wait_job worker_wait_result migration client_wait_result busy worker_mode_async :
      Status

pub data RequestType : Type 0 where
  no_type get get_plus worker async publish result create del : RequestType

pub data HttpStep : Type 0 where
  http_start http_header http_read_body http_request_completed : HttpStep

-- Connect. Of `_socket_status` there are the bit for writing, whether it is -1, and whether the bits
-- 2 to 7 are set, `stale`; the bit for reading is set. `active` is `_socket_status_active`.
-- `worker_item` is the queue line in whose list of workers the connection stands.
pub record Connect : Type 0 where
  pub closed : Bool
  pub writing : Bool
  pub link : ℕ
  pub nloop : ℕ
  pub need_loop : ℕ
  pub go_loop : Bool
  pub keep_alive : Bool
  pub send_buffer : Bytes
  pub status : Status
  pub name : Bytes
  pub body : Bytes
  pub id : Bytes
  pub header_option : Bytes
  pub fail_on_disconnect : Bool
  pub noid : Bool
  pub no_response : Bool
  pub worker_mode : Bool
  pub priority : ℤ
  pub connection_id : Bytes
  pub required_worker : Bytes
  pub client : Option ℕ
  pub json : Json
  pub info : Bytes
  pub worker_item : Option ℕ
  pub worker_sub_name : Bytes
  pub direct_message : List Bytes
  pub fd : ℕ
  pub http_step : HttpStep
  pub content_length : ℤ
  pub http_version : ℕ
  pub buffer : Bytes
  pub path : Bytes
  pub type : RequestType
  pub ping : ℕ
  pub ping_timeout : ℕ
  pub stale : Bool
  pub active : ℤ

pub record Message : Type 0 where
  pub priority : ℤ
  pub required_worker : Bytes
  pub conn : Option ℕ
  pub buf : Bytes
  pub name : Bytes

pub record Queue : Type 0 where
  pub workers : List ℕ
  pub clients : List Message

-- QueueLine: a Queue for each loop, and the workers of its WorkerList, from the head.
pub record QueueLine : Type 0 where
  pub name : Bytes
  pub last_worker : ℕ
  pub info : Bytes
  pub queue : ℕ → Queue
  pub workers : List ℕ

-- A call of `epoll_ctl`: the socket, and for a new mode whether it is for reading and for writing.
pub data PollCall : Type 0 where
  poll_add poll_mod : ℤ → Bool → Bool → PollCall
  poll_del : ℤ → PollCall

-- Server, with the parts of Loop and of utils.cpp that the handlers change. By the loop's number:
-- `dead`, its connections without a link, `to_send`, those whose poll mode is to change, and
-- `accept_request`. `calls` are those of `epoll_ctl`, the last one first, each with its loop, `freed`
-- the connections that are deleted, and `countdown` that of the loop 0.
pub record Server : Type 0 where
  pub threads : ℕ
  pub jsonrpc2 : Bool
  pub connects : ℕ → Connect
  pub mapper : Mapper
  pub queue_list : List (Option QueueLine)
  pub wait_response : List (Bytes × ℕ)
  pub dead : ℕ → List ℕ
  pub to_send : ℕ → List ℕ
  pub accept_request : ℕ → Bool
  pub calls : List (ℕ × PollCall)
  pub freed : List ℕ
  pub fake_fd : ℤ
  pub countdown : ℕ
  pub stat_call : ℕ
  pub stat_result : ℕ
  pub index : ℕ
  pub now : ℕ
  pub random : List ℕ
  pub connections : ℕ → Option ℕ
  pub max_fd : ℕ
  pub active_loop : ℕ
  pub stat_connect : ℕ
  pub stat_request : ℕ
  pub stat_recv : ℕ
  pub stat_send : ℕ
  pub stat_ioevent : ℕ
  pub stat_starttime : ℕ

-- How a handler ends: with a value, by an exception, by `fault`, or never. `fault` is undefined
-- behaviour, and an exception that a destructor does not catch, which is `std::terminate`.
pub data Run {ℓ} (A : Type ℓ) : Type ℓ where
  ok : A → Server → Run A
  thrown : Error → Server → Run A
  fault : Run A
  hang : Run A

abbrev pub M : Type 0 → Type 0
M A = Server → Run A

unfoldable pub pure : {A : Type 0} → A → M A
pure = ok

abbrev pub and_then : {A B : Type 0} → Run A → (A → M B) → Run B
and_then (ok a s) k = k a s
and_then (thrown e s) k = thrown e s
and_then fault k = fault
and_then hang k = hang

infixl 5 ◌>>=◌ ◌>>◌
unfoldable pub ◌>>=◌ : {A B : Type 0} → M A → (A → M B) → M B
(m >>= k) s = and_then (m s) k

unfoldable pub ◌>>◌ : {A B : Type 0} → M A → M B → M B
(m >> n) s = and_then (m s) (λ _. n)

unfoldable pub throw : {A : Type 0} → Error → M A
throw e s = thrown e s

unfoldable pub skip : M (Unit {0})
skip s = ok tt s

unfoldable pub gets : {A : Type 0} → (Server → A) → M A
gets f s = ok (f s) s

unfoldable pub modify : (Server → Server) → M (Unit {0})
modify f s = ok tt (f s)

unfoldable pub connect : ℕ → M Connect
connect c s = ok (s.connects c) s

abbrev pub store : (ℕ → Connect) → ℕ → Connect → ℕ → Connect
store f c v d = if d == c then v else f d

-- A list or a flag of the loop `n` is assigned.
abbrev pub put_at {ℓ} : {A : Type ℓ} → (ℕ → A) → ℕ → A → ℕ → A
put_at f n v i = if i == n then v else f i

abbrev pub append_at : (ℕ → List ℕ) → ℕ → ℕ → ℕ → List ℕ
append_at f n c = put_at f n (f n ++ c ∷ [])

-- A field of a connection is assigned.
unfoldable pub update : ℕ → (Connect → Connect) → M (Unit {0})
update c f s = ok tt (record s { connects = store s.connects c (f (s.connects c)) })

abbrev pub set_status : ℕ → Status → M (Unit {0})
set_status c v = update c (λ k. record k { status = v })

-- `Connect::link`
unfoldable pub link : ℕ → M (Unit {0})
link c = update c (λ k. record k { link = k.link + 1 })

-- `Connect::unlink`: the last link makes the connection dead, and one more is an exception.
unfoldable pub unlink : ℕ → M (Unit {0})
unlink c s =
    let k = s.connects c in
    let s' = record s { connects = store s.connects c (record k { link = k.link - 1 }) } in
    if k.link == 0
    then thrown exception s
    else if k.link == 1
    then ok tt (record s' { dead = append_at s.dead k.nloop c })
    else ok tt s'

-- What a destructor does: no exception leaves it.
unfoldable pub noexcept : M (Unit {0}) → M (Unit {0})
noexcept m s = elim (m s) [ ok a t ↦ ok a t | thrown e t ↦ fault | fault ↦ fault | hang ↦ hang ]

-- `Connect::write_mode(true)`; all bits of a closed socket's status are set.
unfoldable pub write_mode_on : ℕ → M (Unit {0})
write_mode_on c = do
  k ← connect c
  if k.closed || k.writing then skip else (do
    update c (λ k. record k { writing = true })
    modify (λ s. record s { to_send = append_at s.to_send k.nloop c }))

-- `Connect::write_mode(false)`; on a closed socket it leaves the low byte of -1, less the bit.
unfoldable pub write_mode_off : ℕ → M (Unit {0})
write_mode_off c = do
  k ← connect c
  if k.closed || k.writing
      then (do
        update c (λ k. record k { closed = false; writing = false; stale = k.closed || k.stale })
        modify (λ s. record s { to_send = append_at s.to_send k.nloop c }))
      else skip

-- `Connect::close`
abbrev pub close : ℕ → M (Unit {0})
close c = update c (λ k. record k { closed = true })

abbrev head_or : List ℕ → ℕ → ℕ
head_or [] d = d
head_or (x ∷ xs) d = x

abbrev rest_of : List ℕ → List ℕ
rest_of [] = []
rest_of (x ∷ xs) = xs

-- `generate_id`: a 32-bit counter, shifted, and 16 bits of `std::rand`, which `random` lists.
unfoldable pub generate_id : M Bytes
unfolding hex
generate_id s =
    let index = (s.index + 1) % 2 ^ 32 in
    let r = head_or s.random 0 % 2 ^ 16 in
    ok (hex (((index * 2 ^ 16) % 2 ^ 32 + r) % 2 ^ 32))
      (record s { index = index; random = rest_of s.random })

-- `wait_response.find`
unfoldable pub find_waiting : Bytes → List (Bytes × ℕ) → Option ℕ
find_waiting id [] = none
find_waiting id ((j, c) ∷ m) = if equal id j then some c else find_waiting id m

-- `wait_response.erase`
unfoldable pub erase_waiting : Bytes → List (Bytes × ℕ) → List (Bytes × ℕ)
erase_waiting id [] = []
erase_waiting id ((j, c) ∷ m) = if equal id j then m else (j, c) ∷ erase_waiting id m

-- `wait_response[id] = c`
unfoldable pub put_waiting : Bytes → ℕ → List (Bytes × ℕ) → List (Bytes × ℕ)
put_waiting id c [] = (id, c) ∷ []
put_waiting id c ((j, d) ∷ m) = if equal id j then (j, c) ∷ m else (j, d) ∷ put_waiting id c m

-- The constructor of Connect leaves `keep_alive`, `fail_on_disconnect` and `noid` as they are in the
-- memory; the length and the version of a request are set before they are read.
abbrev pub new_connect : ℕ → Bool → Bool → Bool → Connect
new_connect fd keep_alive fail_on_disconnect noid = record {
  closed = false;
  writing = false;
  link = 0;
  nloop = 0;
  need_loop = 0;
  go_loop = false;
  keep_alive = keep_alive;
  send_buffer = [];
  status = net;
  name = [];
  body = [];
  id = [];
  header_option = [];
  fail_on_disconnect = fail_on_disconnect;
  noid = noid;
  no_response = false;
  worker_mode = false;
  priority = pos 0;
  connection_id = [];
  required_worker = [];
  client = none;
  json = record { key = []; value = []; level = 0; status = 0; source = []; unread = [] };
  info = [];
  worker_item = none;
  worker_sub_name = [];
  direct_message = [];
  fd = fd;
  http_step = http_start;
  content_length = pos 0;
  http_version = 0;
  buffer = [];
  path = [];
  type = no_type;
  ping = 0;
  ping_timeout = 0;
  stale = false;
  active = pos 1;
}

-- A result of the parsers, as a step.
unfoldable pub lift : {A : Type 0} → Result A → M A
lift (Result.ok a) s = ok a s
lift (Result.err e) s = thrown e s

-- `catch(const error::InvalidData &)`
unfoldable pub catch_invalid : M (Unit {0}) → M (Unit {0}) → M (Unit {0})
catch_invalid m handler s = elim (m s) [
  | ok a t ↦ ok a t
  | thrown invalid_data t ↦ handler t
  | thrown e t ↦ thrown e t
  | fault ↦ fault
  | hang ↦ hang
]
