-- ===== src/Lib.antt =====
-- ijson is a broker for jobs over HTTP: clients send a request to a named queue, workers take the
-- requests and bring the results. This library models its core and proves what it promises.
--
-- Slice (src/buffer.h): ISlice and Slice, a slice being the list of the bytes that it views, each
--   below 256; `char` is signed where `compare` subtracts. Comparisons, `atoi`, `hextoi`, cutting.
-- Buffer (src/buffer.h): a Buffer is whether it has a block, the block's capacity and the content.
-- Mapper (src/mapper.h, src/mapper.cpp): the trie from queue names to 16-bit numbers. A block of
--   steps is a function of the step's number; `add` works on a copy, `buf_t`, once it has to grow.
--   View and Spec hold the two tables, of exact names and of prefixes, that the trie refines.
-- Json (src/json.h, src/json.cpp): the scanner of an object's fields, `unescape` and `escape`.
-- Broker (src/server.h, src/connect.h): the state of a Server and of its connections, and a monad
--   of steps that return, throw, fault, or hang. A Connect is a number, a QueueLine an index.
--   Http: HttpSender (src/connect.cpp). Queues: `get_queue` and the loops over a queue's deques.
--   Request: `client_request`. Worker: `add_worker` and `_add_worker`. Answer: `worker_result`,
--   `worker_result_noid`, `on_disconnect`, `migrate` (src/server.cpp). Clean: `_clean_dead_tasks` (src/service.cpp) and `delete_queue`
--   (src/server.cpp). The queues are found through a Mapper, ids through a Json scanner, and the
--   answers are written as Buffer writes them.
--   Parse, Rpc, Details, Complete and Receive (src/connect.cpp): the request line and the headers,
--   the commands, the reports, `header_completed`, and `on_recv` with `on_send`. Poll, Events and
--   Round (src/server.cpp): the calls of `epoll_ctl`, `_perform_to_send`, `_delete_connections`,
--   `_migrate_send`, `_migrate_recv`; `_accept`, an event of a loop, `_close`; `_check_timeout`, a
--   round of `_loop`, and the steps that the threads of the server take from its start on, with the
--   states that they reach. Sound: what each of these keeps, by a rule for each way to build a
--   step. Entries: which of them leave the map of the waiting clients as it is. The other modules
--   below Broker hold proofs.
-- WorkerList (src/workerlist.h, src/workerlist.cpp): the linked list of a queue's workers, its items
--   a function of their address. Broker keeps the list of the connections that it stands for.
-- NetFilter (src/netfilter.cpp): the mask of a filter and `_valid_ip` (src/server.cpp).
-- Options (src/main.cpp): the loop over the arguments.
-- Service (src/service.cpp): which loop is active, and a round of the service thread.
-- Locks (src/utils.cpp): the locks that keep the loops from deleting connections, and `autolock`.
--
-- Fuel: `_get_cap` has as many rounds as the size asked for, since each adds at least 16; the
-- digits of a number have 20 and 16 rounds, which is the size of the source's array; `read_object`
-- and the loop that looks for the id have a round more than there are bytes unread, since each
-- round reads one at least; so do the loops over the fields of `rpc_add` and of `rpc/call`, and the
-- loop of `on_recv` over the lines. The destructor of WorkerList needs a round more than there are
-- items.
--
-- Numbers: a step's number in the trie is taken modulo 2 ^ 16, the counter of ids modulo 2 ^ 32.
-- The values of `atoi` and `hextoi` are the numbers meant, also where int64_t overflows in the
-- source. A count of links is a natural number: an `unlink` at 0 throws, as the source does, and
-- the count of -1 that the source then leaves in the broken connection is not kept. In a destructor
-- that exception is the end of the program, which is a fault.
--
-- Not modelled: handlers that run at the same time, since each holds the locks it needs; what a
-- loop does between two events, between its parts and in its rounds may mix with other threads'
-- steps in any order. The calls of `epoll_ctl` are kept as a list, and a function of that list says
-- which succeed; the other results of epoll and of sockets, `try_lock`, `inet_addr`, the version
-- and what an uninitialised `result` or field holds are arguments. A connection that is deleted is
-- noted, and to list it as dead once more is a fault where the list is deleted; elsewhere it may
-- still be named. The status `migration`, which nothing assigns, is kept in the
-- definitions. `std::rand` is a list of numbers. What `on_recv` leaves for its
-- next call is kept as bytes. Left out are `read_mode`, which nothing calls, the code for kqueue,
-- logging and allocation failures. Clocks are arguments.
pub mod Prelude
pub mod Slice
pub mod Buffer
pub mod Mapper
pub mod Json
pub mod NetFilter
pub mod Broker
pub mod Options
pub mod Service
pub mod WorkerList
pub mod Locks
pub mod Tests
