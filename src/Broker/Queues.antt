-- ===== src/Broker/Queues.antt =====
-- The queues of src/server.cpp: `get_queue`, and what `client_request` and `_add_worker` do to the
-- deques of a queue line.
use mathlib.Core.List.{reverse}
use ijson.Prelude.{
  ℕ, zero, suc, ◌+◌, ◌-◌, ◌%◌, ◌^◌, Bool, true, false, not, ◌&&◌, List, [], ◌∷◌, Bytes, ◌==◌,
  if◌then◌else◌, Option, none, some, get_elem?, set, exception,
}
use ijson.Prelude.Int.{leb_ℤ}
use ijson.Slice.{equal, is_empty}
use ijson.Mapper
use ijson.Mapper.{Mapper, Added, find, done, thrown, deadlock}
use ijson.Broker.{
  Status, worker_wait_job, client_wait_result, busy, Message, Queue, QueueLine, Run, ok, fault,
  hang, M, pure, ◌>>=◌, ◌>>◌, gets, connect, set_status, unlink,
}

abbrev pub empty_line : Bytes → QueueLine
empty_line name = record {
  name = name;
  last_worker = 0;
  info = [];
  queue = λ _. record { workers = []; clients = [] };
  workers = [];
}

-- The place of a new queue line, the first that is free, and the list with the line in it.
unfoldable pub place : QueueLine → List (Option QueueLine) → ℕ × List (Option QueueLine)
place l [] = (0, some l ∷ [])
place l (none ∷ ls) = (0, some l ∷ ls)
place l (some k ∷ ls) = let r = place l ls in (suc r.0, some k ∷ r.1)

-- The line that a value of the mapper stands for; a value out of range is a wild access.
unfoldable pub line_of : ℕ → M (Option ℕ)
line_of n s = elim (get_elem? s.queue_list (n - 1)) [
  | none ↦ fault
  | some none ↦ ok none s
  | some (some l) ↦ ok (some (n - 1)) s
]

unfoldable pub settle : ℕ → Added → M (Option ℕ)
settle i (done m) s = ok (some i) (record s { mapper = m })
settle i (thrown m) s = Run.thrown exception (record s { mapper = m })
settle i deadlock s = hang

-- The new line of `get_queue`; its number is a 16-bit number.
unfoldable pub create_line : Bytes → M (Option ℕ)
unfolding place
create_line key s =
    let r = place (empty_line key) s.queue_list in
    settle r.0 (Mapper.add s.mapper key ((r.0 + 1) % 2 ^ 16)) (record s { queue_list = r.1 })

-- `get_queue(key, create)`
unfoldable pub get_queue : Bytes → Bool → M (Option ℕ)
unfolding line_of create_line
get_queue key create = do
  n ← gets (λ s. find s.mapper key)
  if not (n == 0) then line_of n else if not create then pure none else create_line key

-- A field of a queue line is assigned.
unfoldable pub update_line : ℕ → (QueueLine → QueueLine) → M (Unit {0})
update_line q f s = elim (get_elem? s.queue_list q) [
  | some (some l) ↦ ok tt (record s { queue_list = set s.queue_list q (some (f l)) })
  | _ ↦ fault
]

unfoldable pub line : ℕ → M QueueLine
line q s = elim (get_elem? s.queue_list q) [ some (some l) ↦ ok l s | _ ↦ fault ]

abbrev pub store_queue : (ℕ → Queue) → ℕ → Queue → ℕ → Queue
store_queue f r v i = if i == r then v else f i

unfoldable pub set_workers : ℕ → ℕ → List ℕ → M (Unit {0})
set_workers q r ws =
    update_line q
      (λ l. record l { queue = store_queue l.queue r (record (l.queue r) { workers = ws }) })

unfoldable pub set_clients : ℕ → ℕ → List Message → M (Unit {0})
set_clients q r ms =
    update_line q
      (λ l. record l { queue = store_queue l.queue r (record (l.queue r) { clients = ms }) })

unfoldable pub upto : ℕ → ℕ → List ℕ
upto i zero = []
upto i (suc n) = i ∷ upto (suc i) n

without : ℕ → List ℕ → List ℕ
without r [] = []
without r (x ∷ xs) = if x == r then without r xs else x ∷ without r xs

-- The order in which a loop looks at the loops' queues: its own first.
unfoldable pub loop_order : ℕ → ℕ → List ℕ
unfolding upto without
loop_order nloop threads = nloop ∷ without nloop (upto 0 threads)

abbrev pub is_waiting_job : Status → Bool
is_waiting_job worker_wait_job = true
is_waiting_job _ = false

abbrev pub is_waiting_result : Status → Bool
is_waiting_result client_wait_result = true
is_waiting_result _ = false

-- A request that asks for one worker passes the others over.
abbrev pub passes_over : Bytes → Bytes → Bool
passes_over required id = not (is_empty required) && not (equal required id)

-- The loop of `client_request` over one queue: the workers that stay, and the one that is taken,
-- which is `busy` from then on. A closed worker, and one that waits no longer, is dropped.
unfoldable pub pick_worker : Bytes → List ℕ → M (List ℕ × Option ℕ)
unfolding unlink
pick_worker required [] = pure ([], none)
pick_worker required (w ∷ ws) =
    let rest = pick_worker required ws in
    let keep = (do (kept, found) ← rest; pure (w ∷ kept, found)) in
    let take = (do set_status w busy; pure (ws, some w)) in
    do
      k ← connect w
      if passes_over required k.connection_id
          then keep
          else (do unlink w; if not k.closed && is_waiting_job k.status then take else rest)

-- The loop of `client_request` over the loops' queues.
unfoldable pub find_worker : ℕ → Bytes → List ℕ → M (Option ℕ)
unfolding pick_worker
find_worker q required [] = pure none
find_worker q required (r ∷ rs) = do
  l ← line q
  (kept, found) ← pick_worker required (l.queue r).workers
  set_workers q r kept
  elim found [ some w ↦ pure (some w) | none ↦ find_worker q required rs ]

-- The loop from the back of the deque: behind the first message of at least the same priority.
unfoldable pub insert_back : Message → List Message → List Message
insert_back m [] = m ∷ []
insert_back m (x ∷ xs) =
    let rest = insert_back m xs in if leb_ℤ m.priority x.priority then m ∷ x ∷ xs else x ∷ rest

unfoldable pub insert_message : Message → List Message → List Message
unfolding insert_back
insert_message m ms = reverse (insert_back m (reverse ms))
