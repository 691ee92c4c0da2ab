-- ===== src/Broker/Timeouts/Lists.antt =====
-- `_check_timeout` of src/server.cpp over the workers of all queues.
use ijson.Prelude.{
  ℕ, ◌≡◌, refl, sym, subst, ap, ◌∙◌, inl, inr, Bool-cases, Bool, true, false, not, ◌||◌, List, [],
  ◌∷◌, ◌++◌, ltb, ◌==◌, if◌then◌else◌, Option, none, some, arith,
}
use ijson.Broker.{Connect, Queue, QueueLine, Server, ok, M, and_then, ◌>>=◌, ◌>>◌, skip, gets}
use ijson.Broker.Queues.{is_waiting_job, upto}
use ijson.Broker.Request.{after_job}
use ijson.Broker.Changed.{Changed, polled, if-true, if-false, once_more, same_for}
use ijson.Broker.Rpc.Publish.{among}
use ijson.Broker.Timeouts.{expires, freed, lined, bodied, ended, timed, answered, time_out-Does}
use ijson.Broker.Round.{time_out, time_out_all, time_out_line, time_out_lines, check_timeout}

-- A second time changes nothing: the worker waits no longer.
unwaiting : (k : Connect) → is_waiting_job (after_job k) ≡ false
unwaiting k = elim (Bool-cases k.worker_mode) [ inl e ↦ rw e refl | inr e ↦ rw e refl ]

polled-status : (k : Connect) → (polled k).status ≡ k.status
polled-status k = elim (Bool-cases (k.closed || k.writing)) [
  | inl e ↦ rw e refl
  | inr e ↦ rw e refl
]

or_true : (b : Bool) → not (b || true) ≡ false
or_true true = refl
or_true false = refl

spent : (now : ℕ) (k : Connect) → is_waiting_job k.status ≡ false → expires now k ≡ false
spent now k e = rw e (or_true (k.ping == 0 || ltb now k.ping_timeout || k.closed))

answered-expires : (now : ℕ) (k : Connect) → expires now (answered now k) ≡ false
answered-expires now k = elim (Bool-cases (expires now k)) [
  | inl e ↦
      let done = timed now (ended (lined (freed k))) in
      let same : answered now k ≡ done = if-true (expires now k) _ _ e in
      ap (expires now) same
      ∙ spent now done (ap is_waiting_job (polled-status (bodied (lined (freed k)))) ∙ unwaiting k)
  | inr e ↦
      let same : answered now k ≡ k = if-false (expires now k) _ _ e in ap (expires now) same ∙ e
]

answered-answered : (now : ℕ) (k : Connect) → answered now (answered now k) ≡ answered now k
answered-answered now k = if-false (expires now (answered now k)) _ _ (answered-expires now k)

-- Each worker of a list is answered if its time is over, and nothing else is changed.
pub record Answers (now : ℕ) (ws : List ℕ) (s t : Server) : Type 0 where
  pub connects :
      (d : ℕ) → t.connects d ≡ (if among d ws then answered now (s.connects d) else s.connects d)
  pub waiting : t.wait_response ≡ s.wait_response
  pub lines : t.queue_list ≡ s.queue_list
  pub threads : t.threads ≡ s.threads

among-append : (d : ℕ) (xs ys : List ℕ) → among d (xs ++ ys) ≡ (among d xs || among d ys)
among-append d [] ys = refl
among-append d (x ∷ xs) ys = ground (arith, among-append d xs ys)

Answers-append :
    (now : ℕ) (xs ys : List ℕ) (s t u : Server)
    → Answers now xs s t
    → Answers now ys t u
    → Answers now (xs ++ ys) s u
Answers-append now xs ys s t u h k = record {
  connects = λ d. k.connects d ∙ elim (Bool-cases (among d xs)) [
    | inl e ↦
        once_more (answered now) (answered-answered now) (among d ys) (s.connects d) (t.connects d)
          (h.connects d ∙ if-true (among d xs) _ _ e)
        ∙ sym (if-true (among d (xs ++ ys)) _ _ (among-append d xs ys ∙ (rw e refl)))
    | inr e ↦
        same_for (answered now) (among d ys) (among d (xs ++ ys)) (s.connects d) (t.connects d)
          (h.connects d ∙ if-false (among d xs) _ _ e) (among-append d xs ys ∙ (rw e refl))
  ];
  waiting = k.waiting ∙ h.waiting;
  lines = k.lines ∙ h.lines;
  threads = k.threads ∙ h.threads;
}

abbrev pub Finishes : M (Unit {0}) → ℕ → List ℕ → Server → Type 0
Finishes m now ws s = (t : Server) × (m s ≡ ok tt t) × Answers now ws s t

Answers-none : (now : ℕ) (s : Server) → Answers now [] s s
Answers-none now s = record { connects = λ d. refl; waiting = refl; lines = refl; threads = refl }

Answers-one : (now w : ℕ) (s t : Server) → Changed w (answered now) s t → Answers now (w ∷ []) s t
Answers-one now w s t h = record {
  connects = λ d. h.connects d ∙ elim (Bool-cases (d == w)) [
    | inl e ↦
        let same : w ≡ d = ground (arith, e) in
        if-true (d == w) _ _ e
        ∙ ap (λ z. answered now (s.connects z)) same
        ∙ sym (if-true (among d (w ∷ [])) _ _ (rw e refl))
    | inr e ↦ if-false (d == w) _ _ e ∙ sym (if-false (among d (w ∷ [])) _ _ (rw e refl))
  ];
  waiting = h.waiting;
  lines = h.lines;
  threads = h.threads;
}

-- One handler after the other.
Finishes-then :
    (m n : M (Unit {0})) (now : ℕ) (xs ys : List ℕ) (s : Server)
    → Finishes m now xs s
    → ((t : Server) → t.threads ≡ s.threads → Finishes n now ys t)
    → Finishes (m >> n) now (xs ++ ys) s
unfolding ◌>>◌
Finishes-then m n now xs ys s (t, p, h) k =
    let (u, q, l) = k t h.threads in
    (u, ap (λ r. and_then r (λ _. n)) p ∙ q, Answers-append now xs ys s t u h l)

time_out_all-Finishes :
    (now : ℕ) (ws : List ℕ) (s : Server) → Finishes (time_out_all now ws) now ws s
unfolding time_out_all skip
time_out_all-Finishes now [] s = (s, refl, Answers-none now s)
time_out_all-Finishes now (w ∷ ws) s =
    let (t, p, c) = time_out-Does now w s in
    Finishes-then (time_out now w) (time_out_all now ws) now (w ∷ []) ws s
      (t, p, Answers-one now w s t c) (λ u e. time_out_all-Finishes now ws u)

abbrev workers_of : (ℕ → Queue) → List ℕ → List ℕ
workers_of queue [] = []
workers_of queue (i ∷ is) = (queue i).workers ++ workers_of queue is

-- The workers that wait in the queues of all lines, one queue for each loop.
abbrev pub all_workers : ℕ → List (Option QueueLine) → List ℕ
all_workers threads [] = []
all_workers threads (none ∷ ls) = all_workers threads ls
all_workers threads (some l ∷ ls) = workers_of l.queue (upto 0 threads) ++ all_workers threads ls

time_out_line-Finishes :
    (now : ℕ) (queue : ℕ → Queue) (is : List ℕ) (s : Server)
    → Finishes (time_out_line now queue is) now (workers_of queue is) s
unfolding time_out_line skip
time_out_line-Finishes now queue [] s = (s, refl, Answers-none now s)
time_out_line-Finishes now queue (i ∷ is) s =
    Finishes-then (time_out_all now (queue i).workers) (time_out_line now queue is) now
      (queue i).workers (workers_of queue is) s (time_out_all-Finishes now (queue i).workers s)
      (λ u e. time_out_line-Finishes now queue is u)

time_out_lines-Finishes :
    (now threads : ℕ) (ls : List (Option QueueLine)) (s : Server)
    → s.threads ≡ threads
    → Finishes (time_out_lines now ls) now (all_workers threads ls) s
unfolding time_out_lines skip ◌>>=◌ gets
time_out_lines-Finishes now threads [] s e = (s, refl, Answers-none now s)
time_out_lines-Finishes now threads (none ∷ ls) s e = time_out_lines-Finishes now threads ls s e
time_out_lines-Finishes now threads (some l ∷ ls) s e =
    subst
      (λ n.
        Finishes (time_out_lines now (some l ∷ ls)) now
          (workers_of l.queue (upto 0 n) ++ all_workers threads ls) s)
      e
      (Finishes-then (time_out_line now l.queue (upto 0 s.threads)) (time_out_lines now ls) now
        (workers_of l.queue (upto 0 s.threads)) (all_workers threads ls) s
        (time_out_line-Finishes now l.queue (upto 0 s.threads) s)
        (λ u f. time_out_lines-Finishes now threads ls u (f ∙ e)))

-- `_check_timeout` returns without an exception; each worker that stands in a queue of a line, has
-- asked for pings, has an open socket, waits for a job, and is past its time is answered with "408
-- Timeout", waits no longer, and has its time set anew; every other connection, the queue lines
-- and the waiting clients are as before.
pub check_timeout_lem :
    (s : Server) → Finishes check_timeout s.now (all_workers s.threads s.queue_list) s
unfolding check_timeout ◌>>=◌ gets
check_timeout_lem s = time_out_lines-Finishes s.now s.threads s.queue_list s refl
