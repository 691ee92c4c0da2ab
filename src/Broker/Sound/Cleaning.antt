-- ===== src/Broker/Sound/Cleaning.antt =====
-- What the service and the deletion of a queue keep.
use ijson.Prelude.{ℕ, suc, not, ◌||◌, List, [], ◌∷◌, Option, none, some, Bytes, ◌==◌, set, ◌-◌}
use ijson.Broker.{Message, QueueLine, modify}
use ijson.Broker.Queues.{upto, is_waiting_job, is_waiting_result}
use ijson.Broker.Clean.{
  clean_workers, clean_clients, clean_line, clean_lines, clean_dead_tasks, close_clients,
  close_workers, close_line, pop_all, delete_queue,
}
use ijson.Broker.Sound.{
  Keeps, Any, Keeps-noexcept, Keeps-less, Keeps-bind, Keeps-next, Keeps-then, Keeps-connect,
  Keeps-gets, Keeps-if, Keeps-option, Keeps-pure, Keeps-skip,
}
use ijson.Broker.Sound.Links.{unlink-Keeps}
use ijson.Broker.Sound.Lines.{Keeps-line, Keeps-set_workers, Keeps-set_clients, AreLines-none}
use ijson.Broker.Sound.Requests.{sound_rules}
use ijson.Broker.Sound.Workers.{
  Sub, sub_nil, sub_keep, sub_drop, Sub-IsOrdered, release-Keeps, pop_item-Keeps,
}

clean_workers-Keeps : (cs : List ℕ) → Keeps Any (clean_workers cs)
unfolding clean_workers
clean_workers-Keeps [] = Keeps-pure _ tt
clean_workers-Keeps (c ∷ cs) = Keeps-next _ _ (Keeps-connect c) (λ k.
    Keeps-if (k.closed || not (is_waiting_job k.status)) _ _
      (Keeps-then _ _ (unlink-Keeps c) (clean_workers-Keeps cs))
      (Keeps-next _ _ (clean_workers-Keeps cs) (λ kept. Keeps-pure _ tt)))

clean_clients-Keeps : (ms : List Message) → Keeps (λ r. Sub r ms) (clean_clients ms)
unfolding clean_clients
clean_clients-Keeps [] = Keeps-pure _ sub_nil
clean_clients-Keeps (m ∷ ms) =
    let rest = clean_clients-Keeps ms in
    Keeps-option m.conn _ _ (Keeps-bind _ _ rest (λ x k. Keeps-pure _ (sub_keep m k))) (λ c.
      Keeps-next _ _ (Keeps-connect c) (λ k.
        Keeps-if (k.closed || not (is_waiting_result k.status)) _ _
          (Keeps-then _ _ (Keeps-noexcept _ (unlink-Keeps c))
            (Keeps-less _ (λ x h. sub_drop m h) rest))
          (Keeps-bind _ _ rest (λ x h. Keeps-pure _ (sub_keep m h)))))

clean_line-Keeps : (q : ℕ) (rs : List ℕ) → Keeps Any (clean_line q rs)
unfolding clean_line
clean_line-Keeps q [] = Keeps-skip
clean_line-Keeps q (r ∷ rs) = Keeps-line q _ (λ l h.
    Keeps-next _ _ (clean_workers-Keeps (l.queue r).workers) (λ workers.
      Keeps-then _ _ (Keeps-set_workers q r workers) (
        Keeps-bind _ _ (clean_clients-Keeps (l.queue r).clients) (λ clients sub.
          Keeps-then _ _ (Keeps-set_clients q r clients (Sub-IsOrdered _ _ sub (h r)))
            (clean_line-Keeps q rs)))))

clean_lines-Keeps : (q : ℕ) (ls : List (Option QueueLine)) → Keeps Any (clean_lines q ls)
unfolding clean_lines
clean_lines-Keeps q [] = Keeps-skip
clean_lines-Keeps q (none ∷ ls) = clean_lines-Keeps (suc q) ls
clean_lines-Keeps q (some l ∷ ls) =
    Keeps-next _ _ (Keeps-gets _)
      (λ n. Keeps-then _ _ (clean_line-Keeps q (upto 0 n)) (clean_lines-Keeps (suc q) ls))

pub clean_dead_tasks-Keeps : Keeps Any clean_dead_tasks
unfolding clean_dead_tasks
clean_dead_tasks-Keeps = Keeps-next _ _ (Keeps-gets _) (clean_lines-Keeps 0)

close_clients-Keeps : (ms : List Message) → Keeps Any (close_clients ms)
unfolding close_clients
close_clients-Keeps [] = Keeps-skip
close_clients-Keeps (m ∷ ms) =
    Keeps-then _ _ (Keeps-option m.conn _ _ Keeps-skip (λ c. search sound_rules))
      (close_clients-Keeps ms)

close_workers-Keeps : (cs : List ℕ) → Keeps Any (close_workers cs)
unfolding close_workers
close_workers-Keeps [] = Keeps-skip
close_workers-Keeps (c ∷ cs) = Keeps-then _ _ (unlink-Keeps c) (
    Keeps-next _ _ (Keeps-connect c)
      (λ k. Keeps-then _ _ (search sound_rules) (close_workers-Keeps cs)))

close_line-Keeps : (l : QueueLine) (rs : List ℕ) → Keeps Any (close_line l rs)
unfolding close_line
close_line-Keeps l [] = Keeps-pure _ tt
close_line-Keeps l (r ∷ rs) = Keeps-then _ _ (close_clients-Keeps (l.queue r).clients) (
    Keeps-then _ _ (close_workers-Keeps (l.queue r).workers)
      (Keeps-next _ _ (close_line-Keeps l rs) (λ gone. Keeps-pure _ tt)))

pop_all-Keeps : (cs : List ℕ) → Keeps Any (pop_all cs)
unfolding pop_all
pop_all-Keeps [] = Keeps-skip
pop_all-Keeps (c ∷ cs) = Keeps-then _ _ (pop_item-Keeps c) (pop_all-Keeps cs)

Keeps-remove : (q : ℕ) → Keeps Any (modify (λ s. record s { queue_list = set s.queue_list q none }))
unfolding modify
Keeps-remove q = record {
  at = λ s h. (record { waiting = h.waiting; lines = AreLines-none s.queue_list q h.lines }, tt);
}

pub delete_queue-Keeps : (key : Bytes) → Keeps Any (delete_queue key)
unfolding delete_queue
delete_queue-Keeps key = Keeps-next _ _ (Keeps-gets _) (λ n. Keeps-then _ _ (search sound_rules) (
    Keeps-if (n == 0) _ _ Keeps-skip (
      Keeps-line (n - 1) _ (λ l h. Keeps-next _ _ (Keeps-gets (λ s. s.threads)) (λ threads.
        Keeps-next _ _ (close_line-Keeps l (upto 0 threads)) (λ gone.
          Keeps-then _ _ (pop_all-Keeps l.workers)
            (Keeps-then _ _ (Keeps-remove (n - 1)) (release-Keeps gone))))))))
