-- ===== src/Broker/Sound/Workers.antt =====
-- What a worker's request for a job keeps: it takes messages out of the queues, which stay in order.
use ijson.Prelude.{ℕ, ◌==◌, not, ◌||◌, true, List, [], ◌∷◌, Bytes}
use ijson.Prelude.Int.{ℤ, pos, eqb_ℤ}
use ijson.Slice.{is_empty}
use ijson.Broker.{Message, find_waiting}
use ijson.Broker.Priority.{IsOrdered, All}
use ijson.Broker.Queues.{loop_order, passes_over, is_waiting_result}
use ijson.Broker.Request.{is_some}
use ijson.Broker.Worker.{
  push_item, pop_item, take_message, find_message, take_async, take_client, drop_workers, wait_job,
  register, release, serve, add_one, add_names, add_worker, strip_slash, split_names,
}
use ijson.Broker.Sound.{
  Keeps, Any, Keeps-noexcept, Keeps-bind, Keeps-next, Keeps-then, Keeps-connect, Keeps-gets,
  Keeps-update, Keeps-if, Keeps-option, Keeps-pure, Keeps-skip,
}
use ijson.Broker.Sound.Links.{unlink-Keeps}
use ijson.Broker.Sound.Lines.{Keeps-line, Keeps-set_clients, Keeps-update_line, get_queue-Keeps}
use ijson.Broker.Sound.Requests.{sound_rules, find_id-Keeps, Keeps-put}

-- The messages that are left when some are taken out.
pub data Sub : List Message → List Message → Type 0 where
  sub_nil : Sub [] []
  sub_keep : {r ms : List Message} (m : Message) → Sub r ms → Sub (m ∷ r) (m ∷ ms)
  sub_drop : {r ms : List Message} (m : Message) → Sub r ms → Sub r (m ∷ ms)

Sub-refl : (ms : List Message) → Sub ms ms
Sub-refl [] = sub_nil
Sub-refl (m ∷ ms) = sub_keep m (Sub-refl ms)

All-Sub : (P : Message → Type 0) (r ms : List Message) → Sub r ms → All P ms → All P r
All-Sub P _ _ sub_nil h = tt
All-Sub P _ _ (sub_keep m k) h = (h.0, All-Sub P _ _ k h.1)
All-Sub P _ _ (sub_drop m k) h = All-Sub P _ _ k h.1

pub Sub-IsOrdered : (r ms : List Message) → Sub r ms → IsOrdered ms → IsOrdered r
Sub-IsOrdered _ _ sub_nil h = tt
Sub-IsOrdered _ _ (sub_keep m k) h = (All-Sub _ _ _ k h.0, Sub-IsOrdered _ _ k h.1)
Sub-IsOrdered _ _ (sub_drop m k) h = Sub-IsOrdered _ _ k h.1

push_item-Keeps : (q c : ℕ) → Keeps Any (push_item q c)
unfolding push_item
push_item-Keeps q c =
    Keeps-then _ _ (search sound_rules)
      (Keeps-then _ _ (Keeps-update_line q _ (λ l h. h)) (search sound_rules))

pub pop_item-Keeps : (c : ℕ) → Keeps Any (pop_item c)
unfolding pop_item
pop_item-Keeps c = Keeps-next _ _ (Keeps-connect c) (λ k.
    Keeps-option k.worker_item _ _ (record { at = λ s h. tt })
      (λ q. Keeps-then _ _ (Keeps-update_line q _ (λ l h. h)) (search sound_rules)))

take_message-Keeps :
    (worker : ℕ) (ms : List Message) → Keeps (λ r. Sub r.0 ms) (take_message worker ms)
unfolding take_message
take_message-Keeps worker [] = Keeps-pure _ sub_nil
take_message-Keeps worker (m ∷ ms) =
    let rest = take_message-Keeps worker ms in
    let taken = sub_drop m (Sub-refl ms) in
    Keeps-next _ _ (Keeps-connect worker) (λ w.
      Keeps-if (passes_over m.required_worker w.connection_id) _ _
        (Keeps-bind _ _ rest (λ x k. Keeps-pure _ (sub_keep m k)))
        (Keeps-option m.conn _ _ (Keeps-pure _ taken) (λ client.
          Keeps-next _ _ (Keeps-connect client) (λ c.
            Keeps-if (c.closed || not (is_waiting_result c.status)) _ _
              (Keeps-bind _ _ rest (λ x k. Keeps-pure _ (sub_drop m k)))
              (Keeps-then _ _ (Keeps-update client _) (
                Keeps-if w.noid _ _ (Keeps-pure _ taken) (
                  Keeps-next _ _ (find_id-Keeps client) (λ found.
                    Keeps-if found _ _
                      (Keeps-next _ _ (Keeps-connect client) (λ d.
                        Keeps-next _ _
                          (Keeps-gets (λ s. is_some (find_waiting d.id s.wait_response)))
                          (λ used. Keeps-if (not used) _ _ (Keeps-pure _ taken) (
                            Keeps-then _ _ (search sound_rules) (
                              Keeps-then _ _ (Keeps-update client _)
                                (Keeps-bind _ _ rest (λ x k. Keeps-pure _ (sub_drop m k))))))))
                      (Keeps-then _ _ (search sound_rules)
                        (Keeps-bind _ _ rest (λ x k. Keeps-pure _ (sub_drop m k))))))))))))

find_message-Keeps : (q worker : ℕ) (rs : List ℕ) → Keeps Any (find_message q worker rs)
unfolding find_message
find_message-Keeps q worker [] = Keeps-pure _ tt
find_message-Keeps q worker (r ∷ rs) = Keeps-line q _ (λ l h.
    Keeps-bind _ _ (take_message-Keeps worker (l.queue r).clients) (λ x sub.
      Keeps-then _ _ (Keeps-set_clients q r x.0 (Sub-IsOrdered _ _ sub (h r))) (
        Keeps-option x.2 _ _
          (Keeps-next _ _ (find_message-Keeps q worker rs) (λ y. Keeps-pure _ tt))
          (λ m. Keeps-pure _ tt))))

take_async-Keeps : (junk : ℤ) (worker : ℕ) (m : Message) → Keeps Any (take_async junk worker m)
unfolding take_async
take_async-Keeps junk worker m = search sound_rules depth 16

take_client-Keeps : (worker client : ℕ) → Keeps Any (take_client worker client)
unfolding take_client
take_client-Keeps worker client = Keeps-next _ _ (Keeps-connect worker) (λ w.
    Keeps-then _ _ (search sound_rules) (
      Keeps-next _ _ (Keeps-connect client) (λ c.
        Keeps-if w.noid _ _ (search sound_rules depth 16) (
          Keeps-then _ _ (search sound_rules) (
            Keeps-then _ _ (search sound_rules) (
              Keeps-then _ _ (search sound_rules) (
                Keeps-then _ _ (search sound_rules)
                  (Keeps-then _ _ (Keeps-put c.id client) (search sound_rules)))))))))

drop_workers-Keeps : (worker : ℕ) (cs : List ℕ) → Keeps Any (drop_workers worker cs)
unfolding drop_workers
drop_workers-Keeps worker [] = search sound_rules
drop_workers-Keeps worker (c ∷ cs) = Keeps-next _ _ (Keeps-connect c) (λ k.
    Keeps-if (k.closed || c == worker) _ _
      (Keeps-then _ _ (unlink-Keeps c) (drop_workers-Keeps worker cs))
      (Keeps-next _ _ (drop_workers-Keeps worker cs) (λ kept. Keeps-pure _ tt)))

wait_job-Keeps : (nloop q worker : ℕ) → Keeps Any (wait_job nloop q worker)
unfolding wait_job
wait_job-Keeps nloop q worker = search (sound_rules, drop_workers-Keeps) depth 16

register-Keeps : (q : ℕ) (name : Bytes) (worker : ℕ) → Keeps Any (register q name worker)
unfolding register
register-Keeps q name worker = search (sound_rules, push_item-Keeps) depth 16

pub release-Keeps : (ms : List Message) → Keeps Any (release ms)
unfolding release
release-Keeps [] = Keeps-skip
release-Keeps (m ∷ ms) =
    Keeps-option m.conn _ _ (release-Keeps ms)
      (λ c. Keeps-then _ _ (Keeps-noexcept _ (unlink-Keeps c)) (release-Keeps ms))

serve-Keeps :
    (junk : ℤ) (nloop q : ℕ) (name : Bytes) (worker : ℕ)
    → Keeps Any (serve junk nloop q name worker)
unfolding serve
serve-Keeps junk nloop q name worker = Keeps-next _ _ (Keeps-gets _) (λ now.
    Keeps-then _ _ (Keeps-update_line q _ (λ l h. h)) (
      Keeps-next _ _ (Keeps-gets _) (λ n.
        Keeps-next _ _ (find_message-Keeps q worker (loop_order nloop n)) (λ x.
          Keeps-next _ _
            (Keeps-option x.1 _ _ (wait_job-Keeps nloop q worker) (λ m.
              Keeps-option m.conn _ _ (take_async-Keeps junk worker m) (take_client-Keeps worker)))
            (λ r.
              Keeps-then _ _ (register-Keeps q name worker)
                (Keeps-then _ _ (release-Keeps x.0) (Keeps-pure _ tt)))))))

add_one-Keeps :
    (junk : ℤ) (nloop : ℕ) (name : Bytes) (worker : ℕ) → Keeps Any (add_one junk nloop name worker)
unfolding add_one
add_one-Keeps junk nloop name worker =
    Keeps-next _ _ (get_queue-Keeps (strip_slash name) true) (λ found.
      Keeps-option found _ _ (record { at = λ s h. tt })
        (λ q. Keeps-next _ _ (Keeps-connect worker) (λ k.
          Keeps-then _ _
            (Keeps-if (is_empty k.info) _ _ Keeps-skip (Keeps-update_line q _ (λ l h. h)))
            (Keeps-then _ _ (search sound_rules) (
              Keeps-then _ _ (search (sound_rules, pop_item-Keeps))
                (search (sound_rules, serve-Keeps) depth 16))))))

add_names-Keeps :
    (junk : ℤ) (nloop : ℕ) (ns : List Bytes) (worker : ℕ)
    → Keeps Any (add_names junk nloop ns worker)
unfolding add_names
add_names-Keeps junk nloop [] worker = Keeps-skip
add_names-Keeps junk nloop (n ∷ ns) worker =
    Keeps-next _ _ (add_one-Keeps junk nloop n worker)
      (λ r. Keeps-if (eqb_ℤ r (pos 1)) _ _ Keeps-skip (add_names-Keeps junk nloop ns worker))

pub add_worker-Keeps :
    (junk : ℤ) (nloop : ℕ) (name : Bytes) (worker : ℕ)
    → Keeps Any (add_worker junk nloop name worker)
unfolding add_worker
add_worker-Keeps junk nloop name worker = add_names-Keeps junk nloop (split_names [] name) worker
