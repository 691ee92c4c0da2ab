-- ===== src/Broker/Sound/Answers.antt =====
-- What results and disconnects keep.
use ijson.Prelude.{ℕ, not, ◌&&◌, Bytes, Option}
use ijson.Slice.{is_empty}
use ijson.Broker.{find_waiting}
use ijson.Broker.Queues.{is_waiting_result}
use ijson.Broker.Request.{is_some}
use ijson.Broker.Answer.{
  migrate, worker_result, worker_result_noid, forget_client, fail_client, on_disconnect,
  is_waiting_for_result,
}
use ijson.Broker.Sound.{
  Keeps, Any, Keeps-next, Keeps-then, Keeps-connect, Keeps-gets, Keeps-if, Keeps-option, Keeps-skip,
}
use ijson.Broker.Sound.Links.{unlink-Keeps}
use ijson.Broker.Sound.Requests.{sound_rules, Keeps-erase}
use ijson.Broker.Sound.Workers.{pop_item-Keeps}

migrate-Keeps : (w c : ℕ) → Keeps Any (migrate w c)
unfolding migrate
migrate-Keeps w c = search sound_rules

pub worker_result-Keeps : (id : Bytes) (worker : Option ℕ) → Keeps Any (worker_result id worker)
unfolding worker_result
worker_result-Keeps id worker = Keeps-next _ _ (Keeps-gets _) (λ found.
    Keeps-option found _ _ (search sound_rules) (λ client. Keeps-then _ _ (Keeps-erase id) (
      Keeps-then _ _ (unlink-Keeps client) (
        Keeps-next _ _ (Keeps-connect client) (λ c. Keeps-if c.closed _ _ (search sound_rules) (
          Keeps-then _ _ (Keeps-option worker _ _ (search sound_rules) (λ w. search sound_rules)) (
            Keeps-then _ _ (search sound_rules) (
              Keeps-then _ _
                (Keeps-option worker _ _ (search sound_rules)
                  (λ w. search (sound_rules, migrate-Keeps)))
                (search sound_rules)))))))))

pub worker_result_noid-Keeps : (worker : ℕ) → Keeps Any (worker_result_noid worker)
unfolding worker_result_noid
worker_result_noid-Keeps worker = Keeps-then _ _ (search sound_rules) (
    Keeps-next _ _ (Keeps-connect worker) (λ w.
      Keeps-option w.client _ _ (search sound_rules)
        (λ client. search (sound_rules, migrate-Keeps) depth 24)))

forget_client-Keeps : (conn : ℕ) → Keeps Any (forget_client conn)
unfolding forget_client
forget_client-Keeps conn = Keeps-next _ _ (Keeps-connect conn) (λ k.
    Keeps-next _ _ (Keeps-gets (λ s. find_waiting k.id s.wait_response)) (λ found.
      Keeps-if (is_waiting_result k.status && not (is_empty k.id) && is_some found) _ _
        (Keeps-then _ _ (Keeps-erase k.id) (unlink-Keeps conn)) Keeps-skip))

fail_client-Keeps : (conn : ℕ) → Keeps Any (fail_client conn)
unfolding fail_client
fail_client-Keeps conn = Keeps-next _ _ (Keeps-connect conn) (λ k.
    Keeps-if k.noid _ _
      (Keeps-if (is_waiting_for_result k.status) _ _
        (Keeps-option k.client _ _ (search sound_rules) (λ client. search sound_rules depth 16))
        (search sound_rules))
      (Keeps-option k.client _ _ Keeps-skip (λ client. search (sound_rules, worker_result-Keeps))))

pub on_disconnect-Keeps : (conn : ℕ) → Keeps Any (on_disconnect conn)
unfolding on_disconnect
on_disconnect-Keeps conn = Keeps-next _ _ (Keeps-connect conn) (λ k.
    Keeps-then _ _ (search (sound_rules, pop_item-Keeps)) (
      Keeps-then _ _ (search sound_rules) (
        Keeps-then _ _ (forget_client-Keeps conn) (
          Keeps-if (not k.fail_on_disconnect) _ _ Keeps-skip (
            Keeps-then _ _ (fail_client-Keeps conn) (
              Keeps-next _ _ (Keeps-connect conn)
                (λ k. Keeps-option k.client _ _ Keeps-skip (λ client. search sound_rules))))))))
