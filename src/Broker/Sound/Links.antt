-- ===== src/Broker/Sound/Links.antt =====
-- Links, polling and answers touch neither the map nor the lines.
use ijson.Prelude.{ℕ, ◌==◌, Bytes}
use ijson.Prelude.Int.{ℤ}
use ijson.Broker.{link, unlink, write_mode_on, write_mode_off, generate_id}
use ijson.Broker.Http.{status, header, done_body, done, done_error, reply}
use ijson.Broker.Sound.{Keeps, Any, keeps_rules, Ends-if}

pub link-Keeps : (c : ℕ) → Keeps Any (link c)
unfolding link
link-Keeps c = search keeps_rules

pub unlink-Keeps : (c : ℕ) → Keeps Any (unlink c)
unfolding unlink
unlink-Keeps c = record {
  at = λ s h. Ends-if Any ((s.connects c).link == 0) _ _ h (
      Ends-if Any ((s.connects c).link == 1) _ _
        (record { waiting = h.waiting; lines = h.lines }, tt)
        (record { waiting = h.waiting; lines = h.lines }, tt));
}

pub generate_id-Keeps : Keeps Any generate_id
unfolding generate_id
generate_id-Keeps = record { at = λ s h. (record { waiting = h.waiting; lines = h.lines }, tt) }

pub write_mode_on-Keeps : (c : ℕ) → Keeps Any (write_mode_on c)
unfolding write_mode_on
write_mode_on-Keeps c = search keeps_rules depth 12

pub write_mode_off-Keeps : (c : ℕ) → Keeps Any (write_mode_off c)
unfolding write_mode_off
write_mode_off-Keeps c = search keeps_rules depth 12

pub status-Keeps : (c : ℕ) (line : Bytes) → Keeps Any (status c line)
unfolding status
status-Keeps c line = search keeps_rules

pub header-Keeps : (c : ℕ) (key value : Bytes) → Keeps Any (header c key value)
unfolding header
header-Keeps c key value = search keeps_rules

pub done_body-Keeps : (c : ℕ) (body : Bytes) → Keeps Any (done_body c body)
unfolding done_body
done_body-Keeps c body = search (keeps_rules, write_mode_on-Keeps)

pub done-Keeps : (c : ℕ) → Keeps Any (done c)
unfolding done
done-Keeps c = search (keeps_rules, write_mode_on-Keeps)

pub done_error-Keeps : (c : ℕ) (e : ℤ) → Keeps Any (done_error c e)
unfolding done_error
done_error-Keeps c e = search (keeps_rules, done_body-Keeps, done-Keeps)

pub reply-Keeps : (c : ℕ) (line : Bytes) (e : ℤ) → Keeps Any (reply c line e)
unfolding reply
reply-Keeps c line e = search (keeps_rules, status-Keeps, done_error-Keeps)

pub ruleset links_rules = (
  link-Keeps, unlink-Keeps, generate_id-Keeps, write_mode_on-Keeps, write_mode_off-Keeps,
  status-Keeps, header-Keeps, done_body-Keeps, done-Keeps, done_error-Keeps, reply-Keeps,
)
