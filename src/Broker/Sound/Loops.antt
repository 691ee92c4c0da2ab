-- ===== src/Broker/Sound/Loops.antt =====
-- What the events of a connection keep.
use ijson.Prelude.{ℕ, ◌+◌, zero, suc, not, ◌++◌, Bytes, Option, none, some, length, if◌then◌else◌}
use ijson.Prelude.Int.{ℤ, pos, negsuc, ◌-ℤ◌}
use ijson.Slice.{is_empty, pop_line, rstrip}
use ijson.Broker.{
  Connect, HttpStep, http_start, http_header, http_read_body, http_request_completed, M,
}
use ijson.Broker.Parse.{set_type, read_method, read_header}
use ijson.Broker.Answer.{is_waiting_for_result}
use ijson.Broker.Complete.{is_async}
use ijson.Broker.Receive.{
  is_header, is_completed, is_net, reads, complete, reset_worker, start_request, take_line,
  take_body, end_headers, take_lines, round, finish_recv, recv_lines, recv_body, on_recv,
  count_sent, send_some, on_send, is_body,
}
use ijson.Broker.Sound.{
  Keeps, Any, Keeps-next, Keeps-then, Keeps-connect, Keeps-gets, Keeps-if, Keeps-option, Keeps-list,
  Keeps-pure, Keeps-skip, Keeps-throw, Keeps-lift,
}
use ijson.Broker.Sound.Links.{unlink-Keeps}
use ijson.Broker.Sound.Requests.{sound_rules}
use ijson.Broker.Sound.Commands.{header_completed-Keeps}

complete-Keeps : (junk : ℤ) (version : Bytes) (c : ℕ) → Keeps Any (complete junk version c)
unfolding complete
complete-Keeps junk version c = search (sound_rules, header_completed-Keeps)

read_method-Keeps : (c : ℕ) (line : Bytes) → Keeps Any (read_method c line)
unfolding read_method
read_method-Keeps c line = search sound_rules

set_type-Keeps : (c : ℕ) (s : Bytes) → Keeps Any (set_type c s)
unfolding set_type
set_type-Keeps c s = Keeps-next _ _ (Keeps-lift _) (λ t. search sound_rules)

read_header-Keeps : (c : ℕ) (line : Bytes) → Keeps Any (read_header c line)
unfolding read_header
read_header-Keeps c line = search (sound_rules, set_type-Keeps) depth 40

reset_worker-Keeps : (c : ℕ) → Keeps Any (reset_worker c)
unfolding reset_worker
reset_worker-Keeps c = Keeps-next _ _ (Keeps-connect c) (λ k.
    Keeps-if (is_waiting_for_result k.status) _ _ (search sound_rules) (
      Keeps-if k.worker_mode _ _ (Keeps-if (is_async k.status) _ _ Keeps-skip (search sound_rules))
        (Keeps-then _ _ (search sound_rules) (
          Keeps-then _ _ (Keeps-option k.client _ _ Keeps-skip unlink-Keeps)
            (search sound_rules)))))

start_request-Keeps : (c : ℕ) (line : Bytes) → Keeps Any (start_request c line)
unfolding start_request
start_request-Keeps c line = search (sound_rules, reset_worker-Keeps, read_method-Keeps) depth 16

-- A way for each step of a request.
Keeps-step :
    {A : Type 0} {Q : A → Type 0} (t : HttpStep) (m n o p : M A)
    → Keeps Q m
    → Keeps Q n
    → Keeps Q o
    → Keeps Q p
    → Keeps Q (elim t as (λ _. M A) [
      | http_start ↦ m
      | http_header ↦ n
      | http_read_body ↦ o
      | http_request_completed ↦ p
    ])
Keeps-step http_start m n o p h i j k = h
Keeps-step http_header m n o p h i j k = i
Keeps-step http_read_body m n o p h i j k = j
Keeps-step http_request_completed m n o p h i j k = k

take_line-Keeps : (c : ℕ) (line : Bytes) → Keeps Any (take_line c line)
unfolding take_line
take_line-Keeps c line = Keeps-next _ _ (Keeps-connect c) (λ k.
    Keeps-step k.http_step _ _ _ _ (start_request-Keeps c line)
      (search (sound_rules, read_header-Keeps)) (Keeps-pure _ tt) (Keeps-pure _ tt))

-- A length that is not negative is read, a negative one is a fault.
Keeps-natural :
    {A : Type 0} {Q : A → Type 0} (z : ℤ) (m : ℕ → M A) (f : ℕ → M A)
    → ((n : ℕ) → Keeps Q (m n))
    → ((n : ℕ) → Keeps Q (f n))
    → Keeps Q (elim z as (λ _. M A) [ negsuc n ↦ m n | pos n ↦ f n ])
Keeps-natural (negsuc n) m f h k = h n
Keeps-natural (pos n) m f h k = k n

take_body-Keeps : (c : ℕ) (input : Bytes) → Keeps Any (take_body c input)
unfolding take_body
take_body-Keeps c input = Keeps-next _ _ (Keeps-connect c) (λ k.
    Keeps-natural k.content_length _ _ (λ n. record { at = λ s h. tt }) (λ n. search sound_rules))

end_headers-Keeps :
    (junk : ℤ) (version : Bytes) (c : ℕ) (input : Bytes)
    → Keeps Any (end_headers junk version c input)
unfolding end_headers
end_headers-Keeps junk version c input = Keeps-next _ _ (Keeps-connect c) (λ k.
    Keeps-if (not (is_header k.http_step)) _ _ (Keeps-throw _) (
      Keeps-then _ _ (search sound_rules) (
        Keeps-next _ _ (take_body-Keeps c input) (λ input. Keeps-then _ _ (search sound_rules) (
          Keeps-next _ _ (Keeps-connect c) (λ k.
            Keeps-if (not (is_completed k.http_step)) _ _ (Keeps-pure _ tt) (
              Keeps-then _ _ (complete-Keeps junk version c) (
                Keeps-next _ _ (Keeps-connect c) (λ k.
                  Keeps-if (is_empty input) _ _ (Keeps-pure _ tt) (
                    Keeps-if (is_net k.status) _ _
                      (Keeps-then _ _ (search sound_rules) (Keeps-pure _ tt))
                      (Keeps-throw _)))))))))))

round-Keeps :
    (more : Bytes → M (Option Bytes)) (junk : ℤ) (version : Bytes) (c : ℕ) (input : Bytes)
    (o : Option (Bytes × Bytes))
    → ((rest : Bytes) → Keeps Any (more rest))
    → Keeps Any (round more junk version c input o)
unfolding round
round-Keeps more junk version c input none k = Keeps-pure _ tt
round-Keeps more junk version c input (some (line, rest)) k =
    Keeps-if (is_empty (rstrip line)) _ _
      (Keeps-next _ _ (end_headers-Keeps junk version c rest)
        (λ x. Keeps-if x.0 _ _ (k x.1) (Keeps-pure _ tt)))
      (Keeps-next _ _ (take_line-Keeps c (rstrip line))
        (λ going. Keeps-if going _ _ (k rest) (Keeps-pure _ tt)))

take_lines-Keeps :
    (fuel : ℕ) (junk : ℤ) (version : Bytes) (c : ℕ) (input : Bytes)
    → Keeps Any (take_lines fuel junk version c input)
unfolding take_lines
take_lines-Keeps zero junk version c input = Keeps-pure _ tt
take_lines-Keeps (suc fuel) junk version c input =
    round-Keeps _ junk version c input (pop_line input) (take_lines-Keeps fuel junk version c)

finish_recv-Keeps : (c : ℕ) (input : Bytes) → Keeps Any (finish_recv c input)
unfolding finish_recv
finish_recv-Keeps c input = Keeps-next _ _ (Keeps-connect c) (λ k.
    Keeps-step k.http_step _ _ _ _ (search sound_rules) (search sound_rules) Keeps-skip
      (search sound_rules))

recv_lines-Keeps :
    (junk : ℤ) (version : Bytes) (c : ℕ) (input : Bytes)
    → Keeps Any (recv_lines junk version c input)
unfolding recv_lines
recv_lines-Keeps junk version c input =
    Keeps-next _ _ (take_lines-Keeps (length input + 1) junk version c input)
      (λ left. Keeps-option left _ _ Keeps-skip (finish_recv-Keeps c))

recv_body-Keeps :
    (junk : ℤ) (version : Bytes) (c : ℕ) (input : Bytes)
    → Keeps Any (recv_body junk version c input)
unfolding recv_body
recv_body-Keeps junk version c input = Keeps-next _ _ (Keeps-connect c) (λ k.
    Keeps-natural (k.content_length -ℤ pos (length k.body)) _ _ (λ n. record { at = λ s h. tt })
      (λ n. search (sound_rules, complete-Keeps, recv_lines-Keeps) depth 16))

pub on_recv-Keeps :
    (junk : ℤ) (version : Bytes) (c : ℕ) (buf : Bytes) → Keeps Any (on_recv junk version c buf)
unfolding on_recv
on_recv-Keeps junk version c buf =
    let input = λ (k : Connect). if is_empty k.buffer then buf else k.buffer ++ buf in
    Keeps-next _ _ (Keeps-gets _) (λ now. Keeps-then _ _ (search sound_rules) (
      Keeps-next _ _ (Keeps-connect c) (λ k. Keeps-if (not (reads k)) _ _ (search sound_rules) (
        Keeps-then _ _ (search sound_rules) (
          Keeps-if (is_body k.http_step) _ _ (recv_body-Keeps junk version c (input k))
            (recv_lines-Keeps junk version c (input k)))))))

count_sent-Keeps : (sent : ℤ) → Keeps Any (count_sent sent)
unfolding count_sent
count_sent-Keeps sent = search sound_rules

send_some-Keeps : (sent : ℤ) (c : ℕ) → Keeps Any (send_some sent c)
unfolding send_some
send_some-Keeps sent c = Keeps-next _ _ (Keeps-connect c) (λ k.
    Keeps-if (is_empty k.send_buffer) _ _
      (Keeps-list k.direct_message _ _ Keeps-skip
        (λ message rest. search (sound_rules, count_sent-Keeps)))
      (search (sound_rules, count_sent-Keeps)))

pub on_send-Keeps : (sent : ℤ) (c : ℕ) → Keeps Any (on_send sent c)
unfolding on_send
on_send-Keeps sent c = search (sound_rules, send_some-Keeps) depth 16
