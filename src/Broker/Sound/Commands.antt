-- ===== src/Broker/Sound/Commands.antt =====
-- What a complete request keeps.
use ijson.Prelude.{false, ℕ, zero, suc, not, ◌&&◌, List, [], ◌∷◌, Bytes, text, ◌==◌}
use ijson.Prelude.Int.{ℤ}
use ijson.Slice.{equal_text, is_empty}
use ijson.Json.{scan}
use ijson.Broker.{
  RequestType, no_type, get, get_plus, worker, async, publish, result, create, del, M,
}
use ijson.Broker.Queues.{is_waiting_job}
use ijson.Broker.Rpc
use ijson.Broker.Rpc.{
  scan_field, take_name, take_option, take_field, take_fields, rpc_add, result_id, rpc_result,
  pub_message, pub_loop, publish_one, publish_to, create_queue,
}
use ijson.Broker.Details.{send_details, send_help}
use ijson.Broker.Complete.{
  is_async, is_result, worker_request, noid_request, typed_request, Call, call_field, call_fields,
  method_request, call_request, plain_request, header_completed,
}
use ijson.Broker.Sound.{
  Keeps, Any, Keeps-gets, Keeps-next, Keeps-then, Keeps-connect, Keeps-if, Keeps-option, Keeps-pure,
  Keeps-skip, Keeps-lift,
}
use ijson.Broker.Sound.Lines.{get_queue-Keeps}
use ijson.Broker.Sound.Requests.{sound_rules, client_request-Keeps}
use ijson.Broker.Sound.Workers.{add_worker-Keeps, pop_item-Keeps}
use ijson.Broker.Sound.Answers.{worker_result-Keeps, worker_result_noid-Keeps}
use ijson.Broker.Sound.Cleaning

scan_field-Keeps : (c : ℕ) → Keeps Any (scan_field c)
unfolding scan_field
scan_field-Keeps c =
    Keeps-next _ _ (Keeps-connect c)
      (λ k. Keeps-next _ _ (Keeps-lift (scan k.json)) (λ x. search sound_rules))

take_name-Keeps : (c : ℕ) → Keeps Any (take_name c)
unfolding take_name
take_name-Keeps c = search sound_rules

take_option-Keeps : (c : ℕ) → Keeps Any (take_option c)
unfolding take_option
take_option-Keeps c = search sound_rules

take_field-Keeps : (c : ℕ) → Keeps Any (take_field c)
unfolding take_field
take_field-Keeps c = search (sound_rules, take_name-Keeps, take_option-Keeps)

take_fields-Keeps : (fuel c : ℕ) → Keeps Any (take_fields fuel c)
unfolding take_fields
take_fields-Keeps zero c = Keeps-skip
take_fields-Keeps (suc fuel) c = Keeps-next _ _ (scan_field-Keeps c) (λ found.
    Keeps-if found _ _ (Keeps-then _ _ (take_field-Keeps c) (take_fields-Keeps fuel c)) Keeps-skip)

pub rpc_add-Keeps : (junk : ℤ) (c : ℕ) → Keeps Any (rpc_add junk c)
unfolding rpc_add
rpc_add-Keeps junk c = search (sound_rules, take_fields-Keeps, add_worker-Keeps) depth 24

result_id-Keeps : (c : ℕ) (id : Bytes) → Keeps Any (result_id c id)
unfolding result_id
result_id-Keeps c id = Keeps-next _ _ (Keeps-connect c) (λ k.
    Keeps-if (not (is_empty id && k.json.level == 0)) _ _ (Keeps-pure _ tt)
      (Keeps-next _ _ (Keeps-lift _) (λ x. search sound_rules)))

rpc_result-Keeps : (c : ℕ) (id : Bytes) → Keeps Any (rpc_result c id)
unfolding rpc_result
rpc_result-Keeps c id = search (sound_rules, result_id-Keeps, worker_result-Keeps) depth 24

publish_one-Keeps : (message : Bytes) (w : ℕ) → Keeps Any (publish_one message w)
unfolding publish_one
publish_one-Keeps message w =
    Keeps-next _ _ (Keeps-connect w)
      (λ k. Keeps-if (is_waiting_job k.status) _ _ (search sound_rules) (search sound_rules))

pub_loop-Keeps : (message : Bytes) (ws : List ℕ) → Keeps Any (pub_loop message ws)
unfolding pub_loop
pub_loop-Keeps message [] = Keeps-skip
pub_loop-Keeps message (w ∷ ws) =
    Keeps-then _ _ (publish_one-Keeps message w) (pub_loop-Keeps message ws)

publish_to-Keeps : (c : ℕ) (name : Bytes) → Keeps Any (publish_to c name)
unfolding publish_to
publish_to-Keeps c name = Keeps-next _ _ (get_queue-Keeps name false) (λ found.
    Keeps-option found _ _ (search sound_rules)
      (λ q. search (sound_rules, pub_loop-Keeps) depth 16))

create_queue-Keeps : (c : ℕ) (name : Bytes) → Keeps Any (create_queue c name)
unfolding create_queue
create_queue-Keeps c name = search sound_rules

delete_queue-Keeps : (c : ℕ) (name : Bytes) → Keeps Any (Rpc.delete_queue c name)
unfolding Rpc.delete_queue
delete_queue-Keeps c name = search (sound_rules, Cleaning.delete_queue-Keeps)

send_details-Keeps : (version : Bytes) (c : ℕ) → Keeps Any (send_details version c)
unfolding send_details
send_details-Keeps version c =
    Keeps-next _ _ (Keeps-gets _)
      (λ report. Keeps-option report _ _ (record { at = λ s h. tt }) (λ b. search sound_rules))

send_help-Keeps : (version : Bytes) (c : ℕ) → Keeps Any (send_help version c)
unfolding send_help
send_help-Keeps version c = search sound_rules

ruleset commands_rules = (
  sound_rules, client_request-Keeps, pop_item-Keeps, worker_result_noid-Keeps, rpc_add-Keeps,
  rpc_result-Keeps, publish_to-Keeps, create_queue-Keeps, delete_queue-Keeps, send_details-Keeps,
  send_help-Keeps, scan_field-Keeps,
)

worker_request-Keeps : (junk : ℤ) (c : ℕ) → Keeps Any (worker_request junk c)
unfolding worker_request
worker_request-Keeps junk c = Keeps-next _ _ (Keeps-connect c) (λ k.
    Keeps-then _ _ (Keeps-if (is_async k.status) _ _ Keeps-skip (search commands_rules))
      (search commands_rules depth 16))

noid_request-Keeps : (c : ℕ) → Keeps Any (noid_request c)
unfolding noid_request
noid_request-Keeps c = Keeps-next _ _ (Keeps-connect c) (λ k.
    Keeps-if (not (equal_text k.path (text "rpc/result")) && not (is_result k.type)) _ _
      (search commands_rules) (search commands_rules depth 16))

typed_request-Keeps : (junk : ℤ) (c : ℕ) (t : RequestType) → Keeps Any (typed_request junk c t)
unfolding typed_request
typed_request-Keeps junk c no_type = search commands_rules
typed_request-Keeps junk c get = search commands_rules
typed_request-Keeps junk c get_plus = search commands_rules
typed_request-Keeps junk c worker = search commands_rules
typed_request-Keeps junk c async = search commands_rules
typed_request-Keeps junk c publish = search commands_rules
typed_request-Keeps junk c result = search commands_rules
typed_request-Keeps junk c create = search commands_rules
typed_request-Keeps junk c del = search commands_rules

call_field-Keeps : (c : ℕ) (call : Call) → Keeps Any (call_field c call)
unfolding call_field
call_field-Keeps c call = search commands_rules depth 16

call_fields-Keeps : (fuel c : ℕ) (call : Call) → Keeps Any (call_fields fuel c call)
unfolding call_fields
call_fields-Keeps zero c call = Keeps-pure _ tt
call_fields-Keeps (suc fuel) c call = Keeps-next _ _ (scan_field-Keeps c) (λ found.
    Keeps-if found _ _
      (Keeps-next _ _ (call_field-Keeps c call) (λ next. call_fields-Keeps fuel c next))
      (Keeps-pure _ tt))

method_request-Keeps :
    (junk : ℤ) (version : Bytes) (c : ℕ) (method id : Bytes)
    → Keeps Any (method_request junk version c method id)
unfolding method_request
method_request-Keeps junk version c method id = search commands_rules depth 24

call_request-Keeps : (junk : ℤ) (version : Bytes) (c : ℕ) → Keeps Any (call_request junk version c)
unfolding call_request
call_request-Keeps junk version c =
    search (commands_rules, call_fields-Keeps, method_request-Keeps) depth 16

-- A request without a type goes one way, every other another.
Keeps-type :
    {A : Type 0} {Q : A → Type 0} (t : RequestType) (m : M A) (f : RequestType → M A)
    → Keeps Q m
    → ((u : RequestType) → Keeps Q (f u))
    → Keeps Q (elim t as (λ _. M A) [ no_type ↦ m | u ↦ f u ])
Keeps-type no_type m f h k = h
Keeps-type get m f h k = k get
Keeps-type get_plus m f h k = k get_plus
Keeps-type worker m f h k = k worker
Keeps-type async m f h k = k async
Keeps-type publish m f h k = k publish
Keeps-type result m f h k = k result
Keeps-type create m f h k = k create
Keeps-type del m f h k = k del

plain_request-Keeps :
    (junk : ℤ) (version : Bytes) (c : ℕ) → Keeps Any (plain_request junk version c)
unfolding plain_request
plain_request-Keeps junk version c = Keeps-then _ _ (search sound_rules) (
    Keeps-next _ _ (Keeps-connect c) (λ k.
      Keeps-type k.type _ (typed_request junk c)
        (search (call_request-Keeps, method_request-Keeps, Keeps-if)) (typed_request-Keeps junk c)))

pub header_completed-Keeps :
    (junk : ℤ) (version : Bytes) (c : ℕ) → Keeps Any (header_completed junk version c)
unfolding header_completed
header_completed-Keeps junk version c =
    search (sound_rules, worker_request-Keeps, noid_request-Keeps, plain_request-Keeps) depth 16
