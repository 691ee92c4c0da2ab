-- ===== src/Broker/Entries.antt =====
-- What a request of a client in src/server.cpp does to the map of the waiting clients: everything but
-- `send_id` leaves it as it is, and `send_id` comes behind the check of the id.
pub mod Requests
pub mod Collision
use ijson.Prelude.{
  ◌-◌, ℕ, ◌≡◌, refl, ◌∙◌, ap, Bool, true, false, not, List, [], ◌∷◌, Bytes, ◌==◌, if◌then◌else◌,
  Option, none, some, Error, get_elem?, set,
}
use ijson.Prelude.Int.{ℤ}
use ijson.Mapper.{Added}
use ijson.Broker.{
  Connect, Message, QueueLine, Server, Run, ok, thrown, fault, hang, M, pure, throw, skip, gets,
  modify, connect, update, link, unlink, generate_id, write_mode_on, and_then, ◌>>=◌, ◌>>◌,
}
use ijson.Broker.Waiting.{Waiting}
use ijson.Broker.Http.{status, header, done_body, done, done_error, reply}
use ijson.Broker.Queues.{
  line_of, settle, create_line, get_queue, update_line, line, set_workers, set_clients,
}

-- The map is `w` after a return and after an exception.
abbrev pub Stays : {A : Type 0} → Waiting → Run A → Type 0
Stays w (Run.ok a t) = t.wait_response ≡ w
Stays w (Run.thrown e t) = t.wait_response ≡ w
Stays w fault = Unit {0}
Stays w hang = Unit {0}

pub record Still {A : Type 0} (m : M A) : Type 0 where
  pub at : (s : Server) → Stays s.wait_response (m s)

pub Stays-as : {A : Type 0} (v w : Waiting) (r : Run A) → v ≡ w → Stays v r → Stays w r
Stays-as v w (Run.ok a t) e h = h ∙ e
Stays-as v w (Run.thrown x t) e h = h ∙ e
Stays-as v w fault e h = tt
Stays-as v w hang e h = tt

Stays-if :
    {A : Type 0} (w : Waiting) (b : Bool) (x y : Run A)
    → Stays w x
    → Stays w y
    → Stays w (if b then x else y)
Stays-if w true x y h k = h
Stays-if w false x y h k = k

module _ {A : Type 0} where
  pub Still-pure : (a : A) → Still (pure a)
  unfolding pure
  Still-pure a = record { at = λ s. refl }

  pub Still-throw : (e : Error) → Still (throw {A = A} e)
  unfolding throw
  Still-throw e = record { at = λ s. refl }

  pub Still-option :
      {B : Type 0} (o : Option B) (m : M A) (f : B → M A)
      → Still m
      → ((b : B) → Still (f b))
      → Still (elim o as (λ _. M A) [ none ↦ m | some b ↦ f b ])
  Still-option none m f h k = h
  Still-option (some b) m f h k = k b

  pub Still-if : (b : Bool) (m n : M A) → Still m → Still n → Still (if b then m else n)
  Still-if true m n h k = h
  Still-if false m n h k = k

  pub Still-gets : (f : Server → A) → Still (gets f)
  unfolding gets
  Still-gets f = record { at = λ s. refl }

pub Still-skip : Still skip
unfolding skip
Still-skip = record { at = λ s. refl }

pub Still-connect : (c : ℕ) → Still (connect c)
unfolding connect
Still-connect c = record { at = λ s. refl }

pub Still-update : (c : ℕ) (f : Connect → Connect) → Still (update c f)
unfolding update
Still-update c f = record { at = λ s. refl }

pub Still-modify :
    (f : Server → Server)
    → ((s : Server) → (f s).wait_response ≡ s.wait_response)
    → Still (modify f)
unfolding modify
Still-modify f e = record { at = e }

module _ {A B : Type 0} where
  pub Still-next : (m : M A) (f : A → M B) → Still m → ((a : A) → Still (f a)) → Still (m >>= f)
  unfolding ◌>>=◌
  Still-next m f h k = record { at = λ s. after s.wait_response (m s) (h.at s) }
    where
      after : (w : Waiting) (r : Run A) → Stays w r → Stays w (and_then r f)
      after w (Run.ok a t) e = Stays-as t.wait_response w (f a t) e ((k a).at t)
      after w (Run.thrown x t) e = e
      after w fault e = tt
      after w hang e = tt

  pub Still-then : (m : M A) (n : M B) → Still m → Still n → Still (m >> n)
  unfolding ◌>>◌ ◌>>=◌
  Still-then m n h k = Still-next m (λ _. n) h (λ _. k)

pub Still-update_line : (q : ℕ) (f : QueueLine → QueueLine) → Still (update_line q f)
unfolding update_line
Still-update_line q f = record { at = λ s. at_slot s (get_elem? s.queue_list q) }
  where
    at_slot :
        (s : Server) (o : Option (Option QueueLine))
        → Stays s.wait_response (elim o [
          | some (some l) ↦ Run.ok tt (record s { queue_list = set s.queue_list q (some (f l)) })
          | _ ↦ fault
        ])
    at_slot s none = tt
    at_slot s (some none) = tt
    at_slot s (some (some l)) = refl

pub Still-line : (q : ℕ) → Still (line q)
unfolding line
Still-line q = record { at = λ s. at_slot s (get_elem? s.queue_list q) }
  where
    at_slot :
        (s : Server) (o : Option (Option QueueLine))
        → Stays s.wait_response (elim o [ some (some l) ↦ Run.ok l s | _ ↦ fault ])
    at_slot s none = tt
    at_slot s (some none) = tt
    at_slot s (some (some l)) = refl

pub Still-set_workers : (q r : ℕ) (ws : List ℕ) → Still (set_workers q r ws)
unfolding set_workers
Still-set_workers q r ws = Still-update_line q _

pub Still-set_clients : (q r : ℕ) (ms : List Message) → Still (set_clients q r ms)
unfolding set_clients
Still-set_clients q r ms = Still-update_line q _

pub same_waiting : {A : Type 0} (x : A) → x ≡ x
same_waiting x = refl

pub ruleset basic_rules = (
  same_waiting, Still-modify, Still-pure, Still-throw, Still-if, Still-option, Still-skip,
  Still-gets, Still-connect, Still-update, Still-next, Still-then, Still-line, Still-set_workers,
  Still-set_clients,
)

pub Still-line_of : (n : ℕ) → Still (line_of n)
unfolding line_of
Still-line_of n = record { at = λ s. at_slot s (get_elem? s.queue_list (n - 1)) }
  where
    at_slot :
        (s : Server) (o : Option (Option QueueLine))
        → Stays s.wait_response (elim o [
          | none ↦ fault
          | some none ↦ Run.ok none s
          | some (some l) ↦ Run.ok (some (n - 1)) s
        ])
    at_slot s none = tt
    at_slot s (some none) = refl
    at_slot s (some (some l)) = refl

settle-Stays : (i : ℕ) (a : Added) (s : Server) → Stays s.wait_response (settle i a s)
unfolding settle
settle-Stays i (Added.done m) s = refl
settle-Stays i (Added.thrown m) s = refl
settle-Stays i Added.deadlock s = tt

pub Still-create_line : (key : Bytes) → Still (create_line key)
unfolding create_line
Still-create_line key = record { at = λ s. settle-Stays _ _ _ }

pub Still-get_queue : (key : Bytes) (create : Bool) → Still (get_queue key create)
unfolding get_queue
Still-get_queue key create = search (basic_rules, Still-line_of, Still-create_line) depth 12

pub Still-link : (c : ℕ) → Still (link c)
unfolding link
Still-link c = search basic_rules

pub Still-unlink : (c : ℕ) → Still (unlink c)
unfolding unlink
Still-unlink c = record {
  at = λ s.
      Stays-if s.wait_response ((s.connects c).link == 0) _ _ refl
        (Stays-if s.wait_response ((s.connects c).link == 1) _ _ refl refl);
}

pub Still-generate_id : Still generate_id
unfolding generate_id
Still-generate_id = record { at = λ s. refl }

pub Still-write_mode_on : (c : ℕ) → Still (write_mode_on c)
unfolding write_mode_on
Still-write_mode_on c = search basic_rules depth 12

pub Still-status : (c : ℕ) (line : Bytes) → Still (status c line)
unfolding status
Still-status c line = search basic_rules

pub Still-header : (c : ℕ) (key value : Bytes) → Still (header c key value)
unfolding header
Still-header c key value = search basic_rules

pub Still-done_body : (c : ℕ) (body : Bytes) → Still (done_body c body)
unfolding done_body
Still-done_body c body = search (basic_rules, Still-write_mode_on)

pub Still-done : (c : ℕ) → Still (done c)
unfolding done
Still-done c = search (basic_rules, Still-write_mode_on)

pub Still-done_error : (c : ℕ) (e : ℤ) → Still (done_error c e)
unfolding done_error
Still-done_error c e = search (basic_rules, Still-done_body, Still-done)

pub Still-reply : (c : ℕ) (line : Bytes) (e : ℤ) → Still (reply c line e)
unfolding reply
Still-reply c line e = search (basic_rules, Still-status, Still-done_error)

pub ruleset still_rules = (
  basic_rules, Still-get_queue, Still-link, Still-unlink, Still-generate_id, Still-status,
  Still-header, Still-done_body, Still-reply,
)
