-- ===== src/Broker/Sound/Lines.antt =====
-- What the operations on the queue lines keep: a line that is read is in order, and one that is
-- written has to be.
use ijson.Prelude.{
  ◌-◌, subst, ℕ, ◌≡◌, zero, suc, refl, Bool, true, false, List, [], ◌∷◌, Bytes, ◌==◌, if◌then◌else◌,
  Option, none, some, get_elem?, set,
}
use mathlib.Core.Option.{some-injective}
use ijson.Mapper.{Added, done, thrown, deadlock}
use ijson.Broker.{Message, Queue, QueueLine, Server, ok, fault, M, ◌>>=◌}
use ijson.Broker.Queues.{
  empty_line, place, line_of, settle, create_line, get_queue, update_line, line, set_workers,
  set_clients,
}
use ijson.Broker.Priority.{IsOrdered}
use ijson.Broker.Sound.{AreLines, IsLine, IsSound, Ends, Keeps, Any, Keeps-bind, keeps_rules}

AreLines-get :
    (ls : List (Option QueueLine)) (q : ℕ) (l : QueueLine)
    → AreLines ls
    → get_elem? ls q ≡ some (some l)
    → IsLine l
AreLines-get [] q l h e = cc
AreLines-get (none ∷ ls) zero l h e = cc
AreLines-get (none ∷ ls) (suc q) l h e = AreLines-get ls q l h e
AreLines-get (some m ∷ ls) zero l h e = subst IsLine (some-injective _ _ (some-injective _ _ e)) h.0
AreLines-get (some m ∷ ls) (suc q) l h e = AreLines-get ls q l h.1 e

AreLines-set :
    (ls : List (Option QueueLine)) (q : ℕ) (l : QueueLine)
    → AreLines ls
    → IsLine l
    → AreLines (set ls q (some l))
AreLines-set [] q l h k = tt
AreLines-set (none ∷ ls) zero l h k = (k, h)
AreLines-set (none ∷ ls) (suc q) l h k = AreLines-set ls q l h k
AreLines-set (some m ∷ ls) zero l h k = (k, h.1)
AreLines-set (some m ∷ ls) (suc q) l h k = (h.0, AreLines-set ls q l h.1 k)

pub AreLines-none : (ls : List (Option QueueLine)) (q : ℕ) → AreLines ls → AreLines (set ls q none)
AreLines-none [] q h = tt
AreLines-none (none ∷ ls) zero h = h
AreLines-none (none ∷ ls) (suc q) h = AreLines-none ls q h
AreLines-none (some m ∷ ls) zero h = h.1
AreLines-none (some m ∷ ls) (suc q) h = (h.0, AreLines-none ls q h.1)

AreLines-place :
    (l : QueueLine) (ls : List (Option QueueLine))
    → IsLine l
    → AreLines ls
    → AreLines (place l ls).1
unfolding place
AreLines-place l [] k h = (k, tt)
AreLines-place l (none ∷ ls) k h = (k, h)
AreLines-place l (some m ∷ ls) k h = (h.0, AreLines-place l ls k h.1)

read-Ends :
    (s : Server) (q : ℕ) (o : Option (Option QueueLine))
    → IsSound s
    → get_elem? s.queue_list q ≡ o
    → Ends IsLine (elim o [ some (some l) ↦ ok l s | _ ↦ fault ])
read-Ends s q none h e = tt
read-Ends s q (some none) h e = tt
read-Ends s q (some (some l)) h e = (h, AreLines-get s.queue_list q l h.lines e)

line-Keeps : (q : ℕ) → Keeps IsLine (line q)
unfolding line
line-Keeps q = record { at = λ s h. read-Ends s q (get_elem? s.queue_list q) h refl }

pub Keeps-line :
    {B : Type 0} {Q : B → Type 0} (q : ℕ) (f : QueueLine → M B)
    → ((l : QueueLine) → IsLine l → Keeps Q (f l))
    → Keeps Q (line q >>= f)
Keeps-line q f kf = Keeps-bind (line q) f (line-Keeps q) kf

-- A change of a line that keeps every queue in order.
pub Keeps-update_line :
    (q : ℕ) (f : QueueLine → QueueLine)
    → ((l : QueueLine) → IsLine l → IsLine (f l))
    → Keeps Any (update_line q f)
unfolding update_line
Keeps-update_line q f k = record { at = λ s h. at_slot s h (get_elem? s.queue_list q) refl }
  where
    at_slot :
        (s : Server)
        → IsSound s
        → (o : Option (Option QueueLine)) → get_elem? s.queue_list q ≡ o
        → Ends Any (elim o [
          | some (some l) ↦ ok tt (record s { queue_list = set s.queue_list q (some (f l)) })
          | _ ↦ fault
        ])
    at_slot s h none e = tt
    at_slot s h (some none) e = tt
    at_slot s h (some (some l)) e = (
      record {
        waiting = h.waiting;
        lines =
            AreLines-set s.queue_list q (f l) h.lines
              (k l (AreLines-get s.queue_list q l h.lines e));
      },
      tt,
    )

stored-IsOrdered :
    (b : Bool) (v w : Queue)
    → IsOrdered v.clients
    → IsOrdered w.clients
    → IsOrdered (if b then v else w).clients
stored-IsOrdered true v w h k = h
stored-IsOrdered false v w h k = k

pub Keeps-set_workers : (q r : ℕ) (ws : List ℕ) → Keeps Any (set_workers q r ws)
unfolding set_workers
Keeps-set_workers q r ws =
    Keeps-update_line q _ (λ l h i. stored-IsOrdered (i == r) _ _ (h r) (h i))

pub Keeps-set_clients :
    (q r : ℕ) (ms : List Message) → IsOrdered ms → Keeps Any (set_clients q r ms)
unfolding set_clients
Keeps-set_clients q r ms k = Keeps-update_line q _ (λ l h i. stored-IsOrdered (i == r) _ _ k (h i))

empty_line-IsLine : (key : Bytes) → IsLine (empty_line key)
empty_line-IsLine key r = tt

found-Ends :
    (s : Server) (n : ℕ) (o : Option (Option QueueLine))
    → IsSound s
    → Ends Any (elim o [ none ↦ fault | some none ↦ ok none s | some (some l) ↦ ok (some n) s ])
found-Ends s n none h = tt
found-Ends s n (some none) h = (h, tt)
found-Ends s n (some (some l)) h = (h, tt)

line_of-Keeps : (n : ℕ) → Keeps Any (line_of n)
unfolding line_of
line_of-Keeps n = record { at = λ s h. found-Ends s (n - 1) (get_elem? s.queue_list (n - 1)) h }

settle-Ends : (i : ℕ) (a : Added) (s : Server) → IsSound s → Ends Any (settle i a s)
unfolding settle
settle-Ends i (done m) s h = (record { waiting = h.waiting; lines = h.lines }, tt)
settle-Ends i (thrown m) s h = record { waiting = h.waiting; lines = h.lines }
settle-Ends i deadlock s h = tt

create_line-Keeps : (key : Bytes) → Keeps Any (create_line key)
unfolding create_line
create_line-Keeps key = record {
  at = λ s h. settle-Ends _ _ _ (record {
    waiting = h.waiting;
    lines = AreLines-place (empty_line key) s.queue_list (empty_line-IsLine key) h.lines;
  });
}

pub get_queue-Keeps : (key : Bytes) (create : Bool) → Keeps Any (get_queue key create)
unfolding get_queue
get_queue-Keeps key create = search (keeps_rules, line_of-Keeps, create_line-Keeps) depth 12

pub ruleset lines_rules =
    (keeps_rules, Keeps-line, Keeps-set_workers, Keeps-set_clients, get_queue-Keeps)
