-- ===== src/Broker/Poll/Switching.antt =====
-- `_perform_to_send` of src/server.cpp, when the calls of `epoll_ctl` succeed.
use ijson.Prelude.{ℕ, ◌≡◌, ap, true, false, List, if◌then◌else◌, arith}
use ijson.Prelude.Int.{ℤ, pos, negsuc, eqb_ℤ}
use ijson.Broker.{Connect, Server, PollCall}
use ijson.Broker.Poll.{listed, mode_call, socket_status}
use ijson.Broker.Poll.Calls.{Made}

-- The mode that the loop wants is the mode that it has.
abbrev pub switched : Connect → Connect
switched k = record k { active = socket_status k }

abbrev call_of : Connect → ℕ × PollCall
call_of k = (k.nloop, mode_call (pos k.fd) (socket_status k))

record Switched (cs : List ℕ) (s t : Server) : Type 0 where
  pub connects :
      (c : ℕ) → t.connects c ≡ (if listed c cs then switched (s.connects c) else s.connects c)
  pub kept : (call : ℕ × PollCall) → Made call s.calls → Made call t.calls
  pub made :
      (c : ℕ)
      → listed c cs ≡ true
      → eqb_ℤ (socket_status (s.connects c)) (s.connects c).active ≡ false
      → Made (call_of (s.connects c)) t.calls
  pub places : t.connections ≡ s.connections
  pub queues : t.to_send ≡ s.to_send

pub eqb-true : (a b : ℤ) → eqb_ℤ a b ≡ true → a ≡ b
eqb-true (pos a) (pos b) e = let same : a ≡ b = ground (arith, e) in ap pos same
eqb-true (pos a) (negsuc b) e = let less : ⊥ = ground (arith, e) in elim less [ ]
eqb-true (negsuc a) (pos b) e = let less : ⊥ = ground (arith, e) in elim less [ ]
eqb-true (negsuc a) (negsuc b) e = let same : a ≡ b = ground (arith, e) in ap negsuc same
