-- ===== src/Broker/Poll/Clearing.antt =====
-- `_delete_connections` of src/server.cpp.
use ijson.Prelude.{ℕ, ◌+◌, ◌≡◌, true, false, List, [], ◌∷◌, if◌then◌else◌, ◌==◌, ◌≤◌}
use ijson.Broker.{Connect, Server}
use ijson.Broker.Pick.{times}
use ijson.Broker.Poll.{listed}

-- The connections of a list that have no link.
abbrev linkless : (ℕ → Connect) → List ℕ → List ℕ
linkless f [] = []
linkless f (c ∷ cs) = if (f c).link == 0 then c ∷ linkless f cs else linkless f cs

-- No connection of the list is deleted, and one without a link is not listed again.
abbrev AreThere : (ℕ → Connect) → List ℕ → List ℕ → Type 0
AreThere f freed [] = Unit {0}
AreThere f freed (c ∷ cs) =
    (listed c freed ≡ false) × ((f c).link ≡ 0 → listed c cs ≡ false) × AreThere f freed cs

-- What the deletion leaves when the mutex is free.
pub record Deleted (n : ℕ) (s t : Server) : Type 0 where
  pub freed :
      (c : ℕ)
      → times c t.freed
        ≡ times c s.freed + (if (s.connects c).link == 0 then times c (s.dead n) else 0)
  pub dead : (m : ℕ) → t.dead m ≡ (if m == n then [] else s.dead m)
  pub connects : t.connects ≡ s.connects
  pub places : t.connections ≡ s.connections

-- What the loop needs: no connection that is listed as dead is deleted already, and none without a
-- link is listed twice.
pub record Deletable (n : ℕ) (s : Server) : Type 0 where
  pub there : (c : ℕ) → listed c (s.dead n) ≡ true → listed c s.freed ≡ false
  pub once : (c : ℕ) → (s.connects c).link ≡ 0 → times c (s.dead n) ≤ 1
