-- ===== src/Broker/Waiting.antt =====
-- The clients that wait for a result under an id, `wait_response` of src/server.h.
use ijson.Prelude.{ℕ, ◌≡◌, refl, ap, List, [], ◌∷◌, Bytes, if◌then◌else◌, arith, none, some}
use ijson.Slice.{equal}
use ijson.Slice.Compare.{equal_iff, equal_refl}
use ijson.Broker.{find_waiting, erase_waiting, put_waiting}

abbrev pub Waiting : Type 0
Waiting = List (Bytes × ℕ)

-- A `std::map` holds a key once.
abbrev pub IsMap : Waiting → Type 0
IsMap [] = Unit {0}
IsMap ((j, c) ∷ m) = (find_waiting j m ≡ none) × IsMap m

-- After an assignment to an id the entry of that id is the client assigned, and the entry of every
-- other id is that of before.
pub find-put :
    (i j : Bytes) (c : ℕ) (m : Waiting)
    → find_waiting i (put_waiting j c m) ≡ (if equal i j then some c else find_waiting i m)
unfolding find_waiting put_waiting
find-put i j c [] = refl
find-put i j c ((k, d) ∷ m) =
    ground (arith, equal_iff i j, equal_iff j k, equal_iff i k, find-put i j c m)

find-same : (i j : Bytes) (m : Waiting) → i ≡ j → find_waiting i m ≡ find_waiting j m
find-same i j m e = ap (λ k. find_waiting k m) e

-- In a map with distinct keys, after an erasure of an id there is no entry of that id, and the
-- entry of every other id is that of before.
pub find-erase :
    (i j : Bytes) (m : Waiting)
    → IsMap m
    → find_waiting i (erase_waiting j m) ≡ (if equal i j then none else find_waiting i m)
unfolding find_waiting erase_waiting
find-erase i j [] h = ground arith
find-erase i j ((k, d) ∷ m) h =
    ground
      (arith, equal_iff i j, equal_iff j k, equal_iff i k, find-erase i j m h.1, find-same i k m)

pub put-IsMap : (i : Bytes) (c : ℕ) (m : Waiting) → IsMap m → IsMap (put_waiting i c m)
unfolding put_waiting
put-IsMap i c [] h = unfold find_waiting in (refl, tt)
put-IsMap i c ((k, d) ∷ m) h =
    ground (arith, equal_iff i k, equal_iff k i, find-put k i c m, put-IsMap i c m h.1)

pub erase-IsMap : (i : Bytes) (m : Waiting) → IsMap m → IsMap (erase_waiting i m)
unfolding erase_waiting
erase-IsMap i [] h = tt
erase-IsMap i ((k, d) ∷ m) h =
    ground (arith, find-erase k i m h.1, equal_iff k i, erase-IsMap i m h.1)

-- An entry that is made for an id without one and is erased again leaves the map as it was.
pub erase-put :
    (i : Bytes) (c : ℕ) (m : Waiting)
    → find_waiting i m ≡ none
    → erase_waiting i (put_waiting i c m) ≡ m
unfolding find_waiting put_waiting erase_waiting
erase-put i c [] h = ground (arith, equal_refl i)
erase-put i c ((k, d) ∷ m) h = ground (arith, equal_refl i, erase-put i c m)
