-- ===== src/Service.antt =====
-- The choice of the active loop in `Service::_start` of src/service.cpp: new connections go to it.
-- A thread's usage of its processor is a percentage; where the source's is negative, its clock has
-- gone back.
pub mod Balance
pub mod Thread
pub mod Share
use ijson.Prelude.{ℕ, ◌+◌, List, [], ◌∷◌, ltb, if◌then◌else◌}

-- The loop from the thread `i` on, with the least used thread before it and its usage.
unfoldable pub active_from : ℕ → ℕ → ℕ → List ℕ → ℕ
active_from i min low [] = min
active_from i min low (c ∷ cs) =
    let least = if ltb c low then i else min in
    let usage = if ltb c low then c else low in
    let rest = active_from (i + 1) least usage cs in if ltb 80 c then rest else i

unfoldable pub active_loop : List ℕ → ℕ
unfolding active_from
active_loop [] = 0
active_loop (c ∷ cs) = active_from 0 0 c (c ∷ cs)
