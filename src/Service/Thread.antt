-- ===== src/Service/Thread.antt =====
-- A round of `Service::_start` of src/service.cpp. The clocks are arguments, in nanoseconds: the time of
-- day, and the time that each loop's thread has used.
use ijson.Prelude.{ℕ, ◌+◌, ◌-◌, ◌*◌, ◌/◌, ◌%◌, ◌^◌, List, [], ◌∷◌, ltb, leb, ◌==◌, if◌then◌else◌}
use ijson.Prelude.Int.{ℤ, pos, negsuc, pos_part}
use ijson.Broker.{M, pure, ◌>>=◌, ◌>>◌, modify, fault}
use ijson.Broker.Clean.{clean_dead_tasks}
use ijson.Service.{active_loop}

-- The local variables of the thread.
pub record Service : Type 0 where
  pub threads : ℕ
  pub used : List ℕ
  pub prev_time : ℕ
  pub clean_tasks : ℕ

abbrev pub at_start : ℕ → ℕ → List ℕ → Service
at_start threads now zeros = record {
  threads = threads;
  used = zeros;
  prev_time = now;
  clean_tasks = 2;
}

-- The difference of two 64-bit numbers.
abbrev pub sub_64 : ℕ → ℕ → ℕ
sub_64 a b = (a % 2 ^ 64 + 2 ^ 64 - b % 2 ^ 64) % 2 ^ 64

-- A 64-bit number as an `int`.
abbrev pub to_int : ℕ → ℤ
to_int v = let low = v % 2 ^ 32 in if ltb low (2 ^ 31) then pos low else negsuc (2 ^ 32 - low - 1)

-- The percentage of the time that a thread has used.
unfoldable pub percent : ℕ → ℕ → ℕ → ℤ
percent frame usage used = to_int (sub_64 usage used * 100 % 2 ^ 64 / frame)

unfoldable pub percents : ℕ → List ℕ → List ℕ → List ℤ
unfolding percent
percents frame [] used = []
percents frame (u ∷ us) [] = []
percents frame (u ∷ us) (v ∷ vs) = percent frame u v ∷ percents frame us vs

-- The choice is the same for a negative percentage as for 0: the loop stops at either.
abbrev pub loads : List ℤ → List ℕ
loads [] = []
loads (c ∷ cs) = pos_part c ∷ loads cs

-- `_free_memory`, the blocks of the mapper that a new one has replaced.
unfoldable pub free_memory : M (Unit {0})
free_memory = modify (λ s. record s { mapper = record s.mapper { retired = [] } })

-- Every second round cleans the queues.
unfoldable pub clean_round : Service → M Service
unfolding clean_dead_tasks
clean_round v =
    if leb v.clean_tasks 1
    then (do clean_dead_tasks; pure (record v { clean_tasks = 2 }))
    else pure (record v { clean_tasks = v.clean_tasks - 1 })

-- The balance of the loops; a division by 0 is a fault.
unfoldable pub balance : ℕ → List ℕ → Service → M Service
unfolding percents active_loop
balance now usages v =
    let frame = sub_64 now v.prev_time in
    let active = active_loop (loads (percents frame usages v.used)) in
    if ltb 1 v.threads
    then (if frame == 0 then stop else (do
      modify (λ s. record s { active_loop = active })
      pure (record v { used = usages; prev_time = now })))
    else pure v
  where
    stop : M Service
    stop s = fault

-- The body of the thread's loop.
unfoldable pub service_round : ℕ → List ℕ → Service → M Service
unfolding free_memory clean_round balance
service_round now usages v = do free_memory; v ← clean_round v; balance now usages v
