-- ===== src/Broker/Sound/Once.antt =====
-- A job is answered once: `worker_result` in the states that the broker comes to.
use ijson.Prelude.{refl, ℕ, ◌≡◌, ap, ◌∙◌, ◌<◌, Bool, false, List, Bytes, Option, none, some, arith}
use ijson.Prelude.Int.{pos, negsuc}
use ijson.Slice.Compare.{equal_refl}
use ijson.Broker.{Server, ok, find_waiting, erase_waiting, ◌>>=◌, gets, pure}
use ijson.Broker.Answer.{worker_result}
use ijson.Broker.Round.{started, Reach}
use ijson.Broker.Waiting.{IsMap, Waiting, find-erase}
use ijson.Broker.Deliver.{Delivered, worker_result_lem}
use ijson.Broker.Sound.Steps.{Reach-IsSound}

worker_result-none :
    (id : Bytes) (worker : Option ℕ) (s : Server)
    → find_waiting id s.wait_response ≡ none
    → worker_result id worker s ≡ ok (negsuc 0) s
unfolding worker_result ◌>>=◌ gets pure
worker_result-none id worker s e = rw e refl

find-erased : (id : Bytes) (m : Waiting) → IsMap m → find_waiting id (erase_waiting id m) ≡ none
find-erased id m h = ground (arith, find-erase id id m h, equal_refl id)

-- In a state that is reached from the start, the result of a worker for the id of an open client
-- that has a link reaches the client, and directly after it every result or disconnect for the id
-- finds no client: it returns -1 and changes nothing.
pub worker_result-once :
    (threads : ℕ) (jsonrpc2 : Bool) (now : ℕ) (random : List ℕ) (id : Bytes) (client worker : ℕ)
    (s : Server)
    → Reach (started threads jsonrpc2 now random) s
    → find_waiting id s.wait_response ≡ some client
    → (s.connects client).closed ≡ false
    → 0 < (s.connects client).link
    → (t : Server) × (worker_result id (some worker) s ≡ ok (pos 0) t)
      × Delivered id client worker s t
      × ((later : Option ℕ) → worker_result id later t ≡ ok (negsuc 0) t)
worker_result-once threads jsonrpc2 now random id client worker s r e o l =
    let (t, p, d) = worker_result_lem id client worker s e o l in
    let m = (Reach-IsSound threads jsonrpc2 now random s r).waiting in
    (
      t,
      p,
      d,
      λ later.
          worker_result-none id later t
            (ap (find_waiting id) d.waiting ∙ find-erased id s.wait_response m),
    )
