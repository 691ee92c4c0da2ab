-- ===== src/Service/Share.antt =====
-- The share of its processor that a thread has used, and the balance, in src/service.cpp.
use native.Mathlib.Nat.{div-le_of_le-mul}
use ijson.Prelude.{ℕ, ◌-◌, ◌*◌, ◌/◌, ◌%◌, ◌^◌, ◌≡◌, ◌≤◌, ◌<◌, ap, ◌∙◌, List, arith}
use ijson.Prelude.Int.{pos}
use ijson.Broker.{Server, ok}
use ijson.Service.{active_loop}
use ijson.Service.Balance.{IsActive}
use ijson.Service.Thread.{Service, sub_64, to_int, percent, percents, loads, balance}

-- Clocks that do not run over give the plain difference.
sub_64_lem : (a b : ℕ) → b ≤ a → a < 2 ^ 64 → sub_64 a b ≡ a - b
sub_64_lem a b h k = omega arith

share_most : (d frame : ℕ) → 0 < frame → d ≤ frame → (d * 100) / frame ≤ 100
share_most d frame h k = div-le_of_le-mul frame (omega arith)

to_int-small : (q : ℕ) → q ≤ 100 → to_int q ≡ pos q
to_int-small q h = ground arith

no_wrap : (a : ℕ) → a < 2 ^ 64 → a % 2 ^ 64 ≡ a
no_wrap a h = omega arith

-- A thread that has used at most the time that has gone by, by 64-bit clocks that do not run over,
-- with less than 2 ^ 64 / 100 nanoseconds gone by, has the percentage that is its share of the
-- time, rounded down, which is at most 100.
pub percent_lem :
    (frame usage used : ℕ)
    → 0 < frame
    → frame * 100 < 2 ^ 64
    → usage < 2 ^ 64
    → used ≤ usage
    → usage - used ≤ frame
    → (percent frame usage used ≡ pos ((usage - used) * 100 / frame))
      × ((usage - used) * 100 / frame ≤ 100)
unfolding percent
percent_lem frame usage used h small k l m =
    let d = usage - used in
    let most = share_most d frame h m in
    (
      ap (λ z. to_int (z * 100 % 2 ^ 64 / frame)) (sub_64_lem usage used l k)
          ∙ ap (λ z. to_int (z / frame)) (no_wrap (d * 100) (omega arith))
          ∙ to_int-small (d * 100 / frame) most,
      most,
    )

-- What the balance leaves: the new clocks, and an active loop that is one of the loops, the one that
-- the percentages ask for.
pub record Balanced (now : ℕ) (usages : List ℕ) (v : Service) (s : Server) : Type 0 where
  pub final : Server
  pub locals : Service
  pub returns : balance now usages v s ≡ ok locals final
  pub clocks : (locals.used ≡ usages) × (locals.prev_time ≡ now)
  pub kept : (locals.threads ≡ v.threads) × (locals.clean_tasks ≡ v.clean_tasks)
  pub active : IsActive (loads (percents (sub_64 now v.prev_time) usages v.used)) final.active_loop
  pub bound : final.active_loop < v.threads
  pub connects : final.connects ≡ s.connects
  pub lines : final.queue_list ≡ s.queue_list
