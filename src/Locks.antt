-- ===== src/Locks.antt =====
-- `Lock` of src/utils.cpp and `Server::autolock` of src/server.cpp: the mutexes that keep the loops
-- from deleting connections. A 64-bit mask is the function of its bits.
pub mod Scope
use ijson.Prelude.{
  ℕ, zero, suc, ◌+◌, Bool, true, false, not, ◌&&◌, ◌||◌, List, [], ◌∷◌, ltb, leb, ◌==◌,
  if◌then◌else◌, Option, none, some,
}

abbrev pub Mask : Type 0
Mask = ℕ → Bool

-- Lock, and which loops' mutexes are locked, by whomever.
pub record Lock : Type 0 where
  pub mask : Mask
  pub locked : ℕ → Bool

-- `1 << n` of an `int`, as a `u64`: the bit 31 is the sign, which fills the upper half; a shift by
-- more bits is undefined.
unfoldable pub shift_one : ℕ → Option Mask
shift_one n =
    if ltb n 31
    then some (λ i. i == n)
    else if n == 31
    then some (λ i. leb 31 i && ltb i 64)
    else none

-- Whether two masks of so many bits have one in common.
unfoldable pub meets : ℕ → Mask → Mask → Bool
meets zero v w = false
meets (suc n) v w = v n && w n || meets n v w

abbrev pub assign : (ℕ → Bool) → ℕ → Bool → ℕ → Bool
assign f n b i = if i == n then b else f i

-- `Lock::lock`; none where it is undefined or waits for another owner.
unfoldable pub lock : ℕ → Lock → Option Lock
unfolding shift_one meets
lock n l = elim (shift_one n) [
  | none ↦ none
  | some v ↦
      if meets 64 v l.mask
      then some l
      else if l.locked n
      then none
      else some (record { mask = λ i. l.mask i || v i; locked = assign l.locked n true })
]

-- `Lock::unlock`: its loop from the thread `i` on, which shifts the bit out after the last.
unfoldable pub unlock_from : ℕ → ℕ → Lock → Lock
unlock_from i zero l = l
unlock_from i (suc n) l =
    let held = ltb i 64 && l.mask i in
    unlock_from (suc i) n (record l { locked = if held then assign l.locked i false else l.locked })

unfoldable pub unlock : ℕ → Lock → Lock
unfolding unlock_from
unlock threads l = record (unlock_from 0 threads l) { mask = λ i. false }

abbrev pub is_except : Option ℕ → ℕ → Bool
is_except none i = false
is_except (some e) i = i == e

-- The loop of `Server::autolock` from the thread `i` on; `except` is none of them for -1.
unfoldable pub lock_from : Option ℕ → ℕ → ℕ → Lock → Option Lock
unfolding lock
lock_from except i zero l = some l
lock_from except i (suc n) l =
    let next = λ (m : Lock). lock_from except (suc i) n m in
    if is_except except i then next l else elim (lock i l) [ none ↦ none | some m ↦ next m ]

unfoldable pub autolock : ℕ → Option ℕ → (ℕ → Bool) → Option Lock
unfolding lock_from
autolock threads except locked =
    lock_from except 0 threads (record { mask = λ i. false; locked = locked })
