-- ===== src/Mapper.antt =====
-- src/mapper.h and src/mapper.cpp: the trie that maps queue names, and patterns that end in `*`, to
-- 16-bit values. A block of steps is a function of the step's number, from 1; `cap` of them are
-- allocated. An add works on a copy once it has to grow the block, and publishes it at its end.
pub mod View
pub mod Shape
pub mod Lookup
pub mod Link
pub mod Write
pub mod Descend
pub mod Loop
pub mod Del
pub mod Add
pub mod Spec
use ijson.Prelude.{
  ℕ, zero, suc, ◌+◌, ◌-◌, ◌*◌, ◌%◌, ◌^◌, Bool, true, false, ◌||◌, List, [], ◌∷◌, Bytes, ltb, leb,
  ◌==◌, if◌then◌else◌, Option, none, some,
}

pub record Step : Type 0 where
  pub end : ℕ
  pub std : ℕ
  pub k : ℕ → ℕ

abbrev pub Block : Type 0
Block = ℕ → Step

-- What `memset` leaves.
abbrev pub zero_step : Step
zero_step = record { end = 0; std = 0; k = λ _. 0 }

abbrev pub zero_block : Block
zero_block _ = zero_step

pub record Mapper : Type 0 where
  pub size : ℕ
  pub cap : ℕ
  pub abuf : Block
  pub buf_t : Option Block
  pub locked : Bool
  pub retired : List Block

-- The constructor.
unfoldable pub init : Mapper
init = record { size = 1; cap = 4; abuf = zero_block; buf_t = none; locked = false; retired = [] }

-- `get_step_t` reads, and writes, the copy if there is one.
unfoldable pub current : Mapper → Block
current m = elim m.buf_t [ none ↦ m.abuf | some b ↦ b ]

unfoldable pub with_current : Mapper → Block → Mapper
with_current m b = elim m.buf_t [
  | none ↦ record m { abuf = b }
  | some _ ↦ record m { buf_t = some b }
]

abbrev pub write : Block → ℕ → Step → Block
write b n s q = if q == n then s else b q

abbrev pub set_k : Step → ℕ → ℕ → Step
set_k s i v = record s { k = λ j. if j == i then v else s.k j }

-- `memcpy` or `realloc` of the old steps, `memset` of the new ones.
unfoldable pub grow : Block → ℕ → Block
grow b old_cap n = if leb n old_cap then b n else zero_step

-- `_next`: the number of a new step; it is a 16-bit number.
unfoldable pub next_step : Mapper → Mapper × ℕ
unfolding current grow
next_step m =
    let size = m.size + 1 in
    if leb size m.cap then (record m { size = size }, size % 2 ^ 16) else (
      record m {
        size = size;
        cap = if leb 512 m.cap then m.cap + 256 else m.cap * 2;
        buf_t = some (grow (current m) m.cap);
      },
      size % 2 ^ 16,
    )

abbrev pub is_wrong : ℕ → Bool
is_wrong a = ltb a 32 || leb 128 a

-- One round of the loop of `add`: to the child for a character, made if it is not there.
unfoldable pub descend : Mapper → ℕ → ℕ → Mapper × ℕ
unfolding current with_current next_step
descend m nstep i =
    let child = (current m nstep).k i in
    let made = next_step m in
    let b = current made.0 in
    if child == 0
    then (with_current made.0 (write b nstep (set_k (b nstep) i made.1)), made.1)
    else (m, child)

-- The loop of `add`; `false` is the exception "Wrong char".
unfoldable pub add_loop : Mapper → ℕ → Bytes → ℕ → Mapper × Bool
unfolding current with_current descend
add_loop m nstep [] value =
    let b = current m in (with_current m (write b nstep (record (b nstep) { end = value })), true)
add_loop m nstep (a ∷ s) value =
    let b = current m in
    let rest = (let d = descend m nstep (a - 32) in add_loop d.0 d.1 s value) in
    if a == b'*'
    then (with_current m (write b nstep (record (b nstep) { std = value })), true)
    else if is_wrong a
    then (m, false)
    else rest

-- The end of `add`: the copy is published, and the old block is left to the service thread.
unfoldable pub publish : Mapper → Mapper
publish m = elim m.buf_t [
  | none ↦ record m { locked = false }
  | some b ↦ record m { abuf = b; buf_t = none; locked = false; retired = m.abuf ∷ m.retired }
]

pub data Added : Type 0 where
  done : Mapper → Added
  thrown : Mapper → Added
  deadlock : Added

-- `add`. The exception leaves the mutex locked, and a locked mutex is waited for without end.
unfoldable pub add : Mapper → Bytes → ℕ → Added
unfolding add_loop publish
add m name value =
    if m.locked
    then deadlock
    else let r = add_loop (record m { locked = true }) 1 name value in
      if r.1 then done (publish r.0) else thrown r.0

-- The loop of `find`, over the published block.
unfoldable pub find_loop : Block → ℕ → ℕ → Bytes → ℕ
find_loop b n std [] =
    let std' = if (b n).std == 0 then std else (b n).std in
    if (b n).end == 0 then std' else (b n).end
find_loop b n std (a ∷ s) =
    let std' = if (b n).std == 0 then std else (b n).std in
    let next = (b n).k (a - 32) in
    let rest = find_loop b next std' s in
    if is_wrong a then std' else if next == 0 then std' else rest

unfoldable pub find : Mapper → Bytes → ℕ
unfolding find_loop
find m name = find_loop m.abuf 1 0 name

-- The loop of `del`, over the published block: the value that is cleared, or 0.
unfoldable pub del_loop : Block → ℕ → Bytes → Block × ℕ
del_loop b n [] = (write b n (record (b n) { end = 0 }), (b n).end)
del_loop b n (a ∷ s) =
    let next = (b n).k (a - 32) in
    let rest = del_loop b next s in
    if a == b'*'
    then (write b n (record (b n) { std = 0 }), (b n).std)
    else if is_wrong a
    then (b, 0)
    else if next == 0
    then (b, 0)
    else rest

unfoldable pub del : Mapper → Bytes → Mapper × ℕ
unfolding del_loop
del m name = let r = del_loop m.abuf 1 name in (record m { abuf = r.0 }, r.1)
