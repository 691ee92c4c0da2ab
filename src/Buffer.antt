-- ===== src/Buffer.antt =====
-- The class Buffer of src/buffer.h: a block of memory of `cap` bytes, of which the first `size` are
-- the content. Memory past the content is not kept. Sizes are below 2^31; `malloc` succeeds.
pub mod Capacity
pub mod Digits
use ijson.Prelude.{
  ℕ, zero, suc, ◌+◌, ◌-◌, ◌*◌, ◌/◌, ◌%◌, Bool, true, false, ◌&&◌, List, [], ◌∷◌, ◌++◌, Bytes, ltb,
  leb, ◌==◌, if◌then◌else◌, length, take, drop, Option, none, some, Result, ok, err, no_data,
}
use ijson.Prelude.Int.{ℤ, pos, negsuc}

pub record Buffer : Type 0 where
  pub allocated : Bool
  pub cap : ℕ
  pub content : Bytes

unfoldable pub empty_buffer : Buffer
empty_buffer = record { allocated = false; cap = 0; content = [] }

-- The loop of `_get_cap`, on fuel.
unfoldable pub get_cap_loop : ℕ → ℕ → ℕ → ℕ → ℕ
get_cap_loop zero size cap step = cap
get_cap_loop (suc fuel) size cap step =
    let next = get_cap_loop fuel size (cap + step) (if ltb step 4096 then step * 2 else step) in
    if ltb cap size then next else cap

-- `_get_cap`. A round adds at least one byte, so `size` rounds are enough.
unfoldable pub get_cap : ℕ → ℕ
unfolding get_cap_loop
get_cap size = get_cap_loop size size 16 16

-- `resize(capacity)`
unfoldable pub resize : Buffer → ℕ → Buffer
resize b capacity =
    if b.allocated
    then (if ltb b.cap capacity then record b { cap = get_cap capacity } else b)
    else record b { allocated = true; cap = get_cap capacity }

-- `resize(capacity, size)`. A size past the end of the block is `none`: the caller writes the content.
unfoldable pub resize_to : Buffer → ℕ → ℕ → Option Buffer
unfolding resize
resize_to b capacity size =
    let b' = resize b capacity in
    if ltb b'.cap size then none else some (record b' { content = take size b'.content })

-- `add(buf, size)`; `none` is the null pointer.
unfoldable pub add : Buffer → Option Bytes → Result Buffer
add b none = err no_data
add b (some s) =
    let b' = resize b (length b.content + length s) in ok (record b' { content = b.content ++ s })

-- One round of `add(const char *)`: the block grows when it is full.
unfoldable pub put : Buffer → ℕ → Buffer
put b c =
    let b' = if leb b.cap (length b.content) then resize b (length b.content + 1) else b in
    record b' { content = b.content ++ c ∷ [] }

-- `add(const char *)`
unfoldable pub add_text : Buffer → Bytes → Buffer
unfolding put
add_text b [] = b
add_text b (c ∷ s) = add_text (put b c) s

unfoldable pub clear : Buffer → Buffer
clear b = record b { content = [] }

-- `set(buf, size)`
unfoldable pub set : Buffer → Option Bytes → Result Buffer
unfolding clear add
set b s = add (clear b) s

unfoldable pub remove_left : Buffer → ℕ → Buffer
remove_left b n =
    if n == 0
    then b
    else if leb (length b.content) n
    then record b { content = [] }
    else record b { content = drop n b.content }

-- `move(buf)`: the two blocks are swapped, and the other buffer is left empty.
unfoldable pub move : Buffer → Buffer → Buffer × Buffer
move a b = (
  record { allocated = b.allocated; cap = b.cap; content = b.content },
  record { allocated = a.allocated; cap = a.cap; content = [] },
)

-- The digits of `add_number`, written from the right into `slots` free bytes.
unfoldable pub digits : ℕ → ℕ → Bytes → Bytes
digits zero n out = out
digits (suc slots) n out =
    let more = digits slots (n / 10) ((n % 10 + b'0') ∷ out) in if n == 0 then out else more

-- What `add_number` appends: 20 slots. For -2^63 the source's `-n` is undefined.
unfoldable pub number : ℤ → Bytes
unfolding digits
number (pos zero) = b'0' ∷ []
number (pos (suc n)) = digits 20 (suc n) []
number (negsuc n) = b'-' ∷ digits 20 (suc n) []

unfoldable pub add_number : Buffer → ℤ → Result Buffer
add_number b n = add (resize b (length b.content + 20)) (some (number n))

unfoldable pub hex_char : ℕ → ℕ
hex_char d = if ltb d 10 then b'0' + d else b'a' + (d - 10)

-- The loop of `add_hex`: `n & 0xf` and `n >> 4`, into `slots` free bytes.
unfoldable pub hex_digits : ℕ → ℕ → Bytes → Bytes
unfolding hex_char
hex_digits zero n out = out
hex_digits (suc slots) n out =
    let more = hex_digits slots (n / 16) (hex_char (n % 16) ∷ out) in if n == 0 then out else more

-- What `add_hex` appends: 16 slots.
unfoldable pub hex : ℕ → Bytes
unfolding hex_digits
hex zero = b'0' ∷ []
hex (suc n) = hex_digits 16 (suc n) []

unfoldable pub add_hex : Buffer → ℕ → Result Buffer
add_hex b n = add b (some (hex n))
