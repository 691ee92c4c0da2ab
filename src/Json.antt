-- ===== src/Json.antt =====
-- src/json.h and src/json.cpp: the scanner of the fields of one JSON object, and `unescape`. The
-- position of a scanner is the list of the bytes that are not read yet. What an exception leaves of
-- the position is not kept: a scanner is reset before it is used again.
pub mod Unread
pub mod Progress
pub mod Escape
use mathlib.Core.List.{reverse}
use Prim.Native.Nat.{bit_and, bit_or}
use ijson.Prelude.{
  ℕ, zero, suc, ◌+◌, ◌-◌, ◌/◌, ◌^◌, Bool, true, false, not, ◌&&◌, ◌||◌, List, [], ◌∷◌, ◌++◌, Bytes,
  text, ltb, leb, ◌==◌, if◌then◌else◌, length, take, drop, Option, none, some, Result, ok, err,
  invalid_data, ◌>>=◌, ◌>>◌,
}
use ijson.Prelude.Int.{ℤ, pos, negsuc, ◌-ℤ◌, eqb_ℤ}
use ijson.Slice.{equal_text, is_empty, hextoi}
use ijson.Buffer.{Buffer, resize_to}

pub record Json : Type 0 where
  pub key : Bytes
  pub value : Bytes
  pub level : ℕ
  pub status : ℕ
  pub source : Bytes
  pub unread : Bytes

-- `reset`; the level stays.
unfoldable pub reset : Json → Json
reset j = record { key = []; value = []; level = j.level; status = 0; source = []; unread = [] }

-- `load`
unfoldable pub load : Json → Bytes → ℕ → Json
unfolding reset
load j s level = record (reset j) { source = s; unread = s; level = level }

-- `next`
unfoldable pub next : Bytes → Result (ℕ × Bytes)
next [] = err invalid_data
next (a ∷ s) = ok (a, s)

-- `if(next() != c) throw`
unfoldable pub expect : ℕ → Bytes → Result Bytes
unfolding next
expect c u = do (a, s) ← next u; if a == c then ok s else err invalid_data

abbrev pub is_space : ℕ → Bool
is_space a = a == b' ' || a == b'\n' || a == b'\r' || a == b'\t'

-- `strip`
unfoldable pub strip : Bytes → Result Bytes
strip [] = err invalid_data
strip (a ∷ s) = let rest = strip s in if is_space a then rest else ok (a ∷ s)

abbrev pub consed : ℕ → Result (Bytes × Bytes) → Result (Bytes × Bytes)
consed a (ok (v, r)) = ok (a ∷ v, r)
consed a (err e) = err e

-- The loop of `read_string`, with the byte before the next one: the text, and what is unread.
unfoldable pub string_loop : ℕ → Bytes → Result (Bytes × Bytes)
string_loop prev [] = err invalid_data
string_loop prev (a ∷ s) =
    let rest = consed a (string_loop a s) in
    if (a == b'"') && not (prev == b'\\') then ok ([], s) else rest

unfoldable pub read_string : Bytes → Result (Bytes × Bytes)
unfolding expect string_loop
read_string u = do s ← expect b'"' u; string_loop b'"' s

abbrev pub ends_value : ℕ → Bool
ends_value a = a == b' ' || a == b',' || a == b'}' || a == b'\n' || a == b'\r'

abbrev pub is_digit : ℕ → Bool
is_digit a = leb b'0' a && leb a b'9'

abbrev pub consed_value : ℕ → Result (Bool × Bytes × Bytes) → Result (Bool × Bytes × Bytes)
consed_value a (ok (n, v, r)) = ok (n, a ∷ v, r)
consed_value a (err e) = err e

-- The loop of `read_value`, after `count` bytes: whether all are digits, the value, and what is
-- unread, the byte that ends the value among it.
unfoldable pub value_loop : ℕ → Bool → Bytes → Result (Bool × Bytes × Bytes)
value_loop count is_number [] = err invalid_data
value_loop count is_number (a ∷ s) =
    let still = is_number && is_digit a in
    let rest = consed_value a (value_loop (count + 1) still s) in
    if ends_value a
    then ok (is_number, [], a ∷ s)
    else if not still && ltb 5 (count + 1)
    then err invalid_data
    else rest

abbrev pub is_literal : Bytes → Bool
is_literal v =
    equal_text v (text "null") || equal_text v (text "true") || equal_text v (text "false")

unfoldable pub read_value : Bytes → Result (Bytes × Bytes)
unfolding value_loop equal_text
read_value u = do
  (is_number, v, r) ← value_loop 0 true u
  if is_number || is_literal v then ok (v, r) else err invalid_data

abbrev pub opens : ℕ → Bool
opens a = a == b'{' || a == b'['

abbrev pub closes : ℕ → Bool
closes a = a == b'}' || a == b']'

-- The loop of `read_object`, on fuel: what is unread after the bracket that closes the first one.
unfoldable pub object_loop : ℕ → ℤ → Bytes → Result Bytes
unfolding ◌-ℤ◌ read_string
object_loop zero lvl u = err invalid_data
object_loop (suc fuel) lvl [] = err invalid_data
object_loop (suc fuel) lvl (a ∷ s) =
    let deeper = object_loop fuel (lvl -ℤ negsuc 0) s in
    let up = lvl -ℤ pos 1 in
    let shallower = object_loop fuel up s in
    let quoted = (do (v, r) ← read_string (a ∷ s); object_loop fuel lvl r) in
    let same = object_loop fuel lvl s in
    if opens a
    then deeper
    else if closes a
    then (if eqb_ℤ up (pos 0) then ok s else shallower)
    else if a == b'"'
    then quoted
    else same

-- Each round reads a byte, so one round more than there are bytes is enough.
unfoldable pub read_object : Bytes → Result (Bytes × Bytes)
unfolding object_loop
read_object u = do r ← object_loop (length u + 1) (pos 0) u; ok (take (length u - length r) u, r)

-- The value of a field, by its first byte.
unfoldable pub read_any : Bytes → Result (Bytes × Bytes)
unfolding next read_string read_object read_value
read_any u = do
  (a, s) ← next u
  if a == b'"' then read_string u else if opens a then read_object u else read_value u

-- A key, a colon and a value.
unfoldable pub read_field : Json → Bytes → Result (Bool × Json)
unfolding strip read_string expect read_any
read_field j u = do
  u ← strip u
  (k, u) ← read_string u
  u ← strip u
  u ← expect b':' u
  u ← strip u
  (v, u) ← read_any u
  ok (true, record j { key = k; value = v; status = 1; unread = u })

-- The start of the first field, `status` 0.
unfoldable pub scan_first : Json → Bytes → Result (Bool × Json)
unfolding expect strip next read_field
scan_first j u = do
  u ← expect b'{' u
  u ← strip u
  (a, s) ← next u
  if a == b'}' then ok (false, record j { unread = s }) else read_field j u

-- The start of a later field, `status` 1.
unfoldable pub scan_next : Json → Bytes → Result (Bool × Json)
unfolding next read_field
scan_next j u = do
  (a, s) ← next u
  if a == b'}'
      then ok (false, record j { unread = s })
      else if a == b','
      then read_field j s
      else err invalid_data

-- `scan`: `true` with the next field in `key` and `value`, or `false` at the object's end.
unfoldable pub scan : Json → Result (Bool × Json)
unfolding strip scan_first scan_next read_field
scan j = if is_empty j.source then ok (false, j) else do
  u ← strip j.unread
  if j.status == 0 then scan_first j u else if j.status == 1 then scan_next j u else read_field j u

-- What stands for the byte after a backslash.
unfoldable pub unescaped : ℕ → ℕ
unescaped a =
    if a == b'b'
    then 8
    else if a == b't'
    then 9
    else if a == b'n'
    then 10
    else if a == b'f'
    then 12
    else if a == b'r'
    then 13
    else a

-- The bytes of a code point below 0x10000, as `unescape` writes them.
unfoldable pub utf8 : ℕ → Bytes
utf8 code =
    if leb code 0x7f
    then code ∷ []
    else if leb code 0x7ff
    then bit_or 0xc0 (code / 2 ^ 6) ∷ bit_or 0x80 (bit_and code 0x3f) ∷ []
    else bit_or 0xe0 (code / 2 ^ 12)
      ∷ bit_or 0x80 (bit_and (code / 2 ^ 6) 0x3f)
      ∷ bit_or 0x80 (bit_and code 0x3f)
      ∷ []

-- The loop of `unescape`: `prefix` after a backslash, `skip` bytes of a code point left behind.
-- The source writes over what it has read, and never further than it has read.
unfoldable pub unescape_loop : Bool → ℕ → Bytes → Result Bytes
unfolding unescaped utf8
unescape_loop prefix skip [] = ok []
unescape_loop prefix (suc skip) (a ∷ s) = unescape_loop prefix skip s
unescape_loop true zero (a ∷ s) =
    let plain = (do out ← unescape_loop false 0 s; ok (unescaped a ∷ out)) in
    let coded = (do
      code ← hextoi (take 4 s)
      out ← unescape_loop false 4 s
      ok (utf8 code ++ out)) in
    if a == b'u' && leb 4 (length s) then coded else plain
unescape_loop false zero (a ∷ s) =
    let escape = unescape_loop true 0 s in
    let plain = (do out ← unescape_loop false 0 s; ok (a ∷ out)) in
    if a == b'\\' then escape else plain

-- `unescape` of a whole buffer.
unfoldable pub unescape : Bytes → Result Bytes
unfolding unescape_loop
unescape s = unescape_loop false 0 s

-- The bytes that the loop of `unescape` has written at its end or at an exception.
unfoldable pub written_loop : Bool → ℕ → Bytes → Bytes
unfolding unescaped utf8
written_loop prefix skip [] = []
written_loop prefix (suc skip) (a ∷ s) = written_loop prefix skip s
written_loop true zero (a ∷ s) =
    let plain = unescaped a ∷ written_loop false 0 s in
    let rest = written_loop false 4 s in
    let coded : Bytes = elim (hextoi (take 4 s)) [ ok code ↦ utf8 code ++ rest | err e ↦ [] ] in
    if a == b'u' && leb 4 (length s) then coded else plain
written_loop false zero (a ∷ s) =
    let escape = written_loop true 0 s in
    let plain = a ∷ written_loop false 0 s in if a == b'\\' then escape else plain

-- The buffer that an exception of `unescape` leaves.
unfoldable pub left_by_unescape : Bytes → Bytes
unfolding written_loop
left_by_unescape s = let out = written_loop false 0 s in out ++ drop (length out) s

-- The quotes that `escape` counts.
unfoldable pub quotes : Bytes → ℕ
quotes [] = 0
quotes (a ∷ s) = let rest = quotes s in if a == b'"' then rest + 1 else rest

-- The loop of `escape`, from the back: a byte moves up by the number of quotes still to come, `col`,
-- and once that is 0 the bytes before it stay.
unfoldable pub escape_loop : ℕ → Bytes → Bytes
escape_loop col [] = []
escape_loop col (a ∷ s) =
    let shifted = escape_loop col s in
    let fewer = escape_loop (col - 1) s in
    if a == b'"' then a ∷ b'\\' ∷ (if col - 1 == 0 then s else fewer) else a ∷ shifted

-- `escape` of the bytes of a buffer from `start`. The call of `resize` asks for no capacity: a text
-- that is longer than the block is written past its end, which is `none`.
unfoldable pub escape : Buffer → ℕ → Option Buffer
unfolding quotes escape_loop resize_to
escape b start =
    let part = drop start b.content in
    let text = take start b.content ++ reverse (escape_loop (quotes part) (reverse part)) in
    if quotes part == 0 then some b else elim (resize_to b 0 (length b.content + quotes part)) [
      | none ↦ none
      | some b' ↦ some (record b' { content = text })
    ]

-- `decode_value`
unfoldable pub decode_value : Json → Result Bytes
unfolding unescape
decode_value j = unescape j.value
