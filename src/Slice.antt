-- ===== src/Slice.antt =====
-- The classes ISlice and Slice of src/buffer.h. A slice is the list of the bytes that it views; a
-- null slice, where a function tells it from an empty one, is `none`. Bytes are 0..255.
pub mod Compare
pub mod Split
use ijson.Prelude.{
  ℕ, zero, suc, ◌+◌, ◌-◌, ◌*◌, Bool, true, false, ◌&&◌, ◌||◌, Option, none, some, List, [], ◌∷◌,
  Bytes, ltb, leb, ◌==◌, if◌then◌else◌, length, take, drop, Result, ok, err, no_data, invalid_data,
  exception, ◌>>=◌,
}
use ijson.Prelude.Int.{ℤ, pos, negsuc, ◌-ℤ◌, neg, eqb_ℤ}

-- `starts_with`: the prefix is the loop's C string.
unfoldable pub starts_with : Bytes → Bytes → Bool
starts_with s [] = true
starts_with [] (c ∷ p) = false
starts_with (a ∷ s) (c ∷ p) = (c == a) && starts_with s p

unfoldable pub to_lower : ℕ → ℕ
to_lower a = if leb b'A' a && leb a b'Z' then a + 32 else a

-- `starts_with_lc`: the slice's letters are lowered, the prefix's are not.
unfoldable pub starts_with_lc : Bytes → Bytes → Bool
unfolding to_lower
starts_with_lc s [] = true
starts_with_lc [] (c ∷ p) = false
starts_with_lc (a ∷ s) (c ∷ p) = (c == to_lower a) && starts_with_lc s p

-- `char` is signed; a number that is no byte stays as it is.
unfoldable pub as_char : ℕ → ℤ
as_char b = if ltb b 128 then pos b else if ltb b 256 then negsuc (255 - b) else pos b

-- `compare`: the first difference, or which side ended first.
unfoldable pub compare : Bytes → Bytes → ℤ
unfolding as_char ◌-ℤ◌
compare [] [] = pos 0
compare [] (y ∷ ys) = negsuc 0
compare (x ∷ xs) [] = pos 1
compare (x ∷ xs) (y ∷ ys) =
    let d = as_char x -ℤ as_char y in
    let rest = compare xs ys in if eqb_ℤ d (pos 0) then rest else d

-- `equal` of two slices.
unfoldable pub equal : Bytes → Bytes → Bool
unfolding compare
equal xs ys = eqb_ℤ (compare xs ys) (pos 0)

-- `equal` of a slice and a C string.
unfoldable pub equal_text : Bytes → Bytes → Bool
equal_text [] [] = true
equal_text (a ∷ s) [] = false
equal_text [] (c ∷ p) = false
equal_text (a ∷ s) (c ∷ p) = (c == a) && equal_text s p

unfoldable pub is_empty : Bytes → Bool
is_empty [] = true
is_empty (_ ∷ _) = false

-- The loop of `atoi`. The value is the mathematical one: where it leaves int64_t the source's
-- addition is undefined.
unfoldable pub atoi_loop : ℕ → Bytes → Result ℕ
atoi_loop value [] = ok value
atoi_loop value (c ∷ s) =
    let rest = atoi_loop (value * 10 + (c - b'0')) s in
    if ltb c b'0' || ltb b'9' c then err invalid_data else rest

unfoldable pub atoi : Bytes → Result ℤ
unfolding atoi_loop
atoi [] = err no_data
atoi (c ∷ s) =
    if c == b'-'
    then (if ltb (length (c ∷ s)) 2
        then err invalid_data
        else (do value ← atoi_loop 0 s; ok (neg (pos value))))
    else (do value ← atoi_loop 0 (c ∷ s); ok (pos value))

unfoldable pub hex_digit : ℕ → Result ℕ
hex_digit a =
    if leb b'0' a && leb a b'9'
    then ok (a - b'0')
    else if leb b'A' a && leb a b'F'
    then ok (a - b'A' + 10)
    else if leb b'a' a && leb a b'f'
    then ok (a - b'a' + 10)
    else err invalid_data

unfoldable pub hextoi_loop : ℕ → Bytes → Result ℕ
unfolding hex_digit
hextoi_loop value [] = ok value
hextoi_loop value (a ∷ s) = do d ← hex_digit a; hextoi_loop (value * 16 + d) s

unfoldable pub hextoi : Bytes → Result ℕ
unfolding hextoi_loop
hextoi [] = err no_data
hextoi (a ∷ s) = hextoi_loop 0 (a ∷ s)

-- `get`, an exception past the end.
unfoldable pub get : Bytes → ℕ → Result Bytes
get s len = if ltb (length s) len then err exception else ok (take len s)

-- `pop`: what is taken off, and what stays in the slice.
unfoldable pub pop : Bytes → ℕ → Result (Bytes × Bytes)
unfolding get
pop s len = do r ← get s len; ok (r, drop len s)

-- `split_left`: what stands before the first separator, and what stays after it.
unfoldable pub split_left : Bytes → ℕ → Bytes × Bytes
split_left [] a = ([], [])
split_left (c ∷ s) a = let rest = split_left s a in if c == a then ([], s) else (c ∷ rest.0, rest.1)

-- `remove` takes at most the whole slice.
unfoldable pub remove : Bytes → ℕ → Bytes
remove s len = let n : ℕ = if ltb (length s) len then length s else len in drop n s

-- `pop_line`: a line with its newline and the rest, or the null slice and no change.
unfoldable pub pop_line : Bytes → Option (Bytes × Bytes)
pop_line [] = none
pop_line (c ∷ s) =
    if c == b'\n'
    then some (c ∷ [], s)
    else elim (pop_line s) [ none ↦ none | some (line, rest) ↦ some (c ∷ line, rest) ]

unfoldable pub is_blank : ℕ → Bool
is_blank c = c == b' ' || c == b'\n' || c == b'\r'

-- `rstrip`: a byte stays if it is no blank or a byte after it stays.
unfoldable pub rstrip : Bytes → Bytes
unfolding is_blank
rstrip [] = []
rstrip (c ∷ s) = elim (rstrip s) [ [] ↦ if is_blank c then [] else c ∷ [] | (d ∷ t) ↦ c ∷ d ∷ t ]
