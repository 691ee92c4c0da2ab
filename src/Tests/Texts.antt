-- ===== src/Tests/Texts.antt =====
-- Slices, buffers and the scanner at concrete bytes.
use ijson.Prelude.{
  refl, ◌≡◌, arith, [], ◌∷◌, text, true, length, some, none, ok, Bytes, ◌≤◌, leb, if◌then◌else◌,
}
use ijson.Prelude.Int.{pos, negsuc}
use ijson.Slice.{atoi, hextoi}
use ijson.Buffer.{Buffer, number, hex}
use ijson.Buffer.Digits.{atoi-number, hextoi-hex}
use ijson.Buffer.Capacity.{IsValid}
use ijson.Json.{Json, scan, object_loop, escape, unescape, left_by_unescape}
use ijson.Json.Escape.{quoted_from, escape-quoted, unescape-escape}
use ijson.Json.Unread.{object_loop-fuel}
use ijson.Json.Progress.{Ensures, Scanned, scan-Scanned}

abbrev scanner : Json
scanner = record {
  key = [];
  value = [];
  level = 0;
  status = 0;
  source = text "{\"id\": 15}";
  unread = text "{\"id\": 15}";
}

atoi-number_example : atoi (number (negsuc 41)) ≡ ok (negsuc 41)
atoi-number_example = atoi-number (negsuc 41) (omega arith)

hextoi-hex_example : hextoi (hex 51966) ≡ ok 51966
hextoi-hex_example = hextoi-hex 51966 (omega arith)

abbrev filled : Buffer
filled = record { allocated = true; cap = 16; content = text "0123456789" }

filled-IsValid : IsValid filled
filled-IsValid = record { fits = omega arith; blank = λ e. cc }

object_loop-fuel_example :
    object_loop 20 (pos 0) (text "[1, {\"a\": 2}] ")
    ≡ object_loop 50 (pos 0) (text "[1, {\"a\": 2}] ")
object_loop-fuel_example =
    object_loop-fuel 20 50 (pos 0) (text "[1, {\"a\": 2}] ") (omega arith) (omega arith)

scan-Scanned_example : Ensures (Scanned (length scanner.unread)) (scan scanner)
scan-Scanned_example = scan-Scanned scanner

-- A block of 16 bytes.
abbrev block : Bytes → Buffer
block s = record { allocated = true; cap = 16; content = s }

block-IsValid : (s : Bytes) → length s ≤ 16 → IsValid (block s)
block-IsValid s h = record { fits = h; blank = λ e. cc }

escape-quoted_example : escape (block (text "\"say \"hi\"")) 1 ≡ (
    if leb (length (quoted_from 1 (text "\"say \"hi\""))) 16
    then some (block (quoted_from 1 (text "\"say \"hi\"")))
    else none)
escape-quoted_example =
    escape-quoted (block (text "\"say \"hi\"")) 1
      (block-IsValid (text "\"say \"hi\"") (omega arith))

unescape-escape_example :
    (b' : Buffer) × (escape (block (text "a \"b\"")) 0 ≡ some b')
    × (unescape b'.content ≡ ok (text "a \"b\""))
unescape-escape_example =
    unescape-escape (block (text "a \"b\"")) (block-IsValid (text "a \"b\"") (omega arith))
      (refl, (refl, (refl, (refl, (refl, tt))))) (omega arith)

-- A text of 12 bytes with 5 quotes goes past a block of 16.
escape_past_test : escape (block (text "\"\"\"\"\"abcdefg")) 0 ≡ none
unfolding escape
escape_past_test = refl

left_by_unescape_test : left_by_unescape (text "a\\nb\\u00zz") ≡ b'a' ∷ b'\n' ∷ text "bb\\u00zz"
unfolding left_by_unescape hextoi
left_by_unescape_test = refl
