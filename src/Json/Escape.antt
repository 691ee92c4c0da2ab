-- ===== src/Json/Escape.antt =====
-- `escape` of src/json.cpp, which works in place, from the back and in the block that is there, and `unescape`, which undoes it.
use mathlib.Core.List.{reverse, reverse-append, reverse-cons}
use ijson.Prelude.{
  take, drop, take-append-drop, ℕ, ◌+◌, ◌-◌, ◌≡◌, refl, sym, ◌∙◌, ap, inl, inr, true, false, [],
  ◌∷◌, ◌++◌, Bytes, ◌==◌, ==_iff, if◌then◌else◌, Bool-cases, arith, ok, ◌≤◌, ◌<◌, ltb, leb, length,
  length-append, none, some,
}
use ijson.Buffer.{Buffer, resize, resize_to}
use ijson.Buffer.Capacity.{IsValid}
use ijson.Json.{quotes, escape_loop, escape, unescape_loop, unescape, unescaped}

-- What escaping means: a backslash before each quote.
abbrev pub quoted : Bytes → Bytes
quoted [] = []
quoted (a ∷ s) = if a == b'"' then b'\\' ∷ a ∷ quoted s else a ∷ quoted s

-- The same, read from the back.
abbrev quoted_back : Bytes → Bytes
quoted_back [] = []
quoted_back (a ∷ s) = if a == b'"' then a ∷ b'\\' ∷ quoted_back s else a ∷ quoted_back s

quoted_back-plain : (s : Bytes) → quotes s ≡ 0 → quoted_back s ≡ s
unfolding quotes
quoted_back-plain [] h = refl
quoted_back-plain (a ∷ s) h = ground (arith, quoted_back-plain s)

quoted-plain : (s : Bytes) → quotes s ≡ 0 → quoted s ≡ s
unfolding quotes
quoted-plain [] h = refl
quoted-plain (a ∷ s) h = ground (arith, quoted-plain s)

escape_loop-quoted_back : (s : Bytes) (col : ℕ) → col ≡ quotes s → escape_loop col s ≡ quoted_back s
unfolding quotes escape_loop
escape_loop-quoted_back [] col h = refl
escape_loop-quoted_back (a ∷ s) col h =
    ground (
      arith,
      escape_loop-quoted_back s col,
      escape_loop-quoted_back s (col - 1),
      quoted_back-plain s,
    )

quoted_back-append : (s t : Bytes) → quoted_back (s ++ t) ≡ quoted_back s ++ quoted_back t
quoted_back-append [] t = refl
quoted_back-append (a ∷ s) t = ground (arith, quoted_back-append s t)

quotes-append : (s t : Bytes) → quotes (s ++ t) ≡ quotes s + quotes t
unfolding quotes
quotes-append [] t = omega arith
quotes-append (a ∷ s) t = ground (arith, quotes-append s t)

quotes-reverse : (s : Bytes) → quotes (reverse s) ≡ quotes s
quotes-reverse [] = refl
quotes-reverse (a ∷ s) =
    rw (reverse-cons a s, quotes-append (reverse s) (a ∷ []), quotes-reverse s)
      (unfold quotes in ground arith)

quoted_back-reverse : (s : Bytes) → reverse (quoted_back (reverse s)) ≡ quoted s
quoted_back-reverse [] = refl
quoted_back-reverse (a ∷ s) =
    rw
      (
        reverse-cons a s,
        quoted_back-append (reverse s) (a ∷ []),
        reverse-append (quoted_back (reverse s)) (quoted_back (a ∷ [])),
        quoted_back-reverse s,
      )
      (one a s)
  where
    one : (a : ℕ) (s : Bytes) → reverse (quoted_back (a ∷ [])) ++ quoted s ≡ quoted (a ∷ s)
    one a s = elim (Bool-cases (a == b'"')) [ inl e ↦ rw e refl | inr e ↦ rw e refl ]

length-quoted : (s : Bytes) → length (quoted s) ≡ length s + quotes s
unfolding quotes
length-quoted [] = omega arith
length-quoted (a ∷ s) = ground (arith, length-quoted s)

le-quotes : (s : Bytes) → quotes s ≤ length s
unfolding quotes
le-quotes [] = omega arith
le-quotes (a ∷ s) = ground (arith, le-quotes s)

-- The text with a backslash before each quote from `start` on.
abbrev pub quoted_from : ℕ → Bytes → Bytes
quoted_from start s = take start s ++ quoted (drop start s)

length-quoted_from :
    (start : ℕ) (s : Bytes) → length (quoted_from start s) ≡ length s + quotes (drop start s)
length-quoted_from start s = omega (
  arith,
  length-append (take start s) (quoted (drop start s)),
  length-append (take start s) (drop start s),
  ap length (take-append-drop start s),
  length-quoted (drop start s),
)

-- What the loop writes.
escape_loop-quoted : (s : Bytes) → reverse (escape_loop (quotes s) (reverse s)) ≡ quoted s
escape_loop-quoted s =
    ap reverse (escape_loop-quoted_back (reverse s) (quotes s) (sym (quotes-reverse s)))
    ∙ quoted_back-reverse s

-- A buffer whose content has a byte has a block.
block_there : (b : Buffer) → IsValid b → 0 < length b.content → b.allocated ≡ true
block_there b v h = elim (Bool-cases b.allocated) [
  | inl y ↦ y
  | inr y ↦ let cap = v.blank y in let clash : ⊥ = omega (arith, cap, v.fits) in elim clash [ ]
]

le-drop : (n : ℕ) (s : Bytes) → length (drop n s) ≤ length s
le-drop n s = omega (arith, length-append (take n s) (drop n s), ap length (take-append-drop n s))

resize_to-block :
    (b : Buffer) (size : ℕ)
    → b.allocated ≡ true
    → resize_to b 0 size
      ≡ (if ltb b.cap size then none else some (record b { content = take size b.content }))
unfolding resize_to resize
resize_to-block b size e = ground (arith, e)

-- In a buffer whose content fits its block, `escape` puts a backslash before each quote from
-- `start` on and changes nothing else, if the text that this gives fits the block too; if it does
-- not, bytes are written past the end of the block.
pub escape-quoted :
    (b : Buffer) (start : ℕ)
    → IsValid b
    → escape b start ≡ (
        if leb (length (quoted_from start b.content)) b.cap
        then some (record b { content = quoted_from start b.content })
        else none)
unfolding escape
escape-quoted b start v =
    let part = drop start b.content in
    let size = length-quoted_from start b.content in
    elim (Bool-cases (quotes part == 0)) [
      | inl e ↦
          let none_there = (==_iff (quotes part) 0).0 e in
          let same : quoted_from start b.content ≡ b.content =
            ap (λ t. take start b.content ++ t) (quoted-plain part none_there)
            ∙ take-append-drop start b.content in
          let room : leb (length (quoted_from start b.content)) b.cap ≡ true =
            ground (arith, size, none_there, v.fits) in
          rw (e, room) (ap (λ t. some (record b { content = t })) (sym same))
      | inr e ↦
          let block =
            block_there b v (ground (arith, e, le-quotes part, le-drop start b.content)) in
          let moved = resize_to-block b (length b.content + quotes part) block in
          elim (Bool-cases (ltb b.cap (length b.content + quotes part))) [
            | inl y ↦
                let room : leb (length (quoted_from start b.content)) b.cap ≡ false =
                  ground (arith, size, y) in
                rw (e, moved, y, room) refl
            | inr y ↦
                let room : leb (length (quoted_from start b.content)) b.cap ≡ true =
                  ground (arith, size, y) in
                rw (e, moved, y, room)
                  (ap (λ t. some (record b { content = take start b.content ++ t }))
                    (escape_loop-quoted part))
          ]
    ]

-- No byte is a backslash.
abbrev pub NoBackslash : Bytes → Type 0
NoBackslash [] = Unit {0}
NoBackslash (a ∷ s) = ((a == b'\\') ≡ false) × NoBackslash s

unescape_loop-quote :
    (a : ℕ) (t s : Bytes)
    → (a == b'"') ≡ true
    → unescape_loop false 0 t ≡ ok s
    → unescape_loop false 0 (b'\\' ∷ a ∷ t) ≡ ok (a ∷ s)
unfolding unescape_loop unescaped
unescape_loop-quote a t s e h = rw ((==_iff a b'"').0 e, h) refl

unescape_loop-plain :
    (a : ℕ) (t s : Bytes)
    → (a == b'\\') ≡ false
    → unescape_loop false 0 t ≡ ok s
    → unescape_loop false 0 (a ∷ t) ≡ ok (a ∷ s)
unfolding unescape_loop
unescape_loop-plain a t s e h = rw (e, h) refl

unescape_loop-quoted : (s : Bytes) → NoBackslash s → unescape_loop false 0 (quoted s) ≡ ok s
unescape_loop-quoted [] h = unfold unescape_loop in refl
unescape_loop-quoted (a ∷ s) h = elim (Bool-cases (a == b'"')) [
  | inl e ↦ rw e (unescape_loop-quote a (quoted s) s e (unescape_loop-quoted s h.1))
  | inr e ↦ rw e (unescape_loop-plain a (quoted s) s h.0 (unescape_loop-quoted s h.1))
]

-- A text without a backslash in a buffer, whose block has room for it with a backslash before each
-- quote, is escaped from its first byte and then read back by `unescape`.
pub unescape-escape :
    (b : Buffer)
    → IsValid b
    → NoBackslash b.content
    → length (quoted b.content) ≤ b.cap
    → (b' : Buffer) × (escape b 0 ≡ some b') × (unescape b'.content ≡ ok b.content)
unfolding unescape
unescape-escape b v h k =
    let room : leb (length (quoted b.content)) b.cap ≡ true = ground (arith, k) in
    (
      record b { content = quoted b.content },
      escape-quoted b 0 v ∙ (rw room refl),
      unescape_loop-quoted b.content h,
    )
