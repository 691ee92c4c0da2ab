-- ===== src/Buffer/Capacity.antt =====
-- The content of a Buffer always fits its block.
use mathlib.Core.List.{append-nil, append_assoc}
use ijson.Prelude.{
  sym, ap, ◌∙◌, ℕ, zero, suc, ◌+◌, ◌*◌, ◌≤◌, ◌<◌, ◌≡◌, refl, true, false, [], ◌∷◌, ◌++◌, Bytes, ltb,
  if◌then◌else◌, length, length-append, drop, length-drop, arith,
}
use ijson.Buffer.{
  Buffer, empty_buffer, get_cap, get_cap_loop, resize, add_text, put, remove_left, move,
}

get_cap_loop-le :
    (fuel size cap step : ℕ) → 0 < step → size ≤ cap + fuel → size ≤ get_cap_loop fuel size cap step
unfolding get_cap_loop
get_cap_loop-le zero size cap step p h = omega arith
get_cap_loop-le (suc fuel) size cap step p h =
    ground
      (arith, get_cap_loop-le fuel size (cap + step) (if ltb step 4096 then step * 2 else step))

-- `_get_cap` ends with a capacity of at least the size that is asked for.
le-get_cap : (size : ℕ) → size ≤ get_cap size
unfolding get_cap
le-get_cap size = get_cap_loop-le size size 16 16 (omega arith) (omega arith)

-- The content fits, and a buffer with no block has no capacity.
pub record IsValid (b : Buffer) : Type 0 where
  pub fits : length b.content ≤ b.cap
  pub blank : b.allocated ≡ false → b.cap ≡ 0

-- After `resize` there is a block, it has the room asked for, and the content is the same.
pub resize_lem :
    (b : Buffer) (n : ℕ)
    → IsValid b
    → IsValid (resize b n)
      × (n ≤ (resize b n).cap)
      × ((resize b n).content ≡ b.content)
      × ((resize b n).allocated ≡ true)
unfolding resize
resize_lem b n v = ground (arith, le-get_cap n, v.blank)

pub empty_buffer-IsValid : IsValid empty_buffer
unfolding empty_buffer
empty_buffer-IsValid = record { fits = omega arith; blank = λ _. refl }

put-IsValid :
    (b : Buffer) (c : ℕ) → IsValid b → IsValid (put b c) × ((put b c).content ≡ b.content ++ c ∷ [])
unfolding put
put-IsValid b c v =
    ground (arith, resize_lem b (length b.content + 1) v, length-append b.content (c ∷ []), v.blank)

-- `add(const char *)` to a buffer whose content fits its block appends the text and leaves a
-- buffer whose content fits its block.
add_text-IsValid :
    (b : Buffer) (s : Bytes)
    → IsValid b
    → IsValid (add_text b s) × ((add_text b s).content ≡ b.content ++ s)
unfolding add_text
add_text-IsValid b [] v = (v, sym (append-nil b.content))
add_text-IsValid b (c ∷ s) v =
    let (u, p) = put-IsValid b c v in
    let (w, e) = add_text-IsValid (put b c) s u in
    (w, e ∙ ap (λ t. t ++ s) p ∙ append_assoc b.content (c ∷ []) s)

drop_all : (n : ℕ) (s : Bytes) → length s ≤ n → drop n s ≡ []
drop_all zero [] h = refl
drop_all zero (c ∷ s) h = absurd (omega arith)
drop_all (suc n) [] h = refl
drop_all (suc n) (c ∷ s) h = drop_all n s (omega arith)

drop_none : (n : ℕ) (s : Bytes) → n ≡ 0 → drop n s ≡ s
drop_none n s e = rw e

-- `remove_left` in a buffer whose content fits its block drops bytes from the front, all of them
-- if there are no more, and leaves a buffer whose content fits its block.
remove_left_lem :
    (b : Buffer) (n : ℕ)
    → IsValid b
    → IsValid (remove_left b n) × ((remove_left b n).content ≡ drop n b.content)
unfolding remove_left
remove_left_lem b n v =
    ground (arith, length-drop n b.content, drop_all n b.content, drop_none n b.content, v.blank)

-- `move` between two buffers whose contents fit their blocks hands the content over, empties the
-- source, and leaves two such buffers.
move-IsValid :
    (a b : Buffer)
    → IsValid a
    → IsValid b
    → IsValid (move a b).0
      × IsValid (move a b).1
      × ((move a b).0.content ≡ b.content)
      × ((move a b).1.content ≡ [])
unfolding move
move-IsValid a b v w = ground (arith, w.blank)
