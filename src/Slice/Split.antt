-- ===== src/Slice/Split.antt =====
-- Slice::split_left, pop_line and rstrip cut a slice without losing or moving a byte.
use ijson.Prelude.{
  ℕ, ◌≡◌, refl, ap, ◌⊎◌, inl, inr, true, false, [], ◌∷◌, ◌++◌, Bytes, Option, none, some,
  Bool-cases, ◌==◌, arith, if◌then◌else◌,
}
use ijson.Slice.{split_left, pop_line, rstrip, is_blank}

-- No byte of the list passes the test.
abbrev Without : ℕ → Bytes → Type 0
Without a [] = Unit {0}
Without a (c ∷ s) = ((c == a) ≡ false) × Without a s

-- What `split_left` returns has no separator, and either it, a separator and the rest are the
-- slice, or it is all of the slice and nothing is left.
split_left_parts :
    (s : Bytes) (a : ℕ)
    → Without a (split_left s a).0
      × (((split_left s a).0 ++ a ∷ (split_left s a).1 ≡ s)
          ⊎ (((split_left s a).0 ≡ s) × ((split_left s a).1 ≡ [])))
unfolding split_left
split_left_parts [] a = (tt, inr (refl, refl))
split_left_parts (c ∷ s) a = ground (arith, split_left_parts s a)

abbrev pub LineSplit : Bytes → Option (Bytes × Bytes) → Type 0
LineSplit s none = Without b'\n' s
LineSplit s (some (line, rest)) =
    (l : Bytes) × Without b'\n' l × (line ≡ l ++ b'\n' ∷ []) × (line ++ rest ≡ s)

pop_line-cons :
    (c : ℕ) (s : Bytes) (r : Option (Bytes × Bytes))
    → (c == b'\n') ≡ false
    → LineSplit s r
    → LineSplit (c ∷ s) (elim r [ none ↦ none | some (line, rest) ↦ some (c ∷ line, rest) ])
pop_line-cons c s none e h = (e, h)
pop_line-cons c s (some (line, rest)) e (l, w, p, q) = (c ∷ l, (e, w), ap (◌∷◌ c) p, ap (◌∷◌ c) q)

-- `pop_line` takes the bytes up to the first newline, with it, and leaves the others, or says that
-- there is no newline.
pub pop_line_lem : (s : Bytes) → LineSplit s (pop_line s)
unfolding pop_line
pop_line_lem [] = tt
pop_line_lem (c ∷ s) = elim (Bool-cases (c == b'\n')) [
  | inl e ↦ rw e ([], tt, ground arith, ground arith)
  | inr e ↦ rw e (pop_line-cons c s (pop_line s) e (pop_line_lem s))
]

abbrev AllBlank : Bytes → Type 0
AllBlank [] = Unit {0}
AllBlank (c ∷ s) = (is_blank c ≡ true) × AllBlank s

-- What is kept is empty or ends in a byte that is no blank.
abbrev EndsSolid : Bytes → Type 0
EndsSolid [] = Unit {0}
EndsSolid (c ∷ []) = is_blank c ≡ false
EndsSolid (c ∷ d ∷ t) = EndsSolid (d ∷ t)

rstrip-cons :
    (c : ℕ) (s : Bytes)
    → rstrip (c ∷ s)
      ≡ elim (rstrip s) [ [] ↦ if is_blank c then [] else c ∷ [] | (d ∷ t) ↦ c ∷ d ∷ t ]
unfolding rstrip
rstrip-cons c s = refl

rstrip-step :
    (c : ℕ) (s r b : Bytes)
    → (r ++ b ≡ s)
    → AllBlank b
    → EndsSolid r
    → let q : Bytes = elim r [ [] ↦ if is_blank c then [] else c ∷ [] | (d ∷ t) ↦ c ∷ d ∷ t ] in
      (b' : Bytes) × (q ++ b' ≡ c ∷ s) × AllBlank b' × EndsSolid q
rstrip-step c s [] b e w h = elim (Bool-cases (is_blank c)) [
  | inl k ↦ rw k (c ∷ b, ap (◌∷◌ c) e, (k, w), tt)
  | inr k ↦ rw k (b, ap (◌∷◌ c) e, w, k)
]
rstrip-step c s (d ∷ t) b e w h = (b, ap (◌∷◌ c) e, w, h)

-- `rstrip` cuts off blanks only, and all the blanks at the end.
rstrip_lem : (s : Bytes) → (b : Bytes) × (rstrip s ++ b ≡ s) × AllBlank b × EndsSolid (rstrip s)
rstrip_lem [] = unfold rstrip in ([], refl, tt, tt)
rstrip_lem (c ∷ s) =
    let (b, e, w, h) = rstrip_lem s in rw (rstrip-cons c s) (rstrip-step c s (rstrip s) b e w h)
