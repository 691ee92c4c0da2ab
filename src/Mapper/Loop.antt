-- ===== src/Mapper/Loop.antt =====
-- The loop of `Mapper::add`: the value that a name asks for is set, and no other.
use mathlib.Core.List.{append_assoc, append-nil}
use ijson.Prelude.{
  ℕ, ◌+◌, ◌-◌, ◌^◌, ◌<◌, ◌≡◌, refl, sym, ◌∙◌, subst, inl, inr, Bool, true, false, [], ◌∷◌, ◌++◌,
  Bytes, ◌==◌, if◌then◌else◌, Bool-cases, arith, length,
}
use ijson.Mapper.{Step, Block, Mapper, is_wrong, write, current, with_current, descend, add_loop}
use ijson.Mapper.View.{ends, stds}
use ijson.Mapper.Shape.{IsTrie, Reaches}
use ijson.Mapper.Write.{SetAt, written-IsTrie, written-ends, written-stds, kept-ends, kept-stds}
use ijson.Mapper.Descend.{
  IsOpen, Descended, current-with_current, with_current-size, with_current-cap, descend_lem,
}

-- What a name asks for: a value for that name, for the names with a prefix, or nothing.
pub data Route : Type 0 where
  exact : Bytes → Route
  prefix : Bytes → Route
  wrong : Route

abbrev pub prepend : ℕ → Route → Route
prepend a (exact q) = exact (a ∷ q)
prepend a (prefix q) = prefix (a ∷ q)
prepend a wrong = wrong

-- A name ends at its first `*`, and every other character is printable ASCII.
unfoldable pub route : Bytes → Route
route [] = exact []
route (a ∷ s) =
    let rest = prepend a (route s) in
    if a == b'*' then prefix [] else if is_wrong a then wrong else rest

-- What the loop leaves, for the part `q` of the name that is behind it.
abbrev pub Looped : Mapper → Bytes → Route → ℕ → Mapper × Bool → Type 0
Looped m q (exact s) v (m', x) =
    (x ≡ true)
    × IsOpen m'
    × SetAt (ends (current m) 1) (ends (current m') 1) (q ++ s) v
    × ((p : Bytes) → stds (current m') 1 p ≡ stds (current m) 1 p)
Looped m q (prefix s) v (m', x) =
    (x ≡ true)
    × IsOpen m'
    × SetAt (stds (current m) 1) (stds (current m') 1) (q ++ s) v
    × ((p : Bytes) → ends (current m') 1 p ≡ ends (current m) 1 p)
Looped m q wrong v (m', x) = x ≡ false

-- A step that keeps its links is written: the loop's invariant holds.
set_step-IsOpen :
    (m : Mapper) {q : Bytes} (n : ℕ) (s : Step)
    → IsOpen m
    → Reaches (current m) m.size q n
    → s.k ≡ (current m n).k
    → IsOpen (with_current m (write (current m) n s))
set_step-IsOpen m n s o r same =
    let b = write (current m) n s in
    let m' = with_current m b in
    record {
      trie =
          subst (λ c. IsTrie c m'.size) (sym (current-with_current m b))
            (subst (IsTrie b) (sym (with_current-size m b))
              (written-IsTrie o.trie s same r.within));
      rooted = omega (arith, with_current-size m b, o.rooted);
      fits = omega (arith, with_current-size m b, with_current-cap m b, o.fits);
    }

-- One more character of the name moves from the rest to the path.
Looped-step :
    (m m' : Mapper) (q : Bytes) (a v n' : ℕ) (c : Route) (x : Mapper × Bool)
    → Descended m m' q a n'
    → Looped m' (q ++ a ∷ []) c v x
    → Looped m q (prepend a c) v x
Looped-step m m' q a v n' (exact s) (m'', ok') d (e, o, at, other) = (
  e,
  o,
  λ p. at p ∙ rw (append_assoc q (a ∷ []) s, (d.same p).0) refl,
  λ p. other p ∙ (d.same p).1,
)
Looped-step m m' q a v n' (prefix s) (m'', ok') d (e, o, at, other) = (
  e,
  o,
  λ p. at p ∙ rw (append_assoc q (a ∷ []) s, (d.same p).1) refl,
  λ p. other p ∙ (d.same p).0,
)
Looped-step m m' q a v n' wrong (m'', ok') d e = e

module _ (m : Mapper) (n v : ℕ) where
  pub add_loop-nil :
      add_loop m n [] v
      ≡ (with_current m (write (current m) n (record (current m n) { end = v })), true)
  unfolding add_loop
  add_loop-nil = refl

  module _ (a : ℕ) (s : Bytes) where
    pub add_loop-star :
        (a == b'*') ≡ true
        → add_loop m n (a ∷ s) v
          ≡ (with_current m (write (current m) n (record (current m n) { std = v })), true)
    unfolding add_loop
    add_loop-star e = rw e

    pub add_loop-wrong :
        (a == b'*') ≡ false → is_wrong a ≡ true → add_loop m n (a ∷ s) v ≡ (m, false)
    unfolding add_loop
    add_loop-wrong e w = rw (e, w)

    pub add_loop-next :
        (a == b'*') ≡ false
        → is_wrong a ≡ false
        → add_loop m n (a ∷ s) v ≡ add_loop (descend m n (a - 32)).0 (descend m n (a - 32)).1 s v
    unfolding add_loop
    add_loop-next e w = rw (e, w)

ended :
    (m : Mapper) (q : Bytes) (n v : ℕ)
    → IsOpen m
    → Reaches (current m) m.size q n
    → Looped m q
        (exact [])
        v
        (with_current m (write (current m) n (record (current m n) { end = v })), true)
ended m q n v o r =
    let s : Step = record (current m n) { end = v } in
    let c = sym (current-with_current m (write (current m) n s)) in
    (
      refl,
      set_step-IsOpen m n s o r refl,
      subst (λ (b : Block). SetAt (ends (current m) 1) (ends b 1) (q ++ []) v) c
          (subst (λ w. SetAt (ends (current m) 1) (ends (write (current m) n s) 1) w v)
            (sym (append-nil q)) (written-ends o.trie s refl r)),
      subst (λ (b : Block). (p : Bytes) → stds b 1 p ≡ stds (current m) 1 p) c
          (kept-stds o.trie s refl r refl),
    )

starred :
    (m : Mapper) (q : Bytes) (n v : ℕ)
    → IsOpen m
    → Reaches (current m) m.size q n
    → Looped m q
        (prefix [])
        v
        (with_current m (write (current m) n (record (current m n) { std = v })), true)
starred m q n v o r =
    let s : Step = record (current m n) { std = v } in
    let c = sym (current-with_current m (write (current m) n s)) in
    (
      refl,
      set_step-IsOpen m n s o r refl,
      subst (λ (b : Block). SetAt (stds (current m) 1) (stds b 1) (q ++ []) v) c
          (subst (λ w. SetAt (stds (current m) 1) (stds (write (current m) n s) 1) w v)
            (sym (append-nil q)) (written-stds o.trie s refl r)),
      subst (λ (b : Block). (p : Bytes) → ends b 1 p ≡ ends (current m) 1 p) c
          (kept-ends o.trie s refl r refl),
    )

pub route-star : (a : ℕ) (s : Bytes) → (a == b'*') ≡ true → route (a ∷ s) ≡ prefix []
unfolding route
route-star a s e = rw e

pub route-wrong :
    (a : ℕ) (s : Bytes) → (a == b'*') ≡ false → is_wrong a ≡ true → route (a ∷ s) ≡ wrong
unfolding route
route-wrong a s e w = rw (e, w)

pub route-next :
    (a : ℕ) (s : Bytes)
    → (a == b'*') ≡ false
    → is_wrong a ≡ false
    → route (a ∷ s) ≡ prepend a (route s)
unfolding route
route-next a s e w = rw (e, w)

pub add_loop_lem :
    (m : Mapper) (q : Bytes) (n : ℕ) (s : Bytes) (v : ℕ)
    → IsOpen m
    → Reaches (current m) m.size q n
    → m.size + length s < 2 ^ 16
    → Looped m q (route s) v (add_loop m n s v)
add_loop_lem m q n [] v o r h = rw (add_loop-nil m n v) (unfold route in ended m q n v o r)
add_loop_lem m q n (a ∷ s) v o r h = elim (Bool-cases (a == b'*')) [
  | inl e ↦ rw (add_loop-star m n v a s e, route-star a s e) (starred m q n v o r)
  | inr e ↦ elim (Bool-cases (is_wrong a)) [
    | inl w ↦ rw (add_loop-wrong m n v a s e w, route-wrong a s e w) refl
    | inr w ↦
        let d = descend_lem m q n a o r w (omega arith) in
        rw (add_loop-next m n v a s e w, route-next a s e w)
          (Looped-step m (descend m n (a - 32)).0 q a v (descend m n (a - 32)).1 (route s)
            (add_loop (descend m n (a - 32)).0 (descend m n (a - 32)).1 s v) d
            (add_loop_lem (descend m n (a - 32)).0 (q ++ a ∷ []) (descend m n (a - 32)).1 s v
              d.opened d.reaches (omega (arith, d.grown))))
  ]
]
