-- ===== src/Mapper/Shape.antt =====
-- The shape of the trie: every step that can be reached was reserved, lies in the block, and is
-- reached by one path only, its label.
use mathlib.Core.List.{append_assoc, append-nil}
use ijson.Prelude.{
  ℕ, ◌+◌, ◌-◌, ◌≤◌, ◌<◌, ◌≡◌, ◌≢◌, sym, ◌∙◌, ap, inl, inr, Bool, true, false, [], ◌∷◌, ◌++◌, ◌||◌,
  Bytes, ◌==◌, if◌then◌else◌, Bool-cases, arith,
}
use ijson.Slice.{equal}
use ijson.Slice.Compare.{equal_iff}
use ijson.Mapper.{Block, zero_step, is_wrong}
use ijson.Mapper.View.{step_at, step_at-stop, step_at-child}

pub record IsTrie (b : Block) (size : ℕ) : Type 0 where
  pub label : ℕ → Bytes
  pub root : label 1 ≡ []
  pub bounded : (n i : ℕ) → (b n).k i ≤ size
  pub labelled : (n i : ℕ) → (b n).k i ≢ 0 → label ((b n).k i) ≡ label n ++ (i + 32) ∷ []
  pub unused : (n : ℕ) → size < n → b n ≡ zero_step

abbrev pub stops : Block → ℕ → ℕ → Bool
stops b n a = is_wrong a || ((b n).k (a - 32) == 0)

-- The number of the step at the end of a path, 0 past the end of the trie.
unfoldable pub node_at : Block → ℕ → Bytes → ℕ
node_at b n [] = n
node_at b n (a ∷ s) = let rest = node_at b ((b n).k (a - 32)) s in if stops b n a then 0 else rest

-- The path `q` leads from the root to the step `n`.
pub record Reaches (b : Block) (size : ℕ) (q : Bytes) (n : ℕ) : Type 0 where
  pub path : node_at b 1 q ≡ n
  pub positive : n ≢ 0
  pub within : n ≤ size

pub node_at-stop : (b : Block) (n a : ℕ) (s : Bytes) → stops b n a ≡ true → node_at b n (a ∷ s) ≡ 0
unfolding node_at
node_at-stop b n a s h = ground arith

pub node_at-child :
    (b : Block) (n a : ℕ) (s : Bytes)
    → stops b n a ≡ false
    → node_at b n (a ∷ s) ≡ node_at b ((b n).k (a - 32)) s
unfolding node_at
node_at-child b n a s h = ground arith

-- The values on a path are those of the step at its end.
pub step_at-node_at :
    (b : Block) (n : ℕ) (s : Bytes)
    → n ≢ 0
    → step_at b n s ≡ (if node_at b n s == 0 then zero_step else b (node_at b n s))
step_at-node_at b n [] h = unfold step_at node_at in ground arith
step_at-node_at b n (a ∷ s) h = elim (Bool-cases (stops b n a)) [
  | inl e ↦ rw (step_at-stop b n a s e, node_at-stop b n a s e)
  | inr e ↦
      rw (step_at-child b n a s e, node_at-child b n a s e)
        (step_at-node_at b ((b n).k (a - 32)) s (ground arith))
]

module _ {b : Block} {size : ℕ} (t : IsTrie b size) where
  open t use {label, root, bounded, labelled, unused}

  char_back : (a : ℕ) → is_wrong a ≡ false → a - 32 + 32 ≡ a
  char_back a h = ground arith

  -- A step that is reached has the path in its label.
  pub label-node_at : (n : ℕ) (s : Bytes) → node_at b n s ≢ 0 → label (node_at b n s) ≡ label n ++ s
  label-node_at n [] h = unfold node_at in sym (append-nil (label n))
  label-node_at n (a ∷ s) h = elim (Bool-cases (stops b n a)) [
    | inl e ↦ absurd (h (node_at-stop b n a s e))
    | inr e ↦ rw (node_at-child b n a s e) (
        label-node_at ((b n).k (a - 32)) s (λ z. h (node_at-child b n a s e ∙ z))
        ∙ ap (λ l. l ++ s) (labelled n (a - 32) (ground arith))
        ∙ append_assoc (label n) ((a - 32 + 32) ∷ []) s
        ∙ ap (λ c. label n ++ c ∷ s) (char_back a (ground arith)))
  ]

  -- Two paths to one step are the same path.
  pub node_at_unique : (p q : Bytes) (n : ℕ) → Reaches b size q n → (node_at b 1 p == n) ≡ equal p q
  node_at_unique p q n r = ground (arith, equal_iff p q, r.path, back)
    where
      name_of : (s : Bytes) → node_at b 1 s ≡ n → label n ≡ s
      name_of s e =
          ap label (sym e) ∙ label-node_at 1 s (λ z. r.positive (sym e ∙ z)) ∙ ap (λ l. l ++ s) root

      back : node_at b 1 p ≡ n → p ≡ q
      back e = sym (name_of p e) ∙ name_of q r.path

  pub node_at-snoc :
      (m : ℕ) (s : Bytes) (n a : ℕ)
      → node_at b m s ≡ n
      → n ≢ 0
      → is_wrong a ≡ false
      → node_at b m (s ++ a ∷ []) ≡ (b n).k (a - 32)
  node_at-snoc m [] n a e ne w = unfold node_at in ground arith
  node_at-snoc m (c ∷ s) n a e ne w = elim (Bool-cases (stops b m c)) [
    | inl h ↦ absurd (ne (sym e ∙ node_at-stop b m c s h))
    | inr h ↦
        rw (node_at-child b m c (s ++ a ∷ []) h)
          (node_at-snoc ((b m).k (c - 32)) s n a (sym (node_at-child b m c s h) ∙ e) ne w)
  ]
