-- ===== src/Mapper/Link.antt =====
-- The two writes of `Mapper::add`: a new child is linked, and a value is set at a step.
use ijson.Prelude.{
  ℕ, suc, ◌+◌, ◌-◌, ◌≤◌, ◌<◌, ◌≡◌, ◌≢◌, ◌⊎◌, refl, sym, ◌∙◌, ap, inl, inr, Bool, true, false, ◌&&◌,
  [], ◌∷◌, ◌++◌, ◌||◌, Bytes, ◌==◌, if◌then◌else◌, Bool-cases, arith,
}
use ijson.Mapper.{Block, zero_step, is_wrong, write, set_k}
use ijson.Mapper.View.{step_at, step_at-stop, step_at-child, ends, stds}
use ijson.Mapper.Shape.{IsTrie, stops, node_at, node_at-stop, node_at-child}

-- Two blocks hold the same values.
abbrev pub SameValues : Block → Block → ℕ → Type 0
SameValues b c n = (p : Bytes) → (ends c n p ≡ ends b n p) × (stds c n p ≡ stds b n p)

-- A step that is all zero leads nowhere.
pub zero-values : (c : Block) (n : ℕ) (p : Bytes) → c n ≡ zero_step → step_at c n p ≡ zero_step
zero-values c n [] e = unfold step_at in e
zero-values c n (a ∷ p) e = step_at-stop c n a p (rw e (or_true (is_wrong a)))
  where
    or_true : (x : Bool) → (x || true) ≡ true
    or_true x = ground arith

module _ {b : Block} {size : ℕ} (t : IsTrie b size) {n i nx : ℕ} (below : n ≤ size)
    (fresh : size < nx) (free : (b n).k i ≡ 0) where
  open t use {label, root, bounded, labelled, unused}

  abbrev linked : Block
  linked = write b n (set_k (b n) i nx)

  linked-zero : linked nx ≡ zero_step
  linked-zero = ground (arith, unused nx)

  -- An entry of the linked block is the new one or as it was.
  linked-k : (m j : ℕ) → (linked m).k j ≡ (if (m == n) && (j == i) then nx else (b m).k j)
  linked-k m j = ground arith

  linked-child :
      (m a : ℕ)
      → stops b m a ≡ false
      → (stops linked m a ≡ false) × ((linked m).k (a - 32) ≡ (b m).k (a - 32))
  linked-child m a e = ground (arith, linked-k m (a - 32))

  -- Where the old trie ended, the new one ends too, or leads to the new step.
  linked-stop :
      (m a : ℕ)
      → stops b m a ≡ true
      → (stops linked m a ≡ true) ⊎ ((stops linked m a ≡ false) × ((linked m).k (a - 32) ≡ nx))
  linked-stop m a e = elim (Bool-cases (stops linked m a)) [
    | inl h ↦ inl h
    | inr h ↦ inr (h, ground (arith, linked-k m (a - 32)))
  ]

  linked-gone : (m a : ℕ) (p : Bytes) → stops b m a ≡ true → step_at linked m (a ∷ p) ≡ zero_step
  linked-gone m a p e = elim (linked-stop m a e) [
    | inl h ↦ step_at-stop linked m a p h
    | inr (h, k) ↦
        step_at-child linked m a p h
        ∙ ap (λ c. step_at linked c p) k
        ∙ zero-values linked nx p linked-zero
  ]

  linked-from :
      (m : ℕ) (p : Bytes)
      → m ≤ size
      → (ends linked m p ≡ ends b m p) × (stds linked m p ≡ stds b m p)
  linked-from m [] h = unfold step_at in (ground arith, ground arith)
  linked-from m (a ∷ p) h = elim (Bool-cases (stops b m a)) [
    | inl e ↦
        let same = linked-gone m a p e ∙ sym (step_at-stop b m a p e) in
        (ap (λ t. t.end) same, ap (λ t. t.std) same)
    | inr e ↦
        let (f, k) = linked-child m a e in
        let (x, y) = linked-from ((b m).k (a - 32)) p (bounded m (a - 32)) in
        let old = sym (step_at-child b m a p e) in
        let new = step_at-child linked m a p f ∙ ap (λ c. step_at linked c p) k in
        (
          ap (λ t. t.end) new ∙ x ∙ ap (λ t. t.end) old,
          ap (λ t. t.std) new ∙ y ∙ ap (λ t. t.std) old,
        )
  ]

  -- Linking a new step changes no value.
  pub linked-values : 1 ≤ size → SameValues b linked 1
  linked-values h p = linked-from 1 p h

  -- Nor does it cut a path.
  pub linked-node_at : (m : ℕ) (p : Bytes) → node_at b m p ≢ 0 → node_at linked m p ≡ node_at b m p
  linked-node_at m [] h = unfold node_at in refl
  linked-node_at m (a ∷ p) h = elim (Bool-cases (stops b m a)) [
    | inl e ↦ absurd (h (node_at-stop b m a p e))
    | inr e ↦
        let (f, k) = linked-child m a e in
        rw (node_at-child b m a p e, node_at-child linked m a p f, k)
          (linked-node_at ((b m).k (a - 32)) p (λ z. h (node_at-child b m a p e ∙ z)))
  ]

  linked-label :
      (m j : ℕ)
      → (linked m).k j ≢ 0
      → (if (linked m).k j == nx then label n ++ (i + 32) ∷ [] else label ((linked m).k j))
        ≡ (if m == nx then label n ++ (i + 32) ∷ [] else label m) ++ (j + 32) ∷ []
  linked-label m j h = elim (Bool-cases ((m == n) && (j == i))) [
    | inl e ↦ rw (linked-k m j, e) (ground arith)
    | inr e ↦
        let same : (linked m).k j ≡ (b m).k j = linked-k m j ∙ rw e refl in
        rw same (ground (arith, labelled m j, bounded m j, unused m))
  ]

  pub linked-IsTrie : 1 ≤ size → nx ≡ suc size → IsTrie linked nx
  linked-IsTrie h e = record {
    label = λ m. if m == nx then label n ++ (i + 32) ∷ [] else label m;
    root = ground (arith, root);
    bounded = λ m j. ground (arith, linked-k m j, bounded m j);
    labelled = linked-label;
    unused = λ m h. ground (arith, unused m);
  }
