-- ===== src/Mapper/Write.antt =====
-- A value of the trie is set, by `Mapper::add` or `Mapper::del`.
use ijson.Prelude.{
  ℕ, ◌-◌, ◌≤◌, ◌≡◌, ◌≢◌, refl, sym, ◌∙◌, ap, inl, inr, true, [], ◌∷◌, ◌||◌, Bytes, ◌==◌,
  if◌then◌else◌, Bool-cases, arith,
}
use ijson.Slice.{equal}
use ijson.Slice.Compare.{equal_iff}
use ijson.Mapper.{Step, Block, zero_step, is_wrong, write}
use ijson.Mapper.View.{Table, step_at, ends, stds}
use ijson.Mapper.Shape.{
  IsTrie, stops, node_at, node_at-stop, node_at-child, Reaches, step_at-node_at, node_at_unique,
}

-- The table is the old one, but for the value at one path.
abbrev pub SetAt : Table → Table → Bytes → ℕ → Type 0
SetAt t t' q v = (p : Bytes) → t' p ≡ (if equal p q then v else t p)

-- A value is set at the step `n`: the links are the same.
module _ {b : Block} {size n : ℕ} (t : IsTrie b size) (s : Step) (same : s.k ≡ (b n).k) where
  open t use {label, root, bounded, labelled, unused}

  written-k : (m : ℕ) → (write b n s m).k ≡ (b m).k
  written-k m = ground arith

  written-node_at : (m : ℕ) (p : Bytes) → node_at (write b n s) m p ≡ node_at b m p
  written-node_at m [] = unfold node_at in refl
  written-node_at m (a ∷ p) =
      let k : (write b n s m).k (a - 32) ≡ (b m).k (a - 32) = ap (λ f. f (a - 32)) (written-k m) in
      elim (Bool-cases (stops b m a)) [
        | inl e ↦
            node_at-stop (write b n s) m a p (ap (λ v. is_wrong a || (v == 0)) k ∙ e)
            ∙ sym (node_at-stop b m a p e)
        | inr e ↦
            node_at-child (write b n s) m a p (ap (λ v. is_wrong a || (v == 0)) k ∙ e)
            ∙ ap (λ v. node_at (write b n s) v p) k
            ∙ written-node_at ((b m).k (a - 32)) p
            ∙ sym (node_at-child b m a p e)
      ]

  pub written-IsTrie : n ≤ size → IsTrie (write b n s) size
  written-IsTrie h = record {
    label = label;
    root = root;
    bounded = λ m j. rw (written-k m) (bounded m j);
    labelled = λ m j. rw (written-k m) (labelled m j);
    unused = λ m l. ground (arith, unused m);
  }

  -- The step at the path of `n` is the new one, and no other path is touched.
  pub written-step_at :
      {q : Bytes}
      → Reaches b size q n
      → (p : Bytes) → step_at (write b n s) 1 p ≡ (if equal p q then s else step_at b 1 p)
  written-step_at {q} r p =
      rw
        (
          step_at-node_at (write b n s) 1 p (omega arith),
          step_at-node_at b 1 p (omega arith),
          written-node_at 1 p,
          ← node_at_unique t p q n r,
        )
        (pick (node_at b 1 p) r.positive)
    where
      pick :
          (x : ℕ)
          → n ≢ 0
          → (if x == 0 then zero_step else write b n s x)
            ≡ (if x == n then s else (if x == 0 then zero_step else b x))
      pick x h = ground arith

  -- The step that a path leads to is the one whose fields are kept.
  reached : {q : Bytes} → Reaches b size q n → (p : Bytes) → equal p q ≡ true → step_at b 1 p ≡ b n
  reached {q} r p e =
      ap (step_at b 1) ((equal_iff p q).0 e)
      ∙ step_at-node_at b 1 q (omega arith)
      ∙ ground (arith, r.path, r.positive)

  module _ {q : Bytes} (r : Reaches b size q n) where
    pub written-ends : SetAt (ends b 1) (ends (write b n s) 1) q s.end
    written-ends p = ap (λ t. t.end) (written-step_at r p) ∙ ground arith

    pub written-stds : SetAt (stds b 1) (stds (write b n s) 1) q s.std
    written-stds p = ap (λ t. t.std) (written-step_at r p) ∙ ground arith

    pub kept-ends : s.end ≡ (b n).end → (p : Bytes) → ends (write b n s) 1 p ≡ ends b 1 p
    kept-ends e p = elim (Bool-cases (equal p q)) [
      | inl h ↦ written-ends p ∙ rw h (e ∙ sym (ap (λ t. t.end) (reached r p h)))
      | inr h ↦ written-ends p ∙ rw h refl
    ]

    pub kept-stds : s.std ≡ (b n).std → (p : Bytes) → stds (write b n s) 1 p ≡ stds b 1 p
    kept-stds e p = elim (Bool-cases (equal p q)) [
      | inl h ↦ written-stds p ∙ rw h (e ∙ sym (ap (λ t. t.std) (reached r p h)))
      | inr h ↦ written-stds p ∙ rw h refl
    ]
