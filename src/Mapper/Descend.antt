-- ===== src/Mapper/Descend.antt =====
-- One round of the loop of `Mapper::add`, and `Mapper::_next`.
use mathlib.Core.Path.{fun_ext, ap₂}
use ijson.Prelude.{
  ℕ, suc, ◌+◌, ◌-◌, ◌^◌, ◌≤◌, ◌<◌, ◌≡◌, refl, sym, ◌∙◌, ap, subst, inl, inr, true, false, [], ◌∷◌,
  ◌++◌, Bytes, ◌==◌, Bool-cases, arith,
}
use ijson.Mapper.{
  Block, Mapper, is_wrong, write, set_k, current, with_current, grow, next_step, descend,
}
use ijson.Mapper.Shape.{IsTrie, node_at, Reaches, node_at-snoc}
use ijson.Mapper.Link.{SameValues, linked-values, linked-node_at, linked-IsTrie}

pub current-with_current : (m : Mapper) (b : Block) → current (with_current m b) ≡ b
unfolding current with_current
current-with_current m b = ground arith

-- The copy that `_next` makes holds the same steps.
grow-trie : {b : Block} {size : ℕ} (cap : ℕ) → IsTrie b size → size ≤ cap → grow b cap ≡ b
unfolding grow
grow-trie cap t h = fun_ext λ n. ground (arith, t.unused n)

-- What holds between the rounds of the loop.
pub record IsOpen (m : Mapper) : Type 0 where
  pub trie : IsTrie (current m) m.size
  pub rooted : 1 ≤ m.size
  pub fits : m.size ≤ m.cap

-- `_next` reserves the step after the last, in a block that has room for it.
next_step_lem :
    (m : Mapper)
    → IsOpen m
    → m.size + 1 < 2 ^ 16
    → (current (next_step m).0 ≡ current m)
      × ((next_step m).0.size ≡ suc m.size)
      × ((next_step m).1 ≡ suc m.size)
      × ((next_step m).0.size ≤ (next_step m).0.cap)
unfolding next_step current
next_step_lem m o h = ground (arith, grow-trie m.cap o.trie o.fits)

pub with_current-size : (m : Mapper) (b : Block) → (with_current m b).size ≡ m.size
unfolding with_current
with_current-size m b = ground arith

pub with_current-cap : (m : Mapper) (b : Block) → (with_current m b).cap ≡ m.cap
unfolding with_current
with_current-cap m b = ground arith

-- One round: the path is one character longer, and the trie holds the same values.
pub record Descended (m m' : Mapper) (q : Bytes) (a n' : ℕ) : Type 0 where
  pub opened : IsOpen m'
  pub reaches : Reaches (current m') m'.size (q ++ a ∷ []) n'
  pub same : SameValues (current m) (current m') 1
  pub grown : m'.size ≤ m.size + 1

descend-old :
    (m : Mapper) (n i : ℕ)
    → ((current m n).k i == 0) ≡ false
    → descend m n i ≡ (m, (current m n).k i)
unfolding descend
descend-old m n i e = rw e

descend-new :
    (m : Mapper) (n i : ℕ)
    → ((current m n).k i == 0) ≡ true
    → let made = next_step m in
      let b = current made.0 in
      descend m n i ≡ (with_current made.0 (write b n (set_k (b n) i made.1)), made.1)
unfolding descend
descend-new m n i e = rw e

module _ (m : Mapper) (q : Bytes) (n a : ℕ) (o : IsOpen m) (r : Reaches (current m) m.size q n)
    (w : is_wrong a ≡ false) where
  found : ((current m n).k (a - 32) == 0) ≡ false → Descended m m q a ((current m n).k (a - 32))
  found e = record {
    opened = o;
    reaches = record {
      path = node_at-snoc o.trie 1 q n a r.path r.positive w;
      positive = ground arith;
      within = o.trie.bounded n (a - 32);
    };
    same = λ p. (refl, refl);
    grown = omega arith;
  }

  module _ (m' : Mapper) (free : (current m n).k (a - 32) ≡ 0)
      (b : current m' ≡ write (current m) n (set_k (current m n) (a - 32) (suc m.size)))
      (size : m'.size ≡ suc m.size) (fits : m'.size ≤ m'.cap) where
    new-IsTrie : IsTrie (current m') m'.size
    new-IsTrie = subst (IsTrie (current m')) (sym size) (
        subst (λ c. IsTrie c (suc m.size)) (sym b)
          (linked-IsTrie o.trie r.within (omega arith) free o.rooted refl))

    path : node_at (current m') 1 q ≡ n
    path =
        ap (λ c. node_at c 1 q) b
        ∙ linked-node_at o.trie r.within (omega arith) free 1 q (λ z. r.positive (sym r.path ∙ z))
        ∙ r.path

    entry : (current m' n).k (a - 32) ≡ suc m.size
    entry = ap (λ c. (c n).k (a - 32)) b ∙ ground arith

    made : Descended m m' q a (suc m.size)
    made = record {
      opened = record { trie = new-IsTrie; rooted = omega arith; fits = fits };
      reaches = record {
        path = node_at-snoc new-IsTrie 1 q n a path r.positive w ∙ entry;
        positive = omega arith;
        within = omega arith;
      };
      same =
          subst (λ c. SameValues (current m) c 1) (sym b)
            (linked-values o.trie r.within (omega arith) free o.rooted);
      grown = omega arith;
    }

pub descend_lem :
    (m : Mapper) (q : Bytes) (n a : ℕ)
    → IsOpen m
    → Reaches (current m) m.size q n
    → is_wrong a ≡ false
    → m.size + 1 < 2 ^ 16
    → Descended m (descend m n (a - 32)).0 q a (descend m n (a - 32)).1
descend_lem m q n a o r w h = elim (Bool-cases ((current m n).k (a - 32) == 0)) [
  | inr e ↦ rw (descend-old m n (a - 32) e) (found m q n a o r w e)
  | inl e ↦
      let (same, size, number, fits) = next_step_lem m o h in
      let b = write (current m) n (set_k (current m n) (a - 32) (suc m.size)) in
      let m' = with_current (next_step m).0 b in
      let known : descend m n (a - 32) ≡ (m', suc m.size) =
        descend-new m n (a - 32) e
        ∙ ap₂
            (λ (c : Block) (x : ℕ).
              (with_current (next_step m).0 (write c n (set_k (c n) (a - 32) x)), x))
            same number in
      rw known (
        made m q n a o r w m' (ground arith) (current-with_current (next_step m).0 b)
          (with_current-size (next_step m).0 b ∙ size)
          (omega (arith, with_current-size (next_step m).0 b, with_current-cap (next_step m).0 b)))
]
