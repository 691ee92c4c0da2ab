-- ===== src/WorkerList/Erase.antt =====
-- The pop of an item of the list of src/workerlist.cpp takes it out of the chain.
use ijson.Prelude.{
  ℕ, ◌≡◌, refl, subst, inl, inr, true, false, ◌==◌, Option, none, some, [], ◌∷◌, arith, Bool-cases,
}
use ijson.WorkerList.{item, Heap, is_at}
use ijson.WorkerList.Chain.{
  Cells, first, has, meets, within, Chain, erase, Chain-frame, prev_of, next_of, within-next,
  within-prev_rest, popped, has-erase,
}

pub neq : (a b : ℕ) (xs : Cells) → has a xs ≡ true → has b xs ≡ false → (b == a) ≡ false
neq a b [] e f = cc
neq a b ((c, _) ∷ xs) e f = ground (arith, neq a b xs)

pub not_at_within :
    (o : Option ℕ) (a : ℕ) (xs : Cells) → within o xs ≡ true → has a xs ≡ false → is_at a o ≡ false
not_at_within none a xs e f = refl
not_at_within (some b) a xs e f = ground (arith, neq b a xs e f)

not_at_meets :
    (o : Option ℕ) (a : ℕ) (xs : Cells) → meets o xs ≡ false → has a xs ≡ true → is_at a o ≡ false
not_at_meets none a xs e f = refl
not_at_meets (some b) a xs e f = neq a b xs f e

-- The chain behind the item at `p` once it is joined to what stands before.
joined :
    (h : Heap) (before : Option ℕ) (p : ℕ) (ys : Cells)
    → Chain h (some p) ys
    → has p ys ≡ false
    → meets before ys ≡ false
    → Chain (popped p before (first ys) h) before ys
joined h before p [] k e f = k
joined h before p ((b, c) ∷ ys) k e f = (
  ground (arith, k.0),
  k.1,
  Chain-frame (popped p before (some b) h) h (some b) ys k.2 λ a i.
      let here = not_at_meets before a ((b, c) ∷ ys) f (ground arith) in
      let out = neq a p ((b, c) ∷ ys) (ground arith) e in
      let ne = neq a b ys i k.1 in rw (out, ne, here),
)

-- The heads of the chain with and without the item at `p`.
pub first-erase :
    (before : Option ℕ) (p : ℕ) (xs : Cells)
    → is_at p (first xs) ≡ true
    → (prev_of before xs p ≡ before) × (first (erase p xs) ≡ next_of xs p)
first-erase before p [] e = cc
first-erase before p (x ∷ xs) e = ground arith

pub first-erase_other :
    (p : ℕ) (xs : Cells) → is_at p (first xs) ≡ false → first (erase p xs) ≡ first xs
first-erase_other p [] e = refl
first-erase_other p (x ∷ xs) e = ground arith

-- What becomes of the cell before the rest of the list.
popped-before :
    (h : Heap) (before : Option ℕ) (p q c : ℕ) (xs : Cells)
    → h q ≡ some (item before (first xs) c)
    → (q == p) ≡ false
    → has q xs ≡ false
    → popped p (prev_of (some q) xs p) (next_of xs p) h q
      ≡ some (item before (first (erase p xs)) c)
popped-before h before p q c xs e ne out =
    let ne_sym : (p == q) ≡ false = ground arith in
    let next = not_at_within (next_of xs p) q xs (within-next xs p) out in
    elim (Bool-cases (is_at p (first xs))) [
      | inl y ↦
          let f = first-erase (some q) p xs y in rw (ne_sym, next, f.0, f.1) (ground (arith, e))
      | inr n ↦
          let prev =
            not_at_within (prev_of (some q) xs p) q xs (within-prev_rest (some q) xs p n) out in
          let f = first-erase_other p xs n in rw (ne_sym, next, prev, f) (e)
    ]

-- Taking the item at `p` out of the heap takes its cell out of the list.
pub Chain-popped :
    (h : Heap) (before : Option ℕ) (p : ℕ) (xs : Cells)
    → Chain h before xs
    → has p xs ≡ true
    → meets before xs ≡ false
    → Chain (popped p (prev_of before xs p) (next_of xs p) h) before (erase p xs)
Chain-popped h before p [] k e f = k
Chain-popped h before p ((q, c) ∷ xs) k e f = elim (Bool-cases (q == p)) [
  | inl y ↦
      let same : q ≡ p = ground (arith, y) in
      rw y (
        joined h before p xs (subst (λ z. Chain h (some z) xs) same k.2)
          (subst (λ z. has z xs ≡ false) same k.1) (ground arith))
  | inr n ↦ rw n (
    popped-before h before p q c xs k.0 n k.1,
    has-erase q p xs k.1,
    Chain-popped h (some q) p xs k.2 (ground arith) k.1,
  )
]
