-- ===== src/WorkerList/Pop.antt =====
-- `WorkerItem::pop` of src/workerlist.cpp on a list that stands for its cells.
use ijson.Prelude.{
  ℕ, ◌≡◌, refl, sym, subst, ◌∙◌, ap, inl, inr, true, false, Option, none, some, [], ◌∷◌, arith,
  Bool-cases,
}
use ijson.WorkerList.{
  Item, item, Heap, WorkerList, worker_list, write, is_at, set_prev, set_next, pop,
}
use ijson.WorkerList.Chain.{
  Cells, first, has, within, Chain, IsList, erase, Chain-frame, prev_of, next_of, conn_of, Chain-at,
  within-next, within-prev_rest, popped, at, with_next, with_prev,
}
use ijson.WorkerList.Erase.{neq, not_at_within, first-erase, first-erase_other, Chain-popped}

-- The item of the address is there, if there is an address.
abbrev Present : Heap → Option ℕ → Type 0
Present h none = Unit {0}
Present h (some q) = (i : Item) × (h q ≡ some i)

within-Present :
    (h : Heap) (before o : Option ℕ) (xs : Cells)
    → Chain h before xs
    → within o xs ≡ true
    → Present h o
within-Present h before none xs k e = tt
within-Present h before (some q) xs k e =
    (item (prev_of before xs q) (next_of xs q) (conn_of xs q), Chain-at h before xs q k e)

abbrev Same : Heap → Heap → Type 0
Same g h = (a : ℕ) → g a ≡ h a

set_prev-at :
    (o v : Option ℕ) (h : Heap)
    → Present h o
    → (m : Heap) × (set_prev o v h ≡ some m) × Same m (at o (with_prev v) h)
unfolding set_prev
set_prev-at none v h p = (h, refl, λ a. refl)
set_prev-at (some q) v h (i, e) =
    (write h q (some (with_prev v i)), ground (arith, e), λ a. ground (arith, e))

set_next-at :
    (o v : Option ℕ) (h : Heap)
    → Present h o
    → (m : Heap) × (set_next o v h ≡ some m) × Same m (at o (with_next v) h)
unfolding set_next
set_next-at none v h p = (h, refl, λ a. refl)
set_next-at (some q) v h (i, e) =
    (write h q (some (with_next v i)), ground (arith, e), λ a. ground (arith, e))

-- The state that a pop leaves.
pub record Popped (l : WorkerList) (xs : Cells) (p : ℕ) : Type 0 where
  pub final : WorkerList
  pub returns : pop p l ≡ some final
  pub is_list : IsList final (erase p xs)
  pub freed : final.items p ≡ none
  pub frame : (a : ℕ) → has a xs ≡ false → final.items a ≡ l.items a

module _ (l : WorkerList) (p : ℕ) (this : Item) (e : l.items p ≡ some this) where
  pop-head :
      (m : Heap)
      → is_at p l.head ≡ true
      → set_prev this.next none l.items ≡ some m
      → pop p l ≡ some (worker_list (write m p none) this.next)
  unfolding pop
  pop-head m h f = ground (arith, e, h, f)

  pop-behind :
      (g m : Heap)
      → is_at p l.head ≡ false
      → set_next this.prev this.next l.items ≡ some g
      → set_prev this.next this.prev g ≡ some m
      → pop p l ≡ some (worker_list (write m p none) l.head)
  unfolding pop
  pop-behind g m h f k = ground (arith, e, h, f, k)

-- What is popped in one step, or in two, is popped.
popped-head :
    (h m : Heap) (p : ℕ) (next : Option ℕ)
    → Same m (at next (with_prev none) h)
    → Same (write m p none) (popped p none next h)
popped-head h m p next e a = ground (arith, e a)

popped-behind :
    (h g m : Heap) (p : ℕ) (prev next : Option ℕ)
    → Same g (at prev (with_next next) h)
    → Same m (at next (with_prev prev) g)
    → Same (write m p none) (popped p prev next h)
popped-behind h g m p prev next e f a = ground (arith, e a, f a)

Present-at :
    (o q : Option ℕ) (f : Item → Item) (g h : Heap) → Same g (at q f h) → Present h o → Present g o
Present-at none q f g h e k = tt
Present-at (some a) q f g h e (i, k) = elim (Bool-cases (is_at a q)) [
  | inl y ↦ (f i, ground (arith, e a, k, y))
  | inr n ↦ (i, ground (arith, e a, k, n))
]

first-none : (p : ℕ) (xs : Cells) → is_at p (first xs) ≡ true → prev_of none xs p ≡ none
first-none p [] e = refl
first-none p (x ∷ xs) e = ground arith

prev-within : (xs : Cells) (p : ℕ) → within (prev_of none xs p) xs ≡ true
prev-within xs p = elim (Bool-cases (is_at p (first xs))) [
  | inl y ↦ rw (first-none p xs y)
  | inr n ↦ within-prev_rest none xs p n
]

module _ (l : WorkerList) (xs : Cells) (p : ℕ) (k : IsList l xs) (e : has p xs ≡ true) where
  -- A final state that agrees with the heap without the item.
  popped_by :
      (h : Heap)
      → pop p l ≡ some (worker_list h (first (erase p xs)))
      → Same h (popped p (prev_of none xs p) (next_of xs p) l.items)
      → Popped l xs p
  popped_by h r same = record {
    final = worker_list h (first (erase p xs));
    returns = r;
    is_list = (
      refl,
      Chain-frame h (popped p (prev_of none xs p) (next_of xs p) l.items) none (erase p xs)
          (Chain-popped l.items none p xs k.1 e refl) λ a i. same a,
    );
    freed = ground (arith, same p);
    frame = λ a out.
        let here = neq p a xs e out in
        let prev = not_at_within (prev_of none xs p) a xs (prev-within xs p) out in
        let next = not_at_within (next_of xs p) a xs (within-next xs p) out in
        ground (arith, same a, prev, next);
  }

  pub pop_lem : Popped l xs p
  pop_lem =
      let at_p = Chain-at l.items none xs p k.1 e in
      let this = item (prev_of none xs p) (next_of xs p) (conn_of xs p) in
      let next = within-Present l.items none (next_of xs p) xs k.1 (within-next xs p) in
      elim (Bool-cases (is_at p (first xs))) [
        | inl y ↦
            let (m, r, same) = set_prev-at (next_of xs p) none l.items next in
            let f = first-erase none p xs y in
            popped_by (write m p none)
              (pop-head l p this at_p m (subst (λ z. is_at p z ≡ true) (sym k.0) y) r
                ∙ ap (λ z. some (worker_list (write m p none) z)) (sym f.1))
              (subst (λ z. Same (write m p none) (popped p z (next_of xs p) l.items)) (sym f.0)
                (popped-head l.items m p (next_of xs p) same))
        | inr n ↦
            let prev = within-Present l.items none (prev_of none xs p) xs k.1 (prev-within xs p) in
            let (g, q, first_same) = set_next-at (prev_of none xs p) (next_of xs p) l.items prev in
            let (m, r, same) = set_prev-at (next_of xs p) (prev_of none xs p) g (
              Present-at (next_of xs p) (prev_of none xs p) (with_next (next_of xs p)) g l.items
                first_same next) in
            let f = first-erase_other p xs n in
            popped_by (write m p none)
              (pop-behind l p this at_p g m (subst (λ z. is_at p z ≡ false) (sym k.0) n) q r
                ∙ ap (λ z. some (worker_list (write m p none) z)) (k.0 ∙ sym f))
              (popped-behind l.items g m p (prev_of none xs p) (next_of xs p) first_same same)
      ]
