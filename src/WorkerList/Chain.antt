-- ===== src/WorkerList/Chain.antt =====
-- What the linked list of src/workerlist.cpp stands for, and the pop of an item.
use ijson.Prelude.{
  ℕ, ◌≡◌, refl, Bool, true, false, ◌||◌, ◌==◌, if◌then◌else◌, Option, none, some, List, [], ◌∷◌,
  arith,
}
use mathlib.Core.Option
use ijson.WorkerList.{Item, item, Heap, WorkerList, is_at}

-- Address and connection of each item, in order.
abbrev pub Cells : Type 0
Cells = List (ℕ × ℕ)

abbrev pub first : Cells → Option ℕ
first [] = none
first ((p, _) ∷ xs) = some p

abbrev pub has : ℕ → Cells → Bool
has a [] = false
has a ((p, _) ∷ xs) = p == a || has a xs

abbrev pub meets : Option ℕ → Cells → Bool
meets none xs = false
meets (some a) xs = has a xs

abbrev pub Chain : Heap → Option ℕ → Cells → Type 0
Chain h before [] = Unit {0}
Chain h before ((p, c) ∷ xs) =
    (h p ≡ some (item before (first xs) c)) × (has p xs ≡ false) × Chain h (some p) xs

-- The list stands for the cells.
abbrev pub IsList : WorkerList → Cells → Type 0
IsList l xs = (l.head ≡ first xs) × Chain l.items none xs

abbrev pub erase : ℕ → Cells → Cells
erase a [] = []
erase a ((p, c) ∷ xs) = if p == a then xs else (p, c) ∷ erase a xs

pub Chain-frame :
    (g h : Heap) (before : Option ℕ) (xs : Cells)
    → Chain h before xs
    → ((a : ℕ) → has a xs ≡ true → g a ≡ h a)
    → Chain g before xs
Chain-frame g h before [] k same = k
Chain-frame g h before ((p, c) ∷ xs) k same =
    (ground (arith, same p, k), k.1, Chain-frame g h (some p) xs k.2 λ a i. same a (ground arith))

-- The neighbours of the cell at `p`, where `before` stands before the list.
abbrev pub prev_of : Option ℕ → Cells → ℕ → Option ℕ
prev_of before [] p = none
prev_of before ((q, c) ∷ xs) p = if q == p then before else prev_of (some q) xs p

abbrev pub next_of : Cells → ℕ → Option ℕ
next_of [] p = none
next_of ((q, c) ∷ xs) p = if q == p then first xs else next_of xs p

abbrev pub conn_of : Cells → ℕ → ℕ
conn_of [] p = 0
conn_of ((q, c) ∷ xs) p = if q == p then c else conn_of xs p

abbrev pub within : Option ℕ → Cells → Bool
within none xs = true
within (some a) xs = has a xs

within-cons :
    (o : Option ℕ) (x : ℕ × ℕ) (xs : Cells) → within o xs ≡ true → within o (x ∷ xs) ≡ true
within-cons none x xs e = refl
within-cons (some a) x xs e = ground arith

within-first : (xs : Cells) → within (first xs) xs ≡ true
within-first [] = refl
within-first (x ∷ xs) = ground arith

pub within-next : (xs : Cells) (p : ℕ) → within (next_of xs p) xs ≡ true
within-next [] p = refl
within-next ((q, c) ∷ xs) p = ground (
  arith,
  within-cons (first xs) (q, c) xs (within-first xs),
  within-cons (next_of xs p) (q, c) xs (within-next xs p),
)

-- Below the first cell, the cell before `p` is one of the list.
pub within-prev :
    (q c : ℕ) (xs : Cells) (p : ℕ) → within (prev_of (some q) xs p) ((q, c) ∷ xs) ≡ true
within-prev q c [] p = refl
within-prev q c ((r, d) ∷ xs) p =
    ground (arith, within-cons (prev_of (some r) xs p) (q, c) ((r, d) ∷ xs) (within-prev r d xs p))

pub within-prev_rest :
    (before : Option ℕ) (xs : Cells) (p : ℕ)
    → is_at p (first xs) ≡ false
    → within (prev_of before xs p) xs ≡ true
within-prev_rest before [] p e = refl
within-prev_rest before ((q, c) ∷ xs) p e = ground (arith, within-prev q c xs p)

-- What the item at `p` holds.
pub Chain-at :
    (h : Heap) (before : Option ℕ) (xs : Cells) (p : ℕ)
    → Chain h before xs
    → has p xs ≡ true
    → h p ≡ some (item (prev_of before xs p) (next_of xs p) (conn_of xs p))
Chain-at h before [] p k e = cc
Chain-at h before ((q, c) ∷ xs) p k e = ground (arith, Chain-at h (some q) xs p k.2, k.0)

-- The heap without the item at `p`, whose neighbours are joined.
abbrev pub with_next : Option ℕ → Item → Item
with_next v i = item i.prev v i.conn

abbrev pub with_prev : Option ℕ → Item → Item
with_prev v i = item v i.next i.conn

abbrev pub at : Option ℕ → (Item → Item) → Heap → Heap
at o f h a = if is_at a o then Option.map f (h a) else h a

abbrev pub popped : ℕ → Option ℕ → Option ℕ → Heap → Heap
popped p prev next h a =
    if p == a then none else at next (with_prev prev) (at prev (with_next next) h) a

pub has-erase : (a p : ℕ) (xs : Cells) → has a xs ≡ false → has a (erase p xs) ≡ false
has-erase a p [] e = refl
has-erase a p ((q, c) ∷ xs) e = ground (arith, has-erase a p xs)
