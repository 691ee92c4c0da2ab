-- ===== src/WorkerList/Whole.antt =====
-- `WorkerList::push` and the destructor of src/workerlist.cpp on a list that stands for its cells, and
-- the list of connections that Broker/Worker.antt keeps in its place.
use ijson.Prelude.{
  ℕ, suc, ◌≡◌, ◌<◌, refl, subst, ◌∙◌, Bool, true, false, inl, inr, Bool-cases, zero, ◌==◌, ◌||◌,
  Option, none, some, List, [], ◌∷◌, arith, length, if◌then◌else◌,
}
use ijson.Broker.Worker.{without}
use ijson.WorkerList.{item, Heap, WorkerList, worker_list, write, set_prev, push, pop, clear}
use ijson.WorkerList.Chain.{Cells, first, has, Chain, IsList, erase, Chain-frame, conn_of}
use ijson.WorkerList.Erase.{neq}
use ijson.WorkerList.Pop.{pop_lem}

-- An unused address is none of the list.
absent :
    (h : Heap) (before : Option ℕ) (xs : Cells) (n : ℕ)
    → Chain h before xs
    → h n ≡ none
    → has n xs ≡ false
absent h before [] n k e = refl
absent h before ((p, c) ∷ xs) n k e = ground (arith, k.0, absent h (some p) xs n k.2 e)

pub record Pushed (l : WorkerList) (xs : Cells) (n conn : ℕ) : Type 0 where
  pub final : WorkerList
  pub returns : push n conn l ≡ some final
  pub is_list : IsList final ((n, conn) ∷ xs)
  pub frame : (a : ℕ) → has a ((n, conn) ∷ xs) ≡ false → final.items a ≡ l.items a

abbrev pushed : Heap → ℕ → ℕ → ℕ → ℕ → Cells → Heap
pushed h n conn p c xs =
    write (write h n (some (item none (some p) conn))) p (some (item (some n) (first xs) c))

push-some :
    (l : WorkerList) (n conn p c : ℕ) (xs : Cells)
    → l.head ≡ some p
    → l.items p ≡ some (item none (first xs) c)
    → (p == n) ≡ false
    → push n conn l ≡ some (worker_list (pushed l.items n conn p c xs) (some n))
unfolding push set_prev
push-some l n conn p c xs e f ne = ground (arith, e, f, ne)

-- A push to a linked list that stands for cells, at an address that is not in use, ends without a
-- wild access in a linked list with the connection in front under the address, and changes no
-- other item that is not of the list.
pub push_lem :
    (l : WorkerList) (xs : Cells) (n conn : ℕ) → IsList l xs → l.items n ≡ none → Pushed l xs n conn
push_lem l [] n conn k e = record {
  final = worker_list (write l.items n (some (item none none conn))) (some n);
  returns = unfold push in ground (arith, k.0);
  is_list = (refl, (ground arith, refl, tt));
  frame = λ a out. ground arith;
}
push_lem l ((p, c) ∷ xs) n conn k e =
    let out = absent l.items none ((p, c) ∷ xs) n k.1 e in
    record {
      final = worker_list (pushed l.items n conn p c xs) (some n);
      returns = push-some l n conn p c xs k.0 k.1.0 (ground arith);
      is_list = (
        refl,
        (
          ground arith,
          out,
          (
            ground arith,
            k.1.1,
            Chain-frame (pushed l.items n conn p c xs) l.items (some p) xs k.1.2 λ a i.
                let here = neq a p xs i k.1.1 in
                let new = neq a n xs i (ground arith) in ground arith,
          ),
        ),
      );
      frame = λ a out. ground arith;
    }

-- The connections that the cells stand for.
abbrev pub conns : Cells → List ℕ
conns [] = []
conns ((p, c) ∷ xs) = c ∷ conns xs

abbrev pub holds : ℕ → Cells → Bool
holds c [] = false
holds c ((p, d) ∷ xs) = d == c || holds c xs

-- No connection has two items.
abbrev pub Once : Cells → Type 0
Once [] = Unit {0}
Once ((p, c) ∷ xs) = (holds c xs ≡ false) × Once xs

holds-conn_of : (p : ℕ) (xs : Cells) → has p xs ≡ true → holds (conn_of xs p) xs ≡ true
holds-conn_of p [] e = cc
holds-conn_of p ((q, c) ∷ xs) e = ground (arith, holds-conn_of p xs)

differs : (c d : ℕ) (xs : Cells) → holds c xs ≡ false → holds d xs ≡ true → (c == d) ≡ false
differs c d [] e f = cc
differs c d ((p, b) ∷ xs) e f = ground (arith, differs c d xs)

conns-erase :
    (xs : Cells) (p : ℕ)
    → Once xs
    → has p xs ≡ true
    → conns (erase p xs) ≡ without (conn_of xs p) (conns xs)
unfolding without
conns-erase [] p o e = cc
conns-erase ((q, c) ∷ xs) p o e = elim (Bool-cases (q == p)) [
  | inl y ↦ ground (arith, y)
  | inr n ↦
      let i : has p xs ≡ true = ground arith in
      let ne = differs c (conn_of xs p) xs o.0 (holds-conn_of p xs i) in
      ground (arith, n, ne, conns-erase xs p o.1 i)
]

-- The pop of the linked list, seen as the list of connections that the broker keeps.
pub record Refined (l : WorkerList) (xs : Cells) (p : ℕ) : Type 0 where
  pub final : WorkerList
  pub cells : Cells
  pub returns : pop p l ≡ some final
  pub is_list : IsList final cells
  pub view : conns cells ≡ without (conn_of xs p) (conns xs)
  pub freed : final.items p ≡ none
  pub frame : (a : ℕ) → has a xs ≡ false → final.items a ≡ l.items a

-- In a linked list that stands for cells of an address and a connection each, no connection twice,
-- `WorkerItem::pop` of any item ends without a wild access in a linked list that stands for the
-- connections without the one of the item, as the broker's list of workers loses it; the item is
-- freed, and what is not of the list is as before.
pub pop_refines :
    (l : WorkerList) (xs : Cells) (p : ℕ) → IsList l xs → Once xs → has p xs ≡ true → Refined l xs p
pop_refines l xs p k o e =
    let r = pop_lem l xs p k e in
    record {
      final = r.final;
      cells = erase p xs;
      returns = r.returns;
      is_list = r.is_list;
      view = conns-erase xs p o e;
      freed = r.freed;
      frame = r.frame;
    }

pub record Cleared (n : ℕ) (l : WorkerList) (xs : Cells) : Type 0 where
  pub final : WorkerList
  pub returns : clear n l ≡ some final
  pub empty : final.head ≡ none
  pub items : (a : ℕ) → final.items a ≡ (if has a xs then none else l.items a)

clear-cons :
    (n p : ℕ) (l m : WorkerList) → l.head ≡ some p → pop p l ≡ some m → clear (suc n) l ≡ clear n m
unfolding clear
clear-cons n p l m e r = ground (arith, e, r)

first-of : (p c : ℕ) (xs : Cells) → erase p ((p, c) ∷ xs) ≡ xs
first-of p c xs = ground arith

-- With more rounds than the linked list has items its destructor ends without a wild access, with
-- no head and with every item of the list freed, and changes no other.
pub clear_lem : (xs : Cells) (n : ℕ) (l : WorkerList) → IsList l xs → length xs < n → Cleared n l xs
clear_lem xs zero l k h = let less : ⊥ = omega arith in elim less [ ]
clear_lem [] (suc n) l k h = record {
  final = l;
  returns = unfold clear in ground (arith, k.0);
  empty = k.0;
  items = λ a. refl;
}
clear_lem ((p, c) ∷ xs) (suc n) l k h =
    let r = pop_lem l ((p, c) ∷ xs) p k (ground arith) in
    let rest = subst (IsList r.final) (first-of p c xs) r.is_list in
    let m = clear_lem xs n r.final rest (omega arith) in
    record {
      final = m.final;
      returns = clear-cons n p l r.final k.0 r.returns ∙ m.returns;
      empty = m.empty;
      items = λ a. elim (Bool-cases (p == a)) [
        | inl y ↦ ground (arith, m.items a, r.freed, y)
        | inr n ↦ elim (Bool-cases (has a xs)) [
          | inl i ↦ ground (arith, m.items a)
          | inr out ↦ ground (arith, m.items a, r.frame a)
        ]
      ];
    }
