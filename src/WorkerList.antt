-- ===== src/WorkerList.antt =====
-- src/workerlist.h and src/workerlist.cpp: the doubly linked list of the workers of a queue line. The
-- items are a function of their address; an access to an item that is not there is a fault. The
-- links of the connections that the items stand for are kept in Broker/Worker.antt.
pub mod Chain
pub mod Erase
pub mod Pop
pub mod Whole
use ijson.Prelude.{
  ℕ, zero, suc, Bool, true, false, ◌==◌, if◌then◌else◌, Option, none, some, List, [], ◌∷◌,
}

pub record Item : Type 0 where
  pub prev : Option ℕ
  pub next : Option ℕ
  pub conn : ℕ

abbrev pub item : Option ℕ → Option ℕ → ℕ → Item
item prev next conn = record { prev = prev; next = next; conn = conn }

abbrev pub Heap : Type 0
Heap = ℕ → Option Item

pub record WorkerList : Type 0 where
  pub items : Heap
  pub head : Option ℕ

abbrev pub worker_list : Heap → Option ℕ → WorkerList
worker_list items head = record { items = items; head = head }

infixl 5 ◌>>=◌
-- A fault ends the run.
abbrev pub ◌>>=◌ {ℓ κ} : {A : Type ℓ} {B : Type κ} → Option A → (A → Option B) → Option B
none >>= next = none
some a >>= next = next a

abbrev pub write : Heap → ℕ → Option Item → Heap
write h p v q = if q == p then v else h q

abbrev pub is_at : ℕ → Option ℕ → Bool
is_at p none = false
is_at p (some q) = q == p

-- `q->prev = v`, under the test of `q`.
unfoldable pub set_prev : Option ℕ → Option ℕ → Heap → Option Heap
set_prev none v h = some h
set_prev (some q) v h = elim (h q) [
  | none ↦ none
  | some i ↦ some (write h q (some (record i { prev = v })))
]

-- `q->next = v`, under the test of `q`.
unfoldable pub set_next : Option ℕ → Option ℕ → Heap → Option Heap
set_next none v h = some h
set_next (some q) v h = elim (h q) [
  | none ↦ none
  | some i ↦ some (write h q (some (record i { next = v })))
]

-- `WorkerList::push`, at the address that `new` returns.
unfoldable pub push : ℕ → ℕ → WorkerList → Option WorkerList
unfolding set_prev
push n conn l = elim l.head [
  | none ↦ some (worker_list (write l.items n (some (item none none conn))) (some n))
  | some h ↦ (do
    let made = write l.items n (some (item none (some h) conn))
    items ← set_prev (some h) (some n) made
    some (worker_list items (some n)))
]

-- `WorkerItem::pop`, the `delete` included.
unfoldable pub pop : ℕ → WorkerList → Option WorkerList
unfolding set_prev set_next
pop p l = elim (l.items p) [
  | none ↦ none
  | some this ↦
      if is_at p l.head
      then (do
        items ← set_prev this.next none l.items
        some (worker_list (write items p none) this.next))
      else (do
        items ← set_next this.prev this.next l.items
        items ← set_prev this.next this.prev items
        some (worker_list (write items p none) l.head))
]

-- `~WorkerList`; none if the fuel does not suffice.
unfoldable pub clear : ℕ → WorkerList → Option WorkerList
unfolding pop
clear zero l = none
clear (suc n) l = elim l.head [ none ↦ some l | some p ↦ (do l ← pop p l; clear n l) ]
