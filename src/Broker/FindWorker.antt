-- ===== src/Broker/FindWorker.antt =====
-- The deques that the loop of `client_request` goes through, and the choice among their workers.
pub mod Search
use ijson.Prelude.{
  ℕ, zero, suc, ◌+◌, ◌≡◌, ◌≤◌, refl, sym, ap, ◌∙◌, subst, ◌⊎◌, inl, inr, Bool-cases, Bool, true,
  false, not, ◌&&◌, ◌||◌, List, [], ◌∷◌, ◌++◌, Bytes, if◌then◌else◌, Option, none, some, get_elem?,
  set, arith, ◌==◌,
}
use ijson.Broker.{busy, Connect, Queue, QueueLine, Server, ok, ◌>>=◌, ◌>>◌, pure}
use ijson.Broker.Queues.{
  find_worker, pick_worker, line, set_workers, update_line, store_queue, passes_over,
  is_waiting_job,
}
use ijson.Broker.Pick.{
  Picks, choice, Agree, times, Linked, Chosen, Unlinks, Picked, pick_worker_lem, is_ready,
  choice-Agree, kept_too, choice-ready,
}

-- The workers of the queues, in the order of the search.
abbrev pub joined : QueueLine → List ℕ → List ℕ
joined l [] = []
joined l (r ∷ rs) = (l.queue r).workers ++ joined l rs

abbrev pub has : ℕ → List ℕ → Bool
has r [] = false
has r (x ∷ xs) = x == r || has r xs

abbrev pub Distinct : List ℕ → Type 0
Distinct [] = Unit {0}
Distinct (x ∷ xs) = (has x xs ≡ false) × Distinct xs

-- The line `q` is there.
abbrev pub IsLine : Server → ℕ → QueueLine → Type 0
IsLine s q l = get_elem? s.queue_list q ≡ some (some l)

pub get_elem?-set :
    {A : Type 0} (xs : List A) (i : ℕ) (v w : A)
    → get_elem? xs i ≡ some w
    → get_elem? (set xs i v) i ≡ some v
get_elem?-set [] i v w e = cc
get_elem?-set (x ∷ xs) zero v w e = refl
get_elem?-set (x ∷ xs) (suc i) v w e = get_elem?-set xs i v w e

abbrev pub with_workers : ℕ → List ℕ → QueueLine → QueueLine
with_workers r ws l = record l {
  queue = store_queue l.queue r (record (l.queue r) { workers = ws });
}

pub joined-other :
    (l : QueueLine) (r : ℕ) (ws rs : List ℕ)
    → has r rs ≡ false
    → joined (with_workers r ws l) rs ≡ joined l rs
joined-other l r ws [] e = refl
joined-other l r ws (x ∷ rs) e =
    let ne : (x == r) ≡ false = ground (arith, e) in
    rw (ne, joined-other l r ws rs (ground (arith, e))) refl

-- The state after the deque `r` of the line is written.
abbrev pub written : ℕ → ℕ → List ℕ → QueueLine → Server → Server
written q r ws l s = record s { queue_list = set s.queue_list q (some (with_workers r ws l)) }

pub line-IsLine : (s : Server) (q : ℕ) (l : QueueLine) → IsLine s q l → line q s ≡ ok l s
unfolding line
line-IsLine s q l e = ground (arith, e)

pub set_workers-written :
    (s : Server) (q r : ℕ) (ws : List ℕ) (l : QueueLine)
    → IsLine s q l
    → set_workers q r ws s ≡ ok tt (written q r ws l s)
unfolding set_workers update_line
set_workers-written s q r ws l e = ground (arith, e)

pub choice-append_none :
    (f : ℕ → Connect) (required : Bytes) (xs ys : List ℕ)
    → (choice f required xs).1 ≡ none
    → (choice f required (xs ++ ys)).1 ≡ (choice f required ys).1
unfolding choice
choice-append_none f required [] ys e = refl
choice-append_none f required (w ∷ xs) ys e = ground (arith, e, choice-append_none f required xs ys)

pub choice-append_some :
    (f : ℕ → Connect) (required : Bytes) (xs ys : List ℕ) (w : ℕ)
    → (choice f required xs).1 ≡ some w
    → (choice f required (xs ++ ys)).1 ≡ some w
unfolding choice
choice-append_some f required [] ys w e = cc
choice-append_some f required (v ∷ xs) ys w e =
    ground (arith, e, choice-append_some f required xs ys w)

-- A worker that the request asks for, open, and waiting.
abbrev pub Suits : (ℕ → Connect) → Bytes → ℕ → Type 0
Suits f required w =
    (passes_over required (f w).connection_id ≡ false)
    × ((f w).closed ≡ false)
    × (is_waiting_job (f w).status ≡ true)

not_same :
    (f : ℕ → Connect) (required : Bytes) (x w : ℕ)
    → passes_over required (f x).connection_id ≡ true
    → Suits f required w
    → (x == w) ≡ false
not_same f required x w p h = elim (Bool-cases (x == w)) [
  | inl y ↦
      let same : x ≡ w = ground (arith, y) in
      let q = subst (λ z. passes_over required (f z).connection_id ≡ true) same p in
      ground (arith, q, h.0)
  | inr n ↦ n
]

not_ready :
    (f : ℕ → Connect) (x w : ℕ)
    → is_ready (f x) ≡ false
    → ((f w).closed ≡ false) × (is_waiting_job (f w).status ≡ true)
    → (x == w) ≡ false
not_ready f x w p h = elim (Bool-cases (x == w)) [
  | inl y ↦
      let same : x ≡ w = ground (arith, y) in
      let q = subst (λ z. is_ready (f z) ≡ false) same p in ground (arith, q, h.0, h.1)
  | inr n ↦ n
]

pub choice-finds :
    (f : ℕ → Connect) (required : Bytes) (ws : List ℕ) (w : ℕ)
    → has w ws ≡ true
    → Suits f required w
    → (v : ℕ) × ((choice f required ws).1 ≡ some v)
unfolding choice
choice-finds f required [] w i h = cc
choice-finds f required (x ∷ ws) w i h =
    elim (Bool-cases (passes_over required (f x).connection_id)) [
      | inl p ↦
          let other : (x == w) ≡ false = not_same f required x w p h in
          let (v, e) = choice-finds f required ws w (ground (arith, i, other)) h in (v, rw p e)
      | inr p ↦ elim (Bool-cases (is_ready (f x))) [
        | inl r ↦ (x, rw (p, r) refl)
        | inr r ↦
            let other : (x == w) ≡ false = not_ready f x w r (h.1, h.2) in
            let (v, e) = choice-finds f required ws w (ground (arith, i, other)) h in
            (v, rw (p, r) e)
      ]
    ]

times-append : (c : ℕ) (xs ys : List ℕ) → times c (xs ++ ys) ≡ times c xs + times c ys
times-append c [] ys = omega arith
times-append c (x ∷ xs) ys = omega (arith, times-append c xs ys)

pub Linked-left : (f : ℕ → Connect) (xs ys : List ℕ) → Linked f (xs ++ ys) → Linked f xs
Linked-left f xs ys h c = omega (arith, h c, times-append c xs ys)

-- What the search leaves of the deque it has gone through leaves the links of the others.
pub Linked-rest :
    (s t : Server) (xs kept ys : List ℕ)
    → Unlinks s xs kept t
    → Linked s.connects (xs ++ ys)
    → Linked t.connects ys
Linked-rest s t xs kept ys u h c = omega (arith, u c, h c, times-append c xs ys)
