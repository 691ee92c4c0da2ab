-- ===== src/Service/Balance.antt =====
-- Which loop is active: the first with a light load, or else the one with the lightest.
use mathlib.Core.List.{append_assoc, append-nil}
use ijson.Prelude.{
  ℕ, ◌+◌, ◌<◌, ◌≤◌, ◌≡◌, ◌⊎◌, refl, sym, subst, ◌∙◌, ap, inl, inr, true, false, List, [], ◌∷◌, ◌++◌,
  ltb, Bool-cases, length, length-append, arith, ltb→lt,
}
use ijson.Service.{active_from, active_loop}

abbrev pub All : (ℕ → Type 0) → List ℕ → Type 0
All P [] = Unit {0}
All P (x ∷ xs) = P x × All P xs

-- The loop `r` is the first used at most at 80 percent; or all are used more, and it is the first of
-- the least used.
abbrev pub IsActive : List ℕ → ℕ → Type 0
IsActive cs r =
    (front : List ℕ) × (x : ℕ) × (back : List ℕ) × (cs ≡ front ++ x ∷ back)
    × (r ≡ length front)
    × ((x ≤ 80 × All (λ y. 80 < y) front)
        ⊎ (All (λ y. 80 < y) cs × All (λ y. x < y) front × All (λ y. x ≤ y) back))

All-append : (P : ℕ → Type 0) (xs ys : List ℕ) → All P xs → All P ys → All P (xs ++ ys)
All-append P [] ys h k = k
All-append P (x ∷ xs) ys h k = (h.0, All-append P xs ys h.1 k)

All-map : (P Q : ℕ → Type 0) (xs : List ℕ) → ((x : ℕ) → P x → Q x) → All P xs → All Q xs
All-map P Q [] f h = tt
All-map P Q (x ∷ xs) f h = (f x h.0, All-map P Q xs f h.1)

-- What the loop knows of the threads behind it.
record Seen (seen : List ℕ) (i min low : ℕ) : Type 0 where
  front : List ℕ
  back : List ℕ
  split : seen ≡ front ++ low ∷ back
  first : min ≡ length front
  before : All (λ y. low < y) front
  after : All (λ y. low ≤ y) back
  heavy : All (λ y. 80 < y) seen
  count : i ≡ length seen

count-snoc : (seen : List ℕ) (c i : ℕ) → i ≡ length seen → i + 1 ≡ length (seen ++ c ∷ [])
count-snoc seen c i e = omega (arith, e, length-append seen (c ∷ []))

lower-Seen :
    (seen : List ℕ) (i min low c : ℕ)
    → Seen seen i min low
    → c < low
    → 80 < c
    → Seen (seen ++ c ∷ []) (i + 1) i c
lower-Seen seen i min low c h l w = record {
  front = seen;
  back = [];
  split = refl;
  first = h.count;
  before = subst (All (λ y. c < y)) (sym h.split) (
      All-append (λ y. c < y) h.front (low ∷ h.back)
        (All-map (λ y. low < y) (λ y. c < y) h.front (λ x k. omega arith) h.before)
        (l, All-map (λ y. low ≤ y) (λ y. c < y) h.back (λ x k. omega arith) h.after));
  after = tt;
  heavy = All-append (λ y. 80 < y) seen (c ∷ []) h.heavy (w, tt);
  count = count-snoc seen c i h.count;
}

higher-Seen :
    (seen : List ℕ) (i min low c : ℕ)
    → Seen seen i min low
    → low ≤ c
    → 80 < c
    → Seen (seen ++ c ∷ []) (i + 1) min low
higher-Seen seen i min low c h l w = record {
  front = h.front;
  back = h.back ++ c ∷ [];
  split = ap (λ t. t ++ c ∷ []) h.split ∙ append_assoc h.front (low ∷ h.back) (c ∷ []);
  first = h.first;
  before = h.before;
  after = All-append (λ y. low ≤ y) h.back (c ∷ []) h.after (l, tt);
  heavy = All-append (λ y. 80 < y) seen (c ∷ []) h.heavy (w, tt);
  count = count-snoc seen c i h.count;
}

module _ (i min low c : ℕ) (cs : List ℕ) where
  from-light : ltb 80 c ≡ false → active_from i min low (c ∷ cs) ≡ i
  unfolding active_from
  from-light e = rw e refl

  from-lower :
      ltb 80 c ≡ true
      → ltb c low ≡ true
      → active_from i min low (c ∷ cs) ≡ active_from (i + 1) i c cs
  unfolding active_from
  from-lower e l = rw (e, l) refl

  from-higher :
      ltb 80 c ≡ true
      → ltb c low ≡ false
      → active_from i min low (c ∷ cs) ≡ active_from (i + 1) min low cs
  unfolding active_from
  from-higher e l = rw (e, l) refl

active_from_lem :
    (seen : List ℕ) (i min low : ℕ) (cs : List ℕ)
    → Seen seen i min low
    → IsActive (seen ++ cs) (active_from i min low cs)
active_from_lem seen i min low [] h =
    unfold active_from in
    subst (λ s. IsActive s min) (sym (append-nil seen))
      (h.front, low, h.back, h.split, h.first, inr (h.heavy, h.before, h.after))
active_from_lem seen i min low (c ∷ cs) h = elim (Bool-cases (ltb 80 c)) [
  | inr e ↦
      subst (IsActive (seen ++ c ∷ cs)) (sym (from-light i min low c cs e))
        (seen, c, cs, refl, h.count, inl (ground arith, h.heavy))
  | inl e ↦ elim (Bool-cases (ltb c low)) [
    | inl l ↦ subst (IsActive (seen ++ c ∷ cs)) (sym (from-lower i min low c cs e l)) (
        subst (λ s. IsActive s (active_from (i + 1) i c cs)) (append_assoc seen (c ∷ []) cs)
          (active_from_lem (seen ++ c ∷ []) (i + 1) i c cs
            (lower-Seen seen i min low c h (ltb→lt c low l) (ltb→lt 80 c e))))
    | inr l ↦ subst (IsActive (seen ++ c ∷ cs)) (sym (from-higher i min low c cs e l)) (
        subst (λ s. IsActive s (active_from (i + 1) min low cs)) (append_assoc seen (c ∷ []) cs)
          (active_from_lem (seen ++ c ∷ []) (i + 1) min low cs
            (higher-Seen seen i min low c h (ground arith) (ltb→lt 80 c e))))
  ]
]

-- The loop that is made active is the first whose thread uses at most 80 percent of its processor,
-- or, if all use more, the first of those that use the least.
pub active_loop_lem : (c : ℕ) (cs : List ℕ) → IsActive (c ∷ cs) (active_loop (c ∷ cs))
unfolding active_loop
active_loop_lem c cs = elim (Bool-cases (ltb 80 c)) [
  | inr e ↦
      subst (IsActive (c ∷ cs)) (sym (from-light 0 0 c c cs e))
        ([], c, cs, refl, refl, inl (ground arith, tt))
  | inl e ↦ subst (IsActive (c ∷ cs)) (sym (from-higher 0 0 c c cs e (ground arith))) (
      active_from_lem (c ∷ []) 1 0 c cs (record {
        front = [];
        back = [];
        split = refl;
        first = refl;
        before = tt;
        after = tt;
        heavy = (ltb→lt 80 c e, tt);
        count = refl;
      }))
]
