-- ===== src/Mapper/View.antt =====
-- What a block of the trie holds: the values at a path from the root, and the lookup that an
-- abstract table of exact names and of prefixes promises.
use mathlib.Core.Path.{fun_ext}
use ijson.Prelude.{
  refl, ◌||◌, ◌∙◌, ap, arith, ℕ, ◌-◌, ◌≡◌, true, false, [], ◌∷◌, Bytes, ◌==◌, if◌then◌else◌,
}
use ijson.Mapper.{Step, Block, zero_step, is_wrong}

-- The step at the end of a path; past the end of the trie it is the zero step.
unfoldable pub step_at : Block → ℕ → Bytes → Step
step_at b n [] = b n
step_at b n (a ∷ s) =
    let next = (b n).k (a - 32) in
    let rest = step_at b next s in
    if is_wrong a then zero_step else if next == 0 then zero_step else rest

abbrev pub Table : Type 0
Table = Bytes → ℕ

-- The value of the longest prefix of a name that has one.
unfoldable pub longest : Table → Bytes → ℕ
longest t [] = t []
longest t (a ∷ s) = let deeper = longest (λ p. t (a ∷ p)) s in if deeper == 0 then t [] else deeper

-- An exact name wins over every pattern, and a longer pattern over a shorter one.
unfoldable pub lookup : Table → Table → Bytes → ℕ
unfolding longest
lookup exact prefix name = if exact name == 0 then longest prefix name else exact name

abbrev pub ends : Block → ℕ → Table
ends b n p = (step_at b n p).end

abbrev pub stds : Block → ℕ → Table
stds b n p = (step_at b n p).std

-- One character on: past the end of the trie, or at the child.
pub step_at-stop :
    (b : Block) (n a : ℕ) (p : Bytes)
    → (is_wrong a || ((b n).k (a - 32) == 0)) ≡ true
    → step_at b n (a ∷ p) ≡ zero_step
unfolding step_at
step_at-stop b n a p h = ground arith

pub step_at-child :
    (b : Block) (n a : ℕ) (p : Bytes)
    → (is_wrong a || ((b n).k (a - 32) == 0)) ≡ false
    → step_at b n (a ∷ p) ≡ step_at b ((b n).k (a - 32)) p
unfolding step_at
step_at-child b n a p h = ground arith

abbrev pub or_else : ℕ → ℕ → ℕ
or_else a d = if a == 0 then d else a

pub lookup-cons :
    (e t : Table) (a : ℕ) (s : Bytes)
    → lookup e t (a ∷ s) ≡ or_else (lookup (λ p. e (a ∷ p)) (λ p. t (a ∷ p)) s) (t [])
unfolding lookup longest
lookup-cons e t a s = ground arith

pub lookup-cong :
    (e e' t t' : Table) (s : Bytes)
    → ((p : Bytes) → e p ≡ e' p)
    → ((p : Bytes) → t p ≡ t' p)
    → lookup e t s ≡ lookup e' t' s
lookup-cong e e' t t' s p q = rw (fun_ext p, fun_ext q)

longest-zero : (s : Bytes) → longest (λ _. 0) s ≡ 0
unfolding longest
longest-zero [] = refl
longest-zero (a ∷ s) = rw (longest-zero s)

pub lookup-zero : (s : Bytes) → lookup (λ _. 0) (λ _. 0) s ≡ 0
unfolding lookup
lookup-zero s = longest-zero s

module _ (b : Block) (n a : ℕ) (s : Bytes) where
  pub lookup-stop :
      (is_wrong a || ((b n).k (a - 32) == 0)) ≡ true
      → lookup (ends b n) (stds b n) (a ∷ s) ≡ (b n).std
  unfolding step_at
  lookup-stop h =
      lookup-cons (ends b n) (stds b n) a s
      ∙ ap (λ v. or_else v (b n).std)
          (lookup-cong (λ p. ends b n (a ∷ p)) (λ _. 0) (λ p. stds b n (a ∷ p)) (λ _. 0) s
              (λ p. ap (λ t. t.end) (step_at-stop b n a p h))
              (λ p. ap (λ t. t.std) (step_at-stop b n a p h))
            ∙ lookup-zero s)

  pub lookup-child :
      (is_wrong a || ((b n).k (a - 32) == 0)) ≡ false
      → lookup (ends b n) (stds b n) (a ∷ s)
        ≡ or_else (lookup (ends b ((b n).k (a - 32))) (stds b ((b n).k (a - 32))) s) (b n).std
  unfolding step_at
  lookup-child h =
      lookup-cons (ends b n) (stds b n) a s
      ∙ ap (λ v. or_else v (b n).std)
          (lookup-cong (λ p. ends b n (a ∷ p)) (ends b ((b n).k (a - 32))) (λ p. stds b n (a ∷ p))
            (stds b ((b n).k (a - 32))) s (λ p. ap (λ t. t.end) (step_at-child b n a p h))
            (λ p. ap (λ t. t.std) (step_at-child b n a p h)))
