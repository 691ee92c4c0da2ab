-- ===== src/Mapper/Lookup.antt =====
-- `Mapper::find` is the lookup of the table that the trie holds.
use ijson.Prelude.{
  ℕ, ◌-◌, ◌≡◌, ◌∙◌, ap, sym, inl, inr, true, false, [], ◌∷◌, ◌||◌, Bytes, ◌==◌, Bool-cases, arith,
}
use ijson.Mapper.{Block, Mapper, is_wrong, find_loop, find}
use ijson.Mapper.View.{step_at, lookup, ends, stds, or_else, lookup-stop, lookup-child, longest}

find_loop-stop :
    (b : Block) (n std a : ℕ) (s : Bytes)
    → (is_wrong a || ((b n).k (a - 32) == 0)) ≡ true
    → find_loop b n std (a ∷ s) ≡ or_else (b n).std std
unfolding find_loop
find_loop-stop b n std a s h = ground arith

find_loop-child :
    (b : Block) (n std a : ℕ) (s : Bytes)
    → (is_wrong a || ((b n).k (a - 32) == 0)) ≡ false
    → find_loop b n std (a ∷ s) ≡ find_loop b ((b n).k (a - 32)) (or_else (b n).std std) s
unfolding find_loop
find_loop-child b n std a s h = ground arith

or_else_assoc : (x y z : ℕ) → or_else x (or_else y z) ≡ or_else (or_else x y) z
or_else_assoc x y z = ground arith

find_loop-lookup :
    (b : Block) (n std : ℕ) (s : Bytes)
    → find_loop b n std s ≡ or_else (lookup (ends b n) (stds b n) s) std
find_loop-lookup b n std [] = unfold find_loop lookup longest step_at in ground arith
find_loop-lookup b n std (a ∷ s) = elim (Bool-cases (is_wrong a || ((b n).k (a - 32) == 0))) [
  | inl h ↦ find_loop-stop b n std a s h ∙ ap (λ v. or_else v std) (sym (lookup-stop b n a s h))
  | inr h ↦
      find_loop-child b n std a s h
      ∙ find_loop-lookup b ((b n).k (a - 32)) (or_else (b n).std std) s
      ∙ or_else_assoc (lookup (ends b ((b n).k (a - 32))) (stds b ((b n).k (a - 32))) s) (b n).std
          std
      ∙ ap (λ v. or_else v std) (sym (lookup-child b n a s h))
]

-- `find` returns the value of the name itself, or else that of its longest prefix with a value, or
-- else 0, among the values that the published block holds.
pub find-lookup :
    (m : Mapper) (name : Bytes) → find m name ≡ lookup (ends m.abuf 1) (stds m.abuf 1) name
unfolding find
find-lookup m name =
    find_loop-lookup m.abuf 1 0 name ∙ or_else_zero (lookup (ends m.abuf 1) (stds m.abuf 1) name)
  where
    or_else_zero : (v : ℕ) → or_else v 0 ≡ v
    or_else_zero v = ground arith
