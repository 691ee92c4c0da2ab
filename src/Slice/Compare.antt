-- ===== src/Slice/Compare.antt =====
-- Comparisons of slices, ISlice::compare, equal and starts_with of src/buffer.h.
use ijson.Prelude.{
  ℕ, ◌≡◌, refl, ◌∙◌, ◌↔◌, inl, inr, true, ◌&&◌, [], ◌∷◌, ◌++◌, Bytes, ◌==◌, arith, Bool-cases,
  if◌then◌else◌,
}
use ijson.Prelude.Int.{ℤ, pos, ◌-ℤ◌, eqb_ℤ, leb_ℤ}
use ijson.Slice.{starts_with, compare, equal, equal_text, as_char}

as_char_diff : (x y : ℕ) → eqb_ℤ (as_char x -ℤ as_char y) (pos 0) ≡ (x == y)
unfolding as_char ◌-ℤ◌
as_char_diff x y = ground arith

equal-cons : (x y : ℕ) (xs ys : Bytes) → equal (x ∷ xs) (y ∷ ys) ≡ ((x == y) && equal xs ys)
unfolding equal
equal-cons x y xs ys = elim (Bool-cases (x == y)) [
  | inl e ↦ rw (as_char_diff x y, e)
  | inr e ↦ rw (as_char_diff x y, e) (as_char_diff x y ∙ e)
]

-- Two slices are equal exactly when they view the same bytes.
pub equal_iff : (xs ys : Bytes) → (equal xs ys ≡ true) ↔ (xs ≡ ys)
equal_iff [] [] = unfold equal in (λ _. refl, λ _. refl)
equal_iff [] (y ∷ ys) = unfold equal in (λ h. cc, λ h. cc)
equal_iff (x ∷ xs) [] = unfold equal in (λ h. cc, λ h. cc)
equal_iff (x ∷ xs) (y ∷ ys) = rw (equal-cons x y xs ys) (ground (arith, equal_iff xs ys))

pub equal_refl : (xs : Bytes) → equal xs xs ≡ true
equal_refl xs = (equal_iff xs xs).1 refl

equal_text_iff : (s p : Bytes) → (equal_text s p ≡ true) ↔ (s ≡ p)
unfolding equal_text
equal_text_iff [] [] = (λ _. refl, λ _. refl)
equal_text_iff (a ∷ s) [] = (λ h. cc, λ h. cc)
equal_text_iff [] (c ∷ p) = (λ h. cc, λ h. cc)
equal_text_iff (a ∷ s) (c ∷ p) = ground (arith, equal_text_iff s p)

-- The two overloads of `equal` agree.
equal_text-equal : (s p : Bytes) → equal_text s p ≡ equal s p
equal_text-equal s p = ground (arith, equal_iff s p, equal_text_iff s p)

diff_swap : (i j : ℤ) → leb_ℤ (i -ℤ j) (pos 0) ≡ leb_ℤ (pos 0) (j -ℤ i)
unfolding ◌-ℤ◌
diff_swap i j = ground arith

diff_zero : (i j : ℤ) → eqb_ℤ (i -ℤ j) (pos 0) ≡ eqb_ℤ (j -ℤ i) (pos 0)
unfolding ◌-ℤ◌
diff_zero i j = ground arith

compare-cons :
    (x y : ℕ) (xs ys : Bytes)
    → compare (x ∷ xs) (y ∷ ys)
      ≡ (if eqb_ℤ (as_char x -ℤ as_char y) (pos 0) then compare xs ys else as_char x -ℤ as_char y)
unfolding compare
compare-cons x y xs ys = refl

-- `compare` of two slices is at most 0 exactly when `compare` of the swapped slices is at least 0.
compare-swap : (xs ys : Bytes) → leb_ℤ (compare xs ys) (pos 0) ≡ leb_ℤ (pos 0) (compare ys xs)
compare-swap [] [] = unfold compare in refl
compare-swap [] (y ∷ ys) = unfold compare in refl
compare-swap (x ∷ xs) [] = unfold compare in refl
compare-swap (x ∷ xs) (y ∷ ys) =
    rw (compare-cons x y xs ys, compare-cons y x ys xs, diff_zero (as_char y) (as_char x))
      (elim (Bool-cases (eqb_ℤ (as_char x -ℤ as_char y) (pos 0))) [
        | inl e ↦ rw e (compare-swap xs ys)
        | inr e ↦ rw e (diff_swap (as_char x) (as_char y))
      ])

-- A slice starts with a text exactly when it is that text and a rest.
starts_with_iff : (s p : Bytes) → (starts_with s p ≡ true) ↔ ((r : Bytes) × (s ≡ p ++ r))
unfolding starts_with
starts_with_iff s [] = (λ _. (s, refl), λ _. refl)
starts_with_iff [] (c ∷ p) = (λ h. cc, λ (r, h). cc)
starts_with_iff (a ∷ s) (c ∷ p) = (
  λ h. let (r, e) = (starts_with_iff s p).0 (ground arith) in (r, ground arith),
  λ (r, h). ground (arith, (starts_with_iff s p).1 (r, ground arith)),
)
