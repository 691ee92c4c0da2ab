-- ===== src/NetFilter/Mask.antt =====
-- The mask of a filter with a prefix.
use native.Mathlib.Nat.{pow-succ', one-le-pow, pow-le-pow_right}
use ijson.Prelude.{ℕ, zero, suc, ◌≡◌, ap, sym, ◌∙◌, ◌≤◌, ◌+◌, ◌-◌, ◌*◌, ◌/◌, ◌%◌, ◌^◌, arith}
use ijson.Prelude.Int.{pos}
use ijson.NetFilter.{shifted, swapped, shifts, mask_of}

double : (x : ℕ) → 1 ≤ x → x ≤ 2 ^ 31 → (2 ^ 32 - x) * 2 % 2 ^ 32 ≡ 2 ^ 32 - 2 * x
double x h k = omega arith

shifted_lem : (n k : ℕ) → n + k ≤ 32 → shifted n (2 ^ 32 - 2 ^ k) ≡ 2 ^ 32 - 2 ^ (n + k)
unfolding shifted
shifted_lem zero k h = ap (λ e. 2 ^ 32 - 2 ^ e) (omega arith)
shifted_lem (suc n) k h =
    ap (shifted n) (
      double (2 ^ k) (one-le-pow k 2 (omega arith))
        (pow-le-pow_right (omega arith) {j = 31} (omega arith)))
    ∙ ap (λ x. shifted n (2 ^ 32 - x)) (sym (pow-succ' 2 k))
    ∙ shifted_lem n (suc k) (omega arith)
    ∙ ap (λ e. 2 ^ 32 - 2 ^ e) (omega arith)

shifts-pos : (bits : ℕ) → bits ≤ 32 → shifts (pos bits) ≡ 32 - bits
unfolding shifts
shifts-pos bits h = ground arith

-- The bytes of a 32-bit number that has changed its order.
swapped-first : (m : ℕ) → swapped m / 2 ^ 24 ≡ m % 2 ^ 8
unfolding swapped
swapped-first m = omega arith

swapped-second : (m : ℕ) → swapped m / 2 ^ 16 % 2 ^ 8 ≡ m / 2 ^ 8 % 2 ^ 8
unfolding swapped
swapped-second m = omega arith

swapped-third : (m : ℕ) → swapped m / 2 ^ 8 % 2 ^ 8 ≡ m / 2 ^ 16 % 2 ^ 8
unfolding swapped
swapped-third m = omega arith

swapped-fourth : (m : ℕ) → swapped m % 2 ^ 8 ≡ m / 2 ^ 24 % 2 ^ 8
unfolding swapped
swapped-fourth m = omega arith

-- The number that has the highest `bits` of 32 bits set.
abbrev pub ones : ℕ → ℕ
ones bits = 2 ^ 32 - 2 ^ (32 - bits)

mask_of-swapped : (bits : ℕ) → bits ≤ 32 → mask_of (pos bits) ≡ swapped (ones bits)
unfolding mask_of shifts
mask_of-swapped bits h = ap swapped (
    ap (λ n. shifted n (2 ^ 32 - 1)) (shifts-pos bits h)
    ∙ shifted_lem (32 - bits) 0 (omega arith)
    ∙ ap (λ e. 2 ^ 32 - 2 ^ e) (omega arith))

-- The mask of a prefix of at most 32 bits is a number of four bytes, which are, from the highest,
-- the lowest, the second, the third and the highest byte of the number that has the bits of the
-- prefix set, from the highest on.
pub mask_of-prefix :
    (bits : ℕ)
    → bits ≤ 32
    → (mask_of (pos bits) / 2 ^ 24 ≡ ones bits % 2 ^ 8)
      × (mask_of (pos bits) / 2 ^ 16 % 2 ^ 8 ≡ ones bits / 2 ^ 8 % 2 ^ 8)
      × (mask_of (pos bits) / 2 ^ 8 % 2 ^ 8 ≡ ones bits / 2 ^ 16 % 2 ^ 8)
      × (mask_of (pos bits) % 2 ^ 8 ≡ ones bits / 2 ^ 24 % 2 ^ 8)
mask_of-prefix bits h =
    let same = mask_of-swapped bits h in
    let m = ones bits in
    (
      ap (λ n. n / 2 ^ 24) same ∙ swapped-first m,
      ap (λ n. n / 2 ^ 16 % 2 ^ 8) same ∙ swapped-second m,
      ap (λ n. n / 2 ^ 8 % 2 ^ 8) same ∙ swapped-third m,
      ap (λ n. n % 2 ^ 8) same ∙ swapped-fourth m,
    )
