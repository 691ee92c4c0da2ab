-- ===== src/Buffer/Digits.antt =====
-- Numbers written by Buffer::add_number and add_hex are read back by ISlice::atoi and hextoi.
use native.Mathlib.Nat.{pow-suc}
use ijson.Prelude.{
  ℕ, zero, suc, ◌+◌, ◌-◌, ◌*◌, ◌/◌, ◌%◌, ◌^◌, ◌≤◌, ◌<◌, ◌≡◌, ◌≢◌, refl, ap, ◌∙◌, [], ◌∷◌, Bytes,
  ◌==◌, arith, inl, inr, sym, subst, ◌>>=◌, Bool-cases, ==_iff, Result, ok,
}
use ijson.Prelude.Int.{ℤ, pos, negsuc, pos_part, neg_part, neg}
use ijson.Slice.{atoi, atoi_loop, hextoi, hextoi_loop, hex_digit}
use ijson.Buffer.{digits, number, hex, hex_digits, hex_char}

atoi_loop-digit :
    (v d : ℕ) (s : Bytes) → d < 10 → atoi_loop v ((d + b'0') ∷ s) ≡ atoi_loop (v * 10 + d) s
unfolding atoi_loop
atoi_loop-digit v d s h = ground (arith, add_sub d)
  where
    add_sub : (d : ℕ) → d + 48 - 48 ≡ d
    add_sub d = omega arith

shorter : (n b k : ℕ) → n < b ^ suc k → 0 < b → n / b < b ^ k
shorter n b k h p = grind (arith, pow-suc b k)

atoi_loop-digits :
    (slots n : ℕ) (out : Bytes)
    → n < 10 ^ slots
    → atoi_loop 0 (digits slots n out) ≡ atoi_loop n out
unfolding digits
atoi_loop-digits zero n out h = rw (zero_of n (omega arith))
  where
    zero_of : (n : ℕ) → n < 1 → n ≡ 0
    zero_of n h = omega arith
atoi_loop-digits (suc slots) n out h = elim (Bool-cases (n == 0)) [
  | inl e ↦ rw (e, (==_iff n 0).0 e)
  | inr e ↦ rw e (
      atoi_loop-digits slots (n / 10) ((n % 10 + 48) ∷ out) (shorter n 10 slots h (omega arith))
      ∙ atoi_loop-digit (n / 10) (n % 10) out (omega arith)
      ∙ ap (λ k. atoi_loop k out) (omega arith))
]

abbrev StartsDigit : Bytes → Type 0
StartsDigit [] = ⊥
StartsDigit (c ∷ s) = b'0' ≤ c

digits-StartsDigit :
    (slots n : ℕ) (out : Bytes) → StartsDigit out → StartsDigit (digits slots n out)
unfolding digits
digits-StartsDigit zero n out h = h
digits-StartsDigit (suc slots) n out h = elim (Bool-cases (n == 0)) [
  | inl e ↦ rw e h
  | inr e ↦ rw e (digits-StartsDigit slots (n / 10) ((n % 10 + 48) ∷ out) (omega arith))
]

digits-round :
    (slots n : ℕ) (out : Bytes)
    → digits (suc slots) (suc n) out ≡ digits slots (suc n / 10) ((suc n % 10 + 48) ∷ out)
unfolding digits
digits-round slots n out = ground arith

digits-suc-StartsDigit : (n : ℕ) → StartsDigit (digits 20 (suc n) [])
digits-suc-StartsDigit n =
    subst StartsDigit (sym (digits-round 19 n []))
      (digits-StartsDigit 19 (suc n / 10) ((suc n % 10 + 48) ∷ []) (omega arith))

atoi_plain : (s : Bytes) → StartsDigit s → atoi s ≡ (do value ← atoi_loop 0 s; ok (pos value))
unfolding atoi
atoi_plain [] h = absurd h
atoi_plain (c ∷ s) h = ground arith

atoi_minus :
    (s : Bytes) → StartsDigit s → atoi (b'-' ∷ s) ≡ (do value ← atoi_loop 0 s; ok (neg (pos value)))
unfolding atoi
atoi_minus [] h = absurd h
atoi_minus (c ∷ s) h = ground arith

neg_suc : (n : ℕ) → ◌≡◌ {A = Result ℤ} (ok (neg (pos (suc n)))) (ok (negsuc n))
neg_suc n = ground arith

-- A number of absolute value below 2 ^ 63 that is written by `add_number` is read back by `atoi`.
pub atoi-number : (n : ℤ) → pos_part n + neg_part n < 2 ^ 63 → atoi (number n) ≡ ok n
unfolding number
atoi-number (pos zero) h = unfold atoi in refl
atoi-number (pos (suc n)) h =
    rw (atoi_plain _ (digits-suc-StartsDigit n), atoi_loop-digits 20 (suc n) [] (omega arith))
      (unfold atoi_loop in refl)
atoi-number (negsuc n) h =
    rw (atoi_minus _ (digits-suc-StartsDigit n), atoi_loop-digits 20 (suc n) [] (omega arith))
      (unfold atoi_loop in neg_suc n)

hextoi_loop-digit :
    (v d : ℕ) (s : Bytes) → d < 16 → hextoi_loop v (hex_char d ∷ s) ≡ hextoi_loop (v * 16 + d) s
unfolding hextoi_loop hex_char
hextoi_loop-digit v d s h = rw (hex_digit-hex_char d h)
  where
    hex_digit-hex_char : (d : ℕ) → d < 16 → hex_digit (hex_char d) ≡ ok d
    hex_digit-hex_char d h = ground arith

hextoi_loop-hex_digits :
    (slots n : ℕ) (out : Bytes)
    → n < 16 ^ slots
    → hextoi_loop 0 (hex_digits slots n out) ≡ hextoi_loop n out
unfolding hex_digits
hextoi_loop-hex_digits zero n out h = rw (zero_of n (omega arith))
  where
    zero_of : (n : ℕ) → n < 1 → n ≡ 0
    zero_of n h = omega arith
hextoi_loop-hex_digits (suc slots) n out h = elim (Bool-cases (n == 0)) [
  | inl e ↦ rw (e, (==_iff n 0).0 e)
  | inr e ↦ rw e (
      hextoi_loop-hex_digits slots (n / 16) (hex_char (n % 16) ∷ out)
        (shorter n 16 slots h (omega arith))
      ∙ hextoi_loop-digit (n / 16) (n % 16) out (omega arith)
      ∙ ap (λ k. hextoi_loop k out) (omega arith))
]

hextoi-loop : (s : Bytes) {v : ℕ} → hextoi_loop 0 s ≡ ok v → s ≢ [] → hextoi s ≡ ok v
unfolding hextoi
hextoi-loop [] e ne = absurd (ne refl)
hextoi-loop (a ∷ s) e ne = e

hex_digits-ne-nil : (slots n : ℕ) (out : Bytes) → out ≢ [] → hex_digits slots n out ≢ []
unfolding hex_digits
hex_digits-ne-nil zero n out h = h
hex_digits-ne-nil (suc slots) n out h =
    ground (arith, hex_digits-ne-nil slots (n / 16) (hex_char (n % 16) ∷ out))

hex_digits-round :
    (slots n : ℕ) (out : Bytes)
    → hex_digits (suc slots) (suc n) out
      ≡ hex_digits slots (suc n / 16) (hex_char (suc n % 16) ∷ out)
unfolding hex_digits
hex_digits-round slots n out = ground arith

-- A number below 2 ^ 63 that is written by `add_hex` is read back by `hextoi`.
pub hextoi-hex : (n : ℕ) → n < 2 ^ 63 → hextoi (hex n) ≡ ok n
unfolding hex
hextoi-hex zero h = unfold hextoi hextoi_loop hex_digit in refl
hextoi-hex (suc n) h =
    hextoi-loop _
      (hextoi_loop-hex_digits 16 (suc n) [] (omega arith) ∙ (unfold hextoi_loop in refl))
      (subst (λ s. s ≢ []) (sym (hex_digits-round 15 n []))
        (hex_digits-ne-nil 15 (suc n / 16) (hex_char (suc n % 16) ∷ []) (λ e. cc)))
