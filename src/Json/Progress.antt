-- ===== src/Json/Progress.antt =====
-- Every successful scan reads on, so that `while(json.scan())` ends, and the fuel of the object
-- loop is enough.
use ijson.Prelude.{
  ℕ, ◌-◌, ◌≤◌, ◌<◌, ◌≡◌, refl, Bool, true, false, [], ◌∷◌, Bytes, ◌==◌, if◌then◌else◌, length,
  Result, ok, err, invalid_data, ◌>>=◌, arith,
}
use ijson.Slice.{is_empty}
use ijson.Json.Unread.{strip-Leaves, expect-Leaves, rest-LeavesAfter, read_any-LeavesAfter}
use ijson.Json.{
  Json, next, expect, strip, read_string, read_any, read_field, scan_first, scan_next, scan,
}

-- A rule for a chain of steps, of which each says what it leaves.
abbrev pub Ensures {ℓ} : {A : Type ℓ} → (A → Type 0) → Result A → Type 0
Ensures P (ok a) = P a
Ensures P (err e) = Unit {0}

then-Ensures {ℓ κ} :
    {A : Type ℓ} {B : Type κ} (P : A → Type 0) (Q : B → Type 0) (x : Result A) (f : A → Result B)
    → Ensures P x
    → ((a : A) → P a → Ensures Q (f a))
    → Ensures Q (x >>= f)
then-Ensures P Q (ok a) f h k = k a h
then-Ensures P Q (err e) f h k = tt

-- A field leaves less than there was; the end of the object leaves any amount.
abbrev pub Scanned : ℕ → Bool × Json → Type 0
Scanned n (true, j) = length j.unread < n
Scanned n (false, j) = Unit {0}

abbrev AtMost : ℕ → Bytes → Type 0
AtMost n r = length r ≤ n

abbrev AtMostAfter : ℕ → Bytes × Bytes → Type 0
AtMostAfter n (v, r) = length r ≤ n

read_string-ne :
    (u : Bytes) → Ensures (λ (x : Bytes × Bytes). length x.1 < length u) (read_string u)
read_string-ne [] = unfold read_string in tt
read_string-ne (a ∷ s) = ground (arith, rest-LeavesAfter a s)

read_field-steps :
    (j : Json) (u : Bytes)
    → read_field j u ≡ (do
      u ← strip u
      (k, u) ← read_string u
      u ← strip u
      u ← expect b':' u
      u ← strip u
      (v, u) ← read_any u
      ok (true, record j { key = k; value = v; status = 1; unread = u }))
unfolding read_field
read_field-steps j u = refl

-- A field takes at least one byte.
read_field-Scanned : (j : Json) (u : Bytes) → Ensures (Scanned (length u)) (read_field j u)
read_field-Scanned j u =
    let Q = Scanned (length u) in
    rw (read_field-steps j u) (
      then-Ensures (AtMost (length u)) Q (strip u) _ (strip-Leaves u) λ u₁ h₁.
        then-Ensures (λ (x : Bytes × Bytes). length x.1 < length u₁) Q (read_string u₁) _
          (read_string-ne u₁)
          λ x h₂. then-Ensures (AtMost (length x.1)) Q (strip x.1) _ (strip-Leaves x.1) λ u₃ h₃.
            then-Ensures (AtMost (length u₃ - 1)) Q (expect b':' u₃) _ (expect-Leaves b':' u₃)
              λ u₄ h₄. then-Ensures (AtMost (length u₄)) Q (strip u₄) _ (strip-Leaves u₄) λ u₅ h₅.
                then-Ensures (λ (y : Bytes × Bytes). length y.1 ≤ length u₅) Q (read_any u₅) _
                  (read_any-Ensures u₅) λ y h₆. omega arith)
  where
    read_any-Ensures :
        (u : Bytes) → Ensures (λ (y : Bytes × Bytes). length y.1 ≤ length u) (read_any u)
    read_any-Ensures u = ground (arith, read_any-LeavesAfter u)

Scanned-mono :
    (n m : ℕ) (x : Result (Bool × Json)) → Ensures (Scanned n) x → n ≤ m → Ensures (Scanned m) x
Scanned-mono n m (ok (true, j)) h l = omega arith
Scanned-mono n m (ok (false, j)) h l = tt
Scanned-mono n m (err e) h l = tt

Scanned-if :
    (n : ℕ) (b : Bool) (x y : Result (Bool × Json))
    → Ensures (Scanned n) x
    → Ensures (Scanned n) y
    → Ensures (Scanned n) (if b then x else y)
Scanned-if n true x y h k = h
Scanned-if n false x y h k = k

next-Ensures : (u : Bytes) → Ensures (λ (x : ℕ × Bytes). length x.1 ≤ length u) (next u)
unfolding next
next-Ensures [] = tt
next-Ensures (a ∷ s) = omega arith

scan_first-Scanned : (j : Json) (u : Bytes) → Ensures (Scanned (length u)) (scan_first j u)
scan_first-Scanned j u =
    let Q = Scanned (length u) in
    rw (steps j u) (
      then-Ensures (AtMost (length u - 1)) Q (expect b'{' u) _ (expect-Leaves b'{' u) λ u₁ h₁.
        then-Ensures (AtMost (length u₁)) Q (strip u₁) _ (strip-Leaves u₁) λ u₂ h₂.
          then-Ensures (λ (x : ℕ × Bytes). length x.1 ≤ length u₂) Q (next u₂) _ (next-Ensures u₂)
            λ x h₃.
              Scanned-if (length u) (x.0 == b'}') _ _ tt
                (Scanned-mono (length u₂) (length u) _ (read_field-Scanned j u₂) (omega arith)))
  where
    steps :
        (j : Json) (u : Bytes)
        → scan_first j u ≡ (do
          u ← expect b'{' u
          u ← strip u
          (a, s) ← next u
          if a == b'}' then ok (false, record j { unread = s }) else read_field j u)
    steps j u = unfold scan_first in refl

scan_next-Scanned : (j : Json) (u : Bytes) → Ensures (Scanned (length u)) (scan_next j u)
scan_next-Scanned j u =
    let Q = Scanned (length u) in
    rw (steps j u) (
      then-Ensures (λ (x : ℕ × Bytes). length x.1 ≤ length u) Q (next u) _ (next-Ensures u)
        λ x h. Scanned-if (length u) (x.0 == b'}') _ _ tt (
          Scanned-if (length u) (x.0 == b',') _ _
            (Scanned-mono (length x.1) (length u) _ (read_field-Scanned j x.1) h) tt))
  where
    steps :
        (j : Json) (u : Bytes)
        → scan_next j u ≡ (do
          (a, s) ← next u
          if a == b'}'
              then ok (false, record j { unread = s })
              else if a == b','
              then read_field j s
              else err invalid_data)
    steps j u = unfold scan_next in refl

-- Whatever the input, a scan that finds a field leaves fewer bytes unread than there were.
pub scan-Scanned : (j : Json) → Ensures (Scanned (length j.unread)) (scan j)
scan-Scanned j =
    let Q = Scanned (length j.unread) in
    let on =
      λ (u : Bytes) (x : Result (Bool × Json)) (h : length u ≤ length j.unread)
          (k : Ensures (Scanned (length u)) x).
        Scanned-mono (length u) (length j.unread) x k h in
    rw (steps j) (
      Scanned-if (length j.unread) (is_empty j.source) _ _ tt (
        then-Ensures (AtMost (length j.unread)) Q (strip j.unread) _ (strip-Leaves j.unread) λ u h.
          Scanned-if (length j.unread) (j.status == 0) _ _ (on u _ h (scan_first-Scanned j u)) (
            Scanned-if (length j.unread) (j.status == 1) _ _ (on u _ h (scan_next-Scanned j u))
              (on u _ h (read_field-Scanned j u)))))
  where
    steps :
        (j : Json)
        → scan j ≡ (
            if is_empty j.source then ok (false, j) else do
              u ← strip j.unread
              if j.status == 0
                  then scan_first j u
                  else if j.status == 1
                  then scan_next j u
                  else read_field j u)
    steps j = unfold scan in refl
