-- ===== src/Json/Unread.antt =====
-- What the parts of a scan leave unread, and the fuel of the object loop.
use ijson.Prelude.{
  ℕ, zero, suc, ◌+◌, ◌-◌, ◌≤◌, ◌<◌, ◌≡◌, refl, sym, subst, Bool, true, false, ◌&&◌, [], ◌∷◌, Bytes,
  ◌==◌, if◌then◌else◌, length, Result, ok, err, ◌>>=◌, arith,
}
use ijson.Prelude.Int.{ℤ, pos, negsuc, ◌-ℤ◌, eqb_ℤ}
use ijson.Json.{
  expect, strip, string_loop, read_string, value_loop, read_value, object_loop, read_object,
  read_any, opens, closes, is_digit,
}

-- At most `n` bytes are unread after a success.
abbrev pub Leaves : ℕ → Result Bytes → Type 0
Leaves n (ok r) = length r ≤ n
Leaves n (err e) = Unit {0}

abbrev pub LeavesAfter : ℕ → Result (Bytes × Bytes) → Type 0
LeavesAfter n (ok (v, r)) = length r ≤ n
LeavesAfter n (err e) = Unit {0}

pub expect-Leaves : (c : ℕ) (u : Bytes) → Leaves (length u - 1) (expect c u)
unfolding expect
expect-Leaves c [] = tt
expect-Leaves c (a ∷ s) = ground arith

pub strip-Leaves : (u : Bytes) → Leaves (length u) (strip u)
unfolding strip
strip-Leaves [] = tt
strip-Leaves (a ∷ s) = ground (arith, strip-Leaves s)

string_loop-LeavesAfter : (prev : ℕ) (u : Bytes) → LeavesAfter (length u) (string_loop prev u)
unfolding string_loop
string_loop-LeavesAfter prev [] = tt
string_loop-LeavesAfter prev (a ∷ s) = ground (arith, string_loop-LeavesAfter a s)

read_string-LeavesAfter : (u : Bytes) → LeavesAfter (length u - 1) (read_string u)
unfolding read_string expect
read_string-LeavesAfter [] = tt
read_string-LeavesAfter (a ∷ s) = ground (arith, string_loop-LeavesAfter b'"' s)

abbrev ValueLeaves : ℕ → Result (Bool × Bytes × Bytes) → Type 0
ValueLeaves n (ok (b, v, r)) = length r ≤ n
ValueLeaves n (err e) = Unit {0}

value_loop-Leaves :
    (count : ℕ) (b : Bool) (u : Bytes) → ValueLeaves (length u) (value_loop count b u)
unfolding value_loop
value_loop-Leaves count b [] = tt
value_loop-Leaves count b (a ∷ s) =
    ground (arith, value_loop-Leaves (count + 1) (b && is_digit a) s)

read_value-LeavesAfter : (u : Bytes) → LeavesAfter (length u) (read_value u)
unfolding read_value
read_value-LeavesAfter u = ground (arith, value_loop-Leaves 0 true u)

object_loop-cons :
    (f : ℕ) (lvl : ℤ) (a : ℕ) (s : Bytes)
    → object_loop (suc f) lvl (a ∷ s) ≡ (
        if opens a
        then object_loop f (lvl -ℤ negsuc 0) s
        else if closes a
        then (if eqb_ℤ (lvl -ℤ pos 1) (pos 0) then ok s else object_loop f (lvl -ℤ pos 1) s)
        else if a == b'"'
        then (read_string (a ∷ s) >>= λ (v, r). object_loop f lvl r)
        else object_loop f lvl s)
unfolding object_loop
object_loop-cons f lvl a s = refl

Leaves-mono : {n k : ℕ} (x : Result Bytes) → Leaves n x → n ≤ k → Leaves k x
Leaves-mono (ok r) h l = omega arith
Leaves-mono (err e) h l = tt

Leaves-if :
    (n : ℕ) (b : Bool) (x y : Result Bytes)
    → Leaves n x
    → Leaves n y
    → Leaves n (if b then x else y)
Leaves-if n true x y h k = h
Leaves-if n false x y h k = k

then-Leaves :
    (n k : ℕ) (x : Result (Bytes × Bytes)) (f : Bytes → Result Bytes)
    → LeavesAfter n x
    → n ≤ k
    → ((r : Bytes) → Leaves (length r) (f r))
    → Leaves k (x >>= λ (v, r). f r)
then-Leaves n k (err e) f h l all = tt
then-Leaves n k (ok (v, r)) f h l all = Leaves-mono (f r) (all r) (omega arith)

pub rest-LeavesAfter : (a : ℕ) (s : Bytes) → LeavesAfter (length s) (read_string (a ∷ s))
rest-LeavesAfter a s = ground (arith, read_string-LeavesAfter (a ∷ s))

object_loop-Leaves : (f : ℕ) (lvl : ℤ) (u : Bytes) → Leaves (length u) (object_loop f lvl u)
object_loop-Leaves zero lvl u = unfold object_loop in tt
object_loop-Leaves (suc f) lvl [] = unfold object_loop in tt
object_loop-Leaves (suc f) lvl (a ∷ s) =
    let quoted =
      then-Leaves (length s) (suc (length s)) (read_string (a ∷ s)) (object_loop f lvl)
        (rest-LeavesAfter a s) (omega arith) (object_loop-Leaves f lvl) in
    let on = λ (l : ℤ).
      Leaves-mono {k = suc (length s)} (object_loop f l s) (object_loop-Leaves f l s)
        (omega arith) in
    rw (object_loop-cons f lvl a s) (
      Leaves-if (suc (length s)) (opens a) _ _ (on (lvl -ℤ negsuc 0)) (
        Leaves-if (suc (length s)) (closes a) _ _
          (Leaves-if (suc (length s)) (eqb_ℤ (lvl -ℤ pos 1) (pos 0)) (ok s) _ (omega arith)
            (on (lvl -ℤ pos 1)))
          (Leaves-if (suc (length s)) (a == b'"') _ _ quoted (on lvl))))

then-cong :
    (n : ℕ) (x : Result (Bytes × Bytes)) (f g : Bytes → Result Bytes)
    → LeavesAfter n x
    → ((r : Bytes) → length r ≤ n → f r ≡ g r)
    → (x >>= λ (v, r). f r) ≡ (x >>= λ (v, r). g r)
then-cong n (err e) f g h all = refl
then-cong n (ok (v, r)) f g h all = all r h

-- The loop of `read_object` has the same result with any two numbers of rounds above the number of
-- bytes unread, so that the fuel given is enough.
pub object_loop-fuel :
    (f g : ℕ) (lvl : ℤ) (u : Bytes)
    → length u < f
    → length u < g
    → object_loop f lvl u ≡ object_loop g lvl u
object_loop-fuel zero g lvl u h k = absurd (omega arith)
object_loop-fuel (suc f) zero lvl u h k = absurd (omega arith)
object_loop-fuel (suc f) (suc g) lvl [] h k = unfold object_loop in refl
object_loop-fuel (suc f) (suc g) lvl (a ∷ s) h k =
    let same = λ (l : ℤ). object_loop-fuel f g l s (omega arith) (omega arith) in
    let quoted =
      then-cong (length s) (read_string (a ∷ s)) (object_loop f lvl) (object_loop g lvl)
        (rest-LeavesAfter a s) (λ r l. object_loop-fuel f g lvl r (omega arith) (omega arith)) in
    rw (object_loop-cons f lvl a s, object_loop-cons g lvl a s)
      λ i.
        if opens a
        then same (lvl -ℤ negsuc 0) i
        else if closes a
        then (if eqb_ℤ (lvl -ℤ pos 1) (pos 0) then ok s else same (lvl -ℤ pos 1) i)
        else if a == b'"'
        then quoted i
        else same lvl i

read_object-LeavesAfter : (u : Bytes) → LeavesAfter (length u) (read_object u)
unfolding read_object
read_object-LeavesAfter u = ground (arith, object_loop-Leaves (length u + 1) (pos 0) u)

pub read_any-LeavesAfter : (u : Bytes) → LeavesAfter (length u) (read_any u)
read_any-LeavesAfter [] = unfold read_any in tt
read_any-LeavesAfter (a ∷ s) =
    subst (LeavesAfter (suc (length s))) (sym (read_any-cons a s)) (pick (a == b'"') (opens a))
  where
    read_any-cons :
        (a : ℕ) (s : Bytes)
        → read_any (a ∷ s) ≡ (
            if a == b'"'
            then read_string (a ∷ s)
            else if opens a
            then read_object (a ∷ s)
            else read_value (a ∷ s))
    read_any-cons a s = unfold read_any in refl

    weaken :
        (x : Result (Bytes × Bytes)) → LeavesAfter (length s) x → LeavesAfter (suc (length s)) x
    weaken (ok (v, r)) h = omega arith
    weaken (err e) h = tt

    pick :
        (b c : Bool)
        → LeavesAfter (suc (length s)) (
            if b
            then read_string (a ∷ s)
            else if c
            then read_object (a ∷ s)
            else read_value (a ∷ s))
    pick true c = weaken (read_string (a ∷ s)) (rest-LeavesAfter a s)
    pick false true = read_object-LeavesAfter (a ∷ s)
    pick false false = read_value-LeavesAfter (a ∷ s)
