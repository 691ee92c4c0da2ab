-- ===== src/Broker/Receive/Rounds.antt =====
-- The loop of `on_recv` over the lines ends: the rounds that it is given are enough.
use ijson.Prelude.{
  ℕ, zero, suc, ◌≡◌, refl, ◌≤◌, ◌<◌, ap, not, Bool, true, false, [], ◌∷◌, Bytes, if◌then◌else◌,
  Option, none, some, length, length-append, subst, length-drop, Error, drop, take, ltb, ◌==◌,
  arith,
}
use ijson.Prelude.Int.{ℤ, pos, negsuc}
use ijson.Slice.{is_empty, pop_line, rstrip}
use ijson.Slice.Split.{LineSplit, pop_line_lem}
use ijson.Broker.{
  http_read_body, Server, Run, ok, thrown, fault, hang, M, pure, throw, ◌>>=◌, ◌>>◌, and_then, skip,
  update,
}
use ijson.Broker.Receive.{
  is_header, is_completed, is_net, set_step, take_body, end_headers, take_lines, round,
}

-- A value that is returned has `Q`.
abbrev Returns : {A : Type 0} → (A → Type 0) → Run A → Type 0
Returns Q (ok a t) = Q a
Returns Q (thrown e t) = Unit {0}
Returns Q fault = Unit {0}
Returns Q hang = Unit {0}

record Gives {A : Type 0} (Q : A → Type 0) (m : M A) : Type 0 where
  at : (s : Server) → Returns Q (m s)

module _ {A : Type 0} {Q : A → Type 0} where
  Gives-pure : (a : A) → Q a → Gives Q (pure a)
  unfolding pure
  Gives-pure a q = record { at = λ s. q }

  Gives-throw : (e : Error) → Gives Q (throw {A = A} e)
  unfolding throw
  Gives-throw e = record { at = λ s. tt }

  Gives-if : (b : Bool) (m n : M A) → Gives Q m → Gives Q n → Gives Q (if b then m else n)
  Gives-if true m n h k = h
  Gives-if false m n h k = k

module _ {A B : Type 0} {P : A → Type 0} {Q : B → Type 0} where
  Gives-bind :
      (m : M A) (f : A → M B) → Gives P m → ((a : A) → P a → Gives Q (f a)) → Gives Q (m >>= f)
  unfolding ◌>>=◌
  Gives-bind m f k h = record { at = λ s. after (m s) (k.at s) }
    where
      after : (r : Run A) → Returns P r → Returns Q (and_then r f)
      after (ok a t) p = (h a p).at t
      after (thrown e t) p = tt
      after fault p = tt
      after hang p = tt

module _ {A B : Type 0} {Q : B → Type 0} where
  Gives-next : (m : M A) (f : A → M B) → ((a : A) → Gives Q (f a)) → Gives Q (m >>= f)
  Gives-next m f h =
      Gives-bind {P = λ _. Unit {0}} m f (record { at = λ s. any (m s) }) (λ a _. h a)
    where
      any : (r : Run A) → Returns (λ _. Unit {0}) r
      any (ok a t) = tt
      any (thrown e t) = tt
      any fault = tt
      any hang = tt

  Gives-then : (m : M A) (n : M B) → Gives Q n → Gives Q (m >> n)
  unfolding ◌>>◌ ◌>>=◌
  Gives-then m n h = Gives-next m (λ _. n) (λ _. h)

-- Two continuations that agree on what is returned.
bind-cong :
    {A B : Type 0} (Q : A → Type 0) (m : M A) (f g : A → M B) (s : Server)
    → Gives Q m
    → ((a : A) (t : Server) → Q a → f a t ≡ g a t)
    → (m >>= f) s ≡ (m >>= g) s
unfolding ◌>>=◌
bind-cong {A = A} Q m f g s k h = same (m s) (k.at s)
  where
    same : (r : Run A) → Returns Q r → and_then r f ≡ and_then r g
    same (ok a t) q = h a t q
    same (thrown e t) q = refl
    same fault q = refl
    same hang q = refl

take_body-Gives : (c : ℕ) (input : Bytes) → Gives (λ r. length r ≤ length input) (take_body c input)
unfolding take_body
take_body-Gives c input = Gives-next _ _ (λ k. read k.content_length)
  where
    read :
        (z : ℤ)
        → Gives
            (λ r. length r ≤ length input)
            (elim z as (λ _. M Bytes) [
              | negsuc n ↦ (λ _. fault)
              | pos n ↦ if n == 0 then pure input else (do
                update c (λ k. record k { body = take n input })
                if ltb (length (take n input)) n then set_step c http_read_body else skip
                pure (drop n input))
            ])
    read (negsuc n) = record { at = λ s. tt }
    read (pos n) =
        Gives-if (n == 0) _ _ (Gives-pure input (ground arith))
          (Gives-then _ _ (Gives-then _ _ (Gives-pure _ (omega (arith, length-drop n input)))))

end_headers-Gives :
    (junk : ℤ) (version : Bytes) (c : ℕ) (input : Bytes)
    → Gives (λ r. length r.1 ≤ length input) (end_headers junk version c input)
unfolding end_headers
end_headers-Gives junk version c input = Gives-next _ _ (λ k.
    Gives-if (not (is_header k.http_step)) _ _ (Gives-throw _) (
      Gives-then _ _ (
        Gives-bind _ _ (take_body-Gives c input) (λ left h. Gives-then _ _ (
          Gives-next _ _ (λ k. Gives-if (not (is_completed k.http_step)) _ _ (Gives-pure _ h) (
            Gives-then _ _ (
              Gives-next _ _ (λ k. Gives-if (is_empty left) _ _ (Gives-pure _ h) (
                Gives-if (is_net k.status) _ _ (Gives-then _ _ (Gives-pure _ h))
                  (Gives-throw _)))))))))))

pop_line-shorter : (s line rest : Bytes) → pop_line s ≡ some (line, rest) → length rest < length s
unfolding pop_line
pop_line-shorter s line rest e =
    let (l, w, p, q) = subst (LineSplit s) e (pop_line_lem s) in
    omega (arith, ap length q, length-append line rest, ap length p, length-append l (b'\n' ∷ []))

if-cong :
    {A : Type 0} (b : Bool) (m n p : M A) (s : Server)
    → m s ≡ n s
    → (if b then m else p) s ≡ (if b then n else p) s
if-cong true m n p s e = e
if-cong false m n p s e = refl

if-both :
    {A : Type 0} (b : Bool) (m n p q : M A) (s : Server)
    → m s ≡ n s
    → p s ≡ q s
    → (if b then m else p) s ≡ (if b then n else q) s
if-both true m n p q s e h = e
if-both false m n p q s e h = h

Gives-any : {A : Type 0} (m : M A) → Gives (λ _. Unit {0}) m
Gives-any m = record { at = λ s. any (m s) }
  where
    any : {A : Type 0} (r : Run A) → Returns (λ _. Unit {0}) r
    any (ok a t) = tt
    any (thrown e t) = tt
    any fault = tt
    any hang = tt

round-cong :
    (f g : Bytes → M (Option Bytes)) (junk : ℤ) (version : Bytes) (c : ℕ) (input : Bytes)
    (o : Option (Bytes × Bytes)) (s : Server)
    → pop_line input ≡ o
    → ((rest : Bytes) (t : Server) → length rest < length input → f rest t ≡ g rest t)
    → round f junk version c input o s ≡ round g junk version c input o s
unfolding round
round-cong f g junk version c input none s e h = refl
round-cong f g junk version c input (some (line, rest)) s e h =
    if-both (is_empty (rstrip line)) _ _ _ _ s
      (bind-cong _ _ _ _ s (end_headers-Gives junk version c rest) (λ x t k.
        if-cong x.0 _ _ _ t (h x.1 t (omega (arith, pop_line-shorter input line rest e)))))
      (bind-cong (λ _. Unit {0}) _ _ _ s (Gives-any _)
        (λ going t k. if-cong going _ _ _ t (h rest t (pop_line-shorter input line rest e))))

-- The loop of `on_recv` over the lines comes to the same value and state with any two numbers of
-- rounds above the number of bytes, so that the rounds given are enough.
pub take_lines-fuel :
    (f g : ℕ) (junk : ℤ) (version : Bytes) (c : ℕ) (input : Bytes) (s : Server)
    → length input < f
    → length input < g
    → take_lines f junk version c input s ≡ take_lines g junk version c input s
unfolding take_lines
take_lines-fuel zero g junk version c input s h k = ground arith
take_lines-fuel (suc f) zero junk version c input s h k = ground arith
take_lines-fuel (suc f) (suc g) junk version c input s h k =
    round-cong _ _ junk version c input (pop_line input) s refl
      (λ rest t l. take_lines-fuel f g junk version c rest t (omega arith) (omega arith))
