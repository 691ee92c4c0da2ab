-- ===== src/Locks/Scope.antt =====
-- What a lock of src/utils.cpp holds, and gives back.
use ijson.Prelude.{
  ℕ, zero, suc, ◌+◌, ◌≡◌, ◌≤◌, ◌<◌, refl, sym, subst, ap, ◌∙◌, inl, inr, Bool, true, false, not,
  ◌&&◌, ◌||◌, ltb, leb, ◌==◌, if◌then◌else◌, Option, some, Bool-cases, arith,
}
use ijson.Locks.{
  Mask, Lock, shift_one, meets, assign, lock, unlock_from, unlock, lock_from, autolock, is_except,
}

-- The loops below `k` but the one that is left out.
abbrev pub wanted : Option ℕ → ℕ → ℕ → Bool
wanted except k i = ltb i k && not (is_except except i)

-- After `k` rounds: the mutexes wanted are locked, the others as before, and of the loops so far the mask
-- has just the bits wanted; up to 31 rounds it has no other bit.
record Held (except : Option ℕ) (before : ℕ → Bool) (k : ℕ) (l : Lock) : Type 0 where
  locked : (i : ℕ) → l.locked i ≡ (wanted except k i || before i)
  mask : (i : ℕ) → i < k → l.mask i ≡ wanted except k i
  clear : k ≤ 31 → (i : ℕ) → k ≤ i → l.mask i ≡ false

meets-none : (n : ℕ) (v w : Mask) → ((i : ℕ) → i < n → (v i && w i) ≡ false) → meets n v w ≡ false
unfolding meets
meets-none zero v w h = refl
meets-none (suc n) v w h = rw (h n (omega arith)) (meets-none n v w λ i k. h i (omega arith))

or_true : (b : Bool) → (b || true) ≡ true
or_true true = refl
or_true false = refl

or_false : (b : Bool) → (b || false) ≡ b
or_false true = refl
or_false false = refl

-- The bits of a shift that is defined.
record Shifted (k : ℕ) (v : Mask) : Type 0 where
  at : v k ≡ true
  below : (i : ℕ) → i < k → v i ≡ false
  above : k < 31 → (i : ℕ) → k < i → v i ≡ false

shift_one-Shifted : (k : ℕ) → k < 32 → (v : Mask) × (shift_one k ≡ some v) × Shifted k v
unfolding shift_one
shift_one-Shifted k h = elim (Bool-cases (ltb k 31)) [
  | inl y ↦ (
    λ i. i == k,
    rw y refl,
    record { at = ground arith; below = λ i l. ground arith; above = λ s i l. ground arith },
  )
  | inr n ↦
      let same : (k == 31) ≡ true = ground (arith, n) in
      (
        λ i. leb 31 i && ltb i 64,
        rw (n, same) refl,
        record {
          at = ground (arith, same);
          below = λ i l. ground (arith, same);
          above = λ s i l. ground (arith, n);
        },
      )
]

lock-free :
    (k : ℕ) (l : Lock) (v : Mask)
    → shift_one k ≡ some v
    → meets 64 v l.mask ≡ false
    → l.locked k ≡ false
    → lock k l ≡ some (record { mask = λ i. l.mask i || v i; locked = assign l.locked k true })
unfolding lock
lock-free k l v e f g = ground (arith, e, f, g)

wanted-other :
    (except : Option ℕ) (k i : ℕ) → (i == k) ≡ false → wanted except (suc k) i ≡ wanted except k i
wanted-other except k i e = ap (λ b. b && not (is_except except i)) (ground (arith, e))

at_same : (except : Option ℕ) (k i : ℕ) → (i == k) ≡ true → is_except except i ≡ is_except except k
at_same except k i y = let same : i ≡ k = ground (arith, y) in ap (is_except except) same

wanted-skip :
    (except : Option ℕ) (k i : ℕ)
    → is_except except k ≡ true
    → wanted except (suc k) i ≡ wanted except k i
wanted-skip except k i e = elim (Bool-cases (i == k)) [
  | inl y ↦ let skipped = at_same except k i y ∙ e in rw skipped (ground arith)
  | inr n ↦ wanted-other except k i n
]

wanted-new :
    (except : Option ℕ) (k i : ℕ)
    → is_except except k ≡ false
    → (i == k) ≡ true
    → wanted except (suc k) i ≡ true
wanted-new except k i e y = let taken = at_same except k i y ∙ e in rw taken (ground (arith, y))

module _ (except : Option ℕ) (before : ℕ → Bool) (k : ℕ) (l : Lock)
    (h : Held except before k l) where
  skip-Held : k < 32 → is_except except k ≡ true → Held except before (suc k) l
  skip-Held small e = record {
    locked = λ i. h.locked i ∙ ap (λ b. b || before i) (sym (wanted-skip except k i e));
    mask = λ i s. elim (Bool-cases (i == k)) [
      | inl y ↦
          h.clear (omega arith) i (ground (arith, y))
          ∙ sym (wanted-skip except k i e ∙ ground (arith, y))
      | inr n ↦ h.mask i (ground (arith, n)) ∙ sym (wanted-skip except k i e)
    ];
    clear = λ s i m. h.clear (omega arith) i (omega arith);
  }

  lock-Held :
      k < 32
      → is_except except k ≡ false
      → before k ≡ false
      → (m : Lock) × (lock k l ≡ some m) × Held except before (suc k) m
  lock-Held small e free =
      let (v, shift, is) = shift_one-Shifted k small in
      let apart : (i : ℕ) → i < 64 → (v i && l.mask i) ≡ false = λ i s.
        elim (Bool-cases (ltb i k)) [
          | inl y ↦ let no = is.below i (ground (arith, y)) in ground (arith, no)
          | inr n ↦ let no = h.clear (omega arith) i (ground (arith, n)) in ground (arith, no)
        ] in
      let open_now : l.locked k ≡ false = ground (arith, h.locked k, free) in
      (
        record { mask = λ i. l.mask i || v i; locked = assign l.locked k true },
        lock-free k l v shift (meets-none 64 v l.mask apart) open_now,
        record {
          locked = λ i. elim (Bool-cases (i == k)) [
            | inl y ↦ let new = wanted-new except k i e y in rw (y, new) refl
            | inr n ↦ let old = wanted-other except k i n in rw (n, old) (h.locked i)
          ];
          mask = λ i s. elim (Bool-cases (i == k)) [
            | inl y ↦
                let new = wanted-new except k i e y in
                let bit : v i ≡ true =
                  (let same : i ≡ k = ground (arith, y) in ap v same) ∙ is.at in
                rw (new, bit) (or_true (l.mask i))
            | inr n ↦
                let lower : i < k = ground (arith, n, s) in
                let no = is.below i lower in
                let old = wanted-other except k i n in
                rw (old, no) (or_false (l.mask i) ∙ h.mask i lower)
          ];
          clear = λ s i m. ground (
            arith,
            h.clear (omega arith) i (omega arith),
            is.above (omega arith) i (omega arith),
          );
        },
      )

next : (k n : ℕ) → suc k + n ≡ k + suc n
next k n = omega arith

lock_from-Held :
    (except : Option ℕ) (before : ℕ → Bool)
    → ((i : ℕ) → before i ≡ false)
    → (n k : ℕ) (l : Lock) → k + n ≤ 32
    → Held except before k l
    → (m : Lock) × (lock_from except k n l ≡ some m) × Held except before (k + n) m
unfolding lock_from
lock_from-Held except before free zero k l small h =
    let all : k ≡ k + 0 = omega arith in (l, refl, subst (λ z. Held except before z l) all h)
lock_from-Held except before free (suc n) k l small h = elim (Bool-cases (is_except except k)) [
  | inl e ↦
      let (m, r, g) =
        lock_from-Held except before free n (suc k) l (omega arith)
          (skip-Held except before k l h (omega arith) e) in
      (m, rw e r, subst (λ z. Held except before z m) (next k n) g)
  | inr e ↦
      let (o, q, f) = lock-Held except before k l h (omega arith) e (free k) in
      let (m, r, g) = lock_from-Held except before free n (suc k) o (omega arith) f in
      (m, rw (e, q) r, subst (λ z. Held except before z m) (next k n) g)
]

unlock_from-locked :
    (i n : ℕ) (l : Lock) (j : ℕ)
    → (unlock_from i n l).locked j
      ≡ (if (leb i j && ltb j (i + n)) && (ltb j 64 && l.mask j) then false else l.locked j)
unfolding unlock_from
unlock_from-locked i zero l j = ground arith
unlock_from-locked i (suc n) l j =
    let held = ltb i 64 && l.mask i in
    unlock_from-locked (suc i) n _ j ∙ elim (Bool-cases (j == i)) [
      | inl y ↦
          let same : j ≡ i = ground (arith, y) in
          let bit = ap l.mask same in
          elim (Bool-cases held) [
            | inl z ↦ rw z (ground (arith, y, bit, z))
            | inr z ↦ rw z (ground (arith, y, bit, z))
          ]
      | inr n ↦ elim (Bool-cases held) [
        | inl z ↦ rw z (ground (arith, n))
        | inr z ↦ rw z (ground (arith, n))
      ]
    ]

given_back :
    (threads : ℕ) (l : Lock) (i : ℕ) (b : Bool)
    → threads ≤ 32
    → l.locked i ≡ b
    → (b ≡ true → i < threads)
    → (i < threads → l.mask i ≡ b)
    → (unlock_from 0 threads l).locked i ≡ false
given_back threads l i true small e low bit =
    let inside = low refl in unlock_from-locked 0 threads l i ∙ ground (arith, inside, bit inside)
given_back threads l i false small e low bit = unlock_from-locked 0 threads l i ∙ ground (arith, e)

-- For at most 32 loops, with no mutex locked, `autolock` ends neither in an undefined shift nor in
-- a wait; it has the mutexes of all the loops but the one that is left out, and the destructor of
-- the lock gives all of them back.
pub autolock_lem :
    (threads : ℕ) (except : Option ℕ) (before : ℕ → Bool)
    → threads ≤ 32
    → ((i : ℕ) → before i ≡ false)
    → (l : Lock) × (autolock threads except before ≡ some l)
      × ((i : ℕ) → l.locked i ≡ wanted except threads i)
      × ((i : ℕ) → (unlock threads l).locked i ≡ false)
unfolding autolock unlock
autolock_lem threads except before small free =
    let none_yet : Lock = record { mask = λ i. false; locked = before } in
    let (l, r, h) = lock_from-Held except before free threads 0 none_yet (omega arith) (record {
      locked = λ i. ground (arith, free i);
      mask = λ i s. ground (arith, s);
      clear = λ s i m. refl;
    }) in
    let all : 0 + threads ≡ threads = omega arith in
    let k = subst (λ z. Held except before z l) all h in
    (
      l,
      r,
      λ i. ground (arith, k.locked i, free i),
      λ i.
          given_back threads l i (wanted except threads i) small
            (ground (arith, k.locked i, free i)) (λ w. ground (arith, w)) (k.mask i),
    )
