-- ===== src/Mapper/Del.antt =====
-- `Mapper::del` clears one value.
use mathlib.Core.List.{append_assoc, append-nil}
use ijson.Prelude.{
  ℕ, ◌-◌, ◌≡◌, ◌≢◌, refl, sym, ◌∙◌, ap, subst, inl, inr, true, false, [], ◌∷◌, ◌++◌, Bytes, ◌==◌,
  Bool-cases, arith,
}
use ijson.Slice.{equal}
use ijson.Slice.Compare.{equal_iff}
use ijson.Mapper.{Step, Block, Mapper, zero_step, is_wrong, write, del_loop, del}
use ijson.Mapper.View.{step_at, ends, stds, step_at-stop, step_at-child, Table}
use ijson.Mapper.Shape.{IsTrie, Reaches, node_at, stops, node_at-stop, node_at-child, node_at-snoc}
use ijson.Mapper.Write.{SetAt, written-IsTrie, written-ends, written-stds, kept-ends, kept-stds}
use ijson.Mapper.Loop.{
  Route, exact, prefix, wrong, prepend, route, route-star, route-wrong, route-next,
}
use ijson.Mapper.Add.{IsReady, current-ready}

-- A path goes on from the step that its beginning reaches.
step_at-append :
    (b : Block) (m n : ℕ) (q s : Bytes)
    → node_at b m q ≡ n
    → n ≢ 0
    → step_at b m (q ++ s) ≡ step_at b n s
step_at-append b m n [] s e ne = unfold node_at in ap (λ k. step_at b k s) e
step_at-append b m n (a ∷ q) s e ne = elim (Bool-cases (stops b m a)) [
  | inl h ↦ absurd (ne (sym e ∙ node_at-stop b m a q h))
  | inr h ↦
      step_at-child b m a (q ++ s) h
      ∙ step_at-append b ((b m).k (a - 32)) n q s (sym (node_at-child b m a q h) ∙ e) ne
]

-- What the loop leaves, for the part `q` of the name that is behind it.
abbrev pub Deleted : Block → ℕ → Bytes → Route → Block × ℕ → Type 0
Deleted b size q (exact s) (b', x) =
    (x ≡ ends b 1 (q ++ s))
    × IsTrie b' size
    × SetAt (ends b 1) (ends b' 1) (q ++ s) 0
    × ((p : Bytes) → stds b' 1 p ≡ stds b 1 p)
Deleted b size q (prefix s) (b', x) =
    (x ≡ stds b 1 (q ++ s))
    × IsTrie b' size
    × SetAt (stds b 1) (stds b' 1) (q ++ s) 0
    × ((p : Bytes) → ends b' 1 p ≡ ends b 1 p)
Deleted b size q wrong (b', x) = (x ≡ 0) × (b' ≡ b)

module _ {b : Block} {size : ℕ} (t : IsTrie b size) (q : Bytes) (n : ℕ)
    (r : Reaches b size q n) where
  here : step_at b 1 (q ++ []) ≡ b n
  here = step_at-append b 1 n q [] r.path r.positive ∙ (unfold step_at in refl)

  cleared_end : Deleted b size q (exact []) (write b n (record (b n) { end = 0 }), (b n).end)
  cleared_end =
      let s : Step = record (b n) { end = 0 } in
      (
        sym (ap (λ u. u.end) here),
        written-IsTrie t s refl r.within,
        subst (λ w. SetAt (ends b 1) (ends (write b n s) 1) w 0) (sym (append-nil q))
            (written-ends t s refl r),
        kept-stds t s refl r refl,
      )

  cleared_std : Deleted b size q (prefix []) (write b n (record (b n) { std = 0 }), (b n).std)
  cleared_std =
      let s : Step = record (b n) { std = 0 } in
      (
        sym (ap (λ u. u.std) here),
        written-IsTrie t s refl r.within,
        subst (λ w. SetAt (stds b 1) (stds (write b n s) 1) w 0) (sym (append-nil q))
            (written-stds t s refl r),
        kept-ends t s refl r refl,
      )

  module _ (a : ℕ) (h : stops b n a ≡ true) where
    nothing : (s : Bytes) → step_at b 1 (q ++ a ∷ s) ≡ zero_step
    nothing s = step_at-append b 1 n q (a ∷ s) r.path r.positive ∙ step_at-stop b n a s h

    absent : (t' : Table) (w : Bytes) → t' w ≡ 0 → SetAt t' t' w 0
    absent t' w e p = elim (Bool-cases (equal p w)) [
      | inl k ↦ rw k (ap t' ((equal_iff p w).0 k) ∙ e)
      | inr k ↦ rw k refl
    ]

    missing : (c : Route) → Deleted b size q (prepend a c) (b, 0)
    missing (exact s) = (
      sym (ap (λ u. u.end) (nothing s)),
      t,
      absent (ends b 1) (q ++ a ∷ s) (ap (λ u. u.end) (nothing s)),
      λ p. refl,
    )
    missing (prefix s) = (
      sym (ap (λ u. u.std) (nothing s)),
      t,
      absent (stds b 1) (q ++ a ∷ s) (ap (λ u. u.std) (nothing s)),
      λ p. refl,
    )
    missing wrong = (refl, refl)

Deleted-step :
    (b : Block) (size : ℕ) (q : Bytes) (a : ℕ) (c : Route) (x : Block × ℕ)
    → Deleted b size (q ++ a ∷ []) c x
    → Deleted b size q (prepend a c) x
Deleted-step b size q a (exact s) (b', x) d =
    subst
      (λ w.
        (x ≡ ends b 1 w)
        × IsTrie b' size
        × SetAt (ends b 1) (ends b' 1) w 0
        × ((p : Bytes) → stds b' 1 p ≡ stds b 1 p))
      (append_assoc q (a ∷ []) s) d
Deleted-step b size q a (prefix s) (b', x) d =
    subst
      (λ w.
        (x ≡ stds b 1 w)
        × IsTrie b' size
        × SetAt (stds b 1) (stds b' 1) w 0
        × ((p : Bytes) → ends b' 1 p ≡ ends b 1 p))
      (append_assoc q (a ∷ []) s) d
Deleted-step b size q a wrong (b', x) d = d

module _ (b : Block) (n a : ℕ) (s : Bytes) where
  del_loop-star :
      (a == b'*') ≡ true → del_loop b n (a ∷ s) ≡ (write b n (record (b n) { std = 0 }), (b n).std)
  unfolding del_loop
  del_loop-star e = rw e

  del_loop-wrong : (a == b'*') ≡ false → is_wrong a ≡ true → del_loop b n (a ∷ s) ≡ (b, 0)
  unfolding del_loop
  del_loop-wrong e w = rw (e, w)

  del_loop-stop : (a == b'*') ≡ false → stops b n a ≡ true → del_loop b n (a ∷ s) ≡ (b, 0)
  unfolding del_loop
  del_loop-stop e h = ground arith

  del_loop-next :
      (a == b'*') ≡ false
      → stops b n a ≡ false
      → del_loop b n (a ∷ s) ≡ del_loop b ((b n).k (a - 32)) s
  unfolding del_loop
  del_loop-next e h = ground arith

del_loop_lem :
    {b : Block} {size : ℕ} (q : Bytes) (n : ℕ) (s : Bytes)
    → IsTrie b size
    → Reaches b size q n
    → Deleted b size q (route s) (del_loop b n s)
del_loop_lem q n [] t r = unfold del_loop route in cleared_end t q n r
del_loop_lem {b} {size} q n (a ∷ s) t r = elim (Bool-cases (a == b'*')) [
  | inl e ↦ rw (del_loop-star b n a s e, route-star a s e) (cleared_std t q n r)
  | inr e ↦ elim (Bool-cases (is_wrong a)) [
    | inl w ↦ rw (del_loop-wrong b n a s e w, route-wrong a s e w) (refl, refl)
    | inr w ↦ rw (route-next a s e w) (elim (Bool-cases (stops b n a)) [
      | inl h ↦ rw (del_loop-stop b n a s e h) (missing t q n r a h (route s))
      | inr h ↦ rw (del_loop-next b n a s e h) (
          Deleted-step b size q a (route s) (del_loop b ((b n).k (a - 32)) s) (
            del_loop_lem (q ++ a ∷ []) ((b n).k (a - 32)) s t (record {
              path = node_at-snoc t 1 q n a r.path r.positive w;
              positive = ground arith;
              within = t.bounded n (a - 32);
            })))
    ])
  ]
]

-- What a deletion promises, with the value that it returns.
abbrev pub Removes : Mapper → Route → Mapper × ℕ → Type 0
Removes m (exact q) (m', x) =
    (x ≡ ends m.abuf 1 q)
    × IsReady m'
    × (m'.size ≡ m.size)
    × SetAt (ends m.abuf 1) (ends m'.abuf 1) q 0
    × ((p : Bytes) → stds m'.abuf 1 p ≡ stds m.abuf 1 p)
Removes m (prefix q) (m', x) =
    (x ≡ stds m.abuf 1 q)
    × IsReady m'
    × (m'.size ≡ m.size)
    × SetAt (stds m.abuf 1) (stds m'.abuf 1) q 0
    × ((p : Bytes) → ends m'.abuf 1 p ≡ ends m.abuf 1 p)
Removes m wrong (m', x) = (x ≡ 0) × (m' ≡ m)

module _ (m : Mapper) (r : IsReady m) where
  IsTrie-abuf : IsTrie m.abuf m.size
  IsTrie-abuf = subst (λ b. IsTrie b m.size) (current-ready m r.published) r.opened.trie

  with_abuf : (b : Block) → IsTrie b m.size → IsReady (record m { abuf = b })
  with_abuf b t = record {
    opened = record {
      trie =
          subst (λ c. IsTrie c m.size) (sym (current-ready (record m { abuf = b }) r.published)) t;
      rooted = r.opened.rooted;
      fits = r.opened.fits;
    };
    published = r.published;
    unlocked = r.unlocked;
  }

  removed :
      (c : Route) (x : Block × ℕ)
      → Deleted m.abuf m.size [] c x
      → Removes m c (record m { abuf = x.0 }, x.1)
  removed (exact s) (b, x) (e, t, at, other) = (e, with_abuf b t, refl, at, other)
  removed (prefix s) (b, x) (e, t, at, other) = (e, with_abuf b t, refl, at, other)
  removed wrong (b, x) (e, same) = (e, ap (λ c. record m { abuf = c }) same)

  -- A deletion in a ready trie returns the value of the name or of the pattern, clears it, leaves
  -- every other value, and leaves the trie ready with as many steps; for a name with a wrong
  -- character before any `*` it returns 0 and changes nothing.
  pub del_lem : (name : Bytes) → Removes m (route name) (del m name)
  unfolding del
  del_lem name = removed (route name) (del_loop m.abuf 1 name) (
      del_loop_lem [] 1 name IsTrie-abuf (record {
        path = unfold node_at in refl;
        positive = omega arith;
        within = r.opened.rooted;
      }))
