-- ===== src/Mapper/Add.antt =====
-- `Mapper::add` on a trie that no other add holds.
use ijson.Prelude.{
  ℕ, ◌+◌, ◌-◌, ◌^◌, ◌≤◌, ◌<◌, ◌≡◌, refl, sym, ◌∙◌, subst, inl, inr, Bool, true, false, [], ◌∷◌,
  Bytes, ◌==◌, if◌then◌else◌, Bool-cases, arith, none, length,
}
use ijson.Mapper.{
  Block, Mapper, is_wrong, write, current, with_current, next_step, descend, add_loop, publish,
  Added, done, thrown, deadlock, add, init,
}
use ijson.Mapper.View.{ends, stds}
use ijson.Mapper.Shape.{IsTrie, node_at}
use ijson.Mapper.Write.{SetAt}
use ijson.Mapper.Descend.{IsOpen, with_current-size}
use ijson.Mapper.Loop.{
  Route, exact, prefix, wrong, route, Looped, add_loop-nil, add_loop-star, add_loop-wrong,
  add_loop-next, add_loop_lem,
}

-- A trie that is published and that no thread holds.
pub record IsReady (m : Mapper) : Type 0 where
  pub opened : IsOpen m
  pub published : m.buf_t ≡ none
  pub unlocked : m.locked ≡ false

-- What an add promises.
abbrev pub Adds : Mapper → ℕ → Route → Added → Type 0
Adds m v (exact q) (done m') =
    IsReady m'
    × SetAt (ends m.abuf 1) (ends m'.abuf 1) q v
    × ((p : Bytes) → stds m'.abuf 1 p ≡ stds m.abuf 1 p)
Adds m v (prefix q) (done m') =
    IsReady m'
    × SetAt (stds m.abuf 1) (stds m'.abuf 1) q v
    × ((p : Bytes) → ends m'.abuf 1 p ≡ ends m.abuf 1 p)
Adds m v wrong (thrown m') = (name : Bytes) (w : ℕ) → add m' name w ≡ deadlock
Adds m v _ _ = ⊥

pub current-ready : (m : Mapper) → m.buf_t ≡ none → current m ≡ m.abuf
unfolding current
current-ready m e = rw e

publish_lem :
    (m : Mapper)
    → (current (publish m) ≡ current m)
      × ((publish m).abuf ≡ current m)
      × ((publish m).buf_t ≡ none)
      × ((publish m).locked ≡ false)
      × ((publish m).size ≡ m.size)
      × ((publish m).cap ≡ m.cap)
unfolding publish current
publish_lem m = ground arith

descend-locked : (m : Mapper) (n i : ℕ) → (descend m n i).0.locked ≡ m.locked
unfolding descend next_step with_current
descend-locked m n i = ground arith

with_current-locked : (m : Mapper) (b : Block) → (with_current m b).locked ≡ m.locked
unfolding with_current
with_current-locked m b = ground arith

-- The loop itself neither takes nor leaves the mutex.
add_loop-locked : (m : Mapper) (n : ℕ) (s : Bytes) (v : ℕ) → (add_loop m n s v).0.locked ≡ m.locked
add_loop-locked m n [] v = rw (add_loop-nil m n v) (with_current-locked m _)
add_loop-locked m n (a ∷ s) v = elim (Bool-cases (a == b'*')) [
  | inl e ↦ rw (add_loop-star m n v a s e) (with_current-locked m _)
  | inr e ↦ elim (Bool-cases (is_wrong a)) [
    | inl w ↦ rw (add_loop-wrong m n v a s e w) refl
    | inr w ↦ rw (add_loop-next m n v a s e w) (
        add_loop-locked (descend m n (a - 32)).0 (descend m n (a - 32)).1 s v
        ∙ descend-locked m n (a - 32))
  ]
]

publish-IsReady : (m : Mapper) → IsOpen m → IsReady (publish m)
publish-IsReady m o =
    let (same, block, idle, free, size, cap) = publish_lem m in
    record {
      opened = record {
        trie =
            subst (IsTrie (current (publish m))) (sym size)
              (subst (λ b. IsTrie b m.size) (sym same) o.trie);
        rooted = omega (arith, size, o.rooted);
        fits = omega (arith, size, cap, o.fits);
      };
      published = idle;
      unlocked = free;
    }

Adds-Looped :
    (m m0 : Mapper) (c : Route) (v : ℕ) (x : Mapper × Bool)
    → current m0 ≡ m.abuf
    → x.0.locked ≡ true
    → Looped m0 [] c v x
    → Adds m v c (if x.1 then done (publish x.0) else thrown x.0)
unfolding publish
Adds-Looped m m0 (exact s) v (m', ok') same l (e, o, at, other) =
    rw (e, (publish_lem m').1, ← same) (publish-IsReady m' o, at, other)
Adds-Looped m m0 (prefix s) v (m', ok') same l (e, o, at, other) =
    rw (e, (publish_lem m').1, ← same) (publish-IsReady m' o, at, other)
Adds-Looped m m0 wrong v (m', ok') same l e = rw e (λ name w. unfold add in rw l)

locked_copy : (m : Mapper) → IsOpen m → IsOpen (record m { locked = true })
unfolding current
locked_copy m o = record { trie = o.trie; rooted = o.rooted; fits = o.fits }

descend-size : (m : Mapper) (n i : ℕ) → (descend m n i).0.size ≤ m.size + 1
unfolding descend next_step with_current
descend-size m n i = ground arith

add_loop-size :
    (m : Mapper) (n : ℕ) (s : Bytes) (v : ℕ) → (add_loop m n s v).0.size ≤ m.size + length s
add_loop-size m n [] v =
    rw (add_loop-nil m n v)
      (omega (arith, with_current-size m (write (current m) n (record (current m n) { end = v }))))
add_loop-size m n (a ∷ s) v = elim (Bool-cases (a == b'*')) [
  | inl e ↦
      rw (add_loop-star m n v a s e) (
        omega (arith, with_current-size m (write (current m) n (record (current m n) { std = v }))))
  | inr e ↦ elim (Bool-cases (is_wrong a)) [
    | inl w ↦ rw (add_loop-wrong m n v a s e w) (omega arith)
    | inr w ↦ rw (add_loop-next m n v a s e w) (
        omega (
          arith,
          add_loop-size (descend m n (a - 32)).0 (descend m n (a - 32)).1 s v,
          descend-size m n (a - 32),
        ))
  ]
]

-- An add takes at most one new step for each character.
pub add-size :
    (m m' : Mapper) (name : Bytes) (v : ℕ) → add m name v ≡ done m' → m'.size ≤ m.size + length name
unfolding add publish
add-size m m' name v e = ground (arith, add_loop-size (record m { locked = true }) 1 name v)

-- An add to a ready trie with room for the name sets the one value that the name asks for, leaves
-- every other value, and leaves the trie ready; for a name with a wrong character before any `*`
-- it throws with the mutex locked, so that every later add waits without end.
pub add_lem :
    (m : Mapper) (name : Bytes) (v : ℕ)
    → IsReady m
    → m.size + length name < 2 ^ 16
    → Adds m v (route name) (add m name v)
unfolding add
add_lem m name v r h =
    let m0 = record m { locked = true } in
    rw r.unlocked (
      Adds-Looped m m0 (route name) v (add_loop m0 1 name v) (current-ready m0 r.published)
        (add_loop-locked m0 1 name v)
        (add_loop_lem m0 [] 1 name v (locked_copy m r.opened)
          (record {
            path = unfold node_at in refl;
            positive = omega arith;
            within = r.opened.rooted;
          })
          h))

pub init-IsReady : IsReady init
unfolding init current
init-IsReady = record {
  opened = record {
    trie = record {
      label = λ _. [];
      root = refl;
      bounded = λ n i. omega arith;
      labelled = λ n i h. absurd (h refl);
      unused = λ n h. refl;
    };
    rooted = omega arith;
    fits = omega arith;
  };
  published = refl;
  unlocked = refl;
}
