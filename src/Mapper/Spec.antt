-- ===== src/Mapper/Spec.antt =====
-- The trie refines two tables, of exact names and of prefixes.
use ijson.Prelude.{
  ℕ, ◌+◌, ◌^◌, ◌<◌, ◌≡◌, refl, ◌≢◌, subst, sym, ◌∙◌, ap, Bytes, List, [], ◌∷◌, if◌then◌else◌,
  length, arith, Option, none, some,
}
use ijson.Slice.{equal}
use ijson.Mapper.Link.{zero-values}
use ijson.Mapper.{zero_block, Mapper, Added, done, thrown, deadlock, init, add, del, find}
use ijson.Mapper.View.{Table, lookup, ends, stds, lookup-cong}
use ijson.Mapper.Lookup.{find-lookup}
use ijson.Mapper.Loop.{Route, exact, prefix, wrong, route}
use ijson.Mapper.Add.{IsReady, Adds, add_lem, add-size, init-IsReady}
use ijson.Mapper.Del.{Removes, del_lem}

pub record Tables : Type 0 where
  pub exact : Table
  pub prefix : Table

abbrev pub put : Table → Bytes → ℕ → Table
put t q v p = if equal p q then v else t p

abbrev pub assign : Tables → Route → ℕ → Tables
assign t (Route.exact q) v = record t { exact = put t.exact q v }
assign t (Route.prefix q) v = record t { prefix = put t.prefix q v }
assign t wrong v = t

abbrev pub no_tables : Tables
no_tables = record { exact = λ _. 0; prefix = λ _. 0 }

-- A ready trie that holds the tables.
pub record Holds (m : Mapper) (t : Tables) : Type 0 where
  pub ready : IsReady m
  pub names : (p : Bytes) → ends m.abuf 1 p ≡ t.exact p
  pub patterns : (p : Bytes) → stds m.abuf 1 p ≡ t.prefix p

-- A lookup in the trie is the lookup in the tables that it holds.
pub find-Holds :
    (m : Mapper) (t : Tables) (name : Bytes)
    → Holds m t
    → find m name ≡ lookup t.exact t.prefix name
find-Holds m t name h =
    find-lookup m name
    ∙ lookup-cong (ends m.abuf 1) t.exact (stds m.abuf 1) t.prefix name h.names h.patterns

put-Holds :
    (t t' u : Table) (q : Bytes) (v : ℕ) (p : Bytes)
    → u p ≡ (if equal p q then v else t p)
    → t p ≡ t' p
    → u p ≡ put t' q v p
put-Holds t t' u q v p e f = ground arith

pub data Op : Type 0 where
  adds : Bytes → ℕ → Op
  dels : Bytes → Op

added : Added → Option Mapper
added (done m) = some m
added (thrown m) = none
added deadlock = none

-- A history of adds and deletions; `none` after an exception.
pub run : Mapper → List Op → Option Mapper
unfolding added
run m [] = some m
run m (adds name v ∷ ops) = elim (added (add m name v)) [ none ↦ none | some m' ↦ run m' ops ]
run m (dels name ∷ ops) = run (del m name).0 ops

pub run_tables : Tables → List Op → Tables
run_tables t [] = t
run_tables t (adds name v ∷ ops) = run_tables (assign t (route name) v) ops
run_tables t (dels name ∷ ops) = run_tables (assign t (route name) 0) ops

abbrev pub WellFormed : List Op → Type 0
WellFormed [] = Unit {0}
WellFormed (adds name v ∷ ops) = (route name ≢ wrong) × WellFormed ops
WellFormed (dels name ∷ ops) = WellFormed ops

abbrev pub total_length : List Op → ℕ
total_length [] = 0
total_length (adds name v ∷ ops) = length name + total_length ops
total_length (dels name ∷ ops) = total_length ops

assigned :
    (m : Mapper) (t : Tables) (c : Route) (v : ℕ) (r : Added)
    → Holds m t
    → c ≢ wrong
    → Adds m v c r
    → (m' : Mapper) × (r ≡ done m') × Holds m' (assign t c v)
assigned m t (exact q) v (done m') h ne (ready, at, other) = (
  m',
  refl,
  record {
    ready = ready;
    names = λ p. put-Holds (ends m.abuf 1) t.exact (ends m'.abuf 1) q v p (at p) (h.names p);
    patterns = λ p. other p ∙ h.patterns p;
  },
)
assigned m t (prefix q) v (done m') h ne (ready, at, other) = (
  m',
  refl,
  record {
    ready = ready;
    names = λ p. other p ∙ h.names p;
    patterns = λ p. put-Holds (stds m.abuf 1) t.prefix (stds m'.abuf 1) q v p (at p) (h.patterns p);
  },
)
assigned m t wrong v r h ne a = absurd (ne refl)
assigned m t (exact q) v (thrown m') h ne a = absurd a
assigned m t (exact q) v deadlock h ne a = absurd a
assigned m t (prefix q) v (thrown m') h ne a = absurd a
assigned m t (prefix q) v deadlock h ne a = absurd a

removed-Holds :
    (m : Mapper) (t : Tables) (c : Route) (x : Mapper × ℕ)
    → Holds m t
    → Removes m c x
    → Holds x.0 (assign t c 0) × (x.0.size ≡ m.size)
removed-Holds m t (exact q) (m', x) h (e, ready, size, at, other) = (
  record {
    ready = ready;
    names = λ p. put-Holds (ends m.abuf 1) t.exact (ends m'.abuf 1) q 0 p (at p) (h.names p);
    patterns = λ p. other p ∙ h.patterns p;
  },
  size,
)
removed-Holds m t (prefix q) (m', x) h (e, ready, size, at, other) = (
  record {
    ready = ready;
    names = λ p. other p ∙ h.names p;
    patterns = λ p. put-Holds (stds m.abuf 1) t.prefix (stds m'.abuf 1) q 0 p (at p) (h.patterns p);
  },
  size,
)
removed-Holds m t wrong (m', x) h (e, same) =
    (subst (λ n. Holds n t) (sym same) h, ap (λ n. n.size) same)

run-adds :
    (m m' : Mapper) (name : Bytes) (v : ℕ) (ops : List Op)
    → add m name v ≡ done m'
    → run m (adds name v ∷ ops) ≡ run m' ops
unfolding run
run-adds m m' name v ops e = rw (e, run)

run_lem :
    (m : Mapper) (t : Tables) (ops : List Op)
    → Holds m t
    → WellFormed ops
    → m.size + total_length ops < 2 ^ 16
    → (m' : Mapper) × (run m ops ≡ some m') × Holds m' (run_tables t ops)
unfolding run run_tables
run_lem m t [] h w room = (m, refl, h)
run_lem m t (adds name v ∷ ops) h w room =
    let (m', e, h') =
      assigned m t (route name) v (add m name v) h w.0 (add_lem m name v h.ready (omega arith)) in
    let (m'', e', h'') =
      run_lem m' (assign t (route name) v) ops h' w.1 (omega (arith, add-size m m' name v e)) in
    (m'', run-adds m m' name v ops e ∙ e', h'')
run_lem m t (dels name ∷ ops) h w room =
    let (h', size) = removed-Holds m t (route name) (del m name) h (del_lem m h.ready name) in
    run_lem (del m name).0 (assign t (route name) 0) ops h' w (omega (arith, size))

init-Holds : Holds init no_tables
unfolding init
init-Holds = record {
  ready = init-IsReady;
  names = λ p. ap (λ s. s.end) (zero-values zero_block 1 p refl);
  patterns = λ p. ap (λ s. s.std) (zero-values zero_block 1 p refl);
}

-- After any history of adds and deletions in which each added name is printable ASCII up to its
-- first `*` and the lengths of the added names add up to less than 65535, no exception was thrown,
-- and `find` is the lookup in the two tables of the history: the exact name first, then the
-- longest prefix.
pub run-find :
    (ops : List Op) (name : Bytes)
    → WellFormed ops
    → 1 + total_length ops < 2 ^ 16
    → let t = run_tables no_tables ops in
      (m : Mapper) × (run init ops ≡ some m) × (find m name ≡ lookup t.exact t.prefix name)
run-find ops name w room =
    let (m, e, h) = run_lem init no_tables ops init-Holds w (unfold init in room) in
    (m, e, find-Holds m (run_tables no_tables ops) name h)
