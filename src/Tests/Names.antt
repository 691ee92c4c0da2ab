-- ===== src/Tests/Names.antt =====
-- The trie of src/mapper.cpp at concrete names.
use ijson.Prelude.{◌≡◌, arith, [], ◌∷◌, List, text, some}
use ijson.Mapper.{Mapper, init, add, del, find}
use ijson.Mapper.View.{lookup, ends, stds}
use ijson.Mapper.Loop.{route}
use ijson.Mapper.Lookup.{find-lookup}
use ijson.Mapper.Add.{Adds, add_lem, init-IsReady}
use ijson.Mapper.Del.{Removes, del_lem}
use ijson.Mapper.Spec.{Op, adds, dels, run, run_tables, no_tables, WellFormed, run-find}

abbrev history : List Op
history = adds (text "a/b") 1 ∷ adds (text "a/*") 2 ∷ dels (text "a/b") ∷ adds (text "c") 3 ∷ []

history-WellFormed : WellFormed history
unfolding route
history-WellFormed = (λ e. cc, (λ e. cc, (λ e. cc, tt)))

run-find_example :
    (m : Mapper) × (run init history ≡ some m)
    × (find m (text "a/b")
        ≡ lookup
            (run_tables no_tables history).exact
            (run_tables no_tables history).prefix
            (text "a/b"))
run-find_example = run-find history (text "a/b") history-WellFormed (omega arith)

add_lem_example : Adds init 1 (route (text "a/b")) (add init (text "a/b") 1)
add_lem_example = add_lem init (text "a/b") 1 init-IsReady (unfold init in omega arith)

del_lem_example : Removes init (route (text "a/*")) (del init (text "a/*"))
del_lem_example = del_lem init init-IsReady (text "a/*")

find-lookup_example :
    find init (text "a/b") ≡ lookup (ends init.abuf 1) (stds init.abuf 1) (text "a/b")
find-lookup_example = find-lookup init (text "a/b")
