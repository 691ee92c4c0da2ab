-- ===== src/Tests/Items.antt =====
-- The linked list of src/workerlist.cpp at a list of three items.
use ijson.Prelude.{ℕ, ◌≡◌, refl, arith, [], ◌∷◌, Option, none, some, ◌==◌, if◌then◌else◌}
use mathlib.Core.Option
use ijson.WorkerList.{
  Item, item, WorkerList, worker_list, push, pop, clear, set_prev, set_next, ◌>>=◌,
}
use ijson.WorkerList.Chain.{Cells, IsList}
use ijson.WorkerList.Whole.{Refined, pop_refines, Pushed, push_lem, Cleared, clear_lem}

abbrev empty : WorkerList
empty = worker_list (λ a. none) none

-- Connections 7, 8 and 9 at the addresses 1, 2 and 3; the last stands in front.
abbrev three : WorkerList
three =
    worker_list
      (λ a.
        if a == 3
        then some (item none (some 2) 9)
        else if a == 2
        then some (item (some 3) (some 1) 8)
        else if a == 1
        then some (item (some 2) none 7)
        else none)
      (some 3)

abbrev cells : Cells
cells = (3, 9) ∷ (2, 8) ∷ (1, 7) ∷ []

abbrev heads : Option WorkerList → Option (Option ℕ)
heads o = Option.map (λ l. l.head) o

abbrev item_at : ℕ → Option WorkerList → Option Item
item_at a none = none
item_at a (some l) = l.items a

pushed : heads (do l ← push 1 7 empty; l ← push 2 8 l; push 3 9 l) ≡ some (some 3)
unfolding push set_prev
pushed = refl

pushed_item :
    item_at 2 (do l ← push 1 7 empty; l ← push 2 8 l; push 3 9 l) ≡ some (item (some 3) (some 1) 8)
unfolding push set_prev
pushed_item = refl

popped_item : item_at 1 (do l ← pop 2 three; pop 3 l) ≡ some (item none none 7)
unfolding pop set_prev set_next
popped_item = refl

cleared : heads (clear 4 three) ≡ some none
unfolding clear pop set_prev set_next
cleared = refl

three-IsList : IsList three cells
three-IsList = (refl, (refl, refl, (refl, refl, (refl, refl, tt))))

pop_refines_example : Refined three cells 2
pop_refines_example = pop_refines three cells 2 three-IsList (refl, (refl, (refl, tt))) refl

push_lem_example : Pushed three cells 4 5
push_lem_example = push_lem three cells 4 5 three-IsList refl

clear_lem_example : Cleared 4 three cells
clear_lem_example = clear_lem cells 4 three three-IsList (omega arith)
