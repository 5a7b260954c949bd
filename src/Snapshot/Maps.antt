-- ===== src/Snapshot/Maps.antt =====
-- Python's dicts from profile ids to user names, in the order of insertion, and `sorted` of sets of
-- profile ids.
use ig_anonymous_monitor.Base.{ℕ, Bool, false, ◌||◌, List, [], ◌∷◌, leb, ◌==◌, if◌then◌else◌}
use ig_anonymous_monitor.Store.{Text}

abbrev pub Names : Type 0
Names = List (ℕ × Text)

unfoldable pub has_key : ℕ → Names → Bool
has_key k [] = false
has_key k ((j, v) ∷ d) = (j == k) || has_key k d

-- The name of a key that the dict has.
unfoldable pub name_of : Names → ℕ → Text
name_of [] k = []
name_of ((j, v) ∷ d) k = if j == k then v else name_of d k

unfoldable pub insert_sorted : ℕ → List ℕ → List ℕ
insert_sorted k [] = k ∷ []
insert_sorted k (j ∷ js) = let rest = j ∷ insert_sorted k js in if leb k j then k ∷ j ∷ js else rest

-- `sorted(set(a) - set(b))`; a dict holds a key once.
unfoldable pub sorted_difference : Names → Names → List ℕ
unfolding has_key insert_sorted
sorted_difference [] b = []
sorted_difference ((k, v) ∷ a) b =
    let rest = sorted_difference a b in if has_key k b then rest else insert_sorted k rest
