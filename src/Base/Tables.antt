-- ===== src/Base/Tables.antt =====
-- A table of the database as the list of its rows in the order of insertion, the statements that
-- the program runs on tables (SELECT, UPDATE .. WHERE, DELETE .. WHERE, COUNT, MAX), and their laws.
use Prim.Native.Nat.{ℕ, zero, suc, ◌+◌, max}
use mathlib.Core.Path.{◌≡◌}
use mathlib.Core.Logic.{◌⊎◌}
use mathlib.Core.Bool.{Bool, false, ◌||◌}
use mathlib.Core.Option.{Option, none, some}
use mathlib.Core.List.{List, [], ◌∷◌}
use ig_anonymous_monitor.Base.Tests.{if◌then◌else◌}

abbrev pub All {ℓ κ} : {A : Type ℓ} → (A → Type κ) → List A → Type κ
All P [] = Unit
All P (x ∷ xs) = P x × All P xs

-- No row is in the empty table.
pub data NoRow {ℓ} : Type ℓ where

module _ {ℓ} {A : Type ℓ} where
  -- `x` is one of the rows.
  abbrev pub In : A → List A → Type ℓ
  In x [] = NoRow
  In x (y ∷ ys) = (x ≡ y) ⊎ In x ys

  abbrev pub length : List A → ℕ
  length [] = 0
  length (x ∷ xs) = suc (length xs)

  abbrev pub take : ℕ → List A → List A
  take zero xs = []
  take (suc n) [] = []
  take (suc n) (x ∷ xs) = x ∷ take n xs

  -- SELECT .. WHERE p
  unfoldable pub select : (A → Bool) → List A → List A
  select p [] = []
  select p (x ∷ xs) = let rest = select p xs in if p x then x ∷ rest else rest

  -- SELECT .. WHERE p, the first row
  unfoldable pub find_by : (A → Bool) → List A → Option A
  find_by p [] = none
  find_by p (x ∷ xs) = let rest = find_by p xs in if p x then some x else rest

  -- SELECT COUNT(*) .. WHERE p
  unfoldable pub count_by : (A → Bool) → List A → ℕ
  count_by p [] = 0
  count_by p (x ∷ xs) = let rest = count_by p xs in if p x then suc rest else rest

  -- EXISTS(SELECT .. WHERE p)
  unfoldable pub exists_by : (A → Bool) → List A → Bool
  exists_by p [] = false
  exists_by p (x ∷ xs) = p x || exists_by p xs

  -- UPDATE .. SET f WHERE p
  unfoldable pub update_where : (A → Bool) → (A → A) → List A → List A
  update_where p f [] = []
  update_where p f (x ∷ xs) = (if p x then f x else x) ∷ update_where p f xs

  -- DELETE .. WHERE p
  unfoldable pub delete_where : (A → Bool) → List A → List A
  delete_where p [] = []
  delete_where p (x ∷ xs) = let rest = delete_where p xs in if p x then rest else x ∷ rest

  -- The row id that SQLite gives to the next row of a table with an INTEGER PRIMARY KEY.
  unfoldable pub max_of : (A → ℕ) → List A → ℕ
  max_of id [] = 0
  max_of id (x ∷ xs) = max (id x) (max_of id xs)

  abbrev pub next_id : (A → ℕ) → List A → ℕ
  next_id id xs = max_of id xs + 1
