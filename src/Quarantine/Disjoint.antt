-- ===== src/Quarantine/Disjoint.antt =====
-- The rows of the merged groups.
use ig_anonymous_monitor.Base.{
  ℕ, ◌+◌, ◌≤◌, ◌≡◌, refl, sym, ap, ◌∙◌, subst, Bool, true, false, ◌||◌, List, [], ◌∷◌, ◌++◌, ◌==◌,
  ltb, if◌then◌else◌, arith, Bool-cases, inl, inr, select, count_by, exists_by, update_where,
  delete_where, ==→eq, count_by-append_one, find_by-In, exists_by-find_by, find_by-holds,
  exists_by-In,
}
use ig_anonymous_monitor.Media.Tables.{Media}
use ig_anonymous_monitor.Quarantine.Merge.{
  Candidate, MergedGroup, has_row, set_row, update_rows, add_signals, overlaps, absorb, take_in,
  replace_first, new_group, merge_with, merge_candidate, merge_from, merge_cross_account_groups,
}

-- The row is in the group, or in the candidate.
abbrev pub holds : ℕ → MergedGroup → Bool
holds id group = has_row id group.row_by_id

abbrev pub names : ℕ → Candidate → Bool
names id candidate = has_row id candidate.rows

exists_by-count {ℓ} :
    {A : Type ℓ} (q : A → Bool) (xs : List A) → exists_by q xs ≡ ltb 0 (count_by q xs)
unfolding exists_by count_by
exists_by-count q [] = refl
exists_by-count q (x ∷ xs) = ground (arith, exists_by-count q xs)

update_where-has_row :
    (id : ℕ) (row : Media) (rows : List Media)
    → has_row id (update_where (λ m. m.id == row.id) (λ m. row) rows) ≡ has_row id rows
unfolding has_row exists_by update_where
update_where-has_row id row [] = refl
update_where-has_row id row (m ∷ rows) = ground (arith, update_where-has_row id row rows)

append-has_row :
    (id : ℕ) (row : Media) (rows : List Media)
    → has_row id (rows ++ row ∷ []) ≡ has_row id rows || (row.id == id)
unfolding has_row exists_by
append-has_row id row [] = ground arith
append-has_row id row (m ∷ rows) = ground (arith, append-has_row id row rows)

already :
    (id : ℕ) (row : Media) (rows : List Media)
    → has_row row.id rows ≡ true
    → has_row id rows ≡ has_row id rows || (row.id == id)
already id row rows there = elim (Bool-cases (row.id == id)) [
  | inl e ↦ rw (e, subst (λ z. has_row z rows ≡ true) (==→eq row.id id e) there) refl
  | inr e ↦ rw e (ground (arith))
]

set_row-has_row :
    (id : ℕ) (row : Media) (rows : List Media)
    → has_row id (set_row row rows) ≡ has_row id rows || (row.id == id)
set_row-has_row id row rows = elim (Bool-cases (has_row row.id rows)) [
  | inl there ↦ rw there (update_where-has_row id row rows ∙ already id row rows there)
  | inr new ↦ rw new (append-has_row id row rows)
]

update_rows-has_row :
    (id : ℕ) (rows more : List Media)
    → has_row id (update_rows rows more) ≡ has_row id rows || has_row id more
unfolding update_rows has_row exists_by
update_rows-has_row id rows [] = ground arith
update_rows-has_row id rows (row ∷ more) =
    ground (arith, update_rows-has_row id (set_row row rows) more, set_row-has_row id row rows)

absorb-holds :
    (id : ℕ) (primary : MergedGroup) (extras : List MergedGroup)
    → holds id (absorb primary extras) ≡ holds id primary || exists_by (holds id) extras
unfolding absorb exists_by
absorb-holds id primary [] = ground arith
absorb-holds id primary (extra ∷ extras) =
    let wider = record primary {
      signals = add_signals primary.signals extra.signals;
      row_by_id = update_rows primary.row_by_id extra.row_by_id;
    } in
    ground (
      arith,
      absorb-holds id wider extras,
      update_rows-has_row id primary.row_by_id extra.row_by_id,
    )

overlaps-of :
    (id : ℕ) (rows : List Media) (g : MergedGroup)
    → has_row id rows ≡ true
    → holds id g ≡ true
    → overlaps rows g ≡ true
unfolding overlaps has_row
overlaps-of id rows g here there =
    let (m, found) = exists_by-find_by (λ m. m.id == id) rows here in
    let same = ==→eq m.id id (find_by-holds (λ m. m.id == id) rows found) in
    exists_by-In (λ m. has_row m.id g.row_by_id) rows (find_by-In (λ m. m.id == id) rows found)
      (subst (λ z. has_row z g.row_by_id ≡ true) (sym same) there)

replace_first-count :
    (q t : MergedGroup → Bool) (group : MergedGroup) (groups : List MergedGroup)
    → exists_by t groups ≡ true
    → count_by q (replace_first t group groups)
      ≡ (if q group then 1 else 0) + count_by q (delete_where t groups)
unfolding replace_first exists_by count_by delete_where
replace_first-count q t group [] h = absurd (cc)
replace_first-count q t group (g ∷ groups) h = ground (arith, replace_first-count q t group groups)

count_by-split :
    (q t : MergedGroup → Bool) (groups : List MergedGroup)
    → count_by q groups ≡ count_by q (select t groups) + count_by q (delete_where t groups)
unfolding count_by select delete_where
count_by-split q t [] = ground arith
count_by-split q t (g ∷ groups) = ground (arith, count_by-split q t groups)

-- What does not overlap with rows that have the id does not have it.
others-count :
    (id : ℕ) (rows : List Media) (groups : List MergedGroup)
    → has_row id rows ≡ true
    → count_by (holds id) (delete_where (overlaps rows) groups) ≡ 0
unfolding count_by delete_where
others-count id rows [] here = refl
others-count id rows (g ∷ groups) here = elim (Bool-cases (overlaps rows g)) [
  | inl e ↦ rw e (others-count id rows groups here)
  | inr e ↦ elim (Bool-cases (holds id g)) [
    | inl there ↦ absurd (let both = overlaps-of id rows g here there in cc)
    | inr gone ↦ rw (e, gone) (others-count id rows groups here)
  ]
]

-- In no group, or in one.
abbrev pub once : Bool → ℕ
once b = if b then 1 else 0

fresh-has_row : (id : ℕ) (rows : List Media) → has_row id (update_rows [] rows) ≡ has_row id rows
unfolding has_row exists_by
fresh-has_row id rows = update_rows-has_row id [] rows

is_cons {ℓ} : {A : Type ℓ} → List A → Bool
is_cons [] = false
is_cons (x ∷ xs) = true

exists_by-select {ℓ} :
    {A : Type ℓ} (p : A → Bool) (xs : List A) → exists_by p xs ≡ is_cons (select p xs)
unfolding exists_by select is_cons
exists_by-select p [] = refl
exists_by-select p (x ∷ xs) = ground (arith, exists_by-select p xs)

is_cons-of {ℓ} : {A : Type ℓ} (xs : List A) (y : A) (ys : List A) → xs ≡ y ∷ ys → is_cons xs ≡ true
unfolding is_cons
is_cons-of xs y ys e = ap is_cons e

no_rows-count {ℓ} : {A : Type ℓ} (q : A → Bool) → count_by q [] ≡ 0
unfolding count_by
no_rows-count q = refl

-- The group that takes in the candidate and all that overlap with it.
merged-holds :
    (id : ℕ) (c : Candidate) (primary : MergedGroup) (extras : List MergedGroup)
    → holds id (absorb (take_in c primary) extras)
      ≡ names id c || ltb 0 (count_by (holds id) (primary ∷ extras))
unfolding count_by
merged-holds id c primary extras = ground (
  arith,
  absorb-holds id (take_in c primary) extras,
  update_rows-has_row id primary.row_by_id (update_rows [] c.rows),
  fresh-has_row id c.rows,
  exists_by-count (holds id) extras,
)

merge_with-count :
    (id : ℕ) (c : Candidate) (groups : List MergedGroup) (overlapping : List MergedGroup)
    → select (overlaps (update_rows [] c.rows)) groups ≡ overlapping
    → count_by (holds id) groups ≤ 1
    → count_by (holds id) (merge_with c overlapping groups)
      ≡ once (names id c || ltb 0 (count_by (holds id) groups))
merge_with-count id c groups [] e one =
    let rows = update_rows [] c.rows in
    let none_here : count_by (holds id) (select (overlaps rows) groups) ≡ 0 =
      ap (count_by (holds id)) e ∙ no_rows-count (holds id) in
    ground (
      arith,
      count_by-append_one (holds id) groups (new_group c),
      fresh-has_row id c.rows,
      count_by-split (holds id) (overlaps rows) groups,
      none_here,
      others-count id rows groups,
    )
merge_with-count id c groups (primary ∷ extras) e one =
    let rows = update_rows [] c.rows in
    let some_here : exists_by (overlaps rows) groups ≡ true =
      exists_by-select (overlaps rows) groups
      ∙ is_cons-of (select (overlaps rows) groups) primary extras e in
    let here : count_by (holds id) (select (overlaps rows) groups)
        ≡ count_by (holds id) (primary ∷ extras) =
      ap (count_by (holds id)) e in
    ground (
      arith,
      replace_first-count (holds id) (overlaps rows) (absorb (take_in c primary) extras) groups
          some_here,
      merged-holds id c primary extras,
      fresh-has_row id c.rows,
      count_by-split (holds id) (overlaps rows) groups,
      here,
      others-count id rows groups,
    )

pub merge_candidate-count :
    (id : ℕ) (c : Candidate) (groups : List MergedGroup)
    → count_by (holds id) groups ≤ 1
    → count_by (holds id) (merge_candidate c groups)
      ≡ once (names id c || ltb 0 (count_by (holds id) groups))
unfolding merge_candidate
merge_candidate-count id c groups one =
    merge_with-count id c groups (select (overlaps (update_rows [] c.rows)) groups) refl one

merge_from-count :
    (id : ℕ) (candidates : List Candidate) (groups : List MergedGroup)
    → count_by (holds id) groups ≤ 1
    → count_by (holds id) (merge_from candidates groups)
      ≡ once (exists_by (names id) candidates || ltb 0 (count_by (holds id) groups))
unfolding merge_from exists_by
merge_from-count id [] groups one = ground arith
merge_from-count id (c ∷ candidates) groups one =
    let step = merge_candidate-count id c groups one in
    ground (
      arith,
      step,
      merge_from-count id candidates (merge_candidate c groups) (ground (arith, step)),
    )

-- A row that a detection names is in exactly one of the merged groups, and no other row is in any.
pub merge_cross_account_groups-disjoint :
    (id : ℕ) (candidates : List Candidate)
    → count_by (holds id) (merge_cross_account_groups candidates)
      ≡ (if exists_by (names id) candidates then 1 else 0)
unfolding merge_cross_account_groups count_by
merge_cross_account_groups-disjoint id candidates =
    ground (arith, merge_from-count id candidates [] (omega arith))
