-- ===== src/Quarantine/Merge.antt =====
-- `_merge_cross_account_groups` (ig_monitor/dedup.py): detections that share a row become one group.
use ig_anonymous_monitor.Base.{
  ℕ, Bool, true, false, List, [], ◌∷◌, ◌++◌, ◌==◌, if◌then◌else◌, select, exists_by, update_where,
  delete_where,
}
use ig_anonymous_monitor.Media.Tables.{Media}

pub data Signal : Type 0 where
  sha256 url perceptual : Signal

abbrev pub same_signal : Signal → Signal → Bool
same_signal Signal.sha256 Signal.sha256 = true
same_signal Signal.url Signal.url = true
same_signal Signal.perceptual Signal.perceptual = true
same_signal _ _ = false

pub record Candidate : Type 0 where
  pub signal : Signal
  pub value : ℕ
  pub rows : List Media

-- `row_by_id` has the rows by their ids, in the order in which the ids came in.
pub record MergedGroup : Type 0 where
  pub signal : Signal
  pub value : ℕ
  pub signals : List Signal
  pub row_by_id : List Media

unfoldable pub has_row : ℕ → List Media → Bool
has_row id = exists_by (λ m. m.id == id)

-- `row_by_id[row["id"]] = row`
abbrev pub set_row : Media → List Media → List Media
set_row row rows =
    if has_row row.id rows
    then update_where (λ m. m.id == row.id) (λ m. row) rows
    else rows ++ row ∷ []

-- `dict.update`
unfoldable pub update_rows : List Media → List Media → List Media
unfolding has_row
update_rows rows [] = rows
update_rows rows (row ∷ more) = update_rows (set_row row rows) more

abbrev pub add_signal : List Signal → Signal → List Signal
add_signal signals signal =
    if exists_by (λ s. same_signal s signal) signals then signals else signals ++ signal ∷ []

unfoldable pub add_signals : List Signal → List Signal → List Signal
add_signals signals [] = signals
add_signals signals (signal ∷ more) = add_signals (add_signal signals signal) more

-- `set(group["row_by_id"]) & set(row_by_id)`
unfoldable pub overlaps : List Media → MergedGroup → Bool
unfolding has_row
overlaps rows group = exists_by (λ m. has_row m.id group.row_by_id) rows

-- The first of the groups that overlap takes in the rest.
unfoldable pub absorb : MergedGroup → List MergedGroup → MergedGroup
unfolding update_rows add_signals
absorb primary [] = primary
absorb primary (extra ∷ extras) =
    absorb
      (record primary {
        signals = add_signals primary.signals extra.signals;
        row_by_id = update_rows primary.row_by_id extra.row_by_id;
      })
      extras

abbrev pub take_in : Candidate → MergedGroup → MergedGroup
take_in candidate primary = record primary {
  signals = add_signal primary.signals candidate.signal;
  row_by_id = update_rows primary.row_by_id (update_rows [] candidate.rows);
}

-- The group stands where the first of the groups that overlap stood; those are removed.
unfoldable pub replace_first :
    (MergedGroup → Bool) → MergedGroup → List MergedGroup → List MergedGroup
replace_first test group [] = []
replace_first test group (g ∷ groups) =
    let rest = replace_first test group groups in
    if test g then group ∷ delete_where test groups else g ∷ rest

abbrev pub new_group : Candidate → MergedGroup
new_group candidate = record {
  signal = candidate.signal;
  value = candidate.value;
  signals = candidate.signal ∷ [];
  row_by_id = update_rows [] candidate.rows;
}

abbrev pub merge_with : Candidate → List MergedGroup → List MergedGroup → List MergedGroup
merge_with candidate [] groups = groups ++ new_group candidate ∷ []
merge_with candidate (primary ∷ extras) groups =
    replace_first (overlaps (update_rows [] candidate.rows))
      (absorb (take_in candidate primary) extras) groups

unfoldable pub merge_candidate : Candidate → List MergedGroup → List MergedGroup
unfolding absorb replace_first overlaps update_rows
merge_candidate candidate groups =
    merge_with candidate (select (overlaps (update_rows [] candidate.rows)) groups) groups

unfoldable pub merge_from : List Candidate → List MergedGroup → List MergedGroup
unfolding merge_candidate
merge_from [] groups = groups
merge_from (candidate ∷ candidates) groups =
    merge_from candidates (merge_candidate candidate groups)

unfoldable pub merge_cross_account_groups : List Candidate → List MergedGroup
unfolding merge_from
merge_cross_account_groups candidates = merge_from candidates []
