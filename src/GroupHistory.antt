-- ===== src/GroupHistory.antt =====
-- The observations of groups of media: `record_group_observations` and `read_group_observations`
-- (ig_monitor/anonymous_store.py).
pub mod Sticky
use ig_anonymous_monitor.Base.{
  ℕ, Bool, true, false, ◌&&◌, ◌||◌, not, Option, none, some, List, [], ◌∷◌, ◌++◌, ltb, ◌==◌,
  if◌then◌else◌, select, exists_by, next_id,
}
use ig_anonymous_monitor.Cooldown.{SourceName, same_source}
use ig_anonymous_monitor.Observations.States.{Category, same_category, is_known_category}

-- A row of `anonymous_group_observations`.
pub record GroupObservation : Type 0 where
  pub id : ℕ
  pub account_id : ℕ
  pub source : SourceName
  pub category : Category
  pub group_id : ℕ
  pub revision_id : ℕ
  pub declared_count : Option ℕ
  pub received_count : ℕ
  pub observed_at : ℕ
  pub complete : Bool
  pub album_title : Option ℕ

-- A count that a source gives: none, a number that is not negative, or something else.
pub data Count : Type 0 where
  no_count invalid : Count
  number : ℕ → Count

-- One of the `groups`.
pub record Group : Type 0 where
  pub category : Category
  pub group_id : ℕ
  pub revision_id : ℕ
  pub declared_count : Count
  pub received_count : Count
  pub observed_at : ℕ
  pub complete : Bool
  pub album_title : Option ℕ

-- `UNIQUE(account_id,source,category,group_id,revision_id,observed_at)`
abbrev pub is_same_observation : GroupObservation → GroupObservation → Bool
is_same_observation a b =
    (a.account_id == b.account_id)
    && same_source a.source b.source
    && same_category a.category b.category
    && (a.group_id == b.group_id)
    && (a.revision_id == b.revision_id)
    && (a.observed_at == b.observed_at)

-- `INSERT OR IGNORE`
abbrev pub insert_observation : GroupObservation → List GroupObservation → List GroupObservation
insert_observation o rows =
    if exists_by (λ r. is_same_observation r o) rows then rows else rows ++ o ∷ []

-- `declared is None or declared == received`
abbrev pub agrees : Option ℕ → ℕ → Bool
agrees none received = true
agrees (some declared) received = declared == received

abbrev pub new_observation : ℕ → ℕ → SourceName → Group → Option ℕ → ℕ → GroupObservation
new_observation id account_id source g declared received = record {
  id = id;
  account_id = account_id;
  source = source;
  category = g.category;
  group_id = g.group_id;
  revision_id = g.revision_id;
  declared_count = declared;
  received_count = received;
  observed_at = g.observed_at;
  complete = g.complete && agrees declared received;
  album_title = g.album_title;
}

abbrev pub insert_counted :
    ℕ → SourceName → Group → Option ℕ → ℕ → List GroupObservation → List GroupObservation
insert_counted account_id source g declared received rows =
    insert_observation
      (new_observation (next_id (λ (r : GroupObservation). r.id) rows) account_id source g declared
        received)
      rows

-- None is a ValueError: of the category or of a count.
abbrev pub record_counts :
    ℕ → SourceName → Group → Count → Count → List GroupObservation → Option (List GroupObservation)
record_counts account_id source g Count.no_count (Count.number received) rows =
    some (insert_counted account_id source g none received rows)
record_counts account_id source g (Count.number declared) (Count.number received) rows =
    some (insert_counted account_id source g (some declared) received rows)
record_counts account_id source g _ _ rows = none

unfoldable pub record_group :
    ℕ → SourceName → Group → List GroupObservation → Option (List GroupObservation)
record_group account_id source g rows =
    if is_known_category g.category
    then record_counts account_id source g g.declared_count g.received_count rows
    else none

unfoldable pub record_groups :
    ℕ → SourceName → List Group → List GroupObservation → Option (List GroupObservation)
unfolding record_group
record_groups account_id source [] rows = some rows
record_groups account_id source (g ∷ groups) rows = elim (record_group account_id source g rows) [
  | none ↦ none
  | some more ↦ record_groups account_id source groups more
]

-- The rows after the call, an undone one included.
unfoldable pub record_group_observations :
    ℕ → SourceName → List Group → List GroupObservation → List GroupObservation
unfolding record_groups
record_group_observations account_id source groups rows =
    elim (record_groups account_id source groups rows) [ none ↦ rows | some more ↦ more ]

-- `ORDER BY observed_at DESC,id DESC`
abbrev pub precedes : GroupObservation → GroupObservation → Bool
precedes a b =
    ltb b.observed_at a.observed_at || ((a.observed_at == b.observed_at) && ltb b.id a.id)

unfoldable pub insert_row : GroupObservation → List GroupObservation → List GroupObservation
insert_row o [] = o ∷ []
insert_row o (r ∷ rows) =
    let rest = insert_row o rows in if precedes r o then r ∷ rest else o ∷ r ∷ rows

unfoldable pub in_order : List GroupObservation → List GroupObservation
unfolding insert_row
in_order [] = []
in_order (o ∷ rows) = insert_row o (in_order rows)

-- `(item["source"], item["category"], item["group_id"])`
abbrev pub same_group : GroupObservation → GroupObservation → Bool
same_group a b =
    same_source a.source b.source
    && same_category a.category b.category
    && (a.group_id == b.group_id)

pub record GroupView : Type 0 where
  pub row : GroupObservation
  pub is_current : Bool
  pub ever_incomplete : Bool
  pub complete : Bool

abbrev pub was_incomplete : GroupObservation → List GroupObservation → Bool
was_incomplete o = exists_by (λ r. same_group r o && not r.complete)

-- `result` are all rows, `seen` those before.
unfoldable pub views :
    List GroupObservation → List GroupObservation → List GroupObservation → List GroupView
views result seen [] = []
views result seen (o ∷ rows) =
    record {
      row = o;
      is_current = not (exists_by (λ r. same_group r o) seen);
      ever_incomplete = was_incomplete o result;
      complete = o.complete && not (was_incomplete o result);
    }
    ∷ views result (o ∷ seen) rows

abbrev pub is_of_source : Option SourceName → GroupObservation → Bool
is_of_source none o = true
is_of_source (some source) o = same_source o.source source

unfoldable pub read_group_observations :
    ℕ → Option SourceName → List GroupObservation → List GroupView
unfolding views in_order
read_group_observations account_id source rows =
    let result =
      in_order (select (λ o. (o.account_id == account_id) && is_of_source source o) rows) in
    views result [] result
