-- ===== src/Examples/Health.antt =====
-- An account that fails twice, media that wait, and an album that came in part.
use ig_anonymous_monitor.Base.{
  ℕ, ◌≤◌, count_by, ◌==◌, arith, if◌then◌else◌, ◌≡◌, refl, some, none, false, true, [], List, ◌∷◌,
  find_by, All, length, select, exists_by, max_of, is_some, not, ◌&&◌,
}
use ig_anonymous_monitor.Inspections.{Health, InspectionTables}
use ig_anonymous_monitor.Inspections.Refines.{Inspection, Ending, failures_in_a_row}
use ig_anonymous_monitor.Cooldown.{SourceName, SourceTables, media_cooldown}
use ig_anonymous_monitor.Media.Tables.{Media, MediaStatus, MediaTables}
use ig_anonymous_monitor.Backlog.{reason_of, selected, count_rows, media_backlog}
use ig_anonymous_monitor.Backlog.Offered.{offered}
use ig_anonymous_monitor.Backlog.Agrees.{media_backlog-ready}
use ig_anonymous_monitor.Observations.States.{Category}
use ig_anonymous_monitor.GroupHistory.{
  Group, GroupObservation, Count, read_group_observations, record_group_observations, record_groups,
  record_group, in_order, insert_row, views,
}
use ig_anonymous_monitor.GroupHistory.Sticky.{
  Recording, record_all, is_known_incomplete, read_group_observations-sticky,
}
use ig_anonymous_monitor.Examples.{profile}
use ig_anonymous_monitor.Examples.Media.{copy, copies}

abbrev healthy : Health
healthy = record {
  id = 1;
  enabled = true;
  snapshot = none;
  fail_count = 0;
  failure_notified = false;
  failure_since = none;
  last_error = none;
  last_success_at = none;
}

abbrev tables : InspectionTables
tables = record {
  accounts = healthy ∷ [];
  profile_history = [];
  events = [];
  media_tables = record { media = []; media_sources = []; media_memberships = [] };
}

abbrev inspections : List Inspection
inspections =
    record { account_id = 1; ending = Ending.fails 1000 (1 ∷ []) }
    ∷ record { account_id = 2; ending = Ending.succeeds 1500 none profile [] [] }
    ∷ record { account_id = 1; ending = Ending.fails 2000 (1 ∷ []) }
    ∷ []

twice : failures_in_a_row 1 inspections 0 ≡ 2
unfolding failures_in_a_row
twice = refl

-- A medium whose download has failed.
abbrev waiting_copy : Media
waiting_copy = record copy { status = MediaStatus.failed; next_retry_at = some 5000 }

-- The account is public now, and the medium may be tried again.
abbrev accounts : List Health
accounts = record healthy { snapshot = some profile } ∷ []

abbrev waiting_media : MediaTables
waiting_media = record copies { media = waiting_copy ∷ [] }

abbrev no_states : SourceTables
no_states = record { states = []; notices = [] }

accounts_unique : (id : ℕ) → count_by (λ a. a.id == id) accounts ≤ 1
unfolding count_by
accounts_unique id = ground arith

media_backlog-ready_example :
    (media_backlog SourceName.igwatcher true 6000 accounts no_states waiting_media).0.ready ≡ (
      if true && not (is_some (media_cooldown SourceName.igwatcher 6000 no_states))
      then offered SourceName.igwatcher 6000 waiting_media accounts
      else 0)
media_backlog-ready_example =
    media_backlog-ready SourceName.igwatcher true 6000 accounts no_states waiting_media
      accounts_unique

one_ready :
    (media_backlog SourceName.igwatcher true 6000 accounts no_states waiting_media).0.ready ≡ 1
unfolding media_backlog count_rows reason_of selected find_by select exists_by media_cooldown
one_ready = refl

-- Four of five pictures came.
abbrev album : Group
album = record {
  category = Category.highlights;
  group_id = 7;
  revision_id = 1;
  declared_count = Count.number 5;
  received_count = Count.number 4;
  observed_at = 1000;
  complete = true;
  album_title = none;
}

abbrev seen_once : List GroupObservation
seen_once = record_group_observations 1 SourceName.igwatcher (album ∷ []) []

abbrev whole : Group
whole = record album { received_count = Count.number 5; observed_at = 2000 }

abbrev later : Recording
later = record { account_id = 1; source = SourceName.igwatcher; groups = whole ∷ [] }

read_group_observations-sticky_example :
    All
      (λ v. is_known_incomplete 1 none v.row seen_once && v.complete ≡ false)
      (read_group_observations 1 none (record_all (later ∷ later ∷ []) seen_once))
read_group_observations-sticky_example =
    read_group_observations-sticky 1 none (later ∷ later ∷ []) seen_once

-- Both observations of the album are there.
two_views :
    length (
      read_group_observations 1 none
        (record_group_observations 1 SourceName.igwatcher (whole ∷ []) seen_once))
    ≡ 2
unfolding read_group_observations record_group_observations record_groups record_group in_order
    insert_row views select exists_by max_of
two_views = refl
