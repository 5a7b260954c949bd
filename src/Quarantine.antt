-- ===== src/Quarantine.antt =====
-- The search for media that many accounts share, and their quarantine: `quarantine_cross_account_media`
-- (ig_monitor/dedup.py).
pub mod Search
pub mod Tables
pub mod Merge
pub mod Disjoint
pub mod Review
pub mod RoundTrip
pub mod Tombstone
use ig_anonymous_monitor.Quarantine.Search.{
  KindFilter, add_fingerprint, all_kinds, by_hash, by_url, candidate_groups, candidate_rows,
  candidates_of, distinct_accounts, file_by_hash, file_under, fingerprint_rows, is_kept, is_shared,
  is_stored_video, is_undecided, looks_at_videos, may_be_quarantined, only_image, only_video, or_at,
  other_kind, perceptual_candidates, perceptual_groups, perceptual_part, place_similar, since_then,
  wanted_kind, with_frames,
}
use ig_anonymous_monitor.Quarantine.Tables.{
  Decision, QuarantineTables, Quarantined, deleted, kept, pending,
}
use ig_anonymous_monitor.Base.{
  ℕ, ◌-◌, Bool, true, false, ◌&&◌, ◌||◌, not, Option, none, some, List, [], ◌∷◌, ◌++◌, map, length,
  leb, ltb, ◌==◌, if◌then◌else◌, coalesce, select, exists_by, update_where, find_by,
}
use ig_anonymous_monitor.Store.{Text}
use ig_anonymous_monitor.Media.{by_account, distinct_paths}
use ig_anonymous_monitor.Media.Tables.{Media, MediaStatus, MediaTables, image, video, is_downloaded}
use ig_anonymous_monitor.Fingerprint.{MediaFingerprint, DedupConfig, is_similar}
use ig_anonymous_monitor.Dedup.Analyze.{Files, row_fingerprint}
use ig_anonymous_monitor.Quarantine.Merge.{
  Signal, Candidate, MergedGroup, has_row, update_rows, merge_cross_account_groups,
}

unfoldable pub target_rows : List MergedGroup → List Media → List Media
unfolding update_rows
target_rows [] targets = targets
target_rows (group ∷ groups) targets = target_rows groups (update_rows targets group.row_by_id)

-- `detected_by_id[id]`: a later group overwrites an earlier one.
unfoldable pub detected : ℕ → List MergedGroup → Option (Signal × ℕ)
unfolding has_row
detected id [] = none
detected id (group ∷ groups) =
    coalesce (detected id groups)
      (if has_row id group.row_by_id then some (group.signal, group.value) else none)

abbrev pub quarantined_row : ℕ → Media → Signal × ℕ → Quarantined
quarantined_row now row (signal, value) = record {
  media_id = row.id;
  signal = signal;
  signal_value = value;
  original_status = row.status;
  quarantined_at = now;
  decision = Decision.pending;
  reviewed_at = none;
}

-- INSERT .. ON CONFLICT(media_id) DO UPDATE: every column is overwritten.
abbrev pub upsert_quarantined : Quarantined → List Quarantined → List Quarantined
upsert_quarantined q rows =
    if exists_by (λ x. x.media_id == q.media_id) rows
    then update_where (λ x. x.media_id == q.media_id) (λ x. q) rows
    else rows ++ q ∷ []

abbrev pub quarantine_row : ℕ → Media → Option (Signal × ℕ) → List Quarantined → List Quarantined
quarantine_row now row none rows = rows
quarantine_row now row (some detection) rows =
    upsert_quarantined (quarantined_row now row detection) rows

unfoldable pub quarantine_rows :
    ℕ → List MergedGroup → List Media → List Quarantined → List Quarantined
unfolding detected
quarantine_rows now groups [] rows = rows
quarantine_rows now groups (row ∷ targets) rows =
    quarantine_rows now groups targets (quarantine_row now row (detected row.id groups) rows)

-- `contamination` is the text 'cross-account-source-contamination'.
unfoldable pub apply_quarantine :
    ℕ → Text → List MergedGroup → List Media → QuarantineTables → QuarantineTables
unfolding quarantine_rows has_row
apply_quarantine now contamination groups targets db = record {
  tables = record db.tables {
    media =
        update_where (λ m. has_row m.id targets)
          (λ m. record m { status = MediaStatus.quarantined; last_error = some contamination })
          db.tables.media;
  };
  media_quarantine = quarantine_rows now groups targets db.media_quarantine;
}

pub record QuarantineReport : Type 0 where
  pub scanned : ℕ
  pub groups : List MergedGroup
  pub media_rows : ℕ
  pub files : ℕ
  pub fingerprint_missing : ℕ
  pub applied : Bool

abbrev pub missing_of : Files → KindFilter → Option DedupConfig → List Media → ℕ
missing_of files kind none rows = 0
missing_of files kind (some dedup) rows =
    if dedup.enabled && looks_at_videos kind
    then length (select is_stored_video rows) - length (fingerprint_rows files rows)
    else 0

abbrev pub is_other : KindFilter → Bool
is_other KindFilter.other_kind = true
is_other _ = false

unfoldable pub found_groups :
    Files
    → (List ℕ → ℕ)
    → ℕ
    → Option ℕ
    → KindFilter
    → Option DedupConfig
    → QuarantineTables
    → List MergedGroup
unfolding candidate_rows candidate_groups merge_cross_account_groups
found_groups files signature min_accounts since kind dedup db =
    merge_cross_account_groups
      (candidate_groups files signature min_accounts kind dedup (candidate_rows kind since db))

-- None is a ValueError.
unfoldable pub quarantine_cross_account_media :
    Files
    → (List ℕ → ℕ)
    → ℕ
    → Text
    → Bool
    → ℕ
    → Option ℕ
    → KindFilter
    → Option DedupConfig
    → QuarantineTables
    → Option (QuarantineReport × QuarantineTables)
unfolding found_groups target_rows apply_quarantine candidate_rows fingerprint_rows
quarantine_cross_account_media files signature now contamination apply min_accounts since kind dedup
      db =
    if ltb min_accounts 2 || is_other kind
    then none
    else let groups = found_groups files signature min_accounts since kind dedup db in
      let targets = target_rows groups [] in
      let rows = candidate_rows kind since db in
      some (
        record {
          scanned = length rows;
          groups = groups;
          media_rows = length targets;
          files = length (distinct_paths targets);
          fingerprint_missing = missing_of files kind dedup rows;
          applied = apply;
        },
        if apply then apply_quarantine now contamination groups targets db else db,
      )
