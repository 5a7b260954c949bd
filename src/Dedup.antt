-- ===== src/Dedup.antt =====
-- The search for copies among the downloaded media of an account, `deduplicate_existing_media`
-- (ig_monitor/dedup.py). Files, hashes and the decoding of pictures are a parameter.
pub mod Grouping
pub mod Analyze
pub mod Best
pub mod Groups
pub mod Kept
pub mod Unique
pub mod Safe
use ig_anonymous_monitor.Dedup.Grouping.{
  Group, add_member, belongs, best_from, canonical_of, entries_of, entry_exceeds, exact_only,
  group_entries, is_protected, min_id, place, review_entries, same_content,
}
use ig_anonymous_monitor.Dedup.Analyze.{
  Analysis, Entry, Files, add_entry, analyze_at, analyze_row, analyzed, analyzed_rows, errors,
  failed, file_not_found, is_error, row_fingerprint, with_digest, with_fingerprint, with_stored,
}
use ig_anonymous_monitor.Base.{
  ℕ, ◌+◌, ◌-◌, Bool, true, false, ◌&&◌, ◌||◌, not, Option, none, some, List, [], ◌∷◌, ◌++◌, map,
  length, leb, ◌==◌, if◌then◌else◌, min, select, count_by, exists_by, In,
}
use ig_anonymous_monitor.Store.{Text}
use ig_anonymous_monitor.Media.{
  distinct_paths, downloaded_media, store_media_fingerprint, mark_media_duplicate,
  media_path_referenced,
}
use ig_anonymous_monitor.Media.Tables.{Media, MediaTables, video, same_option}
use ig_anonymous_monitor.Memberships.{media_requires_review, same_value}
use ig_anonymous_monitor.Fingerprint.{
  MediaFingerprint, DedupConfig, is_similar, quality_rank, exceeds,
}

pub record Plan : Type 0 where
  pub canonical : Entry
  pub duplicates : List Entry

unfoldable pub plan_of : Group → Plan
unfolding best_from
plan_of group = record {
  canonical = canonical_of group;
  duplicates = select (λ e. not (e.row.id == (canonical_of group).row.id)) (entries_of group);
}

abbrev pub is_duplicate_group : Group → Bool
is_duplicate_group group = not (length group.others == 0)

abbrev pub is_upgrade : Group → Bool
is_upgrade group = not ((canonical_of group).row.id == min_id group.sample.row.id group.others)

abbrev pub duplicate_rows : List Group → ℕ
duplicate_rows [] = 0
duplicate_rows (group ∷ groups) = length group.others + duplicate_rows groups

abbrev pub removable_rows : List Plan → List Media
removable_rows [] = []
removable_rows (plan ∷ plans) =
    map (λ e. e.row)
      (select (λ e. not (same_value e.row.local_path plan.canonical.row.local_path))
        plan.duplicates)
    ++ removable_rows plans

abbrev pub store_entry : Files → Entry → MediaTables → MediaTables
store_entry files entry =
    store_media_fingerprint entry.row.id entry.digest (files.dumps entry.fingerprint)
      entry.fingerprint.width entry.fingerprint.height entry.fingerprint.size_bytes
      entry.fingerprint.duration_seconds entry.fingerprint.bitrate

unfoldable pub store_entries : Files → List Entry → MediaTables → MediaTables
unfolding store_media_fingerprint
store_entries files [] db = db
store_entries files (entry ∷ entries) db = store_entries files entries (store_entry files entry db)

-- `set.update`
unfoldable pub add_paths : List ℕ → List ℕ → List ℕ
add_paths [] paths = paths
add_paths (path ∷ more) paths =
    add_paths more (if exists_by (λ p. p == path) paths then paths else paths ++ path ∷ [])

unfoldable pub mark_duplicates :
    Files → ℕ → List Entry → List ℕ → MediaTables → List ℕ × MediaTables
unfolding mark_media_duplicate add_paths
mark_duplicates files canonical_id [] paths db = (paths, db)
mark_duplicates files canonical_id (e ∷ duplicates) paths db =
    let marked =
      mark_media_duplicate e.row.id canonical_id e.digest (some (files.dumps e.fingerprint)) db in
    mark_duplicates files canonical_id duplicates (add_paths marked.0 paths) marked.1

unfoldable pub apply_plans : Files → List Plan → List ℕ → MediaTables → List ℕ × MediaTables
unfolding mark_duplicates
apply_plans files [] paths db = (paths, db)
apply_plans files (plan ∷ plans) paths db =
    let marked = mark_duplicates files plan.canonical.row.id plan.duplicates paths db in
    apply_plans files plans marked.0 marked.1

pub record Report : Type 0 where
  pub scanned : ℕ
  pub analyzed_count : ℕ
  pub duplicate_groups : ℕ
  pub duplicate_rows : ℕ
  pub quality_upgrades : ℕ
  pub removable_files : ℕ
  pub errors : List Analysis
  pub ffmpeg_missing : Bool
  pub applied : Bool

-- The report, the database and the files that are removed.
pub record Deduplicated : Type 0 where
  pub report : Report
  pub tables : MediaTables
  pub unlinked : List ℕ

unfoldable pub entry_groups : Files → DedupConfig → MediaTables → List Group
unfolding downloaded_media analyzed_rows group_entries
entry_groups files config db =
    let entries = analyzed_rows files (downloaded_media db) in
    group_entries config (review_entries db entries) entries []

unfoldable pub plans_of : Files → DedupConfig → MediaTables → List Plan
unfolding entry_groups plan_of
plans_of files config db = map plan_of (select is_duplicate_group (entry_groups files config db))

unfoldable pub report_of : Files → DedupConfig → Bool → MediaTables → Report
unfolding entry_groups plans_of errors downloaded_media analyzed_rows
report_of files config apply db =
    let rows = downloaded_media db in
    let groups = select is_duplicate_group (entry_groups files config db) in
    record {
      scanned = length rows;
      analyzed_count = length (analyzed_rows files rows);
      duplicate_groups = length groups;
      duplicate_rows = duplicate_rows groups;
      quality_upgrades = count_by is_upgrade groups;
      removable_files = length (distinct_paths (removable_rows (plans_of files config db)));
      errors = errors files rows;
      ffmpeg_missing =
          exists_by (λ e. (e.row.kind == video) && (length e.fingerprint.frame_phashes == 0))
            (analyzed_rows files rows);
      applied = apply;
    }

-- Every fingerprint is stored, then the duplicates are marked; a file that no row needs any more is
-- removed.
unfoldable pub applied : Files → DedupConfig → MediaTables → List ℕ × MediaTables
unfolding plans_of store_entries apply_plans analyzed_rows downloaded_media
applied files config db =
    apply_plans files (plans_of files config db) []
      (store_entries files (analyzed_rows files (downloaded_media db)) db)

unfoldable pub deduplicate_existing_media : Files → DedupConfig → Bool → MediaTables → Deduplicated
unfolding report_of applied media_path_referenced
deduplicate_existing_media files config apply db = record {
  report = report_of files config apply db;
  tables = if apply then (applied files config db).1 else db;
  unlinked =
      if apply
      then select (λ path. not (media_path_referenced path (applied files config db).1))
          (applied files config db).0
      else [];
}
