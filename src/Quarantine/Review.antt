-- ===== src/Quarantine/Review.antt =====
-- The review of quarantined media: `restore_quarantined_media` and `delete_quarantined_media`
-- (ig_monitor/dedup.py).
use ig_anonymous_monitor.Base.{
  ℕ, Bool, true, false, ◌&&◌, not, Option, none, some, List, ◌==◌, if◌then◌else◌, find_by,
  update_where, is_some,
}
use ig_anonymous_monitor.Store.{Text}
use ig_anonymous_monitor.Media.{media_path_referenced}
use ig_anonymous_monitor.Media.Tables.{
  Media, MediaStatus, is_downloaded, is_quarantined, same_option,
}
use ig_anonymous_monitor.Quarantine.Search.{is_undecided}
use ig_anonymous_monitor.Quarantine.Tables.{Decision, Quarantined, QuarantineTables}

-- `media JOIN media_quarantine WHERE m.id=? AND m.status='quarantined' AND mq.decision='pending'`;
-- `media_id` is the primary key of `media_quarantine`.
abbrev pub join : Option Media → Option Quarantined → Option (Media × Quarantined)
join none q = none
join (some m) none = none
join (some m) (some q) =
    if is_quarantined m.status && is_undecided q.decision then some (m, q) else none

abbrev pub review_row : ℕ → QuarantineTables → Option (Media × Quarantined)
review_row media_id db =
    join (find_by (λ m. m.id == media_id) db.tables.media)
      (find_by (λ q. q.media_id == media_id) db.media_quarantine)

abbrev pub decide : ℕ → ℕ → Decision → List Quarantined → List Quarantined
decide now media_id decision rows =
    update_where (λ q. q.media_id == media_id)
      (λ q. record q { decision = decision; reviewed_at = some now }) rows

-- False, a FileNotFoundError, or True with the database.
pub data Restored : Type 0 where
  not_found missing_file : Restored
  restored : QuarantineTables → Restored

abbrev pub has_file : (ℕ → Bool) → Option ℕ → Bool
has_file is_file none = false
has_file is_file (some path) = is_file path

abbrev pub restore_status : ℕ → ℕ → MediaStatus → QuarantineTables → QuarantineTables
restore_status now media_id original_status db = record {
  tables = record db.tables {
    media =
        update_where (λ m. m.id == media_id)
          (λ m. record m { status = original_status; last_error = none }) db.tables.media;
  };
  media_quarantine = decide now media_id Decision.kept db.media_quarantine;
}

abbrev pub restore_row :
    (ℕ → Bool) → ℕ → ℕ → QuarantineTables → Option (Media × Quarantined) → Restored
restore_row is_file now media_id db none = Restored.not_found
restore_row is_file now media_id db (some (m, q)) =
    if is_downloaded q.original_status && not (has_file is_file m.local_path)
    then Restored.missing_file
    else Restored.restored (restore_status now media_id q.original_status db)

unfoldable pub restore_quarantined_media : (ℕ → Bool) → ℕ → ℕ → QuarantineTables → Restored
restore_quarantined_media is_file now media_id db =
    restore_row is_file now media_id db (review_row media_id db)

-- The database after the transaction, whether the file was there and is removed, and an error of
-- the file system.
pub record Deleted : Type 0 where
  pub was_deleted : Bool
  pub file_deleted : Bool
  pub unlinked : Option ℕ
  pub error : Option Text
  pub db : QuarantineTables

-- `error` is the text 'cross-account-source-contamination-deleted'.
abbrev pub tombstone : Text → Media → Media
tombstone error m = record m {
  status = MediaStatus.deleted;
  local_path = none;
  duplicate_of_id = none;
  last_error = some error;
}

abbrev pub delete_rows : Text → ℕ → ℕ → QuarantineTables → QuarantineTables
delete_rows error now media_id db = record {
  tables = record db.tables {
    media =
        update_where (λ m. same_option m.duplicate_of_id media_id) (tombstone error)
          (update_where (λ m. m.id == media_id) (tombstone error) db.tables.media);
  };
  media_quarantine = decide now media_id Decision.deleted db.media_quarantine;
}

abbrev pub kept_file : QuarantineTables → Deleted
kept_file db = record {
  was_deleted = true;
  file_deleted = false;
  unlinked = none;
  error = none;
  db = db;
}

-- `unlink` is given a path and has the text of an OSError, or none.
abbrev pub remove_file : (ℕ → Bool) → (ℕ → Option Text) → Option ℕ → QuarantineTables → Deleted
remove_file is_file unlink none db = kept_file db
remove_file is_file unlink (some path) db =
    if media_path_referenced path db.tables then kept_file db else record {
      was_deleted = true;
      file_deleted = is_file path;
      unlinked = if is_some (unlink path) then none else some path;
      error = unlink path;
      db = db;
    }

abbrev pub delete_row :
    (ℕ → Bool)
    → (ℕ → Option Text)
    → Text
    → ℕ
    → ℕ
    → QuarantineTables
    → Option (Media × Quarantined)
    → Deleted
delete_row is_file unlink error now media_id db none = record {
  was_deleted = false;
  file_deleted = false;
  unlinked = none;
  error = none;
  db = db;
}
delete_row is_file unlink error now media_id db (some (m, q)) =
    remove_file is_file unlink m.local_path (delete_rows error now media_id db)

unfoldable pub delete_quarantined_media :
    (ℕ → Bool) → (ℕ → Option Text) → Text → ℕ → ℕ → QuarantineTables → Deleted
delete_quarantined_media is_file unlink error now media_id db =
    delete_row is_file unlink error now media_id db (review_row media_id db)
