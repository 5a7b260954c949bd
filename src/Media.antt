-- ===== src/Media.antt =====
-- The rows of `media` and the operations of ig_monitor/db.py that end a download: downloaded, failed,
-- found to be a duplicate, or replaced by a better copy.
pub mod Tables
pub mod Flat
use ig_anonymous_monitor.Media.Tables.{
  Media, MediaStatus, MediaTables, Membership, MembershipKey, Ownership, deleted, downloaded,
  duplicate, failed, image, is_downloaded, is_quarantined, other_status, pending, quarantined,
  same_option, unspecified, verified, video,
}
use ig_anonymous_monitor.Base.{
  ℕ, ◌+◌, ◌*◌, ◌^◌, Bool, true, false, ◌&&◌, ◌||◌, not, Option, none, some, List, [], ◌∷◌, ◌++◌,
  ltb, ◌==◌, if◌then◌else◌, min, coalesce, select, find_by, exists_by, update_where, delete_where,
  is_some,
}
use ig_anonymous_monitor.Store.{Text}
use ig_anonymous_monitor.Cooldown.{SourceName}

unfoldable pub mark_media_downloaded :
    ℕ
    → ℕ
    → ℕ
    → ℕ
    → Option Text
    → Option ℕ
    → Option ℕ
    → Option ℕ
    → Option ℕ
    → Option ℕ
    → MediaTables
    → MediaTables
mark_media_downloaded clock media_id local_path sha256 fingerprint_json width height file_size
      video_duration video_bitrate db =
    record db {
      media =
          update_where (λ m. m.id == media_id)
            (λ m. record m {
              status = MediaStatus.downloaded;
              local_path = some local_path;
              sha256 = some sha256;
              fingerprint_json = fingerprint_json;
              width = coalesce width m.width;
              height = coalesce height m.height;
              file_size = file_size;
              video_duration = video_duration;
              video_bitrate = video_bitrate;
              duplicate_of_id = none;
              downloaded_at = some clock;
              last_error = none;
              next_retry_at = none;
            })
            db.media;
    }

-- `min(24, 2 ** min(row["attempts"], 5))`
unfoldable pub retry_hours : ℕ → ℕ
retry_hours attempts = min 24 (2 ^ min attempts 5)

unfoldable pub mark_media_failed : ℕ → ℕ → Text → MediaTables → MediaTables
unfolding retry_hours
mark_media_failed now media_id error db = elim (find_by (λ m. m.id == media_id) db.media) [
  | none ↦ db
  | some row ↦ record db {
    media =
        update_where (λ m. m.id == media_id)
          (λ m. record m {
            status = MediaStatus.failed;
            attempts = m.attempts + 1;
            last_error = some error;
            last_attempt_at = some now;
            next_retry_at = some (now + retry_hours row.attempts * 3600);
          })
          db.media;
  }
]

unfoldable pub downloaded_by_hash : ℕ → ℕ → MediaTables → Option Media
downloaded_by_hash account_id sha256 db =
    find_by
      (λ m.
        (m.account_id == account_id)
        && same_option m.sha256 sha256
        && is_downloaded m.status
        && not (is_some m.duplicate_of_id))
      db.media

unfoldable pub canonical_media : ℕ → ℕ → Option ℕ → MediaTables → List Media
canonical_media account_id kind exclude_id db =
    select
      (λ m.
        (m.account_id == account_id)
        && (m.kind == kind)
        && is_downloaded m.status
        && not (is_some m.duplicate_of_id)
        && not (same_option exclude_id m.id))
      db.media

-- `ORDER BY account_id,id`, of rows in the order of their ids
unfoldable pub insert_row : Media → List Media → List Media
insert_row m [] = m ∷ []
insert_row m (n ∷ rows) =
    let rest = insert_row m rows in if ltb n.account_id m.account_id then n ∷ rest else m ∷ n ∷ rows

unfoldable pub by_account : List Media → List Media
unfolding insert_row
by_account [] = []
by_account (m ∷ rows) = insert_row m (by_account rows)

unfoldable pub downloaded_media : MediaTables → List Media
unfolding by_account
downloaded_media db =
    by_account (select (λ m. is_downloaded m.status && is_some m.local_path) db.media)

unfoldable pub store_media_fingerprint :
    ℕ → ℕ → Text → ℕ → ℕ → ℕ → Option ℕ → Option ℕ → MediaTables → MediaTables
store_media_fingerprint media_id sha256 fingerprint_json width height file_size video_duration
      video_bitrate db =
    record db {
      media =
          update_where (λ m. m.id == media_id)
            (λ m. record m {
              sha256 = some sha256;
              fingerprint_json = some fingerprint_json;
              width = some width;
              height = some height;
              file_size = some file_size;
              video_duration = video_duration;
              video_bitrate = video_bitrate;
            })
            db.media;
    }

-- The sources of `old_id` are given to `new_id`: `INSERT OR IGNORE .. SELECT`, then the DELETE.
unfoldable pub copy_sources : ℕ → List (ℕ × ℕ) → List (ℕ × ℕ) → List (ℕ × ℕ)
copy_sources new_id [] sources = sources
copy_sources new_id ((id, category) ∷ rows) sources = copy_sources new_id rows (
    if exists_by (λ (s : ℕ × ℕ). (s.0 == new_id) && (s.1 == category)) sources
    then sources
    else sources ++ (new_id, category) ∷ [])

unfoldable pub move_sources : ℕ → ℕ → List (ℕ × ℕ) → List (ℕ × ℕ)
unfolding copy_sources
move_sources new_id old_id sources =
    delete_where (λ (s : ℕ × ℕ). s.0 == old_id)
      (copy_sources new_id (select (λ (s : ℕ × ℕ). s.0 == old_id) sources) sources)

abbrev pub move_memberships : ℕ → ℕ → List Membership → List Membership
move_memberships new_id old_id rows =
    update_where (λ m. m.media_id == old_id) (λ m. record m { media_id = new_id }) rows

-- `SELECT DISTINCT local_path .. WHERE local_path IS NOT NULL`
unfoldable pub distinct_paths : List Media → List ℕ
distinct_paths [] = []
distinct_paths (m ∷ media) =
    let rest = distinct_paths media in
    elim m.local_path [
      | none ↦ rest
      | some path ↦ if exists_by (λ p. p == path) rest then rest else path ∷ rest
    ]

-- The paths that are returned are of files that no row needs any more.
unfoldable pub mark_media_duplicate : ℕ → ℕ → ℕ → Option Text → MediaTables → List ℕ × MediaTables
unfolding distinct_paths move_sources
mark_media_duplicate media_id canonical_id sha256 fingerprint_json db = (
  distinct_paths (select (λ m. m.id == media_id) db.media),
  record {
    media_sources = move_sources canonical_id media_id db.media_sources;
    media_memberships = move_memberships canonical_id media_id db.media_memberships;
    media =
        update_where (λ m. m.id == media_id)
          (λ m. record m {
            status = MediaStatus.duplicate;
            duplicate_of_id = some canonical_id;
            sha256 = some sha256;
            fingerprint_json = coalesce fingerprint_json m.fingerprint_json;
            local_path = none;
            last_error = none;
          })
          db.media;
  },
)

abbrev pub to_duplicate_of : ℕ → Media → Media
to_duplicate_of new_id m = record m {
  status = MediaStatus.duplicate;
  duplicate_of_id = some new_id;
  local_path = none;
  last_error = none;
}

-- The duplicates of `old_id` follow it to `new_id`.
unfoldable pub promote_media : ℕ → ℕ → List Media → List Media
promote_media new_id old_id media =
    update_where (λ m. m.id == old_id) (to_duplicate_of new_id)
      (update_where (λ m. same_option m.duplicate_of_id old_id)
        (λ m. record m { duplicate_of_id = some new_id }) media)

unfoldable pub promote_canonical : ℕ → ℕ → MediaTables → List ℕ × MediaTables
unfolding distinct_paths move_sources promote_media
promote_canonical new_id old_id db = (
  distinct_paths (select (λ m. (m.id == old_id) || same_option m.duplicate_of_id old_id) db.media),
  record {
    media_sources = move_sources new_id old_id db.media_sources;
    media_memberships = move_memberships new_id old_id db.media_memberships;
    media = promote_media new_id old_id db.media;
  },
)

unfoldable pub media_path_referenced : ℕ → MediaTables → Bool
media_path_referenced local_path db =
    exists_by
      (λ m.
        same_option m.local_path local_path && (is_downloaded m.status || is_quarantined m.status))
      db.media
