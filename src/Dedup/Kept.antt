-- ===== src/Dedup/Kept.antt =====
-- What becomes of the rows that no plan marks.
use ig_anonymous_monitor.Base.{
  ℕ, ◌≡◌, Bool, true, false, ◌&&◌, Option, some, List, [], ◌∷◌, ◌==◌, arith, exists_by,
  exists_by-update_where, exists_by-imp,
}
use ig_anonymous_monitor.Store.{Text}
use ig_anonymous_monitor.Media.{
  mark_media_duplicate, store_media_fingerprint, media_path_referenced, downloaded_media,
}
use ig_anonymous_monitor.Media.Tables.{MediaTables, same_option, is_downloaded}
use ig_anonymous_monitor.Fingerprint.{DedupConfig}
use ig_anonymous_monitor.Dedup.{
  Plan, store_entry, store_entries, add_paths, mark_duplicates, apply_plans, plans_of, applied,
}
use ig_anonymous_monitor.Dedup.Analyze.{Files, Entry, analyzed_rows}

-- The row is downloaded, and its file is at the path.
unfoldable pub holds_file : ℕ → ℕ → MediaTables → Bool
holds_file id path db =
    exists_by (λ m. (m.id == id) && same_option m.local_path path && is_downloaded m.status)
      db.media

unfoldable pub has_entry : ℕ → List Entry → Bool
has_entry id = exists_by (λ e. e.row.id == id)

-- One of the plans makes the row a duplicate.
unfoldable pub is_marked : ℕ → List Plan → Bool
unfolding has_entry
is_marked id = exists_by (λ plan. has_entry id plan.duplicates)

store_entry-holds_file :
    (files : Files) (e : Entry) (id path : ℕ) (db : MediaTables)
    → holds_file id path db ≡ true
    → holds_file id path (store_entry files e db) ≡ true
unfolding holds_file store_media_fingerprint
store_entry-holds_file files e id path db h =
    exists_by-update_where _ (λ m. m.id == e.row.id) _ db.media (λ m same kept. kept) h

store_entries-holds_file :
    (files : Files) (es : List Entry) (id path : ℕ) (db : MediaTables)
    → holds_file id path db ≡ true
    → holds_file id path (store_entries files es db) ≡ true
unfolding store_entries
store_entries-holds_file files [] id path db h = h
store_entries-holds_file files (e ∷ es) id path db h =
    store_entries-holds_file files es id path (store_entry files e db)
      (store_entry-holds_file files e id path db h)

mark_media_duplicate-holds_file :
    (media_id canonical_id digest : ℕ) (json : Option Text) (id path : ℕ) (db : MediaTables)
    → (media_id == id) ≡ false
    → holds_file id path db ≡ true
    → holds_file id path (mark_media_duplicate media_id canonical_id digest json db).1 ≡ true
unfolding holds_file mark_media_duplicate
mark_media_duplicate-holds_file media_id canonical_id digest json id path db other h =
    exists_by-update_where _ (λ m. m.id == media_id) _ db.media
      (λ m same kept. absurd (ground (arith))) h

mark_duplicates-holds_file :
    (files : Files) (canonical_id : ℕ) (es : List Entry) (paths : List ℕ) (id path : ℕ)
    (db : MediaTables)
    → has_entry id es ≡ false
    → holds_file id path db ≡ true
    → holds_file id path (mark_duplicates files canonical_id es paths db).1 ≡ true
unfolding mark_duplicates has_entry exists_by
mark_duplicates-holds_file files canonical_id [] paths id path db other h = h
mark_duplicates-holds_file files canonical_id (e ∷ es) paths id path db other h =
    let json = some (files.dumps e.fingerprint) in
    let marked = mark_media_duplicate e.row.id canonical_id e.digest json db in
    mark_duplicates-holds_file files canonical_id es (add_paths marked.0 paths) id path marked.1
      (ground arith)
      (mark_media_duplicate-holds_file e.row.id canonical_id e.digest json id path db (ground arith)
        h)

apply_plans-holds_file :
    (files : Files) (plans : List Plan) (paths : List ℕ) (id path : ℕ) (db : MediaTables)
    → is_marked id plans ≡ false
    → holds_file id path db ≡ true
    → holds_file id path (apply_plans files plans paths db).1 ≡ true
unfolding apply_plans is_marked exists_by
apply_plans-holds_file files [] paths id path db other h = h
apply_plans-holds_file files (plan ∷ plans) paths id path db other h =
    let marked = mark_duplicates files plan.canonical.row.id plan.duplicates paths db in
    apply_plans-holds_file files plans marked.0 id path marked.1 (ground arith) (
      mark_duplicates-holds_file files plan.canonical.row.id plan.duplicates paths id path db
        (ground arith) h)

pub applied-holds_file :
    (files : Files) (config : DedupConfig) (id path : ℕ) (db : MediaTables)
    → is_marked id (plans_of files config db) ≡ false
    → holds_file id path db ≡ true
    → holds_file id path (applied files config db).1 ≡ true
unfolding applied
applied-holds_file files config id path db other h =
    let entries = analyzed_rows files (downloaded_media db) in
    apply_plans-holds_file files (plans_of files config db) [] id path
      (store_entries files entries db) other (store_entries-holds_file files entries id path db h)

pub holds_file-referenced :
    (id path : ℕ) (db : MediaTables)
    → holds_file id path db ≡ true
    → media_path_referenced path db ≡ true
unfolding holds_file media_path_referenced
holds_file-referenced id path db h = exists_by-imp _ _ db.media (λ m k. ground (arith)) h
