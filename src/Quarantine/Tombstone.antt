-- ===== src/Quarantine/Tombstone.antt =====
-- A medium after its deletion.
use ig_anonymous_monitor.Base.{
  ℕ, ◌≡◌, refl, ap, ◌∙◌, Bool, true, false, Option, none, some, length, ◌==◌, Bool-cases,
  Option-cases, inl, inr, All, All-updated, All-update_where, All-find_by, find_by, find_by-holds,
  update_where, length-update_where,
}
use ig_anonymous_monitor.Store.{Text}
use ig_anonymous_monitor.Media.{media_path_referenced}
use ig_anonymous_monitor.Media.Tables.{Media, MediaStatus, same_option}
use ig_anonymous_monitor.Quarantine.Tables.{Quarantined, QuarantineTables}
use ig_anonymous_monitor.Quarantine.Review.{
  Restored, join, review_row, restore_quarantined_media, tombstone, delete_rows, remove_file,
  delete_row, delete_quarantined_media, restore_row,
}

-- The rows of the medium are deleted, and have no file.
abbrev pub IsGone : ℕ → Media → Type 0
IsGone id m = (m.id == id) ≡ true → (m.status ≡ MediaStatus.deleted) × (m.local_path ≡ none)

delete_rows-IsGone :
    (error : Text) (now id : ℕ) (db : QuarantineTables)
    → All (IsGone id) (delete_rows error now id db).tables.media
delete_rows-IsGone error now id db =
    let first = update_where (λ m. m.id == id) (tombstone error) db.tables.media in
    All-update_where (IsGone id) (λ m. same_option m.duplicate_of_id id) (tombstone error) first
      (λ m h gone own. (refl, refl))
      (All-updated (IsGone id) (λ m. m.id == id) (tombstone error) db.tables.media
        (λ m h own. (refl, refl)) (λ m h own. absurd (cc)))

-- No row is a duplicate of it any more.
delete_rows-left :
    (error : Text) (now id : ℕ) (db : QuarantineTables)
    → All (λ m. same_option m.duplicate_of_id id ≡ false) (delete_rows error now id db).tables.media
delete_rows-left error now id db =
    All-updated (λ m. same_option m.duplicate_of_id id ≡ false)
      (λ m. same_option m.duplicate_of_id id) (tombstone error)
      (update_where (λ m. m.id == id) (tombstone error) db.tables.media) (λ m h. refl) (λ m h. h)

join-deleted :
    (m : Media) (q : Option Quarantined) → m.status ≡ MediaStatus.deleted → join (some m) q ≡ none
join-deleted m none e = refl
join-deleted m (some q) e = rw (e, join) refl

gone-review_row :
    (id : ℕ) (db : QuarantineTables) → All (IsGone id) db.tables.media → review_row id db ≡ none
gone-review_row id db gone = elim (Option-cases (find_by (λ m. m.id == id) db.tables.media)) [
  | inl missing ↦ rw missing refl
  | inr (m, found) ↦
      let own = find_by-holds (λ m. m.id == id) db.tables.media found in
      let (status, path) =
        All-find_by (IsGone id) (λ m. m.id == id) db.tables.media gone found own in
      ap (λ z. join z (find_by (λ q. q.media_id == id) db.media_quarantine)) found
      ∙ join-deleted m (find_by (λ q. q.media_id == id) db.media_quarantine) status
]

remove_file-db :
    (is_file : ℕ → Bool) (unlink : ℕ → Option Text) (path : Option ℕ) (db : QuarantineTables)
    → (remove_file is_file unlink path db).db ≡ db
remove_file-db is_file unlink none db = refl
remove_file-db is_file unlink (some path) db =
    elim (Bool-cases (media_path_referenced path db.tables)) [
      | inl used ↦ rw used refl
      | inr free ↦ rw free refl
    ]

deleted-db :
    (is_file : ℕ → Bool) (unlink : ℕ → Option Text) (error : Text) (now id : ℕ)
    (db : QuarantineTables)
    → (delete_quarantined_media is_file unlink error now id db).was_deleted ≡ true
    → (delete_quarantined_media is_file unlink error now id db).db ≡ delete_rows error now id db
unfolding delete_quarantined_media
deleted-db is_file unlink error now id db h = elim (Option-cases (review_row id db)) [
  | inl missing ↦ absurd (
      let stuck = ap (λ z. (delete_row is_file unlink error now id db z).was_deleted) missing in cc)
  | inr ((m, q), found) ↦
      ap (λ z. (delete_row is_file unlink error now id db z).db) found
      ∙ remove_file-db is_file unlink m.local_path (delete_rows error now id db)
]

refused :
    (is_file : ℕ → Bool) (unlink : ℕ → Option Text) (error : Text) (now id : ℕ)
    (db : QuarantineTables)
    → review_row id db ≡ none
    → (restore_quarantined_media is_file now id db ≡ Restored.not_found)
      × ((delete_quarantined_media is_file unlink error now id db).was_deleted ≡ false)
unfolding restore_quarantined_media delete_quarantined_media
refused is_file unlink error now id db h = (
  ap (restore_row is_file now id db) h,
  ap (λ z. (delete_row is_file unlink error now id db z).was_deleted) h,
)

-- After a medium has been deleted, its rows are there, deleted and without a file, as many rows are
-- in the table as before, none is a duplicate of it, and it can be neither restored nor deleted again.
pub delete_quarantined_media-is_final :
    (is_file : ℕ → Bool) (unlink : ℕ → Option Text) (error : Text) (now id : ℕ)
    (db : QuarantineTables)
    → let deleted = delete_quarantined_media is_file unlink error now id db in
      deleted.was_deleted ≡ true
      → All (IsGone id) deleted.db.tables.media
        × All (λ m. same_option m.duplicate_of_id id ≡ false) deleted.db.tables.media
        × (length deleted.db.tables.media ≡ length db.tables.media)
        × (restore_quarantined_media is_file now id deleted.db ≡ Restored.not_found)
        × ((delete_quarantined_media is_file unlink error now id deleted.db).was_deleted ≡ false)
delete_quarantined_media-is_final is_file unlink error now id db h =
    let after = delete_rows error now id db in
    let gone = delete_rows-IsGone error now id db in
    let first = update_where (λ m. m.id == id) (tombstone error) db.tables.media in
    let as_many =
      length-update_where (λ m. same_option m.duplicate_of_id id) (tombstone error) first
      ∙ length-update_where (λ m. m.id == id) (tombstone error) db.tables.media in
    rw (deleted-db is_file unlink error now id db h) (
      gone,
      delete_rows-left error now id db,
      as_many,
      (refused is_file unlink error now id after (gone-review_row id after gone)).0,
      (refused is_file unlink error now id after (gone-review_row id after gone)).1,
    )
