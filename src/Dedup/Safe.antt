-- ===== src/Dedup/Safe.antt =====
-- What deduplication leaves of the groups.
use ig_anonymous_monitor.Base.{
  ℕ, ◌≤◌, ◌≡◌, refl, sym, ◌∙◌, subst, Bool, true, false, ◌&&◌, not, Option, none, some, List, [],
  ◌∷◌, ◌==◌, arith, Bool-cases, inl, inr, In, select, count_by, exists_by, is_some, All-count_by,
  All-In, exists_by-In, eq_self, count_by-eq_zero, All-every_In, select-holds, In-select,
  In-append_left, In-append_right, ==→eq,
}
use ig_anonymous_monitor.Media.{by_account, downloaded_media, media_path_referenced}
use ig_anonymous_monitor.Media.Tables.{Media, MediaTables, is_downloaded, same_option}
use ig_anonymous_monitor.Fingerprint.{DedupConfig}
use ig_anonymous_monitor.Dedup.{entry_groups, plans_of, applied, deduplicate_existing_media}
use ig_anonymous_monitor.Dedup.Grouping.{Group, entries_of, canonical_of, review_entries}
use ig_anonymous_monitor.Dedup.Analyze.{Files, Entry, analyzed_rows}
use ig_anonymous_monitor.Dedup.Groups.{members, group_entries-partitions}
use ig_anonymous_monitor.Dedup.Best.{best_from-In}
use ig_anonymous_monitor.Dedup.Kept.{
  holds_file, is_marked, applied-holds_file, holds_file-referenced,
}
use ig_anonymous_monitor.Dedup.Unique.{
  entries-count, canonical-marks, analyzed_rows-count, by_account-count,
}

-- The row is downloaded, with a file at its path, in the tables.
abbrev keeps_at : ℕ → Option ℕ → MediaTables → Bool
keeps_at id none db = false
keeps_at id (some path) db = holds_file id path db

abbrev pub keeps_file : Media → MediaTables → Bool
keeps_file row db = keeps_at row.id row.local_path db

-- Ids are the primary key.
abbrev pub HasUniqueIds : MediaTables → Type 0
HasUniqueIds db = (id : ℕ) → count_by (λ m. m.id == id) db.media ≤ 1

keeps_at-In :
    (m : Media) (path : Option ℕ) (db : MediaTables)
    → m.local_path ≡ path
    → In m db.media
    → is_downloaded m.status && is_some path ≡ true
    → keeps_at m.id path db ≡ true
unfolding holds_file
keeps_at-In m none db e there h = absurd (ground (arith))
keeps_at-In m (some path) db e there h =
    let here : same_option m.local_path path ≡ true = rw e (eq_self path) in
    exists_by-In _ db.media there (rw (eq_self m.id, here) (ground (arith)))

-- Every row that is analysed is downloaded, with a file.
entries-keeps :
    (files : Files) (db : MediaTables)
    → count_by (λ e. not (keeps_file e.row db)) (analyzed_rows files (downloaded_media db)) ≡ 0
unfolding downloaded_media
entries-keeps files db =
    let chosen = λ (m : Media). is_downloaded m.status && is_some m.local_path in
    let lost = λ (m : Media). not (keeps_file m db) in
    let rows = select chosen db.media in
    let kept =
      All-every_In (λ m. lost m ≡ false) rows
        (λ m there.
          let k =
            keeps_at-In m m.local_path db refl (In-select chosen db.media m there)
              (All-In (λ m. chosen m ≡ true) rows (select-holds chosen db.media) there) in
          rw k refl) in
    omega (
      arith,
      analyzed_rows-count files lost (by_account rows),
      by_account-count lost rows,
      count_by-eq_zero lost rows kept,
    )

not-false : (b : Bool) → not b ≡ false → b ≡ true
not-false true h = refl
not-false false h = absurd (cc)

members-In :
    (e : Entry) (g : Group) (groups : List Group)
    → In g groups
    → In e (entries_of g)
    → In e (members groups)
unfolding members
members-In e g [] m h = elim m [ ]
members-In e g (k ∷ groups) (inl same) h =
    In-append_left (entries_of k) (members groups) e (subst (λ z. In e (entries_of z)) same h)
members-In e g (k ∷ groups) (inr m) h =
    In-append_right (entries_of k) (members groups) e (members-In e g groups m h)

canonical-keeps :
    (files : Files) (config : DedupConfig) (db : MediaTables) (g : Group)
    → In g (entry_groups files config db)
    → keeps_file (canonical_of g).row db ≡ true
unfolding entry_groups
canonical-keeps files config db g there =
    let entries = analyzed_rows files (downloaded_media db) in
    let lost = λ (e : Entry). not (keeps_file e.row db) in
    let groups = entry_groups files config db in
    let never =
      group_entries-partitions config (review_entries db entries) lost entries
      ∙ entries-keeps files db in
    let e =
      All-In (λ e. lost e ≡ false) (members groups) (All-count_by lost (members groups) never)
        (members-In (canonical_of g) g groups there (best_from-In g.sample g.others)) in
    not-false (keeps_file (canonical_of g).row db) e

canonical-unmarked :
    (files : Files) (config : DedupConfig) (db : MediaTables) (g : Group)
    → HasUniqueIds db
    → In g (entry_groups files config db)
    → is_marked (canonical_of g).row.id (plans_of files config db) ≡ false
unfolding entry_groups plans_of
canonical-unmarked files config db g unique there =
    let entries = analyzed_rows files (downloaded_media db) in
    let id = (canonical_of g).row.id in
    canonical-marks g (entry_groups files config db) there (
      omega (
        arith,
        group_entries-partitions config (review_entries db entries) (λ e. e.row.id == id) entries,
        entries-count files (λ m. m.id == id) db,
        unique id,
      ))

unlinked-unreferenced :
    (path : ℕ) (paths : List ℕ) (db : MediaTables)
    → media_path_referenced path db ≡ true
    → exists_by (λ p. p == path) (select (λ p. not (media_path_referenced p db)) paths) ≡ false
unfolding exists_by select
unlinked-unreferenced path [] db h = refl
unlinked-unreferenced path (p ∷ paths) db h = elim (Bool-cases (p == path)) [
  | inl e ↦
      let used = subst (λ z. media_path_referenced z db ≡ true) (sym (==→eq p path e)) h in
      rw used (unlinked-unreferenced path paths db h)
  | inr e ↦ elim (Bool-cases (media_path_referenced p db)) [
    | inl used ↦ rw used (unlinked-unreferenced path paths db h)
    | inr free ↦ rw (free, e) (unlinked-unreferenced path paths db h)
  ]
]

keeps_at-path :
    (id : ℕ) (path : Option ℕ) (db : MediaTables)
    → keeps_at id path db ≡ true
    → (p : ℕ) × (path ≡ some p) × (holds_file id p db ≡ true)
keeps_at-path id none db h = absurd (cc)
keeps_at-path id (some p) db h = (p, refl, h)

deduplicate-holds_file :
    (files : Files) (config : DedupConfig) (apply : Bool) (id path : ℕ) (db : MediaTables)
    → is_marked id (plans_of files config db) ≡ false
    → holds_file id path db ≡ true
    → let after = deduplicate_existing_media files config apply db in
      (holds_file id path after.tables ≡ true) × (exists_by (λ p. p == path) after.unlinked ≡ false)
unfolding deduplicate_existing_media exists_by
deduplicate-holds_file files config false id path db free h = (h, refl)
deduplicate-holds_file files config true id path db free h =
    let kept = applied-holds_file files config id path db free h in
    (
      kept,
      unlinked-unreferenced path (applied files config db).0 (applied files config db).1
          (holds_file-referenced id path (applied files config db).1 kept),
    )

-- Where row ids are unique, deduplication leaves the canonical copy of every group, the groups of
-- one included, downloaded with its file at its path, and does not remove that file.
pub deduplicate_existing_media-keeps_canonical :
    (files : Files) (config : DedupConfig) (apply : Bool) (db : MediaTables) (g : Group)
    → HasUniqueIds db
    → In g (entry_groups files config db)
    → let after = deduplicate_existing_media files config apply db in
      (path : ℕ) × ((canonical_of g).row.local_path ≡ some path)
      × (holds_file (canonical_of g).row.id path after.tables ≡ true)
      × (exists_by (λ p. p == path) after.unlinked ≡ false)
deduplicate_existing_media-keeps_canonical files config apply db g unique there =
    let row = (canonical_of g).row in
    let (path, same, held) =
      keeps_at-path row.id row.local_path db (canonical-keeps files config db g there) in
    let (kept, safe) =
      deduplicate-holds_file files config apply row.id path db
        (canonical-unmarked files config db g unique there) held in
    (path, same, kept, safe)
