-- ===== src/Dedup/Analyze.antt =====
-- The analysis of the downloaded rows, by `deduplicate_existing_media` (ig_monitor/dedup.py).
use ig_anonymous_monitor.Base.{
  ℕ, Bool, true, false, Option, none, some, List, [], ◌∷◌, map, if◌then◌else◌, select,
}
use ig_anonymous_monitor.Store.{Text}
use ig_anonymous_monitor.Media.Tables.{Media, same_option}
use ig_anonymous_monitor.Fingerprint.{MediaFingerprint}

-- The file system, hashlib, Pillow, ffmpeg and json; none stands for an exception. `loads` is given
-- the text of a fingerprint and builds it, and `dumps` is its inverse.
pub record Files : Type 0 where
  pub is_file : ℕ → Bool
  pub sha256_file : ℕ → Option ℕ
  pub fingerprint_file : ℕ → ℕ → Option MediaFingerprint
  pub loads : Text → Option MediaFingerprint
  pub dumps : MediaFingerprint → Text

pub record Entry : Type 0 where
  pub row : Media
  pub digest : ℕ
  pub fingerprint : MediaFingerprint

pub data Analysis : Type 0 where
  file_not_found failed : Media → Analysis
  analyzed : Entry → Analysis

-- The outer none is an exception, the inner one Python's None.
abbrev pub row_fingerprint : Files → Media → Option (Option MediaFingerprint)
row_fingerprint files row = elim row.fingerprint_json [
  | none ↦ some none
  | some [] ↦ some none
  | some (c ∷ text) ↦ elim (files.loads (c ∷ text)) [
    | none ↦ none
    | some fingerprint ↦ some (some fingerprint)
  ]
]

abbrev pub with_fingerprint : Media → ℕ → Option MediaFingerprint → Analysis
with_fingerprint row digest none = Analysis.failed row
with_fingerprint row digest (some fingerprint) =
    Analysis.analyzed (record { row = row; digest = digest; fingerprint = fingerprint })

abbrev pub with_stored : Files → Media → ℕ → ℕ → Option (Option MediaFingerprint) → Analysis
with_stored files row path digest none = Analysis.failed row
with_stored files row path digest (some none) =
    with_fingerprint row digest (files.fingerprint_file path row.kind)
with_stored files row path digest (some (some fingerprint)) =
    with_fingerprint row digest (some fingerprint)

abbrev pub with_digest : Files → Media → ℕ → Option ℕ → Analysis
with_digest files row path none = Analysis.failed row
with_digest files row path (some digest) =
    with_stored files row path digest
      (if same_option row.sha256 digest then row_fingerprint files row else some none)

abbrev pub analyze_at : Files → Media → Option ℕ → Analysis
analyze_at files row none = Analysis.file_not_found row
analyze_at files row (some path) =
    if files.is_file path
    then with_digest files row path (files.sha256_file path)
    else Analysis.file_not_found row

-- Every row that `downloaded_media` returns has a path.
unfoldable pub analyze_row : Files → Media → Analysis
analyze_row files row = analyze_at files row row.local_path

abbrev pub add_entry : Analysis → List Entry → List Entry
add_entry (Analysis.file_not_found row) entries = entries
add_entry (Analysis.failed row) entries = entries
add_entry (Analysis.analyzed entry) entries = entry ∷ entries

unfoldable pub analyzed_rows : Files → List Media → List Entry
unfolding analyze_row
analyzed_rows files [] = []
analyzed_rows files (row ∷ rows) = add_entry (analyze_row files row) (analyzed_rows files rows)

abbrev pub is_error : Analysis → Bool
is_error (Analysis.file_not_found row) = true
is_error (Analysis.failed row) = true
is_error (Analysis.analyzed entry) = false

unfoldable pub errors : Files → List Media → List Analysis
unfolding analyze_row
errors files rows = select is_error (map (analyze_row files) rows)
