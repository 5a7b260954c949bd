-- ===== src/Quarantine/Search.antt =====
-- The search for media that many accounts share: by hash, by URL and by frames (ig_monitor/dedup.py).
use ig_anonymous_monitor.Quarantine.Tables.{Decision, QuarantineTables}
use ig_anonymous_monitor.Base.{
  ℕ, Bool, true, false, ◌&&◌, not, Option, none, some, List, [], ◌∷◌, ◌++◌, map, length, leb, ◌==◌,
  if◌then◌else◌, select, exists_by,
}
use ig_anonymous_monitor.Media.{by_account}
use ig_anonymous_monitor.Media.Tables.{Media, MediaStatus, image, video, is_downloaded}
use ig_anonymous_monitor.Fingerprint.{MediaFingerprint, DedupConfig, is_similar}
use ig_anonymous_monitor.Dedup.Analyze.{Files, row_fingerprint}
use ig_anonymous_monitor.Quarantine.Merge.{Signal, Candidate}

-- The kinds that may be asked for; another is a ValueError.
pub data KindFilter : Type 0 where
  only_video only_image all_kinds other_kind : KindFilter

abbrev pub wanted_kind : KindFilter → ℕ → Bool
wanted_kind KindFilter.only_video kind = kind == video
wanted_kind KindFilter.only_image kind = kind == image
wanted_kind KindFilter.all_kinds kind = true
wanted_kind KindFilter.other_kind kind = false

abbrev pub may_be_quarantined : MediaStatus → Bool
may_be_quarantined MediaStatus.pending = true
may_be_quarantined MediaStatus.failed = true
may_be_quarantined MediaStatus.downloaded = true
may_be_quarantined MediaStatus.duplicate = true
may_be_quarantined _ = false

abbrev pub is_kept : Decision → Bool
is_kept Decision.kept = true
is_kept _ = false

abbrev pub is_undecided : Decision → Bool
is_undecided Decision.pending = true
is_undecided _ = false

abbrev pub or_at : Option ℕ → ℕ → ℕ
or_at none t = t
or_at (some s) t = s

abbrev pub since_then : Option ℕ → Media → Bool
since_then none m = true
since_then (some since) m = leb since (or_at m.downloaded_at m.discovered_at)

unfoldable pub candidate_rows : KindFilter → Option ℕ → QuarantineTables → List Media
unfolding by_account
candidate_rows kind since db = by_account (
    select
      (λ m.
        may_be_quarantined m.status
        && not (exists_by (λ q. (q.media_id == m.id) && is_kept q.decision) db.media_quarantine)
        && wanted_kind kind m.kind
        && since_then since m)
      db.tables.media)

-- `by_key.setdefault(key, []).append(row)`
unfoldable pub file_under : ℕ → Media → List (ℕ × List Media) → List (ℕ × List Media)
file_under key row [] = (key, row ∷ []) ∷ []
file_under key row ((k, rows) ∷ groups) =
    let rest = file_under key row groups in
    if k == key then (k, rows ++ row ∷ []) ∷ groups else (k, rows) ∷ rest

abbrev pub file_by_hash : Option ℕ → Media → List (ℕ × List Media) → List (ℕ × List Media)
file_by_hash none row groups = groups
file_by_hash (some hash) row groups =
    if is_downloaded row.status then file_under hash row groups else groups

unfoldable pub by_hash : List Media → List (ℕ × List Media) → List (ℕ × List Media)
unfolding file_under
by_hash [] groups = groups
by_hash (row ∷ rows) groups = by_hash rows (file_by_hash row.sha256 row groups)

unfoldable pub by_url : List Media → List (ℕ × List Media) → List (ℕ × List Media)
unfolding file_under
by_url [] groups = groups
by_url (row ∷ rows) groups = by_url rows (file_under row.url row groups)

-- `{row["account_id"] for row in group}`
unfoldable pub distinct_accounts : List Media → List ℕ
distinct_accounts [] = []
distinct_accounts (m ∷ rows) =
    let rest = distinct_accounts rows in
    if exists_by (λ a. a == m.account_id) rest then rest else m.account_id ∷ rest

abbrev pub is_shared : ℕ → List Media → Bool
is_shared min_accounts rows = leb min_accounts (length (distinct_accounts rows))

unfoldable pub candidates_of : Signal → ℕ → List (ℕ × List Media) → List Candidate
unfolding distinct_accounts
candidates_of signal min_accounts [] = []
candidates_of signal min_accounts ((key, rows) ∷ groups) =
    let rest = candidates_of signal min_accounts groups in
    if is_shared min_accounts rows
    then record { signal = signal; value = key; rows = rows } ∷ rest
    else rest

-- The fingerprint with frames that is stored of a row; one that cannot be read counts as none.
abbrev pub with_frames : Option (Option MediaFingerprint) → Option MediaFingerprint
with_frames none = none
with_frames (some none) = none
with_frames (some (some fingerprint)) =
    if length fingerprint.frame_phashes == 0 then none else some fingerprint

abbrev pub is_stored_video : Media → Bool
is_stored_video row = (row.kind == video) && is_downloaded row.status

abbrev pub add_fingerprint :
    Media
    → Option MediaFingerprint
    → List (Media × MediaFingerprint)
    → List (Media × MediaFingerprint)
add_fingerprint row none rows = rows
add_fingerprint row (some fingerprint) rows = (row, fingerprint) ∷ rows

unfoldable pub fingerprint_rows : Files → List Media → List (Media × MediaFingerprint)
fingerprint_rows files [] = []
fingerprint_rows files (row ∷ rows) =
    let rest = fingerprint_rows files rows in
    if is_stored_video row
    then add_fingerprint row (with_frames (row_fingerprint files row)) rest
    else rest

-- A group with the fingerprint of its first row.
unfoldable pub place_similar :
    DedupConfig
    → Media
    → MediaFingerprint
    → List (MediaFingerprint × List Media)
    → List (MediaFingerprint × List Media)
place_similar dedup row fingerprint [] = (fingerprint, row ∷ []) ∷ []
place_similar dedup row fingerprint ((sample, rows) ∷ groups) =
    let rest = place_similar dedup row fingerprint groups in
    if is_similar sample fingerprint dedup
    then (sample, rows ++ row ∷ []) ∷ groups
    else (sample, rows) ∷ rest

unfoldable pub perceptual_groups :
    DedupConfig
    → List (Media × MediaFingerprint)
    → List (MediaFingerprint × List Media)
    → List (MediaFingerprint × List Media)
unfolding place_similar
perceptual_groups dedup [] groups = groups
perceptual_groups dedup ((row, fingerprint) ∷ rows) groups =
    perceptual_groups dedup rows (place_similar dedup row fingerprint groups)

-- The hash of the ids is a parameter, `signature`.
unfoldable pub perceptual_candidates :
    (List ℕ → ℕ) → ℕ → List (MediaFingerprint × List Media) → List Candidate
unfolding distinct_accounts
perceptual_candidates signature min_accounts [] = []
perceptual_candidates signature min_accounts ((sample, rows) ∷ groups) =
    let rest = perceptual_candidates signature min_accounts groups in
    if is_shared min_accounts rows
    then record {
      signal = Signal.perceptual;
      value = signature (map (λ m. m.id) rows);
      rows = rows;
    }
      ∷ rest
    else rest

abbrev pub looks_at_videos : KindFilter → Bool
looks_at_videos KindFilter.only_video = true
looks_at_videos KindFilter.all_kinds = true
looks_at_videos _ = false

-- `dedup` is none where the caller gives no configuration.
abbrev pub perceptual_part :
    Files → (List ℕ → ℕ) → ℕ → KindFilter → Option DedupConfig → List Media → List Candidate
perceptual_part files signature min_accounts kind none rows = []
perceptual_part files signature min_accounts kind (some dedup) rows =
    if dedup.enabled && looks_at_videos kind
    then perceptual_candidates signature min_accounts
        (perceptual_groups dedup (fingerprint_rows files rows) [])
    else []

unfoldable pub candidate_groups :
    Files → (List ℕ → ℕ) → ℕ → KindFilter → Option DedupConfig → List Media → List Candidate
unfolding candidates_of by_hash by_url perceptual_candidates perceptual_groups fingerprint_rows
candidate_groups files signature min_accounts kind dedup rows =
    candidates_of Signal.sha256 min_accounts (by_hash rows [])
    ++ (candidates_of Signal.url min_accounts (by_url rows [])
        ++ perceptual_part files signature min_accounts kind dedup rows)
