-- ===== src/Dedup/Grouping.antt =====
-- The groups of copies, by `deduplicate_existing_media` (ig_monitor/dedup.py).
use ig_anonymous_monitor.Dedup.Analyze.{Entry}
use ig_anonymous_monitor.Base.{
  ℕ, Bool, ◌&&◌, ◌||◌, not, List, [], ◌∷◌, ◌++◌, ◌==◌, if◌then◌else◌, min, select, exists_by,
}
use ig_anonymous_monitor.Media.Tables.{MediaTables}
use ig_anonymous_monitor.Memberships.{media_requires_review}
use ig_anonymous_monitor.Fingerprint.{DedupConfig, is_similar, quality_rank, exceeds}

-- `(row["account_id"], row["kind"], digest)`
abbrev pub same_content : Entry → Entry → Bool
same_content first second =
    (first.row.account_id == second.row.account_id)
    && (first.row.kind == second.row.kind)
    && (first.digest == second.digest)

-- The entries whose content is protected: those that need a review.
abbrev pub review_entries : MediaTables → List Entry → List Entry
review_entries db entries = select (λ e. media_requires_review e.row.id db) entries

unfoldable pub is_protected : List Entry → Entry → Bool
is_protected protected entry = exists_by (same_content entry) protected

-- A group has a first entry, which it is compared by.
pub record Group : Type 0 where
  pub sample : Entry
  pub others : List Entry

abbrev pub entries_of : Group → List Entry
entries_of group = group.sample ∷ group.others

unfoldable pub exact_only : List Entry → Entry → Group → Bool
unfolding is_protected
exact_only protected entry group =
    is_protected protected entry || exists_by (is_protected protected) (entries_of group)

unfoldable pub belongs : DedupConfig → List Entry → Entry → Group → Bool
unfolding exact_only
belongs config protected entry group =
    (entry.row.account_id == group.sample.row.account_id)
    && (entry.row.kind == group.sample.row.kind)
    && ((entry.digest == group.sample.digest)
        || (not (exact_only protected entry group)
            && config.enabled
            && is_similar entry.fingerprint group.sample.fingerprint config))

abbrev pub add_member : Entry → Group → Group
add_member entry group = record group { others = group.others ++ entry ∷ [] }

-- Into the first group that it belongs to, or one of its own.
unfoldable pub place : DedupConfig → List Entry → Entry → List Group → List Group
unfolding belongs
place config protected entry [] = record { sample = entry; others = [] } ∷ []
place config protected entry (group ∷ groups) =
    let rest = place config protected entry groups in
    if belongs config protected entry group then add_member entry group ∷ groups else group ∷ rest

unfoldable pub group_entries : DedupConfig → List Entry → List Entry → List Group → List Group
unfolding place
group_entries config protected [] groups = groups
group_entries config protected (entry ∷ entries) groups =
    group_entries config protected entries (place config protected entry groups)

unfoldable pub entry_exceeds : Entry → Entry → Bool
entry_exceeds first second =
    exceeds (quality_rank first.fingerprint first.row.id)
      (quality_rank second.fingerprint second.row.id)

-- `max(group, key=..)`: the first of the best.
unfoldable pub best_from : Entry → List Entry → Entry
unfolding entry_exceeds
best_from best [] = best
best_from best (entry ∷ entries) =
    best_from (if entry_exceeds entry best then entry else best) entries

abbrev pub canonical_of : Group → Entry
canonical_of group = best_from group.sample group.others

unfoldable pub min_id : ℕ → List Entry → ℕ
min_id id [] = id
min_id id (entry ∷ entries) = min_id (min id entry.row.id) entries
