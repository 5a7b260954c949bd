-- ===== src/Examples/Dedup.antt =====
-- Copies of a picture: in the groups of one account, shared between accounts, and under review.
use ig_anonymous_monitor.Base.{
  ℕ, ◌≡◌, refl, inl, true, false, Option, none, some, [], ◌∷◌, arith, In, All, count_by, exists_by,
  select, update_where, delete_where, find_by, ◌==◌, Bool-cases, inr, ==→eq,
}
use mathlib.Core.Option.{some-injective}
use ig_anonymous_monitor.Cooldown.{SourceName}
use ig_anonymous_monitor.Media.{
  by_account, insert_row, store_media_fingerprint, mark_media_duplicate, move_sources, copy_sources,
  distinct_paths, media_path_referenced,
}
use ig_anonymous_monitor.Media.Tables.{MediaTables, Ownership, image}
use ig_anonymous_monitor.Memberships.{
  follow, Item, pointer, canonical_membership_target, media_requires_review,
  record_media_membership,
}
use ig_anonymous_monitor.Memberships.Target.{
  IsRanked, canonical_membership_target-returns, canonical_membership_target-is_canonical,
}
use ig_anonymous_monitor.Memberships.Review.{record_media_membership-requires_review}
use ig_anonymous_monitor.Fingerprint.{
  MediaFingerprint, DedupConfig, hash_distance, is_similar, same_aspect_ratio, bit_count_from,
  frames_within, exceeds, quality_rank,
}
use ig_anonymous_monitor.Fingerprint.Symmetry.{is_similar_comm}
use ig_anonymous_monitor.Dedup.{
  entry_groups, deduplicate_existing_media, plan_of, plans_of, applied, store_entries, apply_plans,
  mark_duplicates, add_paths,
}
use ig_anonymous_monitor.Dedup.Grouping.{
  Group, entries_of, entry_exceeds, canonical_of, group_entries, review_entries, place, belongs,
  exact_only, is_protected, best_from,
}
use ig_anonymous_monitor.Dedup.Analyze.{Files, Entry, analyzed_rows, analyze_row}
use ig_anonymous_monitor.Dedup.Best.{IsNoBetter, canonical-best}
use ig_anonymous_monitor.Dedup.Groups.{
  members, IsSound, group_entries-partitions, entry_groups-IsSound,
}
use ig_anonymous_monitor.Dedup.Kept.{holds_file}
use ig_anonymous_monitor.Dedup.Safe.{HasUniqueIds, deduplicate_existing_media-keeps_canonical}
use ig_anonymous_monitor.Media.{downloaded_media}
use ig_anonymous_monitor.Examples.Media.{copy, copies}

abbrev print : MediaFingerprint
print = record {
  kind = image;
  width = 640;
  height = 640;
  size_bytes = 9000;
  image_phash = some 0xff00;
  image_colorhash = none;
  duration_seconds = none;
  bitrate = none;
  frame_phashes = [];
}

abbrev config : DedupConfig
config = record {
  enabled = true;
  image_phash_distance = 6;
  aspect_ratio_tolerance_percent = 200;
  video_duration_tolerance_seconds = 500;
  video_duration_tolerance_percent = 200;
}

-- Every file is there, and its hash is its path.
abbrev files : Files
files = record {
  is_file = λ path. true;
  sha256_file = λ path. some path;
  fingerprint_file = λ path kind. some (record print { size_bytes = path });
  loads = λ text. none;
  dumps = λ fingerprint. [];
}

abbrev first : Entry
first = record { row = copy; digest = 8; fingerprint = print }

abbrev second : Entry
second = record {
  row = record copy { id = 5 };
  digest = 9;
  fingerprint = record print { size_bytes = 9900 };
}

abbrev two_copies : Group
two_copies = record { sample = first; others = second ∷ [] }

is_similar_comm_example :
    is_similar print (record print { width = 641 }) config
    ≡ is_similar (record print { width = 641 }) print config
is_similar_comm_example = is_similar_comm print (record print { width = 641 }) config

canonical_membership_target-returns_example :
    (r : ℕ) × (canonical_membership_target 4 copies ≡ some r)
canonical_membership_target-returns_example = canonical_membership_target-returns 4 copies

copies-IsRanked : IsRanked (λ id. id) copies.media
unfolding pointer find_by
copies-IsRanked id next e = elim (Bool-cases (3 == id)) [
  | inl a ↦ let stuck : ◌≡◌ {A = Option ℕ} none (some next) = rw a at e in absurd (cc)
  | inr a ↦ elim (Bool-cases (4 == id)) [
    | inl b ↦
        let same : ◌≡◌ {A = Option ℕ} (some 3) (some next) = rw (a, b) at e in
        let three : 3 ≡ next = some-injective 3 next same in omega (arith, three, ==→eq 4 id b)
    | inr b ↦ elim (Bool-cases (5 == id)) [
      | inl c ↦ let stuck : ◌≡◌ {A = Option ℕ} none (some next) = rw (a, b, c) at e in absurd (cc)
      | inr c ↦ let stuck : ◌≡◌ {A = Option ℕ} none (some next) = rw (a, b, c) at e in absurd (cc)
    ]
  ]
]

canonical_membership_target-is_canonical_example :
    (r : ℕ) × (canonical_membership_target 4 copies ≡ some r) × (pointer r copies.media ≡ none)
canonical_membership_target-is_canonical_example =
    canonical_membership_target-is_canonical (λ id. id) 4 copies copies-IsRanked

abbrev story : Item
story = record {
  category = 1;
  source = SourceName.igwatcher;
  album_id = none;
  parent_id = none;
  source_media_id = some 34;
  media_key = 34;
  position = 0;
  revision_id = none;
  ownership_status = Ownership.unspecified;
  identity_kind = 0;
  album_title = none;
  caption = none;
  owner_id = none;
  owner_username = none;
  queried_username = none;
  published_at = none;
}

record_media_membership-requires_review_example :
    media_requires_review 4 (record_media_membership 1 story 4 2000 copies) ≡ true
record_media_membership-requires_review_example =
    record_media_membership-requires_review 1 4 2000 story copies refl refl

canonical-best_example :
    In (canonical_of two_copies) (entries_of two_copies)
    × All (λ e. IsNoBetter e (canonical_of two_copies)) (entries_of two_copies)
canonical-best_example = canonical-best two_copies

group_entries-partitions_example :
    count_by (λ e. e.digest == 9) (members (group_entries config [] (first ∷ second ∷ []) []))
    ≡ count_by (λ e. e.digest == 9) (first ∷ second ∷ [])
group_entries-partitions_example =
    group_entries-partitions config [] (λ e. e.digest == 9) (first ∷ second ∷ [])

entry_groups-IsSound_example :
    All
      (IsSound (review_entries copies (analyzed_rows files (downloaded_media copies))))
      (entry_groups files config copies)
entry_groups-IsSound_example = entry_groups-IsSound files config copies

-- The copies, of which none needs a review.
abbrev plain : MediaTables
plain = record copies { media_memberships = [] }

plain-HasUniqueIds : HasUniqueIds plain
unfolding count_by
plain-HasUniqueIds id = ground arith

-- The rows 3 and 5 are one group, and the file of row 5 is the larger one.
abbrev found : Group
found = record {
  sample = record { row = copy; digest = 8; fingerprint = record print { size_bytes = 8 } };
  others =
      record {
        row = record copy { id = 5; local_path = some 9 };
        digest = 9;
        fingerprint = record print { size_bytes = 9 };
      }
      ∷ [];
}

found-In : In found (entry_groups files config plain)
unfolding entry_groups downloaded_media by_account insert_row select analyzed_rows analyze_row
    group_entries place belongs exact_only is_protected exists_by is_similar same_aspect_ratio
    hash_distance bit_count_from frames_within media_requires_review canonical_membership_target
    follow pointer find_by
found-In = inl refl

deduplicate_existing_media-keeps_canonical_example :
    let after = deduplicate_existing_media files config true plain in
    (path : ℕ) × ((canonical_of found).row.local_path ≡ some path)
    × (holds_file (canonical_of found).row.id path after.tables ≡ true)
    × (exists_by (λ p. p == path) after.unlinked ≡ false)
deduplicate_existing_media-keeps_canonical_example =
    deduplicate_existing_media-keeps_canonical files config true plain found plain-HasUniqueIds
      found-In

-- The file of row 3 is removed, and row 3 is a duplicate of row 5.
removes : (deduplicate_existing_media files config true plain).unlinked ≡ 8 ∷ []
unfolding deduplicate_existing_media applied plans_of plan_of best_from entry_exceeds exceeds
    quality_rank entry_groups downloaded_media by_account insert_row select analyzed_rows
    analyze_row group_entries place belongs exact_only is_protected exists_by is_similar
    same_aspect_ratio hash_distance bit_count_from frames_within media_requires_review
    canonical_membership_target follow pointer find_by store_entries store_media_fingerprint
    apply_plans mark_duplicates mark_media_duplicate add_paths move_sources copy_sources
    distinct_paths update_where delete_where media_path_referenced
removes = refl
