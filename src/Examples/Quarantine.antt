-- ===== src/Examples/Quarantine.antt =====
-- Media that several accounts share, quarantined, then trusted or deleted.
use ig_anonymous_monitor.Base.{
  ℕ, ◌≡◌, refl, Bool, true, false, none, some, List, [], ◌∷◌, All, count_by, exists_by, find_by,
  update_where, ◌==◌, if◌then◌else◌, length,
}
use ig_anonymous_monitor.Media.{media_path_referenced}
use ig_anonymous_monitor.Media.Tables.{Media, MediaStatus, same_option}
use ig_anonymous_monitor.Quarantine.Tables.{Decision, QuarantineTables}
use ig_anonymous_monitor.Quarantine.Merge.{
  Signal, Candidate, MergedGroup, merge_cross_account_groups,
}
use ig_anonymous_monitor.Quarantine.Disjoint.{holds, names, merge_cross_account_groups-disjoint}
use ig_anonymous_monitor.Quarantine.Review.{
  Restored, restore_quarantined_media, delete_quarantined_media,
}
use ig_anonymous_monitor.Quarantine.Tombstone.{IsGone, delete_quarantined_media-is_final}
use ig_anonymous_monitor.Examples.Media.{copy, copies}

abbrev elsewhere : Media
elsewhere = record copy { id = 9; account_id = 2 }

abbrev by_hash_and_url : List Candidate
by_hash_and_url =
    record { signal = Signal.sha256; value = 12; rows = copy ∷ elsewhere ∷ [] }
    ∷ record { signal = Signal.url; value = 5; rows = elsewhere ∷ record copy { id = 11 } ∷ [] }
    ∷ []

merge_cross_account_groups-disjoint_example :
    count_by (holds 9) (merge_cross_account_groups by_hash_and_url)
    ≡ (if exists_by (names 9) by_hash_and_url then 1 else 0)
merge_cross_account_groups-disjoint_example = merge_cross_account_groups-disjoint 9 by_hash_and_url

abbrev shared_group : MergedGroup
shared_group = record {
  signal = Signal.sha256;
  value = 12;
  signals = Signal.sha256 ∷ [];
  row_by_id = copy ∷ [];
}

abbrev before : QuarantineTables
before = record { tables = copies; media_quarantine = [] }

abbrev is_there : ℕ → Bool
is_there path = path == 8

abbrev in_quarantine : QuarantineTables
in_quarantine = record {
  tables = record copies { media = record copy { status = MediaStatus.quarantined } ∷ [] };
  media_quarantine =
      record {
        media_id = 3;
        signal = Signal.sha256;
        signal_value = 12;
        original_status = MediaStatus.downloaded;
        quarantined_at = 500;
        decision = Decision.pending;
        reviewed_at = none;
      }
      ∷ [];
}

is_deleted :
    (delete_quarantined_media is_there (λ path. none) [] 600 3 in_quarantine).was_deleted ≡ true
unfolding delete_quarantined_media find_by media_path_referenced exists_by update_where
is_deleted = refl

-- The file of the only row goes.
file_goes :
    (delete_quarantined_media is_there (λ path. none) [] 600 3 in_quarantine).unlinked ≡ some 8
unfolding delete_quarantined_media find_by media_path_referenced exists_by update_where
file_goes = refl

delete_quarantined_media-is_final_example :
    let deleted = delete_quarantined_media is_there (λ path. none) [] 600 3 in_quarantine in
    All (IsGone 3) deleted.db.tables.media
    × All (λ m. same_option m.duplicate_of_id 3 ≡ false) deleted.db.tables.media
    × (length deleted.db.tables.media ≡ length in_quarantine.tables.media)
    × (restore_quarantined_media is_there 600 3 deleted.db ≡ Restored.not_found)
    × ((delete_quarantined_media is_there (λ path. none) [] 600 3 deleted.db).was_deleted ≡ false)
delete_quarantined_media-is_final_example =
    delete_quarantined_media-is_final is_there (λ path. none) [] 600 3 in_quarantine is_deleted
