-- ===== src/Examples/Media.antt =====
-- Two copies of a picture, and a source that refuses.
use ig_anonymous_monitor.Base.{exists_by, refl, ◌≡◌, true, is_some, none, some, [], ◌∷◌}
use ig_anonymous_monitor.Reasons.{codes, is_space}
use ig_anonymous_monitor.Cooldown.{
  SourceName, SourceTables, source_cooldown, record_source_block, record_source_recovery,
  media_cooldown, record_media_block, is_api_only, split_from,
}
use ig_anonymous_monitor.Cooldown.Refusal.{record_source_block-refuses, record_media_block-refuses}
use ig_anonymous_monitor.Media.{promote_canonical}
use ig_anonymous_monitor.Media.Tables.{Media, MediaStatus, MediaTables, Membership, Ownership}
use ig_anonymous_monitor.Media.Flat.{Replaces, promote_canonical-Replaces}

abbrev pub copy : Media
copy = record {
  id = 3;
  account_id = 1;
  media_key = 33;
  logical_id = none;
  category = 1;
  position = 0;
  published_at = none;
  source_rank = 0;
  kind = 0;
  url = 5;
  status = MediaStatus.downloaded;
  attempts = 0;
  local_path = some 8;
  sha256 = some 12;
  fingerprint_json = none;
  width = some 640;
  height = some 640;
  file_size = some 9000;
  video_duration = none;
  video_bitrate = none;
  last_error = none;
  last_attempt_at = none;
  next_retry_at = none;
  duplicate_of_id = none;
  discovered_at = 900;
  downloaded_at = some 1000;
}

abbrev pub shared : Membership
shared = record {
  id = 70;
  account_id = 1;
  source = SourceName.igwatcher;
  category = 1;
  membership_key = record {
    group_id = none;
    source_media_id = 33;
    position = 0;
    revision_id = none;
  };
  group_id = none;
  album_title = none;
  caption = none;
  source_media_id = some 33;
  owner_id = none;
  owner_username = none;
  position = 0;
  media_id = 3;
  published_at = none;
  created_at = 900;
  updated_at = 900;
  identity_kind = 0;
  ownership_status = Ownership.pending;
  queried_username = none;
  revision_id = none;
}

-- 3 is the canonical copy, 5 the better one, and 4 a duplicate of 3.
abbrev pub copies : MediaTables
copies = record {
  media =
      copy
      ∷ record copy {
        id = 4;
        status = MediaStatus.duplicate;
        local_path = none;
        duplicate_of_id = some 3;
      }
      ∷ record copy { id = 5; local_path = some 9 }
      ∷ [];
  media_sources = (3, 1) ∷ (3, 2) ∷ (5, 2) ∷ [];
  media_memberships = shared ∷ [];
}

promote_canonical-Replaces_example : Replaces 5 3 copies (promote_canonical 5 3 copies).1
promote_canonical-Replaces_example = promote_canonical-Replaces 5 3 copies refl

abbrev no_sources : SourceTables
no_sources = record { states = []; notices = [] }

record_source_block-refuses_example :
    let db' = record_source_block SourceName.igwatcher (codes "http_status=429") 1000 no_sources in
    (is_some (source_cooldown SourceName.igwatcher 1000 db') ≡ true)
    × (record_source_recovery SourceName.igwatcher 1000 db' ≡ db')
record_source_block-refuses_example =
    record_source_block-refuses SourceName.igwatcher (codes "http_status=429") 1000 no_sources

record_media_block-refuses_example :
    is_some (
      media_cooldown SourceName.igwatcher 1000
        (record_media_block SourceName.igwatcher (codes "http_status=429") 1000 no_sources))
    ≡ true
record_media_block-refuses_example =
    record_media_block-refuses SourceName.igwatcher (codes "http_status=429") 1000 no_sources

api_refusal :
    is_api_only (codes "operation=posts http_status=403  phase=api signal=http_status") ≡ true
unfolding is_api_only split_from is_space exists_by
api_refusal = refl
