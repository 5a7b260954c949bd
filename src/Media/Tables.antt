-- ===== src/Media/Tables.antt =====
-- The rows of `media`, `media_sources` and `media_memberships` (ig_monitor/db.py,
-- ig_monitor/anonymous_store.py).
use ig_anonymous_monitor.Base.{ℕ, Bool, true, false, Option, none, some, List, ◌==◌}
use ig_anonymous_monitor.Store.{Text}
use ig_anonymous_monitor.Cooldown.{SourceName}

pub data MediaStatus : Type 0 where
  pending downloaded failed duplicate quarantined deleted : MediaStatus

-- A hash, a path, a URL and a category stand for their texts, which are only compared; so does a
-- kind, which is `image`, `video` or another number.
abbrev pub image : ℕ
image = 0

abbrev pub video : ℕ
video = 1

-- `url` is without the slashes and spaces at its end, as its only reader strips them; a duration is in
-- milliseconds.
pub record Media : Type 0 where
  pub id : ℕ
  pub account_id : ℕ
  pub media_key : ℕ
  pub logical_id : Option ℕ
  pub category : ℕ
  pub position : ℕ
  pub published_at : Option ℕ
  pub source_rank : ℕ
  pub kind : ℕ
  pub url : ℕ
  pub status : MediaStatus
  pub attempts : ℕ
  pub local_path : Option ℕ
  pub sha256 : Option ℕ
  pub fingerprint_json : Option Text
  pub width : Option ℕ
  pub height : Option ℕ
  pub file_size : Option ℕ
  pub video_duration : Option ℕ
  pub video_bitrate : Option ℕ
  pub last_error : Option Text
  pub last_attempt_at : Option ℕ
  pub next_retry_at : Option ℕ
  pub duplicate_of_id : Option ℕ
  pub discovered_at : ℕ
  pub downloaded_at : Option ℕ

pub data Ownership : Type 0 where
  unspecified pending verified : Ownership
  other_status : ℕ → Ownership

-- What `membership_key` is the JSON text of: equal parts give equal texts, others do not.
pub record MembershipKey : Type 0 where
  pub group_id : Option ℕ
  pub source_media_id : ℕ
  pub position : ℕ
  pub revision_id : Option ℕ

pub record Membership : Type 0 where
  pub id : ℕ
  pub account_id : ℕ
  pub source : SourceName
  pub category : ℕ
  pub membership_key : MembershipKey
  pub group_id : Option ℕ
  pub album_title : Option ℕ
  pub caption : Option ℕ
  pub source_media_id : Option ℕ
  pub owner_id : Option ℕ
  pub owner_username : Option ℕ
  pub position : ℕ
  pub media_id : ℕ
  pub published_at : Option ℕ
  pub created_at : ℕ
  pub updated_at : ℕ
  pub identity_kind : ℕ
  pub ownership_status : Ownership
  pub queried_username : Option ℕ
  pub revision_id : Option ℕ

-- The tables `media`, `media_sources` and `media_memberships`.
pub record MediaTables : Type 0 where
  pub media : List Media
  pub media_sources : List (ℕ × ℕ)
  pub media_memberships : List Membership

abbrev pub is_downloaded : MediaStatus → Bool
is_downloaded MediaStatus.downloaded = true
is_downloaded _ = false

abbrev pub is_quarantined : MediaStatus → Bool
is_quarantined MediaStatus.quarantined = true
is_quarantined _ = false

abbrev pub same_option : Option ℕ → ℕ → Bool
same_option none n = false
same_option (some m) n = m == n
