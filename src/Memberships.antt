-- ===== src/Memberships.antt =====
-- To whom a medium belongs: `media_memberships`, and the medium that a duplicate stands for
-- (ig_monitor/anonymous_store.py).
pub mod Review
pub mod Target
use ig_anonymous_monitor.Base.{
  ℕ, zero, suc, ◌+◌, Bool, true, false, ◌&&◌, ◌||◌, not, Option, none, some, List, [], ◌∷◌, ◌++◌,
  length, ◌==◌, if◌then◌else◌, coalesce, select, find_by, exists_by, update_where, next_id, is_some,
}
use ig_anonymous_monitor.Cooldown.{SourceName, same_source}
use ig_anonymous_monitor.Media.Tables.{Media, MediaTables, Membership, MembershipKey, Ownership}

-- The two of the categories and sources that the code names.
abbrev pub highlights : ℕ
highlights = 2

abbrev pub legacy : SourceName
legacy = SourceName.other_name 0

abbrev pub pointer_of : Option Media → Option ℕ
pointer_of none = none
pointer_of (some row) = row.duplicate_of_id

-- `SELECT duplicate_of_id FROM media WHERE id=?`, none also where the row is missing
unfoldable pub pointer : ℕ → List Media → Option ℕ
pointer media_id media = pointer_of (find_by (λ m. m.id == media_id) media)

-- `while media_id not in seen`; none where the fuel runs out.
unfoldable pub follow : ℕ → List ℕ → ℕ → List Media → Option ℕ
unfolding pointer
follow zero seen media_id media = none
follow (suc fuel) seen media_id media = elim (exists_by (λ s. s == media_id) seen) [
  | true ↦ some media_id
  | false ↦ elim (pointer media_id media) [
    | none ↦ some media_id
    | some next ↦ follow fuel (media_id ∷ seen) next media
  ]
]

-- Each round but the last sees another row.
unfoldable pub canonical_membership_target : ℕ → MediaTables → Option ℕ
unfolding follow
canonical_membership_target media_id db = follow (length db.media + 1) [] media_id db.media

abbrev pub is_pending : Ownership → Bool
is_pending Ownership.pending = true
is_pending _ = false

abbrev pub is_verified : Ownership → Bool
is_verified Ownership.verified = true
is_verified _ = false

abbrev pub is_unspecified : Ownership → Bool
is_unspecified Ownership.unspecified = true
is_unspecified _ = false

abbrev pub is_igwatcher : SourceName → Bool
is_igwatcher source = same_source source SourceName.igwatcher

abbrev pub needs_review : Membership → Bool
needs_review m =
    is_pending m.ownership_status || (is_igwatcher m.source && not (is_verified m.ownership_status))

abbrev pub requires_review : Option ℕ → MediaTables → Bool
requires_review none db = false
requires_review (some canonical_id) db =
    exists_by (λ m. (m.media_id == canonical_id) && needs_review m) db.media_memberships

unfoldable pub media_requires_review : ℕ → MediaTables → Bool
unfolding canonical_membership_target
media_requires_review media_id db = requires_review (canonical_membership_target media_id db) db

abbrev pub shows_author : Membership → Bool
shows_author m =
    is_verified m.ownership_status
    || (not (is_igwatcher m.source) && is_unspecified m.ownership_status)

abbrev pub allowed_by : ℕ → List Membership → MediaTables → Bool
allowed_by canonical_id [] db = exists_by (λ m. m.id == canonical_id) db.media
allowed_by canonical_id (m ∷ memberships) db = exists_by shows_author (m ∷ memberships)

abbrev pub notification_allowed : Option ℕ → MediaTables → Bool
notification_allowed none db = false
notification_allowed (some canonical_id) db =
    allowed_by canonical_id (select (λ m. m.media_id == canonical_id) db.media_memberships) db

unfoldable pub media_notification_allowed : ℕ → MediaTables → Bool
unfolding canonical_membership_target
media_notification_allowed media_id db =
    notification_allowed (canonical_membership_target media_id db) db

-- The attributes of an item that a source has found, with those that it lacks at their defaults.
pub record Item : Type 0 where
  pub category : ℕ
  pub source : SourceName
  pub album_id : Option ℕ
  pub parent_id : Option ℕ
  pub source_media_id : Option ℕ
  pub media_key : ℕ
  pub position : ℕ
  pub revision_id : Option ℕ
  pub ownership_status : Ownership
  pub identity_kind : ℕ
  pub album_title : Option ℕ
  pub caption : Option ℕ
  pub owner_id : Option ℕ
  pub owner_username : Option ℕ
  pub queried_username : Option ℕ
  pub published_at : Option ℕ

abbrev pub group_of : Item → Option ℕ
group_of item = if item.category == highlights then item.album_id else item.parent_id

abbrev pub or_else : Option ℕ → ℕ → ℕ
or_else none n = n
or_else (some m) n = m

abbrev pub key_of : Item → MembershipKey
key_of item = record {
  group_id = group_of item;
  source_media_id = or_else item.source_media_id item.media_key;
  position = item.position;
  revision_id = item.revision_id;
}

abbrev pub status_of : Item → Ownership
status_of item =
    if is_igwatcher item.source && is_unspecified item.ownership_status
    then Ownership.pending
    else item.ownership_status

abbrev pub same_value : Option ℕ → Option ℕ → Bool
same_value none none = true
same_value (some m) (some n) = m == n
same_value _ _ = false

abbrev pub same_key : MembershipKey → MembershipKey → Bool
same_key first second =
    same_value first.group_id second.group_id
    && (first.source_media_id == second.source_media_id)
    && (first.position == second.position)
    && same_value first.revision_id second.revision_id

-- `UNIQUE(account_id,source,category,membership_key)`
abbrev pub conflicts : ℕ → Item → Membership → Bool
conflicts account_id item m =
    (m.account_id == account_id)
    && same_source m.source item.source
    && (m.category == item.category)
    && same_key m.membership_key (key_of item)

-- ON CONFLICT .. DO UPDATE SET
abbrev pub observed_again : Item → ℕ → ℕ → Membership → Membership
observed_again item media_id now m = record m {
  media_id = media_id;
  album_title = coalesce item.album_title m.album_title;
  caption = coalesce item.caption m.caption;
  owner_id = coalesce item.owner_id m.owner_id;
  owner_username = coalesce item.owner_username m.owner_username;
  identity_kind = item.identity_kind;
  ownership_status = if is_unspecified (status_of item) then m.ownership_status else status_of item;
  queried_username = coalesce item.queried_username m.queried_username;
  published_at = coalesce item.published_at m.published_at;
  updated_at = now;
}

abbrev pub new_membership : ℕ → ℕ → Item → ℕ → ℕ → Membership
new_membership id account_id item media_id now = record {
  id = id;
  account_id = account_id;
  source = item.source;
  category = item.category;
  membership_key = key_of item;
  group_id = group_of item;
  album_title = item.album_title;
  caption = item.caption;
  source_media_id = item.source_media_id;
  owner_id = item.owner_id;
  owner_username = item.owner_username;
  position = item.position;
  media_id = media_id;
  published_at = item.published_at;
  created_at = now;
  updated_at = now;
  identity_kind = item.identity_kind;
  ownership_status = status_of item;
  queried_username = item.queried_username;
  revision_id = item.revision_id;
}

abbrev pub upsert_membership : ℕ → Item → ℕ → ℕ → List Membership → List Membership
upsert_membership account_id item media_id now rows =
    if exists_by (conflicts account_id item) rows
    then update_where (conflicts account_id item) (observed_again item media_id now) rows
    else rows
      ++ new_membership (next_id (λ (m : Membership). m.id) rows) account_id item media_id now ∷ []

-- `INSERT OR IGNORE INTO media_sources`
abbrev pub insert_source : ℕ → ℕ → List (ℕ × ℕ) → List (ℕ × ℕ)
insert_source media_id category sources =
    if exists_by (λ (s : ℕ × ℕ). (s.0 == media_id) && (s.1 == category)) sources
    then sources
    else sources ++ (media_id, category) ∷ []

abbrev pub record_at : Option ℕ → ℕ → Item → ℕ → MediaTables → MediaTables
record_at none account_id item now db = db
record_at (some media_id) account_id item now db = record db {
  media_sources = insert_source media_id item.category db.media_sources;
  media_memberships = upsert_membership account_id item media_id now db.media_memberships;
}

unfoldable pub record_media_membership : ℕ → Item → ℕ → ℕ → MediaTables → MediaTables
unfolding canonical_membership_target
record_media_membership account_id item media_id now db =
    record_at (canonical_membership_target media_id db) account_id item now db
