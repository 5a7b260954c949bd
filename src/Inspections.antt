-- ===== src/Inspections.antt =====
-- What an inspection of an account leaves in the database: `record_success` and `record_failure`
-- (ig_monitor/db.py).
pub mod Refines
use ig_anonymous_monitor.Base.{
  ℕ, ◌+◌, ◌-◌, ◌*◌, Bool, true, false, ◌&&◌, ◌||◌, not, Option, none, some, List, [], ◌∷◌, ◌++◌,
  ltb, leb, ◌==◌, if◌then◌else◌, max, coalesce, find_by, exists_by, update_where, delete_where,
  next_id,
}
use ig_anonymous_monitor.Store.{Text, ProfileSnapshot}
use ig_anonymous_monitor.Media.Tables.{Media, MediaStatus, MediaTables}
use ig_anonymous_monitor.Memberships.{Item, insert_source, record_media_membership}

-- The columns of `accounts` that inspections write, and `enabled`.
pub record Health : Type 0 where
  pub id : ℕ
  pub enabled : Bool
  pub snapshot : Option ProfileSnapshot
  pub fail_count : ℕ
  pub failure_notified : Bool
  pub failure_since : Option ℕ
  pub last_error : Option Text
  pub last_success_at : Option ℕ

-- A row of `profile_history`.
pub record ProfilePoint : Type 0 where
  pub account_id : ℕ
  pub observed_at : ℕ
  pub posts : ℕ
  pub followers : ℕ
  pub following : ℕ

-- The key of an event: `failure:{account_id}:{since}`, or one that the caller gives.
pub data InspectionKey : Type 0 where
  failure_key : ℕ → ℕ → InspectionKey
  given_key : ℕ → InspectionKey

-- An event, less its kind and its payload.
pub record InspectionEvent : Type 0 where
  pub event_key : InspectionKey
  pub account_id : ℕ

pub record InspectionTables : Type 0 where
  pub accounts : List Health
  pub profile_history : List ProfilePoint
  pub events : List InspectionEvent
  pub media_tables : MediaTables

-- An item of a source, with what `media` stores of it besides.
pub record MediaCandidate : Type 0 where
  pub item : Item
  pub logical_id : Option ℕ
  pub kind : ℕ
  pub url : ℕ
  pub width : Option ℕ
  pub height : Option ℕ
  pub source_rank : ℕ

abbrev pub same_event_key : InspectionKey → InspectionKey → Bool
same_event_key (InspectionKey.failure_key a s) (InspectionKey.failure_key b t) =
    (a == b) && (s == t)
same_event_key (InspectionKey.given_key m) (InspectionKey.given_key n) = m == n
same_event_key _ _ = false

-- `INSERT OR IGNORE`
abbrev pub insert_inspection_event : InspectionEvent → List InspectionEvent → List InspectionEvent
insert_inspection_event event events =
    if exists_by (λ e. same_event_key e.event_key event.event_key) events
    then events
    else events ++ event ∷ []

unfoldable pub insert_given : ℕ → List ℕ → List InspectionEvent → List InspectionEvent
insert_given account_id [] events = events
insert_given account_id (key ∷ keys) events = insert_given account_id keys (
    insert_inspection_event
      (record { event_key = InspectionKey.given_key key; account_id = account_id }) events)

abbrev pub insert_point : ProfilePoint → List ProfilePoint → List ProfilePoint
insert_point point points =
    if exists_by (λ p. (p.account_id == point.account_id) && (p.observed_at == point.observed_at))
      points
    then points
    else points ++ point ∷ []

-- The point of the snapshot is added, and those of the account older than 365 days are deleted.
unfoldable pub add_history : ℕ → ℕ → ℕ → ProfileSnapshot → List ProfilePoint → List ProfilePoint
add_history clock account_id observed_at snapshot points =
    delete_where (λ p. (p.account_id == account_id) && ltb p.observed_at (clock - 365 * 24 * 3600))
      (insert_point
        (record {
          account_id = account_id;
          observed_at = observed_at;
          posts = snapshot.posts;
          followers = snapshot.followers;
          following = snapshot.following;
        })
        points)

abbrev pub is_media_of : ℕ → ℕ → Media → Bool
is_media_of account_id media_key m = (m.account_id == account_id) && (m.media_key == media_key)

-- ON CONFLICT .. DO UPDATE SET
abbrev pub seen_again : MediaCandidate → Media → Media
seen_again c m = record m {
  url = if leb m.source_rank c.source_rank then c.url else m.url;
  width = coalesce c.width m.width;
  height = coalesce c.height m.height;
  source_rank = max c.source_rank m.source_rank;
}

abbrev pub new_media : ℕ → ℕ → ℕ → MediaCandidate → Media
new_media id clock account_id c = record {
  id = id;
  account_id = account_id;
  media_key = c.item.media_key;
  logical_id = c.logical_id;
  category = c.item.category;
  position = c.item.position;
  published_at = c.item.published_at;
  source_rank = c.source_rank;
  kind = c.kind;
  url = c.url;
  status = MediaStatus.pending;
  attempts = 0;
  local_path = none;
  sha256 = none;
  fingerprint_json = none;
  width = c.width;
  height = c.height;
  file_size = none;
  video_duration = none;
  video_bitrate = none;
  last_error = none;
  last_attempt_at = none;
  next_retry_at = none;
  duplicate_of_id = none;
  discovered_at = clock;
  downloaded_at = none;
}

unfoldable pub upsert_media : ℕ → ℕ → MediaCandidate → List Media → List Media
upsert_media clock account_id c media =
    if exists_by (is_media_of account_id c.item.media_key) media
    then update_where (is_media_of account_id c.item.media_key) (seen_again c) media
    else media ++ new_media (next_id (λ (m : Media). m.id) media) clock account_id c ∷ []

-- The sources and the membership of the row that the candidate has.
abbrev pub attach : ℕ → ℕ → MediaCandidate → MediaTables → Option Media → MediaTables
attach clock account_id c db none = db
attach clock account_id c db (some row) =
    record_media_membership account_id c.item row.id clock
      (record db { media_sources = insert_source row.id c.item.category db.media_sources })

unfoldable pub record_candidate : ℕ → ℕ → MediaCandidate → MediaTables → MediaTables
unfolding upsert_media record_media_membership
record_candidate clock account_id c db =
    let media = upsert_media clock account_id c db.media in
    attach clock account_id c (record db { media = media })
      (find_by (is_media_of account_id c.item.media_key) media)

unfoldable pub record_candidates : ℕ → ℕ → List MediaCandidate → MediaTables → MediaTables
unfolding record_candidate
record_candidates clock account_id [] db = db
record_candidates clock account_id (c ∷ candidates) db =
    record_candidates clock account_id candidates (record_candidate clock account_id c db)

abbrev pub succeeded : ℕ → ProfileSnapshot → Health → Health
succeeded clock snapshot a = record a {
  snapshot = some snapshot;
  fail_count = 0;
  failure_notified = false;
  failure_since = none;
  last_error = none;
  last_success_at = some clock;
}

-- `observed_at or now`
abbrev pub or_clock : Option ℕ → ℕ → ℕ
or_clock none clock = clock
or_clock (some t) clock = t

-- `observed_at` is the snapshot's, or none where it is empty; `keys` are those of the events.
unfoldable pub record_success :
    ℕ
    → ℕ
    → Option ℕ
    → ProfileSnapshot
    → List ℕ
    → List MediaCandidate
    → InspectionTables
    → InspectionTables
unfolding add_history insert_given record_candidates
record_success clock account_id observed_at snapshot keys media db = record {
  accounts = update_where (λ a. a.id == account_id) (succeeded clock snapshot) db.accounts;
  profile_history =
      add_history clock account_id (or_clock observed_at clock) snapshot db.profile_history;
  events = insert_given account_id keys db.events;
  media_tables = record_candidates clock account_id media db.media_tables;
}

abbrev pub is_alarming : Health → Bool
is_alarming a = leb 3 (a.fail_count + 1) && not a.failure_notified

-- Both UPDATEs of the row that is read.
abbrev pub failed_again : ℕ → Text → Health → Health → Health
failed_again clock error row a = record a {
  fail_count = row.fail_count + 1;
  failure_since = some (or_clock row.failure_since clock);
  last_error = some error;
  failure_notified = a.failure_notified || is_alarming row;
}

abbrev pub fail_row : ℕ → ℕ → Text → InspectionTables → Health → ℕ × InspectionTables
fail_row clock account_id error db row = (
  row.fail_count + 1,
  record db {
    accounts = update_where (λ a. a.id == account_id) (failed_again clock error row) db.accounts;
    events =
        if is_alarming row
        then insert_inspection_event
            (record {
              event_key = InspectionKey.failure_key account_id (or_clock row.failure_since clock);
              account_id = account_id;
            })
            db.events
        else db.events;
  },
)

abbrev pub health_of : ℕ → List Health → Option Health
health_of account_id = find_by (λ a. a.id == account_id)

-- None is the TypeError of an account that is not there.
unfoldable pub record_failure : ℕ → ℕ → Text → InspectionTables → Option (ℕ × InspectionTables)
record_failure clock account_id error db = elim (health_of account_id db.accounts) [
  | none ↦ none
  | some row ↦ some (fail_row clock account_id error db row)
]
