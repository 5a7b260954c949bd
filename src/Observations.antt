-- ===== src/Observations.antt =====
-- What became of each collection of an anonymous source: `record_collection_observations` and its
-- readers (ig_monitor/anonymous_store.py), with the incident of failures in a row.
pub mod States
pub mod Incidents
pub mod Traces
pub mod Backoff
use ig_anonymous_monitor.Observations.States.{
  Alarm, Category, Collected, CollectionState, Observation, ObservationTables, blocked, empty,
  failed, highlights, is_known_category, is_known_state, media, other_category, other_state,
  partial, posts, private, reels, same_category, stories, unknown,
}
use ig_anonymous_monitor.Base.{
  ℕ, ◌+◌, ◌*◌, Bool, true, false, ◌&&◌, ◌||◌, not, Option, none, some, List, [], ◌∷◌, ◌++◌, ltb,
  leb, ◌==◌, if◌then◌else◌, find_by, exists_by, update_where,
}
use ig_anonymous_monitor.Store.{Text, is_given}
use ig_anonymous_monitor.Cooldown.{SourceName, same_source, is_later, same_bool, same_time}

abbrev pub same_alarm : Alarm → Alarm → Bool
same_alarm a b =
    same_bool a.recovered b.recovered
    && same_source a.source b.source
    && (a.account_id == b.account_id)
    && same_category a.category b.category
    && same_time a.since b.since

-- `INSERT OR IGNORE`
abbrev pub insert_alarm : Alarm → List Alarm → List Alarm
insert_alarm alarm alarms =
    if exists_by (λ a. same_alarm a alarm) alarms then alarms else alarms ++ alarm ∷ []

abbrev pub is_row_of : ℕ → SourceName → Category → Collected → Bool
is_row_of account_id source category row =
    (row.account_id == account_id)
    && same_source row.source source
    && same_category row.category category

-- `source == "igwatcher" and category == "posts"`
abbrev pub is_posts_backoff : SourceName → Category → Bool
is_posts_backoff source category =
    same_source source SourceName.igwatcher && same_category category Category.posts

abbrev pub is_clean_state : CollectionState → Bool
is_clean_state CollectionState.media = true
is_clean_state CollectionState.empty = true
is_clean_state CollectionState.private = true
is_clean_state _ = false

abbrev pub is_private : CollectionState → Bool
is_private CollectionState.private = true
is_private _ = false

abbrev pub is_partial : CollectionState → Bool
is_partial CollectionState.partial = true
is_partial _ = false

abbrev pub is_failed : CollectionState → Bool
is_failed CollectionState.failed = true
is_failed CollectionState.unknown = true
is_failed _ = false

abbrev pub is_success : SourceName → Observation → Bool
is_success source o =
    is_clean_state o.state
    && not (is_given o.error)
    && not (is_posts_backoff source o.category && is_private o.state)

abbrev pub is_conservative_success : SourceName → Observation → Bool
is_conservative_success source o =
    same_source source SourceName.igwatcher && is_partial o.state && not (is_given o.error)

abbrev pub is_failure : Observation → Bool
is_failure o = is_failed o.state || (is_partial o.state && is_given o.error)

-- `(30, 60, 120, 240)[min(count - 1, 3)]`, of a count that is at least 1
unfoldable pub backoff_minutes : ℕ → ℕ
backoff_minutes count =
    if leb count 1 then 30 else if leb count 2 then 60 else if leb count 3 then 120 else 240

abbrev pub or_now : Option ℕ → ℕ → ℕ
or_now none now = now
or_now (some since) now = since

-- The columns of a row that an incident has, and the alarms.
pub record Incident : Type 0 where
  pub count : ℕ
  pub since : Option ℕ
  pub notified : Bool
  pub next_retry : Option ℕ
  pub alarms : List Alarm

abbrev pub alarm_of : Bool → Collected → Option ℕ → Alarm
alarm_of recovered row since = record {
  recovered = recovered;
  source = row.source;
  account_id = row.account_id;
  category = row.category;
  since = since;
}

abbrev pub fail_incident : ℕ → Collected → List Alarm → Incident
fail_incident now row alarms =
    let count = row.fail_count + 1 in
    let since = some (or_now row.failure_since now) in
    let alarming = leb 3 count && not row.failure_notified in
    record {
      count = count;
      since = since;
      notified = row.failure_notified || alarming;
      next_retry =
          if is_posts_backoff row.source row.category
          then some (now + backoff_minutes count * 60)
          else row.next_retry_at;
      alarms = if alarming then insert_alarm (alarm_of false row since) alarms else alarms;
    }

abbrev pub resolve_incident : Collected → List Alarm → Incident
resolve_incident row alarms = record {
  count = 0;
  since = none;
  notified = false;
  next_retry = none;
  alarms =
      if row.failure_notified
      then insert_alarm (alarm_of true row row.failure_since) alarms
      else alarms;
}

abbrev pub same_incident : Collected → List Alarm → Incident
same_incident row alarms = record {
  count = row.fail_count;
  since = row.failure_since;
  notified = row.failure_notified;
  next_retry = row.next_retry_at;
  alarms = alarms;
}

unfoldable pub incident_after : ℕ → SourceName → Observation → Collected → List Alarm → Incident
unfolding backoff_minutes
incident_after now source o row alarms =
    if is_failure o
    then fail_incident now row alarms
    else if is_success source o || is_conservative_success source o
    then resolve_incident row alarms
    else same_incident row alarms

abbrev pub given_code : Observation → Option Text
given_code o = if is_given o.error then o.error_code else none

-- The UPDATE of the row.
abbrev pub updated_row : ℕ → SourceName → Bool → Observation → Incident → Collected → Collected
updated_row now source persist_progress o i row =
    let success = is_success source o in
    let complete = o.complete && success in
    record row {
      state = o.state;
      error = o.error;
      last_attempt_at = some now;
      last_success_at = if success then some now else row.last_success_at;
      cursor = if persist_progress && (success || is_partial o.state) then o.cursor else row.cursor;
      complete = complete;
      baseline_complete =
          row.baseline_complete || (complete && persist_progress && not (is_private o.state));
      fail_count = i.count;
      failure_notified = i.notified;
      failure_since = i.since;
      error_code = given_code o;
      next_retry_at = i.next_retry;
    }

abbrev pub new_row : ℕ → SourceName → Category → Collected
new_row account_id source category = record {
  account_id = account_id;
  source = source;
  category = category;
  state = CollectionState.unknown;
  error = none;
  error_code = none;
  last_success_at = none;
  last_attempt_at = none;
  cursor = none;
  complete = false;
  baseline_complete = false;
  fail_count = 0;
  failure_notified = false;
  failure_since = none;
  next_retry_at = none;
}

unfoldable pub row_of : ℕ → SourceName → Category → List Collected → Option Collected
row_of account_id source category = find_by (is_row_of account_id source category)

-- `INSERT OR IGNORE`, then the row that is there.
abbrev pub ensured :
    ℕ → SourceName → Category → List Collected → Option Collected → Collected × List Collected
ensured account_id source category states none =
    (new_row account_id source category, states ++ new_row account_id source category ∷ [])
ensured account_id source category states (some row) = (row, states)

abbrev pub observe_row :
    ℕ
    → ℕ
    → SourceName
    → Bool
    → Observation
    → Collected × List Collected
    → List Alarm
    → ObservationTables
observe_row now account_id source persist_progress o (row, states) alarms =
    let i = incident_after now source o row alarms in
    record {
      states =
          update_where (is_row_of account_id source o.category)
            (λ r. updated_row now source persist_progress o i row) states;
      alarms = i.alarms;
    }

-- None is a ValueError, which undoes the transaction.
unfoldable pub observe :
    ℕ → ℕ → SourceName → Bool → Observation → ObservationTables → Option ObservationTables
unfolding incident_after row_of
observe now account_id source persist_progress o db =
    if not (is_known_category o.category)
    then none
    else if not o.attempted
    then some db
    else if not (is_known_state o.state)
    then none
    else some (
        observe_row now account_id source persist_progress o
          (ensured account_id source o.category db.states
            (row_of account_id source o.category db.states))
          db.alarms)

unfoldable pub observe_all :
    ℕ → ℕ → SourceName → Bool → List Observation → ObservationTables → Option ObservationTables
unfolding observe
observe_all now account_id source persist_progress [] db = some db
observe_all now account_id source persist_progress (o ∷ observations) db =
    elim (observe now account_id source persist_progress o db) [
      | none ↦ none
      | some after ↦ observe_all now account_id source persist_progress observations after
    ]

-- The database after the call, an undone one included.
unfoldable pub record_collection_observations :
    ℕ → ℕ → SourceName → Bool → List Observation → ObservationTables → ObservationTables
unfolding observe_all
record_collection_observations now account_id source persist_progress observations db =
    elim (observe_all now account_id source persist_progress observations db) [
      | none ↦ db
      | some after ↦ after
    ]

abbrev pub held_back : Option Collected → ℕ → Option Collected
held_back none now = none
held_back (some row) now = if is_later row.next_retry_at now then some row else none

unfoldable pub collection_backoff :
    ℕ → SourceName → Category → ℕ → ObservationTables → Option Collected
unfolding row_of
collection_backoff account_id source category now db =
    if is_posts_backoff source category
    then held_back (row_of account_id source category db.states) now
    else none
