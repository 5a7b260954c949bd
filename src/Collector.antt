-- ===== src/Collector.antt =====
-- The state of the collector in the database (ig_monitor/db.py). Its row exists: every reader
-- calls `collector_state` first, which makes it. `now` is what a call reads by `utc_now`.
use ig_anonymous_monitor.Base.{
  ℕ, Bool, true, false, ◌&&◌, Option, none, some, List, [], ◌∷◌, ◌++◌, ◌==◌, if◌then◌else◌,
  exists_by, update_where,
}
use ig_anonymous_monitor.Store.{
  Text, Database, CollectorStateKind, PostJob, PostJobStatus, PostFeature, PostState, Event,
  EventKey, Payload, is_leased, same_state,
}
use ig_anonymous_monitor.Work.{to_pending}

unfoldable pub same_key : EventKey → EventKey → Bool
same_key (EventKey.collector_state_key s t) (EventKey.collector_state_key s' t') =
    same_state s s' && (t == t')
same_key (EventKey.collector_risk_key t) (EventKey.collector_risk_key t') = t == t'
same_key (EventKey.relationship_key r) (EventKey.relationship_key r') = r == r'
same_key (EventKey.identity_conflict_key a t) (EventKey.identity_conflict_key a' t') =
    (a == a') && (t == t')
same_key (EventKey.relationship_queue_stuck_key j) (EventKey.relationship_queue_stuck_key j') =
    j == j'
same_key (EventKey.member_queue_stuck_key j) (EventKey.member_queue_stuck_key j') = j == j'
same_key _ _ = false

-- `INSERT OR IGNORE INTO events`, whose `event_key` is unique
unfoldable pub insert_event : Event → List Event → List Event
insert_event e events =
    if exists_by (λ x. same_key x.key e.key) events then events else events ++ e ∷ []

-- The event of a change of state; none if the state is what it was.
unfoldable pub note_change :
    EventKey → Option Text → CollectorStateKind → CollectorStateKind → ℕ → List Event → List Event
note_change key reason old state at events =
    if same_state old state
    then events
    else insert_event
        (record {
          key = key;
          account_id = none;
          payload = Payload.state_change old state reason;
          created_at = at;
        })
        events

unfoldable pub set_collector_state : CollectorStateKind → ℕ → Database → Database
set_collector_state state changed_at db = record db {
  collector = record (db.collector) { state = state; risk_reason = none };
  events =
      note_change (EventKey.collector_state_key state changed_at) none db.collector.state state
        changed_at db.events;
}

unfoldable pub begin_collector_observation : ℕ → Database → Database
begin_collector_observation observed_at db = record db {
  collector = record {
    state = CollectorStateKind.observing;
    observed_since = some observed_at;
    approved_at = none;
    canary_account_id = none;
    canary_started_at = none;
    last_health_check_at = some observed_at;
    last_job_started_at = none;
    risk_reason = none;
  };
  events =
      note_change (EventKey.collector_state_key CollectorStateKind.observing observed_at) none
        db.collector.state CollectorStateKind.observing observed_at db.events;
}

unfoldable pub update_collector_health : ℕ → Database → Database
update_collector_health checked_at db = record db {
  collector = record (db.collector) { last_health_check_at = some checked_at };
}

unfoldable pub approve_collector_canary : ℕ → ℕ → Database → Database
approve_collector_canary account_id approved_at db = record db {
  collector = record (db.collector) {
    state = CollectorStateKind.canary;
    approved_at = some approved_at;
    canary_account_id = some account_id;
    canary_started_at = some approved_at;
  };
  events =
      insert_event
        (record {
          key = EventKey.collector_state_key CollectorStateKind.canary approved_at;
          account_id = none;
          payload = Payload.state_change db.collector.state CollectorStateKind.canary none;
          created_at = approved_at;
        })
        db.events;
}

abbrev pub is_open_post : PostJobStatus → Bool
is_open_post PostJobStatus.pending = true
is_open_post PostJobStatus.leased = true
is_open_post _ = false

abbrev pub pause : Text → PostJob → PostJob
pause reason j = record j {
  status = PostJobStatus.paused;
  lease_until = none;
  last_error = some reason;
}

-- A feature that is disabled stays so.
abbrev pub suspend_if : PostState → ℕ → Text → PostFeature → PostFeature
suspend_if PostState.disabled now reason f = f
suspend_if _ now reason f = record f {
  state = PostState.suspended;
  suspended_at = some now;
  suspension_reason = some reason;
}

unfoldable pub place_collector_risk_hold : ℕ → Text → Database → Database
place_collector_risk_hold now reason db = record db {
  collector = record (db.collector) {
    state = CollectorStateKind.risk_hold;
    risk_reason = some reason;
  };
  jobs = update_where (λ j. is_leased j.status) (to_pending now) db.jobs;
  post_jobs = update_where (λ j. is_open_post j.status) (pause reason) db.post_jobs;
  post_feature = suspend_if db.post_feature.state now reason db.post_feature;
  events =
      note_change (EventKey.collector_risk_key now) (some reason) db.collector.state
        CollectorStateKind.risk_hold now db.events;
}
