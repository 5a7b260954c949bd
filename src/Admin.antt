-- ===== src/Admin.antt =====
-- `CollectorAdministration` (ig_monitor/relationships.py). What the relationship source answers in
-- a call is an argument; `clock` is what the database reads by `utc_now`.
use ig_anonymous_monitor.Base.{
  ℕ, ◌+◌, ◌*◌, Bool, true, false, ◌&&◌, Option, none, some, leb, if◌then◌else◌,
}
use ig_anonymous_monitor.Store.{
  Text, Database, Account, ProfileSnapshot, JobReason, CollectorStateKind, is_public, same_state,
}
use ig_anonymous_monitor.Reasons.{collector_fatal_reason}
use ig_anonymous_monitor.Jobs.{get_account_by_id, enqueue_relationship_job}
use ig_anonymous_monitor.Collector.{
  set_collector_state, begin_collector_observation, update_collector_health,
  approve_collector_canary, place_collector_risk_hold,
}

-- `InstagramEnrichmentConfig` (ig_monitor/config.py), less the delays between requests.
pub record EnrichmentConfig : Type 0 where
  pub enabled : Bool
  pub member_limit_per_direction : ℕ
  pub reconciliation_days : ℕ
  pub observation_hours : ℕ
  pub canary_days : ℕ
  pub daily_member_enrichments : ℕ
  pub member_retry_min_hours : ℕ
  pub member_stale_days : ℕ

-- The exceptions that the code tells apart; `other` carries the name of its type.
pub data Exception : Type 0 where
  collector_fatal target_ineligible other : Text → Exception

-- How a call of the source ends.
pub data Answer {ℓ} (A : Type ℓ) : Type ℓ where
  returned : A → Answer A
  raised : Exception → Answer A

pub record CollectorStatus : Type 0 where
  pub state : CollectorStateKind
  pub observed_since : Option ℕ
  pub canary_account_id : Option ℕ
  pub risk_reason : Option Text

pub data AdminResult : Type 0 where
  status_is : CollectorStatus → AdminResult
  value_error source_error : AdminResult

unfoldable pub status_of : Database → CollectorStatus
status_of db = record {
  state = db.collector.state;
  observed_since = db.collector.observed_since;
  canary_account_id = db.collector.canary_account_id;
  risk_reason = db.collector.risk_reason;
}

abbrev pub report : Database → AdminResult × Database
report db = (AdminResult.status_is (status_of db), db)

-- `last_health is None or now - last_health >= timedelta(hours=24)`
abbrev pub health_due : ℕ → Option ℕ → Bool
health_due now none = true
health_due now (some last) = leb (last + 24 * 3600) now

-- The end of `status`: the observation is over, and the check above left the state alone.
unfoldable pub conclude : EnrichmentConfig → ℕ → ℕ → Database → Database
conclude config now observed db =
    if leb (observed + config.observation_hours * 3600) now
      && same_state db.collector.state CollectorStateKind.observing
    then set_collector_state CollectorStateKind.awaiting_approval now db
    else db

unfoldable pub check_health :
    EnrichmentConfig → ℕ → ℕ → ℕ → Answer (Unit {0}) → Database → AdminResult × Database
unfolding conclude
check_health config clock now observed (returned _) db =
    report (conclude config now observed (update_collector_health now db))
check_health config clock now observed (raised (collector_fatal message)) db = report (
    conclude config now observed
      (place_collector_risk_hold clock (collector_fatal_reason message) db))
check_health config clock now observed _ db = (AdminResult.source_error, db)

unfoldable pub status_observing :
    EnrichmentConfig → ℕ → ℕ → Answer (Unit {0}) → Option ℕ → Database → AdminResult × Database
unfolding check_health
status_observing config clock now health none db = report db
status_observing config clock now health (some observed) db =
    if health_due now db.collector.last_health_check_at
    then check_health config clock now observed health db
    else report (conclude config now observed db)

unfoldable pub status :
    EnrichmentConfig → ℕ → ℕ → Answer (Unit {0}) → Database → AdminResult × Database
unfolding status_observing
status config clock now health db =
    if same_state db.collector.state CollectorStateKind.observing
    then status_observing config clock now health db.collector.observed_since db
    else report db

-- The identity that the source returns is given by whether its profile id is not empty.
unfoldable pub login : ℕ → ℕ → Answer Bool → Database → AdminResult × Database
login clock now (returned true) db = report (begin_collector_observation now db)
login clock now (returned false) db = (AdminResult.value_error, db)
login clock now (raised (collector_fatal message)) db =
    report (place_collector_risk_hold clock (collector_fatal_reason message) db)
login clock now _ db = (AdminResult.source_error, db)

unfoldable pub within_limits : EnrichmentConfig → ProfileSnapshot → Bool
within_limits config s =
    is_public s.privacy
    && leb s.followers config.member_limit_per_direction
    && leb s.following config.member_limit_per_direction

-- The account may be the canary: enabled, tracked, public and within the limits.
unfoldable pub can_be_canary : EnrichmentConfig → Option Account → Bool
unfolding within_limits
can_be_canary config none = false
can_be_canary config (some a) =
    a.enabled
    && a.relationship_tracking
    && elim a.snapshot [ none ↦ false | some s ↦ within_limits config s ]

unfoldable pub approve : EnrichmentConfig → ℕ → ℕ → ℕ → Database → AdminResult × Database
unfolding can_be_canary
approve config clock canary_account_id now db =
    if same_state db.collector.state CollectorStateKind.awaiting_approval
      && can_be_canary config (get_account_by_id canary_account_id db)
    then report
        (enqueue_relationship_job clock canary_account_id true true JobReason.canary now
          (approve_collector_canary canary_account_id now db)).1
    else (AdminResult.value_error, db)

unfoldable pub recover : ℕ → ℕ → Answer (Unit {0}) → Database → AdminResult × Database
recover clock now (returned _) db = report (begin_collector_observation now db)
recover clock now (raised (collector_fatal message)) db =
    report (place_collector_risk_hold clock (collector_fatal_reason message) db)
recover clock now _ db = (AdminResult.source_error, db)

unfoldable pub begin_recovery : ℕ → ℕ → Answer (Unit {0}) → Database → AdminResult × Database
unfolding recover
begin_recovery clock now health db =
    if same_state db.collector.state CollectorStateKind.risk_hold
    then recover clock now health db
    else (AdminResult.value_error, db)
