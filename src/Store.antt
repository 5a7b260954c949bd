-- ===== src/Store.antt =====
-- The tables of ig_monitor/db.py that the relationship and enrichment parts read and write.
-- A time is a number of seconds: every comparison of the program is between times that
-- `isoformat(timespec="seconds")` cut to seconds, or of such a time with the present, and both
-- have the same answer on whole seconds. An `updated_at` that nothing reads is left out.
mod Accounts
mod Queue
mod Members
mod Tests
pub use Accounts.*
pub use Queue.*
pub use Members.*
pub use Tests.*
use ig_anonymous_monitor.Base.{ℕ, Bool, Option, List, []}

pub data PostJobStatus : Type 0 where
  pending leased paused cancelled : PostJobStatus

pub record PostJob : Type 0 where
  pub id : ℕ
  pub account_id : ℕ
  pub status : PostJobStatus
  pub lease_until : Option ℕ
  pub last_error : Option Text

pub data PostState : Type 0 where
  disabled enabled suspended : PostState

pub record PostFeature : Type 0 where
  pub state : PostState
  pub suspended_at : Option ℕ
  pub suspension_reason : Option Text

-- What identifies an event: the text of `event_key`, by its parts.
pub data EventKey : Type 0 where
  collector_state_key : CollectorStateKind → ℕ → EventKey
  collector_risk_key : ℕ → EventKey
  relationship_key : ℕ → EventKey
  identity_conflict_key : ℕ → ℕ → EventKey
  relationship_queue_stuck_key : ℕ → EventKey
  member_queue_stuck_key : ℕ → EventKey

-- The payload of a `relationship_digest` event.
pub record Digest : Type 0 where
  pub label : Text
  pub direction : Direction
  pub baseline : Bool
  pub total : ℕ
  pub joined : List Text
  pub left : List Text
  pub joined_count : ℕ
  pub left_count : ℕ
  pub mutual_available : Bool
  pub mutual_joined : List Text
  pub mutual_left : List Text
  pub mutual_joined_count : ℕ
  pub mutual_left_count : ℕ
  pub private_interval : Bool
  pub private_interval_started_at : Option ℕ

-- Of a `queue_stuck` event, less the label of the account.
pub data Payload : Type 0 where
  state_change : CollectorStateKind → CollectorStateKind → Option Text → Payload
  digest : Digest → Payload
  conflict : Option ℕ → ℕ → ℕ → Payload
  stuck : ℕ → Payload

pub record Event : Type 0 where
  pub key : EventKey
  pub account_id : Option ℕ
  pub payload : Payload
  pub created_at : ℕ

pub record Database : Type 0 where
  pub accounts : List Account
  pub jobs : List Job
  pub work_runs : List WorkRun
  pub collector : Collector
  pub runs : List RelationshipRun
  pub run_members : List RunMember
  pub members : List Member
  pub memberships : List Membership
  pub history : List HistoryRow
  pub enrichment_jobs : List EnrichmentJob
  pub attempts : List Attempt
  pub post_jobs : List PostJob
  pub post_feature : PostFeature
  pub events : List Event
  pub member_enrichment_next_at : Option ℕ
