-- ===== src/Examples.antt =====
-- A small concrete database, and the theorems applied to it.
mod Work
mod Queue
mod Queues
mod Lists
mod Media
mod Dedup
mod Quarantine
mod Sources
mod Health
mod Life
use ig_anonymous_monitor.Base.{ℕ, ◌+◌, ◌*◌, Bool, true, false, Option, none, some, List, [], ◌∷◌}
use ig_anonymous_monitor.Store.{
  Text, Database, Account, Direction, PrivacyState, ProfileSnapshot, RelationshipStatus, Job,
  JobStatus, JobReason, WorkKind, WorkRun, WorkRunStatus, WorkStatus, Collector, CollectorStateKind,
  PostFeature, PostState,
}
use ig_anonymous_monitor.Work.{Coordinator, coordinator, Claim}
use ig_anonymous_monitor.Admin.{EnrichmentConfig}

abbrev pub nowhere : Collector
nowhere = record {
  state = CollectorStateKind.unconfigured;
  observed_since = none;
  approved_at = none;
  canary_account_id = none;
  canary_started_at = none;
  last_health_check_at = none;
  last_job_started_at = none;
  risk_reason = none;
}

abbrev pub profile : ProfileSnapshot
profile = record {
  username = 97 ∷ [];
  display_name = none;
  posts = 3;
  followers = 2;
  following = 1;
  bio = [];
  privacy = PrivacyState.public;
  avatar_url = none;
  avatar_sha256 = none;
  avatar_path = none;
}

abbrev pub account : Account
account = record {
  id = 1;
  label = 97 ∷ [];
  enabled = true;
  username = 97 ∷ [];
  relationship_tracking = true;
  relationship_status = RelationshipStatus.queued;
  relationship_frozen_at = none;
  followers_baseline_at = none;
  following_baseline_at = none;
  relationship_reconciled_at = none;
  instagram_profile_id = some 700;
  identity_verified_source = none;
  identity_verified_at = none;
  identity_conflict = none;
  snapshot = some profile;
}

abbrev pub waiting : Job
waiting = record {
  id = 4;
  account_id = 1;
  need_followers = true;
  need_following = true;
  reason = JobReason.baseline;
  status = JobStatus.pending;
  available_at = 1000;
  lease_until = none;
  started_at = none;
  attempts = 0;
  last_error = none;
  created_at = 1000;
  updated_at = 1000;
}

abbrev pub ended : WorkRun
ended = record {
  id = 1;
  work_kind = WorkKind.relationship;
  work_ref_id = 3;
  budget_day = 0;
  status = WorkRunStatus.finished;
  lease_until = 2800;
  started_at = 1000;
  finished_at = some 1200;
  outcome = some WorkStatus.completed;
  error = none;
}

abbrev pub empty : Database
empty = record {
  accounts = [];
  jobs = [];
  work_runs = [];
  collector = nowhere;
  runs = [];
  run_members = [];
  members = [];
  memberships = [];
  history = [];
  enrichment_jobs = [];
  attempts = [];
  post_jobs = [];
  post_feature = record {
    state = PostState.disabled;
    suspended_at = none;
    suspension_reason = none;
  };
  events = [];
  member_enrichment_next_at = none;
}

-- One account, with one job that waits, and a run that ended.
abbrev pub busy : Database
busy = record empty { accounts = account ∷ []; jobs = waiting ∷ []; work_runs = ended ∷ [] }

-- Six starts a day, at least three hours apart, each leased for half an hour.
abbrev pub limits : Coordinator
limits = coordinator 6 180 30

abbrev pub settings : EnrichmentConfig
settings = record {
  enabled = true;
  member_limit_per_direction = 500;
  reconciliation_days = 7;
  observation_hours = 48;
  canary_days = 7;
  daily_member_enrichments = 20;
  member_retry_min_hours = 6;
  member_stale_days = 30;
}

abbrev pub claim : Claim
claim = record { run_id = 1; kind = WorkKind.relationship; work_ref_id = 4; payload = waiting }
