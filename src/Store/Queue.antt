-- ===== src/Store/Queue.antt =====
-- The rows of `relationship_jobs`, `authenticated_work_runs` and `collector_state`.
use ig_anonymous_monitor.Store.Accounts.{Text}
use ig_anonymous_monitor.Base.{ℕ, Bool, Option}

pub data JobStatus : Type 0 where
  pending leased completed failed cancelled : JobStatus

pub data JobReason : Type 0 where
  reopened count_change canary canary_final baseline reconciliation avatar_source_refresh :
      JobReason

pub record Job : Type 0 where
  pub id : ℕ
  pub account_id : ℕ
  pub need_followers : Bool
  pub need_following : Bool
  pub reason : JobReason
  pub status : JobStatus
  pub available_at : ℕ
  pub lease_until : Option ℕ
  pub started_at : Option ℕ
  pub attempts : ℕ
  pub last_error : Option Text
  pub created_at : ℕ
  pub updated_at : ℕ

pub data WorkKind : Type 0 where
  relationship post : WorkKind

pub data WorkRunStatus : Type 0 where
  running finished abandoned : WorkRunStatus

-- The `status` of a `WorkOutcome`, which is also the `outcome` column of a run.
pub data WorkStatus : Type 0 where
  claimed disabled collector_unavailable idle busy daily_budget spacing source_cooldown : WorkStatus
  cancelled target_ineligible identity_conflict scope_exceeded completed incomplete : WorkStatus
  risk_hold lease_expired : WorkStatus

pub record WorkRun : Type 0 where
  pub id : ℕ
  pub work_kind : WorkKind
  pub work_ref_id : ℕ
  pub budget_day : ℕ
  pub status : WorkRunStatus
  pub lease_until : ℕ
  pub started_at : ℕ
  pub finished_at : Option ℕ
  pub outcome : Option WorkStatus
  pub error : Option Text

pub data CollectorStateKind : Type 0 where
  unconfigured observing awaiting_approval canary active risk_hold : CollectorStateKind

pub record Collector : Type 0 where
  pub state : CollectorStateKind
  pub observed_since : Option ℕ
  pub approved_at : Option ℕ
  pub canary_account_id : Option ℕ
  pub canary_started_at : Option ℕ
  pub last_health_check_at : Option ℕ
  pub last_job_started_at : Option ℕ
  pub risk_reason : Option Text
