-- ===== src/Store/Members.antt =====
-- The rows of relationship runs, members, memberships, history, and enrichment work.
use ig_anonymous_monitor.Store.Accounts.{Text, Direction, PrivacyState}
use ig_anonymous_monitor.Base.{ℕ, Bool, Option}

pub data RunStatus : Type 0 where
  running incomplete complete scope_exceeded : RunStatus

pub record RelationshipRun : Type 0 where
  pub id : ℕ
  pub job_id : ℕ
  pub account_id : ℕ
  pub direction : Direction
  pub status : RunStatus
  pub complete : Bool
  pub collected_count : ℕ
  pub error : Option Text
  pub started_at : ℕ
  pub finished_at : Option ℕ

pub record RunMember : Type 0 where
  pub run_id : ℕ
  pub instagram_profile_id : ℕ
  pub username : Text
  pub position : ℕ

pub record Member : Type 0 where
  pub instagram_profile_id : ℕ
  pub username : Text
  pub display_name : Option Text
  pub avatar_url : Option Text
  pub avatar_sha256 : Option Text
  pub avatar_path : Option Text
  pub posts : Option ℕ
  pub followers : Option ℕ
  pub following : Option ℕ
  pub bio : Option Text
  pub privacy : Option PrivacyState
  pub profile_observed_at : Option ℕ
  pub username_observed_at : ℕ
  pub updated_at : ℕ

pub record Membership : Type 0 where
  pub account_id : ℕ
  pub direction : Direction
  pub instagram_profile_id : ℕ
  pub username : Text
  pub first_seen_at : ℕ
  pub last_seen_at : ℕ
  pub active : Bool
  pub removed_at : Option ℕ

pub data HistoryDirection : Type 0 where
  of_direction : Direction → HistoryDirection
  mutual_follow profile : HistoryDirection

pub data ChangeKind : Type 0 where
  joined left renamed : ChangeKind

pub record HistoryRow : Type 0 where
  pub account_id : ℕ
  pub direction : HistoryDirection
  pub change_kind : ChangeKind
  pub instagram_profile_id : ℕ
  pub username : Text
  pub interval_change : Bool
  pub observed_at : ℕ
  pub run_id : Option ℕ

pub data EnrichmentStatus : Type 0 where
  pending leased completed cancelled : EnrichmentStatus

pub data EnrichmentReason : Type 0 where
  manual renamed avatar_refresh new_member avatar_cache_backfill : EnrichmentReason

pub record EnrichmentJob : Type 0 where
  pub id : ℕ
  pub instagram_profile_id : ℕ
  pub reason : EnrichmentReason
  pub status : EnrichmentStatus
  pub available_at : ℕ
  pub attempts : ℕ
  pub lease_until : Option ℕ
  pub last_error : Option Text
  pub created_at : ℕ
  pub updated_at : ℕ

pub data AttemptStatus : Type 0 where
  started completed failed cancelled : AttemptStatus

pub record Attempt : Type 0 where
  pub id : ℕ
  pub instagram_profile_id : ℕ
  pub status : AttemptStatus
  pub error : Option Text
  pub attempted_at : ℕ
