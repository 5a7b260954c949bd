-- ===== src/Trigger.antt =====
-- `RelationshipTrigger` (ig_monitor/relationships.py): observations of profiles become jobs.
pub mod Queued
use ig_anonymous_monitor.Base.{
  ℕ, Bool, true, false, ◌&&◌, ◌||◌, not, Option, none, some, List, [], ◌∷◌, leb, ◌==◌,
  if◌then◌else◌, is_some,
}
use ig_anonymous_monitor.Store.{
  Database, Account, Direction, PrivacyState, ProfileSnapshot, RelationshipStatus, Job, JobReason,
  is_public,
}
use ig_anonymous_monitor.Jobs.{
  get_account_by_id, set_relationship_status, freeze_relationships, enqueue_relationship_job,
  get_relationship_job,
}
use ig_anonymous_monitor.Admin.{EnrichmentConfig}
use ig_anonymous_monitor.Worker.{add_if, count_in}

pub data TriggerAction : Type 0 where
  disabled account_disabled frozen scope_exceeded unchanged queued : TriggerAction

pub record TriggerOutcome : Type 0 where
  pub action : TriggerAction
  pub directions : List Direction
  pub job_id : Option ℕ

-- An outcome, or the KeyError of a job that is not there.
pub data TriggerResult : Type 0 where
  observed : TriggerOutcome → TriggerResult
  key_error : TriggerResult

abbrev pub simply : TriggerAction → TriggerResult
simply action = observed (record { action = action; directions = []; job_id = none })

-- `previous is not None and previous.privacy != PrivacyState.PUBLIC`
abbrev pub is_reopened : Option ProfileSnapshot → Bool
is_reopened none = false
is_reopened (some p) = not (is_public p.privacy)

-- `first_observation or .. or previous.followers != current.followers`, for either direction
abbrev pub has_changed : Direction → Option ProfileSnapshot → ProfileSnapshot → Bool
has_changed d none current = true
has_changed d (some p) current = not (count_in d p == count_in d current)

abbrev pub has_baseline : Direction → Account → Bool
has_baseline Direction.followers_direction a = is_some a.followers_baseline_at
has_baseline Direction.following_direction a = is_some a.following_baseline_at

abbrev pub is_scoped : EnrichmentConfig → Direction → ProfileSnapshot → Bool
is_scoped config d current = leb (count_in d current) config.member_limit_per_direction

-- `need_followers`, `need_following`
unfoldable pub is_needed :
    EnrichmentConfig → Direction → Account → Option ProfileSnapshot → ProfileSnapshot → Bool
is_needed config d account previous current =
    (not (has_baseline d account) || is_reopened previous || has_changed d previous current)
    && is_scoped config d current

abbrev pub reason_of : Account → Option ProfileSnapshot → JobReason
reason_of account previous =
    if is_reopened previous
    then JobReason.reopened
    else if not (is_some previous)
        || not (has_baseline Direction.followers_direction account)
        || not (has_baseline Direction.following_direction account)
    then JobReason.baseline
    else JobReason.count_change

-- `widened`: what the job now asks for.
abbrev pub answer_of : ℕ → Option Job → TriggerResult
answer_of job_id none = key_error
answer_of job_id (some job) = observed (record {
  action = TriggerAction.queued;
  directions =
      add_if job.need_followers Direction.followers_direction
        (add_if job.need_following Direction.following_direction []);
  job_id = some job_id;
})

unfoldable pub mark_status : Bool → Bool → ℕ → Database → Database
mark_status all_scoped reopened account_id db =
    if not all_scoped
    then set_relationship_status account_id RelationshipStatus.scope_exceeded db
    else if reopened
    then set_relationship_status account_id RelationshipStatus.queued db
    else db

-- From the test of `directions` on.
unfoldable pub queue_directions :
    ℕ → ℕ → ℕ → Bool → Bool → Bool → JobReason → Database → TriggerResult × Database
queue_directions clock account_id now all_scoped need_followers need_following reason db =
    if need_followers || need_following
    then (let (job_id, queued_db) =
          enqueue_relationship_job clock account_id need_followers need_following reason now db in
        (answer_of job_id (get_relationship_job job_id queued_db), queued_db))
    else (simply (if all_scoped then TriggerAction.unchanged else TriggerAction.scope_exceeded), db)

-- A public profile of a tracked account.
unfoldable pub observe_public :
    EnrichmentConfig
    → ℕ
    → Account
    → Option ProfileSnapshot
    → ProfileSnapshot
    → ℕ
    → Database
    → TriggerResult × Database
unfolding queue_directions mark_status is_needed
observe_public config clock account previous current now db =
    let all_scoped =
      is_scoped config Direction.followers_direction current
      && is_scoped config Direction.following_direction current in
    queue_directions clock account.id now all_scoped
      (is_needed config Direction.followers_direction account previous current)
      (is_needed config Direction.following_direction account previous current)
      (reason_of account previous) (mark_status all_scoped (is_reopened previous) account.id db)

abbrev pub is_tracked : Option Account → Option Account
is_tracked none = none
is_tracked (some a) = if a.relationship_tracking then some a else none

unfoldable pub observe_profile :
    EnrichmentConfig
    → ℕ
    → ℕ
    → Option ProfileSnapshot
    → ProfileSnapshot
    → ℕ
    → Database
    → TriggerResult × Database
unfolding observe_public
observe_profile config clock account_id previous current observed_at db =
    if config.enabled
    then elim (is_tracked (get_account_by_id account_id db)) [
      | none ↦ (simply TriggerAction.account_disabled, db)
      | some account ↦
          if is_public current.privacy
          then observe_public config clock account previous current observed_at db
          else (simply TriggerAction.frozen, freeze_relationships clock account_id observed_at db)
    ]
    else (simply TriggerAction.disabled, db)
