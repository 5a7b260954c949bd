-- ===== src/Worker/Run.antt =====
-- `RelationshipWorker.run_once` (ig_monitor/relationships.py).
use ig_anonymous_monitor.Base.{
  ℕ, ◌+◌, Bool, true, false, ◌&&◌, not, Option, none, some, List, [], ◌∷◌, leb, ◌==◌, if◌then◌else◌,
}
use ig_anonymous_monitor.Store.{
  Text, Database, Account, Direction, RelationshipStatus, Job, JobStatus, JobReason, WorkStatus,
  Collector, CollectorStateKind,
}
use ig_anonymous_monitor.Reasons.{codes, collector_fatal_reason, target_ineligible_reason}
use ig_anonymous_monitor.Work.{Coordinator, Claim, claim_next, finish}
use ig_anonymous_monitor.Jobs.{
  days, get_account_by_id, set_relationship_status, freeze_relationships, enqueue_relationship_job,
  has_open_relationship_job, has_relationship_job_reason_since, finish_relationship_job,
  enqueue_due_reconciliations,
}
use ig_anonymous_monitor.Collector.{set_collector_state, place_collector_risk_hold}
use ig_anonymous_monitor.Retention.{prune_relationship_data}
use ig_anonymous_monitor.Admin.{
  EnrichmentConfig, Exception, collector_fatal, target_ineligible, other, Answer, returned, raised,
}
use ig_anonymous_monitor.Worker.Collect.{Collected, finished, threw, collect_direction}
use ig_anonymous_monitor.Worker.{
  WorkOutcome, RelationshipTarget, Source, set_verified_identity, record_identity_conflict,
  needs_identity, conflicts_with, requested_directions, is_completed, collect_each, wants_both,
  finalize_relationship_account, outcome,
}

unfoldable pub state_name : CollectorStateKind → Text
state_name CollectorStateKind.unconfigured = codes "unconfigured"
state_name CollectorStateKind.observing = codes "observing"
state_name CollectorStateKind.awaiting_approval = codes "awaiting_approval"
state_name CollectorStateKind.canary = codes "canary"
state_name CollectorStateKind.active = codes "active"
state_name CollectorStateKind.risk_hold = codes "risk_hold"

abbrev pub Outcome : Type 0
Outcome = WorkOutcome × Database

-- The three `except` clauses.
unfoldable pub handle : ℕ → ℕ → Claim → Account → Exception → Database → Outcome
handle clock now claim account (collector_fatal message) db =
    let reason = collector_fatal_reason message in
    let job_id = claim.payload.id in
    (
      outcome WorkStatus.risk_hold (some job_id) (some reason),
      finish clock claim WorkStatus.risk_hold (some reason) (
          finish_relationship_job clock job_id JobStatus.failed (some reason)
            (place_collector_risk_hold clock reason db)),
    )
handle clock now claim account (target_ineligible message) db =
    let reason = target_ineligible_reason message in
    let job_id = claim.payload.id in
    (
      outcome WorkStatus.target_ineligible (some job_id) (some reason),
      finish clock claim WorkStatus.target_ineligible (some reason) (
          finish_relationship_job clock job_id JobStatus.cancelled (some reason)
            (freeze_relationships clock account.id now db)),
    )
handle clock now claim account (other name) db =
    let job_id = claim.payload.id in
    (
      outcome WorkStatus.incomplete (some job_id) (some name),
      finish clock claim WorkStatus.incomplete (some name)
          (finish_relationship_job clock job_id JobStatus.failed (some name) db),
    )

-- The job's last status, after the loop over the directions.
abbrev pub job_status_after : WorkStatus → JobStatus
job_status_after s = if is_completed s then JobStatus.completed else JobStatus.failed

-- The last canary job makes the collector active, when both directions are complete.
abbrev pub promotes : Bool → Option ℕ → Job → Bool → WorkStatus → Bool
promotes canary_final canary_account_id job both overall =
    is_completed overall
    && canary_final
    && both
    && elim canary_account_id [ none ↦ false | some a ↦ job.account_id == a ]

unfoldable pub conclude :
    ℕ → ℕ → Bool → Option ℕ → Claim → Account → Bool → WorkStatus → Database → Outcome
conclude clock now canary_final canary_account_id claim account both overall db =
    let job = claim.payload in
    let closed = finish_relationship_job clock job.id (job_status_after overall) none db in
    let finalized =
      if is_completed overall
      then finalize_relationship_account account.id now closed
      else closed in
    let promoted =
      if promotes canary_final canary_account_id job both overall
      then set_collector_state CollectorStateKind.active now finalized
      else finalized in
    (outcome overall (some job.id) none, finish clock claim overall none promoted)

-- What follows the loop over the directions.
unfoldable pub settle :
    ℕ → ℕ → Bool → Option ℕ → Claim → Account → Bool → Collected × Database → Outcome
unfolding conclude handle
settle clock now canary_final canary_account_id claim account both (finished overall, db) =
    conclude clock now canary_final canary_account_id claim account both overall db
settle clock now canary_final canary_account_id claim account both (threw e, db) =
    handle clock now claim account e db

module _ (same_casefold : Text → Text → Bool) (config : EnrichmentConfig)
    (coordinator : Coordinator) (clock now : ℕ) (jitter : ℕ → ℕ) (source : Source) where
  abbrev pub collect_one : ℕ → ℕ → ℕ → Direction → Database → Collected × Database
  collect_one job_id account_id profile_id d db =
      collect_direction same_casefold config clock now job_id account_id
        (source.iter_members profile_id d) d db

  unfoldable pub collect_requested :
      Bool → Option ℕ → Claim → Account → ℕ → List Direction → Database → Outcome
  unfolding settle
  collect_requested canary_final canary_account_id claim account profile_id [] db = (
    outcome WorkStatus.scope_exceeded (some claim.payload.id) none,
    finish clock claim WorkStatus.scope_exceeded none (
        finish_relationship_job clock claim.payload.id JobStatus.completed none
          (set_relationship_status account.id RelationshipStatus.scope_exceeded db)),
  )
  collect_requested canary_final canary_account_id claim account profile_id (d ∷ ds) db =
      settle clock now canary_final canary_account_id claim account (wants_both (d ∷ ds)) (
        collect_each (collect_one claim.payload.id account.id profile_id) (d ∷ ds)
          WorkStatus.completed db)

  -- The identity is known: the directions are collected.
  unfoldable pub collect : Bool → Option ℕ → Claim → Account → ℕ → Database → Outcome
  unfolding collect_requested
  collect canary_final canary_account_id claim account profile_id db =
      collect_requested canary_final canary_account_id claim account profile_id
        (requested_directions config.member_limit_per_direction account.snapshot claim.payload) db

  -- After `resolve_public_user` returned.
  unfoldable pub identify :
      Bool → Option ℕ → Claim → Account → RelationshipTarget → Database → Outcome
  unfolding collect
  identify canary_final canary_account_id claim account target db =
      let job_id = claim.payload.id in
      let private_reason = codes "PrivateError" in
      if target.is_public
      then (if conflicts_with target.profile_id account.instagram_profile_id
          then (
            outcome WorkStatus.identity_conflict (some job_id) none,
            finish clock claim WorkStatus.identity_conflict none (
                finish_relationship_job clock job_id JobStatus.failed
                  (some (codes "identity conflict"))
                  (record_identity_conflict account.id target.profile_id now db)),
          )
          else collect canary_final canary_account_id claim account target.profile_id (
              if needs_identity account
              then set_verified_identity account.id target.profile_id now db
              else db))
      else (
        outcome WorkStatus.target_ineligible (some job_id) (some private_reason),
        finish clock claim WorkStatus.target_ineligible (some private_reason) (
            finish_relationship_job clock job_id JobStatus.cancelled (some private_reason)
              (freeze_relationships clock account.id now db)),
      )

  unfoldable pub resolve :
      Bool → Option ℕ → Claim → Account → Answer RelationshipTarget → Database → Outcome
  unfolding identify handle
  resolve canary_final canary_account_id claim account (returned target) db =
      identify canary_final canary_account_id claim account target db
  resolve canary_final canary_account_id claim account (raised e) db =
      handle clock now claim account e db

  unfoldable pub run_claim : Bool → Option ℕ → Claim → Database → Outcome
  unfolding resolve
  run_claim canary_final canary_account_id claim db =
      elim (get_account_by_id claim.payload.account_id db) [
        | none ↦ (
          outcome WorkStatus.cancelled (some claim.payload.id) none,
          finish clock claim WorkStatus.cancelled none (
              finish_relationship_job clock claim.payload.id JobStatus.cancelled
                (some (codes "account missing")) db),
        )
        | some account ↦
            resolve canary_final canary_account_id claim account source.resolve_public_user db
      ]

  unfoldable pub claim_and_run : Bool → Option ℕ → Option ℕ → Database → Outcome
  unfolding run_claim
  claim_and_run canary_final canary_filter canary_account_id db =
      let (decision, db') = claim_next coordinator now canary_filter db in
      elim decision.claim [
        | none ↦ (outcome decision.status none none, db')
        | some claim ↦ run_claim canary_final canary_account_id claim db'
      ]

  -- `now >= canary_started_at + timedelta(days=..)`, false if the start is missing
  unfoldable pub canary_is_final : Collector → Bool
  canary_is_final c = elim c.canary_started_at [
    | none ↦ false
    | some started ↦ leb (started + days config.canary_days) now
  ]

  -- The last canary job is queued once; the collector's account is there while it is a canary.
  unfoldable pub queue_canary_final : Collector → Database → Database
  unfolding canary_is_final
  queue_canary_final c db = elim c.canary_account_id [
    | none ↦ db
    | some account_id ↦ elim c.canary_started_at [
      | none ↦ db
      | some started ↦
          if canary_is_final c
            && not (has_open_relationship_job account_id db)
            && not (has_relationship_job_reason_since account_id JobReason.canary_final started db)
          then (enqueue_relationship_job clock account_id true true JobReason.canary_final now db).1
          else db
    ]
  ]

  unfoldable pub run_state : Collector → CollectorStateKind → Database → Outcome
  unfolding claim_and_run canary_is_final queue_canary_final
  run_state c CollectorStateKind.active db =
      claim_and_run false none c.canary_account_id
        (enqueue_due_reconciliations clock now config.reconciliation_days jitter db).1
  run_state c CollectorStateKind.canary db =
      claim_and_run (canary_is_final c) c.canary_account_id c.canary_account_id
        (queue_canary_final c db)
  run_state c s db = (outcome WorkStatus.collector_unavailable none (some (state_name s)), db)

  -- `none` is the exception of the retention pass, which no handler catches.
  unfoldable pub run_once : Database → Option (WorkOutcome × Database)
  unfolding run_state
  run_once db = elim (prune_relationship_data now db) [
    | none ↦ none
    | some pruned ↦ some (
        if config.enabled
        then run_state pruned.collector pruned.collector.state pruned
        else (outcome WorkStatus.disabled none none, pruned))
  ]
