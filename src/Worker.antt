-- ===== src/Worker.antt =====
-- `RelationshipWorker` (ig_monitor/relationships.py). What the source answers is an argument, the
-- delays between requests are left out, and `clock` is what the database reads by `utc_now`.
pub mod Collect
pub mod Run
pub mod Partial
pub mod Held
pub mod Closing
pub mod Gate
use ig_anonymous_monitor.Base.{
  ℕ, ◌+◌, ◌*◌, Bool, true, false, ◌&&◌, ◌||◌, not, Option, none, some, List, [], ◌∷◌, ltb, leb,
  ◌==◌, if◌then◌else◌, update_where,
}
use ig_anonymous_monitor.Store.{
  Text, Database, Account, ProfileSnapshot, Direction, RelationshipStatus, IdentitySource, Job,
  JobStatus, JobReason, WorkStatus, Collector, CollectorStateKind, Event, EventKey, Payload,
  same_state,
}
use ig_anonymous_monitor.Reasons.{codes, collector_fatal_reason, target_ineligible_reason}
use ig_anonymous_monitor.Work.{Coordinator, Claim, ClaimOutcome, claim_next, finish}
use ig_anonymous_monitor.Jobs.{
  has_id, days, get_account_by_id, set_relationship_status, freeze_relationships,
  enqueue_relationship_job, has_open_relationship_job, has_relationship_job_reason_since,
  finish_relationship_job, enqueue_due_reconciliations,
}
use ig_anonymous_monitor.Collector.{set_collector_state, place_collector_risk_hold, insert_event}
use ig_anonymous_monitor.Retention.{prune_relationship_data}
use ig_anonymous_monitor.Admin.{
  EnrichmentConfig, Exception, collector_fatal, target_ineligible, other, Answer, returned, raised,
}
use Collect.{Listing, Collected, finished, threw, collect_direction}

-- `WorkOutcome`
pub record WorkOutcome : Type 0 where
  pub status : WorkStatus
  pub job_id : Option ℕ
  pub detail : Option Text

-- `RelationshipTarget`, less its user name.
pub record RelationshipTarget : Type 0 where
  pub profile_id : ℕ
  pub is_public : Bool

pub record Source : Type 0 where
  pub resolve_public_user : Answer RelationshipTarget
  pub iter_members : ℕ → Direction → Listing

unfoldable pub set_verified_identity : ℕ → ℕ → ℕ → Database → Database
set_verified_identity account_id profile_id observed_at db = record db {
  accounts =
      update_where (has_id account_id)
        (λ a. record a {
          instagram_profile_id = some profile_id;
          identity_verified_source = some IdentitySource.instagrapi;
          identity_verified_at = some observed_at;
          identity_conflict = none;
        })
        db.accounts;
}

unfoldable pub stored_profile_id : ℕ → Database → Option ℕ
stored_profile_id account_id db = elim (get_account_by_id account_id db) [
  | none ↦ none
  | some a ↦ a.instagram_profile_id
]

unfoldable pub record_identity_conflict : ℕ → ℕ → ℕ → Database → Database
record_identity_conflict account_id observed_profile_id observed_at db =
    let stored = stored_profile_id account_id db in
    record db {
      accounts =
          update_where (has_id account_id)
            (λ a. record a {
              identity_conflict = some (stored, observed_profile_id, observed_at);
              relationship_status = RelationshipStatus.identity_conflict;
            })
            db.accounts;
      events =
          insert_event
            (record {
              key = EventKey.identity_conflict_key account_id observed_at;
              account_id = some account_id;
              payload = Payload.conflict stored observed_profile_id observed_at;
              created_at = observed_at;
            })
            db.events;
    }

abbrev pub is_instagrapi : Option IdentitySource → Bool
is_instagrapi (some IdentitySource.instagrapi) = true
is_instagrapi _ = false

-- The stored id is missing or was not verified by this source.
abbrev pub needs_identity : Account → Bool
needs_identity a = elim a.instagram_profile_id [
  | none ↦ true
  | some id ↦ not (is_instagrapi a.identity_verified_source)
]

abbrev pub conflicts_with : ℕ → Option ℕ → Bool
conflicts_with profile_id none = false
conflicts_with profile_id (some id) = not (id == profile_id)

abbrev pub count_in : Direction → ProfileSnapshot → ℕ
count_in Direction.followers_direction s = s.followers
count_in Direction.following_direction s = s.following

abbrev pub in_scope : ℕ → Option ProfileSnapshot → Direction → Bool
in_scope limit none d = true
in_scope limit (some s) d = leb (count_in d s) limit

abbrev pub add_if : Bool → Direction → List Direction → List Direction
add_if wanted d rest = if wanted then d ∷ rest else rest

-- The directions that the job asks for and whose counts are within the limit.
unfoldable pub requested_directions : ℕ → Option ProfileSnapshot → Job → List Direction
requested_directions limit snapshot job =
    add_if (job.need_followers && in_scope limit snapshot Direction.followers_direction)
      Direction.followers_direction
      (add_if (job.need_following && in_scope limit snapshot Direction.following_direction)
        Direction.following_direction [])

abbrev pub is_completed : WorkStatus → Bool
is_completed WorkStatus.completed = true
is_completed _ = false

-- The loop over the requested directions; the last failure is the overall result.
unfoldable pub collect_each :
    (Direction → Database → Collected × Database)
    → List Direction
    → WorkStatus
    → Database
    → Collected × Database
collect_each collect [] overall db = (finished overall, db)
collect_each collect (d ∷ ds) overall db =
    let (result, db') = collect d db in
    elim result [
      | finished s ↦ collect_each collect ds (if is_completed s then overall else s) db'
      | threw e ↦ (threw e, db')
    ]

abbrev pub wants_both : List Direction → Bool
wants_both (d ∷ e ∷ ds) = true
wants_both _ = false

unfoldable pub finalize_relationship_account : ℕ → ℕ → Database → Database
finalize_relationship_account account_id observed_at db = record db {
  accounts =
      update_where (has_id account_id)
        (λ a. record a {
          relationship_status = elim a.relationship_status [
            | RelationshipStatus.scope_exceeded ↦ RelationshipStatus.scope_exceeded
            | _ ↦ RelationshipStatus.complete
          ];
          relationship_frozen_at = none;
          relationship_reconciled_at = some observed_at;
        })
        db.accounts;
}

abbrev pub outcome : WorkStatus → Option ℕ → Option Text → WorkOutcome
outcome status job_id detail = record { status = status; job_id = job_id; detail = detail }
