-- ===== src/Jobs.antt =====
-- The queue of relationship jobs (ig_monitor/db.py). `now` is what the call reads by `utc_now`.
-- Accounts stand in the order of `sort_order, id`, and every other table in the order of its ids.
pub mod OneOpen
pub mod Startup
pub mod Traces
use ig_anonymous_monitor.Base.{
  ℕ, ◌+◌, ◌*◌, Bool, true, false, ◌&&◌, ◌||◌, Option, none, some, List, [], ◌∷◌, ◌++◌, ltb, leb,
  ◌==◌, if◌then◌else◌, select, find_by, exists_by, update_where, next_id,
}
use ig_anonymous_monitor.Store.{
  Text, Database, Account, ProfileSnapshot, Job, JobStatus, JobReason, RelationshipStatus, is_open,
  is_public, same_reason,
}

abbrev pub has_id : ℕ → Account → Bool
has_id account_id a = a.id == account_id

abbrev pub is_open_of : ℕ → Job → Bool
is_open_of account_id j = (j.account_id == account_id) && is_open j.status

unfoldable pub get_account_by_id : ℕ → Database → Option Account
get_account_by_id account_id db = find_by (has_id account_id) db.accounts

unfoldable pub set_relationship_status : ℕ → RelationshipStatus → Database → Database
set_relationship_status account_id status db = record db {
  accounts =
      update_where (has_id account_id) (λ a. record a { relationship_status = status }) db.accounts;
}

abbrev pub cancel : ℕ → Job → Job
cancel now j = record j { status = JobStatus.cancelled; lease_until = none; updated_at = now }

unfoldable pub freeze_relationships : ℕ → ℕ → ℕ → Database → Database
freeze_relationships now account_id observed_at db = record db {
  accounts =
      update_where (has_id account_id)
        (λ a. record a {
          relationship_status = RelationshipStatus.frozen;
          relationship_frozen_at = some observed_at;
        })
        db.accounts;
  jobs = update_where (is_open_of account_id) (cancel now) db.jobs;
}

abbrev pub widen : ℕ → Bool → Bool → JobReason → Job → Job
widen now need_followers need_following reason j = record j {
  need_followers = need_followers;
  need_following = need_following;
  reason = reason;
  updated_at = now;
}

abbrev pub new_job : ℕ → ℕ → ℕ → Bool → Bool → JobReason → ℕ → Job
new_job now id account_id need_followers need_following reason available_at = record {
  id = id;
  account_id = account_id;
  need_followers = need_followers;
  need_following = need_following;
  reason = reason;
  status = JobStatus.pending;
  available_at = available_at;
  lease_until = none;
  started_at = none;
  attempts = 0;
  last_error = none;
  created_at = now;
  updated_at = now;
}

abbrev pub to_queued : RelationshipStatus → RelationshipStatus
to_queued RelationshipStatus.scope_exceeded = RelationshipStatus.scope_exceeded
to_queued _ = RelationshipStatus.queued

-- The account has a row: the check of the foreign key `account_id` is not modelled.
unfoldable pub insert_job : ℕ → ℕ → Bool → Bool → JobReason → ℕ → Database → ℕ × Database
insert_job now account_id need_followers need_following reason available_at db =
    let id = next_id (λ (j : Job). j.id) db.jobs in
    (
      id,
      record db {
        jobs =
            db.jobs
            ++ new_job now id account_id need_followers need_following reason available_at ∷ [];
        accounts =
            update_where (has_id account_id)
              (λ a. record a { relationship_status = to_queued a.relationship_status }) db.accounts;
      },
    )

-- An open job of the account is widened; otherwise a new one is added.
unfoldable pub enqueue_relationship_job :
    ℕ → ℕ → Bool → Bool → JobReason → ℕ → Database → ℕ × Database
enqueue_relationship_job now account_id need_followers need_following reason available_at db =
    elim (find_by (is_open_of account_id) db.jobs) [
      | none ↦ insert_job now account_id need_followers need_following reason available_at db
      | some row ↦ (
        row.id,
        record db {
          jobs =
              update_where (λ j. j.id == row.id)
                (widen now (row.need_followers || need_followers)
                  (row.need_following || need_following) reason)
                db.jobs;
        },
      )
    ]

-- `none` is the KeyError.
unfoldable pub get_relationship_job : ℕ → Database → Option Job
get_relationship_job job_id db = find_by (λ j. j.id == job_id) db.jobs

unfoldable pub relationship_jobs : Option ℕ → Database → List Job
relationship_jobs none db = db.jobs
relationship_jobs (some account_id) db = select (λ j. j.account_id == account_id) db.jobs

unfoldable pub has_open_relationship_job : ℕ → Database → Bool
has_open_relationship_job account_id db = exists_by (is_open_of account_id) db.jobs

unfoldable pub has_relationship_job_reason_since : ℕ → JobReason → ℕ → Database → Bool
has_relationship_job_reason_since account_id reason since db =
    exists_by
      (λ j. (j.account_id == account_id) && same_reason j.reason reason && leb since j.created_at)
      db.jobs

unfoldable pub finish_relationship_job : ℕ → ℕ → JobStatus → Option Text → Database → Database
finish_relationship_job now job_id status error db = record db {
  jobs =
      update_where (λ j. j.id == job_id)
        (λ j. record j {
          status = status;
          lease_until = none;
          last_error = error;
          updated_at = now;
        })
        db.jobs;
}

abbrev pub days : ℕ → ℕ
days n = n * 86400

-- A snapshot that shows the profile as public.
abbrev pub shows_public : Option ProfileSnapshot → Bool
shows_public none = false
shows_public (some s) = is_public s.privacy

-- `reconciled and fromisoformat(reconciled) > now - timedelta(days=..)`
abbrev pub is_recent : ℕ → ℕ → Option ℕ → Bool
is_recent now period none = false
is_recent now period (some reconciled) = ltb now (reconciled + days period)

unfoldable pub is_due : ℕ → ℕ → Account → Database → Bool
is_due now period a db = elim (has_open_relationship_job a.id db) [
  | true ↦ false
  | false ↦
      if shows_public a.snapshot
      then (if is_recent now period a.relationship_reconciled_at then false else true)
      else false
]

-- The body of the loop; `jitter` is the draw of `random_uniform(0, 86_400)` for an account.
unfoldable pub reconcile_one : ℕ → ℕ → ℕ → (ℕ → ℕ) → Account → ℕ × Database → ℕ × Database
reconcile_one clock now period jitter row (queued, db) =
    if is_due now period row db
    then (
      queued + 1,
      (enqueue_relationship_job clock row.id true true JobReason.reconciliation
          (now + jitter row.id) db).1,
    )
    else (queued, db)

unfoldable pub reconcile_each : ℕ → ℕ → ℕ → (ℕ → ℕ) → List Account → ℕ × Database → ℕ × Database
reconcile_each clock now period jitter [] acc = acc
reconcile_each clock now period jitter (row ∷ rows) acc =
    reconcile_each clock now period jitter rows (reconcile_one clock now period jitter row acc)

unfoldable pub enqueue_due_reconciliations : ℕ → ℕ → ℕ → (ℕ → ℕ) → Database → ℕ × Database
unfolding reconcile_each
enqueue_due_reconciliations clock now period jitter db =
    reconcile_each clock now period jitter
      (select (λ a. a.enabled && a.relationship_tracking) db.accounts) (0, db)
