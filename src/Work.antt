-- ===== src/Work.antt =====
-- ig_monitor/authenticated_work.py: the coordinator that owns the start budget, the spacing and
-- the lease of all authenticated work. A transaction is a function on the database; an early
-- return inside it commits what was written before.
pub mod Cases
pub mod Budget
pub mod Choice
pub mod Traces
pub mod Progress
use ig_anonymous_monitor.Base.{
  ℕ, ◌+◌, ◌*◌, ◌/◌, Bool, true, false, ◌&&◌, Option, none, some, List, [], ◌∷◌, ◌++◌, map, ltb, leb,
  ◌==◌, if◌then◌else◌, max, select, find_by, count_by, exists_by, update_where, next_id,
}
use ig_anonymous_monitor.Store.{
  Text, Database, Account, Job, JobStatus, JobReason, WorkKind, WorkRun, WorkRunStatus, WorkStatus,
  is_pending, is_leased, is_relationship, is_running,
}

-- The arguments of `AuthenticatedWorkCoordinator`, its intervals in seconds.
pub record Coordinator : Type 0 where
  pub daily_start_limit : ℕ
  pub minimum_start_interval : ℕ
  pub lease_duration : ℕ

abbrev pub coordinator : ℕ → ℕ → ℕ → Coordinator
coordinator limit interval_minutes lease_minutes = record {
  daily_start_limit = limit;
  minimum_start_interval = interval_minutes * 60;
  lease_duration = lease_minutes * 60;
}

pub record Claim : Type 0 where
  pub run_id : ℕ
  pub kind : WorkKind
  pub work_ref_id : ℕ
  pub payload : Job

pub record ClaimOutcome : Type 0 where
  pub status : WorkStatus
  pub claim : Option Claim

-- The day, counted from 1970, of a time in the time zone `TAIPEI`.
unfoldable pub taipei_day : ℕ → ℕ
taipei_day t = (t + 8 * 3600) / (24 * 3600)

abbrev pub is_expired : ℕ → WorkRun → Bool
is_expired now r = is_running r.status && ltb r.lease_until now

abbrev pub to_pending : ℕ → Job → Job
to_pending now j = record j { status = JobStatus.pending; lease_until = none; updated_at = now }

-- The `executemany` that gives the jobs of expired runs back to the queue.
unfoldable pub release_jobs : ℕ → List ℕ → List Job → List Job
release_jobs now [] jobs = jobs
release_jobs now (ref ∷ refs) jobs =
    release_jobs now refs
      (update_where (λ j. (j.id == ref) && is_leased j.status) (to_pending now) jobs)

abbrev pub abandon : ℕ → WorkRun → WorkRun
abandon now r = record r {
  status = WorkRunStatus.abandoned;
  finished_at = some now;
  outcome = some WorkStatus.lease_expired;
}

unfoldable pub expire_leases : ℕ → Database → Database
expire_leases now db = record db {
  jobs =
      release_jobs now
        (map (λ (r : WorkRun). r.work_ref_id)
          (select (λ r. is_expired now r && is_relationship r.work_kind) db.work_runs))
        db.jobs;
  work_runs = update_where (is_expired now) (abandon now) db.work_runs;
}

-- `SELECT MAX(started_at)`
unfoldable pub last_start : List WorkRun → Option ℕ
last_start [] = none
last_start (r ∷ rs) = elim (last_start rs) [
  | none ↦ some r.started_at
  | some t ↦ some (max r.started_at t)
]

abbrev pub is_too_soon : ℕ → ℕ → Option ℕ → Bool
is_too_soon now interval none = false
is_too_soon now interval (some last) = ltb now (last + interval)

-- The CASE of the ORDER BY.
abbrev pub priority : JobReason → ℕ
priority JobReason.reopened = 0
priority JobReason.count_change = 1
priority JobReason.canary = 2
priority _ = 3

unfoldable pub precedes : Job → Job → Bool
precedes a b =
    if ltb (priority a.reason) (priority b.reason)
    then true
    else (priority a.reason == priority b.reason) && ltb a.id b.id

-- `ORDER BY CASE j.reason .. END, j.id LIMIT 1`
unfoldable pub first_in_order : List Job → Option Job
first_in_order [] = none
first_in_order (j ∷ js) = elim (first_in_order js) [
  | none ↦ some j
  | some k ↦ some (if precedes k j then k else j)
]

-- `a.enabled=1 AND a.relationship_tracking=1` of the account that the job joins
unfoldable pub account_allows : List Account → ℕ → Bool
account_allows accounts id = elim (find_by (λ a. a.id == id) accounts) [
  | none ↦ false
  | some a ↦ a.enabled && a.relationship_tracking
]

abbrev pub is_canary_job : Option ℕ → Job → Bool
is_canary_job none j = true
is_canary_job (some account_id) j = j.account_id == account_id

unfoldable pub is_eligible : ℕ → Option ℕ → List Account → Job → Bool
is_eligible now canary_account_id accounts j =
    is_pending j.status
    && leb j.available_at now
    && account_allows accounts j.account_id
    && is_canary_job canary_account_id j

abbrev pub lease : ℕ → ℕ → Job → Job
lease now lease_until j = record j {
  status = JobStatus.leased;
  lease_until = some lease_until;
  started_at = some now;
  attempts = j.attempts + 1;
  updated_at = now;
}

abbrev pub new_run : ℕ → ℕ → ℕ → ℕ → WorkRun
new_run id job_id now lease_until = record {
  id = id;
  work_kind = WorkKind.relationship;
  work_ref_id = job_id;
  budget_day = taipei_day now;
  status = WorkRunStatus.running;
  lease_until = lease_until;
  started_at = now;
  finished_at = none;
  outcome = none;
  error = none;
}

abbrev pub refuse : WorkStatus → Database → ClaimOutcome × Database
refuse s db = (record { status = s; claim = none }, db)

-- From the UPDATE of the chosen job on; the payload keeps the old `attempts` and `updated_at`. The
-- error of the INSERT on `UNIQUE(work_kind,work_ref_id,started_at)`, for a job that is claimed twice
-- within one second, is not modelled.
unfoldable pub take_job : Coordinator → ℕ → Job → Database → ClaimOutcome × Database
take_job c now row db =
    let lease_until = now + c.lease_duration in
    let chosen = λ (j : Job). (j.id == row.id) && is_pending j.status in
    let rowcount = count_by chosen db.jobs in
    let leased = record db { jobs = update_where chosen (lease now lease_until) db.jobs } in
    let run_id = next_id (λ (r : WorkRun). r.id) db.work_runs in
    let claimed = record leased {
      work_runs = db.work_runs ++ new_run run_id row.id now lease_until ∷ [];
      collector = record (db.collector) { last_job_started_at = some now };
    } in
    let claim : Claim = record {
      run_id = run_id;
      kind = WorkKind.relationship;
      work_ref_id = row.id;
      payload = record row {
        status = JobStatus.leased;
        lease_until = some lease_until;
        started_at = some now;
      };
    } in
    if rowcount == 1
    then (record { status = WorkStatus.claimed; claim = some claim }, claimed)
    else refuse WorkStatus.busy leased

unfoldable pub select_job : Coordinator → ℕ → Option ℕ → Database → ClaimOutcome × Database
unfolding take_job
select_job c now canary_account_id db =
    elim (first_in_order (select (is_eligible now canary_account_id db.accounts) db.jobs)) [
      | none ↦ refuse WorkStatus.idle db
      | some row ↦ take_job c now row db
    ]

-- The guards, on the database in which expired leases are gone.
unfoldable pub claim_checked : Coordinator → ℕ → Option ℕ → Database → ClaimOutcome × Database
unfolding select_job
claim_checked c now canary_account_id db =
    if exists_by (λ r. is_running r.status && leb now r.lease_until) db.work_runs
    then refuse WorkStatus.busy db
    else if leb c.daily_start_limit (count_by (λ r. r.budget_day == taipei_day now) db.work_runs)
    then refuse WorkStatus.daily_budget db
    else if is_too_soon now c.minimum_start_interval (last_start db.work_runs)
    then refuse WorkStatus.spacing db
    else select_job c now canary_account_id db

unfoldable pub claim_next : Coordinator → ℕ → Option ℕ → Database → ClaimOutcome × Database
unfolding claim_checked expire_leases
claim_next c now canary_account_id db = claim_checked c now canary_account_id (expire_leases now db)

abbrev pub is_run_of : Claim → WorkRun → Bool
is_run_of claim r = (r.id == claim.run_id) && is_running r.status

abbrev pub end_run : ℕ → WorkStatus → Option Text → WorkRun → WorkRun
end_run finished_at outcome error r = record r {
  status = WorkRunStatus.finished;
  finished_at = some finished_at;
  outcome = some outcome;
  error = error;
}

-- `finish`, at the coordinator's clock `finished_at`
unfoldable pub finish : ℕ → Claim → WorkStatus → Option Text → Database → Database
finish finished_at claim outcome error db = record db {
  work_runs = update_where (is_run_of claim) (end_run finished_at outcome error) db.work_runs;
}
