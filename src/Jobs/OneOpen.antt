-- ===== src/Jobs/OneOpen.antt =====
-- The index `idx_relationship_jobs_one_open`: what each operation on the queue does to it.
use ig_anonymous_monitor.Base.{
  ℕ, ◌+◌, ◌≤◌, ◌≡◌, inl, inr, Bool, true, false, ◌&&◌, Option, none, List, [], ◌∷◌, arith, ◌==◌,
  find_by, count_by, update_where, Bool-cases, Option-cases, count_by-append_one,
  count_by-update_where_le, count_by-eq_zero, find_by-none, subst, ==→eq, ◌++◌, exists_by,
  exists_by-false,
}
use ig_anonymous_monitor.Store.{
  Database, Account, Job, JobStatus, JobReason, Text, is_open, is_leased, is_pending,
}
use ig_anonymous_monitor.Work.{
  Coordinator, release_jobs, to_pending, lease, take_job, claim_next, expire_leases,
}
use ig_anonymous_monitor.Jobs.{
  is_open_of, cancel, new_job, insert_job, enqueue_relationship_job, freeze_relationships,
  finish_relationship_job, reconcile_one, reconcile_each, is_due,
}
use ig_anonymous_monitor.Jobs.Startup.{cancel_untracked_jobs, is_untracked, refresh_avatar_sources}
use ig_anonymous_monitor.Collector.{place_collector_risk_hold}
use ig_anonymous_monitor.Work.Cases.{claim_next-keeps}

-- An account has at most one open job.
abbrev pub HasOneOpen : List Job → Type 0
HasOneOpen jobs = (account_id : ℕ) → count_by (is_open_of account_id) jobs ≤ 1

-- An update that opens no job keeps the index.
pub update_where-HasOneOpen :
    (p : Job → Bool) (f : Job → Job) (jobs : List Job)
    → ((j : Job) (a : ℕ) → p j ≡ true → is_open_of a (f j) ≡ true → is_open_of a j ≡ true)
    → HasOneOpen jobs
    → HasOneOpen (update_where p f jobs)
update_where-HasOneOpen p f jobs opens h a =
    omega (arith, h a, count_by-update_where_le (is_open_of a) p f jobs (λ j. opens j a))

pub release_jobs-HasOneOpen :
    (now : ℕ) (refs : List ℕ) (jobs : List Job)
    → HasOneOpen jobs
    → HasOneOpen (release_jobs now refs jobs)
unfolding release_jobs
release_jobs-HasOneOpen now [] jobs h = h
release_jobs-HasOneOpen now (ref ∷ refs) jobs h = release_jobs-HasOneOpen now refs _ (
    update_where-HasOneOpen (λ j. (j.id == ref) && is_leased j.status) (to_pending now) jobs
      (λ j a e o. ground arith) h)

new_job-HasOneOpen :
    (now id account_id : ℕ) (nf ng : Bool) (reason : JobReason) (at : ℕ) (jobs : List Job)
    → count_by (is_open_of account_id) jobs ≡ 0
    → HasOneOpen jobs
    → HasOneOpen (jobs ++ new_job now id account_id nf ng reason at ∷ [])
new_job-HasOneOpen now id account_id nf ng reason at jobs none_open h a =
    rw count_by-append_one (elim (Bool-cases (account_id == a)) [
      | inl e ↦
          let own =
            subst (λ z. count_by (is_open_of z) jobs ≡ 0) (==→eq account_id a e) none_open in
          rw (own, e) (omega arith)
      | inr e ↦ rw e (omega (arith, h a))
    ])

insert_job-HasOneOpen :
    (now account_id : ℕ) (nf ng : Bool) (reason : JobReason) (at : ℕ) (db : Database)
    → find_by (is_open_of account_id) db.jobs ≡ none
    → HasOneOpen db.jobs
    → HasOneOpen (insert_job now account_id nf ng reason at db).1.jobs
unfolding insert_job
insert_job-HasOneOpen now account_id nf ng reason at db nothing h =
    new_job-HasOneOpen now _ account_id nf ng reason at db.jobs
      (count_by-eq_zero _ db.jobs (find_by-none _ db.jobs nothing)) h

-- Queueing keeps it: an account with an open job has that job widened, no second one added.
pub enqueue_relationship_job-HasOneOpen :
    (now account_id : ℕ) (nf ng : Bool) (reason : JobReason) (at : ℕ) (db : Database)
    → HasOneOpen db.jobs
    → HasOneOpen (enqueue_relationship_job now account_id nf ng reason at db).1.jobs
unfolding enqueue_relationship_job
enqueue_relationship_job-HasOneOpen now account_id nf ng reason at db h =
    elim (Option-cases (find_by (is_open_of account_id) db.jobs)) [
      | inl nothing ↦
          rw (nothing, enqueue_relationship_job)
            (insert_job-HasOneOpen now account_id nf ng reason at db nothing h)
      | inr (row, found) ↦
          rw (found, enqueue_relationship_job)
            (update_where-HasOneOpen (λ j. j.id == row.id) _ db.jobs (λ j a e o. o) h)
    ]

pub freeze_relationships-HasOneOpen :
    (now account_id at : ℕ) (db : Database)
    → HasOneOpen db.jobs
    → HasOneOpen (freeze_relationships now account_id at db).jobs
unfolding freeze_relationships
freeze_relationships-HasOneOpen now account_id at db h =
    update_where-HasOneOpen (is_open_of account_id) (cancel now) db.jobs (λ j a e o. ground arith) h

pub finish_relationship_job-HasOneOpen :
    (now job_id : ℕ) (status : JobStatus) (error : Option Text) (db : Database)
    → is_open status ≡ false
    → HasOneOpen db.jobs
    → HasOneOpen (finish_relationship_job now job_id status error db).jobs
unfolding finish_relationship_job
finish_relationship_job-HasOneOpen now job_id status error db closed h =
    update_where-HasOneOpen (λ j. j.id == job_id) _ db.jobs (λ j a e o. ground arith) h

-- A hold returns the leased jobs to the queue: they were open before.
pub place_collector_risk_hold-HasOneOpen :
    (now : ℕ) (reason : Text) (db : Database)
    → HasOneOpen db.jobs
    → HasOneOpen (place_collector_risk_hold now reason db).jobs
unfolding place_collector_risk_hold
place_collector_risk_hold-HasOneOpen now reason db h =
    update_where-HasOneOpen (λ j. is_leased j.status) (to_pending now) db.jobs
      (λ j a e o. ground arith) h

pub cancel_untracked_jobs-HasOneOpen :
    (now : ℕ) (db : Database) → HasOneOpen db.jobs → HasOneOpen (cancel_untracked_jobs now db).jobs
unfolding cancel_untracked_jobs
cancel_untracked_jobs-HasOneOpen now db h =
    update_where-HasOneOpen (λ j. is_open j.status && is_untracked db.accounts j.account_id)
      (cancel now) db.jobs (λ j a e o. ground arith) h

pub refresh_avatar_sources-HasOneOpen :
    (now : ℕ) (account_ids : List ℕ) (jobs : List Job)
    → HasOneOpen jobs
    → HasOneOpen (refresh_avatar_sources now account_ids jobs)
unfolding refresh_avatar_sources
refresh_avatar_sources-HasOneOpen now [] jobs h = h
refresh_avatar_sources-HasOneOpen now (q ∷ qs) jobs h =
    elim (Bool-cases (exists_by (is_open_of q) jobs)) [
      | inl e ↦ rw e (refresh_avatar_sources-HasOneOpen now qs jobs h)
      | inr e ↦ rw e (
          refresh_avatar_sources-HasOneOpen now qs _ (
            new_job-HasOneOpen now _ q true true JobReason.avatar_source_refresh now jobs
              (count_by-eq_zero _ jobs (exists_by-false (is_open_of q) jobs e)) h))
    ]

take_job-HasOneOpen :
    (c : Coordinator) (now : ℕ) (row : Job) (db : Database)
    → HasOneOpen db.jobs
    → HasOneOpen (take_job c now row db).1.jobs
unfolding take_job
take_job-HasOneOpen c now row db h =
    let p = λ (j : Job). (j.id == row.id) && is_pending j.status in
    let kept =
      update_where-HasOneOpen p (lease now (now + c.lease_duration)) db.jobs
        (λ j a e o. ground arith) h in
    elim (Bool-cases (count_by p db.jobs == 1)) [
      | inl one ↦ rw one kept
      | inr other ↦ rw other kept
    ]

-- Claiming keeps it: leases that expire return to the same job, and no job is added.
pub claim_next-HasOneOpen :
    (c : Coordinator) (now : ℕ) (canary : Option ℕ) (db : Database)
    → HasOneOpen db.jobs
    → HasOneOpen (claim_next c now canary db).1.jobs
unfolding expire_leases
claim_next-HasOneOpen c now canary db h =
    let kept = release_jobs-HasOneOpen now _ db.jobs h in
    claim_next-keeps (λ d. HasOneOpen d.jobs) c now canary db kept
      (λ row. take_job-HasOneOpen c now row _ kept)

reconcile_one-HasOneOpen :
    (clock now period : ℕ) (jitter : ℕ → ℕ) (row : Account) (acc : ℕ × Database)
    → HasOneOpen acc.1.jobs
    → HasOneOpen (reconcile_one clock now period jitter row acc).1.jobs
unfolding reconcile_one
reconcile_one-HasOneOpen clock now period jitter row (queued, db) h =
    elim (Bool-cases (is_due now period row db)) [
      | inl e ↦ rw e (enqueue_relationship_job-HasOneOpen clock row.id true true _ _ db h)
      | inr e ↦ rw e h
    ]

pub reconcile_each-HasOneOpen :
    (clock now period : ℕ) (jitter : ℕ → ℕ) (rows : List Account) (acc : ℕ × Database)
    → HasOneOpen acc.1.jobs
    → HasOneOpen (reconcile_each clock now period jitter rows acc).1.jobs
unfolding reconcile_each
reconcile_each-HasOneOpen clock now period jitter [] acc h = h
reconcile_each-HasOneOpen clock now period jitter (row ∷ rows) acc h =
    reconcile_each-HasOneOpen clock now period jitter rows _
      (reconcile_one-HasOneOpen clock now period jitter row acc h)
