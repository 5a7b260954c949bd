-- ===== src/Jobs/Traces.antt =====
-- The queue of relationship jobs over the operations that write it, in any order.
use ig_anonymous_monitor.Base.{
  ℕ, ◌≡◌, Bool, true, false, Option, [], sym, subst, arith, count_by, select, ◌&&◌,
}
use ig_anonymous_monitor.Store.{Text, Database, Account, JobReason, JobStatus, is_open}
use ig_anonymous_monitor.Work.{Coordinator, claim_next}
use ig_anonymous_monitor.Jobs.{
  enqueue_relationship_job, freeze_relationships, finish_relationship_job,
  enqueue_due_reconciliations,
}
use ig_anonymous_monitor.Jobs.Startup.{
  accounts_of_duplicates, cancel_untracked_jobs, discard_duplicate_private_avatar_placeholders,
}
use ig_anonymous_monitor.Collector.{place_collector_risk_hold}
use ig_anonymous_monitor.Jobs.OneOpen.{
  HasOneOpen, enqueue_relationship_job-HasOneOpen, freeze_relationships-HasOneOpen,
  finish_relationship_job-HasOneOpen, claim_next-HasOneOpen, reconcile_each-HasOneOpen,
  place_collector_risk_hold-HasOneOpen, cancel_untracked_jobs-HasOneOpen,
  refresh_avatar_sources-HasOneOpen,
}

-- `syncs` is what `sync_accounts` writes to the queue, `opens` what the opening of the database does;
-- `elsewhere` is any change of the other tables.
pub data Step : Database → Database → Type 0 where
  queues :
      (clock account_id : ℕ) (followers following : Bool) (reason : JobReason) (at : ℕ)
      (db : Database)
      → Step db (enqueue_relationship_job clock account_id followers following reason at db).1
  freezes :
      (clock account_id at : ℕ) (db : Database)
      → Step db (freeze_relationships clock account_id at db)
  finishes :
      (clock job_id : ℕ) (status : JobStatus) (error : Option Text) (db : Database)
      → is_open status ≡ false
      → Step db (finish_relationship_job clock job_id status error db)
  claims :
      (c : Coordinator) (now : ℕ) (canary : Option ℕ) (db : Database)
      → Step db (claim_next c now canary db).1
  reconciles :
      (clock now period : ℕ) (jitter : ℕ → ℕ) (db : Database)
      → Step db (enqueue_due_reconciliations clock now period jitter db).1
  holds :
      (now : ℕ) (reason : Text) (db : Database) → Step db (place_collector_risk_hold now reason db)
  syncs : (now : ℕ) (db : Database) → Step db (cancel_untracked_jobs now db)
  opens :
      (now : ℕ) (marked : Bool) (db : Database)
      → Step db (discard_duplicate_private_avatar_placeholders now marked db).1
  elsewhere : (db db' : Database) → db'.jobs ≡ db.jobs → Step db db'

pub data Reach (s : Database) : Database → Type 0 where
  here : Reach s s
  next : {t u : Database} → Reach s t → Step t u → Reach s u

Step-HasOneOpen : {s t : Database} → Step s t → HasOneOpen s.jobs → HasOneOpen t.jobs
unfolding enqueue_due_reconciliations discard_duplicate_private_avatar_placeholders
Step-HasOneOpen (queues clock a f g reason at db) h =
    enqueue_relationship_job-HasOneOpen clock a f g reason at db h
Step-HasOneOpen (freezes clock a at db) h = freeze_relationships-HasOneOpen clock a at db h
Step-HasOneOpen (finishes clock job_id status error db closed) h =
    finish_relationship_job-HasOneOpen clock job_id status error db closed h
Step-HasOneOpen (claims c now canary db) h = claim_next-HasOneOpen c now canary db h
Step-HasOneOpen (reconciles clock now period jitter db) h =
    reconcile_each-HasOneOpen clock now period jitter
      (select (λ (a : Account). a.enabled && a.relationship_tracking) db.accounts) (0, db) h
Step-HasOneOpen (holds now reason db) h = place_collector_risk_hold-HasOneOpen now reason db h
Step-HasOneOpen (syncs now db) h = cancel_untracked_jobs-HasOneOpen now db h
Step-HasOneOpen (opens now true db) h = h
Step-HasOneOpen (opens now false db) h =
    refresh_avatar_sources-HasOneOpen now (accounts_of_duplicates db.members db.memberships) db.jobs
      h
Step-HasOneOpen (elsewhere db db' same) h = subst HasOneOpen (sym same) h

-- From an empty queue, after jobs have been queued, frozen, finished (with a status that is not
-- open), claimed, reconciled, returned by a hold, cancelled by a synchronisation of the accounts and
-- added at the opening of the database, in any order, with the other tables changing in any way
-- between, no account has two open jobs.
pub Reach-HasOneOpen : {s t : Database} → s.jobs ≡ [] → Reach s t → HasOneOpen t.jobs
unfolding count_by
Reach-HasOneOpen empty here = subst HasOneOpen (sym empty) (λ a. omega arith)
Reach-HasOneOpen empty (next path step) = Step-HasOneOpen step (Reach-HasOneOpen empty path)
