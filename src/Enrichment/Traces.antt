-- ===== src/Enrichment/Traces.antt =====
-- The queue of enrichment jobs over the operations that write it, in any order.
use ig_anonymous_monitor.Base.{
  ℕ, ◌≡◌, sym, subst, Bool, Option, some, List, [], arith, count_by, delete_where,
  count_by-delete_where_le,
}
use ig_anonymous_monitor.Store.{
  Text, Database, Direction, ProfileSnapshot, EnrichmentReason, EnrichmentJob,
}
use ig_anonymous_monitor.Snapshot.{
  MemberIdentity, is_open_enrichment_of, stage_relationship_members,
}
use ig_anonymous_monitor.Snapshot.Apply.{apply_complete_relationship_run}
use ig_anonymous_monitor.Enrichment.{
  Ending, claim_member_enrichment_job, enqueue_member_enrichment, finish_member_enrichment_job,
  retry_member_enrichment_job,
}
use ig_anonymous_monitor.Enrichment.Profile.{apply_member_profile}
use ig_anonymous_monitor.Enrichment.Startup.{backfill_member_avatar_jobs}
use ig_anonymous_monitor.Enrichment.Open.{HasOneOpenMember, backfill_each-HasOneOpenMember}
use ig_anonymous_monitor.Enrichment.Writers.{
  HasKeys, IsClaimed, claim-HasOneOpenMember, enqueue-HasOneOpenMember, finish-HasOneOpenMember,
  retry-HasOneOpenMember, profile-HasOneOpenMember, apply_complete-HasOneOpenMember,
  stage_from-HasOneOpenMember,
}

-- `opens` is the opening of the database, `elsewhere` any change of the other tables, and `forgets`
-- any deletion of jobs, as the retention pass's.
pub data Step (same_casefold : Text → Text → Bool) : Database → Database → Type 0 where
  claims :
      (now : ℕ) (db : Database)
      → HasKeys db.enrichment_jobs
      → Step same_casefold db (claim_member_enrichment_job now db).1
  queues :
      (clock profile_id : ℕ) (reason : EnrichmentReason) (at : ℕ) (db : Database)
      → Step same_casefold db (enqueue_member_enrichment clock profile_id reason at db).1
  finishes :
      (clock job_id : ℕ) (ending : Ending) (error : Option Text) (db : Database)
      → Step same_casefold db (finish_member_enrichment_job clock job_id ending error db)
  retries :
      (clock job_id at : ℕ) (error : Text) (db : Database)
      → IsClaimed job_id db.enrichment_jobs
      → Step same_casefold db (retry_member_enrichment_job clock job_id at error db)
  completes :
      (job : EnrichmentJob) (s : ProfileSnapshot) (at : ℕ) (db : Database)
      → Step same_casefold db (apply_member_profile same_casefold job s at db)
  stages :
      (now run_id : ℕ) (members : List MemberIdentity) (db : Database)
      → Step same_casefold db (stage_relationship_members same_casefold now run_id members db)
  joins :
      (run_id account_id : ℕ) (d : Direction) (at stale_days : ℕ) (db db' : Database)
      → apply_complete_relationship_run run_id account_id d at stale_days db ≡ some db'
      → Step same_casefold db db'
  forgets :
      (p : EnrichmentJob → Bool) (db : Database)
      → Step same_casefold db (record db { enrichment_jobs = delete_where p db.enrichment_jobs })
  opens : (now : ℕ) (db : Database) → Step same_casefold db (backfill_member_avatar_jobs now db)
  elsewhere :
      (db db' : Database) → db'.enrichment_jobs ≡ db.enrichment_jobs → Step same_casefold db db'

pub data Reach (same_casefold : Text → Text → Bool) (s : Database) : Database → Type 0 where
  here : Reach same_casefold s s
  next :
      {t u : Database} → Reach same_casefold s t → Step same_casefold t u → Reach same_casefold s u

Step-HasOneOpenMember :
    {same_casefold : Text → Text → Bool} {s t : Database}
    → Step same_casefold s t
    → HasOneOpenMember s.enrichment_jobs
    → HasOneOpenMember t.enrichment_jobs
unfolding stage_relationship_members backfill_member_avatar_jobs
Step-HasOneOpenMember (claims now db keys) h = claim-HasOneOpenMember now db keys h
Step-HasOneOpenMember (queues clock q reason at db) h =
    enqueue-HasOneOpenMember clock q reason at db h
Step-HasOneOpenMember (finishes clock job_id ending error db) h =
    finish-HasOneOpenMember clock job_id ending error db h
Step-HasOneOpenMember (retries clock job_id at error db open_jobs) h =
    retry-HasOneOpenMember clock job_id at error db open_jobs h
Step-HasOneOpenMember {same_casefold = fold} (completes job s at db) h =
    profile-HasOneOpenMember fold job s at db h
Step-HasOneOpenMember {same_casefold = fold} (stages now run_id members db) h =
    stage_from-HasOneOpenMember fold now run_id _ members db h
Step-HasOneOpenMember (joins run_id a d at stale_days db db' e) h =
    apply_complete-HasOneOpenMember run_id a d at stale_days db db' e h
Step-HasOneOpenMember (forgets p db) h =
    λ q. omega (arith, h q, count_by-delete_where_le (is_open_enrichment_of q) p db.enrichment_jobs)
Step-HasOneOpenMember (opens now db) h =
    backfill_each-HasOneOpenMember now db.memberships db.members db.enrichment_jobs h
Step-HasOneOpenMember (elsewhere db db' same) h = subst HasOneOpenMember (sym same) h

-- From an empty queue, after jobs have been queued, claimed, finished, retried and completed, pages
-- staged, complete lists applied, jobs deleted and the database opened, in any order (claims on
-- tables whose ids are unique, retries of open jobs), no member has two open enrichment jobs.
pub Reach-HasOneOpenMember :
    {same_casefold : Text → Text → Bool} {s t : Database}
    → s.enrichment_jobs ≡ []
    → Reach same_casefold s t
    → HasOneOpenMember t.enrichment_jobs
unfolding count_by
Reach-HasOneOpenMember empty here = subst HasOneOpenMember (sym empty) (λ q. omega arith)
Reach-HasOneOpenMember empty (next path step) =
    Step-HasOneOpenMember step (Reach-HasOneOpenMember empty path)
