-- ===== src/Examples/Work.antt =====
-- The queue and the budget at work.
use ig_anonymous_monitor.Base.{
  ℕ, ◌≡◌, ◌≤◌, refl, inl, Bool, true, false, none, some, [], ◌∷◌, arith, count_by, ◌==◌, ◌&&◌,
  exists_by, All, In,
}
use ig_anonymous_monitor.Store.{Database, WorkStatus, WorkKind, JobStatus}
use ig_anonymous_monitor.Work.{
  Claim, claim_next, finish, claim_checked, select_job, first_in_order, take_job, taipei_day,
  expire_leases, release_jobs, is_eligible, account_allows, last_start,
}
use ig_anonymous_monitor.Work.Cases.{IsFree, live_runs}
use ig_anonymous_monitor.Work.Budget.{IsCoordinated, claim_next-IsCoordinated}
use ig_anonymous_monitor.Work.Progress.{HasUniqueIds, claim_next-claims}
use ig_anonymous_monitor.Work.Traces.{Reach-IsCoordinated, claims, finishes, here, next}
use ig_anonymous_monitor.Examples.{claim, busy, limits, waiting}

-- The job is claimed, its run ends, and the queue is asked again.
abbrev fresh : Database
fresh = record busy { work_runs = [] }

abbrev at_work : Database
at_work = (claim_next limits 20000 none fresh).1

abbrev at_rest : Database
at_rest = finish 20500 claim WorkStatus.completed none at_work

Reach-IsCoordinated_example :
    IsCoordinated limits (claim_next limits 40000 none at_rest).1.work_runs
Reach-IsCoordinated_example = Reach-IsCoordinated limits refl (
    next
      (next (next here (claims 20000 none fresh))
        (finishes 20500 claim WorkStatus.completed none at_work))
      (claims 40000 none at_rest))

one_run : (claim_next limits 20000 none fresh).0.status ≡ WorkStatus.claimed
unfolding claim_next expire_leases release_jobs claim_checked taipei_day count_by exists_by
    last_start select_job first_in_order take_job is_eligible account_allows
    ig_anonymous_monitor.Base.find_by ig_anonymous_monitor.Base.update_where
    ig_anonymous_monitor.Base.select ig_anonymous_monitor.Base.max_of
one_run = refl

busy-IsCoordinated : IsCoordinated limits busy.work_runs
unfolding count_by
busy-IsCoordinated = record {
  budget = λ day. ground arith;
  single = omega arith;
  spaced = (tt, tt);
}

claim_next-IsCoordinated_example :
    IsCoordinated limits (claim_next limits 20000 none busy).1.work_runs
claim_next-IsCoordinated_example =
    claim_next-IsCoordinated limits 20000 none busy busy-IsCoordinated

busy-IsFree : IsFree limits 20000 (live_runs 20000 busy.work_runs)
unfolding taipei_day count_by exists_by last_start ig_anonymous_monitor.Base.update_where
busy-IsFree = record { no_active = refl; within_budget = omega arith; spaced = refl }

busy-HasUniqueIds : HasUniqueIds busy.jobs
unfolding count_by
busy-HasUniqueIds id = ground arith

waiting-In : In waiting (expire_leases 20000 busy).jobs
unfolding expire_leases release_jobs ig_anonymous_monitor.Base.update_where
    ig_anonymous_monitor.Base.select
waiting-In = inl refl

waiting-is_eligible : is_eligible 20000 none busy.accounts waiting ≡ true
unfolding is_eligible account_allows ig_anonymous_monitor.Base.find_by
waiting-is_eligible = refl

claim_next-claims_example : (claim_next limits 20000 none busy).0.status ≡ WorkStatus.claimed
claim_next-claims_example =
    claim_next-claims limits 20000 none busy waiting busy-IsFree busy-HasUniqueIds waiting-In
      waiting-is_eligible

abbrev taken : Claim
taken = record {
  run_id = 2;
  kind = WorkKind.relationship;
  work_ref_id = 4;
  payload = record waiting {
    status = JobStatus.leased;
    lease_until = some 21800;
    started_at = some 20000;
  };
}
