-- ===== src/Work/Progress.antt =====
-- When a job is claimed for certain.
use ig_anonymous_monitor.Base.{
  ℕ, ◌≤◌, ◌≡◌, refl, inl, inr, true, ◌&&◌, Option, List, [], ◌∷◌, arith, ◌==◌, In, count_by,
  update_where, Option-cases, All-In, In-select, In-select_of, select, select-holds, count_by-pos,
  count_by-le, count_by-update_where_eq, lt→leb,
}
use ig_anonymous_monitor.Store.{Account, Database, Job, WorkStatus, is_pending, is_leased}
use ig_anonymous_monitor.Work.{
  Coordinator, first_in_order, is_eligible, take_job, select_job, claim_next, expire_leases,
  release_jobs, to_pending,
}
use ig_anonymous_monitor.Work.Cases.{IsFree, live_runs}
use ig_anonymous_monitor.Work.Choice.{first_in_order-none, first_in_order-In}

-- Job ids are a primary key.
abbrev pub HasUniqueIds : List Job → Type 0
HasUniqueIds jobs = (id : ℕ) → count_by (λ j. j.id == id) jobs ≤ 1

release_jobs-HasUniqueIds :
    (now : ℕ) (refs : List ℕ) (jobs : List Job)
    → HasUniqueIds jobs
    → HasUniqueIds (release_jobs now refs jobs)
unfolding release_jobs
release_jobs-HasUniqueIds now [] jobs h = h
release_jobs-HasUniqueIds now (ref ∷ refs) jobs h =
    let p = λ (j : Job). (j.id == ref) && is_leased j.status in
    release_jobs-HasUniqueIds now refs (update_where p (to_pending now) jobs) (λ id.
      rw (count_by-update_where_eq (λ j. j.id == id) p (to_pending now) jobs (λ j _. refl)) (h id))

-- The rowcount test of the UPDATE passes.
one_chosen :
    (row : Job) (jobs : List Job)
    → HasUniqueIds jobs
    → In row jobs
    → is_pending row.status ≡ true
    → (count_by (λ j. (j.id == row.id) && is_pending j.status) jobs == 1) ≡ true
one_chosen row jobs unique member waits =
    let p = λ (j : Job). (j.id == row.id) && is_pending j.status in
    ground (
      arith,
      unique row.id,
      count_by-pos p jobs member (ground arith),
      count_by-le p (λ j. j.id == row.id) jobs (λ j e. ground arith),
    )

eligible-is_pending :
    (now : ℕ) (canary : Option ℕ) (accounts : List Account) (j : Job)
    → is_eligible now canary accounts j ≡ true
    → is_pending j.status ≡ true
unfolding is_eligible
eligible-is_pending now canary accounts j h = ground arith

select_job-claims :
    (c : Coordinator) (now : ℕ) (canary : Option ℕ) (db : Database) (job : Job)
    → HasUniqueIds db.jobs
    → In job db.jobs
    → is_eligible now canary db.accounts job ≡ true
    → (select_job c now canary db).0.status ≡ WorkStatus.claimed
unfolding select_job
select_job-claims c now canary db job unique member e =
    let p = is_eligible now canary db.accounts in
    elim (Option-cases (first_in_order (select p db.jobs))) [
      | inl nobody ↦
          elim (All-In (λ _. ⊥) _ (first_in_order-none (λ _. ⊥) _ nobody)
            (In-select_of p db.jobs member e)) [ ]
      | inr (row, chosen) ↦
          let found = first_in_order-In (select p db.jobs) row chosen in
          let waits =
            eligible-is_pending now canary db.accounts row
              (All-In (λ j. p j ≡ true) _ (select-holds p db.jobs) found) in
          rw (chosen, select_job)
            (unfold take_job in
              rw (one_chosen row db.jobs unique (In-select p db.jobs row found) waits))
    ]

-- Work is never left lying: if no unexpired run is active, the day's budget is not used up and the
-- spacing is kept, and the queue (its ids unique, as a primary key's) holds an eligible job, then
-- `claim_next` claims one.
pub claim_next-claims :
    (c : Coordinator) (now : ℕ) (canary : Option ℕ) (db : Database) (job : Job)
    → IsFree c now (live_runs now db.work_runs)
    → HasUniqueIds db.jobs
    → In job (expire_leases now db).jobs
    → is_eligible now canary db.accounts job ≡ true
    → (claim_next c now canary db).0.status ≡ WorkStatus.claimed
unfolding claim_next
claim_next-claims c now canary db job free unique member e =
    rw (free.no_active, lt→leb _ _ free.within_budget, free.spaced)
      (select_job-claims c now canary (expire_leases now db) job
        (release_jobs-HasUniqueIds now _ db.jobs unique) member e)
