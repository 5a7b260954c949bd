-- ===== src/Work/Cases.antt =====
-- What one call of `claim_next` can do to the table of runs, for the proofs about the coordinator.
use ig_anonymous_monitor.Base.{
  ℕ, ◌+◌, ◌<◌, ◌≡◌, refl, ◌⊎◌, inl, inr, false, ◌&&◌, Option, none, List, [], ◌∷◌, ◌++◌, leb, ◌==◌,
  count_by, exists_by, update_where, next_id, select, Bool-cases, Option-cases, leb→lt,
}
use ig_anonymous_monitor.Store.{Database, Job, WorkRun, is_running, is_pending}
use ig_anonymous_monitor.Work.{
  Coordinator, ClaimOutcome, taipei_day, is_expired, abandon, expire_leases, last_start,
  is_too_soon, new_run, first_in_order, is_eligible, take_job, select_job, claim_checked,
  claim_next,
}

-- The runs when the expired leases are gone.
abbrev pub live_runs : ℕ → List WorkRun → List WorkRun
live_runs now = update_where (is_expired now) (abandon now)

-- What the guards have found out about `runs` when a job is taken.
pub record IsFree (c : Coordinator) (now : ℕ) (runs : List WorkRun) : Type 0 where
  pub no_active : exists_by (λ r. is_running r.status && leb now r.lease_until) runs ≡ false
  pub within_budget : count_by (λ r. r.budget_day == taipei_day now) runs < c.daily_start_limit
  pub spaced : is_too_soon now c.minimum_start_interval (last_start runs) ≡ false

-- Either nothing starts, or one run is added behind the guards.
abbrev pub Starts : Coordinator → ℕ → List WorkRun → ClaimOutcome × Database → Type 0
Starts c now runs out =
    ((out.0.claim ≡ none) × (out.1.work_runs ≡ runs))
    ⊎ (IsFree c now runs
        × ((job_id : ℕ) × (out.1.work_runs
              ≡ runs
                ++ new_run (next_id (λ (r : WorkRun). r.id) runs) job_id now
                    (now + c.lease_duration)
                  ∷ [])))

take_job-Starts :
    (c : Coordinator) (now : ℕ) (row : Job) (db : Database)
    → IsFree c now db.work_runs
    → Starts c now db.work_runs (take_job c now row db)
unfolding take_job
take_job-Starts c now row db free =
    elim (Bool-cases (count_by (λ j. (j.id == row.id) && is_pending j.status) db.jobs == 1)) [
      | inl one ↦ rw one (inr (free, (row.id, refl)))
      | inr other ↦ rw other (inl (refl, refl))
    ]

select_job-Starts :
    (c : Coordinator) (now : ℕ) (canary : Option ℕ) (db : Database)
    → IsFree c now db.work_runs
    → Starts c now db.work_runs (select_job c now canary db)
unfolding select_job
select_job-Starts c now canary db free =
    elim (Option-cases (first_in_order (select (is_eligible now canary db.accounts) db.jobs))) [
      | inl nobody ↦ rw (nobody, select_job) (inl (refl, refl))
      | inr (row, chosen) ↦ rw (chosen, select_job) (take_job-Starts c now row db free)
    ]

pub claim_checked-Starts :
    (c : Coordinator) (now : ℕ) (canary : Option ℕ) (db : Database)
    → Starts c now db.work_runs (claim_checked c now canary db)
unfolding claim_checked
claim_checked-Starts c now canary db =
    elim (Bool-cases (exists_by (λ r. is_running r.status && leb now r.lease_until) db.work_runs)) [
      | inl a ↦ rw a (inl (refl, refl))
      | inr a ↦
          elim (Bool-cases (
            leb c.daily_start_limit
              (count_by (λ r. r.budget_day == taipei_day now) db.work_runs))) [
                | inl b ↦ rw (a, b) (inl (refl, refl))
                | inr b ↦
                    elim (Bool-cases
                      (is_too_soon now c.minimum_start_interval (last_start db.work_runs))) [
                        | inl d ↦ rw (a, b, d) (inl (refl, refl))
                        | inr d ↦
                            rw (a, b, d)
                              (select_job-Starts c now canary db (record {
                                no_active = a;
                                within_budget = leb→lt _ _ b;
                                spaced = d;
                              }))
                      ]
              ]
    ]

pub claim_next-Starts :
    (c : Coordinator) (now : ℕ) (canary : Option ℕ) (db : Database)
    → Starts c now (live_runs now db.work_runs) (claim_next c now canary db)
unfolding claim_next
claim_next-Starts c now canary db = claim_checked-Starts c now canary (expire_leases now db)

-- The database after `claim_next` is the expired one, or `take_job` of a job on it.
module _ (P : Database → Type 0) (c : Coordinator) (now : ℕ) (canary : Option ℕ) where
  select_job-keeps :
      (db : Database)
      → P db
      → ((row : Job) → P (take_job c now row db).1)
      → P (select_job c now canary db).1
  unfolding select_job
  select_job-keeps db h step =
      elim (Option-cases (first_in_order (select (is_eligible now canary db.accounts) db.jobs))) [
        | inl nobody ↦ rw (nobody, select_job) h
        | inr (row, chosen) ↦ rw (chosen, select_job) (step row)
      ]

  claim_checked-keeps :
      (db : Database)
      → P db
      → ((row : Job) → P (take_job c now row db).1)
      → P (claim_checked c now canary db).1
  unfolding claim_checked
  claim_checked-keeps db h step =
      elim (Bool-cases
        (exists_by (λ r. is_running r.status && leb now r.lease_until) db.work_runs)) [
          | inl a ↦ rw a h
          | inr a ↦
              elim (Bool-cases (
                leb c.daily_start_limit
                  (count_by (λ r. r.budget_day == taipei_day now) db.work_runs))) [
                    | inl b ↦ rw (a, b) h
                    | inr b ↦
                        elim (Bool-cases
                          (is_too_soon now c.minimum_start_interval (last_start db.work_runs))) [
                            | inl d ↦ rw (a, b, d) h
                            | inr d ↦ rw (a, b, d) (select_job-keeps db h step)
                          ]
                  ]
        ]

  pub claim_next-keeps :
      (db : Database)
      → P (expire_leases now db)
      → ((row : Job) → P (take_job c now row (expire_leases now db)).1)
      → P (claim_next c now canary db).1
  unfolding claim_next
  claim_next-keeps db = claim_checked-keeps (expire_leases now db)
