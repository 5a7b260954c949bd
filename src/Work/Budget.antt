-- ===== src/Work/Budget.antt =====
-- The invariant of the runs of authenticated work.
use ig_anonymous_monitor.Base.{
  ℕ, ◌+◌, ◌≤◌, ◌≡◌, refl, inl, inr, Bool, false, ◌&&◌, Option, List, [], ◌∷◌, ◌++◌, arith, leb,
  ◌==◌, if◌then◌else◌, All, count_by, exists_by, update_where, Option-cases, All-append_one,
  All-update_where, count_by-append_one, count_by-update_where_eq, count_by-update_where_le,
}
use ig_anonymous_monitor.Store.{Database, WorkRun, is_running}
use ig_anonymous_monitor.Work.{
  Coordinator, is_expired, abandon, last_start, is_too_soon, new_run, claim_next,
}
use ig_anonymous_monitor.Work.Cases.{live_runs, IsFree, claim_next-Starts}

abbrev pub starts_on : ℕ → List WorkRun → ℕ
starts_on day = count_by (λ r. r.budget_day == day)

abbrev pub running_count : List WorkRun → ℕ
running_count = count_by (λ r. is_running r.status)

-- Each run starts at least `interval` after every run before it.
abbrev pub IsSpaced : ℕ → List WorkRun → Type 0
IsSpaced interval [] = Unit
IsSpaced interval (r ∷ rs) =
    All (λ s. r.started_at + interval ≤ s.started_at) rs × IsSpaced interval rs

pub record IsCoordinated (c : Coordinator) (runs : List WorkRun) : Type 0 where
  pub budget : (day : ℕ) → starts_on day runs ≤ c.daily_start_limit
  pub single : running_count runs ≤ 1
  pub spaced : IsSpaced c.minimum_start_interval runs

-- An update that keeps the start times keeps the spacing.
pub IsSpaced-update_where :
    (k : ℕ) (p : WorkRun → Bool) (f : WorkRun → WorkRun) (runs : List WorkRun)
    → ((r : WorkRun) → (f r).started_at ≡ r.started_at)
    → IsSpaced k runs
    → IsSpaced k (update_where p f runs)
unfolding update_where
IsSpaced-update_where k p f [] same h = tt
IsSpaced-update_where k p f (r ∷ rs) same h =
    let head : (if p r then f r else r).started_at ≡ r.started_at = ground (arith, same r) in
    (
      rw head (All-update_where _ p f rs (λ s _ a. rw (same s) a) h.0),
      IsSpaced-update_where k p f rs same h.1,
    )

last_start_below :
    (k now : ℕ) (runs : List WorkRun)
    → is_too_soon now k (last_start runs) ≡ false
    → All (λ r. r.started_at + k ≤ now) runs
unfolding last_start
last_start_below k now [] h = tt
last_start_below k now (r ∷ rs) h = elim (Option-cases (last_start rs)) [
  | inl e ↦ (ground arith, last_start_below k now rs (ground arith))
  | inr (t, e) ↦ (ground arith, last_start_below k now rs (ground arith))
]

IsSpaced-append_one :
    (k : ℕ) (runs : List WorkRun) (r : WorkRun)
    → IsSpaced k runs
    → All (λ s. s.started_at + k ≤ r.started_at) runs
    → IsSpaced k (runs ++ r ∷ [])
IsSpaced-append_one k [] r h a = (tt, tt)
IsSpaced-append_one k (s ∷ rs) r h a =
    (All-append_one _ rs r h.0 a.0, IsSpaced-append_one k rs r h.1 a.1)

-- Every run that is still marked running after the expiry is active.
none_running :
    (now : ℕ) (runs : List WorkRun)
    → exists_by (λ r. is_running r.status && leb now r.lease_until) (live_runs now runs) ≡ false
    → running_count (live_runs now runs) ≡ 0
unfolding exists_by update_where count_by
none_running now [] h = refl
none_running now (r ∷ rs) h = ground (arith, none_running now rs)

starts_on-live_runs :
    (now day : ℕ) (runs : List WorkRun) → starts_on day (live_runs now runs) ≡ starts_on day runs
starts_on-live_runs now day runs = count_by-update_where_eq _ _ _ runs (λ r _. refl)

live_runs-IsCoordinated :
    (c : Coordinator) (now : ℕ) (runs : List WorkRun)
    → IsCoordinated c runs
    → IsCoordinated c (live_runs now runs)
live_runs-IsCoordinated c now runs h = record {
  budget = λ day. rw starts_on-live_runs (h.budget day);
  single = omega (
    arith,
    h.single,
    count_by-update_where_le (λ r. is_running r.status) (is_expired now) (abandon now) runs
        (λ r _ e. absurd (cc)),
  );
  spaced = IsSpaced-update_where _ (is_expired now) (abandon now) runs (λ r. refl) h.spaced;
}

start-IsCoordinated :
    (c : Coordinator) (now id job_id : ℕ) (runs : List WorkRun)
    → IsCoordinated c runs
    → IsFree c now runs
    → running_count runs ≡ 0
    → IsCoordinated c (runs ++ new_run id job_id now (now + c.lease_duration) ∷ [])
start-IsCoordinated c now id job_id runs h free idle = record {
  budget = λ day. ground (
    arith,
    h.budget day,
    free.within_budget,
    count_by-append_one (λ r. r.budget_day == day) runs
        (new_run id job_id now (now + c.lease_duration)),
  );
  single = omega (
    arith,
    idle,
    count_by-append_one (λ r. is_running r.status) runs
        (new_run id job_id now (now + c.lease_duration)),
  );
  spaced = IsSpaced-append_one _ runs _ h.spaced (last_start_below _ now runs free.spaced);
}

-- Whatever `claim_next` answers, at whatever time it is called and for whatever canary, it keeps
-- the three limits of the shared budget: no Taipei day has more starts than `daily_start_limit`,
-- at most one run is running, and each run starts at least the minimum interval after all before.
pub claim_next-IsCoordinated :
    (c : Coordinator) (now : ℕ) (canary : Option ℕ) (db : Database)
    → IsCoordinated c db.work_runs
    → IsCoordinated c (claim_next c now canary db).1.work_runs
claim_next-IsCoordinated c now canary db h =
    let live = live_runs-IsCoordinated c now db.work_runs h in
    elim (claim_next-Starts c now canary db) [
      | inl (_, same) ↦ rw same live
      | inr (free, (job_id, started)) ↦ rw started (
          start-IsCoordinated c now _ job_id _ live free
            (none_running now db.work_runs free.no_active))
    ]
