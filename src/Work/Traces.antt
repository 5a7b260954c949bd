-- ===== src/Work/Traces.antt =====
-- Runs of the coordinator: claims and ends in any order, at any times, from any callers.
use ig_anonymous_monitor.Base.{
  ℕ, ◌≡◌, refl, sym, subst, Option, [], arith, ◌==◌, count_by, count_by-update_where_eq,
  count_by-update_where_le,
}
use ig_anonymous_monitor.Store.{Database, WorkStatus, Text, is_running}
use ig_anonymous_monitor.Work.{Coordinator, Claim, claim_next, is_run_of, end_run, finish}
use ig_anonymous_monitor.Work.Budget.{
  IsCoordinated, IsSpaced-update_where, claim_next-IsCoordinated,
}

-- The coordinator's operations; between two of them the rest of the database may change in any way
-- (`elsewhere`). The backfill of runs from jobs that older versions have started, when the database
-- is opened (`_backfill_authenticated_work_runs`), is no step.
pub data Step (c : Coordinator) : Database → Database → Type 0 where
  claims : (now : ℕ) (canary : Option ℕ) (db : Database) → Step c db (claim_next c now canary db).1
  finishes :
      (at : ℕ) (claim : Claim) (outcome : WorkStatus) (error : Option Text) (db : Database)
      → Step c db (finish at claim outcome error db)
  elsewhere : (db db' : Database) → db'.work_runs ≡ db.work_runs → Step c db db'

pub data Reach (c : Coordinator) (s : Database) : Database → Type 0 where
  here : Reach c s s
  next : {t u : Database} → Reach c s t → Step c t u → Reach c s u

finish-IsCoordinated :
    (c : Coordinator) (at : ℕ) (claim : Claim) (outcome : WorkStatus) (error : Option Text)
    (db : Database)
    → IsCoordinated c db.work_runs
    → IsCoordinated c (finish at claim outcome error db).work_runs
unfolding finish
finish-IsCoordinated c at claim outcome error db h =
    let p = is_run_of claim in
    let f = end_run at outcome error in
    record {
      budget = λ day.
          rw (count_by-update_where_eq (λ r. r.budget_day == day) p f db.work_runs (λ r _. refl))
            (h.budget day);
      single = omega (
        arith,
        h.single,
        count_by-update_where_le (λ r. is_running r.status) p f db.work_runs (λ r _ e. absurd (cc)),
      );
      spaced = IsSpaced-update_where _ p f db.work_runs (λ r. refl) h.spaced;
    }

Step-IsCoordinated :
    {c : Coordinator} {s t : Database}
    → Step c s t
    → IsCoordinated c s.work_runs
    → IsCoordinated c t.work_runs
Step-IsCoordinated {c} (claims now canary db) h = claim_next-IsCoordinated c now canary db h
Step-IsCoordinated {c} (finishes at claim outcome error db) h =
    finish-IsCoordinated c at claim outcome error db h
Step-IsCoordinated {c} (elsewhere db db' same) h = subst (IsCoordinated c) (sym same) h

no_runs-IsCoordinated : (c : Coordinator) → IsCoordinated c []
unfolding count_by
no_runs-IsCoordinated c = record { budget = λ day. omega arith; single = omega arith; spaced = tt }

-- From a database with no runs, after claims and ends in any order and at any times, with the rest
-- of the database changing in any way between them: no Taipei day has more starts than
-- `daily_start_limit`, at most one run is running, and each run starts at least the minimum
-- interval after every run before it.
pub Reach-IsCoordinated :
    (c : Coordinator) {s t : Database}
    → s.work_runs ≡ []
    → Reach c s t
    → IsCoordinated c t.work_runs
Reach-IsCoordinated c empty here = subst (IsCoordinated c) (sym empty) (no_runs-IsCoordinated c)
Reach-IsCoordinated c empty (next r st) = Step-IsCoordinated st (Reach-IsCoordinated c empty r)
