-- ===== src/Retention.antt =====
-- `prune_relationship_data` (ig_monitor/db.py). The database checks its foreign keys
-- (`PRAGMA foreign_keys=ON`), so the DELETE of a member that another row refers to is an error.
pub mod Blocked
use ig_anonymous_monitor.Base.{
  ℕ, ◌+◌, Bool, true, false, ◌&&◌, ◌||◌, not, Option, none, some, List, ltb, lt_opt, ◌==◌,
  if◌then◌else◌, exists_by, update_where, delete_where,
}
use ig_anonymous_monitor.Store.{
  Database, RelationshipRun, RunMember, Member, Membership, HistoryRow, EnrichmentJob,
  EnrichmentStatus, Attempt, is_open_enrichment,
}
use ig_anonymous_monitor.Jobs.{days}
use ig_anonymous_monitor.Snapshot.{is_open_enrichment_of}

-- `t < now - period`, with no subtraction
abbrev pub is_before : ℕ → ℕ → ℕ → Bool
is_before now period t = ltb (t + period) now

abbrev pub is_before_opt : ℕ → ℕ → Option ℕ → Bool
is_before_opt now period none = false
is_before_opt now period (some t) = is_before now period t

-- `status IN ('completed','cancelled')`
abbrev pub is_closed_enrichment : EnrichmentStatus → Bool
is_closed_enrichment EnrichmentStatus.completed = true
is_closed_enrichment EnrichmentStatus.cancelled = true
is_closed_enrichment _ = false

-- `run_id IN (SELECT id FROM relationship_runs WHERE started_at<?)`
unfoldable pub is_old_run : ℕ → List RelationshipRun → ℕ → Bool
is_old_run now runs id = exists_by (λ r. (r.id == id) && is_before now (days 90) r.started_at) runs

abbrev pub forget_run : HistoryRow → HistoryRow
forget_run h = record h { run_id = none }

abbrev pub is_of_old_run : ℕ → List RelationshipRun → HistoryRow → Bool
is_of_old_run now runs h = elim h.run_id [ none ↦ false | some id ↦ is_old_run now runs id ]

-- Everything before the last statement. The members that a deleted run has staged go with it
-- (`ON DELETE CASCADE`).
unfoldable pub prune_rows : ℕ → Database → Database
prune_rows now db = record db {
  history =
      update_where (is_of_old_run now db.runs) forget_run
        (delete_where (λ h. is_before now (days 365) h.observed_at) db.history);
  runs = delete_where (λ r. is_before now (days 90) r.started_at) db.runs;
  run_members = delete_where (λ m. is_old_run now db.runs m.run_id) db.run_members;
  attempts = delete_where (λ a. is_before now (days 90) a.attempted_at) db.attempts;
  enrichment_jobs =
      delete_where (λ j. is_closed_enrichment j.status && is_before now (days 365) j.updated_at)
        db.enrichment_jobs;
  memberships =
      delete_where (λ m. not m.active && is_before_opt now (days 365) m.removed_at) db.memberships;
}

-- The WHERE clause of the last statement.
unfoldable pub is_forgotten : ℕ → Database → Member → Bool
is_forgotten now db m =
    is_before now (days 365) m.updated_at
    && not (
        exists_by (λ a. (a.instagram_profile_id == m.instagram_profile_id) && a.active)
          db.memberships)
    && not (exists_by (is_open_enrichment_of m.instagram_profile_id) db.enrichment_jobs)

-- Some row of another table refers to the member.
unfoldable pub is_referenced : Database → ℕ → Bool
is_referenced db id =
    exists_by (λ a. a.instagram_profile_id == id) db.memberships
    || exists_by (λ h. h.instagram_profile_id == id) db.history
    || exists_by (λ r. r.instagram_profile_id == id) db.run_members
    || exists_by (λ j. j.instagram_profile_id == id) db.enrichment_jobs

-- `none` is the IntegrityError, which undoes the transaction.
unfoldable pub delete_members : ℕ → Database → Option Database
unfolding is_forgotten is_referenced
delete_members now db =
    if exists_by (λ m. is_forgotten now db m && is_referenced db m.instagram_profile_id) db.members
    then none
    else some (record db { members = delete_where (is_forgotten now db) db.members })

unfoldable pub prune_relationship_data : ℕ → Database → Option Database
unfolding prune_rows delete_members
prune_relationship_data now db = delete_members now (prune_rows now db)
