-- ===== src/Worker/Collect.antt =====
-- `_collect_direction` (ig_monitor/relationships.py): one member list, page by page.
use ig_anonymous_monitor.Base.{
  ℕ, ◌+◌, Bool, true, false, none, some, List, [], ◌∷◌, ltb, if◌then◌else◌, length,
}
use ig_anonymous_monitor.Store.{
  Text, Database, Direction, RelationshipStatus, RunStatus, WorkStatus,
}
use ig_anonymous_monitor.Reasons.{codes}
use ig_anonymous_monitor.Jobs.{set_relationship_status}
use ig_anonymous_monitor.Snapshot.{
  MemberIdentity, start_relationship_run, finish_relationship_run, stage_relationship_members,
}
use ig_anonymous_monitor.Snapshot.Apply.{apply_complete_relationship_run}
use ig_anonymous_monitor.Admin.{
  EnrichmentConfig, Exception, collector_fatal, target_ineligible, other, Answer, returned, raised,
}

-- `RelationshipPage`, less its cursor, which nothing reads.
pub record RelationshipPage : Type 0 where
  pub members : List MemberIdentity
  pub complete : Bool

-- What `iter_members` yields, and how it ends.
pub record Listing : Type 0 where
  pub pages : List RelationshipPage
  pub ending : Answer (Unit {0})

-- A result of the method, or the exception that leaves it.
pub data Collected : Type 0 where
  finished : WorkStatus → Collected
  threw : Exception → Collected

-- `type(exc).__name__`
unfoldable pub type_name : Exception → Text
type_name (collector_fatal message) = codes "CollectorFatalError"
type_name (target_ineligible message) = codes "TargetIneligibleError"
type_name (other name) = name

module _ (same_casefold : Text → Text → Bool) (config : EnrichmentConfig) (clock now : ℕ)
    (run_id account_id : ℕ) (direction : Direction) where
  -- The `except Exception` at the end, which raises again.
  unfoldable pub abort : ℕ → Exception → Database → Collected × Database
  abort count e db = (
    threw e,
    finish_relationship_run clock run_id RunStatus.incomplete false count (some (type_name e)) db,
  )

  unfoldable pub exceed : ℕ → Database → Collected × Database
  exceed count db = (
    finished WorkStatus.scope_exceeded,
    set_relationship_status account_id RelationshipStatus.scope_exceeded (
        finish_relationship_run clock run_id RunStatus.scope_exceeded false count
          (some (codes "limit exceeded")) db),
  )

  -- The list is whole: it replaces the memberships.
  unfoldable pub accept : ℕ → Database → Collected × Database
  unfolding abort
  accept count db =
      elim (apply_complete_relationship_run run_id account_id direction now config.member_stale_days
        db) [
          | none ↦ abort count (other (codes "TypeError")) db
          | some applied ↦ (
            finished WorkStatus.completed,
            finish_relationship_run clock run_id RunStatus.complete true count none applied,
          )
        ]

  -- After the last page.
  unfoldable pub conclude : Answer (Unit {0}) → ℕ → Bool → Database → Collected × Database
  unfolding abort accept
  conclude (raised e) count complete db = abort count e db
  conclude (returned _) count true db = accept count db
  conclude (returned _) count false db = (
    finished WorkStatus.incomplete,
    finish_relationship_run clock run_id RunStatus.incomplete false count none db,
  )

  -- The loop over the pages: the count so far, and whether the last page was marked complete.
  unfoldable pub collect_pages :
      List RelationshipPage → Answer (Unit {0}) → ℕ → Bool → Database → Collected × Database
  unfolding conclude exceed
  collect_pages [] ending count complete db = conclude ending count complete db
  collect_pages (page ∷ pages) ending count complete db =
      let total = count + length page.members in
      let rest =
        collect_pages pages ending total page.complete
          (stage_relationship_members same_casefold clock run_id page.members db) in
      if ltb config.member_limit_per_direction total then exceed total db else rest

module _ (same_casefold : Text → Text → Bool) (config : EnrichmentConfig) where
  unfoldable pub collect_direction :
      ℕ → ℕ → ℕ → ℕ → Listing → Direction → Database → Collected × Database
  unfolding collect_pages
  collect_direction clock now job_id account_id listing direction db =
      let (run_id, started) = start_relationship_run job_id account_id direction now db in
      collect_pages same_casefold config clock now run_id account_id direction listing.pages
        listing.ending 0 false started
