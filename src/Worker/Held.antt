-- ===== src/Worker/Held.antt =====
-- Collecting member lists, and the rows that it leaves alone.
use ig_anonymous_monitor.Base.{
  ℕ, ◌+◌, ◌≡◌, refl, ◌∙◌, inl, inr, Bool, true, false, some, List, [], ◌∷◌, arith, ltb, length,
  Bool-cases, Option-cases,
}
use ig_anonymous_monitor.Store.{Collector, Text, Database, Direction, WorkStatus, WorkRun}
use ig_anonymous_monitor.Snapshot.{
  MemberIdentity, stage_one, stage_from, stage_relationship_members, start_relationship_run,
  finish_relationship_run,
}
use ig_anonymous_monitor.Snapshot.Apply.{apply_complete_relationship_run, write_run}
use ig_anonymous_monitor.Jobs.{set_relationship_status}
use ig_anonymous_monitor.Admin.{EnrichmentConfig, Answer, returned, raised}
use ig_anonymous_monitor.Worker.{collect_each}
use ig_anonymous_monitor.Worker.Collect.{
  RelationshipPage, Listing, Collected, finished, threw, exceed, accept, collect_pages,
  collect_direction,
}

abbrev pub held : Database → List WorkRun × Collector
held db = (db.work_runs, db.collector)

pub apply_complete-held :
    (run_id a : ℕ) (d : Direction) (at stale : ℕ) (db db' : Database)
    → apply_complete_relationship_run run_id a d at stale db ≡ some db'
    → held db' ≡ held db
unfolding apply_complete_relationship_run write_run
apply_complete-held run_id a d at stale db db' h = ground arith

module _ (same_casefold : Text → Text → Bool) (config : EnrichmentConfig) (clock now : ℕ) where
  stage_from-held :
      (run_id position : ℕ) (ms : List MemberIdentity) (db : Database)
      → held (stage_from same_casefold clock run_id position ms db) ≡ held db
  unfolding stage_from stage_one
  stage_from-held run_id position [] db = refl
  stage_from-held run_id position (m ∷ ms) db =
      stage_from-held run_id (position + 1) ms (stage_one same_casefold clock run_id position m db)

  stage_members-held :
      (run_id : ℕ) (ms : List MemberIdentity) (db : Database)
      → held (stage_relationship_members same_casefold clock run_id ms db) ≡ held db
  unfolding stage_relationship_members
  stage_members-held run_id ms db = stage_from-held run_id _ ms db

  module _ (run_id account_id : ℕ) (direction : Direction) where
    exceed-held :
        (count : ℕ) (db : Database)
        → held (exceed same_casefold config clock now run_id account_id direction count db).1
          ≡ held db
    unfolding exceed finish_relationship_run set_relationship_status
    exceed-held count db = refl

    collect_pages-held :
        (pages : List RelationshipPage) (ending : Answer (Unit {0})) (count : ℕ) (complete : Bool)
        (db : Database)
        → held
            (collect_pages same_casefold config clock now run_id account_id direction pages ending
              count complete db).1
          ≡ held db
    unfolding collect_pages finish_relationship_run
    collect_pages-held [] (raised e) count complete db = refl
    collect_pages-held [] (returned _) count true db =
        elim (Option-cases (
          apply_complete_relationship_run run_id account_id direction now config.member_stale_days
            db)) [
              | inl failed ↦ rw (failed, accept)
              | inr (applied, ok) ↦
                  rw (ok, accept)
                    (apply_complete-held run_id account_id direction now config.member_stale_days db
                      applied ok)
            ]
    collect_pages-held [] (returned _) count false db = refl
    collect_pages-held (page ∷ pages) ending count complete db =
        let total = count + length page.members in
        let staged = stage_relationship_members same_casefold clock run_id page.members db in
        elim (Bool-cases (ltb config.member_limit_per_direction total)) [
          | inl e ↦ rw e (exceed-held total db)
          | inr e ↦ rw e (
              collect_pages-held pages ending total page.complete staged
              ∙ stage_members-held run_id page.members db)
        ]

  pub collect_direction-held :
      (job_id account_id : ℕ) (listing : Listing) (d : Direction) (db : Database)
      → held (collect_direction same_casefold config clock now job_id account_id listing d db).1
        ≡ held db
  unfolding collect_direction start_relationship_run
  collect_direction-held job_id account_id listing d db =
      let (run_id, started) = start_relationship_run job_id account_id d now db in
      collect_pages-held run_id account_id d listing.pages listing.ending 0 false started

pub collect_each-held :
    (step : Direction → Database → Collected × Database)
    → ((d : Direction) (db : Database) → held (step d db).1 ≡ held db)
    → (ds : List Direction) (overall : WorkStatus) (db : Database)
    → held (collect_each step ds overall db).1 ≡ held db
unfolding collect_each
collect_each-held step keeps [] overall db = refl
collect_each-held step keeps (d ∷ ds) overall db =
    continue (step d db).0 refl (λ o x. collect_each-held step keeps ds o x)
  where
    continue :
        (r : Collected)
        → (step d db).0 ≡ r
        → ((o : WorkStatus) (x : Database) → held (collect_each step ds o x).1 ≡ held x)
        → held (collect_each step (d ∷ ds) overall db).1 ≡ held db
    continue (finished s) e rest = rw (e, collect_each) (rest _ _ ∙ keeps d db)
    continue (threw x) e rest = rw (e, collect_each) (keeps d db)
