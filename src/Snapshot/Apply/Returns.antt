-- ===== src/Snapshot/Apply/Returns.antt =====
-- When a complete list is applied.
use ig_anonymous_monitor.Base.{
  ℕ, ◌≡◌, refl, inl, inr, true, some, List, [], ◌∷◌, map, leb, ◌==◌, Bool-cases, select, exists_by,
  exists_by-find_by, All, All-select,
}
use ig_anonymous_monitor.Store.{Text, Database, Direction, RunMember, Member, EnrichmentJob}
use ig_anonymous_monitor.Jobs.{has_id}
use ig_anonymous_monitor.Snapshot.{is_member}
use ig_anonymous_monitor.Snapshot.Maps.{Names, has_key, insert_sorted, sorted_difference}
use ig_anonymous_monitor.Snapshot.Apply.{
  staged_names, observe, write_run, enrich_joined, apply_complete_relationship_run,
}
use ig_anonymous_monitor.Snapshot.Apply.Exact.{is_active, is_staged, apply_complete-exact}

-- The member has a row.
abbrev pub HasRow : List Member → ℕ → Type 0
HasRow members profile_id = exists_by (is_member profile_id) members ≡ true

-- The foreign key of `relationship_run_members`.
abbrev pub AreMembers : Database → Type 0
AreMembers db = All (λ (r : RunMember). HasRow db.members r.instagram_profile_id) db.run_members

insert_sorted-All :
    (P : ℕ → Type 0) (k : ℕ) (js : List ℕ) → P k → All P js → All P (insert_sorted k js)
unfolding insert_sorted
insert_sorted-All P k [] h hs = (h, tt)
insert_sorted-All P k (j ∷ js) h hs = elim (Bool-cases (leb k j)) [
  | inl e ↦ rw e (h, hs)
  | inr e ↦ rw e (hs.0, insert_sorted-All P k js h hs.1)
]

sorted_difference-All :
    (P : ℕ → Type 0) (a b : Names) → All (λ n. P n.0) a → All P (sorted_difference a b)
unfolding sorted_difference
sorted_difference-All P [] b h = tt
sorted_difference-All P ((k, v) ∷ a) b h = elim (Bool-cases (has_key k b)) [
  | inl e ↦ rw e (sorted_difference-All P a b h.1)
  | inr e ↦ rw e (insert_sorted-All P k _ h.0 (sorted_difference-All P a b h.1))
]

names-All :
    (P : ℕ → Type 0) (rows : List RunMember)
    → All (λ (r : RunMember). P r.instagram_profile_id) rows
    → All
        (λ (n : ℕ × Text). P n.0)
        (map (λ (r : RunMember). (r.instagram_profile_id, r.username)) rows)
names-All P [] h = tt
names-All P (r ∷ rows) h = (h.0, names-All P rows h.1)

staged_names-All :
    (P : ℕ → Type 0) (run_id : ℕ) (rows : List RunMember)
    → All (λ (r : RunMember). P r.instagram_profile_id) rows
    → All (λ n. P n.0) (staged_names run_id rows)
unfolding staged_names
staged_names-All P run_id rows h =
    names-All P (select (λ r. r.run_id == run_id) rows)
      (All-select _ (λ (r : RunMember). r.run_id == run_id) rows h)

enrich_joined-returns :
    (at stale_days : ℕ) (members : List Member) (joined : List ℕ) (jobs : List EnrichmentJob)
    → All (HasRow members) joined
    → (jobs' : List EnrichmentJob) × (enrich_joined at stale_days members joined jobs ≡ some jobs')
unfolding enrich_joined
enrich_joined-returns at stale_days members [] jobs h = (jobs, refl)
enrich_joined-returns at stale_days members (p ∷ joined) jobs h =
    let (m, found) = exists_by-find_by (is_member p) members h.0 in
    rw (found, enrich_joined) (enrich_joined-returns at stale_days members joined _ h.1)

apply_complete-returns :
    (run_id a : ℕ) (d : Direction) (at stale_days : ℕ) (db : Database)
    → exists_by (has_id a) db.accounts ≡ true
    → AreMembers db
    → (db' : Database) × (apply_complete_relationship_run run_id a d at stale_days db ≡ some db')
unfolding apply_complete_relationship_run observe
apply_complete-returns run_id a d at stale_days db there members =
    let (account, found) = exists_by-find_by (has_id a) db.accounts there in
    let staged = staged_names-All (HasRow db.members) run_id db.run_members members in
    let o = observe run_id account d db in
    let joined = sorted_difference-All (HasRow db.members) o.staged o.existing staged in
    let (jobs, enriched) =
      enrich_joined-returns at stale_days db.members o.joined db.enrichment_jobs joined in
    (write_run run_id d at o jobs db, rw (found, enriched, apply_complete_relationship_run) refl)

-- A complete list replaces the old one, and exactly: where the account exists and the staged members
-- have rows, the transaction succeeds, and after it a profile is an active member of the account in
-- the run's direction if and only if the run has staged it.
pub apply_complete-replaces :
    (run_id a : ℕ) (d : Direction) (at stale_days : ℕ) (db : Database)
    → exists_by (has_id a) db.accounts ≡ true
    → AreMembers db
    → (db' : Database) × (apply_complete_relationship_run run_id a d at stale_days db ≡ some db')
      × ((p : ℕ) → is_active a d p db'.memberships ≡ is_staged run_id p db.run_members)
apply_complete-replaces run_id a d at stale_days db there members =
    let (db', done) = apply_complete-returns run_id a d at stale_days db there members in
    (db', done, λ p. apply_complete-exact run_id a d at stale_days db db' p done)
