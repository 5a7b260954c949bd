-- ===== src/Snapshot/Apply/Exact.antt =====
-- The active memberships after a complete run.
use ig_anonymous_monitor.Base.{
  ℕ, ◌≡◌, refl, inl, inr, Bool, true, false, ◌&&◌, ◌||◌, not, none, some, List, [], ◌∷◌, ◌++◌,
  arith, ◌==◌, Bool-cases, Option-cases, select, exists_by, find_by, update_where, subst, ==→eq,
  find_by-holds,
}
use ig_anonymous_monitor.Store.{
  same_direction, Text, Database, Account, Direction, Membership, RunMember,
}
use ig_anonymous_monitor.Jobs.{has_id}
use ig_anonymous_monitor.Snapshot.Maps.{Names, has_key, sorted_difference, insert_sorted}
use ig_anonymous_monitor.Snapshot.Apply.{
  is_row, active_names, staged_names, upsert_membership, upsert_all, remove_all, observe,
  apply_memberships, write_run, enrich_joined, apply_complete_relationship_run,
}

-- `profile_id` is an active member of the account in that direction.
pub is_active : ℕ → Direction → ℕ → List Membership → Bool
is_active account_id direction profile_id =
    exists_by (λ m. is_row account_id direction profile_id m && m.active)

-- `profile_id` is on the list that the run has staged.
pub is_staged : ℕ → ℕ → List RunMember → Bool
is_staged run_id profile_id =
    exists_by (λ r. (r.run_id == run_id) && (r.instagram_profile_id == profile_id))

member : ℕ → List ℕ → Bool
member p [] = false
member p (q ∷ qs) = (q == p) || member p qs

has_key-active_names :
    (a : ℕ) (d : Direction) (p : ℕ) (rows : List Membership)
    → has_key p (active_names a d rows) ≡ is_active a d p rows
unfolding has_key active_names is_active exists_by select
has_key-active_names a d p [] = refl
has_key-active_names a d p (m ∷ rows) = ground (arith, has_key-active_names a d p rows)

has_key-staged_names :
    (run_id p : ℕ) (rows : List RunMember)
    → has_key p (staged_names run_id rows) ≡ is_staged run_id p rows
unfolding has_key staged_names is_staged exists_by select
has_key-staged_names run_id p [] = refl
has_key-staged_names run_id p (m ∷ rows) = ground (arith, has_key-staged_names run_id p rows)

member-insert_sorted :
    (p k : ℕ) (js : List ℕ) → member p (insert_sorted k js) ≡ ((k == p) || member p js)
unfolding member insert_sorted
member-insert_sorted p k [] = refl
member-insert_sorted p k (j ∷ js) = ground (arith, member-insert_sorted p k js)

member-sorted_difference :
    (p : ℕ) (a b : Names) → member p (sorted_difference a b) ≡ (has_key p a && not (has_key p b))
unfolding member sorted_difference has_key
member-sorted_difference p [] b = refl
member-sorted_difference p ((k, v) ∷ a) b =
    ground (arith, member-insert_sorted p k (sorted_difference a b), member-sorted_difference p a b)

module _ (a : ℕ) (d : Direction) (p : ℕ) where
  active-deactivate :
      (q at : ℕ) (rows : List Membership)
      → is_active a d p (
          update_where
            (is_row a d q)
            (λ m. record m { active = false; removed_at = some at; last_seen_at = at })
            rows)
        ≡ (is_active a d p rows && not (q == p))
  unfolding is_active exists_by update_where
  active-deactivate q at [] = refl
  active-deactivate q at (m ∷ rows) = ground (arith, active-deactivate q at rows)

  active-activate :
      (q at : ℕ) (u : Text) (rows : List Membership)
      → is_active a d p (
          update_where
            (is_row a d q)
            (λ m. record m { username = u; last_seen_at = at; active = true; removed_at = none })
            rows)
        ≡ (is_active a d p rows || ((q == p) && exists_by (is_row a d q) rows))
  unfolding is_active exists_by update_where
  active-activate q at u [] = ground arith
  active-activate q at u (m ∷ rows) = ground (arith, active-activate q at u rows)

  active-append :
      (rows : List Membership) (m : Membership)
      → is_active a d p (rows ++ m ∷ []) ≡ (is_active a d p rows || (is_row a d p m && m.active))
  unfolding is_active exists_by
  active-append [] m = ground arith
  active-append (r ∷ rows) m = ground (arith, active-append rows m)

  same_direction_refl : same_direction d d ≡ true
  same_direction_refl = elim d as (λ d. same_direction d d ≡ true) [
    | Direction.followers_direction ↦ refl
    | Direction.following_direction ↦ refl
  ]

  active-upsert :
      (at q : ℕ) (u : Text) (rows : List Membership)
      → is_active a d p (upsert_membership a d at q u rows) ≡ ((q == p) || is_active a d p rows)
  unfolding upsert_membership
  active-upsert at q u rows = elim (Bool-cases (exists_by (is_row a d q) rows)) [
    | inl e ↦ rw (e, active-activate q at u rows, e) (ground arith)
    | inr e ↦ rw (e, active-append) (ground (arith, same_direction_refl))
  ]

  active-upsert_all :
      (at : ℕ) (staged : Names) (rows : List Membership)
      → is_active a d p (upsert_all a d at staged rows) ≡ (has_key p staged || is_active a d p rows)
  unfolding upsert_all has_key
  active-upsert_all at [] rows = refl
  active-upsert_all at ((q, u) ∷ staged) rows = ground (
    arith,
    active-upsert at q u rows,
    active-upsert_all at staged (upsert_membership a d at q u rows),
  )

  active-remove_all :
      (at : ℕ) (left : List ℕ) (rows : List Membership)
      → is_active a d p (remove_all a d at left rows)
        ≡ (is_active a d p rows && not (member p left))
  unfolding remove_all member
  active-remove_all at [] rows = ground arith
  active-remove_all at (q ∷ left) rows = ground (
    arith,
    active-deactivate q at rows,
    active-remove_all at left (
        update_where (is_row a d q)
          (λ m. record m { active = false; removed_at = some at; last_seen_at = at }) rows),
  )

  active-apply :
      (run_id at : ℕ) (account : Account) (db : Database)
      → account.id ≡ a
      → is_active a d p (apply_memberships d at (observe run_id account d db) db.memberships)
        ≡ is_staged run_id p db.run_members
  unfolding apply_memberships observe
  active-apply run_id at account db same = rw same (
      ground (
        arith,
        active-remove_all at
            (sorted_difference (active_names a d db.memberships)
              (staged_names run_id db.run_members))
            (upsert_all a d at (staged_names run_id db.run_members) db.memberships),
        active-upsert_all at (staged_names run_id db.run_members) db.memberships,
        member-sorted_difference p (active_names a d db.memberships)
            (staged_names run_id db.run_members),
        has_key-active_names a d p db.memberships,
        has_key-staged_names run_id p db.run_members,
      ))

-- When the transaction succeeds, a profile is an
-- active member of the account in the run's direction if and only if the run has staged it.
pub apply_complete-exact :
    (run_id a : ℕ) (d : Direction) (at stale_days : ℕ) (db db' : Database) (p : ℕ)
    → apply_complete_relationship_run run_id a d at stale_days db ≡ some db'
    → is_active a d p db'.memberships ≡ is_staged run_id p db.run_members
unfolding apply_complete_relationship_run write_run
apply_complete-exact run_id a d at stale_days db db' p h =
    elim (Option-cases (find_by (has_id a) db.accounts)) [
      | inl missing ↦ absurd (ground (arith))
      | inr (account, found) ↦
          let same : account.id ≡ a =
            ==→eq account.id a (find_by-holds (has_id a) db.accounts found) in
          let o = observe run_id account d db in
          elim (Option-cases (enrich_joined at stale_days db.members o.joined db.enrichment_jobs)) [
            | inl failed ↦ absurd (ground (arith))
            | inr (jobs, enriched) ↦
                let written : write_run run_id d at o jobs db ≡ db' = ground arith in
                subst (λ z. is_active a d p z.memberships ≡ is_staged run_id p db.run_members)
                  written (active-apply a d p run_id at account db same)
          ]
    ]
