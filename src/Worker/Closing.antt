-- ===== src/Worker/Closing.antt =====
-- How the run of a claim ends.
use ig_anonymous_monitor.Base.{
  ℕ, ◌≡◌, refl, ap, inl, inr, Bool, Option, List, [], ◌∷◌, Bool-cases, Option-cases, update_where,
}
use ig_anonymous_monitor.Store.{Text, Database, Account, Direction, WorkStatus}
use ig_anonymous_monitor.Work.{Coordinator, Claim, finish, is_run_of, end_run}
use ig_anonymous_monitor.Jobs.{
  set_relationship_status, finish_relationship_job, freeze_relationships, get_account_by_id,
}
use ig_anonymous_monitor.Collector.{set_collector_state, place_collector_risk_hold}
use ig_anonymous_monitor.Admin.{
  EnrichmentConfig, Answer, returned, raised, Exception, collector_fatal, target_ineligible, other,
}
use ig_anonymous_monitor.Worker.{
  Source, RelationshipTarget, collect_each, is_completed, requested_directions,
  finalize_relationship_account, set_verified_identity, record_identity_conflict, conflicts_with,
  needs_identity, wants_both,
}
use ig_anonymous_monitor.Worker.Collect.{Collected, finished, threw}
use ig_anonymous_monitor.Worker.Run.{
  Outcome, handle, conclude, collect_one, collect_requested, settle, resolve, identify, run_claim,
  promotes,
}
use ig_anonymous_monitor.Worker.Held.{held, collect_direction-held, collect_each-held}

-- The run of the claim has ended with the status and the detail of the outcome, and nothing else
-- has been written to the runs.
abbrev pub Closes : ℕ → Claim → Database → Outcome → Type 0
Closes clock claim db (o, db') =
    db'.work_runs ≡ update_where (is_run_of claim) (end_run clock o.status o.detail) db.work_runs

handle-Closes :
    (clock now : ℕ) (claim : Claim) (account : Account) (e : Exception) (db : Database)
    → Closes clock claim db (handle clock now claim account e db)
unfolding handle finish place_collector_risk_hold finish_relationship_job freeze_relationships
handle-Closes clock now claim account (collector_fatal message) db = refl
handle-Closes clock now claim account (target_ineligible message) db = refl
handle-Closes clock now claim account (other name) db = refl

conclude-Closes :
    (clock now : ℕ) (final : Bool) (canary : Option ℕ) (claim : Claim) (account : Account)
    (both : Bool) (overall : WorkStatus) (db : Database)
    → Closes clock claim db (conclude clock now final canary claim account both overall db)
unfolding conclude finish finish_relationship_job finalize_relationship_account set_collector_state
conclude-Closes clock now final canary claim account both overall db =
    elim (Bool-cases (promotes final canary claim.payload both overall)) [
      | inl e ↦ elim (Bool-cases (is_completed overall)) [ inl c ↦ rw (e, c) | inr c ↦ rw (e, c) ]
      | inr e ↦ elim (Bool-cases (is_completed overall)) [ inl c ↦ rw (e, c) | inr c ↦ rw (e, c) ]
    ]

settle-Closes :
    (clock now : ℕ) (final : Bool) (canary : Option ℕ) (claim : Claim) (account : Account)
    (both : Bool) (db : Database) (result : Collected × Database)
    → held result.1 ≡ held db
    → Closes clock claim db (settle clock now final canary claim account both result)
unfolding settle
settle-Closes clock now final canary claim account both db (finished overall, db') same =
    rw (← ap (λ h. h.0) same)
      (conclude-Closes clock now final canary claim account both overall db')
settle-Closes clock now final canary claim account both db (threw e, db') same =
    rw (← ap (λ h. h.0) same) (handle-Closes clock now claim account e db')

module _ (same_casefold : Text → Text → Bool) (config : EnrichmentConfig)
    (coordinator : Coordinator) (clock now : ℕ) (jitter : ℕ → ℕ) (source : Source) where
  collect_requested-Closes :
      (final : Bool) (canary : Option ℕ) (claim : Claim) (account : Account) (id : ℕ)
      (ds : List Direction) (db : Database)
      → Closes clock claim db (
          collect_requested same_casefold config coordinator clock now jitter source final canary
            claim account id ds db)
  unfolding collect_requested finish finish_relationship_job set_relationship_status
  collect_requested-Closes final canary claim account id [] db = refl
  collect_requested-Closes final canary claim account id (d ∷ ds) db =
      let step =
        collect_one same_casefold config coordinator clock now jitter source claim.payload.id
          account.id id in
      settle-Closes clock now final canary claim account (wants_both (d ∷ ds)) db
        (collect_each step (d ∷ ds) WorkStatus.completed db)
        (collect_each-held step
          (λ e x.
            collect_direction-held same_casefold config clock now claim.payload.id account.id
              (source.iter_members id e) e x)
          (d ∷ ds) WorkStatus.completed db)

  identify-Closes :
      (final : Bool) (canary : Option ℕ) (claim : Claim) (account : Account)
      (target : RelationshipTarget) (db : Database)
      → Closes clock claim db (
          identify same_casefold config coordinator clock now jitter source final canary claim
            account target db)
  unfolding identify finish finish_relationship_job freeze_relationships record_identity_conflict
      set_verified_identity
  identify-Closes final canary claim account target db =
      let collected =
        collect_requested-Closes final canary claim account target.profile_id
          (requested_directions config.member_limit_per_direction account.snapshot claim.payload) in
      elim (Bool-cases target.is_public) [
        | inl visible ↦
            elim (Bool-cases (conflicts_with target.profile_id account.instagram_profile_id)) [
              | inl clash ↦ rw (visible, clash)
              | inr agrees ↦ elim (Bool-cases (needs_identity account)) [
                | inl new ↦ rw (visible, agrees, new) (collected _)
                | inr old ↦ rw (visible, agrees, old) (collected db)
              ]
            ]
        | inr hidden ↦ rw hidden
      ]

  resolve-Closes :
      (final : Bool) (canary : Option ℕ) (claim : Claim) (account : Account)
      (answer : Answer RelationshipTarget) (db : Database)
      → Closes clock claim db (
          resolve same_casefold config coordinator clock now jitter source final canary claim
            account answer db)
  unfolding resolve
  resolve-Closes final canary claim account (returned target) db =
      identify-Closes final canary claim account target db
  resolve-Closes final canary claim account (raised e) db =
      handle-Closes clock now claim account e db

  -- However the work on a claim goes, through every branch and every exception of the source, its
  -- run is ended with the status and the detail of the outcome, and no other run is written.
  pub run_claim-Closes :
      (final : Bool) (canary : Option ℕ) (claim : Claim) (db : Database)
      → Closes clock claim db
          (run_claim same_casefold config coordinator clock now jitter source final canary claim db)
  unfolding run_claim finish finish_relationship_job
  run_claim-Closes final canary claim db =
      elim (Option-cases (get_account_by_id claim.payload.account_id db)) [
        | inl missing ↦ rw (missing, run_claim)
        | inr (account, found) ↦
            rw (found, run_claim)
              (resolve-Closes final canary claim account source.resolve_public_user db)
      ]
