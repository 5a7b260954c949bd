-- ===== src/Worker/Gate.antt =====
-- How the work on a claim may change the collector's state.
use ig_anonymous_monitor.Base.{
  ℕ, ◌≡◌, refl, ap, ◌⊎◌, inl, inr, Bool, true, Option, none, some, List, [], ◌∷◌, arith, Bool-cases,
  Option-cases,
}
use ig_anonymous_monitor.Store.{
  Text, Database, Account, Collector, CollectorStateKind, Direction, WorkStatus,
}
use ig_anonymous_monitor.Work.{Coordinator, Claim, finish}
use ig_anonymous_monitor.Jobs.{
  set_relationship_status, finish_relationship_job, freeze_relationships, get_account_by_id,
}
use ig_anonymous_monitor.Collector.{set_collector_state, place_collector_risk_hold}
use ig_anonymous_monitor.Admin.{
  EnrichmentConfig, Answer, returned, raised, Exception, collector_fatal, target_ineligible, other,
}
use ig_anonymous_monitor.Worker.{
  Source, RelationshipTarget, collect_each, is_completed, requested_directions,
  finalize_relationship_account, set_verified_identity, record_identity_conflict, conflicts_with,
  needs_identity, wants_both,
}
use ig_anonymous_monitor.Worker.Collect.{Collected, finished, threw}
use ig_anonymous_monitor.Worker.Run.{
  Outcome, handle, conclude, collect_one, collect_requested, settle, resolve, identify, run_claim,
  promotes,
}
use ig_anonymous_monitor.Worker.Held.{held, collect_direction-held, collect_each-held}

abbrev pub activated : Collector → Collector
activated c = record c { state = CollectorStateKind.active; risk_reason = none }

-- The collector stays as it is, or is put on hold, or is activated by work that is completed and
-- meets the condition.
abbrev pub Turns : Type 0 → Collector → Outcome → Type 0
Turns P c out =
    (out.1.collector ≡ c)
    ⊎ (out.1.collector.state ≡ CollectorStateKind.risk_hold)
    ⊎ (P × (out.0.status ≡ WorkStatus.completed) × (out.1.collector ≡ activated c))

Turns-imp : {P Q : Type 0} (c : Collector) (out : Outcome) → (P → Q) → Turns P c out → Turns Q c out
Turns-imp c out f (inl same) = inl same
Turns-imp c out f (inr (inl hold)) = inr (inl hold)
Turns-imp c out f (inr (inr (p, completed, turned))) = inr (inr (f p, completed, turned))

-- The call is the final one, the job is of the canary's account, and both directions were collected.
abbrev IsLast : Bool → Option ℕ → Claim → Bool → Type 0
IsLast final canary claim both =
    (final ≡ true) × (canary ≡ some claim.payload.account_id) × (both ≡ true)

handle-Turns :
    (P : Type 0) (clock now : ℕ) (claim : Claim) (account : Account) (e : Exception) (db : Database)
    → Turns P db.collector (handle clock now claim account e db)
unfolding handle finish place_collector_risk_hold finish_relationship_job freeze_relationships
handle-Turns P clock now claim account (collector_fatal message) db = inr (inl refl)
handle-Turns P clock now claim account (target_ineligible message) db = inl refl
handle-Turns P clock now claim account (other name) db = inl refl

promotes-IsLast :
    (final : Bool) (canary : Option ℕ) (claim : Claim) (both : Bool) (overall : WorkStatus)
    → promotes final canary claim.payload both overall ≡ true
    → IsLast final canary claim both × (is_completed overall ≡ true)
promotes-IsLast final none claim both overall h = absurd (ground arith)
promotes-IsLast final (some a) claim both overall h =
    ((ground arith, ground arith, ground arith), ground arith)

is_completed-eq : (s : WorkStatus) → is_completed s ≡ true → s ≡ WorkStatus.completed
is_completed-eq WorkStatus.completed h = refl
is_completed-eq _ h = absurd (cc)

conclude-Turns :
    (clock now : ℕ) (final : Bool) (canary : Option ℕ) (claim : Claim) (account : Account)
    (both : Bool) (overall : WorkStatus) (db : Database)
    → Turns
        (IsLast final canary claim both)
        db.collector
        (conclude clock now final canary claim account both overall db)
unfolding conclude finish finish_relationship_job finalize_relationship_account set_collector_state
conclude-Turns clock now final canary claim account both overall db =
    elim (Bool-cases (promotes final canary claim.payload both overall)) [
      | inl e ↦
          let (last, done) = promotes-IsLast final canary claim both overall e in
          rw (e, done) (inr (inr (last, is_completed-eq overall done, refl)))
      | inr e ↦ elim (Bool-cases (is_completed overall)) [
        | inl c ↦ rw (e, c) (inl refl)
        | inr c ↦ rw (e, c) (inl refl)
      ]
    ]

settle-Turns :
    (clock now : ℕ) (final : Bool) (canary : Option ℕ) (claim : Claim) (account : Account)
    (both : Bool) (db : Database) (result : Collected × Database)
    → held result.1 ≡ held db
    → Turns
        (IsLast final canary claim both)
        db.collector
        (settle clock now final canary claim account both result)
unfolding settle
settle-Turns clock now final canary claim account both db (finished overall, db') same =
    rw (← ap (λ h. h.1) same) (conclude-Turns clock now final canary claim account both overall db')
settle-Turns clock now final canary claim account both db (threw e, db') same =
    rw (← ap (λ h. h.1) same) (handle-Turns _ clock now claim account e db')

module _ (same_casefold : Text → Text → Bool) (config : EnrichmentConfig)
    (coordinator : Coordinator) (clock now : ℕ) (jitter : ℕ → ℕ) (source : Source) (final : Bool)
    (canary : Option ℕ) (claim : Claim) where
  collect_requested-Turns :
      (account : Account) (id : ℕ) (ds : List Direction) (db : Database)
      → Turns (IsLast final canary claim (wants_both ds)) db.collector (
          collect_requested same_casefold config coordinator clock now jitter source final canary
            claim account id ds db)
  unfolding collect_requested finish finish_relationship_job set_relationship_status
  collect_requested-Turns account id [] db = inl refl
  collect_requested-Turns account id (d ∷ ds) db =
      let step =
        collect_one same_casefold config coordinator clock now jitter source claim.payload.id
          account.id id in
      settle-Turns clock now final canary claim account (wants_both (d ∷ ds)) db
        (collect_each step (d ∷ ds) WorkStatus.completed db)
        (collect_each-held step
          (λ e x.
            collect_direction-held same_casefold config clock now claim.payload.id account.id
              (source.iter_members id e) e x)
          (d ∷ ds) WorkStatus.completed db)

  -- For the account of the job.
  abbrev IsLastOf : Account → Type 0
  IsLastOf account = IsLast final canary claim (
      wants_both
        (requested_directions config.member_limit_per_direction account.snapshot claim.payload))

  identify-Turns :
      (account : Account) (target : RelationshipTarget) (db : Database)
      → Turns (IsLastOf account) db.collector (
          identify same_casefold config coordinator clock now jitter source final canary claim
            account target db)
  unfolding identify finish finish_relationship_job freeze_relationships record_identity_conflict
      set_verified_identity
  identify-Turns account target db =
      let collected =
        collect_requested-Turns account target.profile_id
          (requested_directions config.member_limit_per_direction account.snapshot claim.payload) in
      elim (Bool-cases target.is_public) [
        | inl visible ↦
            elim (Bool-cases (conflicts_with target.profile_id account.instagram_profile_id)) [
              | inl clash ↦ rw (visible, clash) (inl refl)
              | inr agrees ↦ elim (Bool-cases (needs_identity account)) [
                | inl new ↦ rw (visible, agrees, new) (collected _)
                | inr old ↦ rw (visible, agrees, old) (collected db)
              ]
            ]
        | inr hidden ↦ rw hidden (inl refl)
      ]

  resolve-Turns :
      (account : Account) (answer : Answer RelationshipTarget) (db : Database)
      → Turns (IsLastOf account) db.collector (
          resolve same_casefold config coordinator clock now jitter source final canary claim
            account answer db)
  unfolding resolve
  resolve-Turns account (returned target) db = identify-Turns account target db
  resolve-Turns account (raised e) db = handle-Turns _ clock now claim account e db

-- The job's account is there, and the job asks for both of its lists.
abbrev pub IsFinalCanary : EnrichmentConfig → Bool → Option ℕ → Claim → Database → Type 0
IsFinalCanary config final canary claim db =
    (final ≡ true)
    × (canary ≡ some claim.payload.account_id)
    × ((account : Account) × (get_account_by_id claim.payload.account_id db ≡ some account)
        × (wants_both (
              requested_directions config.member_limit_per_direction account.snapshot claim.payload)
            ≡ true))

final_of :
    (config : EnrichmentConfig) (final : Bool) (canary : Option ℕ) (claim : Claim)
    (account : Account) (db : Database)
    → get_account_by_id claim.payload.account_id db ≡ some account
    → IsLast final canary claim (
        wants_both
          (requested_directions config.member_limit_per_direction account.snapshot claim.payload))
    → IsFinalCanary config final canary claim db
final_of config final canary claim account db found (f, c, both) = (f, c, (account, found, both))

run_claim-found :
    (same_casefold : Text → Text → Bool) (config : EnrichmentConfig) (coordinator : Coordinator)
    (clock now : ℕ) (jitter : ℕ → ℕ) (source : Source) (final : Bool) (canary : Option ℕ)
    (claim : Claim) (account : Account) (db : Database)
    → get_account_by_id claim.payload.account_id db ≡ some account
    → run_claim same_casefold config coordinator clock now jitter source final canary claim db
      ≡ resolve same_casefold config coordinator clock now jitter source final canary claim account
          source.resolve_public_user db
unfolding run_claim
run_claim-found same_casefold config coordinator clock now jitter source final canary claim account
      db found =
    rw (found, run_claim) refl

-- The work on a claim leaves the collector as it is, or puts it on hold, or activates it; the last
-- only if the call is marked as the final canary one, the job is of the canary's account and asks
-- for both lists that are in scope, and the work ends completed.
pub run_claim-Turns :
    (same_casefold : Text → Text → Bool) (config : EnrichmentConfig) (coordinator : Coordinator)
    (clock now : ℕ) (jitter : ℕ → ℕ) (source : Source) (final : Bool) (canary : Option ℕ)
    (claim : Claim) (db : Database)
    → Turns
        (IsFinalCanary config final canary claim db)
        db.collector
        (run_claim same_casefold config coordinator clock now jitter source final canary claim db)
unfolding run_claim finish finish_relationship_job
run_claim-Turns same_casefold config coordinator clock now jitter source final canary claim db =
    elim (Option-cases (get_account_by_id claim.payload.account_id db)) [
      | inl missing ↦ rw (missing, run_claim) (inl refl)
      | inr (account, found) ↦
          let by_account =
            run_claim-found same_casefold config coordinator clock now jitter source final canary
              claim account db found in
          let turned =
            resolve-Turns same_casefold config coordinator clock now jitter source final canary
              claim account source.resolve_public_user db in
          rw by_account (
            Turns-imp db.collector
              (resolve same_casefold config coordinator clock now jitter source final canary claim
                account source.resolve_public_user db)
              (final_of config final canary claim account db found) turned)
    ]
