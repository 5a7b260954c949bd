-- ===== src/Lifecycle/Works.antt =====
-- The runs of the worker, and what the collector's state has been earned by.
use ig_anonymous_monitor.Base.{
  ℕ, ◌+◌, ◌≤◌, ◌≡◌, refl, sym, subst, ap, inl, inr, Bool, true, false, ◌&&◌, Option, none, some,
  List, [], ◌∷◌, arith, leb→le, ◌==◌, if◌then◌else◌, Bool-cases, Option-cases, count_by, exists_by,
  select, ◌∙◌,
}
use ig_anonymous_monitor.Store.{
  Text, Database, Account, Collector, CollectorStateKind, Job, WorkStatus, is_pending,
}
use ig_anonymous_monitor.Work.{Claim, Coordinator, take_job, expire_leases, claim_next}
use ig_anonymous_monitor.Work.Cases.{claim_next-keeps}
use ig_anonymous_monitor.Jobs.{
  days, is_due, reconcile_one, reconcile_each, enqueue_due_reconciliations,
}
use ig_anonymous_monitor.Retention.{
  prune_relationship_data, prune_rows, delete_members, is_forgotten, is_referenced,
}
use ig_anonymous_monitor.Admin.{EnrichmentConfig}
use ig_anonymous_monitor.Worker.{WorkOutcome, Source, outcome}
use ig_anonymous_monitor.Worker.Run.{
  Outcome, run_claim, claim_and_run, canary_is_final, queue_canary_final, run_state, run_once,
}
use ig_anonymous_monitor.Worker.Gate.{IsFinalCanary, Turns, run_claim-Turns}
use ig_anonymous_monitor.Lifecycle.{Earned, IsEarned}
use ig_anonymous_monitor.Lifecycle.Steps.{Earned-job, enqueue-collector}

delete_members-collector :
    (now : ℕ) (db pruned : Database)
    → delete_members now db ≡ some pruned
    → pruned.collector ≡ db.collector
unfolding delete_members
delete_members-collector now db pruned h =
    elim (Bool-cases (
      exists_by (λ m. is_forgotten now db m && is_referenced db m.instagram_profile_id)
        db.members)) [ inl e ↦ absurd (ground (arith)) | inr e ↦ ground (arith) ]

reconcile_one-collector :
    (clock now period : ℕ) (jitter : ℕ → ℕ) (row : Account) (queued : ℕ) (db : Database)
    → (reconcile_one clock now period jitter row (queued, db)).1.collector ≡ db.collector
unfolding reconcile_one
reconcile_one-collector clock now period jitter row queued db =
    elim (Bool-cases (is_due now period row db)) [
      | inl due ↦ rw (due, enqueue-collector) refl
      | inr not_due ↦ rw not_due refl
    ]

reconcile_each-collector :
    (clock now period : ℕ) (jitter : ℕ → ℕ) (rows : List Account) (queued : ℕ) (db : Database)
    → (reconcile_each clock now period jitter rows (queued, db)).1.collector ≡ db.collector
unfolding reconcile_each
reconcile_each-collector clock now period jitter [] queued db = refl
reconcile_each-collector clock now period jitter (row ∷ rows) queued db =
    let (n, next) = reconcile_one clock now period jitter row (queued, db) in
    reconcile_each-collector clock now period jitter rows n next
    ∙ reconcile_one-collector clock now period jitter row queued db

enqueue_due_reconciliations-collector :
    (clock now period : ℕ) (jitter : ℕ → ℕ) (db : Database)
    → (enqueue_due_reconciliations clock now period jitter db).1.collector ≡ db.collector
unfolding enqueue_due_reconciliations
enqueue_due_reconciliations-collector clock now period jitter db =
    reconcile_each-collector clock now period jitter
      (select (λ a. a.enabled && a.relationship_tracking) db.accounts) 0 db

take_job-state :
    (c : Coordinator) (now : ℕ) (row : Job) (db : Database) (P : Collector → Type 0)
    → P db.collector
    → P (record (db.collector) { last_job_started_at = some now })
    → P (take_job c now row db).1.collector
unfolding take_job
take_job-state c now row db P h started =
    elim (Bool-cases
      (count_by (λ (j : Job). (j.id == row.id) && is_pending j.status) db.jobs == 1)) [
        | inl e ↦ rw e started
        | inr e ↦ rw e h
      ]

-- Claiming sets at most the start of the last job.
claim_next-collector :
    (c : Coordinator) (now : ℕ) (canary : Option ℕ) (db : Database) (P : Collector → Type 0)
    → P db.collector
    → P (record (db.collector) { last_job_started_at = some now })
    → P (claim_next c now canary db).1.collector
unfolding expire_leases
claim_next-collector c now canary db P h started =
    claim_next-keeps (λ x. P x.collector) c now canary db h
      (λ row. take_job-state c now row (expire_leases now db) P h started)

-- The state is earned, and so is the active one if this run may activate the collector.
abbrev IsReady : EnrichmentConfig → ℕ → Bool → Collector → Type 0
IsReady config now final c =
    Earned config now c c.state × (final ≡ true → Earned config now c CollectorStateKind.active)

turned-IsEarned :
    (config : EnrichmentConfig) (now : ℕ) (final : Bool) (canary : Option ℕ) (claim : Claim)
    (db : Database) (c : Collector) (out : Outcome)
    → IsReady config now final c
    → Turns (IsFinalCanary config final canary claim db) c out
    → IsEarned config now out.1
turned-IsEarned config now final canary claim db c out (h, promoted) (inl same) =
    subst (λ x. Earned config now x x.state) (sym same) h
turned-IsEarned config now final canary claim db c out (h, promoted) (inr (inl hold)) =
    subst (λ s. Earned config now out.1.collector s) (sym hold) tt
turned-IsEarned config now final canary claim db c out (h, promoted) (inr (inr (p, _, same))) =
    subst (λ x. Earned config now x x.state) (sym same) (promoted p.0)

started-IsReady :
    (config : EnrichmentConfig) (now : ℕ) (final : Bool) (c : Collector)
    → IsReady config now final c
    → IsReady config now final (record c { last_job_started_at = some now })
started-IsReady config now final c (h, promoted) = (Earned-job config now now c c.state h, promoted)

module _ (same_casefold : Text → Text → Bool) (config : EnrichmentConfig)
    (coordinator : Coordinator) (clock now : ℕ) (jitter : ℕ → ℕ) (source : Source) where
  claim_and_run-IsEarned :
      (final : Bool) (filter canary : Option ℕ) (db : Database)
      → IsReady config now final db.collector
      → IsEarned config now
          (claim_and_run same_casefold config coordinator clock now jitter source final filter
            canary db).1
  unfolding claim_and_run
  claim_and_run-IsEarned final filter canary db h =
      let ready =
        claim_next-collector coordinator now filter db (IsReady config now final) h
          (started-IsReady config now final db.collector h) in
      elim (Option-cases (claim_next coordinator now filter db).0.claim) [
        | inl nothing ↦ rw (nothing, claim_and_run) (ready.0)
        | inr (claim, found) ↦
            rw (found, claim_and_run)
              (turned-IsEarned config now final canary claim
                (claim_next coordinator now filter db).1
                (claim_next coordinator now filter db).1.collector
                (run_claim same_casefold config coordinator clock now jitter source final canary
                  claim (claim_next coordinator now filter db).1)
                ready
                (run_claim-Turns same_casefold config coordinator clock now jitter source final
                  canary claim (claim_next coordinator now filter db).1))
      ]

  canary_is_final-days :
      (c : Collector) (started : ℕ)
      → c.canary_started_at ≡ some started
      → canary_is_final same_casefold config coordinator clock now jitter source c ≡ true
      → started + days config.canary_days ≤ now
  unfolding canary_is_final
  canary_is_final-days c started e h = leb→le (started + days config.canary_days) now (ground arith)

  queue_canary_final-collector :
      (c : Collector) (db : Database)
      → (queue_canary_final same_casefold config coordinator clock now jitter source c db).collector
        ≡ db.collector
  unfolding queue_canary_final
  queue_canary_final-collector c db = grind (arith, enqueue-collector)

  run_canary-IsEarned :
      (c : Collector) (db : Database)
      → db.collector ≡ c
      → c.state ≡ CollectorStateKind.canary
      → IsEarned config now db
      → IsEarned config now
          (claim_and_run same_casefold config coordinator clock now jitter source
            (canary_is_final same_casefold config coordinator clock now jitter source c)
            c.canary_account_id
            c.canary_account_id
            (queue_canary_final same_casefold config coordinator clock now jitter source c db)).1
  run_canary-IsEarned c db same canary h =
      let earned = subst (λ x. Earned config now x x.state) same h in
      let (began, started, account_id, approved, after) =
        subst (λ s. Earned config now c s) canary earned in
      let queued =
        queue_canary_final same_casefold config coordinator clock now jitter source c db in
      let unchanged = queue_canary_final-collector c db ∙ same in
      claim_and_run-IsEarned
        (canary_is_final same_casefold config coordinator clock now jitter source c)
        c.canary_account_id c.canary_account_id queued
        (subst
          (IsReady config now
            (canary_is_final same_casefold config coordinator clock now jitter source c))
          (sym unchanged)
          (
            earned,
            λ final. (
              began,
              started,
              account_id,
              approved,
              canary_is_final-days c started approved.2 final,
            ),
          ))

  run_state-IsEarned :
      (c : Collector) (s : CollectorStateKind) (db : Database)
      → db.collector ≡ c
      → c.state ≡ s
      → IsEarned config now db
      → IsEarned config now
          (run_state same_casefold config coordinator clock now jitter source c s db).1
  unfolding run_state enqueue_due_reconciliations
  run_state-IsEarned c CollectorStateKind.canary db same e h = run_canary-IsEarned c db same e h
  run_state-IsEarned c CollectorStateKind.active db same e h =
      let due = (enqueue_due_reconciliations clock now config.reconciliation_days jitter db).1 in
      claim_and_run-IsEarned false none c.canary_account_id due (
        subst (IsReady config now false)
          (sym
            (enqueue_due_reconciliations-collector clock now config.reconciliation_days jitter db))
          (h, λ f. absurd (cc)))
  run_state-IsEarned c CollectorStateKind.unconfigured db same e h = h
  run_state-IsEarned c CollectorStateKind.observing db same e h = h
  run_state-IsEarned c CollectorStateKind.awaiting_approval db same e h = h
  run_state-IsEarned c CollectorStateKind.risk_hold db same e h = h

  run_enabled : Bool → Database → Outcome
  run_enabled on pruned =
      if on
      then run_state same_casefold config coordinator clock now jitter source pruned.collector
          pruned.collector.state pruned
      else (outcome WorkStatus.disabled none none, pruned)

  run_enabled-IsEarned :
      (on : Bool) (pruned : Database)
      → IsEarned config now pruned
      → IsEarned config now (run_enabled on pruned).1
  unfolding run_enabled
  run_enabled-IsEarned true pruned h =
      run_state-IsEarned pruned.collector pruned.collector.state pruned refl refl h
  run_enabled-IsEarned false pruned h = h

  run_once-blocked :
      (db : Database)
      → prune_relationship_data now db ≡ none
      → run_once same_casefold config coordinator clock now jitter source db ≡ none
  unfolding run_once
  run_once-blocked db blocked = rw (blocked, run_once) refl

  run_once-pruned :
      (db pruned : Database)
      → prune_relationship_data now db ≡ some pruned
      → run_once same_casefold config coordinator clock now jitter source db
        ≡ some (run_enabled config.enabled pruned)
  unfolding run_once run_enabled
  run_once-pruned db pruned done = rw (done, run_once) refl

  pub run_once-IsEarned :
      (db db' : Database) (o : WorkOutcome)
      → run_once same_casefold config coordinator clock now jitter source db ≡ some (o, db')
      → IsEarned config now db
      → IsEarned config now db'
  unfolding prune_relationship_data prune_rows
  run_once-IsEarned db db' o e h = elim (Option-cases (prune_relationship_data now db)) [
    | inl blocked ↦ absurd (cc (run_once-blocked db blocked, e))
    | inr (pruned, done) ↦
        let kept = delete_members-collector now (prune_rows now db) pruned done in
        let h' =
          run_enabled-IsEarned config.enabled pruned
            (subst (λ x. Earned config now x x.state) (sym kept) h) in
        let same : run_enabled config.enabled pruned ≡ (o, db') =
          cc (run_once-pruned db pruned done, e) in
        let after = ap (λ (p : Outcome). p.1) same in subst (λ x. IsEarned config now x) after h'
  ]
