-- ===== src/Lifecycle/Steps.antt =====
-- The administration's operations, and what the collector's state has been earned by.
use ig_anonymous_monitor.Base.{
  ℕ, ◌+◌, ◌*◌, ◌≤◌, ◌≡◌, refl, inl, inr, Bool, true, false, ◌&&◌, Option, none, some, arith, leb,
  leb→le, Bool-cases,
}
use ig_anonymous_monitor.Store.{Database, Collector, CollectorStateKind, same_state, JobReason}
use ig_anonymous_monitor.Jobs.{get_account_by_id, enqueue_relationship_job, insert_job}
use ig_anonymous_monitor.Collector.{
  set_collector_state, begin_collector_observation, update_collector_health,
  approve_collector_canary, place_collector_risk_hold,
}
use ig_anonymous_monitor.Admin.{
  EnrichmentConfig, Answer, returned, raised, collector_fatal, target_ineligible, other, status,
  status_observing, check_health, conclude, login, approve, begin_recovery, recover, can_be_canary,
  health_due,
}
use ig_anonymous_monitor.Reasons.{collector_fatal_reason}
use ig_anonymous_monitor.Lifecycle.{Earned, IsEarned}

pub Earned-later :
    (config : EnrichmentConfig) (t now : ℕ) (c : Collector) (s : CollectorStateKind)
    → t ≤ now
    → Earned config t c s
    → Earned config now c s
Earned-later config t now c CollectorStateKind.unconfigured h e = tt
Earned-later config t now c CollectorStateKind.observing h e = tt
Earned-later config t now c CollectorStateKind.awaiting_approval h (began, (since, long)) =
    (began, (since, omega arith))
Earned-later config t now c CollectorStateKind.canary h (began, started, a, approved, after) =
    (began, started, a, approved, omega arith)
Earned-later config t now c CollectorStateKind.active h (began, started, a, approved, after) =
    (began, started, a, approved, omega arith)
Earned-later config t now c CollectorStateKind.risk_hold h e = tt

both_left : (a b : Bool) → (a && b) ≡ true → a ≡ true
both_left a b h = ground arith

-- The times of the last check and of the last job do not count.
pub Earned-health :
    (config : EnrichmentConfig) (now at : ℕ) (c : Collector) (s : CollectorStateKind)
    → Earned config now c s
    → Earned config now (record c { last_health_check_at = some at }) s
Earned-health config now at c CollectorStateKind.unconfigured h = h
Earned-health config now at c CollectorStateKind.observing h = h
Earned-health config now at c CollectorStateKind.awaiting_approval h = h
Earned-health config now at c CollectorStateKind.canary h = h
Earned-health config now at c CollectorStateKind.active h = h
Earned-health config now at c CollectorStateKind.risk_hold h = h

pub Earned-job :
    (config : EnrichmentConfig) (now at : ℕ) (c : Collector) (s : CollectorStateKind)
    → Earned config now c s
    → Earned config now (record c { last_job_started_at = some at }) s
Earned-job config now at c CollectorStateKind.unconfigured h = h
Earned-job config now at c CollectorStateKind.observing h = h
Earned-job config now at c CollectorStateKind.awaiting_approval h = h
Earned-job config now at c CollectorStateKind.canary h = h
Earned-job config now at c CollectorStateKind.active h = h
Earned-job config now at c CollectorStateKind.risk_hold h = h

waiting-Earned :
    (config : EnrichmentConfig) (now : ℕ) (c : Collector) (s : CollectorStateKind)
    → same_state s CollectorStateKind.awaiting_approval ≡ true
    → Earned config now c s
    → Earned config now c CollectorStateKind.awaiting_approval
waiting-Earned config now c CollectorStateKind.awaiting_approval e h = h
waiting-Earned config now c CollectorStateKind.unconfigured e h = absurd (cc)
waiting-Earned config now c CollectorStateKind.observing e h = absurd (cc)
waiting-Earned config now c CollectorStateKind.canary e h = absurd (cc)
waiting-Earned config now c CollectorStateKind.active e h = absurd (cc)
waiting-Earned config now c CollectorStateKind.risk_hold e h = absurd (cc)

pub enqueue-collector :
    (clock a : ℕ) (f g : Bool) (reason : JobReason) (at : ℕ) (db : Database)
    → (enqueue_relationship_job clock a f g reason at db).1.collector ≡ db.collector
unfolding enqueue_relationship_job insert_job
enqueue-collector clock a f g reason at db = ground arith

-- The end of `status`: a state that is still observing, for long enough, waits for approval.
conclude-IsEarned :
    (config : EnrichmentConfig) (now observed : ℕ) (db : Database)
    → db.collector.observed_since ≡ some observed
    → IsEarned config now db
    → IsEarned config now (conclude config now observed db)
unfolding conclude set_collector_state
conclude-IsEarned config now observed db since h =
    let long = leb (observed + config.observation_hours * 3600) now in
    elim (Bool-cases (long && same_state db.collector.state CollectorStateKind.observing)) [
      | inl e ↦ rw e (observed, (since, leb→le _ _ (both_left long _ e)))
      | inr e ↦ rw e h
    ]

check_health-IsEarned :
    (config : EnrichmentConfig) (now clock observed : ℕ) (health : Answer (Unit {0}))
    (db : Database)
    → db.collector.observed_since ≡ some observed
    → IsEarned config now db
    → IsEarned config now (check_health config clock now observed health db).1
unfolding check_health update_collector_health place_collector_risk_hold
check_health-IsEarned config now clock observed (returned _) db since h =
    conclude-IsEarned config now observed _ since
      (Earned-health config now now db.collector db.collector.state h)
check_health-IsEarned config now clock observed (raised (collector_fatal m)) db since h =
    conclude-IsEarned config now observed
      (place_collector_risk_hold clock (collector_fatal_reason m) db) since tt
check_health-IsEarned config now clock observed (raised (target_ineligible m)) db since h = h
check_health-IsEarned config now clock observed (raised (other m)) db since h = h

status_observing-IsEarned :
    (config : EnrichmentConfig) (now clock : ℕ) (health : Answer (Unit {0})) (since : Option ℕ)
    (db : Database)
    → db.collector.observed_since ≡ since
    → IsEarned config now db
    → IsEarned config now (status_observing config clock now health since db).1
unfolding status_observing
status_observing-IsEarned config now clock health none db e h = h
status_observing-IsEarned config now clock health (some observed) db e h =
    elim (Bool-cases (health_due now db.collector.last_health_check_at)) [
      | inl due ↦ rw due (check_health-IsEarned config now clock observed health db e h)
      | inr recent ↦ rw recent (conclude-IsEarned config now observed db e h)
    ]

pub status-IsEarned :
    (config : EnrichmentConfig) (now clock : ℕ) (health : Answer (Unit {0})) (db : Database)
    → IsEarned config now db
    → IsEarned config now (status config clock now health db).1
unfolding status
status-IsEarned config now clock health db h =
    elim (Bool-cases (same_state db.collector.state CollectorStateKind.observing)) [
      | inl e ↦
          rw e (
            status_observing-IsEarned config now clock health db.collector.observed_since db refl h)
      | inr e ↦ rw e h
    ]

pub login-IsEarned :
    (config : EnrichmentConfig) (now clock : ℕ) (answer : Answer Bool) (db : Database)
    → IsEarned config now db
    → IsEarned config now (login clock now answer db).1
unfolding login begin_collector_observation place_collector_risk_hold
login-IsEarned config now clock (returned true) db h = tt
login-IsEarned config now clock (returned false) db h = h
login-IsEarned config now clock (raised (collector_fatal m)) db h = tt
login-IsEarned config now clock (raised (target_ineligible m)) db h = h
login-IsEarned config now clock (raised (other m)) db h = h

recover-IsEarned :
    (config : EnrichmentConfig) (now clock : ℕ) (health : Answer (Unit {0})) (db : Database)
    → IsEarned config now db
    → IsEarned config now (recover clock now health db).1
unfolding recover begin_collector_observation place_collector_risk_hold
recover-IsEarned config now clock (returned _) db h = tt
recover-IsEarned config now clock (raised (collector_fatal m)) db h = tt
recover-IsEarned config now clock (raised (target_ineligible m)) db h = h
recover-IsEarned config now clock (raised (other m)) db h = h

pub recovery-IsEarned :
    (config : EnrichmentConfig) (now clock : ℕ) (health : Answer (Unit {0})) (db : Database)
    → IsEarned config now db
    → IsEarned config now (begin_recovery clock now health db).1
unfolding begin_recovery
recovery-IsEarned config now clock health db h =
    elim (Bool-cases (same_state db.collector.state CollectorStateKind.risk_hold)) [
      | inl e ↦ rw e (recover-IsEarned config now clock health db h)
      | inr e ↦ rw e h
    ]

pub approve-IsEarned :
    (config : EnrichmentConfig) (now clock account_id : ℕ) (db : Database)
    → IsEarned config now db
    → IsEarned config now (approve config clock account_id now db).1
unfolding approve approve_collector_canary
approve-IsEarned config now clock account_id db h =
    let waits = same_state db.collector.state CollectorStateKind.awaiting_approval in
    let fits = can_be_canary config (get_account_by_id account_id db) in
    elim (Bool-cases (waits && fits)) [
      | inl e ↦
          let (began, seen) =
            waiting-Earned config now db.collector db.collector.state (both_left waits fits e) h in
          rw (e, enqueue-collector) (began, now, account_id, (seen, refl, refl, refl), omega arith)
      | inr e ↦ rw e h
    ]
