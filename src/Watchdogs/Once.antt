-- ===== src/Watchdogs/Once.antt =====
-- The events of jobs that are stuck.
use ig_anonymous_monitor.Base.{
  ℕ, ◌≡◌, sym, ◌||◌, subst, inl, inr, Bool, true, List, [], ◌∷◌, ◌++◌, map, arith, Bool-cases, In,
  select, exists_by, In-select_of, eq_self,
}
use ig_anonymous_monitor.Store.{Database, Job, Event, EventKey}
use ig_anonymous_monitor.Collector.{insert_event, same_key}
use ig_anonymous_monitor.Watchdogs.{
  is_stuck, is_stuck_enrichment, stuck_event, stuck_enrichment_event, insert_events,
  enqueue_relationship_watchdogs,
}

-- The job is reported.
unfoldable pub is_reported : ℕ → List Event → Bool
is_reported job_id = exists_by (λ e. same_key e.key (EventKey.relationship_queue_stuck_key job_id))

append-is_reported :
    (job_id : ℕ) (e : Event) (events : List Event)
    → is_reported job_id (events ++ e ∷ [])
      ≡ is_reported job_id events || same_key e.key (EventKey.relationship_queue_stuck_key job_id)
unfolding is_reported exists_by
append-is_reported job_id e [] = ground arith
append-is_reported job_id e (x ∷ events) = ground (arith, append-is_reported job_id e events)

appended :
    (now : ℕ) (j : Job) (events : List Event)
    → is_reported j.id (events ++ stuck_event now j ∷ []) ≡ true
unfolding same_key
appended now j events = rw append-is_reported (ground (arith, eq_self j.id))

insert_event-is_reported :
    (job_id : ℕ) (e : Event) (events : List Event)
    → is_reported job_id events ≡ true
    → is_reported job_id (insert_event e events) ≡ true
unfolding insert_event
insert_event-is_reported job_id e events h =
    elim (Bool-cases (exists_by (λ x. same_key x.key e.key) events)) [
      | inl there ↦ rw there h
      | inr new ↦ rw (new, append-is_reported) (ground (arith, h))
    ]

insert_events-is_reported :
    (job_id : ℕ) (es events : List Event)
    → is_reported job_id events ≡ true
    → is_reported job_id (insert_events es events) ≡ true
unfolding insert_events
insert_events-is_reported job_id [] events h = h
insert_events-is_reported job_id (e ∷ es) events h =
    insert_events-is_reported job_id es (insert_event e events)
      (insert_event-is_reported job_id e events h)

insert_event-reports :
    (now : ℕ) (j : Job) (events : List Event)
    → is_reported j.id (insert_event (stuck_event now j) events) ≡ true
unfolding insert_event is_reported
insert_event-reports now j events =
    let key = EventKey.relationship_queue_stuck_key j.id in
    elim (Bool-cases (exists_by (λ x. same_key x.key key) events)) [
      | inl e ↦ rw e e
      | inr e ↦ rw e (appended now j events)
    ]

insert_events-reports :
    (now : ℕ) (jobs : List Job) (events : List Event) (j : Job)
    → In j jobs
    → is_reported j.id (insert_events (map (stuck_event now) jobs) events) ≡ true
unfolding insert_events
insert_events-reports now [] events j m = elim m [ ]
insert_events-reports now (k ∷ jobs) events j (inl e) =
    insert_events-is_reported j.id (map (stuck_event now) jobs) _ (
      subst (λ z. is_reported z.id (insert_event (stuck_event now k) events) ≡ true) (sym e)
        (insert_event-reports now k events))
insert_events-reports now (k ∷ jobs) events j (inr m) =
    insert_events-reports now jobs (insert_event (stuck_event now k) events) j m

-- A relationship job that has been open for 24 hours, of an account that is there, has its event
-- after the watchdogs have run, and a job that had its event keeps it.
pub enqueue_relationship_watchdogs-reports :
    (now : ℕ) (db : Database) (j : Job)
    → In j db.jobs
    → (is_stuck now db.accounts j ≡ true
        → is_reported j.id (enqueue_relationship_watchdogs now db).events ≡ true)
      × (is_reported j.id db.events ≡ true
          → is_reported j.id (enqueue_relationship_watchdogs now db).events ≡ true)
unfolding enqueue_relationship_watchdogs
enqueue_relationship_watchdogs-reports now db j m =
    let stuck = select (is_stuck now db.accounts) db.jobs in
    let slow =
      map (stuck_enrichment_event now) (select (is_stuck_enrichment now) db.enrichment_jobs) in
    let reported = insert_events (map (stuck_event now) stuck) db.events in
    (
      λ e. insert_events-is_reported j.id slow reported (
          insert_events-reports now stuck db.events j
            (In-select_of (is_stuck now db.accounts) db.jobs m e)),
      λ h.
          insert_events-is_reported j.id slow reported
            (insert_events-is_reported j.id (map (stuck_event now) stuck) db.events h),
    )
