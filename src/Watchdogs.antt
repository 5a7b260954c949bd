-- ===== src/Watchdogs.antt =====
-- `enqueue_relationship_watchdogs` (ig_monitor/db.py): events for jobs that have been open too long.
pub mod Once
use ig_anonymous_monitor.Base.{
  ℕ, ◌+◌, ◌*◌, Bool, ◌&&◌, none, some, List, [], ◌∷◌, map, leb, select, exists_by,
}
use ig_anonymous_monitor.Store.{
  Database, Account, Job, EnrichmentJob, Event, EventKey, Payload, is_open, is_open_enrichment,
}
use ig_anonymous_monitor.Jobs.{has_id}
use ig_anonymous_monitor.Collector.{insert_event}

-- An open job as old as the limit, whose account is there.
unfoldable pub is_stuck : ℕ → List Account → Job → Bool
is_stuck now accounts j =
    is_open j.status
    && leb (j.created_at + 24 * 3600) now
    && exists_by (has_id j.account_id) accounts

unfoldable pub is_stuck_enrichment : ℕ → EnrichmentJob → Bool
is_stuck_enrichment now j = is_open_enrichment j.status && leb (j.created_at + 72 * 3600) now

abbrev pub stuck_event : ℕ → Job → Event
stuck_event now j = record {
  key = EventKey.relationship_queue_stuck_key j.id;
  account_id = some j.account_id;
  payload = Payload.stuck j.id;
  created_at = now;
}

abbrev pub stuck_enrichment_event : ℕ → EnrichmentJob → Event
stuck_enrichment_event now j = record {
  key = EventKey.member_queue_stuck_key j.id;
  account_id = none;
  payload = Payload.stuck j.id;
  created_at = now;
}

unfoldable pub insert_events : List Event → List Event → List Event
insert_events [] events = events
insert_events (e ∷ es) events = insert_events es (insert_event e events)

unfoldable pub enqueue_relationship_watchdogs : ℕ → Database → Database
unfolding insert_events is_stuck is_stuck_enrichment
enqueue_relationship_watchdogs now db = record db {
  events =
      insert_events
        (map (stuck_enrichment_event now) (select (is_stuck_enrichment now) db.enrichment_jobs))
        (insert_events (map (stuck_event now) (select (is_stuck now db.accounts) db.jobs))
          db.events);
}
