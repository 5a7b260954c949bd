-- ===== src/Lib.antt =====
-- ig-anonymous-monitor: the queues, cooldowns and relationship collection of the monitor.
--
-- The program watches Instagram accounts; a scheduler starts its inspections and downloads. Its
-- authenticated part collects the followers and the followings of tracked accounts through one
-- shared collector account. A queue of relationship jobs (ig_monitor/db.py) feeds the coordinator of authenticated work (ig_monitor/authenticated_work.py),
-- which alone starts runs, within a budget a day, a spacing and a lease. The worker
-- (ig_monitor/relationships.py) takes a claim, resolves the account, pages through the lists of
-- members, stages them and applies a complete list in one transaction. The collector account has a
-- life of its own (unconfigured, observing, awaiting approval, canary, active, risk hold), moved by
-- the administration and by the worker.
--
-- Files, each with its proofs in the folder of its name:
--   Base         tests on numbers, tables as lists, their laws
--   Store        the rows of ig_monitor/db.py (`CREATE TABLE ..`), ig_monitor/models.py
--   Work         `AuthenticatedWorkCoordinator`: `claim_next`, `finish`
--   Jobs         the queue operations of `Database` (ig_monitor/db.py)
--   Reasons      `_collector_fatal_reason`, `_target_ineligible_reason`
--   Collector    the writers of `collector_state` (ig_monitor/db.py)
--   Admin        `CollectorAdministration`
--   Snapshot     `stage_relationship_members`, `apply_complete_relationship_run`
--   Retention    `prune_relationship_data`
--   Worker       `RelationshipWorker`: `run_once`, `_collect_direction`
--   Trigger      `RelationshipTrigger.observe_profile`
--   Enrichment   the queue of member enrichment (ig_monitor/db.py), `apply_member_profile`
--   Media        how a download ends: `mark_media_downloaded` to `media_path_referenced`
--   Backlog      media that wait: `pending_media`, `media_backlog` (ig_monitor/db.py)
--   Inspections  `record_success` and `record_failure` (ig_monitor/db.py)
--   Cooldown     when anonymous sources may be asked again (ig_monitor/anonymous_store.py)
--   Observations what became of each collection, and its alarms: `record_collection_observations`
--   GroupHistory `record_group_observations` and `read_group_observations`
--   Memberships  to whom media belong: `_record_media_membership`, `media_requires_review`
--   Fingerprint  `is_similar` and `quality_rank` (ig_monitor/dedup.py)
--   Dedup        `deduplicate_existing_media` (ig_monitor/dedup.py)
--   Quarantine   media that accounts share: `quarantine_cross_account_media`, its merged groups
--                (Quarantine/Merge), and their review (Quarantine/Review)
--   MemberWorker `MemberEnrichmentWorker.run_once` (ig_monitor/member_enrichment.py)
--   Watchdogs    `enqueue_relationship_watchdogs`
--   Scheduler    `run_split_scheduler` (ig_monitor/scheduler.py)
--   Lifecycle    the collector over the administration's commands and the worker's runs
--   Examples     concrete databases, and the theorems applied to them
--
-- A table is a list of rows in the order of their ids, a transaction a function on the database, an
-- exception that undoes one `none`. Where a function has a clock of its own (`utc_now`), that time is
-- an argument `clock`, apart from the caller's `now`. Times are whole seconds since 1970; numbers
-- are unbounded, as Python's are. Loops run over lists, but for two on fuel: the search for the medium
-- that a duplicate stands for has one round a row and one more, since it
-- stops at the first row that it meets again; the digits of a number are at most its value.
--
-- Media of one account are compared by fingerprints (Fingerprint) and grouped (Dedup), with
-- what the sources said of their authors (Memberships). Media that
-- many accounts share are put in quarantine, then restored or deleted (Quarantine). Files, hashes and
-- pictures are a parameter, the record `Files`. Floating point ratios and durations are exact fractions
-- and milliseconds, so a comparison that rounding would change at its very limit is not covered.
--
-- What Instagram answers is a parameter: the `Source` gives the answer of each call, which may be any
-- value or any exception, and the theorems hold for all of them. Random delays are parameters too, and
-- so is the case folding of user names. The scheduler's times are in units in which its readings of
-- the clock are whole. Not modelled: the scrapers, the dashboard, Telegram, the making of
-- fingerprints, the parsing of the configuration, the columns `created_at` and `updated_at` where
-- nothing reads them; the runs that `_backfill_authenticated_work_runs` adds for the jobs of older
-- versions; and two errors of the tables that are taken not to arise: the UNIQUE constraint on a
-- run's `work_kind,work_ref_id,started_at` (a job claimed twice within one second) and the foreign
-- key of a new job's account. Of `sync_accounts` only the statement on `relationship_jobs` is
-- modelled.
pub mod Base
pub mod Store
pub mod Work
pub mod Jobs
pub mod Reasons
pub mod Collector
pub mod Admin
pub mod Snapshot
pub mod Retention
pub mod Worker
pub mod Lifecycle
pub mod Examples
pub mod Trigger
pub mod Enrichment
pub mod Scheduler
pub mod Media
pub mod Watchdogs
pub mod Cooldown
pub mod Fingerprint
pub mod Memberships
pub mod Dedup
pub mod Quarantine
pub mod MemberWorker
pub mod Observations
pub mod Inspections
pub mod Backlog
pub mod GroupHistory
