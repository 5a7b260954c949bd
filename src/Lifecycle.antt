-- ===== src/Lifecycle.antt =====
-- The life of the collector: the administration's commands and the worker's runs, in any order, at
-- times that do not run backwards.
mod Steps
mod Works
pub mod Invariant
use ig_anonymous_monitor.Base.{ℕ, ◌+◌, ◌*◌, ◌≤◌, ◌≡◌, Bool, Option, none, some}
use ig_anonymous_monitor.Store.{Text, Database, Collector, CollectorStateKind, Account}
use ig_anonymous_monitor.Work.{Coordinator}
use ig_anonymous_monitor.Jobs.{days}
use ig_anonymous_monitor.Admin.{EnrichmentConfig, Answer, status, login, approve, begin_recovery}
use ig_anonymous_monitor.Worker.{WorkOutcome, Source}
use ig_anonymous_monitor.Worker.Run.{run_once}

-- Since `began` the collector has been observed for the hours that the configuration asks for.
abbrev pub IsObserved : EnrichmentConfig → ℕ → Collector → ℕ → Type 0
IsObserved config began c now =
    (c.observed_since ≡ some began) × (began + config.observation_hours * 3600 ≤ now)

-- It was approved at `started`, after the observation, with the canary account at hand.
abbrev pub IsApproved : EnrichmentConfig → ℕ → ℕ → ℕ → Collector → Type 0
IsApproved config began started account_id c =
    IsObserved config began c started
    × (c.approved_at ≡ some started)
    × (c.canary_started_at ≡ some started)
    × (c.canary_account_id ≡ some account_id)

-- What the collector must have gone through to be in its state at the time `now`.
abbrev pub Earned : EnrichmentConfig → ℕ → Collector → CollectorStateKind → Type 0
Earned config now c CollectorStateKind.awaiting_approval =
    (began : ℕ) × IsObserved config began c now
Earned config now c CollectorStateKind.canary =
    (began : ℕ) × (started : ℕ) × (account_id : ℕ) × IsApproved config began started account_id c
    × (started ≤ now)
Earned config now c CollectorStateKind.active =
    (began : ℕ) × (started : ℕ) × (account_id : ℕ) × IsApproved config began started account_id c
    × (started + days config.canary_days ≤ now)
Earned config now c _ = Unit

abbrev pub IsEarned : EnrichmentConfig → ℕ → Database → Type 0
IsEarned config now db = Earned config now db.collector db.collector.state

-- A database with the time of the last operation on it. `elsewhere` is any other change.
pub data Step (config : EnrichmentConfig) : ℕ → Database → ℕ → Database → Type 0 where
  asks_status :
      (t now clock : ℕ) (health : Answer (Unit {0})) (db : Database)
      → t ≤ now
      → Step config t db now (status config clock now health db).1
  logs_in :
      (t now clock : ℕ) (answer : Answer Bool) (db : Database)
      → t ≤ now
      → Step config t db now (login clock now answer db).1
  approves :
      (t now clock account_id : ℕ) (db : Database)
      → t ≤ now
      → Step config t db now (approve config clock account_id now db).1
  recovers :
      (t now clock : ℕ) (health : Answer (Unit {0})) (db : Database)
      → t ≤ now
      → Step config t db now (begin_recovery clock now health db).1
  works :
      (t now clock : ℕ) (same_casefold : Text → Text → Bool) (coordinator : Coordinator)
      (jitter : ℕ → ℕ) (source : Source) (db db' : Database) (o : WorkOutcome)
      → t ≤ now
      → run_once same_casefold config coordinator clock now jitter source db ≡ some (o, db')
      → Step config t db now db'
  elsewhere :
      (t now : ℕ) (db db' : Database)
      → t ≤ now
      → db'.collector ≡ db.collector
      → Step config t db now db'

pub data Reach (config : EnrichmentConfig) (t : ℕ) (s : Database) : ℕ → Database → Type 0 where
  here : Reach config t s t s
  next :
      {u : ℕ} {db : Database} {v : ℕ} {db' : Database}
      → Reach config t s u db
      → Step config u db v db'
      → Reach config t s v db'
