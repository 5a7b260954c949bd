-- ===== src/Observations/Traces.antt =====
-- Observations that are recorded one after the other.
use ig_anonymous_monitor.Base.{ℕ, Bool, List}
use ig_anonymous_monitor.Cooldown.{SourceName}
use ig_anonymous_monitor.Observations.{record_collection_observations}
use ig_anonymous_monitor.Observations.States.{Observation, ObservationTables}

-- From a database to one that calls, at any times and of any accounts and sources, lead to.
pub data Reach : ObservationTables → ObservationTables → Type 0 where
  start : (db : ObservationTables) → Reach db db
  next :
      (db db' : ObservationTables) (now account_id : ℕ) (source : SourceName) (progress : Bool)
      (observations : List Observation)
      → Reach db db'
      → Reach db (record_collection_observations now account_id source progress observations db')
