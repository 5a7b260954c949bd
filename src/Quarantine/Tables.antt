-- ===== src/Quarantine/Tables.antt =====
-- `media_quarantine` beside the tables of media (ig_monitor/db.py).
use ig_anonymous_monitor.Base.{ℕ, Option, List}
use ig_anonymous_monitor.Media.Tables.{MediaStatus, MediaTables}
use ig_anonymous_monitor.Quarantine.Merge.{Signal}

pub data Decision : Type 0 where
  pending kept deleted : Decision

pub record Quarantined : Type 0 where
  pub media_id : ℕ
  pub signal : Signal
  pub signal_value : ℕ
  pub original_status : MediaStatus
  pub quarantined_at : ℕ
  pub decision : Decision
  pub reviewed_at : Option ℕ

pub record QuarantineTables : Type 0 where
  pub tables : MediaTables
  pub media_quarantine : List Quarantined
