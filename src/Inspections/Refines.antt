-- ===== src/Inspections/Refines.antt =====
-- The health of an account against its specification: how often it has failed in a row.
use ig_anonymous_monitor.Base.{
  ℕ, ◌+◌, ◌≡◌, not, Option, none, some, List, [], ◌∷◌, leb, ◌==◌, if◌then◌else◌, is_some,
}
use ig_anonymous_monitor.Store.{Text, ProfileSnapshot}
use ig_anonymous_monitor.Inspections.{
  Health, InspectionTables, MediaCandidate, record_success, health_of, record_failure,
}

-- What an inspection ends in, with the arguments of the operation that records it.
pub data Ending : Type 0 where
  fails : ℕ → Text → Ending
  succeeds : ℕ → Option ℕ → ProfileSnapshot → List ℕ → List MediaCandidate → Ending

pub record Inspection : Type 0 where
  pub account_id : ℕ
  pub ending : Ending

-- An exception leaves the database as it was.
abbrev pub after_failure : InspectionTables → Option (ℕ × InspectionTables) → InspectionTables
after_failure db none = db
after_failure db (some (count, after)) = after

abbrev pub run_ending : ℕ → Ending → InspectionTables → InspectionTables
run_ending account_id (Ending.fails clock error) db =
    after_failure db (record_failure clock account_id error db)
run_ending account_id (Ending.succeeds clock observed_at snapshot keys media) db =
    record_success clock account_id observed_at snapshot keys media db

unfoldable pub run_inspections : List Inspection → InspectionTables → InspectionTables
run_inspections [] db = db
run_inspections (i ∷ inspections) db =
    run_inspections inspections (run_ending i.account_id i.ending db)

-- The specification: the number of failures since the last success.
abbrev pub counted : ℕ → Ending → ℕ
counted n (Ending.fails clock error) = n + 1
counted n (Ending.succeeds clock observed_at snapshot keys media) = 0

unfoldable pub failures_in_a_row : ℕ → List Inspection → ℕ → ℕ
failures_in_a_row account_id [] n = n
failures_in_a_row account_id (i ∷ inspections) n =
    failures_in_a_row account_id inspections
      (if i.account_id == account_id then counted n i.ending else n)

-- The row counts the failures, has the time of the first while there is one, and is notified from
-- the third on.
pub record Represents (n : ℕ) (a : Health) : Type 0 where
  pub count : a.fail_count ≡ n
  pub notified : a.failure_notified ≡ leb 3 n
  pub since : is_some a.failure_since ≡ not (n == 0)

abbrev pub IsAt : ℕ → ℕ → InspectionTables → Type 0
IsAt account_id n db = (a : Health) × (health_of account_id db.accounts ≡ some a) × Represents n a
