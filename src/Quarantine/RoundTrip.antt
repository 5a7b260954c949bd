-- ===== src/Quarantine/RoundTrip.antt =====
-- The quarantine of a medium, then its restoration.
use ig_anonymous_monitor.Base.{ℕ, ◌≡◌, true, Option, some, List, ◌==◌, All, find_by}
use ig_anonymous_monitor.Media.Tables.{Media, MediaStatus}
use ig_anonymous_monitor.Quarantine.Search.{is_undecided}
use ig_anonymous_monitor.Quarantine.Tables.{Quarantined}

abbrev row_of : ℕ → List Quarantined → Option Quarantined
row_of id = find_by (λ q. q.media_id == id)

-- The quarantine of the medium awaits a decision, and has the status that it had.
IsRecorded : ℕ → MediaStatus → List Quarantined → Type 0
IsRecorded id status rows =
    (q : Quarantined) × (row_of id rows ≡ some q)
    × (q.original_status ≡ status)
    × (is_undecided q.decision ≡ true)

-- Every target with the id has that status.
abbrev pub HasStatus : ℕ → MediaStatus → List Media → Type 0
HasStatus id status = All (λ t. (t.id == id) ≡ true → t.status ≡ status)
