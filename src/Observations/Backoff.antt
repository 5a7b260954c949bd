-- ===== src/Observations/Backoff.antt =====
-- How long posts of IGWatcher wait after a failure.
use ig_anonymous_monitor.Base.{
  ℕ, ◌+◌, ◌*◌, ◌≤◌, ◌≡◌, refl, ap, Bool, true, false, some, List, [], ◌∷◌, ◌++◌, ltb, arith,
  Bool-cases, Option-cases, inl, inr, is_some, update_where, find_by-update_where,
  find_by-append_one, find_by-holds, eq_self, sym, subst,
}
use ig_anonymous_monitor.Cooldown.{SourceName, is_later}
use ig_anonymous_monitor.Observations.{
  is_row_of, is_failure, backoff_minutes, incident_after, updated_row, new_row, row_of, ensured,
  observe_row, observe, collection_backoff, is_posts_backoff,
}
use ig_anonymous_monitor.Observations.States.{
  Category, Collected, Observation, ObservationTables, Alarm, is_known_category, is_known_state,
}

backoff_minutes_bounds : (count : ℕ) → (30 ≤ backoff_minutes count) × (backoff_minutes count ≤ 240)
unfolding backoff_minutes
backoff_minutes_bounds count = ground arith

-- The row of posts of IGWatcher waits until that time.
abbrev Waits : ℕ → ℕ → ObservationTables → Type 0
Waits account_id until db =
    (row : Collected) × (row_of account_id SourceName.igwatcher Category.posts db.states ≡ some row)
    × (row.next_retry_at ≡ some until)

is_row-backoff :
    (account_id : ℕ) (row : Collected)
    → is_row_of account_id SourceName.igwatcher Category.posts row ≡ true
    → is_posts_backoff row.source row.category ≡ true
is_row-backoff account_id row h = ground arith

failed-next_retry :
    (now : ℕ) (source : SourceName) (o : Observation) (row : Collected) (alarms : List Alarm)
    → is_failure o ≡ true
    → is_posts_backoff row.source row.category ≡ true
    → (incident_after now source o row alarms).next_retry
      ≡ some (now + backoff_minutes (row.fail_count + 1) * 60)
unfolding incident_after
failed-next_retry now source o row alarms bad posts = rw (bad, incident_after) (rw posts refl)

observe_row-Waits :
    (now account_id : ℕ) (progress : Bool) (o : Observation) (row : Collected)
    (states : List Collected) (alarms : List Alarm)
    → o.category ≡ Category.posts
    → is_failure o ≡ true
    → row_of account_id SourceName.igwatcher Category.posts states ≡ some row
    → Waits account_id
        (now + backoff_minutes (row.fail_count + 1) * 60)
        (observe_row now account_id SourceName.igwatcher progress o (row, states) alarms)
unfolding row_of
observe_row-Waits now account_id progress o row states alarms posts bad found =
    let test = is_row_of account_id SourceName.igwatcher Category.posts in
    let i = incident_after now SourceName.igwatcher o row alarms in
    let row' = updated_row now SourceName.igwatcher progress o i row in
    let own = find_by-holds test states found in
    let there = find_by-update_where test (λ r. row') states row (λ y h. own) found in
    (
      row',
      subst
          (λ c.
            row_of account_id SourceName.igwatcher Category.posts
              (update_where (is_row_of account_id SourceName.igwatcher c) (λ r. row') states)
            ≡ some row')
          (sym posts) there,
      failed-next_retry now SourceName.igwatcher o row alarms bad
          (is_row-backoff account_id row own),
    )

-- Some count of failures decides how long.
WaitsFor : ℕ → ℕ → ObservationTables → Type 0
WaitsFor account_id now db = (count : ℕ) × Waits account_id (now + backoff_minutes count * 60) db

ensured-Waits :
    (now account_id : ℕ) (progress : Bool) (o : Observation) (db : ObservationTables)
    → o.category ≡ Category.posts
    → is_failure o ≡ true
    → WaitsFor account_id now (
        observe_row now account_id SourceName.igwatcher progress o
          (ensured account_id SourceName.igwatcher Category.posts db.states
            (row_of account_id SourceName.igwatcher Category.posts db.states))
          db.alarms)
unfolding row_of WaitsFor
ensured-Waits now account_id progress o db posts bad =
    elim (Option-cases (row_of account_id SourceName.igwatcher Category.posts db.states)) [
      | inl absent ↦
          let row = new_row account_id SourceName.igwatcher Category.posts in
          let there =
            find_by-append_one (is_row_of account_id SourceName.igwatcher Category.posts) db.states
              row absent (rw (eq_self account_id) refl) in
          rw (absent, row_of)
            (
              1,
              observe_row-Waits now account_id progress o row (db.states ++ row ∷ []) db.alarms
                  posts bad there,
            )
      | inr (row, found) ↦
          rw (found, row_of)
            (
              row.fail_count + 1,
              observe_row-Waits now account_id progress o row db.states db.alarms posts bad found,
            )
    ]

Waits-backoff :
    (account_id until t : ℕ) (db : ObservationTables)
    → Waits account_id until db
    → is_some (collection_backoff account_id SourceName.igwatcher Category.posts t db) ≡ ltb t until
unfolding collection_backoff
Waits-backoff account_id until t db (row, found, same) = elim (Bool-cases (ltb t until)) [
  | inl early ↦
      let later : is_later row.next_retry_at t ≡ true = rw same early in
      rw (found, later, early) refl
  | inr over ↦
      let past : is_later row.next_retry_at t ≡ false = rw same over in rw (found, past, over) refl
]

-- A failed attempt at the posts of IGWatcher is recorded, and posts are then held back until a time
-- that is at least 30 minutes and at most 240 away, and no longer, whatever was recorded before.
pub observe-backs_off :
    (now account_id : ℕ) (progress : Bool) (o : Observation) (db : ObservationTables)
    → o.category ≡ Category.posts
    → o.attempted ≡ true
    → is_known_state o.state ≡ true
    → is_failure o ≡ true
    → (after : ObservationTables) × (until : ℕ) × (observe now account_id SourceName.igwatcher
          progress o db
        ≡ some after)
      × (now + 30 * 60 ≤ until)
      × (until ≤ now + 240 * 60)
      × ((t : ℕ)
          → is_some (collection_backoff account_id SourceName.igwatcher Category.posts t after)
            ≡ ltb t until)
unfolding observe WaitsFor
observe-backs_off now account_id progress o db posts tried known bad =
    let after =
      observe_row now account_id SourceName.igwatcher progress o
        (ensured account_id SourceName.igwatcher o.category db.states
          (row_of account_id SourceName.igwatcher o.category db.states))
        db.alarms in
    let waits : WaitsFor account_id now after =
      subst
        (λ c. WaitsFor account_id now (
          observe_row now account_id SourceName.igwatcher progress o
            (ensured account_id SourceName.igwatcher c db.states
              (row_of account_id SourceName.igwatcher c db.states))
            db.alarms))
        (sym posts) (ensured-Waits now account_id progress o db posts bad) in
    let category : is_known_category o.category ≡ true = ap is_known_category posts in
    let (low, high) = backoff_minutes_bounds waits.0 in
    let until = now + backoff_minutes waits.0 * 60 in
    (
      after,
      until,
      rw (category, tried, known, observe) refl,
      omega (arith, low),
      omega (arith, high),
      λ t. Waits-backoff account_id until t after waits.1,
    )
