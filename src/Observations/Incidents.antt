-- ===== src/Observations/Incidents.antt =====
-- Failures in a row, and the alarm that is given of them.
pub mod Alarms
use ig_anonymous_monitor.Observations.Incidents.Alarms.{
  append-was_given, insert_alarm-gives, insert_alarm-keeps, same_alarm_self, same_bool_self,
  same_category_self, same_source_self, same_time_self, was_given,
}
use ig_anonymous_monitor.Base.{
  ℕ, ◌+◌, ◌≤◌, ◌≡◌, refl, Bool, true, false, ◌&&◌, ◌||◌, not, Option, none, some, List, [], ◌∷◌,
  ◌++◌, leb, ◌==◌, if◌then◌else◌, arith, Bool-cases, Option-cases, inl, inr, All, All-imp,
  All-update_where, All-append_one, All-find_by, exists_by, exists_by-In, In-append_one, eq_self,
  is_some, leb→le,
}
use ig_anonymous_monitor.Cooldown.{SourceName, same_source, same_bool, same_time}
use ig_anonymous_monitor.Observations.{
  Incident, same_alarm, insert_alarm, is_row_of, is_failure, is_success, is_conservative_success,
  alarm_of, fail_incident, resolve_incident, incident_after, updated_row, new_row, row_of, ensured,
  observe_row, observe, or_now,
}
use ig_anonymous_monitor.Observations.States.{
  Category, Collected, Alarm, Observation, ObservationTables, same_category, is_known_category,
  is_known_state,
}

-- An incident has a beginning while it lasts; it is notified after three failures, and then its
-- alarm has been given.
pub record IsSound (count : ℕ) (since : Option ℕ) (notified : Bool) (alarm : Alarm)
    (alarms : List Alarm) : Type 0 where
  pub begun : is_some since ≡ not (count == 0)
  pub late : notified ≡ true → 3 ≤ count
  pub told : notified ≡ true → was_given alarm alarms ≡ true

abbrev pub IsRowSound : List Alarm → Collected → Type 0
IsRowSound alarms row =
    IsSound row.fail_count row.failure_since row.failure_notified
      (alarm_of false row row.failure_since) alarms

abbrev pub IsIncidentSound : Collected → Incident → Type 0
IsIncidentSound row i = IsSound i.count i.since i.notified (alarm_of false row i.since) i.alarms

and-false : (b : Bool) → b && false ≡ false
and-false true = refl
and-false false = refl

and-true : (b : Bool) → b && true ≡ b
and-true true = refl
and-true false = refl

-- A first alarm, if it is time for one.
first_alarm-IsSound :
    (count since : ℕ) (alarm : Alarm) (alarms : List Alarm) (alarming : Bool)
    → leb 3 (count + 1) ≡ alarming
    → IsSound
        (count + 1)
        (some since)
        alarming
        alarm
        (if alarming then insert_alarm alarm alarms else alarms)
first_alarm-IsSound count since alarm alarms true e = record {
  begun = ground arith;
  late = λ h. leb→le 3 (count + 1) e;
  told = λ h. insert_alarm-gives alarm alarms;
}
first_alarm-IsSound count since alarm alarms false e = record {
  begun = ground arith;
  late = λ h. absurd (cc);
  told = λ h. absurd (cc);
}

next_failure-IsSound :
    (count : ℕ) (since : Option ℕ) (notified : Bool) (now : ℕ) (alarm : Option ℕ → Alarm)
    (alarms : List Alarm)
    → IsSound count since notified (alarm since) alarms
    → let since' = some (or_now since now) in
      let alarming = leb 3 (count + 1) && not notified in
      IsSound
        (count + 1)
        since'
        (notified || alarming)
        (alarm since')
        (if alarming then insert_alarm (alarm since') alarms else alarms)
next_failure-IsSound count none true now alarm alarms sound =
    absurd (let b = sound.begun in let l = sound.late refl in ground (arith))
next_failure-IsSound count (some s) true now alarm alarms sound =
    rw (and-false (leb 3 (count + 1))) (record {
      begun = ground arith;
      late = λ h. (let l = sound.late refl in omega (arith, l));
      told = λ h. sound.told refl;
    })
next_failure-IsSound count none false now alarm alarms sound =
    rw (and-true (leb 3 (count + 1)))
      (first_alarm-IsSound count now (alarm (some now)) alarms (leb 3 (count + 1)) refl)
next_failure-IsSound count (some s) false now alarm alarms sound =
    rw (and-true (leb 3 (count + 1)))
      (first_alarm-IsSound count s (alarm (some s)) alarms (leb 3 (count + 1)) refl)

fail_incident-IsIncidentSound :
    (now : ℕ) (row : Collected) (alarms : List Alarm)
    → IsRowSound alarms row
    → IsIncidentSound row (fail_incident now row alarms)
fail_incident-IsIncidentSound now row alarms sound =
    next_failure-IsSound row.fail_count row.failure_since row.failure_notified now
      (alarm_of false row) alarms sound

resolve_incident-IsIncidentSound :
    (row : Collected) (alarms : List Alarm) → IsIncidentSound row (resolve_incident row alarms)
resolve_incident-IsIncidentSound row alarms = record {
  begun = refl;
  late = λ h. absurd (cc);
  told = λ h. absurd (cc);
}

incident_after-IsIncidentSound :
    (now : ℕ) (source : SourceName) (o : Observation) (row : Collected) (alarms : List Alarm)
    → IsRowSound alarms row
    → IsIncidentSound row (incident_after now source o row alarms)
unfolding incident_after
incident_after-IsIncidentSound now source o row alarms sound = elim (Bool-cases (is_failure o)) [
  | inl bad ↦ rw (bad, incident_after) (fail_incident-IsIncidentSound now row alarms sound)
  | inr fine ↦ elim (Bool-cases (is_success source o || is_conservative_success source o)) [
    | inl good ↦ rw (fine, good, incident_after) (resolve_incident-IsIncidentSound row alarms)
    | inr other ↦ rw (fine, other, incident_after) sound
  ]
]

either_alarm-keeps :
    (b : Bool) (alarm new : Alarm) (alarms : List Alarm)
    → was_given alarm alarms ≡ true
    → was_given alarm (if b then insert_alarm new alarms else alarms) ≡ true
either_alarm-keeps true alarm new alarms h = insert_alarm-keeps alarm new alarms h
either_alarm-keeps false alarm new alarms h = h

-- No alarm is taken back.
incident_after-keeps :
    (now : ℕ) (source : SourceName) (o : Observation) (row : Collected) (alarms : List Alarm)
    (alarm : Alarm)
    → was_given alarm alarms ≡ true
    → was_given alarm (incident_after now source o row alarms).alarms ≡ true
unfolding incident_after
incident_after-keeps now source o row alarms alarm h = elim (Bool-cases (is_failure o)) [
  | inl bad ↦
      rw (bad, incident_after)
        (either_alarm-keeps (leb 3 (row.fail_count + 1) && not row.failure_notified) alarm
          (alarm_of false row (some (or_now row.failure_since now))) alarms h)
  | inr fine ↦ elim (Bool-cases (is_success source o || is_conservative_success source o)) [
    | inl good ↦
        rw (fine, good, incident_after)
          (either_alarm-keeps row.failure_notified alarm (alarm_of true row row.failure_since)
            alarms h)
    | inr other ↦ rw (fine, other, incident_after) h
  ]
]

-- The rows of the tables are sound.
abbrev pub HasSoundIncidents : ObservationTables → Type 0
HasSoundIncidents db = All (IsRowSound db.alarms) db.states

new_row-IsRowSound :
    (account_id : ℕ) (source : SourceName) (category : Category) (alarms : List Alarm)
    → IsRowSound alarms (new_row account_id source category)
new_row-IsRowSound account_id source category alarms = record {
  begun = refl;
  late = λ h. absurd (cc);
  told = λ h. absurd (cc);
}

IsRowSound-more :
    (row : Collected) (alarms more : List Alarm)
    → ((alarm : Alarm) → was_given alarm alarms ≡ true → was_given alarm more ≡ true)
    → IsRowSound alarms row
    → IsRowSound more row
IsRowSound-more row alarms more keeps sound = record {
  begun = sound.begun;
  late = sound.late;
  told = λ h. keeps (alarm_of false row row.failure_since) (sound.told h);
}

observe_row-HasSoundIncidents :
    (now account_id : ℕ) (source : SourceName) (progress : Bool) (o : Observation) (row : Collected)
    (states : List Collected) (alarms : List Alarm)
    → All (IsRowSound alarms) states
    → IsRowSound alarms row
    → HasSoundIncidents (observe_row now account_id source progress o (row, states) alarms)
observe_row-HasSoundIncidents now account_id source progress o row states alarms h own =
    let i = incident_after now source o row alarms in
    let kept =
      All-imp (IsRowSound alarms) (IsRowSound i.alarms) states
        (λ r sound.
          IsRowSound-more r alarms i.alarms
            (λ alarm given. incident_after-keeps now source o row alarms alarm given) sound)
        h in
    All-update_where (IsRowSound i.alarms) (is_row_of account_id source o.category)
      (λ r. updated_row now source progress o i row) states
      (λ r hit sound. incident_after-IsIncidentSound now source o row alarms own) kept

ensured-HasSoundIncidents :
    (now account_id : ℕ) (source : SourceName) (progress : Bool) (o : Observation)
    (db : ObservationTables)
    → HasSoundIncidents db
    → HasSoundIncidents (
        observe_row now account_id source progress o
          (ensured account_id source o.category db.states
            (row_of account_id source o.category db.states))
          db.alarms)
unfolding row_of
ensured-HasSoundIncidents now account_id source progress o db h =
    elim (Option-cases (row_of account_id source o.category db.states)) [
      | inl absent ↦
          let own = new_row-IsRowSound account_id source o.category db.alarms in
          rw (absent, row_of)
            (observe_row-HasSoundIncidents now account_id source progress o
              (new_row account_id source o.category)
              (db.states ++ new_row account_id source o.category ∷ []) db.alarms
              (All-append_one (IsRowSound db.alarms) db.states
                (new_row account_id source o.category) h own)
              own)
      | inr (row, found) ↦
          rw (found, row_of)
            (observe_row-HasSoundIncidents now account_id source progress o row db.states db.alarms
              h
              (All-find_by (IsRowSound db.alarms) (is_row_of account_id source o.category) db.states
                h found))
    ]

-- What holds of the value, if there is one.
abbrev pub IfSome : (ObservationTables → Type 0) → Option ObservationTables → Type 0
IfSome P none = Unit
IfSome P (some db) = P db

pub observe-HasSoundIncidents :
    (now account_id : ℕ) (source : SourceName) (progress : Bool) (o : Observation)
    (db : ObservationTables)
    → HasSoundIncidents db
    → IfSome HasSoundIncidents (observe now account_id source progress o db)
unfolding observe
observe-HasSoundIncidents now account_id source progress o db h =
    elim (Bool-cases (is_known_category o.category)) [
      | inr strange ↦ rw (strange, observe) tt
      | inl known ↦ elim (Bool-cases o.attempted) [
        | inr skipped ↦ rw (known, skipped, observe) h
        | inl tried ↦ elim (Bool-cases (is_known_state o.state)) [
          | inr strange ↦ rw (known, tried, strange, observe) tt
          | inl state ↦
              rw (known, tried, state, observe)
                (ensured-HasSoundIncidents now account_id source progress o db h)
        ]
      ]
    ]
