-- ===== src/Observations/Incidents/Alarms.antt =====
-- The alarms of collections.
use ig_anonymous_monitor.Base.{
  ℕ, ◌≡◌, refl, Bool, true, false, Option, none, some, List, [], ◌∷◌, ◌++◌, arith, Bool-cases, inl,
  inr, exists_by, exists_by-In, In-append_one, eq_self,
}
use ig_anonymous_monitor.Cooldown.{SourceName, same_source, same_bool, same_time}
use ig_anonymous_monitor.Observations.{same_alarm, insert_alarm}
use ig_anonymous_monitor.Observations.States.{Category, Alarm, same_category}

pub same_source_self : (s : SourceName) → same_source s s ≡ true
same_source_self SourceName.igwatcher = refl
same_source_self SourceName.igwatcher_media = refl
same_source_self (SourceName.other_name n) = eq_self n

pub same_category_self : (c : Category) → same_category c c ≡ true
same_category_self Category.posts = refl
same_category_self Category.stories = refl
same_category_self Category.highlights = refl
same_category_self Category.reels = refl
same_category_self (Category.other_category n) = eq_self n

pub same_time_self : (t : Option ℕ) → same_time t t ≡ true
same_time_self none = refl
same_time_self (some n) = eq_self n

pub same_bool_self : (b : Bool) → same_bool b b ≡ true
same_bool_self true = refl
same_bool_self false = refl

pub same_alarm_self : (a : Alarm) → same_alarm a a ≡ true
same_alarm_self a =
    rw
      (
        same_bool_self a.recovered,
        same_source_self a.source,
        eq_self a.account_id,
        same_category_self a.category,
      )
      (same_time_self a.since)

-- The alarm has been given.
unfoldable pub was_given : Alarm → List Alarm → Bool
was_given alarm = exists_by (λ a. same_alarm a alarm)

pub append-was_given :
    (alarm new : Alarm) (alarms : List Alarm)
    → was_given alarm alarms ≡ true
    → was_given alarm (alarms ++ new ∷ []) ≡ true
unfolding was_given exists_by
append-was_given alarm new [] h = absurd (cc)
append-was_given alarm new (a ∷ alarms) h = ground (arith, append-was_given alarm new alarms)

pub insert_alarm-keeps :
    (alarm new : Alarm) (alarms : List Alarm)
    → was_given alarm alarms ≡ true
    → was_given alarm (insert_alarm new alarms) ≡ true
insert_alarm-keeps alarm new alarms h =
    elim (Bool-cases (exists_by (λ a. same_alarm a new) alarms)) [
      | inl e ↦ rw e h
      | inr e ↦ rw e (append-was_given alarm new alarms h)
    ]

pub insert_alarm-gives :
    (alarm : Alarm) (alarms : List Alarm) → was_given alarm (insert_alarm alarm alarms) ≡ true
unfolding was_given
insert_alarm-gives alarm alarms = elim (Bool-cases (exists_by (λ a. same_alarm a alarm) alarms)) [
  | inl e ↦ rw (e, e) refl
  | inr e ↦ rw e (
      exists_by-In (λ a. same_alarm a alarm) (alarms ++ alarm ∷ []) (In-append_one alarms alarm)
        (same_alarm_self alarm))
]
