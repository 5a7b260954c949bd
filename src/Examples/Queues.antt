-- ===== src/Examples/Queues.antt =====
-- The trigger, the enrichment queue and the scheduler at work.
use ig_anonymous_monitor.Base.{
  inl, ℕ, refl, Bool, true, false, none, some, [], ◌∷◌, ◌≡◌, length, exists_by, find_by, max_of,
}
use ig_anonymous_monitor.Store.{Database, followers_direction, EnrichmentReason, ProfileSnapshot}
use ig_anonymous_monitor.Jobs.{get_account_by_id}
use ig_anonymous_monitor.Trigger.{is_needed, observe_profile}
use ig_anonymous_monitor.Trigger.Queued.{Queues, observe_profile-Queues}
use ig_anonymous_monitor.Enrichment.{enqueue_member_enrichment}
use ig_anonymous_monitor.Enrichment.Open.{HasOneOpenMember}
use ig_anonymous_monitor.Enrichment.Traces.{Reach-HasOneOpenMember, here, next, queues, opens}
use ig_anonymous_monitor.Enrichment.Startup.{backfill_member_avatar_jobs}
use ig_anonymous_monitor.Snapshot.{insert_enrichment}
use ig_anonymous_monitor.Examples.Lists.{member}
use ig_anonymous_monitor.Watchdogs.{is_stuck, enqueue_relationship_watchdogs}
use ig_anonymous_monitor.Watchdogs.Once.{is_reported, enqueue_relationship_watchdogs-reports}
use ig_anonymous_monitor.Scheduler.{Turn, run_split_scheduler}
use ig_anonymous_monitor.Scheduler.Spacing.{IsSpacedFrom, run_split_scheduler-IsSpacedFrom}
use ig_anonymous_monitor.Examples.{waiting, busy, empty, account, profile, settings}

account_found : get_account_by_id 1 busy ≡ some account
unfolding get_account_by_id ig_anonymous_monitor.Base.find_by
account_found = refl

-- The account has lost a follower since.
abbrev fewer : ProfileSnapshot
fewer = record profile { followers = 1 }

followers_needed : is_needed settings followers_direction account (some profile) fewer ≡ true
unfolding is_needed
followers_needed = refl

observe_profile-Queues_example :
    Queues followers_direction 1 (observe_profile settings 3000 1 (some profile) fewer 3000 busy)
observe_profile-Queues_example =
    observe_profile-Queues followers_direction settings 3000 1 account (some profile) fewer 3000
      busy refl account_found refl refl followers_needed

-- A follower whose avatar is not there.
abbrev one_follower : Database
one_follower = record empty {
  members = member ∷ [];
  memberships =
      record {
        account_id = 1;
        direction = followers_direction;
        instagram_profile_id = 50;
        username = 98 ∷ [];
        first_seen_at = 1;
        last_seen_at = 1;
        active = true;
        removed_at = none;
      }
      ∷ [];
}

Reach-HasOneOpenMember_example :
    HasOneOpenMember
      (enqueue_member_enrichment 9 50 EnrichmentReason.manual 9
        (backfill_member_avatar_jobs 5 one_follower)).1.enrichment_jobs
Reach-HasOneOpenMember_example =
    Reach-HasOneOpenMember {same_casefold = λ a b. true} {s = one_follower} refl (
      next (next here (opens 5 one_follower))
        (queues 9 50 EnrichmentReason.manual 9 (backfill_member_avatar_jobs 5 one_follower)))

-- The second call finds the job of the first.
one_job :
    length
      (enqueue_member_enrichment 9 50 EnrichmentReason.manual 9
        (backfill_member_avatar_jobs 5 one_follower)).1.enrichment_jobs
    ≡ 1
unfolding enqueue_member_enrichment backfill_member_avatar_jobs insert_enrichment exists_by find_by
    max_of
one_job = refl

abbrev turn : Turn
turn = record {
  stopped_before = false;
  download_asked_at = 100;
  download_ended_at = 130;
  stopped_between = false;
  inspection_asked_at = 130;
  inspection_ended_at = 400;
  stopped_after = false;
  wait_asked_at = 400;
}

run_split_scheduler-IsSpacedFrom_example :
    IsSpacedFrom 3600 60
      (record { inspection_due = 100; download_due = 100 })
      (run_split_scheduler 3600 60 100 (turn ∷ []))
run_split_scheduler-IsSpacedFrom_example = run_split_scheduler-IsSpacedFrom 3600 60 100 (turn ∷ [])

-- The job that waits since 1000 is stuck a day later.
enqueue_relationship_watchdogs-reports_example :
    (is_stuck 90000 busy.accounts waiting ≡ true
      → is_reported 4 (enqueue_relationship_watchdogs 90000 busy).events ≡ true)
    × (is_reported 4 busy.events ≡ true
        → is_reported 4 (enqueue_relationship_watchdogs 90000 busy).events ≡ true)
enqueue_relationship_watchdogs-reports_example =
    enqueue_relationship_watchdogs-reports 90000 busy waiting (inl refl)
