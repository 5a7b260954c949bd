-- ===== src/Examples/Sources.antt =====
-- Anonymous sources: enrichment of members, and failures of their collections.
use ig_anonymous_monitor.Base.{
  ℕ, ◌+◌, ◌*◌, ◌≤◌, ◌≡◌, refl, Bool, true, false, none, some, [], ◌∷◌, arith, count_by, is_some,
  ltb, select, find_by, update_where,
}
use ig_anonymous_monitor.Store.{Text, EnrichmentJob, EnrichmentStatus, EnrichmentReason, Member}
use ig_anonymous_monitor.Cooldown.{SourceName}
use ig_anonymous_monitor.MemberWorker.{MemberConfig, Fetched, World, run_once, handle}
use ig_anonymous_monitor.MemberWorker.Budget.{IsWithin, run_once-IsWithin}
use ig_anonymous_monitor.MemberWorker.Spacing.{has_asked, run_once-waits}
use ig_anonymous_monitor.Observations.{observe, collection_backoff, record_collection_observations}
use ig_anonymous_monitor.Observations.States.{
  Category, CollectionState, Observation, ObservationTables,
}
use ig_anonymous_monitor.Observations.Backoff.{observe-backs_off}
use ig_anonymous_monitor.Enrichment.{
  member_enrichment_count_for_taipei_day, claim_member_enrichment_job, claim_ready,
  give_back_expired, start_attempt, first_in_order, relationship_member,
  retry_member_enrichment_job,
}
use ig_anonymous_monitor.Examples.{empty}
use ig_anonymous_monitor.Examples.Lists.{member}

abbrev nothing_seen : ObservationTables
nothing_seen = record { states = []; alarms = [] }

abbrev failing : Observation
failing = record {
  category = Category.posts;
  attempted = true;
  state = CollectionState.failed;
  error = some (1 ∷ []);
  error_code = none;
  cursor = none;
  complete = false;
}

observe-backs_off_example :
    (after : ObservationTables) × (until : ℕ) × (observe 1000 1 SourceName.igwatcher true failing
        nothing_seen
      ≡ some after)
    × (1000 + 30 * 60 ≤ until)
    × (until ≤ 1000 + 240 * 60)
    × ((t : ℕ)
        → is_some (collection_backoff 1 SourceName.igwatcher Category.posts t after) ≡ ltb t until)
observe-backs_off_example = observe-backs_off 1000 1 true failing nothing_seen refl refl refl refl

-- Three failures, an hour apart.
abbrev fails_at : ℕ → ObservationTables → ObservationTables
fails_at now db = record_collection_observations now 1 SourceName.igwatcher true (failing ∷ []) db

abbrev queued : EnrichmentJob
queued = record {
  id = 1;
  instagram_profile_id = 50;
  reason = EnrichmentReason.manual;
  status = EnrichmentStatus.pending;
  attempts = 0;
  available_at = 900;
  lease_until = none;
  last_error = none;
  created_at = 900;
  updated_at = 900;
}

abbrev world : World
world = record {
  db = record empty { members = member ∷ []; enrichment_jobs = queued ∷ [] };
  sources = record { states = []; notices = [] };
}

abbrev five_a_day : MemberConfig
five_a_day = record { enabled = true; daily_member_enrichments = 5; member_retry_min_hours = 24 }

-- The source is blocked.
abbrev refuses : Member → Fetched
refuses m = Fetched.failed (record { name = 1 ∷ []; message = 2 ∷ []; is_blocked = true })

abbrev same_text : Text → Text → Bool
same_text a b = true

world-IsWithin : IsWithin 5 world
unfolding IsWithin member_enrichment_count_for_taipei_day count_by
world-IsWithin = λ t. omega arith

run_once-IsWithin_example :
    IsWithin 5 (run_once same_text five_a_day none refuses 1000 1000 90 world).1
run_once-IsWithin_example =
    run_once-IsWithin same_text five_a_day none refuses 1000 1000 90 world world-IsWithin

world-has_asked :
    has_asked (run_once same_text five_a_day none refuses 1000 1000 90 world).0.status ≡ true
unfolding run_once handle member_enrichment_count_for_taipei_day count_by
    claim_member_enrichment_job claim_ready give_back_expired start_attempt first_in_order select
    update_where relationship_member find_by retry_member_enrichment_job
world-has_asked = refl

run_once-waits_example :
    let after = (run_once same_text five_a_day none refuses 1000 1000 90 world).1 in
    (run_once same_text five_a_day none refuses 1050 1050 90 after).1 ≡ after
run_once-waits_example =
    run_once-waits same_text five_a_day five_a_day none none refuses refuses 1000 1000 90 1050 1050
      90 world world-has_asked refl
