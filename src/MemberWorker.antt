-- ===== src/MemberWorker.antt =====
-- `MemberEnrichmentWorker.run_once` (ig_monitor/member_enrichment.py). What the anonymous source
-- answers is a parameter, and so are the random delay and the case folding of user names.
pub mod Budget
pub mod Spacing
use ig_anonymous_monitor.Base.{
  ℕ, ◌+◌, ◌*◌, Bool, true, false, not, Option, none, some, ltb, leb, if◌then◌else◌, is_some,
}
use ig_anonymous_monitor.Store.{Text, Database, ProfileSnapshot, Member, EnrichmentJob}
use ig_anonymous_monitor.Reasons.{codes}
use ig_anonymous_monitor.Cooldown.{
  SourceName, SourceTables, source_cooldown as cooldown_of, record_source_block,
}
use ig_anonymous_monitor.Enrichment.{
  Ending, member_enrichment_count_for_taipei_day, claim_member_enrichment_job, relationship_member,
  finish_member_enrichment_job, retry_member_enrichment_job,
}
use ig_anonymous_monitor.Enrichment.Profile.{apply_member_profile}

pub record MemberConfig : Type 0 where
  pub enabled : Bool
  pub daily_member_enrichments : ℕ
  pub member_retry_min_hours : ℕ

-- An exception of `fetch_profile`: the name of its type, its text, and whether it is a
-- ScrapeFailure with a blocker.
pub record Failure : Type 0 where
  pub name : Text
  pub message : Text
  pub is_blocked : Bool

pub data Fetched : Type 0 where
  fetched : ProfileSnapshot → Fetched
  failed : Failure → Fetched

pub data MemberStatus : Type 0 where
  disabled source_cooldown daily_budget spacing idle cancelled completed incomplete : MemberStatus

pub record MemberOutcome : Type 0 where
  pub status : MemberStatus
  pub job_id : Option ℕ
  pub detail : Option Text

-- The tables of both stores.
pub record World : Type 0 where
  pub db : Database
  pub sources : SourceTables

-- `source_name and self.db.source_cooldown(source_name, now)`
abbrev pub is_cooling : Option SourceName → ℕ → SourceTables → Bool
is_cooling none now sources = false
is_cooling (some source) now sources = is_some (cooldown_of source now sources)

-- `next_at` is set and later than `now`.
abbrev pub is_spaced : ℕ → Option ℕ → Bool
is_spaced now none = false
is_spaced now (some next_at) = ltb now next_at

abbrev pub set_next_at : ℕ → ℕ → Database → Database
set_next_at now delay db = record db { member_enrichment_next_at = some (now + delay) }

abbrev pub block_source : Option SourceName → Failure → ℕ → SourceTables → SourceTables
block_source none failure now sources = sources
block_source (some source) failure now sources =
    if failure.is_blocked then record_source_block source failure.message now sources else sources

module _ (same_casefold : Text → Text → Bool) where
  unfoldable pub handle :
      MemberConfig
      → Option SourceName
      → ℕ
      → ℕ
      → ℕ
      → EnrichmentJob
      → Fetched
      → World
      → MemberOutcome × World
  unfolding apply_member_profile retry_member_enrichment_job record_source_block
  handle config source_name clock now delay job (Fetched.fetched snapshot) w = (
    record { status = MemberStatus.completed; job_id = some job.id; detail = none },
    record w {
      db = set_next_at now delay (apply_member_profile same_casefold job snapshot now w.db);
    },
  )
  handle config source_name clock now delay job (Fetched.failed failure) w = (
    record { status = MemberStatus.incomplete; job_id = some job.id; detail = some failure.name },
    record {
      db = set_next_at now delay (
          retry_member_enrichment_job clock job.id (now + config.member_retry_min_hours * 3600)
            failure.name w.db);
      sources = block_source source_name failure now w.sources;
    },
  )

  abbrev pub handle_member :
      MemberConfig
      → Option SourceName
      → (Member → Fetched)
      → ℕ
      → ℕ
      → ℕ
      → EnrichmentJob
      → Option Member
      → World
      → MemberOutcome × World
  handle_member config source_name source clock now delay job none w = (
    record { status = MemberStatus.cancelled; job_id = some job.id; detail = none },
    record w {
      db =
          finish_member_enrichment_job clock job.id Ending.cancels (some (codes "member missing"))
            w.db;
    },
  )
  handle_member config source_name source clock now delay job (some member) w =
      handle config source_name clock now delay job (source member) w

  abbrev pub stop : MemberStatus → World → MemberOutcome × World
  stop status w = (record { status = status; job_id = none; detail = none }, w)

  abbrev pub handle_claim :
      MemberConfig
      → Option SourceName
      → (Member → Fetched)
      → ℕ
      → ℕ
      → ℕ
      → World
      → Option EnrichmentJob × Database
      → MemberOutcome × World
  handle_claim config source_name source clock now delay w (none, db) =
      stop MemberStatus.idle (record w { db = db })
  handle_claim config source_name source clock now delay w (some job, db) =
      handle_member config source_name source clock now delay job
        (relationship_member job.instagram_profile_id db) (record w { db = db })

  -- `clock` is the time of the store's own `utc_now`.
  unfoldable pub run_once :
      MemberConfig
      → Option SourceName
      → (Member → Fetched)
      → ℕ
      → ℕ
      → ℕ
      → World
      → MemberOutcome × World
  unfolding handle claim_member_enrichment_job relationship_member finish_member_enrichment_job
  run_once config source_name source clock now delay w =
      if not config.enabled
      then stop MemberStatus.disabled w
      else if is_cooling source_name now w.sources
      then stop MemberStatus.source_cooldown w
      else if leb config.daily_member_enrichments (member_enrichment_count_for_taipei_day now w.db)
      then stop MemberStatus.daily_budget w
      else if is_spaced now w.db.member_enrichment_next_at
      then stop MemberStatus.spacing w
      else handle_claim config source_name source clock now delay w
          (claim_member_enrichment_job now w.db)
