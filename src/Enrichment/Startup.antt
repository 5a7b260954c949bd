-- ===== src/Enrichment/Startup.antt =====
-- `_backfill_member_avatar_jobs` (ig_monitor/db.py): at every opening of the database, the members
-- of active lists whose avatar is not there are queued.
use ig_anonymous_monitor.Base.{
  ℕ, Bool, true, false, ◌&&◌, none, some, List, [], ◌∷◌, ◌==◌, if◌then◌else◌, exists_by,
}
use ig_anonymous_monitor.Store.{Database, EnrichmentJob, EnrichmentReason, Member, Membership}
use ig_anonymous_monitor.Snapshot.{insert_enrichment}

-- The JOIN and the WHERE clause.
unfoldable pub needs_avatar : List Membership → Member → Bool
needs_avatar memberships m =
    exists_by (λ r. (r.instagram_profile_id == m.instagram_profile_id) && r.active) memberships
    && elim m.avatar_path [ none ↦ true | some path ↦ false ]

unfoldable pub backfill_each :
    ℕ → List Membership → List Member → List EnrichmentJob → List EnrichmentJob
unfolding needs_avatar
backfill_each now memberships [] jobs = jobs
backfill_each now memberships (m ∷ members) jobs = backfill_each now memberships members (
    if needs_avatar memberships m
    then insert_enrichment m.instagram_profile_id EnrichmentReason.avatar_cache_backfill now now
        jobs
    else jobs)

unfoldable pub backfill_member_avatar_jobs : ℕ → Database → Database
unfolding backfill_each
backfill_member_avatar_jobs now db = record db {
  enrichment_jobs = backfill_each now db.memberships db.members db.enrichment_jobs;
}
