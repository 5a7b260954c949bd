-- ===== src/Enrichment/Open.antt =====
-- What the operations on the queue of enrichment jobs do to its unique index.
use ig_anonymous_monitor.Base.{
  ℕ, ◌≤◌, ◌≡◌, subst, inl, inr, Bool, true, false, some, List, [], ◌∷◌, ◌++◌, arith, ◌==◌, ==→eq,
  Bool-cases, Option-cases, find_by, count_by, exists_by, update_where, count_by-update_where_le,
  count_by-append_one, exists_by-false, count_by-eq_zero,
}
use ig_anonymous_monitor.Store.{EnrichmentReason, EnrichmentJob, Member, Membership}
use ig_anonymous_monitor.Snapshot.{
  is_member, new_enrichment, is_open_enrichment_of, insert_enrichment,
}
use ig_anonymous_monitor.Enrichment.Startup.{needs_avatar, backfill_each}
use ig_anonymous_monitor.Snapshot.Apply.{is_stale, enrich_joined}

-- The unique index `idx_member_enrichment_jobs_one_open`.
abbrev pub HasOneOpenMember : List EnrichmentJob → Type 0
HasOneOpenMember jobs = (profile_id : ℕ) → count_by (is_open_enrichment_of profile_id) jobs ≤ 1

-- An update that opens no job keeps the index.
pub update_where-HasOneOpenMember :
    (p : EnrichmentJob → Bool) (f : EnrichmentJob → EnrichmentJob) (jobs : List EnrichmentJob)
    → ((j : EnrichmentJob) (q : ℕ)
        → p j ≡ true
        → is_open_enrichment_of q (f j) ≡ true
        → is_open_enrichment_of q j ≡ true)
    → HasOneOpenMember jobs
    → HasOneOpenMember (update_where p f jobs)
update_where-HasOneOpenMember p f jobs opens h q =
    omega (arith, h q, count_by-update_where_le (is_open_enrichment_of q) p f jobs (λ j. opens j q))

-- A new job of a member who has no open one keeps it.
pub new_enrichment-HasOneOpenMember :
    (id q : ℕ) (reason : EnrichmentReason) (at now : ℕ) (jobs : List EnrichmentJob)
    → exists_by (is_open_enrichment_of q) jobs ≡ false
    → HasOneOpenMember jobs
    → HasOneOpenMember (jobs ++ new_enrichment id q reason at now ∷ [])
new_enrichment-HasOneOpenMember id q reason at now jobs absent h r =
    let new = new_enrichment id q reason at now in
    rw (count_by-append_one (is_open_enrichment_of r) jobs new) (elim (Bool-cases (q == r)) [
      | inl e ↦
          let none_open =
            count_by-eq_zero (is_open_enrichment_of q) jobs
              (exists_by-false (is_open_enrichment_of q) jobs absent) in
          let own =
            subst (λ z. count_by (is_open_enrichment_of z) jobs ≡ 0) (==→eq q r e) none_open in
          rw (own, e) (omega arith)
      | inr e ↦ rw e (omega (arith, h r))
    ])

pub insert_enrichment-HasOneOpenMember :
    (q : ℕ) (reason : EnrichmentReason) (at now : ℕ) (jobs : List EnrichmentJob)
    → HasOneOpenMember jobs
    → HasOneOpenMember (insert_enrichment q reason at now jobs)
unfolding insert_enrichment
insert_enrichment-HasOneOpenMember q reason at now jobs h =
    elim (Bool-cases (exists_by (is_open_enrichment_of q) jobs)) [
      | inl e ↦ rw e h
      | inr e ↦ rw e (new_enrichment-HasOneOpenMember _ q reason at now jobs e h)
    ]

pub backfill_each-HasOneOpenMember :
    (now : ℕ) (memberships : List Membership) (members : List Member) (jobs : List EnrichmentJob)
    → HasOneOpenMember jobs
    → HasOneOpenMember (backfill_each now memberships members jobs)
unfolding backfill_each
backfill_each-HasOneOpenMember now memberships [] jobs h = h
backfill_each-HasOneOpenMember now memberships (m ∷ members) jobs h =
    elim (Bool-cases (needs_avatar memberships m)) [
      | inl e ↦ rw e (
          backfill_each-HasOneOpenMember now memberships members _ (
            insert_enrichment-HasOneOpenMember m.instagram_profile_id
              EnrichmentReason.avatar_cache_backfill now now jobs h))
      | inr e ↦ rw e (backfill_each-HasOneOpenMember now memberships members jobs h)
    ]

pub enrich_joined-HasOneOpenMember :
    (at stale_days : ℕ) (members : List Member) (joined : List ℕ) (jobs jobs' : List EnrichmentJob)
    → enrich_joined at stale_days members joined jobs ≡ some jobs'
    → HasOneOpenMember jobs
    → HasOneOpenMember jobs'
unfolding enrich_joined
enrich_joined-HasOneOpenMember at stale_days members [] jobs jobs' e h =
    subst HasOneOpenMember (ground arith) h
enrich_joined-HasOneOpenMember at stale_days members (q ∷ joined) jobs jobs' e h =
    elim (Option-cases (find_by (is_member q) members)) [
      | inl missing ↦ absurd (ground (arith))
      | inr (m, found) ↦ elim (Bool-cases (is_stale at stale_days m.profile_observed_at)) [
        | inl stale ↦
            enrich_joined-HasOneOpenMember at stale_days members joined
              (insert_enrichment q EnrichmentReason.new_member at at jobs) jobs' (ground arith)
              (insert_enrichment-HasOneOpenMember q EnrichmentReason.new_member at at jobs h)
        | inr fresh ↦
            enrich_joined-HasOneOpenMember at stale_days members joined jobs jobs' (ground arith) h
      ]
    ]
