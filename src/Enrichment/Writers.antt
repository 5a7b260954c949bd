-- ===== src/Enrichment/Writers.antt =====
-- The writers of the enrichment queue, and the open jobs of a member.
use ig_anonymous_monitor.Base.{
  ℕ, ◌+◌, ◌≤◌, ◌≡◌, sym, subst, inl, inr, Bool, true, ◌&&◌, Option, none, some, List, [], ◌∷◌,
  arith, ◌==◌, Bool-cases, Option-cases, select, find_by, count_by, exists_by, All, In, All-imp,
  All-every_In, In-select, select-holds, the_only_row, eq_self, count_by-update_rows_le,
  count_by-update_where_le,
}
use ig_anonymous_monitor.Store.{
  Text, Database, Direction, ProfileSnapshot, EnrichmentReason, EnrichmentJob, is_given,
  is_open_enrichment, EnrichmentStatus,
}
use ig_anonymous_monitor.Jobs.{has_id}
use ig_anonymous_monitor.Snapshot.{
  MemberIdentity, is_member, is_open_enrichment_of, stage_one, stage_from, upsert_member,
  lacks_avatar, was_renamed,
}
use ig_anonymous_monitor.Snapshot.Apply.{
  enrich_joined, observe, write_run, apply_complete_relationship_run,
}
use ig_anonymous_monitor.Enrichment.{
  Ending, is_ready, is_expired, give_back, lease, precedes, first_in_order, start_attempt,
  give_back_expired, claim_ready, claim_member_enrichment_job, enqueue_member_enrichment,
  finish_member_enrichment_job, retry_member_enrichment_job,
}
use ig_anonymous_monitor.Enrichment.Profile.{apply_member_profile}
use ig_anonymous_monitor.Enrichment.Open.{
  HasOneOpenMember, update_where-HasOneOpenMember, new_enrichment-HasOneOpenMember,
  insert_enrichment-HasOneOpenMember, enrich_joined-HasOneOpenMember,
}

-- The primary key of the table.
abbrev pub HasKeys : List EnrichmentJob → Type 0
HasKeys jobs = (id : ℕ) → count_by (λ j. j.id == id) jobs ≤ 1

first_in_order-All :
    (P : EnrichmentJob → Type 0) (js : List EnrichmentJob) (row : EnrichmentJob)
    → All P js
    → first_in_order js ≡ some row
    → P row
unfolding first_in_order
first_in_order-All P [] row h e = absurd (cc)
first_in_order-All P (j ∷ js) row h e = elim (Option-cases (first_in_order js)) [
  | inl nothing ↦ subst P (ground arith) h.0
  | inr (k, found) ↦ elim (Bool-cases (precedes k j)) [
    | inl before ↦ subst P (ground arith) (first_in_order-All P js k h.1 found)
    | inr after ↦ subst P (ground arith) h.0
  ]
]

was_open :
    (now q : ℕ) (row j : EnrichmentJob)
    → is_ready now row ≡ true
    → j ≡ row
    → is_open_enrichment_of q (lease now j) ≡ true
    → is_open_enrichment_of q j ≡ true
was_open now q row j ready e o =
    let own = subst (λ z. is_open_enrichment_of q (lease now z) ≡ true) e o in
    subst (λ z. is_open_enrichment_of q z ≡ true) (sym e) (ground arith)

start_attempt-HasOneOpenMember :
    (now : ℕ) (row : EnrichmentJob) (db : Database)
    → HasKeys db.enrichment_jobs
    → In row db.enrichment_jobs
    → is_ready now row ≡ true
    → HasOneOpenMember db.enrichment_jobs
    → HasOneOpenMember (start_attempt now row db).enrichment_jobs
unfolding start_attempt
start_attempt-HasOneOpenMember now row db keys member ready h q =
    let p = λ (j : EnrichmentJob). j.id == row.id in
    let only = the_only_row p db.enrichment_jobs member (eq_self row.id) (keys row.id) in
    let kept =
      count_by-update_rows_le (is_open_enrichment_of q) p (lease now) db.enrichment_jobs (
        All-imp _ _ db.enrichment_jobs (λ j same k o. was_open now q row j ready (same k) o)
          only) in
    omega (arith, h q, kept)

pub claim-HasOneOpenMember :
    (now : ℕ) (db : Database)
    → HasKeys db.enrichment_jobs
    → HasOneOpenMember db.enrichment_jobs
    → HasOneOpenMember (claim_member_enrichment_job now db).1.enrichment_jobs
unfolding claim_member_enrichment_job claim_ready give_back_expired
claim-HasOneOpenMember now db keys h =
    let waiting = give_back_expired now db in
    let jobs = waiting.enrichment_jobs in
    let kept =
      update_where-HasOneOpenMember (is_expired now) (give_back now) db.enrichment_jobs
        (λ j q e o. ground arith) h in
    let keys' : HasKeys jobs = λ id. omega (
      arith,
      keys id,
      count_by-update_where_le (λ j. j.id == id) (is_expired now) (give_back now) db.enrichment_jobs
          (λ j e o. o),
    ) in
    elim (Option-cases (first_in_order (select (is_ready now) jobs))) [
      | inl nothing ↦ rw (nothing, claim_ready) kept
      | inr (row, found) ↦
          let member =
            first_in_order-All (λ j. In j jobs) (select (is_ready now) jobs) row
              (All-every_In _ (select (is_ready now) jobs)
                (λ j m. In-select (is_ready now) jobs j m))
              found in
          let ready =
            first_in_order-All (λ j. is_ready now j ≡ true) (select (is_ready now) jobs) row
              (select-holds (is_ready now) jobs) found in
          rw (found, claim_ready)
            (start_attempt-HasOneOpenMember now row waiting keys' member ready kept)
    ]

pub enqueue-HasOneOpenMember :
    (clock q : ℕ) (reason : EnrichmentReason) (at : ℕ) (db : Database)
    → HasOneOpenMember db.enrichment_jobs
    → HasOneOpenMember (enqueue_member_enrichment clock q reason at db).1.enrichment_jobs
unfolding enqueue_member_enrichment
enqueue-HasOneOpenMember clock q reason at db h =
    let there = exists_by (is_open_enrichment_of q) db.enrichment_jobs in
    elim (Bool-cases there) [
      | inl e ↦ rw e h
      | inr e ↦ elim (Bool-cases (exists_by (is_member q) db.members)) [
        | inl f ↦
            rw (e, f) (new_enrichment-HasOneOpenMember _ q reason at clock db.enrichment_jobs e h)
        | inr f ↦ rw (e, f) h
      ]
    ]

pub finish-HasOneOpenMember :
    (clock job_id : ℕ) (ending : Ending) (error : Option Text) (db : Database)
    → HasOneOpenMember db.enrichment_jobs
    → HasOneOpenMember (finish_member_enrichment_job clock job_id ending error db).enrichment_jobs
unfolding finish_member_enrichment_job
finish-HasOneOpenMember clock job_id Ending.completes error db h =
    update_where-HasOneOpenMember (λ j. j.id == job_id) _ db.enrichment_jobs
      (λ j q e o. ground arith) h
finish-HasOneOpenMember clock job_id Ending.cancels error db h =
    update_where-HasOneOpenMember (λ j. j.id == job_id) _ db.enrichment_jobs
      (λ j q e o. ground arith) h

-- All jobs of the id are open, as the one that the worker has claimed is.
abbrev pub IsClaimed : ℕ → List EnrichmentJob → Type 0
IsClaimed job_id jobs =
    All (λ (j : EnrichmentJob). (j.id == job_id) ≡ true → is_open_enrichment j.status ≡ true) jobs

pub retry-HasOneOpenMember :
    (clock job_id at : ℕ) (error : Text) (db : Database)
    → IsClaimed job_id db.enrichment_jobs
    → HasOneOpenMember db.enrichment_jobs
    → HasOneOpenMember (retry_member_enrichment_job clock job_id at error db).enrichment_jobs
unfolding retry_member_enrichment_job
retry-HasOneOpenMember clock job_id at error db open_jobs h q =
    let kept =
      count_by-update_rows_le (is_open_enrichment_of q) (λ j. j.id == job_id)
        (λ j. record j {
          status = EnrichmentStatus.pending;
          available_at = at;
          lease_until = none;
          last_error = some error;
          updated_at = clock;
        })
        db.enrichment_jobs
        (All-imp _ _ db.enrichment_jobs (λ j is_open k o. ground (arith, is_open k)) open_jobs) in
    omega (arith, h q, kept)

pub profile-HasOneOpenMember :
    (same_casefold : Text → Text → Bool) (job : EnrichmentJob) (s : ProfileSnapshot) (at : ℕ)
    (db : Database)
    → HasOneOpenMember db.enrichment_jobs
    → HasOneOpenMember (apply_member_profile same_casefold job s at db).enrichment_jobs
unfolding apply_member_profile
profile-HasOneOpenMember same_casefold job s at db h =
    update_where-HasOneOpenMember (λ j. j.id == job.id) _ db.enrichment_jobs
      (λ j q e o. ground arith) h

stage_one-HasOneOpenMember :
    (same_casefold : Text → Text → Bool) (now run_id position : ℕ) (m : MemberIdentity)
    (db : Database)
    → HasOneOpenMember db.enrichment_jobs
    → HasOneOpenMember (stage_one same_casefold now run_id position m db).enrichment_jobs
unfolding stage_one
stage_one-HasOneOpenMember same_casefold now run_id position m db h =
    let refreshed =
      insert_enrichment-HasOneOpenMember m.profile_id EnrichmentReason.avatar_refresh now now
        db.enrichment_jobs h in
    let renames =
      insert_enrichment-HasOneOpenMember m.profile_id EnrichmentReason.renamed now now in
    elim (Bool-cases (was_renamed same_casefold m db.members)) [
      | inl r ↦
          elim (Bool-cases
            (is_given m.avatar_url && lacks_avatar m.profile_id (upsert_member now m db.members))) [
              | inl a ↦ rw (r, a) (renames _ refreshed)
              | inr a ↦ rw (r, a) (renames _ h)
            ]
      | inr r ↦
          elim (Bool-cases
            (is_given m.avatar_url && lacks_avatar m.profile_id (upsert_member now m db.members))) [
              | inl a ↦ rw (r, a) refreshed
              | inr a ↦ rw (r, a) h
            ]
    ]

pub stage_from-HasOneOpenMember :
    (same_casefold : Text → Text → Bool) (now run_id position : ℕ) (ms : List MemberIdentity)
    (db : Database)
    → HasOneOpenMember db.enrichment_jobs
    → HasOneOpenMember (stage_from same_casefold now run_id position ms db).enrichment_jobs
unfolding stage_from
stage_from-HasOneOpenMember same_casefold now run_id position [] db h = h
stage_from-HasOneOpenMember same_casefold now run_id position (m ∷ ms) db h =
    stage_from-HasOneOpenMember same_casefold now run_id (position + 1) ms _
      (stage_one-HasOneOpenMember same_casefold now run_id position m db h)

pub apply_complete-HasOneOpenMember :
    (run_id a : ℕ) (d : Direction) (at stale_days : ℕ) (db db' : Database)
    → apply_complete_relationship_run run_id a d at stale_days db ≡ some db'
    → HasOneOpenMember db.enrichment_jobs
    → HasOneOpenMember db'.enrichment_jobs
unfolding apply_complete_relationship_run write_run
apply_complete-HasOneOpenMember run_id a d at stale_days db db' e h =
    elim (Option-cases (find_by (has_id a) db.accounts)) [
      | inl missing ↦ absurd (ground (arith))
      | inr (account, found) ↦
          let o = observe run_id account d db in
          elim (Option-cases (enrich_joined at stale_days db.members o.joined db.enrichment_jobs)) [
            | inl failed ↦ absurd (ground (arith))
            | inr (jobs, enriched) ↦
                let written : write_run run_id d at o jobs db ≡ db' = ground arith in
                subst (λ z. HasOneOpenMember z.enrichment_jobs) written
                  (enrich_joined-HasOneOpenMember at stale_days db.members o.joined
                    db.enrichment_jobs jobs enriched h)
          ]
    ]
