-- ===== src/MemberWorker/Budget.antt =====
-- The daily budget of member enrichment.
use ig_anonymous_monitor.Base.{
  ℕ, ◌+◌, ◌≤◌, ◌≡◌, refl, Bool, false, Option, none, some, List, [], ◌∷◌, ◌==◌, leb, leb→lt, ==→eq,
  if◌then◌else◌, arith, Bool-cases, Option-cases, inl, inr, count_by, count_by-update_where_eq,
  count_by-append_one, find_by, select, max_of, ap, next_id,
}
use ig_anonymous_monitor.Store.{Text, Database, Attempt, EnrichmentJob, Member}
use ig_anonymous_monitor.Work.{taipei_day}
use ig_anonymous_monitor.Cooldown.{SourceName}
use ig_anonymous_monitor.Enrichment.{
  close_last, close_attempt, close_attempt_of, start_attempt, claim_ready, give_back_expired,
  first_in_order, is_ready, new_attempt, claim_member_enrichment_job, finish_member_enrichment_job,
  retry_member_enrichment_job, member_enrichment_count_for_taipei_day, relationship_member,
}
use ig_anonymous_monitor.Enrichment.Profile.{apply_member_profile}
use ig_anonymous_monitor.MemberWorker.{
  MemberConfig, Fetched, World, is_cooling, is_spaced, handle, handle_member, handle_claim,
  run_once,
}

-- The attempts of the day of `t`.
abbrev on_day : ℕ → Attempt → Bool
on_day t a = taipei_day a.attempted_at == taipei_day t

close_last-count :
    (t : ℕ) (own : List Attempt) (ending : Attempt → Attempt) (attempts : List Attempt)
    → ((a : Attempt) → (ending a).attempted_at ≡ a.attempted_at)
    → count_by (on_day t) (close_last own ending attempts) ≡ count_by (on_day t) attempts
unfolding close_last
close_last-count t [] ending attempts same = refl
close_last-count t (a ∷ own) ending attempts same =
    count_by-update_where_eq (on_day t) (λ b. b.id == max_of (λ (c : Attempt). c.id) (a ∷ own))
      ending attempts (λ b h. ap (λ z. taipei_day z == taipei_day t) (same b))

close_attempt-count :
    (t profile_id : ℕ) (ending : Attempt → Attempt) (attempts : List Attempt)
    → ((a : Attempt) → (ending a).attempted_at ≡ a.attempted_at)
    → count_by (on_day t) (close_attempt profile_id ending attempts) ≡ count_by (on_day t) attempts
unfolding close_attempt
close_attempt-count t profile_id ending attempts same =
    close_last-count t (select (λ (a : Attempt). a.instagram_profile_id == profile_id) attempts)
      ending attempts same

close_attempt_of-count :
    (t job_id : ℕ) (ending : Attempt → Attempt) (db : Database)
    → ((a : Attempt) → (ending a).attempted_at ≡ a.attempted_at)
    → count_by (on_day t) (close_attempt_of job_id ending db) ≡ count_by (on_day t) db.attempts
unfolding close_attempt_of
close_attempt_of-count t job_id ending db same =
    elim (Option-cases (find_by (λ j. j.id == job_id) db.enrichment_jobs)) [
      | inl missing ↦ rw (missing, close_attempt_of) refl
      | inr (job, found) ↦
          rw (found, close_attempt_of)
            (close_attempt-count t job.instagram_profile_id ending db.attempts same)
    ]

claim_ready-count :
    (t now : ℕ) (db : Database)
    → count_by (on_day t) (claim_ready now db).1.attempts
      ≤ count_by (on_day t) db.attempts + (if taipei_day now == taipei_day t then 1 else 0)
unfolding claim_ready start_attempt
claim_ready-count t now db =
    elim (Option-cases (first_in_order (select (is_ready now) db.enrichment_jobs))) [
      | inl nothing ↦ rw (nothing, claim_ready) (omega arith)
      | inr (row, found) ↦
          let attempt =
            new_attempt (next_id (λ (a : Attempt). a.id) db.attempts) row.instagram_profile_id
              now in
          rw (found, claim_ready)
            (omega (arith, count_by-append_one (on_day t) db.attempts attempt))
    ]

-- A claim starts at most one attempt, at the time of the claim.
claim-count :
    (t now : ℕ) (db : Database)
    → count_by (on_day t) (claim_member_enrichment_job now db).1.attempts
      ≤ count_by (on_day t) db.attempts + (if taipei_day now == taipei_day t then 1 else 0)
unfolding claim_member_enrichment_job give_back_expired
claim-count t now db = claim_ready-count t now (give_back_expired now db)

-- No day has more attempts than `limit`.
unfoldable pub IsWithin : ℕ → World → Type 0
IsWithin limit w = (t : ℕ) → member_enrichment_count_for_taipei_day t w.db ≤ limit

module _ (same_casefold : Text → Text → Bool) where
  handle-count :
      (t : ℕ) (config : MemberConfig) (name : Option SourceName) (clock now delay : ℕ)
      (job : EnrichmentJob) (answer : Fetched) (w : World)
      → count_by
          (on_day t)
          (handle same_casefold config name clock now delay job answer w).1.db.attempts
        ≡ count_by (on_day t) w.db.attempts
  unfolding handle apply_member_profile retry_member_enrichment_job
  handle-count t config name clock now delay job (Fetched.fetched snapshot) w =
      close_attempt-count t job.instagram_profile_id _ w.db.attempts (λ a. refl)
  handle-count t config name clock now delay job (Fetched.failed failure) w =
      close_attempt_of-count t job.id _ w.db (λ a. refl)

  handle_member-count :
      (t : ℕ) (config : MemberConfig) (name : Option SourceName) (source : Member → Fetched)
      (clock now delay : ℕ) (job : EnrichmentJob) (member : Option Member) (w : World)
      → count_by
          (on_day t)
          (handle_member same_casefold config name source clock now delay job member
            w).1.db.attempts
        ≡ count_by (on_day t) w.db.attempts
  unfolding finish_member_enrichment_job
  handle_member-count t config name source clock now delay job none w =
      close_attempt_of-count t job.id _ w.db (λ a. refl)
  handle_member-count t config name source clock now delay job (some member) w =
      handle-count t config name clock now delay job (source member) w

  handle_claim-count :
      (t : ℕ) (config : MemberConfig) (name : Option SourceName) (source : Member → Fetched)
      (clock now delay : ℕ) (w : World) (claim : Option EnrichmentJob × Database)
      → count_by
          (on_day t)
          (handle_claim same_casefold config name source clock now delay w claim).1.db.attempts
        ≡ count_by (on_day t) claim.1.attempts
  handle_claim-count t config name source clock now delay w (none, db) = refl
  handle_claim-count t config name source clock now delay w (some job, db) =
      handle_member-count t config name source clock now delay job
        (relationship_member job.instagram_profile_id db) (record w { db = db })

  claimed-IsWithin :
      (t : ℕ) (config : MemberConfig) (name : Option SourceName) (source : Member → Fetched)
      (clock now delay : ℕ) (w : World)
      → leb config.daily_member_enrichments (member_enrichment_count_for_taipei_day now w.db)
        ≡ false
      → member_enrichment_count_for_taipei_day t w.db ≤ config.daily_member_enrichments
      → member_enrichment_count_for_taipei_day t
          (handle_claim same_casefold config name source clock now delay w
            (claim_member_enrichment_job now w.db)).1.db
        ≤ config.daily_member_enrichments
  unfolding member_enrichment_count_for_taipei_day
  claimed-IsWithin t config name source clock now delay w free h =
      let done =
        handle_claim-count t config name source clock now delay w
          (claim_member_enrichment_job now w.db) in
      let one = claim-count t now w.db in
      elim (Bool-cases (taipei_day now == taipei_day t)) [
        | inl same ↦
            let below =
              leb→lt config.daily_member_enrichments (count_by (on_day now) w.db.attempts) free in
            let today : count_by (on_day now) w.db.attempts ≡ count_by (on_day t) w.db.attempts =
              ap (λ d. count_by (λ (a : Attempt). taipei_day a.attempted_at == d) w.db.attempts)
                (==→eq (taipei_day now) (taipei_day t) same) in
            omega (arith, done, rw same at one, below, today)
        | inr other ↦ omega (arith, done, rw other at one, h)
      ]

  -- A run of the worker keeps every Taipei day within the daily budget, however the source answers.
  pub run_once-IsWithin :
      (config : MemberConfig) (name : Option SourceName) (source : Member → Fetched)
      (clock now delay : ℕ) (w : World)
      → IsWithin config.daily_member_enrichments w
      → IsWithin config.daily_member_enrichments
          (run_once same_casefold config name source clock now delay w).1
  unfolding run_once IsWithin
  run_once-IsWithin config name source clock now delay w h = λ t. elim (Bool-cases config.enabled) [
    | inr off ↦ rw (off, run_once) (h t)
    | inl on ↦ elim (Bool-cases (is_cooling name now w.sources)) [
      | inl cooling ↦ rw (on, cooling, run_once) (h t)
      | inr warm ↦
          elim (Bool-cases (
            leb config.daily_member_enrichments
              (member_enrichment_count_for_taipei_day now w.db))) [
                | inl spent ↦ rw (on, warm, spent, run_once) (h t)
                | inr free ↦ elim (Bool-cases (is_spaced now w.db.member_enrichment_next_at)) [
                  | inl early ↦ rw (on, warm, free, early, run_once) (h t)
                  | inr due ↦
                      rw (on, warm, free, due, run_once)
                        (claimed-IsWithin t config name source clock now delay w free (h t))
                ]
              ]
    ]
  ]
