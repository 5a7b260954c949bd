-- ===== src/MemberWorker/Spacing.antt =====
-- The spacing of member enrichment.
use ig_anonymous_monitor.Base.{
  ℕ, ◌+◌, ◌≡◌, refl, Bool, true, false, Option, none, some, leb, ltb, Bool-cases, inl, inr,
}
use ig_anonymous_monitor.Store.{Text, Database, EnrichmentJob, Member}
use ig_anonymous_monitor.Cooldown.{SourceName}
use ig_anonymous_monitor.Enrichment.{
  claim_member_enrichment_job, member_enrichment_count_for_taipei_day, relationship_member,
}
use ig_anonymous_monitor.MemberWorker.{
  MemberConfig, Fetched, MemberStatus, World, MemberOutcome, is_cooling, is_spaced, handle,
  handle_member, handle_claim, run_once,
}

-- The source has been asked.
abbrev pub has_asked : MemberStatus → Bool
has_asked MemberStatus.completed = true
has_asked MemberStatus.incomplete = true
has_asked _ = false

module _ (same_casefold : Text → Text → Bool) where
  abbrev Sets : ℕ → MemberOutcome × World → Type 0
  Sets next_at result =
      has_asked result.0.status ≡ true → result.1.db.member_enrichment_next_at ≡ some next_at

  handle-Sets :
      (config : MemberConfig) (name : Option SourceName) (clock now delay : ℕ) (job : EnrichmentJob)
      (answer : Fetched) (w : World)
      → Sets (now + delay) (handle same_casefold config name clock now delay job answer w)
  unfolding handle
  handle-Sets config name clock now delay job (Fetched.fetched snapshot) w h = refl
  handle-Sets config name clock now delay job (Fetched.failed failure) w h = refl

  handle_member-Sets :
      (config : MemberConfig) (name : Option SourceName) (source : Member → Fetched)
      (clock now delay : ℕ) (job : EnrichmentJob) (member : Option Member) (w : World)
      → Sets
          (now + delay)
          (handle_member same_casefold config name source clock now delay job member w)
  handle_member-Sets config name source clock now delay job none w = λ h. absurd (cc)
  handle_member-Sets config name source clock now delay job (some member) w =
      handle-Sets config name clock now delay job (source member) w

  handle_claim-Sets :
      (config : MemberConfig) (name : Option SourceName) (source : Member → Fetched)
      (clock now delay : ℕ) (w : World) (claim : Option EnrichmentJob × Database)
      → Sets (now + delay) (handle_claim same_casefold config name source clock now delay w claim)
  handle_claim-Sets config name source clock now delay w (none, db) = λ h. absurd (cc)
  handle_claim-Sets config name source clock now delay w (some job, db) =
      handle_member-Sets config name source clock now delay job
        (relationship_member job.instagram_profile_id db) (record w { db = db })

  run_once-Sets :
      (config : MemberConfig) (name : Option SourceName) (source : Member → Fetched)
      (clock now delay : ℕ) (w : World)
      → Sets (now + delay) (run_once same_casefold config name source clock now delay w)
  unfolding run_once
  run_once-Sets config name source clock now delay w = elim (Bool-cases config.enabled) [
    | inr off ↦ rw (off, run_once) (λ h. absurd (cc))
    | inl on ↦ elim (Bool-cases (is_cooling name now w.sources)) [
      | inl cooling ↦ rw (on, cooling, run_once) (λ h. absurd (cc))
      | inr warm ↦
          elim (Bool-cases (
            leb config.daily_member_enrichments
              (member_enrichment_count_for_taipei_day now w.db))) [
                | inl spent ↦ rw (on, warm, spent, run_once) (λ h. absurd (cc))
                | inr free ↦ elim (Bool-cases (is_spaced now w.db.member_enrichment_next_at)) [
                  | inl early ↦ rw (on, warm, free, early, run_once) (λ h. absurd (cc))
                  | inr due ↦
                      rw (on, warm, free, due, run_once)
                        (handle_claim-Sets config name source clock now delay w
                          (claim_member_enrichment_job now w.db))
                ]
              ]
    ]
  ]

  run_once-early :
      (config : MemberConfig) (name : Option SourceName) (source : Member → Fetched)
      (clock now delay : ℕ) (w : World)
      → is_spaced now w.db.member_enrichment_next_at ≡ true
      → (run_once same_casefold config name source clock now delay w).1 ≡ w
  unfolding run_once
  run_once-early config name source clock now delay w early = elim (Bool-cases config.enabled) [
    | inr off ↦ rw (off, run_once) refl
    | inl on ↦ elim (Bool-cases (is_cooling name now w.sources)) [
      | inl cooling ↦ rw (on, cooling, run_once) refl
      | inr warm ↦
          elim (Bool-cases (
            leb config.daily_member_enrichments
              (member_enrichment_count_for_taipei_day now w.db))) [
                | inl spent ↦ rw (on, warm, spent, run_once) refl
                | inr free ↦ rw (on, warm, free, early, run_once) refl
              ]
    ]
  ]

  -- When a run has asked the source, a run before its delay is over changes nothing, whatever the
  -- configuration, the source and the answer are then.
  pub run_once-waits :
      (config again : MemberConfig) (name other : Option SourceName)
      (source next : Member → Fetched) (clock now delay clock_then later delay_then : ℕ) (w : World)
      → has_asked (run_once same_casefold config name source clock now delay w).0.status ≡ true
      → ltb later (now + delay) ≡ true
      → let after = (run_once same_casefold config name source clock now delay w).1 in
        (run_once same_casefold again other next clock_then later delay_then after).1 ≡ after
  run_once-waits config again name other source next clock now delay clock_then later delay_then w
        asked early =
      let set = run_once-Sets config name source clock now delay w asked in
      run_once-early again other next clock_then later delay_then
        (run_once same_casefold config name source clock now delay w).1 (rw set early)
