-- ===== src/Enrichment.antt =====
-- The queue of member enrichment: `claim_member_enrichment_job` to `apply_member_profile` of
-- ig_monitor/db.py.
pub mod Startup
pub mod Open
pub mod Writers
pub mod Traces
pub mod Profile
use ig_anonymous_monitor.Base.{
  ℕ, ◌+◌, ◌*◌, Bool, true, false, ◌&&◌, ◌||◌, not, Option, none, some, List, [], ◌∷◌, ◌++◌, map,
  ltb, leb, lt_opt, coalesce, ◌==◌, if◌then◌else◌, max, select, find_by, count_by, exists_by,
  update_where, max_of, next_id,
}
use ig_anonymous_monitor.Store.{
  Text, Database, ProfileSnapshot, PrivacyState, Member, Membership, HistoryRow, HistoryDirection,
  ChangeKind, EnrichmentStatus, EnrichmentReason, EnrichmentJob, AttemptStatus, Attempt, is_given,
  is_pending_enrichment, is_leased_enrichment,
}
use ig_anonymous_monitor.Reasons.{codes}
use ig_anonymous_monitor.Work.{taipei_day}
use ig_anonymous_monitor.Snapshot.{is_member, new_enrichment, is_open_enrichment_of}

unfoldable pub member_enrichment_count_for_taipei_day : ℕ → Database → ℕ
member_enrichment_count_for_taipei_day now db =
    count_by (λ a. taipei_day a.attempted_at == taipei_day now) db.attempts

-- `ORDER BY attempted_at DESC,id DESC LIMIT 1`: the time of the last attempt
unfoldable pub last_attempt : List Attempt → Option ℕ
last_attempt [] = none
last_attempt (a ∷ attempts) = elim (last_attempt attempts) [
  | none ↦ some a.attempted_at
  | some t ↦ some (max a.attempted_at t)
]

unfoldable pub last_member_enrichment_attempt : Database → Option ℕ
last_member_enrichment_attempt db = last_attempt db.attempts

abbrev pub is_expired : ℕ → EnrichmentJob → Bool
is_expired now j = is_leased_enrichment j.status && lt_opt j.lease_until now

abbrev pub give_back : ℕ → EnrichmentJob → EnrichmentJob
give_back now j = record j {
  status = EnrichmentStatus.pending;
  lease_until = none;
  updated_at = now;
}

-- The CASE of the ORDER BY.
abbrev pub priority : EnrichmentReason → ℕ
priority EnrichmentReason.manual = 0
priority EnrichmentReason.renamed = 1
priority _ = 2

unfoldable pub precedes : EnrichmentJob → EnrichmentJob → Bool
precedes a b =
    if ltb (priority a.reason) (priority b.reason)
    then true
    else (priority a.reason == priority b.reason) && ltb a.id b.id

unfoldable pub first_in_order : List EnrichmentJob → Option EnrichmentJob
first_in_order [] = none
first_in_order (j ∷ js) = elim (first_in_order js) [
  | none ↦ some j
  | some k ↦ some (if precedes k j then k else j)
]

abbrev pub is_ready : ℕ → EnrichmentJob → Bool
is_ready now j = is_pending_enrichment j.status && leb j.available_at now

abbrev pub lease : ℕ → EnrichmentJob → EnrichmentJob
lease now j = record j {
  status = EnrichmentStatus.leased;
  lease_until = some (now + 10 * 60);
  attempts = j.attempts + 1;
  updated_at = now;
}

abbrev pub new_attempt : ℕ → ℕ → ℕ → Attempt
new_attempt id profile_id now = record {
  id = id;
  instagram_profile_id = profile_id;
  status = AttemptStatus.started;
  error = none;
  attempted_at = now;
}

-- The chosen job is leased and its attempt is written down.
unfoldable pub start_attempt : ℕ → EnrichmentJob → Database → Database
start_attempt now row db = record db {
  enrichment_jobs = update_where (λ j. j.id == row.id) (lease now) db.enrichment_jobs;
  attempts =
      db.attempts
      ++ new_attempt (next_id (λ (a : Attempt). a.id) db.attempts) row.instagram_profile_id now
        ∷ [];
}

unfoldable pub give_back_expired : ℕ → Database → Database
give_back_expired now db = record db {
  enrichment_jobs = update_where (is_expired now) (give_back now) db.enrichment_jobs;
}

unfoldable pub claim_ready : ℕ → Database → Option EnrichmentJob × Database
unfolding start_attempt
claim_ready now db = elim (first_in_order (select (is_ready now) db.enrichment_jobs)) [
  | none ↦ (none, db)
  | some row ↦ (some (record row { status = EnrichmentStatus.leased }), start_attempt now row db)
]

unfoldable pub claim_member_enrichment_job : ℕ → Database → Option EnrichmentJob × Database
unfolding claim_ready give_back_expired
claim_member_enrichment_job now db = claim_ready now (give_back_expired now db)

unfoldable pub relationship_member : ℕ → Database → Option Member
relationship_member profile_id db = find_by (is_member profile_id) db.members

-- An IntegrityError, of the unique index on open jobs or of the foreign key, is the answer `false`.
unfoldable pub enqueue_member_enrichment : ℕ → ℕ → EnrichmentReason → ℕ → Database → Bool × Database
enqueue_member_enrichment clock profile_id reason available_at db =
    if exists_by (is_open_enrichment_of profile_id) db.enrichment_jobs
      || not (exists_by (is_member profile_id) db.members)
    then (false, db)
    else (
      true,
      record db {
        enrichment_jobs =
            db.enrichment_jobs
            ++ new_enrichment (next_id (λ (j : EnrichmentJob). j.id) db.enrichment_jobs) profile_id
                reason available_at clock
              ∷ [];
      },
    )

-- `WHERE id=(SELECT MAX(id) .. WHERE instagram_profile_id=?)`; `own` are the member's attempts.
unfoldable pub close_last : List Attempt → (Attempt → Attempt) → List Attempt → List Attempt
close_last [] ending attempts = attempts
close_last (a ∷ own) ending attempts =
    update_where (λ b. b.id == max_of (λ (c : Attempt). c.id) (a ∷ own)) ending attempts

unfoldable pub close_attempt : ℕ → (Attempt → Attempt) → List Attempt → List Attempt
unfolding close_last
close_attempt profile_id ending attempts =
    close_last (select (λ (a : Attempt). a.instagram_profile_id == profile_id) attempts) ending
      attempts

-- The statuses with which `finish_member_enrichment_job` ends a job.
pub data Ending : Type 0 where
  completes cancels : Ending

abbrev pub job_ending : Ending → EnrichmentStatus
job_ending Ending.completes = EnrichmentStatus.completed
job_ending Ending.cancels = EnrichmentStatus.cancelled

abbrev pub attempt_ending : Ending → AttemptStatus
attempt_ending Ending.completes = AttemptStatus.completed
attempt_ending Ending.cancels = AttemptStatus.cancelled

-- The attempts after `UPDATE member_enrichment_attempts`, if the job is there.
unfoldable pub close_attempt_of : ℕ → (Attempt → Attempt) → Database → List Attempt
unfolding close_attempt
close_attempt_of job_id ending db = elim (find_by (λ j. j.id == job_id) db.enrichment_jobs) [
  | none ↦ db.attempts
  | some job ↦ close_attempt job.instagram_profile_id ending db.attempts
]

unfoldable pub finish_member_enrichment_job : ℕ → ℕ → Ending → Option Text → Database → Database
unfolding close_attempt_of
finish_member_enrichment_job clock job_id ending error db = record db {
  enrichment_jobs =
      update_where (λ j. j.id == job_id)
        (λ j. record j {
          status = job_ending ending;
          lease_until = none;
          last_error = error;
          updated_at = clock;
        })
        db.enrichment_jobs;
  attempts =
      close_attempt_of job_id (λ a. record a { status = attempt_ending ending; error = error }) db;
}

unfoldable pub retry_member_enrichment_job : ℕ → ℕ → ℕ → Text → Database → Database
unfolding close_attempt_of
retry_member_enrichment_job clock job_id available_at error db = record db {
  enrichment_jobs =
      update_where (λ j. j.id == job_id)
        (λ j. record j {
          status = EnrichmentStatus.pending;
          available_at = available_at;
          lease_until = none;
          last_error = some error;
          updated_at = clock;
        })
        db.enrichment_jobs;
  attempts =
      close_attempt_of job_id (λ a. record a { status = AttemptStatus.failed; error = some error })
        db;
}
