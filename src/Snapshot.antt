-- ===== src/Snapshot.antt =====
-- Relationship runs of ig_monitor/db.py: staging the pages of a member list, and applying a
-- complete list to the memberships of an account in one direction.
pub mod Maps
pub mod Apply
use ig_anonymous_monitor.Base.{
  ℕ, ◌+◌, ◌*◌, Bool, true, false, ◌&&◌, ◌||◌, Option, none, some, List, [], ◌∷◌, ◌++◌, ltb, leb,
  ◌==◌, if◌then◌else◌, coalesce, select, find_by, exists_by, update_where, delete_where, next_id,
  max,
}
use ig_anonymous_monitor.Store.{
  Text, Database, Direction, RelationshipRun, RunStatus, RunMember, Member, EnrichmentJob,
  EnrichmentStatus, EnrichmentReason, is_open_enrichment, is_given,
}

-- A member of a page, as the source gives it (`MemberIdentity`).
pub record MemberIdentity : Type 0 where
  pub profile_id : ℕ
  pub username : Text
  pub display_name : Option Text
  pub avatar_url : Option Text

unfoldable pub start_relationship_run : ℕ → ℕ → Direction → ℕ → Database → ℕ × Database
start_relationship_run job_id account_id direction started_at db =
    let id = next_id (λ (r : RelationshipRun). r.id) db.runs in
    (
      id,
      record db {
        runs =
            db.runs
            ++ record {
              id = id;
              job_id = job_id;
              account_id = account_id;
              direction = direction;
              status = RunStatus.running;
              complete = false;
              collected_count = 0;
              error = none;
              started_at = started_at;
              finished_at = none;
            }
              ∷ [];
      },
    )

unfoldable pub finish_relationship_run :
    ℕ → ℕ → RunStatus → Bool → ℕ → Option Text → Database → Database
finish_relationship_run now run_id status complete count error db = record db {
  runs =
      update_where (λ r. r.id == run_id)
        (λ r. record r {
          status = status;
          complete = complete;
          collected_count = count;
          error = error;
          finished_at = some now;
        })
        db.runs;
}

abbrev pub is_member : ℕ → Member → Bool
is_member profile_id m = m.instagram_profile_id == profile_id

abbrev pub new_member : ℕ → MemberIdentity → Member
new_member now m = record {
  instagram_profile_id = m.profile_id;
  username = m.username;
  display_name = m.display_name;
  avatar_url = m.avatar_url;
  avatar_sha256 = none;
  avatar_path = none;
  posts = none;
  followers = none;
  following = none;
  bio = none;
  privacy = none;
  profile_observed_at = none;
  username_observed_at = now;
  updated_at = now;
}

-- `INSERT .. ON CONFLICT(instagram_profile_id) DO UPDATE`
unfoldable pub upsert_member : ℕ → MemberIdentity → List Member → List Member
upsert_member now m members =
    if exists_by (is_member m.profile_id) members
    then update_where (is_member m.profile_id)
        (λ r. record r {
          username = m.username;
          display_name = coalesce m.display_name r.display_name;
          avatar_url = coalesce m.avatar_url r.avatar_url;
          username_observed_at = now;
          updated_at = now;
        })
        members
    else members ++ new_member now m ∷ []

abbrev pub new_enrichment : ℕ → ℕ → EnrichmentReason → ℕ → ℕ → EnrichmentJob
new_enrichment id profile_id reason available_at now = record {
  id = id;
  instagram_profile_id = profile_id;
  reason = reason;
  status = EnrichmentStatus.pending;
  available_at = available_at;
  attempts = 0;
  lease_until = none;
  last_error = none;
  created_at = now;
  updated_at = now;
}

abbrev pub is_open_enrichment_of : ℕ → EnrichmentJob → Bool
is_open_enrichment_of profile_id j =
    (j.instagram_profile_id == profile_id) && is_open_enrichment j.status

-- `INSERT OR IGNORE INTO member_enrichment_jobs`: a member has at most one open job.
unfoldable pub insert_enrichment :
    ℕ → EnrichmentReason → ℕ → ℕ → List EnrichmentJob → List EnrichmentJob
insert_enrichment profile_id reason available_at now jobs =
    if exists_by (is_open_enrichment_of profile_id) jobs
    then jobs
    else jobs
      ++ new_enrichment (next_id (λ (j : EnrichmentJob). j.id) jobs) profile_id reason available_at
          now
        ∷ []

abbrev pub is_row_of : ℕ → ℕ → RunMember → Bool
is_row_of run_id profile_id r = (r.run_id == run_id) && (r.instagram_profile_id == profile_id)

-- `avatar_path IS NULL` of the member's row
unfoldable pub lacks_avatar : ℕ → List Member → Bool
lacks_avatar profile_id members =
    exists_by (λ m. is_member profile_id m && elim m.avatar_path [ none ↦ true | some p ↦ false ])
      members

-- `COALESCE(MAX(position),-1)+1`
unfoldable pub next_position : List RunMember → ℕ
next_position [] = 0
next_position (r ∷ rs) = max (r.position + 1) (next_position rs)

-- `casefold` decides whether two user names are equal when their case is folded.
module _ (same_casefold : Text → Text → Bool) where
  -- `prior and prior["username"].casefold() != member.username.casefold()`
  unfoldable pub was_renamed : MemberIdentity → List Member → Bool
  was_renamed m members = elim (find_by (is_member m.profile_id) members) [
    | none ↦ false
    | some prior ↦ if same_casefold prior.username m.username then false else true
  ]

  -- The body of the loop over the members of a page.
  unfoldable pub stage_one : ℕ → ℕ → ℕ → MemberIdentity → Database → Database
  stage_one now run_id position m db =
      let members = upsert_member now m db.members in
      let wants_avatar = is_given m.avatar_url && lacks_avatar m.profile_id members in
      let refreshed =
        if wants_avatar
        then insert_enrichment m.profile_id EnrichmentReason.avatar_refresh now now
            db.enrichment_jobs
        else db.enrichment_jobs in
      record db {
        members = members;
        enrichment_jobs =
            if was_renamed m db.members
            then insert_enrichment m.profile_id EnrichmentReason.renamed now now refreshed
            else refreshed;
        run_members =
            delete_where (is_row_of run_id m.profile_id) db.run_members
            ++ record {
              run_id = run_id;
              instagram_profile_id = m.profile_id;
              username = m.username;
              position = position;
            }
              ∷ [];
      }

  unfoldable pub stage_from : ℕ → ℕ → ℕ → List MemberIdentity → Database → Database
  stage_from now run_id position [] db = db
  stage_from now run_id position (m ∷ ms) db =
      stage_from now run_id (position + 1) ms (stage_one now run_id position m db)

  unfoldable pub stage_relationship_members : ℕ → ℕ → List MemberIdentity → Database → Database
  stage_relationship_members now run_id members db =
      stage_from now run_id (next_position (select (λ r. r.run_id == run_id) db.run_members))
        members db
