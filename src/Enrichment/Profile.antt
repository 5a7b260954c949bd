-- ===== src/Enrichment/Profile.antt =====
-- `apply_member_profile` (ig_monitor/db.py).
use ig_anonymous_monitor.Base.{
  ℕ, Bool, false, ◌&&◌, not, Option, none, some, List, [], ◌∷◌, ◌++◌, map, coalesce, ◌==◌,
  if◌then◌else◌, exists_by, update_where,
}
use ig_anonymous_monitor.Store.{
  Text, Database, ProfileSnapshot, Member, Membership, HistoryRow, HistoryDirection, ChangeKind,
  EnrichmentStatus, EnrichmentJob, AttemptStatus,
}
use ig_anonymous_monitor.Reasons.{codes}
use ig_anonymous_monitor.Snapshot.{is_member}
use ig_anonymous_monitor.Enrichment.{relationship_member, close_attempt}

abbrev pub with_profile : ProfileSnapshot → ℕ → Member → Member
with_profile s observed_at m = record m {
  username = s.username;
  display_name = s.display_name;
  avatar_url = coalesce m.avatar_url s.avatar_url;
  avatar_sha256 = s.avatar_sha256;
  avatar_path = s.avatar_path;
  posts = some s.posts;
  followers = some s.followers;
  following = some s.following;
  bio = some s.bio;
  privacy = some s.privacy;
  profile_observed_at = some observed_at;
  username_observed_at = observed_at;
  updated_at = observed_at;
}

-- `SELECT DISTINCT account_id FROM account_relationships WHERE instagram_profile_id=?`
unfoldable pub accounts_of : ℕ → List Membership → List ℕ
accounts_of profile_id [] = []
accounts_of profile_id (m ∷ rows) =
    let rest = accounts_of profile_id rows in
    let again = exists_by (λ a. a == m.account_id) rest in
    if (m.instagram_profile_id == profile_id) && not again then m.account_id ∷ rest else rest

abbrev pub renaming : ℕ → Text → Text → ℕ → ℕ → HistoryRow
renaming profile_id old new observed_at account_id = record {
  account_id = account_id;
  direction = HistoryDirection.profile;
  change_kind = ChangeKind.renamed;
  instagram_profile_id = profile_id;
  username = old ++ codes " -> " ++ new;
  interval_change = false;
  observed_at = observed_at;
  run_id = none;
}

module _ (same_casefold : Text → Text → Bool) where
  -- `old_username and old_username.casefold() != snapshot.username.casefold()`
  unfoldable pub is_renaming : Option Member → ProfileSnapshot → Bool
  is_renaming none s = false
  is_renaming (some m) s = elim m.username [
    | [] ↦ false
    | _ ∷ _ ↦ not (same_casefold m.username s.username)
  ]

  abbrev pub old_username : Option Member → Text
  old_username none = []
  old_username (some m) = m.username

  unfoldable pub apply_member_profile : EnrichmentJob → ProfileSnapshot → ℕ → Database → Database
  unfolding is_renaming
  apply_member_profile job snapshot observed_at db =
      let profile_id = job.instagram_profile_id in
      let current = relationship_member profile_id db in
      record db {
        members =
            update_where (is_member profile_id) (with_profile snapshot observed_at) db.members;
        memberships =
            update_where (λ m. m.instagram_profile_id == profile_id)
              (λ m. record m { username = snapshot.username }) db.memberships;
        enrichment_jobs =
            update_where (λ j. j.id == job.id)
              (λ j. record j {
                status = EnrichmentStatus.completed;
                lease_until = none;
                last_error = none;
                updated_at = observed_at;
              })
              db.enrichment_jobs;
        attempts =
            close_attempt profile_id (λ a. record a { status = AttemptStatus.completed })
              db.attempts;
        history =
            if is_renaming current snapshot
            then db.history
              ++ map (renaming profile_id (old_username current) snapshot.username observed_at)
                  (accounts_of profile_id db.memberships)
            else db.history;
      }
