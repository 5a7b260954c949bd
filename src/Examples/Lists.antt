-- ===== src/Examples/Lists.antt =====
-- The lists of members at work.
use ig_anonymous_monitor.Base.{
  arith, ◌++◌, ℕ, ◌≡◌, refl, inl, inr, true, false, none, some, [], ◌∷◌, exists_by, ◌&&◌, ◌==◌,
}
use ig_anonymous_monitor.Store.{Database, followers_direction, Member, Membership}
use ig_anonymous_monitor.Reasons.{codes, is_space, collector_fatal_reason}
use ig_anonymous_monitor.Reasons.Laws.{
  IsReason, collector_fatal_reason-IsReason, collector_fatal_reason-keeps,
}
use ig_anonymous_monitor.Jobs.{days, has_id}
use ig_anonymous_monitor.Snapshot.{is_open_enrichment_of}
use ig_anonymous_monitor.Snapshot.Apply.{apply_complete_relationship_run}
use ig_anonymous_monitor.Snapshot.Apply.Exact.{is_active, is_staged}
use ig_anonymous_monitor.Snapshot.Apply.Returns.{AreMembers, apply_complete-replaces}
use ig_anonymous_monitor.Retention.{is_before, is_before_opt, prune_relationship_data}
use ig_anonymous_monitor.Retention.Blocked.{prune_relationship_data-blocked}
use ig_anonymous_monitor.Admin.{returned}
use ig_anonymous_monitor.Worker.Collect.{Listing}
use ig_anonymous_monitor.Examples.{busy}

abbrev pub member : Member
member = record {
  instagram_profile_id = 50;
  username = 98 ∷ [];
  display_name = none;
  avatar_url = none;
  avatar_sha256 = none;
  avatar_path = none;
  posts = none;
  followers = none;
  following = none;
  bio = none;
  privacy = none;
  profile_observed_at = none;
  username_observed_at = 1000;
  updated_at = 1000;
}

abbrev left : Membership
left = record {
  account_id = 1;
  direction = followers_direction;
  instagram_profile_id = 50;
  username = 98 ∷ [];
  first_seen_at = 500;
  last_seen_at = 1000;
  active = false;
  removed_at = some 30000000;
}

-- A member not refreshed since 1000, who left the list much later.
abbrev long_ago : Database
long_ago = record busy { members = member ∷ []; memberships = left ∷ [] }

member_forgotten : is_before 33000000 (days 365) member.updated_at ≡ true
member_forgotten = refl

left_kept : is_before_opt 33000000 (days 365) left.removed_at ≡ false
left_kept = refl

none_active :
    exists_by
      (λ b. (b.instagram_profile_id == member.instagram_profile_id) && b.active)
      long_ago.memberships
    ≡ false
unfolding exists_by
none_active = refl

none_open :
    exists_by (is_open_enrichment_of member.instagram_profile_id) long_ago.enrichment_jobs ≡ false
unfolding exists_by
none_open = refl

prune_relationship_data-blocked_example : prune_relationship_data 33000000 long_ago ≡ none
prune_relationship_data-blocked_example =
    prune_relationship_data-blocked 33000000 long_ago member left (inl refl) (inl refl) refl
      member_forgotten left_kept none_active none_open

collector_fatal_reason-IsReason_example :
    IsReason (collector_fatal_reason (codes "login required: try https://example.org"))
collector_fatal_reason-IsReason_example =
    collector_fatal_reason-IsReason (codes "login required: try https://example.org")

short-IsReason : IsReason (codes "E_2")
short-IsReason = (
  inl (omega arith, omega arith),
  omega arith,
  (inr (inr (inl refl)), (inr (inl (omega arith, omega arith)), tt)),
)

collector_fatal_reason-keeps_example :
    collector_fatal_reason ((codes "  " ++ codes "E_2") ++ codes " ") ≡ codes "E_2"
unfolding is_space
collector_fatal_reason-keeps_example =
    collector_fatal_reason-keeps (codes "  ") (codes "E_2") (codes " ") (refl, (refl, tt))
      (refl, tt) short-IsReason

-- One follower comes, in the only page.
abbrev whole : Listing
whole = record {
  pages =
      record {
        members =
            record { profile_id = 50; username = 98 ∷ []; display_name = none; avatar_url = none }
            ∷ [];
        complete = true;
      }
      ∷ [];
  ending = returned tt;
}

-- The member is staged by run 9.
abbrev staging : Database
staging = record long_ago {
  run_members =
      record { run_id = 9; instagram_profile_id = 50; username = 98 ∷ []; position = 1 } ∷ [];
}

account_there : exists_by (has_id 1) staging.accounts ≡ true
unfolding exists_by
account_there = refl

staging-AreMembers : AreMembers staging
unfolding exists_by
staging-AreMembers = (refl, tt)

apply_complete-replaces_example :
    (db' : Database) × (apply_complete_relationship_run 9 1 followers_direction 33000000 30 staging
      ≡ some db')
    × ((p : ℕ)
        → is_active 1 followers_direction p db'.memberships ≡ is_staged 9 p staging.run_members)
apply_complete-replaces_example =
    apply_complete-replaces 9 1 followers_direction 33000000 30 staging account_there
      staging-AreMembers
