-- ===== src/Store/Accounts.antt =====
-- The rows of `accounts` (ig_monitor/db.py) and the profile snapshot of ig_monitor/models.py.
use ig_anonymous_monitor.Base.{ℕ, Bool, true, false, Option, none, some, List, [], ◌∷◌}

-- Text that the program only stores, as its code points.
abbrev pub Text : Type 0
Text = List ℕ

-- An optional text that Python counts as true: neither None nor empty.
abbrev pub is_given : Option Text → Bool
is_given none = false
is_given (some []) = false
is_given (some (c ∷ cs)) = true

pub data PrivacyState : Type 0 where
  private public unknown : PrivacyState

pub record ProfileSnapshot : Type 0 where
  pub username : Text
  pub display_name : Option Text
  pub posts : ℕ
  pub followers : ℕ
  pub following : ℕ
  pub bio : Text
  pub privacy : PrivacyState
  pub avatar_url : Option Text
  pub avatar_sha256 : Option Text
  pub avatar_path : Option Text

pub data Direction : Type 0 where
  followers_direction following_direction : Direction

pub data RelationshipStatus : Type 0 where
  unavailable queued complete frozen scope_exceeded identity_conflict : RelationshipStatus

pub data IdentitySource : Type 0 where
  instagrapi other_source : IdentitySource

-- An Instagram profile id is a text that the program compares and sorts; here it is a number, its
-- place in that order.
pub record Account : Type 0 where
  pub id : ℕ
  pub label : Text
  pub enabled : Bool
  pub username : Text
  pub relationship_tracking : Bool
  pub relationship_status : RelationshipStatus
  pub relationship_frozen_at : Option ℕ
  pub followers_baseline_at : Option ℕ
  pub following_baseline_at : Option ℕ
  pub relationship_reconciled_at : Option ℕ
  pub instagram_profile_id : Option ℕ
  pub identity_verified_source : Option IdentitySource
  pub identity_verified_at : Option ℕ
  pub identity_conflict : Option (Option ℕ × ℕ × ℕ)
  pub snapshot : Option ProfileSnapshot
