-- ===== src/Worker/Partial.antt =====
-- What collecting a list does to the lists of the accounts (ig_monitor/relationships.py,
-- `_collect_direction`).
use ig_anonymous_monitor.Base.{
  ℕ, ◌+◌, ◌≤◌, ◌≡◌, some, ◌⊎◌, Bool, true, false, Option, List, [], ◌∷◌, map, length,
}
use ig_anonymous_monitor.Store.{Text, Database, Account, Direction, WorkStatus}
use ig_anonymous_monitor.Snapshot.{stage_relationship_members}
use ig_anonymous_monitor.Snapshot.Apply.{apply_complete_relationship_run}
use ig_anonymous_monitor.Admin.{EnrichmentConfig, Answer, returned, raised}
use ig_anonymous_monitor.Worker.Collect.{RelationshipPage, Collected, finished}

-- The times of the account's complete lists.
abbrev pub baselines : List Account → List (ℕ × Option ℕ × Option ℕ)
baselines = map (λ a. (a.id, a.followers_baseline_at, a.following_baseline_at))

-- The two databases hold the same relationships, with the same history and the same baselines.
pub record SameLists (a b : Database) : Type 0 where
  pub memberships : b.memberships ≡ a.memberships
  pub history : b.history ≡ a.history
  pub baselines_kept : baselines b.accounts ≡ baselines a.accounts

abbrev pub is_returned : Answer (Unit {0}) → Bool
is_returned (returned _) = true
is_returned (raised e) = false

-- Whether the last page was marked complete, and how many members came in all.
abbrev pub last_is_complete : Bool → List RelationshipPage → Bool
last_is_complete complete [] = complete
last_is_complete complete (page ∷ pages) = last_is_complete page.complete pages

abbrev pub listed : List RelationshipPage → ℕ
listed [] = 0
listed (page ∷ pages) = length page.members + listed pages

-- The pages are staged one after the other.
abbrev pub stage_pages : (Text → Text → Bool) → ℕ → ℕ → List RelationshipPage → Database → Database
stage_pages same_casefold clock run_id [] db = db
stage_pages same_casefold clock run_id (page ∷ pages) db =
    stage_pages same_casefold clock run_id pages
      (stage_relationship_members same_casefold clock run_id page.members db)

-- The whole list came, after `count` members, and was applied.
pub record IsReplaced (same_casefold : Text → Text → Bool) (config : EnrichmentConfig)
    (clock now run_id account_id : ℕ) (direction : Direction) (ending : Answer (Unit {0}))
    (pages : List RelationshipPage) (count : ℕ) (complete : Bool) (db : Database)
    (out : Collected × Database) : Type 0 where
  pub result : out.0 ≡ finished WorkStatus.completed
  pub was_returned : is_returned ending ≡ true
  pub whole : last_is_complete complete pages ≡ true
  pub within : count + listed pages ≤ config.member_limit_per_direction
  pub applied : Database
  pub replaced :
      apply_complete_relationship_run run_id account_id direction now config.member_stale_days
        (stage_pages same_casefold clock run_id pages db)
      ≡ some applied
  pub kept : SameLists applied out.1

module _ (same_casefold : Text → Text → Bool) (config : EnrichmentConfig) (clock now : ℕ)
    (run_id account_id : ℕ) (direction : Direction) where
  -- What a collection may end in: a whole list, or the same lists as before.
  abbrev Ends :
      Answer (Unit {0})
      → List RelationshipPage
      → ℕ
      → Bool
      → Database
      → Collected × Database
      → Type 0
  Ends ending pages count complete db out =
      IsReplaced same_casefold config clock now run_id account_id direction ending pages count
        complete db out
      ⊎ SameLists db out.1
