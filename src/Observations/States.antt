-- ===== src/Observations/States.antt =====
-- The rows that `record_collection_observations` writes (ig_monitor/anonymous_store.py).
use ig_anonymous_monitor.Base.{ℕ, Bool, true, false, Option, List, ◌==◌}
use ig_anonymous_monitor.Store.{Text}
use ig_anonymous_monitor.Cooldown.{SourceName}

-- `CATEGORIES`, and what is none of them.
pub data Category : Type 0 where
  posts stories highlights reels : Category
  other_category : ℕ → Category

abbrev pub same_category : Category → Category → Bool
same_category Category.posts Category.posts = true
same_category Category.stories Category.stories = true
same_category Category.highlights Category.highlights = true
same_category Category.reels Category.reels = true
same_category (Category.other_category m) (Category.other_category n) = m == n
same_category _ _ = false

abbrev pub is_known_category : Category → Bool
is_known_category (Category.other_category n) = false
is_known_category _ = true

pub data CollectionState : Type 0 where
  unknown media empty private partial failed blocked : CollectionState
  other_state : Text → CollectionState

abbrev pub is_known_state : CollectionState → Bool
is_known_state (CollectionState.other_state s) = false
is_known_state _ = true

-- A row of `anonymous_collection_state`.
pub record Collected : Type 0 where
  pub account_id : ℕ
  pub source : SourceName
  pub category : Category
  pub state : CollectionState
  pub error : Option Text
  pub error_code : Option Text
  pub last_success_at : Option ℕ
  pub last_attempt_at : Option ℕ
  pub cursor : Option Text
  pub complete : Bool
  pub baseline_complete : Bool
  pub fail_count : ℕ
  pub failure_notified : Bool
  pub failure_since : Option ℕ
  pub next_retry_at : Option ℕ

-- The events `failure:anonymous:..` and `recovery:anonymous:..`, by the parts of their keys.
pub record Alarm : Type 0 where
  pub recovered : Bool
  pub source : SourceName
  pub account_id : ℕ
  pub category : Category
  pub since : Option ℕ

pub record ObservationTables : Type 0 where
  pub states : List Collected
  pub alarms : List Alarm

-- One of the `observations`; `attempted` is true where it is not given.
pub record Observation : Type 0 where
  pub category : Category
  pub attempted : Bool
  pub state : CollectionState
  pub error : Option Text
  pub error_code : Option Text
  pub cursor : Option Text
  pub complete : Bool
