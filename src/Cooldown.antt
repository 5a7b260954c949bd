-- ===== src/Cooldown.antt =====
-- The cooldowns of the anonymous sources (ig_monitor/anonymous_store.py).
pub mod Refusal
use ig_anonymous_monitor.Base.{
  ℕ, ◌+◌, ◌-◌, ◌*◌, Bool, true, false, ◌&&◌, ◌||◌, not, Option, none, some, List, [], ◌∷◌, ◌++◌,
  ltb, leb, ◌==◌, if◌then◌else◌, min, find_by, exists_by, update_where,
}
use ig_anonymous_monitor.Store.{Text}
use ig_anonymous_monitor.Reasons.{codes, is_space}

-- The names of sources that the code tells apart, and the others, by a number.
pub data SourceName : Type 0 where
  igwatcher igwatcher_media : SourceName
  other_name : ℕ → SourceName

abbrev pub same_source : SourceName → SourceName → Bool
same_source SourceName.igwatcher SourceName.igwatcher = true
same_source SourceName.igwatcher_media SourceName.igwatcher_media = true
same_source (SourceName.other_name m) (SourceName.other_name n) = m == n
same_source _ _ = false

pub record SourceState : Type 0 where
  pub source : SourceName
  pub block_count : ℕ
  pub next_allowed_at : Option ℕ
  pub failure_since : Option ℕ
  pub failure_notified : Bool
  pub error : Option Text
  pub last_attempt_at : Option ℕ
  pub last_success_at : Option ℕ

-- The events `failure:anonymous-source:..` and `recovery:anonymous-source:..`, by their keys.
pub record Notice : Type 0 where
  pub recovered : Bool
  pub source : SourceName
  pub since : Option ℕ

pub record SourceTables : Type 0 where
  pub states : List SourceState
  pub notices : List Notice

abbrev pub same_time : Option ℕ → Option ℕ → Bool
same_time none none = true
same_time (some s) (some t) = s == t
same_time _ _ = false

abbrev pub same_bool : Bool → Bool → Bool
same_bool true b = b
same_bool false b = not b

-- `_anonymous_event`: `INSERT OR IGNORE`
unfoldable pub insert_notice : Notice → List Notice → List Notice
insert_notice n notices =
    if exists_by
      (λ x.
        same_bool x.recovered n.recovered
        && same_source x.source n.source
        && same_time x.since n.since)
      notices
    then notices
    else notices ++ n ∷ []

-- `next_allowed_at and _time(next_allowed_at) > _time(now)`
abbrev pub is_later : Option ℕ → ℕ → Bool
is_later none now = false
is_later (some t) now = ltb now t

unfoldable pub is_prefix : Text → Text → Bool
is_prefix [] s = true
is_prefix (c ∷ cs) [] = false
is_prefix (c ∷ cs) (d ∷ s) = (c == d) && is_prefix cs s

-- `part in text`
unfoldable pub contains : Text → Text → Bool
unfolding is_prefix
contains part [] = is_prefix part []
contains part (c ∷ text) = is_prefix part (c ∷ text) || contains part text

abbrev pub text_of : Option Text → Text
text_of none = []
text_of (some t) = t

unfoldable pub is_global_refusal : Text → Bool
is_global_refusal error =
    contains (codes "http_status=429") error || contains (codes "signal=challenge") error

unfoldable pub state_of : SourceName → List SourceState → Option SourceState
state_of source = find_by (λ s. same_source s.source source)

abbrev pub next_of : Option SourceState → Option ℕ
next_of none = none
next_of (some s) = s.next_allowed_at

abbrev pub own_cooldown : Option SourceState → ℕ → Option SourceState
own_cooldown none now = none
own_cooldown (some row) now = if is_later row.next_allowed_at now then some row else none

-- `not row or not row["next_allowed_at"] or media is later`
abbrev pub outlasts : Option ℕ → Option ℕ → Bool
outlasts media none = true
outlasts media (some t) = is_later media t

abbrev pub media_first : Option SourceState → Option SourceState → ℕ → Option SourceState
media_first none row now = own_cooldown row now
media_first (some media) row now =
    if is_later media.next_allowed_at now
      && is_global_refusal (text_of media.error)
      && outlasts media.next_allowed_at (next_of row)
    then some media
    else own_cooldown row now

unfoldable pub source_cooldown : SourceName → ℕ → SourceTables → Option SourceState
unfolding state_of is_global_refusal
source_cooldown SourceName.igwatcher now db =
    media_first (state_of SourceName.igwatcher_media db.states)
      (state_of SourceName.igwatcher db.states) now
source_cooldown source now db = own_cooldown (state_of source db.states) now

abbrev pub new_state : SourceName → SourceState
new_state source = record {
  source = source;
  block_count = 0;
  next_allowed_at = none;
  failure_since = none;
  failure_notified = false;
  error = none;
  last_attempt_at = none;
  last_success_at = none;
}

-- The minutes of the `count`-th block in a row, `count` at least 1.
abbrev pub delay_minutes : SourceName → ℕ → ℕ
delay_minutes (SourceName.other_name n) count =
    if leb count 1 then 30 else if leb count 2 then 60 else if leb count 3 then 120 else 240
delay_minutes _ count = if leb count 1 then 10 else 15

abbrev pub since_of : Option ℕ → ℕ → ℕ
since_of none now = now
since_of (some t) now = t

-- The row after a block that is not within a cooldown.
abbrev pub blocked : Text → ℕ → SourceState → SourceState
blocked error now row = record row {
  block_count = row.block_count + 1;
  next_allowed_at = some (now + delay_minutes row.source (row.block_count + 1) * 60);
  failure_since = some (since_of row.failure_since now);
  failure_notified = true;
  error = some error;
  last_attempt_at = some now;
}

-- After `INSERT OR IGNORE`, with the row that is read.
unfoldable pub block_row : SourceName → Text → ℕ → SourceState → SourceTables → SourceTables
unfolding insert_notice
block_row source error now row db = if is_later row.next_allowed_at now then db else record {
  states = update_where (λ s. same_source s.source source) (blocked error now) db.states;
  notices =
      if row.failure_notified
      then db.notices
      else insert_notice
          (record {
            recovered = false;
            source = source;
            since = some (since_of row.failure_since now);
          })
          db.notices;
}

unfoldable pub record_source_block : SourceName → Text → ℕ → SourceTables → SourceTables
unfolding block_row state_of
record_source_block source error now db = elim (state_of source db.states) [
  | none ↦
      block_row source error now (new_state source)
        (record db { states = db.states ++ new_state source ∷ [] })
  | some row ↦ block_row source error now row db
]

-- From the row that is read on: another worker may have blocked the source since.
unfoldable pub recover_row : SourceName → ℕ → SourceState → SourceTables → SourceTables
unfolding insert_notice
recover_row source now row db = if is_later row.next_allowed_at now then db else record {
  states =
      update_where (λ s. same_source s.source source)
        (λ s. record s {
          block_count = 0;
          next_allowed_at = none;
          failure_since = none;
          failure_notified = false;
          error = none;
          last_success_at = some now;
        })
        db.states;
  notices =
      if row.failure_notified
      then insert_notice (record { recovered = true; source = source; since = row.failure_since })
          db.notices
      else db.notices;
}

unfoldable pub record_source_recovery : SourceName → ℕ → SourceTables → SourceTables
unfolding recover_row state_of
record_source_recovery source now db = elim (state_of source db.states) [
  | none ↦ db
  | some row ↦ recover_row source now row db
]

unfoldable pub record_media_block : SourceName → Text → ℕ → SourceTables → SourceTables
unfolding record_source_block is_global_refusal
record_media_block SourceName.igwatcher error now db =
    record_source_block SourceName.igwatcher_media error now (
      if is_global_refusal error then record_source_block SourceName.igwatcher error now db else db)
record_media_block source error now db = record_source_block source error now db

-- A word that has begun is one of the words.
abbrev pub add_word : Text → List Text → List Text
add_word [] words = words
add_word (c ∷ word) words = (c ∷ word) ∷ words

-- `str.split()`: the words between spaces, after the one that has begun.
unfoldable pub split_from : Text → Text → List Text
split_from word [] = add_word word []
split_from word (c ∷ text) = elim (is_space c) [
  | true ↦ add_word word (split_from [] text)
  | false ↦ split_from (word ++ c ∷ []) text
]

abbrev pub same_text : Text → Text → Bool
same_text [] [] = true
same_text (c ∷ s) (d ∷ t) = (c == d) && same_text s t
same_text _ _ = false

abbrev pub has_word : Text → List Text → Bool
has_word word words = exists_by (λ w. same_text w word) words

-- `{"http_status=403", "phase=api", "signal=http_status"}.issubset(tokens)`
unfoldable pub is_api_only : Text → Bool
unfolding split_from
is_api_only error =
    let tokens = split_from [] error in
    has_word (codes "http_status=403") tokens
    && has_word (codes "phase=api") tokens
    && has_word (codes "signal=http_status") tokens

-- A refusal of the API alone does not hold back downloads.
abbrev pub ambiguous : Option SourceState → Option SourceState
ambiguous none = none
ambiguous (some query) = if is_api_only (text_of query.error) then none else some query

abbrev pub or_query : Option SourceState → Option SourceState → Option SourceState
or_query none query = ambiguous query
or_query (some media) query = some media

unfoldable pub media_cooldown : SourceName → ℕ → SourceTables → Option SourceState
unfolding source_cooldown is_api_only
media_cooldown SourceName.igwatcher now db =
    or_query (source_cooldown SourceName.igwatcher_media now db)
      (source_cooldown SourceName.igwatcher now db)
media_cooldown source now db = source_cooldown source now db
