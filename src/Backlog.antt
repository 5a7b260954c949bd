-- ===== src/Backlog.antt =====
-- The media that wait for a download: `pending_media` and `media_backlog` (ig_monitor/db.py).
pub mod Offered
pub mod Agrees
use ig_anonymous_monitor.Base.{
  ℕ, ◌+◌, Bool, true, false, ◌&&◌, ◌||◌, not, Option, none, some, List, [], ◌∷◌, ltb, leb, ◌==◌,
  if◌then◌else◌, max, take, select, find_by, exists_by, is_some,
}
use ig_anonymous_monitor.Store.{PrivacyState, ProfileSnapshot}
use ig_anonymous_monitor.Media.Tables.{Media, MediaStatus, MediaTables}
use ig_anonymous_monitor.Memberships.{legacy}
use ig_anonymous_monitor.Cooldown.{
  SourceName, SourceState, SourceTables, same_source, is_later, media_cooldown,
}
use ig_anonymous_monitor.Inspections.{Health}

-- `status IN ('pending','failed')`
abbrev pub is_waiting_status : MediaStatus → Bool
is_waiting_status MediaStatus.pending = true
is_waiting_status MediaStatus.failed = true
is_waiting_status _ = false

-- The condition on the source in `pending_media`: media with no membership are of `legacy`.
unfoldable pub is_asked_for : SourceName → Media → MediaTables → Bool
is_asked_for source m db =
    exists_by (λ mm. (mm.media_id == m.id) && same_source mm.source source) db.media_memberships
    || (same_source source legacy
        && not (exists_by (λ mm. mm.media_id == m.id) db.media_memberships))

-- The column `selected` of `media_backlog`.
unfoldable pub selected : SourceName → Media → MediaTables → Bool
selected source m db =
    exists_by (λ mm. (mm.media_id == m.id) && same_source mm.source source) db.media_memberships
    || (same_source source legacy
        && not (exists_by (λ mm. mm.media_id == m.id) db.media_memberships))

-- `next_retry_at IS NULL OR next_retry_at <= now`
abbrev pub is_due : ℕ → Media → Bool
is_due now m = not (is_later m.next_retry_at now)

-- `? IS NULL OR ..`
abbrev pub of_source : Option SourceName → Media → MediaTables → Bool
of_source none m db = true
of_source (some source) m db = is_asked_for source m db

unfoldable pub is_wanted : ℕ → Option SourceName → ℕ → MediaTables → Media → Bool
unfolding is_asked_for
is_wanted account_id source now db m =
    (m.account_id == account_id)
    && is_waiting_status m.status
    && is_due now m
    && of_source source m db

-- `CASE WHEN last_attempt_at IS NULL THEN 0 ELSE 1 END,last_attempt_at`: is it before, and is it
-- the same?
abbrev pub null_first : Option ℕ → Option ℕ → Bool
null_first none none = false
null_first none (some t) = true
null_first (some s) none = false
null_first (some s) (some t) = ltb s t

-- `CASE WHEN published_at IS NULL THEN 1 ELSE 0 END,published_at DESC`
abbrev pub later_first : Option ℕ → Option ℕ → Bool
later_first none t = false
later_first (some s) none = true
later_first (some s) (some t) = ltb t s

unfoldable pub precedes : Media → Media → Bool
precedes a b =
    null_first a.last_attempt_at b.last_attempt_at
    || (not (null_first b.last_attempt_at a.last_attempt_at)
        && (later_first a.published_at b.published_at
            || (not (later_first b.published_at a.published_at) && ltb b.id a.id)))

unfoldable pub insert_pending : Media → List Media → List Media
unfolding precedes
insert_pending m [] = m ∷ []
insert_pending m (n ∷ rows) =
    let rest = insert_pending m rows in if precedes n m then n ∷ rest else m ∷ n ∷ rows

unfoldable pub in_order : List Media → List Media
unfolding insert_pending
in_order [] = []
in_order (m ∷ rows) = insert_pending m (in_order rows)

unfoldable pub pending_media : ℕ → ℕ → Option SourceName → ℕ → MediaTables → List Media
unfolding in_order is_wanted
pending_media account_id limit source now db =
    take limit (in_order (select (is_wanted account_id source now db) db.media))

pub data Reason : Type 0 where
  other_source ineligible paused retry_wait source_wait ready : Reason

abbrev pub is_public : Option ProfileSnapshot → Bool
is_public none = false
is_public (some s) = elim s.privacy [ PrivacyState.public ↦ true | _ ↦ false ]

abbrev pub is_ineligible : SourceName → Health → Bool
is_ineligible source a =
    not a.enabled
    || (not (same_source source SourceName.igwatcher) && not (a.fail_count == 0))
    || not (is_public a.snapshot)

unfoldable pub reason_of :
    SourceName → Bool → ℕ → Option SourceState → Health → Media → MediaTables → Reason
unfolding selected
reason_of source enabled now cooldown a m db =
    if not (selected source m db)
    then Reason.other_source
    else if is_ineligible source a
    then Reason.ineligible
    else if not enabled
    then Reason.paused
    else if is_later m.next_retry_at now
    then Reason.retry_wait
    else if is_some cooldown
    then Reason.source_wait
    else Reason.ready

pub record Backlog : Type 0 where
  pub total : ℕ
  pub ready : ℕ
  pub retry_wait : ℕ
  pub source_wait : ℕ
  pub other_source : ℕ
  pub ineligible : ℕ
  pub paused : ℕ

abbrev pub empty_backlog : Backlog
empty_backlog = record {
  total = 0;
  ready = 0;
  retry_wait = 0;
  source_wait = 0;
  other_source = 0;
  ineligible = 0;
  paused = 0;
}

-- `result['total'] += 1` and `result[reason] += 1`
abbrev pub count_reason : Reason → Backlog → Backlog
count_reason Reason.other_source b = record b {
  total = b.total + 1;
  other_source = b.other_source + 1;
}
count_reason Reason.ineligible b = record b { total = b.total + 1; ineligible = b.ineligible + 1 }
count_reason Reason.paused b = record b { total = b.total + 1; paused = b.paused + 1 }
count_reason Reason.retry_wait b = record b { total = b.total + 1; retry_wait = b.retry_wait + 1 }
count_reason Reason.source_wait b = record b {
  total = b.total + 1;
  source_wait = b.source_wait + 1;
}
count_reason Reason.ready b = record b { total = b.total + 1; ready = b.ready + 1 }

-- The JOIN leaves out a medium whose account is not there.
abbrev pub count_row :
    SourceName
    → Bool
    → ℕ
    → Option SourceState
    → Option Health
    → Media
    → MediaTables
    → Backlog
    → Backlog
count_row source enabled now cooldown none m db b = b
count_row source enabled now cooldown (some a) m db b =
    count_reason (reason_of source enabled now cooldown a m db) b

unfoldable pub count_rows :
    SourceName
    → Bool
    → ℕ
    → Option SourceState
    → List Health
    → List Media
    → MediaTables
    → Backlog
    → Backlog
unfolding reason_of
count_rows source enabled now cooldown accounts [] db b = b
count_rows source enabled now cooldown accounts (m ∷ rows) db b =
    count_rows source enabled now cooldown accounts rows db
      (count_row source enabled now cooldown (find_by (λ a. a.id == m.account_id) accounts) m db b)

abbrev pub cooldown_until : Option SourceState → Option ℕ
cooldown_until none = none
cooldown_until (some s) = s.next_allowed_at

-- `MAX(downloaded_at)`
unfoldable pub last_download : List Media → Option ℕ
last_download [] = none
last_download (m ∷ rows) = elim (last_download rows) [
  | none ↦ m.downloaded_at
  | some t ↦ elim m.downloaded_at [ none ↦ some t | some s ↦ some (max s t) ]
]

-- The counts, `source_cooldown_until` and `last_download_at`.
unfoldable pub media_backlog :
    SourceName → Bool → ℕ → List Health → SourceTables → MediaTables → Backlog × Option ℕ × Option ℕ
unfolding count_rows last_download media_cooldown
media_backlog source enabled now accounts sources db =
    let cooldown = media_cooldown source now sources in
    (
      count_rows source enabled now cooldown accounts
          (select (λ m. is_waiting_status m.status) db.media) db empty_backlog,
      cooldown_until cooldown,
      last_download db.media,
    )
