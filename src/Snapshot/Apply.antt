-- ===== src/Snapshot/Apply.antt =====
-- `apply_complete_relationship_run` (ig_monitor/db.py).
pub mod Exact
pub mod Returns
use ig_anonymous_monitor.Base.{
  ℕ, ◌+◌, ◌*◌, ◌-◌, Bool, true, false, ◌&&◌, ◌||◌, Option, none, some, List, [], ◌∷◌, ◌++◌, map,
  ltb, leb, le_opt, ◌==◌, if◌then◌else◌, not, is_some, length, take, select, find_by, exists_by,
  update_where, delete_where,
}
use ig_anonymous_monitor.Store.{
  Text, Database, Account, Direction, RelationshipStatus, RunMember, Member, Membership, HistoryRow,
  HistoryDirection, ChangeKind, EnrichmentReason, EnrichmentJob, Event, EventKey, Payload, Digest,
  same_direction,
}
use ig_anonymous_monitor.Jobs.{has_id, days}
use ig_anonymous_monitor.Collector.{insert_event}
use ig_anonymous_monitor.Snapshot.{is_member, insert_enrichment}
use ig_anonymous_monitor.Snapshot.Maps.{Names, has_key, name_of, sorted_difference}

-- `SELECT instagram_profile_id,username .. WHERE run_id=?`
unfoldable pub staged_names : ℕ → List RunMember → Names
staged_names run_id rows =
    map (λ (r : RunMember). (r.instagram_profile_id, r.username))
      (select (λ r. r.run_id == run_id) rows)

abbrev pub is_in : ℕ → Direction → Membership → Bool
is_in account_id direction m = (m.account_id == account_id) && same_direction m.direction direction

-- The active memberships of an account in one direction.
unfoldable pub active_names : ℕ → Direction → List Membership → Names
active_names account_id direction rows =
    map (λ (m : Membership). (m.instagram_profile_id, m.username))
      (select (λ m. is_in account_id direction m && m.active) rows)

abbrev pub is_row : ℕ → Direction → ℕ → Membership → Bool
is_row account_id direction profile_id m =
    is_in account_id direction m && (m.instagram_profile_id == profile_id)

-- The join of followers and following, both active, with the name of the followers' row.
unfoldable pub mutual_names : ℕ → List Membership → Names
mutual_names account_id rows =
    map (λ (m : Membership). (m.instagram_profile_id, m.username))
      (select
        (λ f.
          is_in account_id Direction.followers_direction f
          && f.active
          && exists_by
              (λ g.
                is_row account_id Direction.following_direction f.instagram_profile_id g
                && g.active)
              rows)
        rows)

-- `INSERT .. ON CONFLICT(account_id,direction,instagram_profile_id) DO UPDATE`
unfoldable pub upsert_membership : ℕ → Direction → ℕ → ℕ → Text → List Membership → List Membership
upsert_membership account_id direction observed_at profile_id username rows =
    if exists_by (is_row account_id direction profile_id) rows
    then update_where (is_row account_id direction profile_id)
        (λ m. record m {
          username = username;
          last_seen_at = observed_at;
          active = true;
          removed_at = none;
        })
        rows
    else rows
      ++ record {
        account_id = account_id;
        direction = direction;
        instagram_profile_id = profile_id;
        username = username;
        first_seen_at = observed_at;
        last_seen_at = observed_at;
        active = true;
        removed_at = none;
      }
        ∷ []

unfoldable pub upsert_all : ℕ → Direction → ℕ → Names → List Membership → List Membership
upsert_all account_id direction observed_at [] rows = rows
upsert_all account_id direction observed_at ((profile_id, username) ∷ staged) rows =
    upsert_all account_id direction observed_at staged
      (upsert_membership account_id direction observed_at profile_id username rows)

unfoldable pub remove_all : ℕ → Direction → ℕ → List ℕ → List Membership → List Membership
remove_all account_id direction observed_at [] rows = rows
remove_all account_id direction observed_at (profile_id ∷ left) rows =
    remove_all account_id direction observed_at left (
      update_where (is_row account_id direction profile_id)
        (λ m. record m {
          active = false;
          removed_at = some observed_at;
          last_seen_at = observed_at;
        })
        rows)

-- One row of history for each identifier.
unfoldable pub history_rows :
    ℕ → HistoryDirection → Bool → ℕ → ℕ → ChangeKind → List ℕ → Names → List HistoryRow
history_rows account_id direction interval_change observed_at run_id kind identifiers names =
    map
      (λ profile_id. record {
        account_id = account_id;
        direction = direction;
        change_kind = kind;
        instagram_profile_id = profile_id;
        username = name_of names profile_id;
        interval_change = interval_change;
        observed_at = observed_at;
        run_id = some run_id;
      })
      identifiers

-- `not profile_observed_at or profile_observed_at <= stale_cutoff`; the addition stands for the
-- subtraction from `observed_at`.
abbrev pub is_stale : ℕ → ℕ → Option ℕ → Bool
is_stale observed_at stale_days none = true
is_stale observed_at stale_days (some seen) = leb (seen + days stale_days) observed_at

-- The loop over `joined`; `none` is the TypeError of a member that has no row.
unfoldable pub enrich_joined :
    ℕ → ℕ → List Member → List ℕ → List EnrichmentJob → Option (List EnrichmentJob)
enrich_joined observed_at stale_days members [] jobs = some jobs
enrich_joined observed_at stale_days members (profile_id ∷ joined) jobs =
    elim (find_by (is_member profile_id) members) [
      | none ↦ none
      | some m ↦ enrich_joined observed_at stale_days members joined (
          if is_stale observed_at stale_days m.profile_observed_at
          then insert_enrichment profile_id EnrichmentReason.new_member observed_at observed_at jobs
          else jobs)
    ]

abbrev pub baseline_of : Direction → Account → Option ℕ
baseline_of Direction.followers_direction a = a.followers_baseline_at
baseline_of Direction.following_direction a = a.following_baseline_at

abbrev pub opposite : Direction → Direction
opposite Direction.followers_direction = Direction.following_direction
opposite Direction.following_direction = Direction.followers_direction

abbrev pub set_baseline : Direction → ℕ → Account → Account
set_baseline Direction.followers_direction t a = record a { followers_baseline_at = some t }
set_baseline Direction.following_direction t a = record a { following_baseline_at = some t }

abbrev pub status_after : RelationshipStatus → Option ℕ → RelationshipStatus
status_after RelationshipStatus.scope_exceeded frozen_at = RelationshipStatus.scope_exceeded
status_after s none = RelationshipStatus.complete
status_after s (some t) = RelationshipStatus.frozen

abbrev pub mark_account : Direction → ℕ → Account → Account
mark_account direction observed_at a = record (set_baseline direction observed_at a) {
  relationship_status = status_after a.relationship_status a.relationship_frozen_at;
  relationship_reconciled_at = some observed_at;
}

-- What the transaction reads before it writes, and the differences.
pub record Observation : Type 0 where
  pub account : Account
  pub staged : Names
  pub existing : Names
  pub existing_mutual : Names
  pub joined : List ℕ
  pub left : List ℕ
  pub has_baseline : Bool
  pub has_opposite : Bool
  pub interval_change : Bool

unfoldable pub observe : ℕ → Account → Direction → Database → Observation
observe run_id account direction db =
    let staged = staged_names run_id db.run_members in
    let existing = active_names account.id direction db.memberships in
    record {
      account = account;
      staged = staged;
      existing = existing;
      existing_mutual = mutual_names account.id db.memberships;
      joined = sorted_difference staged existing;
      left = sorted_difference existing staged;
      has_baseline = is_some (baseline_of direction account);
      has_opposite = is_some (baseline_of (opposite direction) account);
      interval_change = is_some account.relationship_frozen_at;
    }

-- The memberships that the transaction writes.
unfoldable pub apply_memberships : Direction → ℕ → Observation → List Membership → List Membership
unfolding upsert_all remove_all upsert_membership
apply_memberships direction observed_at o rows =
    remove_all o.account.id direction observed_at o.left
      (upsert_all o.account.id direction observed_at o.staged rows)

-- The history that the transaction adds: none of a first baseline.
unfoldable pub new_history : ℕ → Direction → ℕ → Observation → Names → List HistoryRow
unfolding history_rows
new_history run_id direction observed_at o new_mutual =
    let rows = λ (d : HistoryDirection) (kind : ChangeKind) (ids : List ℕ) (names : Names).
      history_rows o.account.id d o.interval_change observed_at run_id kind ids names in
    (if o.has_baseline
      then rows (HistoryDirection.of_direction direction) ChangeKind.joined o.joined o.staged
        ++ rows (HistoryDirection.of_direction direction) ChangeKind.left o.left o.existing
      else [])
    ++ (if o.has_baseline && o.has_opposite
        then rows HistoryDirection.mutual_follow ChangeKind.joined
            (sorted_difference new_mutual o.existing_mutual) new_mutual
          ++ rows HistoryDirection.mutual_follow ChangeKind.left
              (sorted_difference o.existing_mutual new_mutual) o.existing_mutual
        else [])

abbrev pub first_names : List ℕ → Names → List Text
first_names ids names = map (name_of names) (take 20 ids)

unfoldable pub digest_of : Direction → Observation → Names → Digest
digest_of direction o new_mutual =
    let mutual_joined = sorted_difference new_mutual o.existing_mutual in
    let mutual_left = sorted_difference o.existing_mutual new_mutual in
    record {
      label = o.account.label;
      direction = direction;
      baseline = not o.has_baseline;
      total = length o.staged;
      joined = first_names o.joined o.staged;
      left = first_names o.left o.existing;
      joined_count = if o.has_baseline then length o.joined else 0;
      left_count = if o.has_baseline then length o.left else 0;
      mutual_available = o.has_opposite;
      mutual_joined = first_names mutual_joined new_mutual;
      mutual_left = first_names mutual_left o.existing_mutual;
      mutual_joined_count = if o.has_baseline && o.has_opposite then length mutual_joined else 0;
      mutual_left_count = if o.has_baseline && o.has_opposite then length mutual_left else 0;
      private_interval = o.interval_change;
      private_interval_started_at = o.account.relationship_frozen_at;
    }

unfoldable pub write_run :
    ℕ → Direction → ℕ → Observation → List EnrichmentJob → Database → Database
unfolding apply_memberships new_history digest_of
write_run run_id direction observed_at o enrichment_jobs db =
    let memberships = apply_memberships direction observed_at o db.memberships in
    let new_mutual = mutual_names o.account.id memberships in
    record db {
      memberships = memberships;
      history = db.history ++ new_history run_id direction observed_at o new_mutual;
      enrichment_jobs = enrichment_jobs;
      events =
          insert_event
            (record {
              key = EventKey.relationship_key run_id;
              account_id = some o.account.id;
              payload = Payload.digest (digest_of direction o new_mutual);
              created_at = observed_at;
            })
            db.events;
      accounts =
          update_where (has_id o.account.id) (mark_account direction observed_at) db.accounts;
      run_members = delete_where (λ r. r.run_id == run_id) db.run_members;
    }

-- `none` is an exception, which undoes the transaction.
unfoldable pub apply_complete_relationship_run :
    ℕ → ℕ → Direction → ℕ → ℕ → Database → Option Database
unfolding observe write_run enrich_joined
apply_complete_relationship_run run_id account_id direction observed_at stale_days db =
    elim (find_by (has_id account_id) db.accounts) [
      | none ↦ none
      | some account ↦
          let o = observe run_id account direction db in
          elim (enrich_joined observed_at stale_days db.members o.joined db.enrichment_jobs) [
            | none ↦ none
            | some enrichment_jobs ↦
                some (write_run run_id direction observed_at o enrichment_jobs db)
          ]
    ]
