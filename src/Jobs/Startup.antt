-- ===== src/Jobs/Startup.antt =====
-- What the opening of the database and the synchronisation of the accounts write to the queue of
-- relationship jobs: `_discard_duplicate_private_avatar_placeholders` and the statement of
-- `sync_accounts` on it (ig_monitor/db.py).
use ig_anonymous_monitor.Base.{
  ℕ, Bool, true, false, ◌&&◌, not, none, some, List, [], ◌∷◌, ◌++◌, ltb, ◌==◌, if◌then◌else◌, map,
  select, count_by, exists_by, update_where, next_id,
}
use ig_anonymous_monitor.Store.{
  Text, Database, Account, Job, JobReason, Member, Membership, PrivacyState, is_open,
}
use ig_anonymous_monitor.Cooldown.{same_text}
use ig_anonymous_monitor.Jobs.{cancel, is_open_of, new_job}

-- `id IN (SELECT id FROM accounts WHERE enabled=0 OR relationship_tracking=0)`
unfoldable pub is_untracked : List Account → ℕ → Bool
is_untracked accounts account_id =
    exists_by (λ a. (a.id == account_id) && not (a.enabled && a.relationship_tracking)) accounts

-- `db` has the accounts as `sync_accounts` has written them.
unfoldable pub cancel_untracked_jobs : ℕ → Database → Database
cancel_untracked_jobs now db = record db {
  jobs =
      update_where (λ j. is_open j.status && is_untracked db.accounts j.account_id) (cancel now)
        db.jobs;
}

abbrev pub has_hash : Text → Member → Bool
has_hash hash m = elim m.avatar_sha256 [ none ↦ false | some h ↦ same_text h hash ]

abbrev pub is_private : Member → Bool
is_private m = elim m.privacy [ some PrivacyState.private ↦ true | _ ↦ false ]

-- The avatar's hash is one of the `duplicate_hashes`.
unfoldable pub has_duplicate_hash : List Member → Member → Bool
has_duplicate_hash members m = elim m.avatar_sha256 [
  | none ↦ false
  | some hash ↦ ltb 1 (count_by (λ x. is_private x && has_hash hash x) members)
]

-- The `account_ids`; one that stands twice is ignored the second time.
unfoldable pub accounts_of_duplicates : List Member → List Membership → List ℕ
unfolding has_duplicate_hash
accounts_of_duplicates members memberships =
    map (λ r. r.account_id)
      (select
        (λ r.
          r.active
          && exists_by
              (λ m.
                (m.instagram_profile_id == r.instagram_profile_id) && has_duplicate_hash members m)
              members)
        memberships)

-- The loop of `INSERT OR IGNORE`.
unfoldable pub refresh_avatar_sources : ℕ → List ℕ → List Job → List Job
refresh_avatar_sources now [] jobs = jobs
refresh_avatar_sources now (account_id ∷ account_ids) jobs =
    refresh_avatar_sources now account_ids (
      if exists_by (is_open_of account_id) jobs
      then jobs
      else jobs
        ++ new_job now (next_id (λ (j : Job). j.id) jobs) account_id true true
            JobReason.avatar_source_refresh now
          ∷ [])

abbrev pub forget_avatar : Member → Member
forget_avatar m = record m { avatar_sha256 = none; avatar_path = none }

-- With the marker in `meta`: is it there, before and after?
unfoldable pub discard_duplicate_private_avatar_placeholders : ℕ → Bool → Database → Bool × Database
unfolding accounts_of_duplicates refresh_avatar_sources
discard_duplicate_private_avatar_placeholders now true db = (true, db)
discard_duplicate_private_avatar_placeholders now false db = (
  true,
  record db {
    members = update_where (has_duplicate_hash db.members) forget_avatar db.members;
    jobs = refresh_avatar_sources now (accounts_of_duplicates db.members db.memberships) db.jobs;
  },
)
