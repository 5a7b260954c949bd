-- ===== src/Retention/Blocked.antt =====
-- A retention pass that fails.
use ig_anonymous_monitor.Base.{
  ℕ, ◌≡◌, true, false, ◌&&◌, not, none, arith, ◌==◌, exists_by, delete_where, In, exists_by-In,
  In-delete_where, exists_by-delete_where,
}
use ig_anonymous_monitor.Store.{Database, Member, Membership}
use ig_anonymous_monitor.Jobs.{days}
use ig_anonymous_monitor.Snapshot.{is_open_enrichment_of}
use ig_anonymous_monitor.Retention.{
  is_before, is_before_opt, is_closed_enrichment, is_forgotten, is_referenced, prune_rows,
  delete_members, prune_relationship_data,
}

blocked-is_forgotten :
    (now : ℕ) (db : Database) (m : Member)
    → is_before now (days 365) m.updated_at ≡ true
    → exists_by (λ b. (b.instagram_profile_id == m.instagram_profile_id) && b.active) db.memberships
      ≡ false
    → exists_by (is_open_enrichment_of m.instagram_profile_id) db.enrichment_jobs ≡ false
    → is_forgotten now (prune_rows now db) m ≡ true
unfolding is_forgotten prune_rows
blocked-is_forgotten now db m old inactive closed = ground (
  arith,
  exists_by-delete_where (λ b. (b.instagram_profile_id == m.instagram_profile_id) && b.active)
      (λ b. not b.active && is_before_opt now (days 365) b.removed_at) db.memberships inactive,
  exists_by-delete_where (is_open_enrichment_of m.instagram_profile_id)
      (λ j. is_closed_enrichment j.status && is_before now (days 365) j.updated_at)
      db.enrichment_jobs closed,
)

recent-is_referenced :
    (now : ℕ) (db : Database) (a : Membership) (id : ℕ)
    → In a db.memberships
    → a.instagram_profile_id ≡ id
    → is_before_opt now (days 365) a.removed_at ≡ false
    → is_referenced (prune_rows now db) id ≡ true
unfolding is_referenced prune_rows
recent-is_referenced now db a id membership same recent =
    let p = λ (b : Membership). not b.active && is_before_opt now (days 365) b.removed_at in
    let kept = In-delete_where p db.memberships membership (ground arith) in
    rw (
      exists_by-In (λ b. b.instagram_profile_id == id) (delete_where p db.memberships) kept
        (ground arith))

-- A pass fails if it meets a member whose own row is more than 365 days old, who has no active
-- membership and no open enrichment job, and who left some list within the last 365 days: that
-- membership is kept, so the DELETE of the member breaks its foreign key, and the whole pass with it.
pub prune_relationship_data-blocked :
    (now : ℕ) (db : Database) (m : Member) (a : Membership)
    → In m db.members
    → In a db.memberships
    → a.instagram_profile_id ≡ m.instagram_profile_id
    → is_before now (days 365) m.updated_at ≡ true
    → is_before_opt now (days 365) a.removed_at ≡ false
    → exists_by (λ b. (b.instagram_profile_id == m.instagram_profile_id) && b.active) db.memberships
      ≡ false
    → exists_by (is_open_enrichment_of m.instagram_profile_id) db.enrichment_jobs ≡ false
    → prune_relationship_data now db ≡ none
unfolding prune_relationship_data delete_members prune_rows
prune_relationship_data-blocked now db m a member membership same old recent inactive closed =
    let after = prune_rows now db in
    rw (
      exists_by-In (λ x. is_forgotten now after x && is_referenced after x.instagram_profile_id)
        db.members member
        (ground (
          arith,
          blocked-is_forgotten now db m old inactive closed,
          recent-is_referenced now db a m.instagram_profile_id membership same recent,
        )))
