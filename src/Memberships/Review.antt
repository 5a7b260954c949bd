-- ===== src/Memberships/Review.antt =====
-- What has been recorded of a medium, and its review.
use ig_anonymous_monitor.Base.{
  ℕ, ◌≡◌, refl, ap, ◌∙◌, Bool, true, false, ◌&&◌, some, List, [], ◌∷◌, ◌++◌, ◌==◌, arith, exists_by,
  inl, inr, Bool-cases, eq_self, next_id, exists_by-In, exists_by-find_by, find_by-In,
  find_by-holds, In-update_where, In-append_one,
}
use ig_anonymous_monitor.Cooldown.{SourceName, same_source}
use ig_anonymous_monitor.Media.Tables.{MediaTables, Membership}
use ig_anonymous_monitor.Memberships.{
  Item, is_igwatcher, is_verified, is_unspecified, needs_review, status_of, conflicts,
  observed_again, new_membership, upsert_membership, media_requires_review, record_media_membership,
  canonical_membership_target, record_at,
}
use ig_anonymous_monitor.Memberships.Target.{canonical_membership_target-returns}

-- Of IGWatcher nothing is left unspecified, and what it has not verified needs a review.
igwatcher-pending :
    (item : Item)
    → is_igwatcher item.source ≡ true
    → is_verified item.ownership_status ≡ false
    → (is_unspecified (status_of item) ≡ false) × (is_verified (status_of item) ≡ false)
igwatcher-pending item w v = elim (Bool-cases (is_unspecified item.ownership_status)) [
  | inl e ↦ rw (w, e) (refl, refl)
  | inr e ↦ rw (w, e) (e, v)
]

same_source-igwatcher :
    (a b : SourceName) → same_source a b ≡ true → is_igwatcher b ≡ true → is_igwatcher a ≡ true
same_source-igwatcher SourceName.igwatcher b h w = refl
same_source-igwatcher SourceName.igwatcher_media SourceName.igwatcher h w = absurd (cc)
same_source-igwatcher SourceName.igwatcher_media SourceName.igwatcher_media h w = absurd (cc)
same_source-igwatcher SourceName.igwatcher_media (SourceName.other_name n) h w = absurd (cc)
same_source-igwatcher (SourceName.other_name m) SourceName.igwatcher h w = absurd (cc)
same_source-igwatcher (SourceName.other_name m) SourceName.igwatcher_media h w = absurd (cc)
same_source-igwatcher (SourceName.other_name m) (SourceName.other_name n) h w = absurd (cc)

-- The row is of that medium and needs a review.
abbrev asks_review : ℕ → Membership → Bool
asks_review r m = (m.media_id == r) && needs_review m

asks_review-igwatcher :
    (r : ℕ) (m : Membership)
    → (m.media_id == r) ≡ true
    → is_igwatcher m.source ≡ true
    → is_verified m.ownership_status ≡ false
    → asks_review r m ≡ true
asks_review-igwatcher r m h w v = rw (h, w, v) (ground (arith))

observed_again-asks :
    (account_id r now : ℕ) (item : Item) (m : Membership)
    → is_igwatcher item.source ≡ true
    → is_verified item.ownership_status ≡ false
    → conflicts account_id item m ≡ true
    → asks_review r (observed_again item r now m) ≡ true
observed_again-asks account_id r now item m w v c =
    let (u, v') = igwatcher-pending item w v in
    let kept : is_verified (observed_again item r now m).ownership_status ≡ false = rw u v' in
    let same : same_source m.source item.source ≡ true = ground arith in
    asks_review-igwatcher r (observed_again item r now m) (eq_self r)
      (same_source-igwatcher m.source item.source same w) kept

upsert-asks :
    (account_id r now : ℕ) (item : Item) (rows : List Membership)
    → is_igwatcher item.source ≡ true
    → is_verified item.ownership_status ≡ false
    → exists_by (asks_review r) (upsert_membership account_id item r now rows) ≡ true
upsert-asks account_id r now item rows w v =
    elim (Bool-cases (exists_by (conflicts account_id item) rows)) [
      | inl e ↦
          let (m, found) = exists_by-find_by (conflicts account_id item) rows e in
          let c = find_by-holds (conflicts account_id item) rows found in
          let there =
            In-update_where (conflicts account_id item) (observed_again item r now) rows
              (find_by-In (conflicts account_id item) rows found) c in
          rw e (
            exists_by-In (asks_review r) _ there
              (observed_again-asks account_id r now item m w v c))
      | inr e ↦
          let row =
            new_membership (next_id (λ (m : Membership). m.id) rows) account_id item r now in
          rw e (
            exists_by-In (asks_review r) (rows ++ row ∷ []) (In-append_one rows row)
              (asks_review-igwatcher r row (eq_self r) w (igwatcher-pending item w v).1))
    ]

-- The rows of `media` are left, so the target is the same.
record_at-target :
    (account_id media_id r now : ℕ) (item : Item) (db : MediaTables)
    → canonical_membership_target media_id (record_at (some r) account_id item now db)
      ≡ canonical_membership_target media_id db
unfolding canonical_membership_target
record_at-target account_id media_id r now item db = refl

pub record_media_membership-at :
    (account_id media_id r now : ℕ) (item : Item) (db : MediaTables)
    → canonical_membership_target media_id db ≡ some r
    → record_media_membership account_id item media_id now db
      ≡ record_at (some r) account_id item now db
unfolding record_media_membership
record_media_membership-at account_id media_id r now item db found =
    ap (λ t. record_at t account_id item now db) found

-- When an item of IGWatcher that is not verified has been recorded of a medium, the medium needs a
-- review, whatever was recorded before.
pub record_media_membership-requires_review :
    (account_id media_id now : ℕ) (item : Item) (db : MediaTables)
    → is_igwatcher item.source ≡ true
    → is_verified item.ownership_status ≡ false
    → media_requires_review media_id (record_media_membership account_id item media_id now db)
      ≡ true
unfolding media_requires_review
record_media_membership-requires_review account_id media_id now item db w v =
    let (r, found) = canonical_membership_target-returns media_id db in
    let there = record_at-target account_id media_id r now item db ∙ found in
    rw (record_media_membership-at account_id media_id r now item db found, there)
      (upsert-asks account_id r now item db.media_memberships w v)
