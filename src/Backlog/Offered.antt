-- ===== src/Backlog/Offered.antt =====
-- What `pending_media` gives for all accounts together (ig_monitor/db.py).
use ig_anonymous_monitor.Base.{
  ℕ, zero, suc, ◌+◌, ◌≤◌, ◌≡◌, ◌∙◌, refl, Bool, ◌&&◌, not, some, List, [], ◌∷◌, if◌then◌else◌,
  arith, count_by, select, take, length,
}
use ig_anonymous_monitor.Media.Tables.{Media, MediaTables}
use ig_anonymous_monitor.Cooldown.{SourceName}
use ig_anonymous_monitor.Inspections.{Health}
use ig_anonymous_monitor.Backlog.{is_wanted, is_ineligible, insert_pending, in_order, pending_media}

abbrev pub one_if : Bool → ℕ
one_if b = if b then 1 else 0

take-length : (n : ℕ) (ms : List Media) → length ms ≤ n → length (take n ms) ≡ length ms
take-length zero [] h = refl
take-length (suc n) [] h = refl
take-length zero (m ∷ ms) h = absurd (omega arith)
take-length (suc n) (m ∷ ms) h = omega (arith, take-length n ms (omega arith))

length-insert : (m : Media) (ms : List Media) → length (insert_pending m ms) ≡ length ms + 1
unfolding insert_pending
length-insert m [] = omega arith
length-insert m (n ∷ ms) = ground (arith, length-insert m ms)

length-in_order : (ms : List Media) → length (in_order ms) ≡ length ms
unfolding in_order
length-in_order [] = refl
length-in_order (m ∷ ms) = omega (arith, length-insert m (in_order ms), length-in_order ms)

length-select : (p : Media → Bool) (ms : List Media) → length (select p ms) ≡ count_by p ms
unfolding select count_by
length-select p [] = refl
length-select p (m ∷ ms) = ground (arith, length-select p ms)

count_by-le : (p : Media → Bool) (ms : List Media) → count_by p ms ≤ length ms
unfolding count_by
count_by-le p [] = omega arith
count_by-le p (m ∷ ms) = ground (arith, count_by-le p ms)

module _ (source : SourceName) (now : ℕ) (db : MediaTables) where
  -- As many rows as the table has are no limit.
  length-pending_media :
      (account_id : ℕ)
      → length (pending_media account_id (length db.media) (some source) now db)
        ≡ count_by (is_wanted account_id (some source) now db) db.media
  unfolding pending_media
  length-pending_media account_id =
      let p = is_wanted account_id (some source) now db in
      let same = length-in_order (select p db.media) ∙ length-select p db.media in
      take-length (length db.media) (in_order (select p db.media))
        (omega (arith, count_by-le p db.media))
      ∙ same

  -- How many rows `pending_media` gives for the eligible accounts together, without a limit.
  unfoldable pub offered : List Health → ℕ
  offered [] = 0
  offered (a ∷ accounts) =
      (if is_ineligible source a
        then 0
        else length (pending_media a.id (length db.media) (some source) now db))
      + offered accounts

  abbrev pub is_offered : Health → Media → Bool
  is_offered a m = not (is_ineligible source a) && is_wanted a.id (some source) now db m

  -- To how many accounts the medium is offered.
  unfoldable pub offers : Media → List Health → ℕ
  offers m [] = 0
  offers m (a ∷ accounts) = one_if (is_offered a m) + offers m accounts

  unfoldable pub all_offers : List Health → List Media → ℕ
  all_offers accounts [] = 0
  all_offers accounts (m ∷ ms) = offers m accounts + all_offers accounts ms

  all_offers-nobody : (ms : List Media) → all_offers [] ms ≡ 0
  unfolding all_offers offers
  all_offers-nobody [] = refl
  all_offers-nobody (m ∷ ms) = omega (arith, all_offers-nobody ms)

  all_offers-one :
      (a : Health) (accounts : List Health) (ms : List Media)
      → all_offers (a ∷ accounts) ms
        ≡ (if is_ineligible source a then 0 else count_by (is_wanted a.id (some source) now db) ms)
          + all_offers accounts ms
  unfolding all_offers offers count_by
  all_offers-one a accounts [] = ground arith
  all_offers-one a accounts (m ∷ ms) = ground (arith, all_offers-one a accounts ms)

  pub offered-eq : (accounts : List Health) → offered accounts ≡ all_offers accounts db.media
  unfolding offered
  offered-eq [] = omega (arith, all_offers-nobody db.media)
  offered-eq (a ∷ accounts) =
      ground
        (arith, all_offers-one a accounts db.media, length-pending_media a.id, offered-eq accounts)
