-- ===== src/Media/Flat.antt =====
-- Duplicates and the copies that they are duplicates of.
use ig_anonymous_monitor.Base.{
  ℕ, ◌≡◌, refl, inl, inr, Bool, true, false, ◌&&◌, ◌||◌, some, List, [], ◌∷◌, arith, ◌==◌, ==→eq,
  if◌then◌else◌, Bool-cases, All, update_where, exists_by, eq_self, ◌++◌, delete_where, ◌∙◌, ap,
  subst, select,
}
use ig_anonymous_monitor.Media.{
  to_duplicate_of, promote_media, promote_canonical, copy_sources, move_sources, move_memberships,
}
use ig_anonymous_monitor.Media.Tables.{Media, MediaTables, Membership, same_option}

-- No row is a duplicate of `id`.
abbrev pub IsLeft : ℕ → List Media → Type 0
IsLeft id = All (λ (m : Media). same_option m.duplicate_of_id id ≡ false)

promoted-left :
    (new_id old_id : ℕ) (m : Media)
    → (new_id == old_id) ≡ false
    → let followed =
        if same_option m.duplicate_of_id old_id
        then record m { duplicate_of_id = some new_id }
        else m in
      same_option
        (if followed.id == old_id
          then to_duplicate_of new_id followed
          else followed).duplicate_of_id
        old_id
      ≡ false
promoted-left new_id old_id m other = elim (Bool-cases (same_option m.duplicate_of_id old_id)) [
  | inl e ↦ elim (Bool-cases (m.id == old_id)) [ inl f ↦ rw (e, f) other | inr f ↦ rw (e, f) other ]
  | inr e ↦ elim (Bool-cases (m.id == old_id)) [ inl f ↦ rw (e, f) other | inr f ↦ rw (e, f) e ]
]

promote_media-IsLeft :
    (new_id old_id : ℕ) (media : List Media)
    → (new_id == old_id) ≡ false
    → IsLeft old_id (promote_media new_id old_id media)
unfolding promote_media update_where
promote_media-IsLeft new_id old_id [] other = tt
promote_media-IsLeft new_id old_id (m ∷ media) other =
    (promoted-left new_id old_id m other, promote_media-IsLeft new_id old_id media other)

-- The medium has the category.
unfoldable pub has_category : ℕ → ℕ → List (ℕ × ℕ) → Bool
has_category id category = exists_by (λ s. (s.0 == id) && (s.1 == category))

append-has_category :
    (id c category : ℕ) (sources : List (ℕ × ℕ))
    → has_category id c (sources ++ (id, category) ∷ [])
      ≡ has_category id c sources || (category == c)
unfolding has_category exists_by
append-has_category id c category [] = ground (arith, eq_self id)
append-has_category id c category (s ∷ sources) =
    ground (arith, append-has_category id c category sources)

copy_one-has_category :
    (id c category : ℕ) (sources : List (ℕ × ℕ))
    → has_category id c
        (if has_category id category sources then sources else sources ++ (id, category) ∷ [])
      ≡ has_category id c sources || (category == c)
copy_one-has_category id c category sources = elim (Bool-cases (has_category id category sources)) [
  | inl e ↦ elim (Bool-cases (category == c)) [
    | inl same ↦
        let there = subst (λ z. has_category id z sources ≡ true) (==→eq category c same) e in
        rw (e, there) refl
    | inr other ↦ rw (e, other) (ground (arith))
  ]
  | inr e ↦ rw e (append-has_category id c category sources)
]

copy_sources-has_category :
    (new_id c : ℕ) (rows sources : List (ℕ × ℕ))
    → has_category new_id c (copy_sources new_id rows sources)
      ≡ has_category new_id c sources || exists_by (λ s. s.1 == c) rows
unfolding has_category copy_sources exists_by
copy_sources-has_category new_id c [] sources = ground arith
copy_sources-has_category new_id c ((id, category) ∷ rows) sources =
    let with_one =
      if has_category new_id category sources
      then sources
      else sources ++ (new_id, category) ∷ [] in
    ground (
      arith,
      copy_sources-has_category new_id c rows with_one,
      copy_one-has_category new_id c category sources,
    )

-- What is taken away from another medium does not count.
delete_where-has_category :
    (new_id old_id c : ℕ) (sources : List (ℕ × ℕ))
    → (new_id == old_id) ≡ false
    → has_category new_id c (delete_where (λ s. s.0 == old_id) sources)
      ≡ has_category new_id c sources
unfolding has_category exists_by delete_where
delete_where-has_category new_id old_id c [] other = refl
delete_where-has_category new_id old_id c ((id, category) ∷ sources) other =
    let ih = delete_where-has_category new_id old_id c sources other in
    elim (Bool-cases (id == old_id)) [
      | inl e ↦ let no : (id == new_id) ≡ false = ground arith in rw (e, no) ih
      | inr e ↦ rw e (ground (arith, ih))
    ]

select-has_category :
    (old_id c : ℕ) (sources : List (ℕ × ℕ))
    → exists_by (λ (s : ℕ × ℕ). s.1 == c) (select (λ (s : ℕ × ℕ). s.0 == old_id) sources)
      ≡ has_category old_id c sources
unfolding has_category exists_by select
select-has_category old_id c [] = refl
select-has_category old_id c (s ∷ sources) = ground (arith, select-has_category old_id c sources)

delete_where-none :
    (id : ℕ) (sources : List (ℕ × ℕ))
    → exists_by (λ (s : ℕ × ℕ). s.0 == id) (delete_where (λ (s : ℕ × ℕ). s.0 == id) sources) ≡ false
unfolding exists_by delete_where
delete_where-none id [] = refl
delete_where-none id (s ∷ sources) = ground (arith, delete_where-none id sources)

move_memberships-none :
    (new_id old_id : ℕ) (rows : List Membership)
    → (new_id == old_id) ≡ false
    → exists_by (λ m. m.media_id == old_id) (move_memberships new_id old_id rows) ≡ false
unfolding exists_by update_where
move_memberships-none new_id old_id [] other = refl
move_memberships-none new_id old_id (m ∷ rows) other =
    ground (arith, other, move_memberships-none new_id old_id rows other)

-- Nothing points to `old_id` any more, and its categories are `new_id`'s, besides those that it had.
pub record Replaces (new_id old_id : ℕ) (before after : MediaTables) : Type 0 where
  pub no_duplicates : IsLeft old_id after.media
  pub no_sources : exists_by (λ (s : ℕ × ℕ). s.0 == old_id) after.media_sources ≡ false
  pub no_memberships : exists_by (λ m. m.media_id == old_id) after.media_memberships ≡ false
  pub categories :
      (c : ℕ)
      → has_category new_id c after.media_sources
        ≡ has_category new_id c before.media_sources || has_category old_id c before.media_sources

-- Promoting another medium leaves nothing that points to the old one (no duplicate, no source, no
-- membership), and the new one has exactly its own categories and the old one's.
pub promote_canonical-Replaces :
    (new_id old_id : ℕ) (db : MediaTables)
    → (new_id == old_id) ≡ false
    → Replaces new_id old_id db (promote_canonical new_id old_id db).1
unfolding promote_canonical move_sources
promote_canonical-Replaces new_id old_id db other =
    let own = select (λ (s : ℕ × ℕ). s.0 == old_id) db.media_sources in
    record {
      no_duplicates = promote_media-IsLeft new_id old_id db.media other;
      no_sources = delete_where-none old_id (copy_sources new_id own db.media_sources);
      no_memberships = move_memberships-none new_id old_id db.media_memberships other;
      categories = λ c.
          delete_where-has_category new_id old_id c (copy_sources new_id own db.media_sources) other
          ∙ (copy_sources-has_category new_id c own db.media_sources
              ∙ ap (λ b. has_category new_id c db.media_sources || b)
                  (select-has_category old_id c db.media_sources));
    }
