-- ===== src/Memberships/Target.antt =====
-- From a duplicate to the medium that it stands for.
use ig_anonymous_monitor.Base.{
  ℕ, zero, suc, ◌+◌, ◌≤◌, ◌<◌, ◌≡◌, refl, sym, ap, ◌∙◌, Bool, true, false, not, Option, none, some,
  List, [], ◌∷◌, length, ◌==◌, arith, All, All-imp, find_by, exists_by, count_by, In, inl, inr,
  Bool-cases, Option-cases, find_by-In, find_by-holds, eq_self, ==→eq, subst,
}
use mathlib.Core.Option.{some-injective}
use ig_anonymous_monitor.Media.Tables.{Media, MediaTables}
use ig_anonymous_monitor.Memberships.{pointer, follow, canonical_membership_target}

abbrev seen_before : List ℕ → ℕ → Bool
seen_before seen id = exists_by (λ s. s == id) seen

-- The rows that the loop has not been at.
unseen : List ℕ → List Media → ℕ
unseen seen = count_by (λ m. not (seen_before seen m.id))

unseen-le-length : (seen : List ℕ) (media : List Media) → unseen seen media ≤ length media
unfolding unseen count_by
unseen-le-length seen [] = omega arith
unseen-le-length seen (m ∷ media) = ground (arith, unseen-le-length seen media)

unseen-le :
    (id : ℕ) (seen : List ℕ) (media : List Media) → unseen (id ∷ seen) media ≤ unseen seen media
unfolding unseen count_by exists_by
unseen-le id seen [] = omega arith
unseen-le id seen (m ∷ media) = ground (arith, unseen-le id seen media)

unseen-lt :
    (id : ℕ) (seen : List ℕ) (media : List Media) (row : Media)
    → In row media
    → (row.id == id) ≡ true
    → seen_before seen id ≡ false
    → unseen (id ∷ seen) media < unseen seen media
unfolding unseen count_by exists_by
unseen-lt id seen [] row m h new = elim m [ ]
unseen-lt id seen (x ∷ media) row (inl e) h new =
    let same : x.id ≡ id = sym (ap (λ m. m.id) e) ∙ ==→eq row.id id h in
    let fresh : seen_before seen x.id ≡ false =
      subst (λ z. seen_before seen z ≡ false) (sym same) new in
    let hit : (id == x.id) ≡ true = subst (λ z. (id == z) ≡ true) (sym same) (eq_self id) in
    rw (hit, fresh) (omega (arith, unseen-le id seen media))
unseen-lt id seen (x ∷ media) row (inr m) h new =
    ground (arith, unseen-lt id seen media row m h new)

pointer-row :
    (id next : ℕ) (media : List Media)
    → pointer id media ≡ some next
    → (row : Media) × In row media × ((row.id == id) ≡ true)
unfolding pointer
pointer-row id next media e = elim (Option-cases (find_by (λ m. m.id == id) media)) [
  | inl missing ↦ (let stuck : ◌≡◌ {A = Option ℕ} none (some next) = rw missing at e in absurd (cc))
  | inr (row, found) ↦ (row, find_by-In _ media found, find_by-holds _ media found)
]

-- With fuel for the rows that are left, the loop ends.
follow-returns :
    (fuel : ℕ) (seen : List ℕ) (id : ℕ) (media : List Media)
    → unseen seen media < fuel
    → (r : ℕ) × (follow fuel seen id media ≡ some r)
unfolding follow
follow-returns zero seen id media h = absurd (omega arith)
follow-returns (suc fuel) seen id media h = elim (Bool-cases (exists_by (λ s. s == id) seen)) [
  | inl e ↦ (id, rw (e, follow) refl)
  | inr e ↦ elim (Option-cases (pointer id media)) [
    | inl end ↦ (id, rw (e, end, follow) refl)
    | inr (next, p) ↦
        let (row, m, same) = pointer-row id next media p in
        let (r, done) =
          follow-returns fuel (id ∷ seen) next media
            (omega (arith, unseen-lt id seen media row m same e)) in
        (r, rw (e, p, follow) done)
  ]
]

-- The search for the medium that another one stands for ends, whatever the pointers of duplicates
-- are, circles included.
pub canonical_membership_target-returns :
    (media_id : ℕ) (db : MediaTables) → (r : ℕ) × (canonical_membership_target media_id db ≡ some r)
unfolding canonical_membership_target
canonical_membership_target-returns media_id db =
    follow-returns (length db.media + 1) [] media_id db.media
      (omega (arith, unseen-le-length [] db.media))

-- Every duplicate stands for a medium of a lower rank: the pointers do not run in a circle.
abbrev pub IsRanked : (ℕ → ℕ) → List Media → Type 0
IsRanked rank media = (id next : ℕ) → pointer id media ≡ some next → rank next < rank id

ranked_fresh :
    (rank : ℕ → ℕ) (seen : List ℕ) (id : ℕ)
    → All (λ s. rank id < rank s) seen
    → seen_before seen id ≡ false
unfolding exists_by
ranked_fresh rank [] id h = refl
ranked_fresh rank (s ∷ seen) id h = elim (Bool-cases (s == id)) [
  | inl e ↦ absurd (let same = ==→eq s id e in omega (arith, h.0, ap rank same))
  | inr e ↦ rw e (ranked_fresh rank seen id h.1)
]

follow-is_canonical :
    (rank : ℕ → ℕ) (fuel : ℕ) (seen : List ℕ) (id r : ℕ) (media : List Media)
    → IsRanked rank media
    → All (λ s. rank id < rank s) seen
    → follow fuel seen id media ≡ some r
    → pointer r media ≡ none
unfolding follow
follow-is_canonical rank zero seen id r media ranked before e = absurd (cc)
follow-is_canonical rank (suc fuel) seen id r media ranked before e =
    let fresh : seen_before seen id ≡ false = ranked_fresh rank seen id before in
    elim (Option-cases (pointer id media)) [
      | inl end ↦
          subst (λ z. pointer z media ≡ none) (some-injective _ _ (rw (fresh, end, follow) at e))
            end
      | inr (next, p) ↦
          follow-is_canonical rank fuel (id ∷ seen) next r media ranked
            (ranked id next p, All-imp _ _ seen (λ s h. omega (arith, h, ranked id next p)) before)
            (rw (fresh, p, follow) at e)
    ]

-- Where the duplicates do not point in a circle, the medium that is found is no duplicate.
pub canonical_membership_target-is_canonical :
    (rank : ℕ → ℕ) (media_id : ℕ) (db : MediaTables)
    → IsRanked rank db.media
    → (r : ℕ) × (canonical_membership_target media_id db ≡ some r) × (pointer r db.media ≡ none)
unfolding canonical_membership_target
canonical_membership_target-is_canonical rank media_id db ranked =
    let (r, found) = canonical_membership_target-returns media_id db in
    (
      r,
      found,
      follow-is_canonical rank (length db.media + 1) [] media_id r db.media ranked tt found,
    )
