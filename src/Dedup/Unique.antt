-- ===== src/Dedup/Unique.antt =====
-- The entries of the groups as rows of `media`.
use ig_anonymous_monitor.Base.{
  ℕ, ◌+◌, ◌≤◌, ◌≡◌, refl, ap, subst, Bool, false, ◌&&◌, not, Option, none, some, List, [], ◌∷◌, map,
  ◌==◌, if◌then◌else◌, arith, Bool-cases, inl, inr, In, select, count_by, exists_by, is_some,
  count_by-pos, eq_self,
}
use ig_anonymous_monitor.Media.{insert_row, by_account, downloaded_media}
use ig_anonymous_monitor.Media.Tables.{Media, MediaTables, is_downloaded, same_option}
use ig_anonymous_monitor.Fingerprint.{MediaFingerprint}
use ig_anonymous_monitor.Dedup.{plan_of, is_duplicate_group}
use ig_anonymous_monitor.Dedup.Grouping.{Group, entries_of, canonical_of}
use ig_anonymous_monitor.Dedup.Analyze.{
  Files, Entry, Analysis, with_fingerprint, with_stored, with_digest, analyze_at, analyze_row,
  add_entry, row_fingerprint, analyzed_rows,
}
use ig_anonymous_monitor.Dedup.Groups.{members, count_by-append}
use ig_anonymous_monitor.Dedup.Best.{best_from-In}
use ig_anonymous_monitor.Dedup.Kept.{has_entry, is_marked}

insert_row-count :
    (p : Media → Bool) (m : Media) (rows : List Media)
    → count_by p (insert_row m rows) ≡ count_by p (m ∷ rows)
unfolding insert_row count_by
insert_row-count p m [] = refl
insert_row-count p m (n ∷ rows) = ground (arith, insert_row-count p m rows)

pub by_account-count :
    (p : Media → Bool) (rows : List Media) → count_by p (by_account rows) ≡ count_by p rows
unfolding by_account count_by
by_account-count p [] = refl
by_account-count p (m ∷ rows) =
    ground (arith, insert_row-count p m (by_account rows), by_account-count p rows)

count_by-select_le {ℓ} :
    {A : Type ℓ} (q p : A → Bool) (xs : List A) → count_by q (select p xs) ≤ count_by q xs
unfolding count_by select
count_by-select_le q p [] = omega arith
count_by-select_le q p (x ∷ xs) = ground (arith, count_by-select_le q p xs)

-- An analysis that succeeds is of the row.
abbrev pub IsOf : Media → Analysis → Type 0
IsOf row (Analysis.file_not_found m) = Unit
IsOf row (Analysis.failed m) = Unit
IsOf row (Analysis.analyzed e) = e.row ≡ row

with_fingerprint-IsOf :
    (row : Media) (digest : ℕ) (f : Option MediaFingerprint)
    → IsOf row (with_fingerprint row digest f)
with_fingerprint-IsOf row digest none = tt
with_fingerprint-IsOf row digest (some f) = refl

with_stored-IsOf :
    (files : Files) (row : Media) (path digest : ℕ) (f : Option (Option MediaFingerprint))
    → IsOf row (with_stored files row path digest f)
with_stored-IsOf files row path digest none = tt
with_stored-IsOf files row path digest (some none) =
    with_fingerprint-IsOf row digest (files.fingerprint_file path row.kind)
with_stored-IsOf files row path digest (some (some f)) = refl

with_digest-IsOf :
    (files : Files) (row : Media) (path : ℕ) (d : Option ℕ)
    → IsOf row (with_digest files row path d)
with_digest-IsOf files row path none = tt
with_digest-IsOf files row path (some digest) =
    with_stored-IsOf files row path digest
      (if same_option row.sha256 digest then row_fingerprint files row else some none)

analyze_at-IsOf :
    (files : Files) (row : Media) (path : Option ℕ) → IsOf row (analyze_at files row path)
analyze_at-IsOf files row none = tt
analyze_at-IsOf files row (some path) = elim (Bool-cases (files.is_file path)) [
  | inl exists ↦ rw exists (with_digest-IsOf files row path (files.sha256_file path))
  | inr gone ↦ rw gone tt
]

pub analyze_row-IsOf : (files : Files) (row : Media) → IsOf row (analyze_row files row)
unfolding analyze_row
analyze_row-IsOf files row = analyze_at-IsOf files row row.local_path

add_entry-count :
    (q : Media → Bool) (row : Media) (a : Analysis) (es : List Entry)
    → IsOf row a
    → count_by (λ e. q e.row) (add_entry a es)
      ≤ (if q row then 1 else 0) + count_by (λ e. q e.row) es
unfolding count_by
add_entry-count q row (Analysis.file_not_found m) es h = omega arith
add_entry-count q row (Analysis.failed m) es h = omega arith
add_entry-count q row (Analysis.analyzed e) es h = rw (ap q h) (ground (arith))

pub analyzed_rows-count :
    (files : Files) (q : Media → Bool) (rows : List Media)
    → count_by (λ e. q e.row) (analyzed_rows files rows) ≤ count_by q rows
unfolding analyzed_rows count_by
analyzed_rows-count files q [] = omega arith
analyzed_rows-count files q (row ∷ rows) = ground (
  arith,
  add_entry-count q row (analyze_row files row) (analyzed_rows files rows)
      (analyze_row-IsOf files row),
  analyzed_rows-count files q rows,
)

-- Of the rows of `media` that meet a test, those that are not downloaded or cannot be analysed are
-- left out.
pub entries-count :
    (files : Files) (q : Media → Bool) (db : MediaTables)
    → count_by (λ e. q e.row) (analyzed_rows files (downloaded_media db)) ≤ count_by q db.media
unfolding downloaded_media
entries-count files q db =
    let chosen = select (λ m. is_downloaded m.status && is_some m.local_path) db.media in
    omega (
      arith,
      analyzed_rows-count files q (by_account chosen),
      by_account-count q chosen,
      count_by-select_le q (λ m. is_downloaded m.status && is_some m.local_path) db.media,
    )

abbrev with_id : ℕ → Entry → Bool
with_id id e = e.row.id == id

exists_by-count {ℓ} :
    {A : Type ℓ} (q : A → Bool) (xs : List A) → count_by q xs ≡ 0 → exists_by q xs ≡ false
unfolding exists_by count_by
exists_by-count q [] h = refl
exists_by-count q (x ∷ xs) h = ground (arith, exists_by-count q xs)

exists_by-select-not {ℓ} :
    {A : Type ℓ} (q : A → Bool) (xs : List A) → exists_by q (select (λ x. not (q x)) xs) ≡ false
unfolding exists_by select
exists_by-select-not q [] = refl
exists_by-select-not q (x ∷ xs) = ground (arith, exists_by-select-not q xs)

absent-has_entry :
    (id : ℕ) (g : Group)
    → count_by (with_id id) (entries_of g) ≡ 0
    → has_entry id (plan_of g).duplicates ≡ false
unfolding has_entry plan_of
absent-has_entry id g h =
    let other = λ (e : Entry). not (e.row.id == (canonical_of g).row.id) in
    exists_by-count (with_id id) (select other (entries_of g))
      (omega (arith, count_by-select_le (with_id id) other (entries_of g)))

canonical-has_entry : (g : Group) → has_entry (canonical_of g).row.id (plan_of g).duplicates ≡ false
unfolding has_entry plan_of
canonical-has_entry g = exists_by-select-not (with_id (canonical_of g).row.id) (entries_of g)

abbrev marks : ℕ → List Group → Bool
marks id groups = is_marked id (map plan_of (select is_duplicate_group groups))

-- A group marks no row that none of its own plan's duplicates is.
marks-step :
    (id : ℕ) (g : Group) (groups : List Group)
    → has_entry id (plan_of g).duplicates ≡ false
    → marks id groups ≡ false
    → marks id (g ∷ groups) ≡ false
unfolding is_marked exists_by select
marks-step id g groups h k = elim (Bool-cases (is_duplicate_group g)) [
  | inl several ↦ rw several (ground (arith))
  | inr one ↦ rw one k
]

absent-marks :
    (id : ℕ) (groups : List Group)
    → count_by (with_id id) (members groups) ≡ 0
    → marks id groups ≡ false
unfolding is_marked exists_by select members
absent-marks id [] h = refl
absent-marks id (g ∷ groups) h =
    let parts = count_by-append (with_id id) (entries_of g) (members groups) in
    marks-step id g groups (absent-has_entry id g (omega (arith, parts)))
      (absent-marks id groups (omega (arith, parts)))

canonical-counted : (g : Group) → 1 ≤ count_by (with_id (canonical_of g).row.id) (entries_of g)
canonical-counted g =
    count_by-pos (with_id (canonical_of g).row.id) (entries_of g) (best_from-In g.sample g.others)
      (eq_self (canonical_of g).row.id)

group-counted :
    (g : Group) (groups : List Group)
    → In g groups
    → 1 ≤ count_by (with_id (canonical_of g).row.id) (members groups)
unfolding members
group-counted g [] m = elim m [ ]
group-counted g (k ∷ groups) m =
    let q = with_id (canonical_of g).row.id in
    let parts = count_by-append q (entries_of k) (members groups) in
    elim m [
      | inl e ↦
          let own = subst (λ z. 1 ≤ count_by q (entries_of z)) e (canonical-counted g) in
          omega (arith, parts, own)
      | inr t ↦ omega (arith, parts, group-counted g groups t)
    ]

-- Where no row is in two groups, no plan marks the canonical copy of a group.
pub canonical-marks :
    (g : Group) (groups : List Group)
    → In g groups
    → count_by (with_id (canonical_of g).row.id) (members groups) ≤ 1
    → marks (canonical_of g).row.id groups ≡ false
unfolding members
canonical-marks g [] m one = elim m [ ]
canonical-marks g (k ∷ groups) m one =
    let id = (canonical_of g).row.id in
    let parts = count_by-append (with_id id) (entries_of k) (members groups) in
    elim m [
      | inl e ↦
          let own = subst (λ z. 1 ≤ count_by (with_id id) (entries_of z)) e (canonical-counted g) in
          let free =
            subst (λ z. has_entry id (plan_of z).duplicates ≡ false) e (canonical-has_entry g) in
          marks-step id k groups free (absent-marks id groups (omega (arith, parts, own)))
      | inr t ↦
          let own = group-counted g groups t in
          marks-step id k groups (absent-has_entry id k (omega (arith, parts, own)))
            (canonical-marks g groups t (omega (arith, parts)))
    ]
