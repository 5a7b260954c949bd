-- ===== src/Dedup/Groups.antt =====
-- The groups of copies: their entries, and protected content.
use ig_anonymous_monitor.Base.{
  ◌+◌, ◌≡◌, refl, ◌⊎◌, Bool, true, false, ◌||◌, List, [], ◌∷◌, ◌++◌, ◌==◌, if◌then◌else◌, arith,
  Bool-cases, inl, inr, All, All-append_one, exists_by, count_by, ==→eq, count_by-append_one,
}
use ig_anonymous_monitor.Media.{downloaded_media}
use ig_anonymous_monitor.Media.Tables.{MediaTables}
use ig_anonymous_monitor.Fingerprint.{DedupConfig}
use ig_anonymous_monitor.Dedup.{entry_groups}
use ig_anonymous_monitor.Dedup.Grouping.{
  Group, entries_of, is_protected, exact_only, belongs, add_member, place, group_entries,
  review_entries,
}
use ig_anonymous_monitor.Dedup.Analyze.{Files, Entry, analyzed_rows}

-- The groups' entries, one group after the other.
unfoldable pub members : List Group → List Entry
members [] = []
members (group ∷ groups) = entries_of group ++ members groups

pub count_by-append {ℓ} :
    {A : Type ℓ} (p : A → Bool) (xs ys : List A)
    → count_by p (xs ++ ys) ≡ count_by p xs + count_by p ys
unfolding count_by
count_by-append p [] ys = ground arith
count_by-append p (x ∷ xs) ys = ground (arith, count_by-append p xs ys)

place-count :
    (config : DedupConfig) (protected : List Entry) (p : Entry → Bool) (e : Entry)
    (groups : List Group)
    → count_by p (members (place config protected e groups))
      ≡ (if p e then 1 else 0) + count_by p (members groups)
unfolding place members count_by
place-count config protected p e [] = ground arith
place-count config protected p e (g ∷ groups) = elim (Bool-cases (belongs config protected e g)) [
  | inl yes_ ↦ rw yes_ (
      ground (
        arith,
        count_by-append p (g.others ++ e ∷ []) (members groups),
        count_by-append p g.others (members groups),
        count_by-append_one p g.others e,
      ))
  | inr no_ ↦ rw no_ (
      ground (
        arith,
        count_by-append p g.others (members (place config protected e groups)),
        count_by-append p g.others (members groups),
        place-count config protected p e groups,
      ))
]

group_entries-count :
    (config : DedupConfig) (protected : List Entry) (p : Entry → Bool) (entries : List Entry)
    (groups : List Group)
    → count_by p (members (group_entries config protected entries groups))
      ≡ count_by p entries + count_by p (members groups)
unfolding group_entries count_by
group_entries-count config protected p [] groups = ground arith
group_entries-count config protected p (e ∷ entries) groups = ground (
  arith,
  group_entries-count config protected p entries (place config protected e groups),
  place-count config protected p e groups,
)

-- The groups hold the entries, each as often as it stands among them: whatever is asked of an
-- entry, as many of the groups' entries meet it.
pub group_entries-partitions :
    (config : DedupConfig) (protected : List Entry) (p : Entry → Bool) (entries : List Entry)
    → count_by p (members (group_entries config protected entries [])) ≡ count_by p entries
unfolding count_by members
group_entries-partitions config protected p entries =
    ground (arith, group_entries-count config protected p entries [])

-- Every entry is of the account and kind of the first; and beside protected content there are only
-- exact copies of the first.
pub record IsSound (protected : List Entry) (g : Group) : Type 0 where
  pub alike :
      All
        (λ (e : Entry).
          (e.row.account_id ≡ g.sample.row.account_id) × (e.row.kind ≡ g.sample.row.kind))
        (entries_of g)
  pub exact :
      exists_by (is_protected protected) (entries_of g) ≡ true
      → All (λ (e : Entry). e.digest ≡ g.sample.digest) (entries_of g)

new-IsSound :
    (protected : List Entry) (e : Entry) → IsSound protected (record { sample = e; others = [] })
new-IsSound protected e = record { alike = ((refl, refl), tt); exact = λ h. (refl, tt) }

-- Equal content is protected alike.
is_protected-eq :
    (protected : List Entry) (a b : Entry)
    → a.row.account_id ≡ b.row.account_id
    → a.row.kind ≡ b.row.kind
    → a.digest ≡ b.digest
    → is_protected protected a ≡ is_protected protected b
unfolding is_protected exists_by
is_protected-eq [] a b h k d = refl
is_protected-eq (p ∷ protected) a b h k d = rw (h, k, d, is_protected-eq protected a b h k d) refl

exists_by-append_one {ℓ} :
    {A : Type ℓ} (p : A → Bool) (xs : List A) (y : A)
    → exists_by p (xs ++ y ∷ []) ≡ exists_by p xs || p y
unfolding exists_by
exists_by-append_one p [] y = ground arith
exists_by-append_one p (x ∷ xs) y = ground (arith, exists_by-append_one p xs y)

-- What a new member must be like.
belongs-alike :
    (config : DedupConfig) (protected : List Entry) (e : Entry) (g : Group)
    → belongs config protected e g ≡ true
    → (e.row.account_id ≡ g.sample.row.account_id)
      × (e.row.kind ≡ g.sample.row.kind)
      × ((e.digest ≡ g.sample.digest) ⊎ (exact_only protected e g ≡ false))
unfolding belongs
belongs-alike config protected e g h = (
  ==→eq _ _ (ground arith),
  ==→eq _ _ (ground arith),
  elim (Bool-cases (e.digest == g.sample.digest)) [
    | inl same ↦ inl (==→eq _ _ same)
    | inr other ↦ inr (ground arith)
  ],
)

still_exact :
    (protected : List Entry) (e : Entry) (g : Group)
    → e.row.account_id ≡ g.sample.row.account_id
    → e.row.kind ≡ g.sample.row.kind
    → e.digest ≡ g.sample.digest
    → exists_by (is_protected protected) (entries_of g ++ e ∷ []) ≡ true
    → exists_by (is_protected protected) (entries_of g) ≡ true
unfolding exists_by
still_exact protected e g account kind digest h =
    let same = is_protected-eq protected e g.sample account kind digest in
    ground (arith, same, exists_by-append_one (is_protected protected) g.others e)

not_exact :
    (protected : List Entry) (e : Entry) (g : Group)
    → exact_only protected e g ≡ false
    → exists_by (is_protected protected) (entries_of g ++ e ∷ []) ≡ false
unfolding exact_only
not_exact protected e g h =
    ground (arith, exists_by-append_one (is_protected protected) (entries_of g) e)

add_member-IsSound :
    (config : DedupConfig) (protected : List Entry) (e : Entry) (g : Group)
    → belongs config protected e g ≡ true
    → IsSound protected g
    → IsSound protected (add_member e g)
add_member-IsSound config protected e g h sound =
    let (account, kind, copy) = belongs-alike config protected e g h in
    record {
      alike = All-append_one _ (entries_of g) e sound.alike (account, kind);
      exact = λ found. elim copy [
        | inl digest ↦
            All-append_one _ (entries_of g) e
              (sound.exact (still_exact protected e g account kind digest found)) digest
        | inr differs ↦ absurd (let free = not_exact protected e g differs in cc)
      ];
    }

place-IsSound :
    (config : DedupConfig) (protected : List Entry) (e : Entry) (groups : List Group)
    → All (IsSound protected) groups
    → All (IsSound protected) (place config protected e groups)
unfolding place
place-IsSound config protected e [] h = (new-IsSound protected e, tt)
place-IsSound config protected e (g ∷ groups) h = elim (Bool-cases (belongs config protected e g)) [
  | inl joins ↦ rw joins (add_member-IsSound config protected e g joins h.0, h.1)
  | inr other ↦ rw other (h.0, place-IsSound config protected e groups h.1)
]

pub group_entries-IsSound :
    (config : DedupConfig) (protected entries : List Entry) (groups : List Group)
    → All (IsSound protected) groups
    → All (IsSound protected) (group_entries config protected entries groups)
unfolding group_entries
group_entries-IsSound config protected [] groups h = h
group_entries-IsSound config protected (e ∷ entries) groups h =
    group_entries-IsSound config protected entries (place config protected e groups)
      (place-IsSound config protected e groups h)

-- In every group the entries are of one account and kind; and where the content of one of them is
-- protected, because an entry with that content needs a review, all are exact copies.
pub entry_groups-IsSound :
    (files : Files) (config : DedupConfig) (db : MediaTables)
    → All
        (IsSound (review_entries db (analyzed_rows files (downloaded_media db))))
        (entry_groups files config db)
unfolding entry_groups
entry_groups-IsSound files config db =
    let entries = analyzed_rows files (downloaded_media db) in
    group_entries-IsSound config (review_entries db entries) entries [] tt
