-- ===== src/GroupHistory/Sticky.antt =====
-- What later readings say of a group that has been seen incomplete.
use ig_anonymous_monitor.Base.{
  ℕ, ◌≡◌, ◌∙◌, refl, Bool, true, false, ◌&&◌, ◌||◌, not, Option, none, some, List, [], ◌∷◌, ◌++◌,
  ◌==◌, arith, Bool-cases, Option-cases, inl, inr, All, exists_by, select, subst,
}
use ig_anonymous_monitor.Cooldown.{SourceName}
use ig_anonymous_monitor.Observations.States.{is_known_category}
use ig_anonymous_monitor.GroupHistory.{
  GroupObservation, Group, Count, insert_observation, record_counts, record_group, record_groups,
  record_group_observations, insert_row, in_order, same_group, was_incomplete, views, is_of_source,
  read_group_observations, is_same_observation,
}

-- The account and the source of the reader have seen the group of the row incomplete.
unfoldable pub is_known_incomplete :
    ℕ → Option SourceName → GroupObservation → List GroupObservation → Bool
is_known_incomplete account_id source o = exists_by (λ r.
    ((r.account_id == account_id) && is_of_source source r) && (same_group r o && not r.complete))

append-exists {ℓ} :
    {A : Type ℓ} (q : A → Bool) (xs : List A) (y : A)
    → exists_by q xs ≡ true
    → exists_by q (xs ++ y ∷ []) ≡ true
unfolding exists_by
append-exists q [] y h = absurd (cc)
append-exists q (x ∷ xs) y h = ground (arith, append-exists q xs y)

insert_observation-keeps :
    (q : GroupObservation → Bool) (o : GroupObservation) (rows : List GroupObservation)
    → exists_by q rows ≡ true
    → exists_by q (insert_observation o rows) ≡ true
insert_observation-keeps q o rows h =
    elim (Bool-cases (exists_by (λ r. is_same_observation r o) rows)) [
      | inl e ↦ rw e h
      | inr e ↦ rw e (append-exists q rows o h)
    ]

-- What holds of the rows, if there are any.
abbrev Keeps : (GroupObservation → Bool) → Option (List GroupObservation) → Type 0
Keeps q none = Unit
Keeps q (some rows) = exists_by q rows ≡ true

record_counts-Keeps :
    (q : GroupObservation → Bool) (account_id : ℕ) (source : SourceName) (g : Group)
    (declared received : Count) (rows : List GroupObservation)
    → exists_by q rows ≡ true
    → Keeps q (record_counts account_id source g declared received rows)
record_counts-Keeps q account_id source g Count.no_count (Count.number r) rows h =
    insert_observation-keeps q _ rows h
record_counts-Keeps q account_id source g (Count.number d) (Count.number r) rows h =
    insert_observation-keeps q _ rows h
record_counts-Keeps q account_id source g Count.no_count Count.no_count rows h = tt
record_counts-Keeps q account_id source g Count.no_count Count.invalid rows h = tt
record_counts-Keeps q account_id source g (Count.number d) Count.no_count rows h = tt
record_counts-Keeps q account_id source g (Count.number d) Count.invalid rows h = tt
record_counts-Keeps q account_id source g Count.invalid received rows h = tt

record_group-Keeps :
    (q : GroupObservation → Bool) (account_id : ℕ) (source : SourceName) (g : Group)
    (rows : List GroupObservation)
    → exists_by q rows ≡ true
    → Keeps q (record_group account_id source g rows)
unfolding record_group
record_group-Keeps q account_id source g rows h = elim (Bool-cases (is_known_category g.category)) [
  | inl known ↦
      rw (known, record_group)
        (record_counts-Keeps q account_id source g g.declared_count g.received_count rows h)
  | inr strange ↦ rw (strange, record_group) tt
]

record_groups-Keeps :
    (q : GroupObservation → Bool) (account_id : ℕ) (source : SourceName) (groups : List Group)
    (rows : List GroupObservation)
    → exists_by q rows ≡ true
    → Keeps q (record_groups account_id source groups rows)
unfolding record_groups record_group
record_groups-Keeps q account_id source [] rows h = h
record_groups-Keeps q account_id source (g ∷ groups) rows h =
    elim (Option-cases (record_group account_id source g rows)) [
      | inl undone ↦ rw (undone, record_groups) tt
      | inr (more, done) ↦
          rw (done, record_groups)
            (record_groups-Keeps q account_id source groups more
              (subst (Keeps q) done (record_group-Keeps q account_id source g rows h)))
    ]

record-keeps :
    (q : GroupObservation → Bool) (account_id : ℕ) (source : SourceName) (groups : List Group)
    (rows : List GroupObservation)
    → exists_by q rows ≡ true
    → exists_by q (record_group_observations account_id source groups rows) ≡ true
unfolding record_group_observations
record-keeps q account_id source groups rows h =
    elim (Option-cases (record_groups account_id source groups rows)) [
      | inl undone ↦ rw (undone, record_group_observations) h
      | inr (more, done) ↦
          rw (done, record_group_observations)
            (subst (Keeps q) done (record_groups-Keeps q account_id source groups rows h))
    ]

insert_row-exists :
    (q : GroupObservation → Bool) (o : GroupObservation) (rows : List GroupObservation)
    → exists_by q (insert_row o rows) ≡ q o || exists_by q rows
unfolding insert_row exists_by
insert_row-exists q o [] = refl
insert_row-exists q o (r ∷ rows) = ground (arith, insert_row-exists q o rows)

in_order-exists :
    (q : GroupObservation → Bool) (rows : List GroupObservation)
    → exists_by q (in_order rows) ≡ exists_by q rows
unfolding in_order exists_by
in_order-exists q [] = refl
in_order-exists q (o ∷ rows) =
    ground (arith, insert_row-exists q o (in_order rows), in_order-exists q rows)

select-exists :
    (p q : GroupObservation → Bool) (rows : List GroupObservation)
    → exists_by q (select p rows) ≡ exists_by (λ r. p r && q r) rows
unfolding select exists_by
select-exists p q [] = refl
select-exists p q (r ∷ rows) = ground (arith, select-exists p q rows)

sorted-was_incomplete :
    (account_id : ℕ) (source : Option SourceName) (o : GroupObservation)
    (rows : List GroupObservation)
    → was_incomplete o
        (in_order (select (λ r. (r.account_id == account_id) && is_of_source source r) rows))
      ≡ is_known_incomplete account_id source o rows
unfolding is_known_incomplete
sorted-was_incomplete account_id source o rows =
    let p = λ (r : GroupObservation). (r.account_id == account_id) && is_of_source source r in
    let q = λ (r : GroupObservation). same_group r o && not r.complete in
    in_order-exists q (select p rows) ∙ select-exists p q rows

not_both :
    (known complete incomplete : Bool)
    → (known ≡ true → incomplete ≡ true)
    → known && (complete && not incomplete) ≡ false
not_both false c i h = refl
not_both true c i h = rw (h refl) (ground (arith))

views-sticky :
    (known : GroupObservation → Bool) (result seen rows : List GroupObservation)
    → ((o : GroupObservation) → known o ≡ true → was_incomplete o result ≡ true)
    → All (λ v. known v.row && v.complete ≡ false) (views result seen rows)
unfolding views
views-sticky known result seen [] h = tt
views-sticky known result seen (o ∷ rows) h = (
  not_both (known o) o.complete (was_incomplete o result) (h o),
  views-sticky known result (o ∷ seen) rows h,
)

-- One call of `record_group_observations`.
pub record Recording : Type 0 where
  pub account_id : ℕ
  pub source : SourceName
  pub groups : List Group

unfoldable pub record_all : List Recording → List GroupObservation → List GroupObservation
record_all [] rows = rows
record_all (r ∷ rs) rows =
    record_all rs (record_group_observations r.account_id r.source r.groups rows)

record_all-keeps :
    (q : GroupObservation → Bool) (recordings : List Recording) (rows : List GroupObservation)
    → exists_by q rows ≡ true
    → exists_by q (record_all recordings rows) ≡ true
unfolding record_all
record_all-keeps q [] rows h = h
record_all-keeps q (r ∷ rs) rows h =
    record_all-keeps q rs _ (record-keeps q r.account_id r.source r.groups rows h)

-- A group that an account's source has once been seen to give incompletely reads as incomplete in
-- every later reading, whatever calls record observations in between, of any accounts and sources.
pub read_group_observations-sticky :
    (account_id : ℕ) (source : Option SourceName) (recordings : List Recording)
    (rows : List GroupObservation)
    → All
        (λ v. is_known_incomplete account_id source v.row rows && v.complete ≡ false)
        (read_group_observations account_id source (record_all recordings rows))
unfolding read_group_observations is_known_incomplete
read_group_observations-sticky account_id source recordings rows =
    let after = record_all recordings rows in
    let result =
      in_order (select (λ r. (r.account_id == account_id) && is_of_source source r) after) in
    views-sticky (λ o. is_known_incomplete account_id source o rows) result [] result
      (λ o known.
        sorted-was_incomplete account_id source o after ∙ record_all-keeps _ recordings rows known)
