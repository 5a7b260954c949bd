-- ===== src/Base/Rows.antt =====
-- Rows and the tests that they meet: EXISTS, and what is left of a row after a statement.
use ig_anonymous_monitor.Base.Tests.{◌==◌, Bool-cases}
use ig_anonymous_monitor.Base.Tables.{
  All, In, find_by, count_by, exists_by, update_where, delete_where,
}
use ig_anonymous_monitor.Base.Laws.{All-imp, All-count_by, count_by-pos}
use Prim.Native.Nat.{ℕ, ◌≤◌}
use mathlib.Core.Path.{◌≡◌, refl, sym, ap, subst}
use mathlib.Core.Logic.{inl, inr}
use mathlib.Core.Bool.{Bool, true, false}
use mathlib.Core.Option.{some, none}
use mathlib.Core.List.{List, [], ◌∷◌, ◌++◌}
use native.Mathlib.Omega.{arith}

pub eq_self : (n : ℕ) → (n == n) ≡ true
eq_self n = ground arith

module _ {ℓ} {A : Type ℓ} where
  pub exists_by-In :
      (p : A → Bool) (xs : List A) {x : A} → In x xs → p x ≡ true → exists_by p xs ≡ true
  unfolding exists_by
  exists_by-In p [] m h = elim m [ ]
  exists_by-In p (y ∷ ys) (inl e) h = rw (subst (λ z. p z ≡ true) e h) refl
  exists_by-In p (y ∷ ys) (inr m) h = ground (arith, exists_by-In p ys m h)

  pub In-delete_where :
      (p : A → Bool) (xs : List A) {x : A} → In x xs → p x ≡ false → In x (delete_where p xs)
  unfolding delete_where
  In-delete_where p [] m h = m
  In-delete_where p (y ∷ ys) (inl e) h = rw (subst (λ z. p z ≡ false) e h) (inl e)
  In-delete_where p (y ∷ ys) (inr m) h = elim (Bool-cases (p y)) [
    | inl e ↦ rw e (In-delete_where p ys m h)
    | inr e ↦ rw e (inr (In-delete_where p ys m h))
  ]

  pub exists_by-delete_where :
      (q p : A → Bool) (xs : List A)
      → exists_by q xs ≡ false
      → exists_by q (delete_where p xs) ≡ false
  unfolding exists_by delete_where
  exists_by-delete_where q p [] h = refl
  exists_by-delete_where q p (x ∷ xs) h = ground (arith, exists_by-delete_where q p xs)

  pub exists_by-find_by :
      (p : A → Bool) (xs : List A) → exists_by p xs ≡ true → (x : A) × (find_by p xs ≡ some x)
  unfolding exists_by find_by
  exists_by-find_by p [] h = absurd (cc)
  exists_by-find_by p (x ∷ xs) h = elim (Bool-cases (p x)) [
    | inl e ↦ (x, rw e refl)
    | inr e ↦ let (y, found) = exists_by-find_by p xs (ground arith) in (y, rw e found)
  ]

  -- An updated row stands in the table.
  pub In-update_where :
      (p : A → Bool) (f : A → A) (xs : List A) {x : A}
      → In x xs
      → p x ≡ true
      → In (f x) (update_where p f xs)
  unfolding update_where
  In-update_where p f [] m h = elim m [ ]
  In-update_where p f (y ∷ ys) {x} (inl e) h = rw (subst (λ z. p z ≡ true) e h) (inl (ap f e))
  In-update_where p f (y ∷ ys) (inr m) h = inr (In-update_where p f ys m h)

  pub In-append_one : (xs : List A) (y : A) → In y (xs ++ y ∷ [])
  In-append_one [] y = inl refl
  In-append_one (x ∷ xs) y = inr (In-append_one xs y)

  -- What holds of the updated rows, and of the others, holds of all.
  pub All-updated {κ} :
      (P : A → Type κ) (p : A → Bool) (f : A → A) (xs : List A)
      → ((x : A) → p x ≡ true → P (f x))
      → ((x : A) → p x ≡ false → P x)
      → All P (update_where p f xs)
  unfolding update_where
  All-updated P p f [] h k = tt
  All-updated P p f (x ∷ xs) h k = elim (Bool-cases (p x)) [
    | inl e ↦ rw e (h x e, All-updated P p f xs h k)
    | inr e ↦ rw e (k x e, All-updated P p f xs h k)
  ]

  -- A row that alone meets a test is every row that meets it.
  pub the_only_row :
      (p : A → Bool) (xs : List A) {x : A}
      → In x xs
      → p x ≡ true
      → count_by p xs ≤ 1
      → All (λ y. p y ≡ true → y ≡ x) xs
  unfolding count_by
  the_only_row p [] m h one = tt
  the_only_row p (y ∷ ys) {x} (inl e) h one =
      let others = All-count_by p ys (ground (arith, subst (λ z. p z ≡ true) e h)) in
      ((λ k. sym e), All-imp _ _ ys (λ z no k. absurd (cc)) others)
  the_only_row p (y ∷ ys) {x} (inr m) h one =
      let more = count_by-pos p ys m h in
      ((λ k. absurd (ground (arith))), the_only_row p ys m h (ground arith))

  -- Where an update makes none of the rows meet a test, no more rows meet it.
  pub count_by-update_rows_le :
      (q p : A → Bool) (f : A → A) (xs : List A)
      → All (λ x. p x ≡ true → q (f x) ≡ true → q x ≡ true) xs
      → count_by q (update_where p f xs) ≤ count_by q xs
  unfolding count_by update_where
  count_by-update_rows_le q p f [] h = omega arith
  count_by-update_rows_le q p f (x ∷ xs) h =
      ground (arith, h.0, count_by-update_rows_le q p f xs h.1)

  -- A test that the update keeps is still met.
  pub exists_by-update_where :
      (q p : A → Bool) (f : A → A) (xs : List A)
      → ((x : A) → p x ≡ true → q x ≡ true → q (f x) ≡ true)
      → exists_by q xs ≡ true
      → exists_by q (update_where p f xs) ≡ true
  unfolding exists_by update_where
  exists_by-update_where q p f [] h there = there
  exists_by-update_where q p f (x ∷ xs) h there =
      ground (arith, h x, exists_by-update_where q p f xs h)

  pub exists_by-imp :
      (p q : A → Bool) (xs : List A)
      → ((x : A) → p x ≡ true → q x ≡ true)
      → exists_by p xs ≡ true
      → exists_by q xs ≡ true
  unfolding exists_by
  exists_by-imp p q [] h there = there
  exists_by-imp p q (x ∷ xs) h there = ground (arith, h x, exists_by-imp p q xs h)

  pub In-append_left : (xs ys : List A) (x : A) → In x xs → In x (xs ++ ys)
  In-append_left [] ys x m = elim m [ ]
  In-append_left (z ∷ xs) ys x (inl e) = inl e
  In-append_left (z ∷ xs) ys x (inr m) = inr (In-append_left xs ys x m)

  pub In-append_right : (xs ys : List A) (x : A) → In x ys → In x (xs ++ ys)
  In-append_right [] ys x m = m
  In-append_right (z ∷ xs) ys x m = inr (In-append_right xs ys x m)

  -- The first row that meets the test, after an update that keeps the test.
  pub find_by-update_where :
      (p : A → Bool) (f : A → A) (xs : List A) (x : A)
      → ((y : A) → p y ≡ true → p (f y) ≡ true)
      → find_by p xs ≡ some x
      → find_by p (update_where p f xs) ≡ some (f x)
  unfolding find_by update_where
  find_by-update_where p f [] x keeps h = absurd (cc)
  find_by-update_where p f (y ∷ ys) x keeps h = elim (Bool-cases (p y)) [
    | inl e ↦ rw (e, keeps y e) (cc (rw e at h))
    | inr e ↦ rw (e, e) (find_by-update_where p f ys x keeps (rw e at h))
  ]

  pub find_by-append_one :
      (p : A → Bool) (xs : List A) (x : A)
      → find_by p xs ≡ none
      → p x ≡ true
      → find_by p (xs ++ x ∷ []) ≡ some x
  unfolding find_by
  find_by-append_one p [] x h e = rw e refl
  find_by-append_one p (y ∷ ys) x h e = elim (Bool-cases (p y)) [
    | inl k ↦ absurd (cc (rw k at h))
    | inr k ↦ rw k (find_by-append_one p ys x (rw k at h) e)
  ]

  pub find_by-absent : (p : A → Bool) (xs : List A) → exists_by p xs ≡ false → find_by p xs ≡ none
  unfolding find_by exists_by
  find_by-absent p [] h = refl
  find_by-absent p (x ∷ xs) h = elim (Bool-cases (p x)) [
    | inl e ↦ absurd (ground (arith))
    | inr e ↦ rw e (find_by-absent p xs (ground arith))
  ]
