-- ===== src/Base/Laws.antt =====
-- The laws of the statements on tables: what holds of every row of the result, and how many rows
-- of it meet a test.
use Prim.Native.Nat.{ℕ, ◌+◌, ◌≤◌}
use mathlib.Core.Path.{◌≡◌, refl, sym, subst}
use mathlib.Core.Logic.{inl, inr}
use mathlib.Core.Bool.{Bool, true, false}
use mathlib.Core.Option.{some, none, some-injective}
use mathlib.Core.List.{List, [], ◌∷◌, ◌++◌}
use native.Mathlib.Omega.{arith}
use ig_anonymous_monitor.Base.Tests.{if◌then◌else◌, Bool-cases}
use ig_anonymous_monitor.Base.Tables.{
  All, In, length, select, find_by, count_by, exists_by, update_where, delete_where, max_of,
}

module _ {ℓ κ} {A : Type ℓ} (P : A → Type κ) where
  pub All-append : (xs ys : List A) → All P xs → All P ys → All P (xs ++ ys)
  All-append [] ys hx hy = hy
  All-append (x ∷ xs) ys hx hy = (hx.0, All-append xs ys hx.1 hy)

  pub All-append_one : (xs : List A) (y : A) → All P xs → P y → All P (xs ++ y ∷ [])
  All-append_one xs y h k = All-append xs (y ∷ []) h (k, tt)

  All-if : (b : Bool) (x y : A) → P x → P y → P (if b then x else y)
  All-if true x y h k = h
  All-if false x y h k = k

  pub All-update_where :
      (p : A → Bool) (f : A → A) (xs : List A)
      → ((x : A) → p x ≡ true → P x → P (f x))
      → All P xs
      → All P (update_where p f xs)
  unfolding update_where
  All-update_where p f [] step h = tt
  All-update_where p f (x ∷ xs) step h = elim (Bool-cases (p x)) [
    | inl e ↦ rw e (step x e h.0, All-update_where p f xs step h.1)
    | inr e ↦ rw e (h.0, All-update_where p f xs step h.1)
  ]

  pub All-select : (p : A → Bool) (xs : List A) → All P xs → All P (select p xs)
  unfolding select
  All-select p [] h = tt
  All-select p (x ∷ xs) h = elim (Bool-cases (p x)) [
    | inl e ↦ rw e (h.0, All-select p xs h.1)
    | inr e ↦ rw e (All-select p xs h.1)
  ]

  pub All-delete_where : (p : A → Bool) (xs : List A) → All P xs → All P (delete_where p xs)
  unfolding delete_where
  All-delete_where p [] h = tt
  All-delete_where p (x ∷ xs) h = elim (Bool-cases (p x)) [
    | inl e ↦ rw e (All-delete_where p xs h.1)
    | inr e ↦ rw e (h.0, All-delete_where p xs h.1)
  ]

  pub All-find_by : (p : A → Bool) (xs : List A) {x : A} → All P xs → find_by p xs ≡ some x → P x
  unfolding find_by
  All-find_by p [] h e = absurd (cc)
  All-find_by p (y ∷ xs) {x} h e = elim (Bool-cases (p y)) [
    | inl t ↦ subst P (some-injective _ _ (rw t at e)) h.0
    | inr t ↦ All-find_by p xs h.1 (rw t at e)
  ]

  pub All-every : (xs : List A) → ((x : A) → P x) → All P xs
  All-every [] h = tt
  All-every (x ∷ xs) h = (h x, All-every xs h)

pub All-imp {ℓ κ μ} :
    {A : Type ℓ} (P : A → Type κ) (Q : A → Type μ) (xs : List A)
    → ((x : A) → P x → Q x)
    → All P xs
    → All Q xs
All-imp P Q [] f h = tt
All-imp P Q (x ∷ xs) f h = (f x h.0, All-imp P Q xs f h.1)

module _ {ℓ} {A : Type ℓ} where
  pub select-holds : (p : A → Bool) (xs : List A) → All (λ x. p x ≡ true) (select p xs)
  unfolding select
  select-holds p [] = tt
  select-holds p (x ∷ xs) = elim (Bool-cases (p x)) [
    | inl e ↦ rw e (e, select-holds p xs)
    | inr e ↦ rw e (select-holds p xs)
  ]

  pub find_by-holds : (p : A → Bool) (xs : List A) {x : A} → find_by p xs ≡ some x → p x ≡ true
  unfolding find_by
  find_by-holds p [] e = cc
  find_by-holds p (y ∷ xs) {x} e = elim (Bool-cases (p y)) [
    | inl t ↦ subst (λ z. p z ≡ true) (some-injective _ _ (rw t at e)) t
    | inr t ↦ find_by-holds p xs (rw t at e)
  ]

  pub count_by-append_one :
      (p : A → Bool) (xs : List A) (y : A)
      → count_by p (xs ++ y ∷ []) ≡ count_by p xs + (if p y then 1 else 0)
  unfolding count_by
  count_by-append_one p [] y = ground arith
  count_by-append_one p (x ∷ xs) y = ground (arith, count_by-append_one p xs y)

  -- An update that no row gains a property by raises no count of it.
  pub count_by-update_where_le :
      (q p : A → Bool) (f : A → A) (xs : List A)
      → ((x : A) → p x ≡ true → q (f x) ≡ true → q x ≡ true)
      → count_by q (update_where p f xs) ≤ count_by q xs
  unfolding count_by update_where
  count_by-update_where_le q p f [] h = omega arith
  count_by-update_where_le q p f (x ∷ xs) h =
      ground (arith, h x, count_by-update_where_le q p f xs h)

  pub count_by-update_where_eq :
      (q p : A → Bool) (f : A → A) (xs : List A)
      → ((x : A) → p x ≡ true → q (f x) ≡ q x)
      → count_by q (update_where p f xs) ≡ count_by q xs
  unfolding count_by update_where
  count_by-update_where_eq q p f [] h = refl
  count_by-update_where_eq q p f (x ∷ xs) h =
      ground (arith, h x, count_by-update_where_eq q p f xs h)

  pub count_by-delete_where_le :
      (q p : A → Bool) (xs : List A) → count_by q (delete_where p xs) ≤ count_by q xs
  unfolding count_by delete_where
  count_by-delete_where_le q p [] = omega arith
  count_by-delete_where_le q p (x ∷ xs) = ground (arith, count_by-delete_where_le q p xs)

  pub count_by-eq_zero :
      (q : A → Bool) (xs : List A) → All (λ x. q x ≡ false) xs → count_by q xs ≡ 0
  unfolding count_by
  count_by-eq_zero q [] h = refl
  count_by-eq_zero q (x ∷ xs) h = ground (arith, count_by-eq_zero q xs h.1)

  pub All-count_by : (q : A → Bool) (xs : List A) → count_by q xs ≡ 0 → All (λ x. q x ≡ false) xs
  unfolding count_by
  All-count_by q [] h = tt
  All-count_by q (x ∷ xs) h = elim (Bool-cases (q x)) [
    | inl e ↦ absurd (ground (arith))
    | inr e ↦ (e, All-count_by q xs (ground arith))
  ]

  pub exists_by-false :
      (q : A → Bool) (xs : List A) → exists_by q xs ≡ false → All (λ x. q x ≡ false) xs
  unfolding exists_by
  exists_by-false q [] h = tt
  exists_by-false q (x ∷ xs) h = (ground arith, exists_by-false q xs (ground arith))

  pub find_by-none : (q : A → Bool) (xs : List A) → find_by q xs ≡ none → All (λ x. q x ≡ false) xs
  unfolding find_by
  find_by-none q [] h = tt
  find_by-none q (x ∷ xs) h = elim (Bool-cases (q x)) [
    | inl e ↦ absurd (ground (arith))
    | inr e ↦ (e, find_by-none q xs (ground arith))
  ]

  pub length-update_where :
      (p : A → Bool) (f : A → A) (xs : List A) → length (update_where p f xs) ≡ length xs
  unfolding update_where
  length-update_where p f [] = refl
  length-update_where p f (x ∷ xs) = omega (arith, length-update_where p f xs)

  -- The next row id is new.
  pub le-max_of : (id : A → ℕ) (xs : List A) → All (λ x. id x ≤ max_of id xs) xs
  unfolding max_of
  le-max_of id [] = tt
  le-max_of id (x ∷ xs) = (omega arith, All-imp _ _ xs (λ y h. omega (arith, h)) (le-max_of id xs))

module _ {ℓ κ} {A : Type ℓ} (P : A → Type κ) where
  pub All-In : (xs : List A) {x : A} → All P xs → In x xs → P x
  All-In [] h m = elim m [ ]
  All-In (y ∷ ys) h (inl e) = subst P (sym e) h.0
  All-In (y ∷ ys) h (inr m) = All-In ys h.1 m

  pub All-every_In : (xs : List A) → ((x : A) → In x xs → P x) → All P xs
  All-every_In [] h = tt
  All-every_In (y ∷ ys) h = (h y (inl refl), All-every_In ys (λ x m. h x (inr m)))

module _ {ℓ} {A : Type ℓ} where
  In-tail : (x y : A) (xs ys : List A) → (In x xs → In x ys) → In x (y ∷ xs) → In x (y ∷ ys)
  In-tail x y xs ys f (inl h) = inl h
  In-tail x y xs ys f (inr h) = inr (f h)

  pub In-select : (p : A → Bool) (xs : List A) (x : A) → In x (select p xs) → In x xs
  unfolding select
  In-select p [] x m = m
  In-select p (y ∷ ys) x m = elim (Bool-cases (p y)) [
    | inl e ↦ In-tail x y (select p ys) ys (In-select p ys x) (rw e at m)
    | inr e ↦ inr (In-select p ys x (rw e at m))
  ]

  pub In-select_of :
      (p : A → Bool) (xs : List A) {x : A} → In x xs → p x ≡ true → In x (select p xs)
  unfolding select
  In-select_of p [] m h = m
  In-select_of p (y ∷ ys) (inl e) h = rw (subst (λ z. p z ≡ true) e h) (inl e)
  In-select_of p (y ∷ ys) (inr m) h = elim (Bool-cases (p y)) [
    | inl e ↦ rw e (inr (In-select_of p ys m h))
    | inr e ↦ rw e (In-select_of p ys m h)
  ]

  -- A row that meets the test is counted.
  pub count_by-pos : (p : A → Bool) (xs : List A) {x : A} → In x xs → p x ≡ true → 1 ≤ count_by p xs
  unfolding count_by
  count_by-pos p [] m h = elim m [ ]
  count_by-pos p (y ∷ ys) (inl e) h = rw (subst (λ z. p z ≡ true) e h) (omega arith)
  count_by-pos p (y ∷ ys) (inr m) h = ground (arith, count_by-pos p ys m h)

  pub count_by-le :
      (p q : A → Bool) (xs : List A)
      → ((x : A) → p x ≡ true → q x ≡ true)
      → count_by p xs ≤ count_by q xs
  unfolding count_by
  count_by-le p q [] h = omega arith
  count_by-le p q (x ∷ xs) h = ground (arith, h x, count_by-le p q xs h)

  pub find_by-In : (p : A → Bool) (xs : List A) {x : A} → find_by p xs ≡ some x → In x xs
  find_by-In p xs {x} e =
      All-find_by (λ y. In y xs) p xs (All-every_In (λ y. In y xs) xs (λ y m. m)) e
