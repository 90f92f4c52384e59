-- ===== src/Base/Tables.antt =====
-- Database tables as lists of rows, and the statements that the program runs on them.
use Prim.Native.Nat.{◌≤◌}
use mathlib.Core.Path.{◌≡◌, refl}
use mathlib.Core.Logic.{◌⊎◌, inl, inr}
use mathlib.Core.Bool.{Bool, true, false, ◌||◌}
use mathlib.Core.Option.{Option, none, some}
use mathlib.Core.List.{List, [], ◌∷◌, ◌++◌}
use native.Mathlib.Omega.{arith}
use agent_data_oracle.Base.Tests.{if◌then◌else◌, Bool-cases}
use agent_data_oracle.Base.Lists.{select, any, length, All, All-append}
use agent_data_oracle.Base.Transactions.{Result, ok, err}

abbrev pub is_some {ℓ} : {A : Type ℓ} → Option A → Bool
is_some none = false
is_some (some _) = true

module _ {A : Type 0} where
  -- The first row, if any: what `connection.scalar` reads.
  abbrev pub first : List A → Option A
  first [] = none
  first (x ∷ _) = some x

  -- `one_or_none()`, which raises where two rows come back.
  abbrev pub one_or_none : {E : Type 0} → E → List A → Result E (Option A)
  one_or_none e [] = ok none
  one_or_none e (x ∷ []) = ok (some x)
  one_or_none e (x ∷ y ∷ _) = err e

  pub one_or_none-eq-some :
      {E : Type 0} (e : E) (xs : List A) {x : A} → one_or_none e xs ≡ ok (some x) → xs ≡ x ∷ []
  one_or_none-eq-some e [] h = cc
  one_or_none-eq-some e (x ∷ []) h = cc
  one_or_none-eq-some e (x ∷ y ∷ xs) h = cc

  -- The three results of `one_or_none`.
  pub one_or_none-cases :
      {E : Type 0} (e : E) (xs : List A)
      → (one_or_none e xs ≡ err e)
        ⊎ (one_or_none e xs ≡ ok none)
        ⊎ ((x : A) × (one_or_none e xs ≡ ok (some x)))
  one_or_none-cases e [] = inr (inl refl)
  one_or_none-cases e (x ∷ []) = inr (inr (x, refl))
  one_or_none-cases e (x ∷ y ∷ xs) = inl refl

  -- `UPDATE … SET … WHERE`
  abbrev pub update_where : (A → Bool) → (A → A) → List A → List A
  update_where p f [] = []
  update_where p f (x ∷ xs) = (if p x then f x else x) ∷ update_where p f xs

  -- `sorted(…, key=…)`, and `ORDER BY`: a stable insertion sort.
  abbrev pub insert_sorted : (A → A → Bool) → A → List A → List A
  insert_sorted le x [] = x ∷ []
  insert_sorted le x (y ∷ ys) = if le x y then x ∷ y ∷ ys else y ∷ insert_sorted le x ys

  abbrev pub sort_by : (A → A → Bool) → List A → List A
  sort_by le [] = []
  sort_by le (x ∷ xs) = insert_sorted le x (sort_by le xs)

module _ {A B : Type 0} where
  abbrev pub flat_map : (A → List B) → List A → List B
  flat_map f [] = []
  flat_map f (x ∷ xs) = f x ++ flat_map f xs

module _ {A : Type 0} where
  pub length-update_where :
      (p : A → Bool) (f : A → A) (xs : List A) → length (update_where p f xs) ≡ length xs
  length-update_where p f [] = refl
  length-update_where p f (x ∷ xs) = omega (arith, length-update_where p f xs)

module _ {A : Type 0} where
  -- An update under which no new row passes a test selects no more rows.
  pub length-select-update_where :
      (p q : A → Bool) (f : A → A) (xs : List A)
      → ((x : A) → q x ≡ true → p (f x) ≡ true → p x ≡ true)
      → length (select p (update_where q f xs)) ≤ length (select p xs)
  length-select-update_where p q f [] h = omega arith
  length-select-update_where p q f (x ∷ xs) h =
      ground (arith, h x, length-select-update_where p q f xs h)

  -- A stronger test selects no more rows.
  pub length-select-imp :
      (p q : A → Bool) (xs : List A)
      → ((x : A) → p x ≡ true → q x ≡ true)
      → length (select p xs) ≤ length (select q xs)
  length-select-imp p q [] h = omega arith
  length-select-imp p q (x ∷ xs) h = ground (arith, h x, length-select-imp p q xs h)

  -- A test that implies one that no row passes.
  pub any-imp :
      (p q : A → Bool) (xs : List A)
      → ((x : A) → p x ≡ true → q x ≡ true)
      → any q xs ≡ false
      → any p xs ≡ false
  any-imp p q [] h e = refl
  any-imp p q (x ∷ xs) h e = ground (arith, h x, any-imp p q xs h)

  pub All-update_where :
      (P : A → Type 0) (q : A → Bool) (f : A → A) (xs : List A)
      → ((x : A) → q x ≡ true → P (f x))
      → ((x : A) → q x ≡ false → P x)
      → All P (update_where q f xs)
  All-update_where P q f [] h k = tt
  All-update_where P q f (x ∷ xs) h k = elim (Bool-cases (q x)) [
    | inl e ↦ rw e (h x e, All-update_where P q f xs h k)
    | inr e ↦ rw e (k x e, All-update_where P q f xs h k)
  ]

  -- An update that changes no row's answer to a test.
  pub any-update_where :
      (p q : A → Bool) (f : A → A) (xs : List A)
      → ((x : A) → p (f x) ≡ p x)
      → any p (update_where q f xs) ≡ any p xs
  any-update_where p q f [] h = refl
  any-update_where p q f (x ∷ xs) h = ground (arith, h x, any-update_where p q f xs h)

  pub any-insert_sorted :
      (p : A → Bool) (le : A → A → Bool) (x : A) (xs : List A)
      → any p (insert_sorted le x xs) ≡ (p x || any p xs)
  any-insert_sorted p le x [] = refl
  any-insert_sorted p le x (y ∷ ys) = ground (arith, any-insert_sorted p le x ys)

  -- Sorting neither loses nor adds a row.
  pub any-sort_by :
      (p : A → Bool) (le : A → A → Bool) (xs : List A) → any p (sort_by le xs) ≡ any p xs
  any-sort_by p le [] = refl
  any-sort_by p le (x ∷ xs) =
      ground (arith, any-insert_sorted p le x (sort_by le xs), any-sort_by p le xs)

  pub any-weaken :
      (p q : A → Bool) (xs : List A)
      → ((x : A) → p x ≡ true → q x ≡ true)
      → any p xs ≡ true
      → any q xs ≡ true
  any-weaken p q [] h e = cc
  any-weaken p q (x ∷ xs) h e = ground (arith, h x, any-weaken p q xs h)

module _ {A B : Type 0} where
  pub All-flat_map :
      (P : A → Type 0) (Q : B → Type 0) (f : A → List B) (xs : List A)
      → ((x : A) → P x → All Q (f x))
      → All P xs
      → All Q (flat_map f xs)
  All-flat_map P Q f [] h k = tt
  All-flat_map P Q f (x ∷ xs) h k =
      All-append Q (f x) (flat_map f xs) (h x k.0) (All-flat_map P Q f xs h k.1)
