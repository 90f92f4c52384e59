-- ===== src/Base/Sorting.antt =====
-- Sorting keeps what stands in a list.
use mathlib.Core.Path.{◌≡◌}
use mathlib.Core.Logic.{◌⊎◌, inl, inr}
use mathlib.Core.Bool.{Bool}
use mathlib.Core.List.{List, [], ◌∷◌}
use agent_data_oracle.Base.Tests.{Bool-cases}
use agent_data_oracle.Base.Lists.{All}
use agent_data_oracle.Base.Tables.{insert_sorted, sort_by}
use agent_data_oracle.Base.Keys.{In}

All-insert_sorted :
    {A : Type 0} (P : A → Type 0) (le : A → A → Bool) (x : A) (xs : List A)
    → P x
    → All P xs
    → All P (insert_sorted le x xs)
All-insert_sorted P le x [] h hs = (h, tt)
All-insert_sorted P le x (y ∷ ys) h (k, ks) = elim (Bool-cases (le x y)) [
  | inl e ↦ rw e (h, (k, ks))
  | inr e ↦ rw e (k, All-insert_sorted P le x ys h ks)
]

pub All-sort_by :
    {A : Type 0} (P : A → Type 0) (le : A → A → Bool) (xs : List A)
    → All P xs
    → All P (sort_by le xs)
All-sort_by P le [] h = tt
All-sort_by P le (x ∷ xs) (h, hs) =
    All-insert_sorted P le x (sort_by le xs) h (All-sort_by P le xs hs)

In-insert_sorted :
    {A : Type 0} (le : A → A → Bool) (x y : A) (ys : List A)
    → (x ≡ y) ⊎ In y ys
    → In y (insert_sorted le x ys)
In-insert_sorted le x y [] h = h
In-insert_sorted le x y (z ∷ zs) (inl e) = elim (Bool-cases (le x z)) [
  | inl f ↦ rw f (inl e)
  | inr f ↦ rw f (inr (In-insert_sorted le x y zs (inl e)))
]
In-insert_sorted le x y (z ∷ zs) (inr (inl e)) = elim (Bool-cases (le x z)) [
  | inl f ↦ rw f (inr (inl e))
  | inr f ↦ rw f (inl e)
]
In-insert_sorted le x y (z ∷ zs) (inr (inr i)) = elim (Bool-cases (le x z)) [
  | inl f ↦ rw f (inr (inr i))
  | inr f ↦ rw f (inr (In-insert_sorted le x y zs (inr i)))
]

pub In-sort_by :
    {A : Type 0} (le : A → A → Bool) (y : A) (xs : List A) → In y xs → In y (sort_by le xs)
In-sort_by le y [] h = h
In-sort_by le y (x ∷ xs) (inl e) = In-insert_sorted le x y (sort_by le xs) (inl e)
In-sort_by le y (x ∷ xs) (inr i) =
    In-insert_sorted le x y (sort_by le xs) (inr (In-sort_by le y xs i))
