-- ===== src/Base/Keys.antt =====
-- Lists of rows whose key is unique: a primary key under insertions, updates and look-ups.
use Prim.Native.Nat.{ℕ}
use mathlib.Core.Path.{◌≡◌, refl, sym, ap, subst, ◌∙◌}
use mathlib.Core.Logic.{◌⊎◌, inl, inr}
use mathlib.Core.Bool.{Bool, true, false}
use mathlib.Core.List.{List, [], ◌∷◌, ◌++◌}
use native.Mathlib.Omega.{arith}
use agent_data_oracle.Base.Tests.{◌==◌, Bool-cases, if◌then◌else◌, ==_iff, ==_refl}
use agent_data_oracle.Base.Lists.{any, select, All, any-append, select-none}
use agent_data_oracle.Base.Tables.{update_where, any-update_where}

module _ {A : Type 0} where
  -- A row stands in a list.
  abbrev pub In : A → List A → Type 0
  In y [] = ⊥
  In y (x ∷ xs) = (x ≡ y) ⊎ In y xs

  pub In-append-left : (y : A) (xs ys : List A) → In y xs → In y (xs ++ ys)
  In-append-left y [] ys h = elim h [ ]
  In-append-left y (x ∷ xs) ys (inl e) = inl e
  In-append-left y (x ∷ xs) ys (inr h) = inr (In-append-left y xs ys h)

  pub In-append-last : (y : A) (xs : List A) → In y (xs ++ y ∷ [])
  In-append-last y [] = inl refl
  In-append-last y (x ∷ xs) = inr (In-append-last y xs)

  pub All-In : (P : A → Type 0) (y : A) (xs : List A) → All P xs → In y xs → P y
  All-In P y [] h i = elim i [ ]
  All-In P y (x ∷ xs) h (inl e) = subst P e h.0
  All-In P y (x ∷ xs) h (inr i) = All-In P y xs h.1 i

  -- What holds of each row that stands in a list.
  pub In-All : (P : A → Type 0) (xs : List A) → ((y : A) → In y xs → P y) → All P xs
  In-All P [] h = tt
  In-All P (x ∷ xs) h = (h x (inl refl), In-All P xs (λ y i. h y (inr i)))

  -- The first selected row stands in the list, and passes the test.
  pub select-In :
      (p : A → Bool) (y : A) (ys xs : List A) → select p xs ≡ y ∷ ys → In y xs × (p y ≡ true)
  select-In p y ys [] h = cc
  select-In p y ys (x ∷ xs) h = elim (Bool-cases (p x)) [
    | inl e ↦ let same : x ≡ y = ground arith in (inl same, ap p (sym same) ∙ e)
    | inr e ↦ let (i, t) = select-In p y ys xs (rw e at h) in (inr i, t)
  ]

  pub any-In : (p : A → Bool) (y : A) (xs : List A) → In y xs → p y ≡ true → any p xs ≡ true
  any-In p y [] i h = elim i [ ]
  any-In p y (x ∷ xs) (inl e) h = let q : p x ≡ true = ap p e ∙ h in rw q
  any-In p y (x ∷ xs) (inr i) h = ground (arith, any-In p y xs i h)

module _ {A : Type 0} (key : A → ℕ) where
  -- A row has the key.
  abbrev pub keyed : ℕ → A → Bool
  keyed k x = key x == k

  abbrev pub Unique : List A → Type 0
  Unique [] = Unit
  Unique (x ∷ xs) = (any (keyed (key x)) xs ≡ false) × Unique xs

  -- A new row whose key no row has.
  pub Unique-append :
      (xs : List A) (x : A) → Unique xs → any (keyed (key x)) xs ≡ false → Unique (xs ++ x ∷ [])
  Unique-append [] x u h = (refl, tt)
  Unique-append (y ∷ ys) x u h =
      (rw any-append (ground (arith, u.0)), Unique-append ys x u.1 (ground arith))

  -- An update that leaves the keys alone.
  pub Unique-update_where :
      (p : A → Bool) (f : A → A) (xs : List A)
      → ((x : A) → key (f x) ≡ key x)
      → Unique xs
      → Unique (update_where p f xs)
  Unique-update_where p f [] same u = tt
  Unique-update_where p f (x ∷ xs) same u =
      let kept : key (if p x then f x else x) ≡ key x = elim (Bool-cases (p x)) [
        | inl e ↦ rw e (same x)
        | inr e ↦ rw e
      ] in
      (
        rw (kept, any-update_where (keyed (key x)) p f xs (λ y. rw (same y))) u.0,
        Unique-update_where p f xs same u.1,
      )

  -- The one row of a key that is there.
  pub select-Unique :
      (k : ℕ) (xs : List A)
      → Unique xs
      → any (keyed k) xs ≡ true
      → (x : A) × (select (keyed k) xs ≡ x ∷ []) × (key x ≡ k)
  select-Unique k [] u h = absurd (ground arith)
  select-Unique k (x ∷ xs) u h = elim (Bool-cases (keyed k x)) [
    | inl e ↦
        let same : key x ≡ k = (==_iff _ k).0 e in
        (x, rw (e, select-none (keyed k) xs (rw same at u.0)), same)
    | inr e ↦
        let (y, found, same) = select-Unique k xs u.1 (ground arith) in (y, rw (e, found), same)
  ]

  -- A row of the table is the only one of its key.
  pub select-In-Unique :
      (y : A) (xs : List A) → Unique xs → In y xs → select (keyed (key y)) xs ≡ y ∷ []
  select-In-Unique y [] u i = elim i [ ]
  select-In-Unique y (x ∷ xs) u (inl e) =
      subst (λ z. select (keyed (key z)) (x ∷ xs) ≡ z ∷ []) e
        (rw (==_refl, select-none (keyed (key x)) xs u.0))
  select-In-Unique y (x ∷ xs) u (inr i) = elim (Bool-cases (keyed (key y) x)) [
    | inl e ↦
        let same : key x ≡ key y = (==_iff _ (key y)).0 e in
        let there = any-In (keyed (key y)) y xs i (==_refl (key y)) in
        let absent : any (keyed (key y)) xs ≡ false = rw (← same) u.0 in cc
    | inr e ↦ rw (e, select-In-Unique y xs u.1 i)
  ]
