-- ===== src/Rights/Deleting.antt =====
-- What a deletion leaves of a table, by the key that it deletes and the key that is asked for.
use agent_data_oracle.Base.{
  ℕ, ◌≡◌, refl, Bool, true, false, ◌==◌, List, [], ◌∷◌, any, select, arith, Bool-cases, inl, inr,
  All, All-true,
}
use agent_data_oracle.Rights.{Hold, active_hold_of}
use agent_data_oracle.Rights.Cleanup.{delete_where}

module _ {A : Type 0} where
  -- A deletion by another key leaves the rows of this one.
  pub select-delete :
      (key : A → ℕ) (i j : ℕ) (xs : List A)
      → (i == j) ≡ false
      → select (λ x. key x == i) (delete_where (λ x. key x == j) xs) ≡ select (λ x. key x == i) xs
  select-delete key i j [] h = refl
  select-delete key i j (x ∷ xs) h = elim (Bool-cases (key x == j)) [
    | inl e ↦
        let other : (key x == i) ≡ false = ground (arith) in
        rw (e, other, select-delete key i j xs h)
    | inr e ↦ elim (Bool-cases (key x == i)) [
      | inl k ↦ rw (e, k, select-delete key i j xs h)
      | inr k ↦ rw (e, k, select-delete key i j xs h)
    ]
  ]

  -- A deletion by another key leaves the presence of this one.
  pub any-delete-other :
      (key : A → ℕ) (i j : ℕ) (xs : List A)
      → (i == j) ≡ false
      → any (λ x. key x == i) (delete_where (λ x. key x == j) xs) ≡ any (λ x. key x == i) xs
  any-delete-other key i j [] h = refl
  any-delete-other key i j (x ∷ xs) h = elim (Bool-cases (key x == j)) [
    | inl e ↦
        let other : (key x == i) ≡ false = ground arith in
        rw (e, other, any-delete-other key i j xs h)
    | inr e ↦ rw (e, any-delete-other key i j xs h)
  ]

  -- A deletion of all that a test accepts leaves nothing of it.
  pub any-delete :
      (p q : A → Bool) (xs : List A)
      → All (λ x. p x ≡ true → q x ≡ true) xs
      → any p (delete_where q xs) ≡ false
  any-delete p q [] h = refl
  any-delete p q (x ∷ xs) (h, hs) = elim (Bool-cases (q x)) [
    | inl e ↦ rw (e, any-delete p q xs hs)
    | inr e ↦
        let refused : p x ≡ false = elim (Bool-cases (p x)) [
          | inl k ↦ let accepted = h k in cc
          | inr k ↦ k
        ] in
        rw (e, refused, any-delete p q xs hs)
  ]

  -- A deletion by a key leaves none of its rows.
  pub any-delete-same : (p : A → Bool) (xs : List A) → any p (delete_where p xs) ≡ false
  any-delete-same p xs = any-delete p p xs (All-true (λ x h. h) xs)

  -- A deletion adds no row.
  pub any-select-none :
      (p q : A → Bool) (xs : List A) → any p xs ≡ false → any p (select q xs) ≡ false
  any-select-none p q [] h = refl
  any-select-none p q (x ∷ xs) h = elim (Bool-cases (q x)) [
    | inl e ↦
        let rest : any p xs ≡ false = ground arith in
        let here : p x ≡ false = ground arith in rw (e, here, any-select-none p q xs rest)
    | inr e ↦ let rest : any p xs ≡ false = ground arith in rw (e, any-select-none p q xs rest)
  ]

pub any-active-delete :
    (i j : ℕ) (hs : List Hold)
    → (i == j) ≡ false
    → any (active_hold_of i) (delete_where (λ (h : Hold). h.operator_id == j) hs)
      ≡ any (active_hold_of i) hs
any-active-delete i j [] e = refl
any-active-delete i j (h ∷ hs) e = elim (Bool-cases (h.operator_id == j)) [
  | inl k ↦
      let other : (h.operator_id == i) ≡ false = ground arith in
      rw (k, other, any-active-delete i j hs e)
  | inr k ↦ rw (k, any-active-delete i j hs e)
]
