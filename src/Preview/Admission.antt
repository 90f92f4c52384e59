-- ===== src/Preview/Admission.antt =====
-- The manual admissions of `preview_access.py`: their lifetime, and that each is consumed once.
use agent_data_oracle.Base.{
  ℕ, ◌+◌, ◌≡◌, refl, Text, text_eq, text_eq_refl, Bool, true, false, ltb, some, [], ◌∷◌, arith, any,
  select, Bool-cases, inl, inr,
}
use agent_data_oracle.Preview.{Admissions, remove_expired, discard, issue, admits, consume}

abbrev holds : Text → Text × ℕ → Bool
holds d a = text_eq a.0 d

-- A deleted digest is in the dict no more.
any-discard : (d : Text) (m : Admissions) → any (holds d) (discard d m) ≡ false
unfolding discard
any-discard d [] = refl
any-discard d (a ∷ m) = ground (arith, any-discard d m)

any-select :
    (p : Text × ℕ → Bool) (d : Text) (m : Admissions)
    → any (holds d) m ≡ false
    → any (holds d) (select p m) ≡ false
any-select p d [] h = refl
any-select p d (a ∷ m) h = ground (arith, any-select p d m)

-- An admission that is issued when the clock reads `later` admits its own token exactly while the
-- clock reads less than 300 seconds more.
pub issued_lifetime :
    (d : Text) (now later t : ℕ) (m : Admissions)
    → (admits (some d) t (issue d now later m)).0 ≡ ltb t (later + 300)
unfolding admits issue remove_expired
issued_lifetime d now later t m =
    let gone : any (holds d) (select (λ a. ltb t a.1) (discard d (remove_expired now m))) ≡ false =
      any-select (λ a. ltb t a.1) d _ (any-discard d (remove_expired now m)) in
    elim (Bool-cases (ltb t (later + 300))) [ inl h ↦ rw (h, text_eq_refl) | inr h ↦ rw (h, gone) ]

consume-eq-true :
    (d : Text) (now : ℕ) (m : Admissions)
    → (consume (some d) now m).0 ≡ true
    → (consume (some d) now m).1 ≡ discard d (remove_expired now m)
unfolding consume admits
consume-eq-true d now m h = ground arith

admits-gone :
    (d : Text) (now : ℕ) (m : Admissions)
    → any (holds d) m ≡ false
    → ((admits (some d) now m).0 ≡ false) × ((consume (some d) now m).0 ≡ false)
unfolding consume admits remove_expired
admits-gone d now m h = let gone = any-select (λ a. ltb now a.1) d m h in (rw gone, rw gone)

-- After a token has been consumed with success it admits nothing, at any time, and cannot be
-- consumed again.
pub consumed_once :
    (d : Text) (now later : ℕ) (m : Admissions)
    → (consume (some d) now m).0 ≡ true
    → ((admits (some d) later (consume (some d) now m).1).0 ≡ false)
      × ((consume (some d) later (consume (some d) now m).1).0 ≡ false)
consumed_once d now later m h =
    rw (consume-eq-true d now m h) (
      admits-gone d later (discard d (remove_expired now m)) (any-discard d (remove_expired now m)))
