-- ===== src/Access/Verifying.antt =====
-- What a verified second factor stands on.
use agent_data_oracle.Base.{
  ℕ, ◌<◌, ◌≡◌, ◌⊎◌, refl, ap, sym, subst, ◌∙◌, Text, text_eq, Bool, true, false, not, ◌||◌, leb,
  Option, none, some, List, [], ◌∷◌, arith, inl, inr, any, select, is_some, In, update_where,
  Bool-cases, Result, ok, err, >>=-eq-ok, settle-eq-ok, Option-cases,
}
use agent_data_oracle.Access.{RecoveryCode, AccessTables, AccessEnv, AccessError}
use agent_data_oracle.Access.Sessions.{AuthenticatedOperator, authenticated_operator}
use agent_data_oracle.Access.Steps.{settled}
use agent_data_oracle.Access.SecondFactor.{
  verified, totp_is_valid, matching_code, unused_of, unused_code, use_code, use_credential,
  factor_attempts, with_factor_attempt, verify_body, verify_as, verify_founder_second_factor,
}

-- The credential is a recovery code of the operator that was unused, and no longer is.
pub record UsesCode (env : AccessEnv) (operator : ℕ) (credential : Text) (s u : AccessTables)
    : Type 0 where
  pub code : RecoveryCode
  pub stored : In code s.recovery_codes
  pub unused : unused_of operator code ≡ true
  pub opens : text_eq (env.recovery_hash credential code.salt) code.code_hash ≡ true
  pub used_up : any (unused_code code.recovery_code_id) u.recovery_codes ≡ false

In-select :
    (p : RecoveryCode → Bool) (y : RecoveryCode) (xs : List RecoveryCode)
    → In y (select p xs)
    → In y xs × (p y ≡ true)
In-select p y [] i = elim i [ ]
In-select p y (x ∷ xs) i = elim (Bool-cases (p x)) [
  | inl e ↦
      let found : (x ≡ y) ⊎ In y (select p xs) = rw e at i in
      elim found [
        | inl same ↦ (inl same, ap p (sym same) ∙ e)
        | inr j ↦ let (k, t) = In-select p y xs j in (inr k, t)
      ]
  | inr e ↦ let (j, t) = In-select p y xs (rw e at i) in (inr j, t)
]

matching_code-In :
    (env : AccessEnv) (credential : Text) (cs : List RecoveryCode) (c : RecoveryCode)
    → matching_code env credential cs ≡ some c
    → In c cs × (text_eq (env.recovery_hash credential c.salt) c.code_hash ≡ true)
unfolding matching_code
matching_code-In env credential [] c h = cc
matching_code-In env credential (x ∷ xs) c h =
    elim (Option-cases (matching_code env credential xs)) [
      | inl e ↦ elim (Bool-cases (text_eq (env.recovery_hash credential x.salt) x.code_hash)) [
        | inl f ↦
            let same : x ≡ c = ground arith in
            (
              inl same,
              ap (λ (y : RecoveryCode). text_eq (env.recovery_hash credential y.salt) y.code_hash)
                    (sym same)
                  ∙ f,
            )
        | inr f ↦ absurd (ground arith)
      ]
      | inr (y, e) ↦
          let same : y ≡ c = ground arith in
          let (i, t) = matching_code-In env credential xs c (e ∙ ap some same) in (inr i, t)
    ]

-- The update leaves no unused row of the code.
used-up :
    (i now : ℕ) (cs : List RecoveryCode)
    → any (unused_code i) (update_where (unused_code i) (λ x. record x { used_at = some now }) cs)
      ≡ false
used-up i now [] = refl
used-up i now (c ∷ cs) = elim (Bool-cases (unused_code i c)) [
  | inl e ↦ rw (e, used-up i now cs) (ground arith)
  | inr e ↦ rw (e, e, used-up i now cs)
]

-- What a verification, at its time, stands on: the one-time code of one of three counters, or a
-- recovery code.
abbrev pub Stands : AccessEnv → ℕ → Text → ℕ → AccessTables → AccessTables → Type 0
Stands env operator credential now s u =
    (totp_is_valid env operator credential now ≡ ok true) ⊎ UsesCode env operator credential s u

use_code-Stands :
    (env : AccessEnv) (token : Text) (operator : ℕ) (credential : Text) (now : ℕ) (s : AccessTables)
    (found : Option RecoveryCode)
    → matching_code env credential (select (unused_of operator) s.recovery_codes) ≡ found
    → (use_code env token now s found).0 ≡ verified
    → UsesCode env operator credential s (use_code env token now s found).1
unfolding use_code
use_code-Stands env token operator credential now s none e h = cc
use_code-Stands env token operator credential now s (some c) e h =
    elim (Bool-cases (any (unused_code c.recovery_code_id) s.recovery_codes)) [
      | inl f ↦
          let (i, opens) =
            matching_code-In env credential (select (unused_of operator) s.recovery_codes) c e in
          let (stored, unused) = In-select (unused_of operator) c s.recovery_codes i in
          rw f (record {
            code = c;
            stored = stored;
            unused = unused;
            opens = opens;
            used_up = used-up c.recovery_code_id now s.recovery_codes;
          })
      | inr f ↦ absurd (ground arith)
    ]

use_credential-Stands :
    (env : AccessEnv) (token : Text) (operator : ℕ) (credential : Text) (now : ℕ) (s : AccessTables)
    (b : Bool)
    → totp_is_valid env operator credential now ≡ ok b
    → (use_credential env token operator credential now s b).0 ≡ verified
    → Stands env operator credential now s (use_credential env token operator credential now s b).1
unfolding use_credential
use_credential-Stands env token operator credential now s true e h = inl e
use_credential-Stands env token operator credential now s false e h =
    inr (use_code-Stands env token operator credential now s _ refl h)

verify_body-Stands :
    (env : AccessEnv) (token : Text) (operator : ℕ) (credential : Text) (now : ℕ)
    (s u : AccessTables)
    → verify_body env token operator credential now s ≡ ok (verified, u)
    → (factor_attempts env token now s < 5)
      × Stands env operator credential now (with_factor_attempt env token now s) u
unfolding verify_body
verify_body-Stands env token operator credential now s u h =
    let attempted = with_factor_attempt env token now s in
    elim (Bool-cases (leb 5 (factor_attempts env token now s))) [
      | inl e ↦ absurd (ground arith)
      | inr e ↦
          let (matched, found, h') =
            >>=-eq-ok (totp_is_valid env operator credential now)
              (λ b. settled (use_credential env token operator credential now attempted b))
              (rw e at h) in
          let outcome = use_credential env token operator credential now attempted matched in
          let good : outcome.0 ≡ verified = ground arith in
          let same : outcome.1 ≡ u = ground arith in
          (
            ground arith,
            subst (Stands env operator credential now attempted) same (
                use_credential-Stands env token operator credential now attempted matched found
                  good),
          )
    ]

verify_as-Stands :
    (env : AccessEnv) (token credential : Text) (now : ℕ) (s : AccessTables)
    (r : Result AccessError (Option AuthenticatedOperator))
    → (verify_as env token credential now s r).0 ≡ ok verified
    → (a : AuthenticatedOperator) × (r ≡ ok (some a))
      × (a.is_founder ≡ true)
      × (is_some a.operator_type ≡ true)
      × (factor_attempts env token now s < 5)
      × Stands env a.operator_id credential now
          (with_factor_attempt env token now s)
          (verify_as env token credential now s r).1
unfolding verify_as
verify_as-Stands env token credential now s (err e) h = cc
verify_as-Stands env token credential now s (ok none) h = cc
verify_as-Stands env token credential now s (ok (some a)) h =
    elim (Bool-cases (not a.is_founder || not (is_some a.operator_type))) [
      | inl e ↦ absurd (ground arith)
      | inr e ↦
          let body = verify_body env token a.operator_id credential now s in
          let (few, stands) =
            verify_body-Stands env token a.operator_id credential now s _
              (settle-eq-ok body s (rw e at h)) in
          (a, refl, ground arith, ground arith, few, rw e stands)
    ]

-- A second factor is verified only for a session that authenticates a founder who has declared
-- themselves, with fewer than five attempts of that session in the last quarter of an hour; and only by
-- a one-time code that is valid at that time, or by a stored recovery code of that founder that was
-- unused and that no unused row holds afterwards.
pub verified_second_factor :
    (env : AccessEnv) (token credential : Text) (now : ℕ) (s : AccessTables)
    → (verify_founder_second_factor env token credential now s).0 ≡ ok verified
    → (a : AuthenticatedOperator) × (authenticated_operator env (some token) now s ≡ ok (some a))
      × (a.is_founder ≡ true)
      × (is_some a.operator_type ≡ true)
      × (factor_attempts env token now s < 5)
      × Stands env a.operator_id credential now s
          (verify_founder_second_factor env token credential now s).1
unfolding verify_founder_second_factor
verified_second_factor env token credential now s h =
    let (a, live, founder, declared, few, stands) =
      verify_as-Stands env token credential now s (authenticated_operator env (some token) now s)
        h in
    (
      a,
      live,
      founder,
      declared,
      few,
      elim stands [
        | inl t ↦ inl t
        | inr u ↦ inr (record {
          code = u.code;
          stored = u.stored;
          unused = u.unused;
          opens = u.opens;
          used_up = u.used_up;
        })
      ],
    )
