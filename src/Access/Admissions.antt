-- ===== src/Access/Admissions.antt =====
-- The limit on sign-in deliveries, over every sequence of calls.
use agent_data_oracle.Base.{
  ℕ, ◌+◌, ◌≤◌, ◌<◌, ◌≡◌, Text, Bool, true, ◌&&◌, ltb, leb, List, [], ◌∷◌, ◌++◌, arith, length, inl,
  inr, select, select-append, length-append, length-select-imp, Bool-cases,
}
use agent_data_oracle.Access.{
  AccessTables, AccessEnv, sign_in_delivery_limit, sign_in_delivery_window,
}
use agent_data_oracle.Access.SignIn.{SignInRequest, delivery_is_admitted, recent_admissions}
use agent_data_oracle.Access.Sessions.{revoke_session}
use agent_data_oracle.Access.Steps.{
  Steps, here, next, Effect, delivers, signs_in, ends, touches, Step-Effect,
}

-- The admissions in the day that follows an instant.
abbrev pub in_day : ℕ → ℕ → Bool
in_day start t = ltb start t && leb t (start + sign_in_delivery_window)

abbrev pub AdmissionsBounded : AccessTables → Type 0
AdmissionsBounded s =
    (start : ℕ) → length (select (in_day start) s.admissions) ≤ sign_in_delivery_limit

day-window :
    (start now : ℕ)
    → now ≤ start + sign_in_delivery_window
    → (t : ℕ) → in_day start t ≡ true
    → ltb now (t + sign_in_delivery_window) ≡ true
day-window start now h t e = ground arith

admitted-below :
    (env : AccessEnv) (q : SignInRequest) (email : Text) (now : ℕ) (s : AccessTables)
    → delivery_is_admitted env q email now s ≡ true
    → recent_admissions now s.admissions < sign_in_delivery_limit
unfolding delivery_is_admitted
admitted-below env q email now s h = ground arith

-- One more admission, below the limit of the day that ends with it.
admit-AdmissionsBounded :
    (now : ℕ) (ts : List ℕ)
    → recent_admissions now ts < sign_in_delivery_limit
    → ((start : ℕ) → length (select (in_day start) ts) ≤ sign_in_delivery_limit)
    → (start : ℕ) → length (select (in_day start) (ts ++ now ∷ [])) ≤ sign_in_delivery_limit
unfolding recent_admissions
admit-AdmissionsBounded now ts below h start =
    rw (select-append, length-append)
      (elim (Bool-cases (in_day start now)) [
        | inl e ↦
            let near : now ≤ start + sign_in_delivery_window = ground arith in
            let fits =
              length-select-imp (in_day start) (λ t. ltb now (t + sign_in_delivery_window)) ts
                (day-window start now near) in
            ground (arith, fits)
        | inr e ↦ ground (arith, h start)
      ])

Effect-AdmissionsBounded :
    (env : AccessEnv) (s u : AccessTables)
    → Effect env s u
    → AdmissionsBounded s
    → AdmissionsBounded u
Effect-AdmissionsBounded env s u (delivers q d now _ v) h =
    rw v.grown
      (admit-AdmissionsBounded now s.admissions (admitted-below env q v.email now s v.admitted) h)
Effect-AdmissionsBounded env s u (signs_in d token now _ (same, _)) h = rw same h
Effect-AdmissionsBounded env s u (ends token now e) h = unfold revoke_session in rw e h
Effect-AdmissionsBounded env s u (touches ((same, _), _)) h = rw same h

-- From tables that respect it, every sequence of calls, at whatever times the clock reads, keeps
-- this: at most one hundred sign-in deliveries are admitted in the day after any instant, for all
-- addresses and networks together.
pub Steps-AdmissionsBounded :
    (env : AccessEnv) {s t : AccessTables}
    → AdmissionsBounded s
    → Steps env s t
    → AdmissionsBounded t
Steps-AdmissionsBounded env h here = h
Steps-AdmissionsBounded env h (next t u before step) =
    Effect-AdmissionsBounded env t u (Step-Effect env step) (Steps-AdmissionsBounded env h before)
