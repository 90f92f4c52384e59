-- ===== src/Access/Revoking.antt =====
-- A session that is revoked never authenticates again.
use agent_data_oracle.Base.{
  ℕ, ◌≡◌, ◌≢◌, refl, ap, ◌∙◌, Text, codes, text_eq, text_eq_sound, Bool, true, false, some, List,
  [], ◌∷◌, arith, inl, inr, any, is_some, All, All-append, any-append, any-update_where, any-imp,
  any-weaken, select-none, update_where, Bool-cases, ok,
}
use agent_data_oracle.Access.{BrowserSession, AccessTables, AccessEnv}
use agent_data_oracle.Access.SignIn.{new_session, session_clashes}
use agent_data_oracle.Access.Sessions.{
  AuthenticatedOperator, is_live_session, session_rows, admitted_operator, authenticated_operator,
  revocable_session, revoke_session,
}
use agent_data_oracle.Access.Steps.{
  Steps, here, next, Effect, delivers, signs_in, ends, touches, Step-Effect,
}

abbrev pub of_hash : Text → BrowserSession → Bool
of_hash h x = text_eq x.token_hash h

-- A session of the hash has been revoked.
abbrev pub Ended : Text → BrowserSession → Type 0
Ended h x = of_hash h x ≡ true → is_some x.revoked_at ≡ true

pub record IsEnded (h : Text) (s : AccessTables) : Type 0 where
  pub present : any (of_hash h) s.sessions ≡ true
  pub ended : All (Ended h) s.sessions

-- An update that leaves hashes alone and takes no revocation back.
updated-Ended :
    (h : Text) (q : BrowserSession → Bool) (f : BrowserSession → BrowserSession)
    (xs : List BrowserSession)
    → ((x : BrowserSession) → Ended h x → Ended h (f x))
    → All (Ended h) xs
    → All (Ended h) (update_where q f xs)
updated-Ended h q f [] keep a = tt
updated-Ended h q f (x ∷ xs) keep a = elim (Bool-cases (q x)) [
  | inl e ↦ rw e (keep x a.0, updated-Ended h q f xs keep a.1)
  | inr e ↦ rw e (a.0, updated-Ended h q f xs keep a.1)
]

Effect-IsEnded :
    (h : Text) (env : AccessEnv) (s u : AccessTables) → Effect env s u → IsEnded h s → IsEnded h u
Effect-IsEnded h env s u (delivers q d now same _) a = record {
  present = rw same a.present;
  ended = rw same a.ended;
}
Effect-IsEnded h env s u (signs_in d token now (inl same) _) a = record {
  present = rw same a.present;
  ended = rw same a.ended;
}
Effect-IsEnded h env s u (signs_in d token now (inr (i, free, grown)) _) a =
    let new = new_session env d i now in
    let other : of_hash h new ≡ false = elim (Bool-cases (of_hash h new)) [
      | inl e ↦
          let same : new.token_hash ≡ h = text_eq_sound new.token_hash h e in
          let absent : any (of_hash h) s.sessions ≡ false =
            any-imp (of_hash h) (session_clashes new) s.sessions
              (λ x p. let q = ap (text_eq x.token_hash) same ∙ p in ground arith) free in
          cc
      | inr e ↦ e
    ] in
    record {
      present = rw (grown, any-append, a.present);
      ended =
          rw grown
            (All-append (Ended h) s.sessions (new ∷ []) a.ended ((λ p. absurd (ground arith)), tt));
    }
Effect-IsEnded h env s u (ends token now e) a =
    unfold revoke_session in
    rw e (record {
      present =
          rw
            (any-update_where (of_hash h) (revocable_session env token)
              (λ x. record x { revoked_at = some now }) s.sessions (λ x. refl))
            a.present;
      ended =
          updated-Ended h (revocable_session env token) (λ x. record x { revoked_at = some now })
            s.sessions (λ x p q. refl) a.ended;
    })
Effect-IsEnded h env s u (touches (_, inl same)) a = record {
  present = rw same a.present;
  ended = rw same a.ended;
}
Effect-IsEnded h env s u (touches (_, inr (test, now, e))) a = record {
  present =
      rw
        (
          e,
          any-update_where (of_hash h) test (λ x. record x { founder_second_factor_at = some now })
              s.sessions (λ x. refl),
        )
        a.present;
  ended = rw e (
      updated-Ended h test (λ x. record x { founder_second_factor_at = some now }) s.sessions
        (λ x p. p) a.ended);
}

Steps-IsEnded :
    (h : Text) (env : AccessEnv) {s t : AccessTables} → Steps env s t → IsEnded h s → IsEnded h t
Steps-IsEnded h env here a = a
Steps-IsEnded h env (next t u before step) a =
    Effect-IsEnded h env t u (Step-Effect env step) (Steps-IsEnded h env before a)

revoked-Ended :
    (env : AccessEnv) (token : Text) (now : ℕ) (xs : List BrowserSession)
    → All
        (Ended (env.digest (codes "session") token))
        (update_where (revocable_session env token) (λ x. record x { revoked_at = some now }) xs)
revoked-Ended env token now [] = tt
revoked-Ended env token now (x ∷ xs) = elim (Bool-cases (revocable_session env token x)) [
  | inl e ↦ rw e ((λ p. refl), revoked-Ended env token now xs)
  | inr e ↦ rw e ((λ p. ground arith), revoked-Ended env token now xs)
]

Ended-not-live :
    (env : AccessEnv) (token : Text) (now : ℕ) (xs : List BrowserSession)
    → All (Ended (env.digest (codes "session") token)) xs
    → any (is_live_session env token now) xs ≡ false
Ended-not-live env token now [] a = refl
Ended-not-live env token now (x ∷ xs) a = ground (arith, a.0, Ended-not-live env token now xs a.1)

-- An operator is authenticated by a live session.
authenticated-live :
    (env : AccessEnv) (token : Text) (now : ℕ) (s : AccessTables) (a : AuthenticatedOperator)
    → authenticated_operator env (some token) now s ≡ ok (some a)
    → any (is_live_session env token now) s.sessions ≡ true
unfolding authenticated_operator session_rows admitted_operator
authenticated-live env token now s a h =
    elim (Bool-cases (any (is_live_session env token now) s.sessions)) [
      | inl e ↦ e
      | inr e ↦
          let empty = select-none (is_live_session env token now) s.sessions e in
          let refused = rw empty at h in cc
    ]

-- Once a session that authenticated its operator has been revoked, its token authenticates nobody,
-- whatever calls of the human access follow and whatever the clock reads.
pub revoked_session_stays_out :
    (env : AccessEnv) (token : Text) (now at' later : ℕ) (s : AccessTables) {t : AccessTables}
    (a b : AuthenticatedOperator)
    → authenticated_operator env (some token) now s ≡ ok (some a)
    → Steps env (revoke_session env token at' s) t
    → authenticated_operator env (some token) later t ≢ ok (some b)
unfolding revoke_session
revoked_session_stays_out env token now at' later s {t} a b live steps again =
    let h = env.digest (codes "session") token in
    let start : IsEnded h (revoke_session env token at' s) = record {
      present =
          rw
            (any-update_where (of_hash h) (revocable_session env token)
              (λ x. record x { revoked_at = some at' }) s.sessions (λ x. refl))
            (any-weaken (is_live_session env token now) (of_hash h) s.sessions (λ x p. ground arith)
              (authenticated-live env token now s a live));
      ended = revoked-Ended env token at' s.sessions;
    } in
    let ended = Steps-IsEnded h env steps start in
    let dead = Ended-not-live env token later t.sessions ended.ended in
    let alive = authenticated-live env token later t b again in cc
