-- ===== src/Access/Steps.antt =====
-- The operations of `HumanAccess` that write, and what each leaves of the tables.
use agent_data_oracle.Base.{
  ℕ, ◌≡◌, ◌⊎◌, inl, inr, refl, ap, sym, ◌∙◌, Text, codes, text_eq, text_in, Bool, true, false, not,
  Option, none, some, List, [], ◌∷◌, ◌++◌, arith, any, select, is_some, update_where, leb, ◌||◌,
  Result, ok, err, >>=-eq-ok, settle-keeps, Bool-cases,
}
use agent_data_oracle.Preview.{admits_identity}
use agent_data_oracle.Access.{
  OperatorRow, BrowserSession, RecoveryCode, AccessTables, AccessEnv, AccessError,
}
use agent_data_oracle.Access.SignIn.{
  SignInRequest, TokenDraw, SignInDelivery, SessionDraw, SessionGrant, with_attempts,
  delivery_is_admitted, token_clashes, new_login_token, admit_delivery, deliver_if, request_body,
  request_sign_in, normalize_email, has_email, upsert_operator, new_session, session_clashes,
  open_session, sign_in_as, consumed, consume_body, consume_sign_in_token,
}
use agent_data_oracle.Access.Sessions.{
  record_declaration, finish_declaration, revoke_session, authenticated_operator,
  AuthenticatedOperator, is_live_session,
}
use agent_data_oracle.Access.SecondFactor.{
  CodeDraw, SecondFactorResult, confirm_body, confirm_if, confirm_as, confirm_totp_enrollment,
  use_code, use_credential, verify_body, verify_as, verify_founder_second_factor, may_enrol,
  totp_is_valid, unused_code, factor_attempts, with_factor_attempt,
}

-- A value that a body returns.
abbrev pub settled :
    SecondFactorResult × AccessTables → Result AccessError (SecondFactorResult × AccessTables)
settled x = ok x

-- One call that writes.
pub data Step (env : AccessEnv) : AccessTables → AccessTables → Type 0 where
  requests :
      (q : SignInRequest) (d : TokenDraw) (now : ℕ) (s : AccessTables)
      → Step env s (request_sign_in env q d now s).1
  consumes :
      (d : SessionDraw) (token : Text) (now : ℕ) (s : AccessTables)
      → Step env s (consume_sign_in_token env d token now s).1
  declares :
      (token kind : Text) (sells : Bool) (now : ℕ) (s : AccessTables)
      → Step env s (record_declaration env token kind sells now s).1
  revokes :
      (token : Text) (now : ℕ) (s : AccessTables) → Step env s (revoke_session env token now s)
  confirms :
      (token code : Text) (draws : List CodeDraw) (now : ℕ) (s : AccessTables)
      → Step env s (confirm_totp_enrollment env token code draws now s).1
  verifies :
      (token credential : Text) (now : ℕ) (s : AccessTables)
      → Step env s (verify_founder_second_factor env token credential now s).1

pub data Steps (env : AccessEnv) (s : AccessTables) : AccessTables → Type 0 where
  here : Steps env s s
  next : (t u : AccessTables) → Steps env s t → Step env t u → Steps env s u

-- A request records no delivery, or admits one below the limits with an unused token.
pub record Delivers (env : AccessEnv) (q : SignInRequest) (d : TokenDraw) (now : ℕ)
    (s s' : AccessTables) : Type 0 where
  pub email : Text
  pub admitted : delivery_is_admitted env q email now s ≡ true
  pub unused : any (token_clashes (new_login_token env d email now)) s.login_tokens ≡ false
  pub grown : s'.admissions ≡ s.admissions ++ now ∷ []
  pub tokens : s'.login_tokens ≡ s.login_tokens ++ new_login_token env d email now ∷ []

-- The admissions and the login tokens stay.
abbrev pub SameMail : AccessTables → AccessTables → Type 0
SameMail s s' = (s'.admissions ≡ s.admissions) × (s'.login_tokens ≡ s.login_tokens)

deliver_if-cases :
    (env : AccessEnv) (q : SignInRequest) (d : TokenDraw) (email : Text) (now : ℕ)
    (s : AccessTables) (b : Bool) (a : Option SignInDelivery) (s' : AccessTables)
    → delivery_is_admitted env q email now s ≡ b
    → deliver_if env q d email now (with_attempts env q (some email) now s) b ≡ ok (a, s')
    → (s'.sessions ≡ s.sessions) × (SameMail s s' ⊎ Delivers env q d now s s')
unfolding deliver_if admit_delivery
deliver_if-cases env q d email now s false a s' f h =
    (ground arith, inl (ground arith, ground arith))
deliver_if-cases env q d email now s true a s' f h = (
  ground arith,
  inr (record {
    email = email;
    admitted = f;
    unused = ground arith;
    grown = ground arith;
    tokens = ground arith;
  }),
)

pub request_body-cases :
    (env : AccessEnv) (q : SignInRequest) (d : TokenDraw) (now : ℕ) (normalized : Option Text)
    (s : AccessTables) (a : Option SignInDelivery) (s' : AccessTables)
    → request_body env q d now normalized s ≡ ok (a, s')
    → (s'.sessions ≡ s.sessions) × (SameMail s s' ⊎ Delivers env q d now s s')
unfolding request_body
request_body-cases env q d now none s a s' h = (ground arith, inl (ground arith, ground arith))
request_body-cases env q d now (some email) s a s' h =
    deliver_if-cases env q d email now s _ a s' refl h

-- What a consumption adds to the sessions, if anything.
abbrev pub Opens : AccessEnv → SessionDraw → ℕ → AccessTables → AccessTables → Type 0
Opens env d now s s' =
    (s'.sessions ≡ s.sessions)
    ⊎ ((i : ℕ) × (any (session_clashes (new_session env d i now)) s.sessions ≡ false)
        × (s'.sessions ≡ s.sessions ++ new_session env d i now ∷ []))

upsert_operator-frame :
    (env : AccessEnv) (d : SessionDraw) (email : Text) (now : ℕ) (s : AccessTables)
    (os : List OperatorRow) (o : OperatorRow) (s' : AccessTables)
    → upsert_operator env d email now s os ≡ ok (o, s')
    → (s'.sessions ≡ s.sessions) × SameMail s s'
unfolding upsert_operator
upsert_operator-frame env d email now s (p ∷ _) o s' h = ground arith
upsert_operator-frame env d email now s [] o s' h = ground arith

open_session-Opens :
    (env : AccessEnv) (d : SessionDraw) (now : ℕ) (o : OperatorRow) (s : AccessTables)
    (a : Option SessionGrant) (s' : AccessTables)
    → open_session env d now (o, s) ≡ ok (a, s')
    → (any (session_clashes (new_session env d o.operator_id now)) s.sessions ≡ false)
      × (s'.sessions ≡ s.sessions ++ new_session env d o.operator_id now ∷ [])
      × SameMail s s'
unfolding open_session
open_session-Opens env d now o s a s' h = ground arith

sign_in_as-Opens :
    (env : AccessEnv) (d : SessionDraw) (now : ℕ) (email : Option Text) (s : AccessTables)
    (a : Option SessionGrant) (s' : AccessTables)
    → sign_in_as env d now email s ≡ ok (a, s')
    → Opens env d now s s' × SameMail s s'
unfolding sign_in_as
sign_in_as-Opens env d now none s a s' h = (inl (ground arith), ground arith)
sign_in_as-Opens env d now (some email) s a s' h =
    elim (Bool-cases (not (admits_identity env.unicode env.preview email))) [
      | inl refused ↦
          let same : s ≡ s' = ground arith in (inl (rw (← same)), (rw (← same), rw (← same)))
      | inr admitted ↦
          let ((o, t), e, h') =
            >>=-eq-ok (upsert_operator env d email now s (select (has_email email) s.operators))
              (open_session env d now) (rw admitted at h) in
          let (sessions, (mail, tokens)) = upsert_operator-frame env d email now s _ o t e in
          let (free, grown, (mail', tokens')) = open_session-Opens env d now o t a s' h' in
          (
            inr (
              o.operator_id,
              ap (λ xs. any (session_clashes (new_session env d o.operator_id now)) xs)
                    (sym sessions)
                  ∙ free,
              grown ∙ ap (λ xs. xs ++ new_session env d o.operator_id now ∷ []) sessions,
            ),
            (mail' ∙ mail, tokens' ∙ tokens),
          )
    ]

pub consume_body-Opens :
    (env : AccessEnv) (d : SessionDraw) (token : Text) (now : ℕ) (s : AccessTables)
    (a : Option SessionGrant) (s' : AccessTables)
    → consume_body env d token now s ≡ ok (a, s')
    → Opens env d now s s' × SameMail (consumed env token now s) s'
unfolding consume_body
consume_body-Opens env d token now s a s' h =
    sign_in_as-Opens env d now _ (consumed env token now s) a s' h

-- The tables that hold sign-in's limits and tokens, and the sessions but for their second factor.
abbrev pub SameSessions : AccessTables → AccessTables → Type 0
SameSessions s s' =
    SameMail s s'
    × ((s'.sessions ≡ s.sessions)
        ⊎ ((test : BrowserSession → Bool) × (now : ℕ) × (s'.sessions
              ≡ update_where test (λ x. record x { founder_second_factor_at = some now })
                  s.sessions)))

declare-SameSessions :
    (env : AccessEnv) (token kind : Text) (sells : Bool) (now : ℕ) (s : AccessTables)
    → SameSessions s (record_declaration env token kind sells now s).1
unfolding record_declaration
declare-SameSessions env token kind sells now s =
    elim (Bool-cases
      (not (text_in kind (codes "business_operator" ∷ codes "agent_operator" ∷ [])))) [
        | inl e ↦ rw e ((refl, refl), inl refl)
        | inr e ↦ rw e (finish _)
      ]
  where
    finish :
        (r : Result AccessError (Option BrowserSession))
        → SameSessions s (finish_declaration kind sells now s r).1
    finish (err e) = ((refl, refl), inl refl)
    finish (ok none) = ((refl, refl), inl refl)
    finish (ok (some x)) = ((refl, refl), inl refl)

confirm_body-SameSessions :
    (env : AccessEnv) (token : Text) (operator : ℕ) (draws : List CodeDraw) (now : ℕ)
    (s : AccessTables) (x : Option (List Text)) (s' : AccessTables)
    → confirm_body env token operator draws now s ≡ ok (x, s')
    → SameSessions s s'
unfolding confirm_body
confirm_body-SameSessions env token operator draws now s x s' h = (
  ground arith,
  inr (λ x. text_eq x.token_hash (env.digest (codes "session") token), now, ground arith),
)

confirm-SameSessions :
    (env : AccessEnv) (token code : Text) (draws : List CodeDraw) (now : ℕ) (s : AccessTables)
    (r : Result AccessError (Option AuthenticatedOperator))
    → SameSessions s (confirm_as env token code draws now s r).1
unfolding confirm_as
confirm-SameSessions env token code draws now s (err e) = ((refl, refl), inl refl)
confirm-SameSessions env token code draws now s (ok none) = ((refl, refl), inl refl)
confirm-SameSessions env token code draws now s (ok (some a)) =
    elim (Bool-cases (may_enrol a now s)) [
      | inl e ↦ rw e (confirmed (totp_is_valid env a.operator_id code now))
      | inr e ↦ rw e ((refl, refl), inl refl)
    ]
  where
    confirmed :
        (m : Result AccessError Bool)
        → SameSessions s (confirm_if env token a.operator_id draws now s m).1
    confirmed (err e) = ((refl, refl), inl refl)
    confirmed (ok false) = ((refl, refl), inl refl)
    confirmed (ok true) =
        settle-keeps (SameSessions s) (confirm_body env token a.operator_id draws now s) s
          ((refl, refl), inl refl) (confirm_body-SameSessions env token a.operator_id draws now s)

use_code-SameSessions :
    (env : AccessEnv) (token : Text) (now : ℕ) (s : AccessTables) (c : Option RecoveryCode)
    → SameSessions s (use_code env token now s c).1
unfolding use_code
use_code-SameSessions env token now s none = ((refl, refl), inl refl)
use_code-SameSessions env token now s (some c) =
    elim (Bool-cases (any (unused_code c.recovery_code_id) s.recovery_codes)) [
      | inl e ↦ rw e ((refl, refl), inr (is_live_session env token now, now, refl))
      | inr e ↦ rw e ((refl, refl), inl refl)
    ]

use_credential-SameSessions :
    (env : AccessEnv) (token : Text) (operator : ℕ) (credential : Text) (now : ℕ) (s : AccessTables)
    (b : Bool)
    → SameSessions s (use_credential env token operator credential now s b).1
unfolding use_credential
use_credential-SameSessions env token operator credential now s true =
    ((refl, refl), inr (is_live_session env token now, now, refl))
use_credential-SameSessions env token operator credential now s false =
    use_code-SameSessions env token now s _

verify_body-SameSessions :
    (env : AccessEnv) (token : Text) (operator : ℕ) (credential : Text) (now : ℕ) (s : AccessTables)
    (x : SecondFactorResult) (s' : AccessTables)
    → verify_body env token operator credential now s ≡ ok (x, s')
    → SameSessions s s'
unfolding verify_body
verify_body-SameSessions env token operator credential now s x s' h =
    elim (Bool-cases (leb 5 (factor_attempts env token now s))) [
      | inl e ↦
          let same : with_factor_attempt env token now s ≡ s' = ground arith in
          rw (← same) ((refl, refl), inl refl)
      | inr e ↦
          let (matched, _, h') =
            >>=-eq-ok (totp_is_valid env operator credential now)
              (λ b. settled (
                use_credential env token operator credential now
                  (with_factor_attempt env token now s) b))
              (rw e at h) in
          let same : (use_credential env token operator credential now
                (with_factor_attempt env token now s) matched).1
              ≡ s' =
            ground arith in
          rw (← same) (
            use_credential-SameSessions env token operator credential now
              (with_factor_attempt env token now s) matched)
    ]

verify-SameSessions :
    (env : AccessEnv) (token credential : Text) (now : ℕ) (s : AccessTables)
    (r : Result AccessError (Option AuthenticatedOperator))
    → SameSessions s (verify_as env token credential now s r).1
unfolding verify_as
verify-SameSessions env token credential now s (err e) = ((refl, refl), inl refl)
verify-SameSessions env token credential now s (ok none) = ((refl, refl), inl refl)
verify-SameSessions env token credential now s (ok (some a)) =
    elim (Bool-cases (not a.is_founder || not (is_some a.operator_type))) [
      | inl e ↦ rw e ((refl, refl), inl refl)
      | inr e ↦ rw e (
          settle-keeps (SameSessions s) (verify_body env token a.operator_id credential now s) s
            ((refl, refl), inl refl)
            (verify_body-SameSessions env token a.operator_id credential now s))
    ]

-- What a call does to the admissions, the login tokens and the sessions.
pub data Effect (env : AccessEnv) (s u : AccessTables) : Type 0 where
  delivers :
      (q : SignInRequest) (d : TokenDraw) (now : ℕ)
      → u.sessions ≡ s.sessions
      → Delivers env q d now s u
      → Effect env s u
  signs_in :
      (d : SessionDraw) (token : Text) (now : ℕ)
      → Opens env d now s u
      → SameMail (consumed env token now s) u
      → Effect env s u
  ends : (token : Text) (now : ℕ) → u ≡ revoke_session env token now s → Effect env s u
  touches : SameSessions s u → Effect env s u

unchanged-Effect : (env : AccessEnv) (s : AccessTables) → Effect env s s
unchanged-Effect env s = touches ((refl, refl), inl refl)

request-Effect :
    (env : AccessEnv) (q : SignInRequest) (d : TokenDraw) (now : ℕ) (s u : AccessTables)
    → (u.sessions ≡ s.sessions) × (SameMail s u ⊎ Delivers env q d now s u)
    → Effect env s u
request-Effect env q d now s u (same, inl mail) = touches (mail, inl same)
request-Effect env q d now s u (same, inr v) = delivers q d now same v

pub Step-Effect : (env : AccessEnv) {s u : AccessTables} → Step env s u → Effect env s u
unfolding request_sign_in consume_sign_in_token confirm_totp_enrollment verify_founder_second_factor
Step-Effect env (requests q d now s) =
    settle-keeps (Effect env s) (request_body env q d now (normalize_email env.unicode q.email) s) s
      (unchanged-Effect env s)
      λ a s' h. request-Effect env q d now s s' (request_body-cases env q d now _ s a s' h)
Step-Effect env (consumes d token now s) =
    settle-keeps (Effect env s) (consume_body env d token now s) s (unchanged-Effect env s)
      λ a s' h.
        let (opens, mail) = consume_body-Opens env d token now s a s' h in
        signs_in d token now opens mail
Step-Effect env (declares token kind sells now s) =
    touches (declare-SameSessions env token kind sells now s)
Step-Effect env (revokes token now s) = ends token now refl
Step-Effect env (confirms token code draws now s) = touches (
    confirm-SameSessions env token code draws now s (authenticated_operator env (some token) now s))
Step-Effect env (verifies token credential now s) =
    touches (
      verify-SameSessions env token credential now s
        (authenticated_operator env (some token) now s))
