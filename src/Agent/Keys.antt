-- ===== src/Agent/Keys.antt =====
-- The limit on active keys, over every sequence of calls of `AgentAccess`.
use agent_data_oracle.Base.{
  ℕ, ◌+◌, ◌≤◌, ◌<◌, ◌≡◌, Text, ◌∷◌, [], List, ◌++◌, arith, select-append, length-append,
  length-select-update_where, ok, settle-keeps, sort_by, text_le, false, some, any,
}
use agent_data_oracle.Base.{
  or_raise, one_or_none, ◌>>=◌, ◌==◌, update_where, >>=-eq-ok, or_raise-eq-ok, one_or_none-eq-some,
}
use agent_data_oracle.Agent.{
  Operator, authentication, multiple_results, find_key, check_and_admit, recent_attempts,
  requests_per_minute, AgentEnv, AgentKey, AgentTables, KeyDraw, CreatedKey, AgentPrincipal,
  create_body, create_key, revoke_key, admit_request, bearer_prefix, keys_of_prefix, check_key,
  authenticate_body, authenticate, active_count, active_of, new_key, clashes, secret_of,
  max_active_agent_keys, revocable,
}

-- One call of `AgentAccess` that writes.
pub data Call (env : AgentEnv) : AgentTables → AgentTables → Type 0 where
  create :
      (operator : ℕ) (scopes : List Text) (d : KeyDraw) (now : ℕ) (s : AgentTables)
      → Call env s (create_key env operator scopes d now s).1
  revoke : (operator i now : ℕ) (s : AgentTables) → Call env s (revoke_key operator i now s).1
  request :
      (bearer required : Text) (now : ℕ) (s : AgentTables)
      → Call env s (authenticate env bearer required now s).1

pub data Calls (env : AgentEnv) (s : AgentTables) : AgentTables → Type 0 where
  here : Calls env s s
  next : {t u : AgentTables} → Calls env s t → Call env t u → Calls env s u

-- A key is created only below the limit and with unused columns, and is added to the table.
pub create_body-eq-ok :
    (env : AgentEnv) (operator : ℕ) (scopes : List Text) (d : KeyDraw) (now : ℕ) (s : AgentTables)
    (a : CreatedKey) (s' : AgentTables)
    → create_body env operator scopes d now s ≡ ok (a, s')
    → (active_count operator s.keys < max_active_agent_keys)
      × (s'.keys ≡ s.keys ++ new_key env operator (sort_by text_le scopes) d now ∷ [])
      × (s'.attempts ≡ s.attempts)
      × (s'.operators ≡ s.operators)
      × (any (clashes d) s.keys ≡ false)
      × (a.secret ≡ secret_of d)
      × (a.scopes ≡ sort_by text_le scopes)
unfolding create_body
create_body-eq-ok env operator scopes d now s a s' h = ground arith

abbrev pub KeysBounded : AgentTables → Type 0
KeysBounded s = (operator : ℕ) → active_count operator s.keys ≤ max_active_agent_keys

active_count-append :
    (operator : ℕ) (ks : List AgentKey) (k : AgentKey)
    → active_count operator (ks ++ k ∷ [])
      ≡ active_count operator ks + active_count operator (k ∷ [])
unfolding active_count
active_count-append operator ks k = rw select-append (length-append _ _)

create-KeysBounded :
    (env : AgentEnv) (operator : ℕ) (scopes : List Text) (d : KeyDraw) (now : ℕ) (s : AgentTables)
    → KeysBounded s
    → KeysBounded (create_key env operator scopes d now s).1
unfolding create_key
create-KeysBounded env operator scopes d now s h =
    settle-keeps KeysBounded (create_body env operator scopes d now s) s h λ a s' e other.
      let (below, ks, _, _, _, _, _) = create_body-eq-ok env operator scopes d now s a s' e in
      rw (ks, active_count-append) (unfold active_count in ground (arith, h other))

revoke-KeysBounded :
    (operator i now : ℕ) (s : AgentTables)
    → KeysBounded s
    → KeysBounded (revoke_key operator i now s).1
unfolding revoke_key active_count
revoke-KeysBounded operator i now s h other = omega (
  arith,
  h other,
  length-select-update_where (active_of other) (revocable operator i)
      (λ k. record k { revoked_at = some now }) s.keys (λ k _ e. ground arith),
)

-- A successful request found one active key of its prefix, which passed the checks, and was let
-- through by the limit.
pub record Admitted (env : AgentEnv) (bearer required : Text) (now : ℕ) (s : AgentTables)
    (a : AgentPrincipal) (s' : AgentTables) : Type 0 where
  pub prefix : Text
  pub key : AgentKey
  pub operator : Operator
  pub well_formed : bearer_prefix bearer ≡ some prefix
  pub found : keys_of_prefix prefix s ≡ (key, operator) ∷ []
  pub checked : check_key env bearer required (key, operator) ≡ ok key
  pub admitted : admit_request key now s ≡ ok (a, s')

check_key-eq-ok :
    (env : AgentEnv) (bearer required : Text) (k j : AgentKey) (o : Operator)
    → check_key env bearer required (k, o) ≡ ok j
    → j ≡ k
unfolding check_key
check_key-eq-ok env bearer required k j o h = ground arith

find_key-eq-ok :
    (p : Text) (s : AgentTables) (row : AgentKey × Operator)
    → find_key p s ≡ ok row
    → keys_of_prefix p s ≡ row ∷ []
unfolding find_key
find_key-eq-ok p s row h =
    let (found, e, h') =
      >>=-eq-ok (one_or_none multiple_results (keys_of_prefix p s)) (or_raise authentication) h in
    one_or_none-eq-some multiple_results _ (rw (or_raise-eq-ok authentication found h') at e)

pub authenticate_body-eq-ok :
    (env : AgentEnv) (bearer required : Text) (now : ℕ) (s : AgentTables) (a : AgentPrincipal)
    (s' : AgentTables)
    → authenticate_body env bearer required now s ≡ ok (a, s')
    → Admitted env bearer required now s a s'
unfolding authenticate_body check_and_admit
authenticate_body-eq-ok env bearer required now s a s' h =
    let (prefix, e₁, h₁) =
      >>=-eq-ok (or_raise authentication (bearer_prefix bearer))
        (λ p. find_key p s >>= check_and_admit env bearer required now s) h in
    let ((k, o), e₂, h₂) =
      >>=-eq-ok (find_key prefix s) (check_and_admit env bearer required now s) h₁ in
    let (j, e₃, h₃) =
      >>=-eq-ok (check_key env bearer required (k, o)) (λ j. admit_request j now s) h₂ in
    let same = check_key-eq-ok env bearer required k j o e₃ in
    record {
      prefix = prefix;
      key = k;
      operator = o;
      well_formed = or_raise-eq-ok authentication _ e₁;
      found = find_key-eq-ok prefix s (k, o) e₂;
      checked = rw same at e₃;
      admitted = rw same at h₃;
    }

-- An admitted request was below the limit, is recorded, and changes no other column of a key.
pub admit_request-eq-ok :
    (k : AgentKey) (now : ℕ) (s : AgentTables) (a : AgentPrincipal) (s' : AgentTables)
    → admit_request k now s ≡ ok (a, s')
    → (recent_attempts k.agent_key_id now s.attempts < requests_per_minute)
      × (s'.attempts
          ≡ s.attempts ++ record { agent_key_id = k.agent_key_id; attempted_at = now } ∷ [])
      × (s'.keys
          ≡ update_where
              (λ j. j.agent_key_id == k.agent_key_id)
              (λ j. record j { last_used_at = some now })
              s.keys)
      × (s'.operators ≡ s.operators)
      × (a ≡ record {
        agent_key_id = k.agent_key_id;
        operator_id = k.operator_id;
        scopes = k.scopes;
      })
unfolding admit_request
admit_request-eq-ok k now s a s' h = ground arith

authenticate-KeysBounded :
    (env : AgentEnv) (bearer required : Text) (now : ℕ) (s : AgentTables)
    → KeysBounded s
    → KeysBounded (authenticate env bearer required now s).1
unfolding authenticate
authenticate-KeysBounded env bearer required now s h =
    settle-keeps KeysBounded (authenticate_body env bearer required now s) s h λ a s' e other.
      let v = authenticate_body-eq-ok env bearer required now s a s' e in
      let (_, _, ks, _, _) = admit_request-eq-ok v.key now s a s' v.admitted in
      rw ks (
        unfold active_count in
        omega (
          arith,
          h other,
          length-select-update_where (active_of other) (λ j. j.agent_key_id == v.key.agent_key_id)
              (λ j. record j { last_used_at = some now }) s.keys (λ k _ p. p),
        ))

Call-KeysBounded :
    (env : AgentEnv) {s t : AgentTables} → Call env s t → KeysBounded s → KeysBounded t
Call-KeysBounded env (Call.create operator scopes d now s) h =
    create-KeysBounded env operator scopes d now s h
Call-KeysBounded env (revoke operator i now s) h = revoke-KeysBounded operator i now s h
Call-KeysBounded env (request bearer required now s) h =
    authenticate-KeysBounded env bearer required now s h

-- From tables in which no operator has more than three active keys, no sequence of creations,
-- revocations and requests gives any operator more than three.
pub Calls-KeysBounded :
    (env : AgentEnv) {s t : AgentTables} → KeysBounded s → Calls env s t → KeysBounded t
Calls-KeysBounded env h here = h
Calls-KeysBounded env h (next c st) = Call-KeysBounded env st (Calls-KeysBounded env h c)
