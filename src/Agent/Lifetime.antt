-- ===== src/Agent/Lifetime.antt =====
-- A key that has just been created opens the API for each of its scopes.
use agent_data_oracle.Base.{
  ℕ, ◌<◌, ◌≡◌, refl, Text, text_eq, text_eq_refl, text_in, text_le, true, false, not, ◌&&◌, ◌==◌,
  List, [], ◌∷◌, ◌++◌, arith, ok, any, all, length, select, select-append, select-none, any-imp,
  any-sort_by, sort_by, some, none,
}
use agent_data_oracle.Agent.{
  AgentEnv, AgentKey, AgentTables, CreatedKey, Operator, KeyDraw, create_body, cut, bearer_parts,
  bearer_prefix, authenticate_body, authenticate, admit_request, check_key, keys_of_prefix,
  recent_attempts, requests_per_minute, find_key, check_and_admit, is_active, clashes, new_key,
  secret_of,
}
use agent_data_oracle.Agent.Keys.{create_body-eq-ok}
use agent_data_oracle.Preview.{admits_identity}

-- A text is cut at the first separator.
cut-append :
    (c : ℕ) (a b : Text) → all (λ d. not (d == c)) a ≡ true → cut c (a ++ c ∷ b) ≡ some (a, b)
unfolding cut
cut-append c [] b h = ground arith
cut-append c (d ∷ a) b h = ground (arith, cut-append c a b)

bearer_prefix-secret_of :
    (d : KeyDraw)
    → all (λ c. not (c == b'_')) d.secret_prefix ≡ true
    → length d.secret_prefix ≡ 12
    → bearer_prefix (secret_of d) ≡ some d.secret_prefix
unfolding bearer_prefix bearer_parts secret_of cut text_eq
bearer_prefix-secret_of d clean size =
    ground (arith, cut-append b'_' d.secret_prefix d.secret_tail clean)

-- The new row is the only active one of its prefix.
keys_of_prefix-new :
    (d : KeyDraw) (s : AgentTables) (k : AgentKey) (o : Operator)
    → any (clashes d) s.keys ≡ false
    → k.secret_prefix ≡ d.secret_prefix
    → k.revoked_at ≡ none
    → select (λ (o : Operator). o.operator_id == k.operator_id) s.operators ≡ o ∷ []
    → (s' : AgentTables) → s'.keys ≡ s.keys ++ k ∷ []
    → s'.operators ≡ s.operators
    → keys_of_prefix d.secret_prefix s' ≡ (k, o) ∷ []
unfolding keys_of_prefix
keys_of_prefix-new d s k o free named fresh owner s' ks os =
    let p = λ (j : AgentKey). text_eq j.secret_prefix d.secret_prefix && is_active j in
    let unused : select p s.keys ≡ [] =
      select-none p s.keys (any-imp p (clashes d) s.keys (λ j e. ground arith) free) in
    rw (ks, os, select-append, unused, named, text_eq_refl, fresh, owner)

check_key-new :
    (env : AgentEnv) (bearer required : Text) (k : AgentKey) (o : Operator)
    → k.secret_hash ≡ env.scrypt bearer k.secret_salt
    → admits_identity env.unicode env.preview o.email_normalized ≡ true
    → text_in required k.scopes ≡ true
    → check_key env bearer required (k, o) ≡ ok k
unfolding check_key
check_key-new env bearer required k o hash admitted held =
    ground (arith, hash, text_eq_refl (env.scrypt bearer k.secret_salt))

-- The four stages of a successful request.
authenticate_stages :
    (env : AgentEnv) (bearer required : Text) (now : ℕ) (s : AgentTables) (p : Text) (k : AgentKey)
    (o : Operator)
    → bearer_prefix bearer ≡ some p
    → keys_of_prefix p s ≡ (k, o) ∷ []
    → check_key env bearer required (k, o) ≡ ok k
    → recent_attempts k.agent_key_id now s.attempts < requests_per_minute
    → (authenticate env bearer required now s).0
      ≡ ok
          (record { agent_key_id = k.agent_key_id; operator_id = k.operator_id; scopes = k.scopes })
unfolding authenticate authenticate_body find_key check_and_admit
authenticate_stages env bearer required now s p k o e₁ e₂ e₃ below =
    rw (e₁, e₂, e₃) (unfold admit_request in ground arith)

-- A created key is accepted for each scope that it was given, provided that its random prefix has
-- twelve characters and no separator, its operator is one row that the preview policy admits, and
-- it has made fewer than thirty requests in the last minute.
pub created_key_authenticates :
    (env : AgentEnv) (operator : ℕ) (scopes : List Text) (d : KeyDraw) (now : ℕ) (s : AgentTables)
    (a : CreatedKey) (s' : AgentTables) (o : Operator) (required : Text) (later : ℕ)
    → create_body env operator scopes d now s ≡ ok (a, s')
    → all (λ c. not (c == b'_')) d.secret_prefix ≡ true
    → length d.secret_prefix ≡ 12
    → select (λ (o : Operator). o.operator_id == operator) s.operators ≡ o ∷ []
    → admits_identity env.unicode env.preview o.email_normalized ≡ true
    → text_in required scopes ≡ true
    → recent_attempts d.agent_key_id later s.attempts < requests_per_minute
    → (authenticate env a.secret required later s').0
      ≡ ok (record { agent_key_id = d.agent_key_id; operator_id = operator; scopes = a.scopes })
created_key_authenticates env operator scopes d now s a s' o required later made clean size owner
      admitted held below =
    let (_, ks, ts, os, free, same_secret, same_scopes) =
      create_body-eq-ok env operator scopes d now s a s' made in
    let k = new_key env operator (sort_by text_le scopes) d now in
    let one : keys_of_prefix d.secret_prefix s' ≡ (k, o) ∷ [] =
      keys_of_prefix-new d s k o free refl refl owner s' ks os in
    let passes : check_key env a.secret required (k, o) ≡ ok k =
      check_key-new env a.secret required k o (rw same_secret) admitted (rw any-sort_by held) in
    rw same_scopes (
      authenticate_stages env a.secret required later s' d.secret_prefix k o
        (rw same_secret (bearer_prefix-secret_of d clean size)) one passes (rw ts below))
