-- ===== src/Examples/Agents.antt =====
-- Runs of the agent keys: creation, use and revocation.
use agent_data_oracle.Base.{
  ◌≡◌, ◌≢◌, refl, Text, codes, text_eq, text_le, none, List, [], ◌∷◌, ◌++◌, arith, ok,
}
use agent_data_oracle.Preview.{admits_identity}
use agent_data_oracle.Agent.{
  AgentEnv, AgentTables, AgentKey, Operator, KeyDraw, CreatedKey, AgentPrincipal, create_body,
  create_key, revoke_key, authenticate, authenticate_body, check_and_admit, find_key, check_key,
  admit_request, keys_of_prefix, bearer_prefix, bearer_parts, recent_attempts, secret_of,
  active_count,
}
use agent_data_oracle.Agent.Keys.{
  create, request, Calls, here, next, KeysBounded, Calls-KeysBounded,
}
use agent_data_oracle.Agent.Requests.{RateBounded, Calls-RateBounded}
use agent_data_oracle.Agent.Revocation.{revoked_key_admits_nothing}
use agent_data_oracle.Agent.Lifetime.{created_key_authenticates}
use agent_data_oracle.Examples.Inputs.{ascii}

abbrev agent_env : AgentEnv
agent_env = record {
  unicode = ascii;
  scrypt = λ secret salt. secret ++ salt;
  preview = record { recipient_emails = []; secret_digest = none };
}

abbrev the_operator : Operator
the_operator = record { operator_id = 7; email_normalized = codes "f@example.org" }

abbrev no_keys : AgentTables
no_keys = record { operators = the_operator ∷ []; keys = []; attempts = [] }

abbrev draw : KeyDraw
draw = record {
  agent_key_id = 1;
  secret_prefix = codes "abcdefghijkl";
  secret_tail = codes "xyz";
  salt = codes "s";
}

abbrev scopes : List Text
scopes = codes "queues:read" ∷ []

abbrev with_key : AgentTables
with_key = (create_key agent_env 7 scopes draw 100 no_keys).1

-- A creation and one request of the key.
abbrev used_once : AgentTables
used_once =
    (authenticate agent_env (codes "ado_abcdefghijkl_xyz") (codes "queues:read") 200 with_key).1

abbrev two_calls : Calls agent_env no_keys used_once
two_calls =
    next (next here (create 7 scopes draw 100 no_keys))
      (request (codes "ado_abcdefghijkl_xyz") (codes "queues:read") 200 with_key)

no_keys-KeysBounded : KeysBounded no_keys
unfolding active_count
no_keys-KeysBounded operator = omega arith

no_keys-RateBounded : RateBounded no_keys
no_keys-RateBounded i start = omega arith

Calls-KeysBounded_example : KeysBounded used_once
Calls-KeysBounded_example = Calls-KeysBounded agent_env no_keys-KeysBounded two_calls

Calls-RateBounded_example : RateBounded used_once
Calls-RateBounded_example = Calls-RateBounded agent_env no_keys-RateBounded two_calls

abbrev created_key : CreatedKey
created_key = record {
  agent_key_id = 1;
  secret = codes "ado_abcdefghijkl_xyz";
  secret_prefix = codes "abcdefghijkl";
  scopes = scopes;
}

created_key_authenticates_example :
    (authenticate agent_env (codes "ado_abcdefghijkl_xyz") (codes "queues:read") 200 with_key).0
    ≡ ok (record { agent_key_id = 1; operator_id = 7; scopes = scopes })
unfolding create_body create_key secret_of active_count text_eq text_le admits_identity
    recent_attempts
created_key_authenticates_example =
    created_key_authenticates agent_env 7 scopes draw 100 no_keys created_key with_key the_operator
      (codes "queues:read") 200 refl refl refl refl refl refl (omega arith)

-- A key that is in use, revoked at 300.
abbrev stored_key : AgentKey
stored_key = record {
  agent_key_id = 1;
  operator_id = 7;
  secret_prefix = codes "abcdefghijkl";
  secret_salt = codes "s";
  secret_hash = codes "ado_abcdefghijkl_xyzs";
  scopes = scopes;
  created_at = 100;
  last_used_at = none;
  revoked_at = none;
}

abbrev other_key : AgentKey
other_key = record {
  agent_key_id = 2;
  operator_id = 7;
  secret_prefix = codes "mnopqrstuvwx";
  secret_salt = codes "s";
  secret_hash = codes "ado_mnopqrstuvwx_xyzs";
  scopes = scopes;
  created_at = 100;
  last_used_at = none;
  revoked_at = none;
}

abbrev two_keys : AgentTables
two_keys = record {
  operators = the_operator ∷ [];
  keys = stored_key ∷ other_key ∷ [];
  attempts = [];
}

abbrev other_principal : AgentPrincipal
other_principal = record { agent_key_id = 2; operator_id = 7; scopes = scopes }

revoked_key_admits_nothing_example : other_principal.agent_key_id ≢ 1
unfolding revoke_key authenticate authenticate_body check_and_admit find_key check_key admit_request
    keys_of_prefix bearer_prefix bearer_parts recent_attempts text_eq admits_identity
revoked_key_admits_nothing_example =
    revoked_key_admits_nothing agent_env 7 1 300 two_keys (codes "ado_mnopqrstuvwx_xyz")
      (codes "queues:read") 400 other_principal ((λ e. refl), ((λ e. refl), tt)) refl here refl
