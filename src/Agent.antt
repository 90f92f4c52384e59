-- ===== src/Agent.antt =====
-- `agent_access.py`: delegated API keys, their scopes and their request limit.
pub mod Keys
pub mod Requests
pub mod Revocation
pub mod Lifetime
use agent_data_oracle.Base.{
  ℕ, ◌+◌, Text, codes, text_eq, text_in, text_le, Bool, true, false, not, ◌&&◌, ◌||◌, ltb, leb,
  ◌==◌, Option, none, some, List, [], ◌∷◌, ◌++◌, length, map, all, any, select, is_some,
  one_or_none, update_where, sort_by, flat_map, if◌then◌else◌, Result, ok, err, ◌>>=◌, ◌>>◌,
  raise_if, or_raise, transaction,
}
use agent_data_oracle.Identifier.{Unicode}
use agent_data_oracle.Preview.{PreviewAccess, admits_identity}

abbrev pub allowed_agent_scopes : List Text
allowed_agent_scopes =
    codes "queues:submit"
    ∷ codes "queues:read"
    ∷ codes "queues:refresh"
    ∷ codes "evidence:read"
    ∷ codes "reviews:report-agent"
    ∷ []

abbrev pub max_active_agent_keys : ℕ
max_active_agent_keys = 3

abbrev pub requests_per_minute : ℕ
requests_per_minute = 30

-- A minute, in microseconds.
abbrev pub minute : ℕ
minute = 60000000

-- `agent_api_keys`
pub record AgentKey : Type 0 where
  pub agent_key_id : ℕ
  pub operator_id : ℕ
  pub secret_prefix : Text
  pub secret_salt : Text
  pub secret_hash : Text
  pub scopes : List Text
  pub created_at : ℕ
  pub last_used_at : Option ℕ
  pub revoked_at : Option ℕ

-- `agent_api_request_attempts`
pub record Attempt : Type 0 where
  pub agent_key_id : ℕ
  pub attempted_at : ℕ

-- The columns of `operators` that a key is joined with.
pub record Operator : Type 0 where
  pub operator_id : ℕ
  pub email_normalized : Text

pub record AgentTables : Type 0 where
  pub operators : List Operator
  pub keys : List AgentKey
  pub attempts : List Attempt

-- What the program takes from outside: the Unicode tables, the scrypt hash of a secret under a
-- salt, and the preview policy.
pub record AgentEnv : Type 0 where
  pub unicode : Unicode
  pub scrypt : Text → Text → Text
  pub preview : PreviewAccess

pub data AgentError : Type 0 where
  scopes_not_approved authentication scope rate_limit key_limit : AgentError
  unique_violation multiple_results : AgentError

abbrev pub is_active : AgentKey → Bool
is_active k = not (is_some k.revoked_at)

abbrev pub active_of : ℕ → AgentKey → Bool
active_of operator k = k.operator_id == operator && is_active k

unfoldable pub active_count : ℕ → List AgentKey → ℕ
active_count operator ks = length (select (active_of operator) ks)

-- What `create_key` draws at random.
pub record KeyDraw : Type 0 where
  pub agent_key_id : ℕ
  pub secret_prefix : Text
  pub secret_tail : Text
  pub salt : Text

-- `f"ado_{secret_prefix}_{…}"`
unfoldable pub secret_of : KeyDraw → Text
secret_of d = codes "ado_" ++ d.secret_prefix ++ b'_' ∷ d.secret_tail

-- `CreatedAgentKey`
pub record CreatedKey : Type 0 where
  pub agent_key_id : ℕ
  pub secret : Text
  pub secret_prefix : Text
  pub scopes : List Text

abbrev pub new_key : AgentEnv → ℕ → List Text → KeyDraw → ℕ → AgentKey
new_key env operator ordered d now = record {
  agent_key_id = d.agent_key_id;
  operator_id = operator;
  secret_prefix = d.secret_prefix;
  secret_salt = d.salt;
  secret_hash = env.scrypt (secret_of d) d.salt;
  scopes = ordered;
  created_at = now;
  last_used_at = none;
  revoked_at = none;
}

-- The columns that the table keeps unique.
abbrev pub clashes : KeyDraw → AgentKey → Bool
clashes d k = k.agent_key_id == d.agent_key_id || text_eq k.secret_prefix d.secret_prefix

-- The statements of `create_key`; the insertion checks the unique columns. A set of scopes is the
-- list of its elements.
unfoldable pub create_body :
    AgentEnv
    → ℕ
    → List Text
    → KeyDraw
    → ℕ
    → AgentTables
    → Result AgentError (CreatedKey × AgentTables)
unfolding active_count secret_of text_le
create_body env operator scopes d now s = do
  raise_if (length scopes == 0 || not (all (λ c. text_in c allowed_agent_scopes) scopes))
      scopes_not_approved
  let ordered = sort_by text_le scopes
  raise_if (leb max_active_agent_keys (active_count operator s.keys)) key_limit
  raise_if (any (clashes d) s.keys) unique_violation
  ok (
    record {
      agent_key_id = d.agent_key_id;
      secret = secret_of d;
      secret_prefix = d.secret_prefix;
      scopes = ordered;
    },
    record s { keys = s.keys ++ new_key env operator ordered d now ∷ [] },
  )

-- `create_key`
unfoldable pub create_key :
    AgentEnv
    → ℕ
    → List Text
    → KeyDraw
    → ℕ
    → AgentTables
    → Result AgentError CreatedKey × AgentTables
unfolding create_body
create_key env operator scopes d now = transaction (create_body env operator scopes d now)

-- `list_keys`: the operator's active keys, the newest first.
unfoldable pub list_keys : ℕ → AgentTables → List AgentKey
list_keys operator s =
    sort_by (λ a b. leb b.created_at a.created_at) (select (active_of operator) s.keys)

abbrev pub revocable : ℕ → ℕ → AgentKey → Bool
revocable operator i k = k.agent_key_id == i && active_of operator k

-- `revoke_key`
unfoldable pub revoke_key : ℕ → ℕ → ℕ → AgentTables → Bool × AgentTables
revoke_key operator i now s = (
  any (revocable operator i) s.keys,
  record s {
    keys = update_where (revocable operator i) (λ k. record k { revoked_at = some now }) s.keys;
  },
)

-- The text before the first `c`, and the text behind it.
cut : ℕ → Text → Option (Text × Text)
cut c [] = none
cut c (d ∷ s) =
    let rest = cut c s in
    if d == c then some ([], s) else elim rest [ none ↦ none | some (a, b) ↦ some (d ∷ a, b) ]

-- `bearer_secret.split("_", maxsplit=2)`, where it has three parts.
unfoldable pub bearer_parts : Text → Option (Text × Text × Text)
unfolding cut
bearer_parts t = elim (cut b'_' t) [
  | none ↦ none
  | some (a, rest) ↦ elim (cut b'_' rest) [ none ↦ none | some (b, c) ↦ some (a, b, c) ]
]

-- The prefix of a well-formed bearer secret.
unfoldable pub bearer_prefix : Text → Option Text
unfolding bearer_parts
bearer_prefix t = elim (bearer_parts t) [
  | none ↦ none
  | some (a, b, c) ↦ if text_eq a (codes "ado") && length b == 12 then some b else none
]

-- The active keys of a prefix, each with its operator.
unfoldable pub keys_of_prefix : Text → AgentTables → List (AgentKey × Operator)
keys_of_prefix p s =
    flat_map
      (λ k.
        map (λ o. (k, o)) (select (λ (o : Operator). o.operator_id == k.operator_id) s.operators))
      (select (λ k. text_eq k.secret_prefix p && is_active k) s.keys)

-- `attempted_at > now - 1 minute`
abbrev pub in_window : ℕ → ℕ → Attempt → Bool
in_window i now a = a.agent_key_id == i && ltb now (a.attempted_at + minute)

unfoldable pub recent_attempts : ℕ → ℕ → List Attempt → ℕ
recent_attempts i now as' = length (select (in_window i now) as')

-- `AgentPrincipal`
pub record AgentPrincipal : Type 0 where
  pub agent_key_id : ℕ
  pub operator_id : ℕ
  pub scopes : List Text

-- The limit, and the writes of an admitted request.
unfoldable pub admit_request :
    AgentKey → ℕ → AgentTables → Result AgentError (AgentPrincipal × AgentTables)
unfolding recent_attempts
admit_request k now s = do
  raise_if (leb requests_per_minute (recent_attempts k.agent_key_id now s.attempts)) rate_limit
  ok (
    record { agent_key_id = k.agent_key_id; operator_id = k.operator_id; scopes = k.scopes },
    record s {
      attempts = s.attempts ++ record { agent_key_id = k.agent_key_id; attempted_at = now } ∷ [];
      keys =
          update_where (λ j. j.agent_key_id == k.agent_key_id)
            (λ j. record j { last_used_at = some now }) s.keys;
    },
  )

-- The tests on the key that was found.
unfoldable pub check_key : AgentEnv → Text → Text → AgentKey × Operator → Result AgentError AgentKey
unfolding admits_identity
check_key env bearer required (k, o) = do
  raise_if (not (text_eq (env.scrypt bearer k.secret_salt) k.secret_hash)) authentication
  raise_if (not (admits_identity env.unicode env.preview o.email_normalized)) authentication
  raise_if (not (text_in required k.scopes)) scope
  ok k

-- The one active key of a prefix.
unfoldable pub find_key : Text → AgentTables → Result AgentError (AgentKey × Operator)
find_key prefix s = do
  found ← one_or_none multiple_results (keys_of_prefix prefix s)
  or_raise authentication found

unfoldable pub check_and_admit :
    AgentEnv
    → Text
    → Text
    → ℕ
    → AgentTables
    → AgentKey × Operator
    → Result AgentError (AgentPrincipal × AgentTables)
check_and_admit env bearer required now s row = do
  k ← check_key env bearer required row
  admit_request k now s

unfoldable pub authenticate_body :
    AgentEnv → Text → Text → ℕ → AgentTables → Result AgentError (AgentPrincipal × AgentTables)
authenticate_body env bearer required now s = do
  prefix ← or_raise authentication (bearer_prefix bearer)
  row ← find_key prefix s
  check_and_admit env bearer required now s row

-- `authenticate`
unfoldable pub authenticate :
    AgentEnv → Text → Text → ℕ → AgentTables → Result AgentError AgentPrincipal × AgentTables
unfolding authenticate_body
authenticate env bearer required now = transaction (authenticate_body env bearer required now)
