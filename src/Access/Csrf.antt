-- ===== src/Access/Csrf.antt =====
-- The CSRF tokens: a nonce with its signature.
use agent_data_oracle.Base.{
  Text, codes, Bool, true, false, ◌==◌, Option, none, some, [], ◌∷◌, ◌++◌, if◌then◌else◌, Result,
  ok, ◌>>=◌,
}
use agent_data_oracle.Access.{AccessEnv, AccessError, compare_digest}

-- `issue_csrf_token`, with the nonce that it draws.
unfoldable pub issue_csrf_token : AccessEnv → Text → Text
issue_csrf_token env nonce = nonce ++ b'.' ∷ env.digest (codes "csrf") nonce

-- `submitted.rsplit(".", 1)`, where it has two parts: the text before the last dot, and the rest.
unfoldable pub rsplit_dot : Text → Option (Text × Text)
rsplit_dot [] = none
rsplit_dot (c ∷ t) = elim (rsplit_dot t) [
  | some (a, b) ↦ some (c ∷ a, b)
  | none ↦ if c == b'.' then some ([], t) else none
]

-- The test on the signature.
unfoldable pub signature_is_valid : AccessEnv → Option (Text × Text) → Result AccessError Bool
signature_is_valid env none = ok false
signature_is_valid env (some (nonce, signature)) =
    compare_digest (env.digest (codes "csrf") nonce) signature

abbrev pub signed_if : AccessEnv → Text → Bool → Result AccessError Bool
signed_if env submitted true = signature_is_valid env (rsplit_dot submitted)
signed_if env submitted false = ok false

-- `csrf_token_is_valid`
unfoldable pub csrf_token_is_valid : AccessEnv → Option Text → Option Text → Result AccessError Bool
unfolding rsplit_dot signature_is_valid
csrf_token_is_valid env (some cookie) (some submitted) = do
  same ← compare_digest cookie submitted
  signed_if env submitted same
csrf_token_is_valid env _ _ = ok false
