-- ===== src/Access/Sessions.antt =====
-- The sessions: authentication, the declaration, and revocation.
use agent_data_oracle.Base.{
  ℕ, ◌+◌, Text, codes, text_eq, text_in, Bool, false, not, ◌&&◌, ltb, leb, ◌==◌, Option, none, some,
  List, [], ◌∷◌, any, select, map, flat_map, is_some, one_or_none, update_where, if◌then◌else◌,
  Result, ok, err, ◌>>=◌,
}
use agent_data_oracle.Preview.{admits_identity}
use agent_data_oracle.Access.{
  OperatorRow, BrowserSession, AccessTables, AccessEnv, AccessError, multiple_results,
  reauthentication_lifetime,
}

-- `AuthenticatedOperator`
pub record AuthenticatedOperator : Type 0 where
  pub operator_id : ℕ
  pub email : Text
  pub operator_type : Option Text
  pub sells_into_us : Option Bool
  pub is_founder : Bool
  pub reauthenticated_at : ℕ
  pub founder_second_factor_at : Option ℕ

-- `token_hash = … AND revoked_at IS NULL AND expires_at > now`
abbrev pub is_live_session : AccessEnv → Text → ℕ → BrowserSession → Bool
is_live_session env token now x =
    text_eq x.token_hash (env.digest (codes "session") token)
    && not (is_some x.revoked_at)
    && ltb now x.expires_at

abbrev pub joined_operator : BrowserSession → OperatorRow → AuthenticatedOperator
joined_operator x o = record {
  operator_id = o.operator_id;
  email = o.email_normalized;
  operator_type = o.operator_type;
  sells_into_us = o.sells_into_us;
  is_founder = o.is_founder;
  reauthenticated_at = x.reauthenticated_at;
  founder_second_factor_at = x.founder_second_factor_at;
}

-- The rows of the query: live sessions of the token, each with its operator.
unfoldable pub session_rows : AccessEnv → Text → ℕ → AccessTables → List AuthenticatedOperator
session_rows env token now s =
    flat_map
      (λ x.
        map (joined_operator x)
          (select (λ (o : OperatorRow). o.operator_id == x.operator_id) s.operators))
      (select (is_live_session env token now) s.sessions)

-- The preview's test on the row that was found.
unfoldable pub admitted_operator :
    AccessEnv → Option AuthenticatedOperator → Option AuthenticatedOperator
unfolding admits_identity
admitted_operator env none = none
admitted_operator env (some a) =
    if admits_identity env.unicode env.preview a.email then some a else none

-- `authenticated_operator`
unfoldable pub authenticated_operator :
    AccessEnv → Option Text → ℕ → AccessTables → Result AccessError (Option AuthenticatedOperator)
unfolding session_rows admitted_operator
authenticated_operator env none now s = ok none
authenticated_operator env (some token) now s = do
  found ← one_or_none multiple_results (session_rows env token now s)
  ok (admitted_operator env found)

-- The operator of a scalar subquery, where more than one session is an error.
unfoldable pub declaring_sessions : AccessEnv → Text → ℕ → AccessTables → List BrowserSession
declaring_sessions env token now s =
    select
      (λ x.
        is_live_session env token now x
        && ltb now (x.reauthenticated_at + reauthentication_lifetime))
      s.sessions

abbrev pub undeclared : ℕ → OperatorRow → Bool
undeclared i o = o.operator_id == i && not (is_some o.declaration_recorded_at)

-- The update, for the session that the subquery found.
unfoldable pub declare_operator :
    Text → Bool → ℕ → AccessTables → Option BrowserSession → Bool × AccessTables
declare_operator kind sells now s none = (false, s)
declare_operator kind sells now s (some x) = (
  any (undeclared x.operator_id) s.operators,
  record s {
    operators =
        update_where (undeclared x.operator_id)
          (λ o. record o {
            operator_type = some kind;
            sells_into_us = some sells;
            declaration_recorded_at = some now;
          })
          s.operators;
  },
)

-- The transaction's end: a subquery with several rows raises, and nothing is written.
unfoldable pub finish_declaration :
    Text
    → Bool
    → ℕ
    → AccessTables
    → Result AccessError (Option BrowserSession)
    → Result AccessError Bool × AccessTables
unfolding declare_operator
finish_declaration kind sells now s (err e) = (err e, s)
finish_declaration kind sells now s (ok found) =
    let (done, t) = declare_operator kind sells now s found in (ok done, t)

-- `record_declaration`
unfoldable pub record_declaration :
    AccessEnv → Text → Text → Bool → ℕ → AccessTables → Result AccessError Bool × AccessTables
unfolding declaring_sessions finish_declaration text_eq
record_declaration env token kind sells now s =
    if not (text_in kind (codes "business_operator" ∷ codes "agent_operator" ∷ []))
    then (ok false, s)
    else finish_declaration kind sells now s
        (one_or_none multiple_results (declaring_sessions env token now s))

-- `reauthentication_is_current`
unfoldable pub reauthentication_is_current : AuthenticatedOperator → ℕ → Bool
reauthentication_is_current a now = leb now (a.reauthenticated_at + reauthentication_lifetime)

abbrev pub revocable_session : AccessEnv → Text → BrowserSession → Bool
revocable_session env token x =
    text_eq x.token_hash (env.digest (codes "session") token) && not (is_some x.revoked_at)

-- `revoke_session`
unfoldable pub revoke_session : AccessEnv → Text → ℕ → AccessTables → AccessTables
revoke_session env token now s = record s {
  sessions =
      update_where (revocable_session env token) (λ x. record x { revoked_at = some now })
        s.sessions;
}
