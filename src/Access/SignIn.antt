-- ===== src/Access/SignIn.antt =====
-- Sign-in: the request of a link, its limits, and the token's consumption.
use agent_data_oracle.Base.{
  ℕ, ◌+◌, Text, codes, text_eq, text_in, starts_with, strip, Bool, true, false, not, ◌&&◌, ◌||◌,
  ltb, ◌==◌, Option, none, some, List, [], ◌∷◌, ◌++◌, length, any, select, map, first, is_some,
  is_empty, update_where, if◌then◌else◌, Result, ok, ◌>>=◌, ◌>>◌, raise_if, transaction,
}
use agent_data_oracle.Identifier.{Unicode}
use agent_data_oracle.Preview.{admits_sign_in, admits_identity}
use agent_data_oracle.Access.{
  SubjectKind, email_subject, network_subject, AuthAttempt, LoginToken, OperatorRow, BrowserSession,
  AccessTables, AccessEnv, AccessError, unique_violation, login_token_lifetime, session_lifetime,
  sign_in_delivery_limit, sign_in_delivery_window, minutes,
}

-- `normalized.split("@")` of a text with one `@`.
unfoldable pub split_at : Text → Text × Text
split_at [] = ([], [])
split_at (c ∷ t) = let (a, b) = split_at t in if c == b'@' then ([], t) else (c ∷ a, b)

-- `t.endswith(".")`
unfoldable pub ends_with_dot : Text → Bool
ends_with_dot [] = false
ends_with_dot (c ∷ []) = c == b'.'
ends_with_dot (c ∷ d ∷ t) = ends_with_dot (d ∷ t)

-- The tests on the two parts of an address.
unfoldable pub has_address_parts : Text × Text → Bool
unfolding ends_with_dot starts_with
has_address_parts (local, domain) =
    not (is_empty local)
    && any (λ c. c == b'.') domain
    && not (starts_with (codes ".") domain)
    && not (ends_with_dot domain)

-- `normalize_email`
unfoldable pub normalize_email : Unicode → Text → Option Text
unfolding split_at has_address_parts strip
normalize_email u value =
    let normalized = u.casefold (strip u.is_space value) in
    if ltb 254 (length normalized)
      || not (length (select (λ c. c == b'@') normalized) == 1)
      || any u.is_space normalized
    then none
    else if has_address_parts (split_at normalized)
    then some normalized
    else none

abbrev pub same_kind : SubjectKind → SubjectKind → Bool
same_kind SubjectKind.email_subject SubjectKind.email_subject = true
same_kind SubjectKind.network_subject SubjectKind.network_subject = true
same_kind SubjectKind.factor_session SubjectKind.factor_session = true
same_kind _ _ = false

-- The attempts of a subject after `now - window`.
unfoldable pub recent_subject_attempts : SubjectKind → Text → ℕ → ℕ → List AuthAttempt → ℕ
unfolding text_eq
recent_subject_attempts kind hash window now attempts = length (
    select
      (λ a.
        same_kind a.subject_kind kind
        && text_eq a.subject_hash hash
        && ltb now (a.attempted_at + window))
      attempts)

-- The admissions after `now - window`.
unfoldable pub recent_admissions : ℕ → List ℕ → ℕ
recent_admissions now admissions =
    length (select (λ t. ltb now (t + sign_in_delivery_window)) admissions)

-- The arguments of `request_sign_in`.
pub record SignInRequest : Type 0 where
  pub email : Text
  pub network_identity : Text
  pub base_url : Text
  pub preview_access_secret : Text

-- What it draws at random.
pub record TokenDraw : Type 0 where
  pub token : Text
  pub token_id : ℕ

-- `SignInDelivery`
pub record SignInDelivery : Type 0 where
  pub recipient : Text
  pub sign_in_url : Text

-- `normalized or "invalid"`
abbrev pub email_or_invalid : Option Text → Text
email_or_invalid none = codes "invalid"
email_or_invalid (some e) = e

-- The test of `delivery_is_admitted` on a valid address.
unfoldable pub delivery_is_admitted : AccessEnv → SignInRequest → Text → ℕ → AccessTables → Bool
unfolding recent_subject_attempts recent_admissions admits_sign_in
delivery_is_admitted env q normalized now s =
    admits_sign_in env.preview_digest env.preview (some normalized) q.preview_access_secret
    && ltb
        (recent_subject_attempts email_subject (env.digest (codes "rate-email") normalized)
          (minutes 60) now s.attempts)
        5
    && ltb
        (recent_subject_attempts network_subject
          (env.digest (codes "rate-network") q.network_identity) (minutes 60) now s.attempts)
        20
    && ltb (recent_admissions now s.admissions) sign_in_delivery_limit

-- The two attempts that every request records.
abbrev pub with_attempts : AccessEnv → SignInRequest → Option Text → ℕ → AccessTables → AccessTables
with_attempts env q normalized now s = record s {
  attempts =
      s.attempts
      ++ record {
        subject_kind = email_subject;
        subject_hash = env.digest (codes "rate-email") (email_or_invalid normalized);
        attempted_at = now;
      }
        ∷ record {
          subject_kind = network_subject;
          subject_hash = env.digest (codes "rate-network") q.network_identity;
          attempted_at = now;
        }
        ∷ [];
}

abbrev pub new_login_token : AccessEnv → TokenDraw → Text → ℕ → LoginToken
new_login_token env d email now = record {
  token_id = d.token_id;
  email_normalized = email;
  token_hash = env.digest (codes "login") d.token;
  requested_at = now;
  expires_at = now + login_token_lifetime;
  consumed_at = none;
}

-- The columns that `login_tokens` keeps unique.
abbrev pub token_clashes : LoginToken → LoginToken → Bool
token_clashes new old = old.token_id == new.token_id || text_eq old.token_hash new.token_hash

-- The writes of an admitted delivery.
unfoldable pub admit_delivery :
    AccessEnv → TokenDraw → Text → ℕ → AccessTables → Result AccessError AccessTables
admit_delivery env d email now s = do
  raise_if (any (token_clashes (new_login_token env d email now)) s.login_tokens) unique_violation
  ok (record s {
    admissions = s.admissions ++ now ∷ [];
    login_tokens = s.login_tokens ++ new_login_token env d email now ∷ [];
  })

abbrev pub delivery_to : SignInRequest → TokenDraw → Text → SignInDelivery
delivery_to q d email = record {
  recipient = email;
  sign_in_url = q.base_url ++ codes "/auth/verify?token=" ++ d.token;
}

-- The part of the transaction that depends on the decision.
unfoldable pub deliver_if :
    AccessEnv
    → SignInRequest
    → TokenDraw
    → Text
    → ℕ
    → AccessTables
    → Bool
    → Result AccessError (Option SignInDelivery × AccessTables)
unfolding admit_delivery
deliver_if env q d email now s false = ok (none, s)
deliver_if env q d email now s true = do
  t ← admit_delivery env d email now s
  ok (some (delivery_to q d email), t)

-- The transaction's body, from the normal form of the address.
unfoldable pub request_body :
    AccessEnv
    → SignInRequest
    → TokenDraw
    → ℕ
    → Option Text
    → AccessTables
    → Result AccessError (Option SignInDelivery × AccessTables)
unfolding deliver_if delivery_is_admitted
request_body env q d now none s = ok (none, with_attempts env q none now s)
request_body env q d now (some email) s =
    deliver_if env q d email now (with_attempts env q (some email) now s)
      (delivery_is_admitted env q email now s)

-- `request_sign_in`: the delivery that is handed to the mail provider, if any. A failed delivery is
-- only logged.
unfoldable pub request_sign_in :
    AccessEnv
    → SignInRequest
    → TokenDraw
    → ℕ
    → AccessTables
    → Result AccessError (Option SignInDelivery) × AccessTables
unfolding request_body normalize_email
request_sign_in env q d now =
    transaction (request_body env q d now (normalize_email env.unicode q.email))

-- `WHERE token_hash = … AND consumed_at IS NULL AND expires_at > now`
abbrev pub consumable : AccessEnv → Text → ℕ → LoginToken → Bool
consumable env token now t =
    text_eq t.token_hash (env.digest (codes "login") token)
    && not (is_some t.consumed_at)
    && ltb now t.expires_at

-- What a consumption draws at random.
pub record SessionDraw : Type 0 where
  pub operator_id : ℕ
  pub session_id : ℕ
  pub session_token : Text

-- `SessionGrant`
pub record SessionGrant : Type 0 where
  pub token : Text
  pub destination : Text

abbrev pub new_operator : AccessEnv → SessionDraw → Text → ℕ → OperatorRow
new_operator env d email now = record {
  operator_id = d.operator_id;
  email_normalized = email;
  operator_type = none;
  sells_into_us = none;
  declaration_recorded_at = none;
  is_founder = text_in email env.founder_emails;
  created_at = now;
}

abbrev pub has_email : Text → OperatorRow → Bool
has_email email o = text_eq o.email_normalized email

-- `INSERT INTO operators … ON CONFLICT (email_normalized) DO UPDATE … RETURNING operator_id`, from
-- the rows that it conflicts with.
unfoldable pub upsert_operator :
    AccessEnv
    → SessionDraw
    → Text
    → ℕ
    → AccessTables
    → List OperatorRow
    → Result AccessError (OperatorRow × AccessTables)
upsert_operator env d email now s (o ∷ _) =
    let found = record o { is_founder = o.is_founder || text_in email env.founder_emails } in
    ok (
      found,
      record s {
        operators =
            update_where (has_email email)
              (λ p. record p { is_founder = p.is_founder || text_in email env.founder_emails })
              s.operators;
      },
    )
upsert_operator env d email now s [] = do
  raise_if (any (λ (o : OperatorRow). o.operator_id == d.operator_id) s.operators) unique_violation
  ok (
    new_operator env d email now,
    record s { operators = s.operators ++ new_operator env d email now ∷ [] },
  )

abbrev pub new_session : AccessEnv → SessionDraw → ℕ → ℕ → BrowserSession
new_session env d operator now = record {
  session_id = d.session_id;
  operator_id = operator;
  token_hash = env.digest (codes "session") d.session_token;
  created_at = now;
  expires_at = now + session_lifetime;
  reauthenticated_at = now;
  founder_second_factor_at = none;
  revoked_at = none;
}

-- The columns that `browser_sessions` keeps unique.
abbrev pub session_clashes : BrowserSession → BrowserSession → Bool
session_clashes new old = old.session_id == new.session_id || text_eq old.token_hash new.token_hash

-- The session of a signed-in operator; the grant leads to the declaration until it is recorded.
unfoldable pub open_session :
    AccessEnv
    → SessionDraw
    → ℕ
    → OperatorRow × AccessTables
    → Result AccessError (Option SessionGrant × AccessTables)
open_session env d now (o, s) = do
  raise_if (any (session_clashes (new_session env d o.operator_id now)) s.sessions) unique_violation
  ok (
    some (record {
      token = d.session_token;
      destination = if is_some o.declaration_recorded_at then codes "/app" else codes "/declare";
    }),
    record s { sessions = s.sessions ++ new_session env d o.operator_id now ∷ [] },
  )

-- What follows the update of the token, from the address that it returned.
unfoldable pub sign_in_as :
    AccessEnv
    → SessionDraw
    → ℕ
    → Option Text
    → AccessTables
    → Result AccessError (Option SessionGrant × AccessTables)
unfolding upsert_operator open_session admits_identity
sign_in_as env d now none s = ok (none, s)
sign_in_as env d now (some email) s =
    if not (admits_identity env.unicode env.preview email)
    then ok (none, s)
    else upsert_operator env d email now s (select (has_email email) s.operators)
      >>= open_session env d now

-- The table after the token's update.
abbrev pub consumed : AccessEnv → Text → ℕ → AccessTables → AccessTables
consumed env token now s = record s {
  login_tokens =
      update_where (consumable env token now) (λ t. record t { consumed_at = some now })
        s.login_tokens;
}

unfoldable pub consume_body :
    AccessEnv
    → SessionDraw
    → Text
    → ℕ
    → AccessTables
    → Result AccessError (Option SessionGrant × AccessTables)
unfolding sign_in_as
consume_body env d token now s =
    sign_in_as env d now
      (first (
        map (λ (t : LoginToken). t.email_normalized)
          (select (consumable env token now) s.login_tokens)))
      (consumed env token now s)

-- `consume_sign_in_token`; every return commits, a refused identity included.
unfoldable pub consume_sign_in_token :
    AccessEnv
    → SessionDraw
    → Text
    → ℕ
    → AccessTables
    → Result AccessError (Option SessionGrant) × AccessTables
unfolding consume_body
consume_sign_in_token env d token now = transaction (consume_body env d token now)
