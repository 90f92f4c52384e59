-- ===== src/Examples/Accounts.antt =====
-- Runs of the human access: a sign-in, a session's end, and a recovery code.
use agent_data_oracle.Base.{
  ◌<◌, ◌≡◌, ◌≢◌, refl, codes, text_eq, true, leb, none, some, [], ◌∷◌, ◌++◌, arith, ok, ◌/◌,
  is_some,
}
use agent_data_oracle.Preview.{admits_identity, is_enabled}
use agent_data_oracle.Access.{AccessTables, AccessEnv, OperatorRow, BrowserSession, RecoveryCode}
use agent_data_oracle.Access.Csrf.{issue_csrf_token, csrf_token_is_valid}
use agent_data_oracle.Access.SignIn.{
  SignInRequest, TokenDraw, SessionDraw, SessionGrant, request_sign_in, consume_sign_in_token,
  recent_subject_attempts, consume_body, sign_in_as, upsert_operator, open_session,
}
use agent_data_oracle.Access.Sessions.{
  AuthenticatedOperator, authenticated_operator, session_rows, admitted_operator, revoke_session,
}
use agent_data_oracle.Access.SecondFactor.{
  totp_is_valid, factor_attempts, verify_founder_second_factor, verify_as, verify_body,
  use_credential, use_code, matching_code,
}
use agent_data_oracle.Access.Steps.{Steps, here, next, requests}
use agent_data_oracle.Access.Admissions.{AdmissionsBounded, Steps-AdmissionsBounded}
use agent_data_oracle.Access.Spending.{sign_in_token_works_once}
use agent_data_oracle.Access.Revoking.{revoked_session_stays_out}
use agent_data_oracle.Access.Verifying.{Stands, verified_second_factor}
use agent_data_oracle.Access.Signatures.{issued_token_is_valid}
use agent_data_oracle.Examples.Inputs.{ascii}

-- In place of the keyed digest, the value.
abbrev access_env : AccessEnv
access_env = record {
  unicode = ascii;
  digest = λ namespace value. value;
  founder_emails = codes "f@example.org" ∷ [];
  preview = record { recipient_emails = []; secret_digest = none };
  preview_digest = λ t. t;
  totp_digest = λ i n. 0 ∷ 0 ∷ 0 ∷ 0 ∷ 0 ∷ [];
  recovery_hash = λ code salt. code ++ salt;
  is_digit = λ c. leb b'0' c;
  timestamp = λ t. t / 1000000;
}

abbrev pub nobody : AccessTables
nobody = record {
  operators = [];
  attempts = [];
  admissions = [];
  login_tokens = [];
  sessions = [];
  totp_factors = [];
  recovery_codes = [];
}

abbrev sign_in : SignInRequest
sign_in = record {
  email = codes " f@example.org";
  network_identity = codes "n";
  base_url = [];
  preview_access_secret = [];
}

abbrev token_draw : TokenDraw
token_draw = record { token = codes "t"; token_id = 1 }

abbrev session_draw : SessionDraw
session_draw = record { operator_id = 7; session_id = 2; session_token = codes "s" }

abbrev other_draw : SessionDraw
other_draw = record { operator_id = 8; session_id = 3; session_token = codes "u" }

abbrev requested : AccessTables
requested = (request_sign_in access_env sign_in token_draw 100 nobody).1

abbrev one_request : Steps access_env nobody requested
one_request = next nobody requested here (requests sign_in token_draw 100 nobody)

nobody-AdmissionsBounded : AdmissionsBounded nobody
nobody-AdmissionsBounded start = omega arith

Steps-AdmissionsBounded_example : AdmissionsBounded requested
Steps-AdmissionsBounded_example =
    Steps-AdmissionsBounded access_env nobody-AdmissionsBounded one_request

-- A stored token, and the grant that it gives.
abbrev with_token : AccessTables
with_token = record nobody {
  login_tokens =
      record {
        token_id = 1;
        email_normalized = codes "f@example.org";
        token_hash = codes "t";
        requested_at = 100;
        expires_at = 900000100;
        consumed_at = none;
      }
      ∷ [];
}

abbrev grant : SessionGrant
grant = record { token = codes "s"; destination = codes "/declare" }

sign_in_token_works_once_example :
    (consume_sign_in_token access_env other_draw
      (codes "t")
      300
      (consume_sign_in_token access_env session_draw (codes "t") 200 with_token).1).0
    ≢ ok (some grant)
unfolding consume_sign_in_token consume_body sign_in_as upsert_operator open_session admits_identity
    is_enabled text_eq
sign_in_token_works_once_example =
    sign_in_token_works_once access_env session_draw other_draw (codes "t") 200 300 with_token grant
      grant (omega arith) refl here

abbrev pub founder_row : OperatorRow
founder_row = record {
  operator_id = 7;
  email_normalized = codes "f@example.org";
  operator_type = some (codes "business_operator");
  sells_into_us = some true;
  declaration_recorded_at = some 250;
  is_founder = true;
  created_at = 200;
}

abbrev pub a_session : BrowserSession
a_session = record {
  session_id = 2;
  operator_id = 7;
  token_hash = codes "s";
  created_at = 200;
  expires_at = 43200000200;
  reauthenticated_at = 200;
  founder_second_factor_at = none;
  revoked_at = none;
}

abbrev a_code : RecoveryCode
a_code = record {
  recovery_code_id = 4;
  operator_id = 7;
  salt = codes "x";
  code_hash = codes "recoverx";
  created_at = 260;
  used_at = none;
}

abbrev signed_in : AccessTables
signed_in = record nobody {
  operators = founder_row ∷ [];
  sessions = a_session ∷ [];
  totp_factors = record { operator_id = 7; confirmed_at = 260 } ∷ [];
  recovery_codes = a_code ∷ [];
}

abbrev the_founder : AuthenticatedOperator
the_founder = record {
  operator_id = 7;
  email = codes "f@example.org";
  operator_type = some (codes "business_operator");
  sells_into_us = some true;
  is_founder = true;
  reauthenticated_at = 200;
  founder_second_factor_at = none;
}

revoked_session_stays_out_example :
    authenticated_operator access_env
      (some (codes "s"))
      500
      (revoke_session access_env (codes "s") 400 signed_in)
    ≢ ok (some the_founder)
unfolding authenticated_operator session_rows admitted_operator admits_identity is_enabled text_eq
revoked_session_stays_out_example =
    revoked_session_stays_out access_env (codes "s") 300 400 500 signed_in the_founder the_founder
      refl here

verified_second_factor_example :
    (a : AuthenticatedOperator) × (authenticated_operator access_env
        (some (codes "s"))
        300
        signed_in
      ≡ ok (some a))
    × (a.is_founder ≡ true)
    × (is_some a.operator_type ≡ true)
    × (factor_attempts access_env (codes "s") 300 signed_in < 5)
    × Stands access_env a.operator_id
        (codes "recover")
        300
        signed_in
        (verify_founder_second_factor access_env (codes "s") (codes "recover") 300 signed_in).1
unfolding verify_founder_second_factor verify_as verify_body use_credential use_code matching_code
    totp_is_valid factor_attempts recent_subject_attempts authenticated_operator session_rows
    admitted_operator admits_identity is_enabled text_eq
verified_second_factor_example =
    verified_second_factor access_env (codes "s") (codes "recover") 300 signed_in refl

issued_token_is_valid_example :
    csrf_token_is_valid access_env
      (some (issue_csrf_token access_env (codes "n")))
      (some (issue_csrf_token access_env (codes "n")))
    ≡ ok true
issued_token_is_valid_example = issued_token_is_valid access_env (codes "n") refl refl refl
