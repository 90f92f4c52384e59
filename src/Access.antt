-- ===== src/Access.antt =====
-- The human access of `auth.py`: its tables, and what it takes from Python's libraries.
pub mod Csrf
pub mod SignIn
pub mod Sessions
pub mod SecondFactor
pub mod Mail
pub mod Steps
pub mod Admissions
pub mod Spending
pub mod Revoking
pub mod Verifying
pub mod Signatures
use agent_data_oracle.Base.{
  ℕ, Text, codes, text_eq, Bool, true, false, not, ◌&&◌, ltb, Option, none, some, List, all,
  is_some, if◌then◌else◌, Result, ok, err, ◌*◌,
}
use agent_data_oracle.Identifier.{Unicode}
use agent_data_oracle.Preview.{PreviewAccess}

abbrev pub minutes : ℕ → ℕ
minutes n = n * 60000000

abbrev pub login_token_lifetime : ℕ
login_token_lifetime = minutes 15

abbrev pub session_lifetime : ℕ
session_lifetime = minutes 720

abbrev pub reauthentication_lifetime : ℕ
reauthentication_lifetime = minutes 15

abbrev pub sign_in_delivery_limit : ℕ
sign_in_delivery_limit = 100

abbrev pub sign_in_delivery_window : ℕ
sign_in_delivery_window = minutes 1440

-- The `subject_kind` of an attempt.
pub data SubjectKind : Type 0 where
  email_subject network_subject factor_session : SubjectKind

-- `auth_attempts`
pub record AuthAttempt : Type 0 where
  pub subject_kind : SubjectKind
  pub subject_hash : Text
  pub attempted_at : ℕ

-- `login_tokens`
pub record LoginToken : Type 0 where
  pub token_id : ℕ
  pub email_normalized : Text
  pub token_hash : Text
  pub requested_at : ℕ
  pub expires_at : ℕ
  pub consumed_at : Option ℕ

-- `operators`
pub record OperatorRow : Type 0 where
  pub operator_id : ℕ
  pub email_normalized : Text
  pub operator_type : Option Text
  pub sells_into_us : Option Bool
  pub declaration_recorded_at : Option ℕ
  pub is_founder : Bool
  pub created_at : ℕ

-- `browser_sessions`
pub record BrowserSession : Type 0 where
  pub session_id : ℕ
  pub operator_id : ℕ
  pub token_hash : Text
  pub created_at : ℕ
  pub expires_at : ℕ
  pub reauthenticated_at : ℕ
  pub founder_second_factor_at : Option ℕ
  pub revoked_at : Option ℕ

-- `founder_totp_factors`
pub record TotpFactor : Type 0 where
  pub operator_id : ℕ
  pub confirmed_at : ℕ

-- `auth_recovery_codes`
pub record RecoveryCode : Type 0 where
  pub recovery_code_id : ℕ
  pub operator_id : ℕ
  pub salt : Text
  pub code_hash : Text
  pub created_at : ℕ
  pub used_at : Option ℕ

-- `sign_in_delivery_admissions` is the list of its instants.
pub record AccessTables : Type 0 where
  pub operators : List OperatorRow
  pub attempts : List AuthAttempt
  pub admissions : List ℕ
  pub login_tokens : List LoginToken
  pub sessions : List BrowserSession
  pub totp_factors : List TotpFactor
  pub recovery_codes : List RecoveryCode

-- What `HumanAccess` holds and calls: the keyed digest of a namespace and a value, the founders and
-- the preview policy with its own digest, the HMAC-SHA1 of a counter under an operator's key, the scrypt
-- hash of a recovery code under a salt, `str.isdigit` on a character and `timestamp` in seconds.
pub record AccessEnv : Type 0 where
  pub unicode : Unicode
  pub digest : Text → Text → Text
  pub founder_emails : List Text
  pub preview : PreviewAccess
  pub preview_digest : Text → Text
  pub totp_digest : ℕ → ℕ → List ℕ
  pub recovery_hash : Text → Text → Text
  pub is_digit : ℕ → Bool
  pub timestamp : ℕ → ℕ

-- The exceptions that an operation raises; `type_error` is that of `hmac.compare_digest`.
pub data AccessError : Type 0 where
  unique_violation multiple_results type_error : AccessError

-- `hmac.compare_digest` on texts, which accepts ASCII only.
unfoldable pub compare_digest : Text → Text → Result AccessError Bool
compare_digest a b =
    if all (λ c. ltb c 128) a && all (λ c. ltb c 128) b then ok (text_eq a b) else err type_error
