-- ===== src/Access/SecondFactor.antt =====
-- The founder's second factor: one-time codes, recovery codes and their limit.
use agent_data_oracle.Base.{
  ℕ, zero, suc, ◌+◌, ◌-◌, ◌*◌, ◌/◌, ◌%◌, ◌^◌, Text, codes, text_eq, Bool, true, false, not, ◌&&◌,
  ◌||◌, leb, ◌==◌, Option, none, some, List, [], ◌∷◌, ◌++◌, length, all, any, select, map, is_some,
  update_where, if◌then◌else◌, Result, ok, err, ◌>>=◌, ◌>>◌, raise_if, transaction,
}
use agent_data_oracle.Access.{
  factor_session, BrowserSession, TotpFactor, RecoveryCode, AccessTables, AccessEnv, AccessError,
  unique_violation, compare_digest, minutes, reauthentication_lifetime,
}
use agent_data_oracle.Access.SignIn.{recent_subject_attempts}
use agent_data_oracle.Access.Sessions.{
  AuthenticatedOperator, authenticated_operator, is_live_session,
}

pub data SecondFactorResult : Type 0 where
  verified invalid rate_limited : SecondFactorResult

-- A byte of a digest. A SHA-1 digest has twenty, so that no read here is past its end.
unfoldable pub byte_at : List ℕ → ℕ → ℕ
byte_at [] i = 0
byte_at (b ∷ bs) zero = b
byte_at (b ∷ bs) (suc i) = byte_at bs i

unfoldable pub last_byte : List ℕ → ℕ
last_byte [] = 0
last_byte (b ∷ []) = b
last_byte (b ∷ c ∷ bs) = last_byte (c ∷ bs)

-- `f"{value:06d}"` for a value below a million.
unfoldable pub six_digits : ℕ → Text
six_digits value = map (λ k. 48 + value / 10 ^ k % 10) (5 ∷ 4 ∷ 3 ∷ 2 ∷ 1 ∷ 0 ∷ [])

-- `expected`: the four bytes at the offset that the last byte gives, without their sign bit.
unfoldable pub one_time_code : AccessEnv → ℕ → ℕ → Text
unfolding byte_at last_byte six_digits
one_time_code env operator counter =
    let digest = env.totp_digest operator counter in
    let offset = last_byte digest % 16 in
    let value =
      byte_at digest offset * 16777216
      + byte_at digest (offset + 1) * 65536
      + byte_at digest (offset + 2) * 256
      + byte_at digest (offset + 3) in
    six_digits (value % 2147483648 % 1000000)

-- The loop over the counters: the first match ends it.
unfoldable pub matches_counter : AccessEnv → ℕ → Text → List ℕ → Result AccessError Bool
matches_counter env operator submitted [] = ok false
matches_counter env operator submitted (counter ∷ counters) =
    let rest = matches_counter env operator submitted counters in
    (do
      same ← compare_digest (one_time_code env operator counter) submitted
      if same then ok true else rest)

-- The counters around the current one, of half a minute each.
abbrev pub counters_at : AccessEnv → ℕ → List ℕ
counters_at env now =
    let counter = env.timestamp now / 30 in (counter - 1) ∷ counter ∷ (counter + 1) ∷ []

-- `_totp_is_valid`
unfoldable pub totp_is_valid : AccessEnv → ℕ → Text → ℕ → Result AccessError Bool
unfolding matches_counter
totp_is_valid env operator submitted now =
    if not (length submitted == 6) || not (all env.is_digit submitted)
    then ok false
    else matches_counter env operator submitted (counters_at env now)

-- `founder_factor_exists`
unfoldable pub founder_factor_exists : ℕ → AccessTables → Bool
founder_factor_exists i s = any (λ (f : TotpFactor). f.operator_id == i) s.totp_factors

-- The tests that both steps of the enrolment make.
unfoldable pub may_enrol : AuthenticatedOperator → ℕ → AccessTables → Bool
unfolding founder_factor_exists
may_enrol a now s =
    a.is_founder
    && is_some a.operator_type
    && leb now (a.reauthenticated_at + reauthentication_lifetime)
    && not (founder_factor_exists a.operator_id s)

-- `totp_enrollment_secret`: the operator whose secret is shown, if any.
unfoldable pub enrolment_of : ℕ → AccessTables → Option AuthenticatedOperator → Option ℕ
unfolding may_enrol
enrolment_of now s none = none
enrolment_of now s (some a) = if may_enrol a now s then some a.operator_id else none

unfoldable pub totp_enrollment_secret :
    AccessEnv → Text → ℕ → AccessTables → Result AccessError (Option ℕ)
unfolding enrolment_of
totp_enrollment_secret env token now s = do
  found ← authenticated_operator env (some token) now s
  ok (enrolment_of now s found)

-- A recovery code that is drawn, with its identifier and salt.
pub record CodeDraw : Type 0 where
  pub recovery_code_id : ℕ
  pub code : Text
  pub salt : Text

abbrev pub new_code : AccessEnv → ℕ → ℕ → CodeDraw → RecoveryCode
new_code env operator now d = record {
  recovery_code_id = d.recovery_code_id;
  operator_id = operator;
  salt = d.salt;
  code_hash = env.recovery_hash d.code d.salt;
  created_at = now;
  used_at = none;
}

-- The insertions of the recovery codes, whose identifiers are unique.
unfoldable pub insert_codes :
    AccessEnv → ℕ → ℕ → List CodeDraw → List RecoveryCode → Result AccessError (List RecoveryCode)
insert_codes env operator now [] codes' = ok codes'
insert_codes env operator now (d ∷ ds) codes' = do
  raise_if (any (λ c. c.recovery_code_id == d.recovery_code_id) codes') unique_violation
  insert_codes env operator now ds (codes' ++ new_code env operator now d ∷ [])

-- `UPDATE browser_sessions SET founder_second_factor_at = … WHERE …`
abbrev pub with_factor_at : (BrowserSession → Bool) → ℕ → AccessTables → AccessTables
with_factor_at test now s = record s {
  sessions = update_where test (λ x. record x { founder_second_factor_at = some now }) s.sessions;
}

-- The transaction of `confirm_totp_enrollment`.
unfoldable pub confirm_body :
    AccessEnv
    → Text
    → ℕ
    → List CodeDraw
    → ℕ
    → AccessTables
    → Result AccessError (Option (List Text) × AccessTables)
unfolding insert_codes founder_factor_exists
confirm_body env token operator draws now s = do
  raise_if (founder_factor_exists operator s) unique_violation
  inserted ← insert_codes env operator now draws s.recovery_codes
  ok (
    some (map (λ (d : CodeDraw). d.code) draws),
    with_factor_at (λ x. text_eq x.token_hash (env.digest (codes "session") token)) now
        (record s {
          totp_factors =
              s.totp_factors ++ record { operator_id = operator; confirmed_at = now } ∷ [];
          recovery_codes = inserted;
        }),
  )

-- What follows the test of the code.
unfoldable pub confirm_if :
    AccessEnv
    → Text
    → ℕ
    → List CodeDraw
    → ℕ
    → AccessTables
    → Result AccessError Bool
    → Result AccessError (Option (List Text)) × AccessTables
unfolding confirm_body
confirm_if env token operator draws now s (err e) = (err e, s)
confirm_if env token operator draws now s (ok false) = (ok none, s)
confirm_if env token operator draws now s (ok true) =
    transaction (confirm_body env token operator draws now) s

-- What follows the look-up of the session.
unfoldable pub confirm_as :
    AccessEnv
    → Text
    → Text
    → List CodeDraw
    → ℕ
    → AccessTables
    → Result AccessError (Option AuthenticatedOperator)
    → Result AccessError (Option (List Text)) × AccessTables
unfolding confirm_if may_enrol totp_is_valid
confirm_as env token code draws now s (err e) = (err e, s)
confirm_as env token code draws now s (ok none) = (ok none, s)
confirm_as env token code draws now s (ok (some a)) =
    if may_enrol a now s
    then confirm_if env token a.operator_id draws now s (totp_is_valid env a.operator_id code now)
    else (ok none, s)

-- `confirm_totp_enrollment`, which draws eight recovery codes.
unfoldable pub confirm_totp_enrollment :
    AccessEnv
    → Text
    → Text
    → List CodeDraw
    → ℕ
    → AccessTables
    → Result AccessError (Option (List Text)) × AccessTables
unfolding confirm_as
confirm_totp_enrollment env token code draws now s =
    confirm_as env token code draws now s (authenticated_operator env (some token) now s)

-- The last unused recovery code of the operator that the credential opens.
unfoldable pub matching_code : AccessEnv → Text → List RecoveryCode → Option RecoveryCode
unfolding text_eq
matching_code env credential [] = none
matching_code env credential (c ∷ cs) = elim (matching_code env credential cs) [
  | some found ↦ some found
  | none ↦ if text_eq (env.recovery_hash credential c.salt) c.code_hash then some c else none
]

abbrev pub unused_of : ℕ → RecoveryCode → Bool
unused_of operator c = c.operator_id == operator && not (is_some c.used_at)

abbrev pub unused_code : ℕ → RecoveryCode → Bool
unused_code i c = c.recovery_code_id == i && not (is_some c.used_at)

-- A verification's last write: the session's second factor.
abbrev pub mark_verified : AccessEnv → Text → ℕ → AccessTables → AccessTables
mark_verified env token now s = with_factor_at (is_live_session env token now) now s

-- What follows the search for a recovery code.
unfoldable pub use_code :
    AccessEnv → Text → ℕ → AccessTables → Option RecoveryCode → SecondFactorResult × AccessTables
use_code env token now s none = (invalid, s)
use_code env token now s (some c) =
    if any (unused_code c.recovery_code_id) s.recovery_codes
    then (
      verified,
      mark_verified env token now (record s {
        recovery_codes =
            update_where (unused_code c.recovery_code_id) (λ x. record x { used_at = some now })
              s.recovery_codes;
      }),
    )
    else (invalid, s)

-- What follows the test of the one-time code.
unfoldable pub use_credential :
    AccessEnv → Text → ℕ → Text → ℕ → AccessTables → Bool → SecondFactorResult × AccessTables
unfolding use_code matching_code
use_credential env token operator credential now s true = (verified, mark_verified env token now s)
use_credential env token operator credential now s false =
    use_code env token now s
      (matching_code env credential (select (unused_of operator) s.recovery_codes))

-- The attempts of the session in the last quarter of an hour.
unfoldable pub factor_attempts : AccessEnv → Text → ℕ → AccessTables → ℕ
unfolding recent_subject_attempts
factor_attempts env token now s =
    recent_subject_attempts factor_session (env.digest (codes "factor-session") token) (minutes 15)
      now s.attempts

abbrev pub with_factor_attempt : AccessEnv → Text → ℕ → AccessTables → AccessTables
with_factor_attempt env token now s = record s {
  attempts =
      s.attempts
      ++ record {
        subject_kind = factor_session;
        subject_hash = env.digest (codes "factor-session") token;
        attempted_at = now;
      }
        ∷ [];
}

-- The transaction: the attempt is recorded whatever it gives, unless the comparison raises.
unfoldable pub verify_body :
    AccessEnv
    → Text
    → ℕ
    → Text
    → ℕ
    → AccessTables
    → Result AccessError (SecondFactorResult × AccessTables)
unfolding factor_attempts totp_is_valid use_credential
verify_body env token operator credential now s =
    let attempted = with_factor_attempt env token now s in
    if leb 5 (factor_attempts env token now s) then ok (rate_limited, attempted) else (do
      matched ← totp_is_valid env operator credential now
      ok (use_credential env token operator credential now attempted matched))

-- What follows the look-up of the session.
unfoldable pub verify_as :
    AccessEnv
    → Text
    → Text
    → ℕ
    → AccessTables
    → Result AccessError (Option AuthenticatedOperator)
    → Result AccessError SecondFactorResult × AccessTables
unfolding verify_body
verify_as env token credential now s (err e) = (err e, s)
verify_as env token credential now s (ok none) = (ok invalid, s)
verify_as env token credential now s (ok (some a)) =
    if not a.is_founder || not (is_some a.operator_type)
    then (ok invalid, s)
    else transaction (verify_body env token a.operator_id credential now) s

-- `verify_founder_second_factor`
unfoldable pub verify_founder_second_factor :
    AccessEnv
    → Text
    → Text
    → ℕ
    → AccessTables
    → Result AccessError SecondFactorResult × AccessTables
unfolding verify_as
verify_founder_second_factor env token credential now s =
    verify_as env token credential now s (authenticated_operator env (some token) now s)
