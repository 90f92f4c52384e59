-- ===== src/Preview.antt =====
-- `preview_access.py`: the founder-only admission policy, and the short-lived manual admissions.
pub mod Admission
pub mod Policy
use agent_data_oracle.Base.{
  ℕ, ◌+◌, ◌==◌, length, Text, text_eq, text_in, is_empty, strip, Bool, true, false, not, ◌&&◌, ◌||◌,
  ltb, leb, Option, none, some, List, [], ◌∷◌, map, all, any, select, is_some, if◌then◌else◌,
  Result, ok, err, ◌>>=◌, ◌>>◌, raise_if,
}
use agent_data_oracle.Identifier.{Unicode}

-- `normalized_email_set`: a frozen set as the list of its elements, in which a text may come twice.
unfoldable pub normalized_email_set : Unicode → List Text → List Text
normalized_email_set u emails =
    map (λ e. u.casefold (strip u.is_space e))
      (select (λ e. not (is_empty (strip u.is_space e))) emails)

-- The length of a text in UTF-8.
unfoldable pub utf8_length : Text → ℕ
utf8_length [] = 0
utf8_length (c ∷ s) =
    (if ltb c 0x80 then 1 else if ltb c 0x800 then 2 else if ltb c 0x1_0000 then 3 else 4)
    + utf8_length s

pub record PreviewAccess : Type 0 where
  pub recipient_emails : List Text
  pub secret_digest : Option Text

unfoldable pub disabled : PreviewAccess
disabled = record { recipient_emails = []; secret_digest = none }

-- The `ValueError`s of `founder_only`.
pub data PolicyError : Type 0 where
  secret_too_short allowlist_empty recipient_not_founder : PolicyError

-- `founder_only`; `digest` is the SHA-256 of the UTF-8 text.
unfoldable pub founder_only :
    Unicode → (Text → Text) → Text → List Text → List Text → Result PolicyError PreviewAccess
unfolding normalized_email_set utf8_length
founder_only u digest access_secret recipients founders = do
  let normalized = normalized_email_set u recipients
  raise_if (ltb (utf8_length access_secret) 24) secret_too_short
  raise_if (length normalized == 0) allowlist_empty
  raise_if (not (all (λ e. text_in e founders) normalized)) recipient_not_founder
  ok (record { recipient_emails = normalized; secret_digest = some (digest access_secret) })

-- `is_enabled`
abbrev pub is_enabled : PreviewAccess → Bool
is_enabled p = is_some p.secret_digest

-- `admits_sign_in`; `hmac.compare_digest` is equality.
unfoldable pub admits_sign_in : (Text → Text) → PreviewAccess → Option Text → Text → Bool
admits_sign_in digest p email access_secret = elim p.secret_digest [
  | none ↦ true
  | some stored ↦ elim email [
    | none ↦ false
    | some e ↦ text_in e p.recipient_emails && text_eq (digest access_secret) stored
  ]
]

-- `admits_identity`
unfoldable pub admits_identity : Unicode → PreviewAccess → Text → Bool
admits_identity u p email = not (is_enabled p) || text_in (u.casefold email) p.recipient_emails

-- The admissions of `ManualPreviewAdmission`: digests with the instants at which they expire.
abbrev pub Admissions : Type 0
Admissions = List (Text × ℕ)

-- `_LIFETIME_SECONDS`, in the unit of the monotonic clock.
abbrev pub lifetime_seconds : ℕ
lifetime_seconds = 300

-- `_remove_expired`
unfoldable pub remove_expired : ℕ → Admissions → Admissions
remove_expired now = select (λ a. ltb now a.1)

-- `dict.pop(digest, None)`
unfoldable pub discard : Text → Admissions → Admissions
discard d = select (λ a. not (text_eq a.0 d))

-- `issue`: `d` is the digest of the token that is drawn. The dict is cleaned at `now`, and the
-- expiry is read from the clock `later`.
unfoldable pub issue : Text → ℕ → ℕ → Admissions → Admissions
unfolding remove_expired discard
issue d now later m = (d, later + lifetime_seconds) ∷ discard d (remove_expired now m)

-- `admits`, with the digest of the token.
unfoldable pub admits : Option Text → ℕ → Admissions → Bool × Admissions
unfolding remove_expired
admits none now m = (false, m)
admits (some d) now m = let rest = remove_expired now m in (any (λ a. text_eq a.0 d) rest, rest)

-- `consume`
unfoldable pub consume : Option Text → ℕ → Admissions → Bool × Admissions
unfolding admits discard
consume none now m = (false, m)
consume (some d) now m =
    let (admitted, rest) = admits (some d) now m in
    if admitted then (true, discard d rest) else (false, rest)
