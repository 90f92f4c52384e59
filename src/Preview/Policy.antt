-- ===== src/Preview/Policy.antt =====
-- The founder-only policy of `preview_access.py`: whom an enabled preview admits.
use agent_data_oracle.Base.{
  ◌≤◌, ◌≡◌, sym, ◌∙◌, Text, text_eq, text_eq_sound, text_in, Bool, true, ◌&&◌, some, List, [], ◌∷◌,
  arith, all, length, Bool-cases, inl, inr, ok,
}
use agent_data_oracle.Identifier.{Unicode}
use agent_data_oracle.Preview.{
  PreviewAccess, founder_only, normalized_email_set, utf8_length, admits_sign_in,
}

in-all :
    (t : Text) (ts us : List Text)
    → all (λ e. text_in e us) ts ≡ true
    → text_in t ts ≡ true
    → text_in t us ≡ true
in-all t [] us h k = absurd (cc)
in-all t (x ∷ ts) us h k = elim (Bool-cases (text_eq t x)) [
  | inl e ↦ rw (text_eq_sound t x e) (ground arith)
  | inr e ↦ in-all t ts us (ground arith) (ground arith)
]

-- What `founder_only` has tested, and what it stores.
pub record FounderOnly (u : Unicode) (digest : Text → Text) (access_secret : Text)
    (recipients founders : List Text) (p : PreviewAccess) : Type 0 where
  pub long : 24 ≤ utf8_length access_secret
  pub someone : 1 ≤ length p.recipient_emails
  pub known : all (λ e. text_in e founders) p.recipient_emails ≡ true
  pub recipients_kept : p.recipient_emails ≡ normalized_email_set u recipients
  pub stored : p.secret_digest ≡ some (digest access_secret)

pub founder_only-eq-ok :
    (u : Unicode) (digest : Text → Text) (access_secret : Text) (recipients founders : List Text)
    (p : PreviewAccess)
    → founder_only u digest access_secret recipients founders ≡ ok p
    → FounderOnly u digest access_secret recipients founders p
unfolding founder_only
founder_only-eq-ok u digest access_secret recipients founders p h = record {
  long = ground arith;
  someone = ground arith;
  known = ground arith;
  recipients_kept = ground arith;
  stored = ground arith;
}

admits_sign_in-stored :
    (digest : Text → Text) (p : PreviewAccess) (email given stored : Text)
    → p.secret_digest ≡ some stored
    → admits_sign_in digest p (some email) given
      ≡ (text_in email p.recipient_emails && text_eq (digest given) stored)
unfolding admits_sign_in
admits_sign_in-stored digest p email given stored h = rw (admits_sign_in, h)

both : (a b : Bool) → (a && b) ≡ true → (a ≡ true) × (b ≡ true)
both a b h = ground arith

-- A preview that `founder_only` has set up admits a sign-in only to the address of a founder, with
-- a secret whose digest is that of the configured secret, which has at least 24 bytes.
pub sign_in_is_founder :
    (u : Unicode) (digest : Text → Text) (access_secret : Text) (recipients founders : List Text)
    (p : PreviewAccess) (email given : Text)
    → founder_only u digest access_secret recipients founders ≡ ok p
    → admits_sign_in digest p (some email) given ≡ true
    → (text_in email founders ≡ true)
      × (text_in email (normalized_email_set u recipients) ≡ true)
      × (digest given ≡ digest access_secret)
      × (24 ≤ utf8_length access_secret)
sign_in_is_founder u digest access_secret recipients founders p email given made admitted =
    let f = founder_only-eq-ok u digest access_secret recipients founders p made in
    let (listed, same) = both _ _ (
      sym (admits_sign_in-stored digest p email given (digest access_secret) f.stored)
      ∙ admitted) in
    (
      in-all email p.recipient_emails founders f.known listed,
      rw⁻¹ f.recipients_kept listed,
      text_eq_sound _ _ same,
      f.long,
    )
