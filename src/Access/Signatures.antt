-- ===== src/Access/Signatures.antt =====
-- A CSRF token that is issued is accepted, and an accepted one is signed.
use agent_data_oracle.Base.{
  ℕ, ◌≡◌, refl, Text, codes, text_eq_refl, Bool, true, false, ◌==◌, ltb, none, some, [], ◌∷◌, ◌++◌,
  arith, any, all, ok,
}
use agent_data_oracle.Access.{AccessEnv, compare_digest}
use agent_data_oracle.Access.Csrf.{
  issue_csrf_token, rsplit_dot, signature_is_valid, csrf_token_is_valid,
}

abbrev pub is_ascii : Text → Bool
is_ascii t = all (λ c. ltb c 128) t

abbrev has_dot : Text → Bool
has_dot t = any (λ c. c == b'.') t

rsplit_dot-none : (t : Text) → has_dot t ≡ false → rsplit_dot t ≡ none
unfolding rsplit_dot
rsplit_dot-none [] h = refl
rsplit_dot-none (c ∷ t) h =
    let rest = rsplit_dot-none t (ground arith) in
    let other : (c == b'.') ≡ false = ground arith in rw (rest, other)

rsplit_dot-issued : (a b : Text) → has_dot b ≡ false → rsplit_dot (a ++ b'.' ∷ b) ≡ some (a, b)
unfolding rsplit_dot
rsplit_dot-issued [] b h = let rest = rsplit_dot-none b h in rw rest
rsplit_dot-issued (c ∷ a) b h = rw (rsplit_dot-issued a b h)

all-append : (p : ℕ → Bool) (a b : Text) → all p a ≡ true → all p b ≡ true → all p (a ++ b) ≡ true
all-append p [] b h k = k
all-append p (c ∷ a) b h k = ground (arith, all-append p a b)

compare_digest-same : (t : Text) → is_ascii t ≡ true → compare_digest t t ≡ ok true
unfolding compare_digest
compare_digest-same t h = rw (h, text_eq_refl)

-- A token that is issued for an ASCII nonce is accepted beside itself as the cookie, where the
-- digest gives ASCII texts without a dot, as a hexadecimal digest does.
pub issued_token_is_valid :
    (env : AccessEnv) (nonce : Text)
    → is_ascii nonce ≡ true
    → is_ascii (env.digest (codes "csrf") nonce) ≡ true
    → has_dot (env.digest (codes "csrf") nonce) ≡ false
    → csrf_token_is_valid env
        (some (issue_csrf_token env nonce))
        (some (issue_csrf_token env nonce))
      ≡ ok true
unfolding csrf_token_is_valid issue_csrf_token signature_is_valid
issued_token_is_valid env nonce ascii signed plain =
    let token = nonce ++ b'.' ∷ env.digest (codes "csrf") nonce in
    let same =
      compare_digest-same token
        (all-append (λ c. ltb c 128) nonce (b'.' ∷ env.digest (codes "csrf") nonce) ascii signed) in
    rw (same, rsplit_dot-issued nonce (env.digest (codes "csrf") nonce) plain)
      (compare_digest-same (env.digest (codes "csrf") nonce) signed)
