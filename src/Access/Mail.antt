-- ===== src/Access/Mail.antt =====
-- The mail providers: the local capture, Gmail's delivery with its retries, and the cached access
-- token.
use agent_data_oracle.Base.{
  ℕ, zero, suc, ◌+◌, ◌*◌, Text, text_eq, Bool, true, false, not, ◌&&◌, ◌||◌, ltb, leb, ◌==◌, Option,
  none, some, List, [], ◌∷◌, ◌++◌, is_empty, if◌then◌else◌,
}
use agent_data_oracle.Base.Int.{pos}
use agent_data_oracle.Json.{Json}
use agent_data_oracle.Access.SignIn.{SignInDelivery}

-- `LocalCaptureEmailProvider.send_sign_in_link`
unfoldable pub capture : SignInDelivery → List SignInDelivery → List SignInDelivery
capture d ds = ds ++ d ∷ []

-- `claim_sign_in_link`: the last delivery to the recipient, which is taken out.
unfoldable pub claim_sign_in_link : Text → List SignInDelivery → Option Text × List SignInDelivery
unfolding text_eq
claim_sign_in_link recipient [] = (none, [])
claim_sign_in_link recipient (d ∷ ds) =
    let (found, rest) = claim_sign_in_link recipient ds in
    elim found [
      | some url ↦ (some url, d ∷ rest)
      | none ↦
          if text_eq d.recipient recipient then (some d.sign_in_url, rest) else (none, d ∷ rest)
    ]

-- What one attempt of `send` gives: a response's status, an HTTP error, another transport error, or
-- an exception that the loop does not catch.
pub data Sent : Type 0 where
  status : ℕ → Sent
  refused : (code : ℕ) → Sent
  no_transport : Sent
  broken : Sent

-- The end of a delivery, with the number of attempts.
pub data Delivered : Type 0 where
  delivered not_delivered : (attempts : ℕ) → Delivered

-- `_is_transient`, on the errors that the loop catches.
unfoldable pub is_transient : Sent → Bool
is_transient (refused code) = code == 429 || leb 500 code
is_transient no_transport = true
is_transient _ = false

abbrev pub one_more : Delivered → Delivered
one_more (delivered n) = delivered (suc n)
one_more (not_delivered n) = not_delivered (suc n)

abbrev pub succeeded : Sent → Bool
succeeded (status n) = ltb n 300
succeeded _ = false

-- The loop, with the attempts that are left.
unfoldable pub deliver_from : (ℕ → Sent) → ℕ → ℕ → Delivered
unfolding is_transient
deliver_from send zero attempt = not_delivered 0
deliver_from send (suc left) attempt =
    let rest = deliver_from send left (attempt + 1) in
    if succeeded (send attempt)
    then delivered 1
    else if is_transient (send attempt) && not (left == 0)
    then one_more rest
    else not_delivered 1

-- `GmailApiEmailProvider.send_sign_in_link`
unfoldable pub send_sign_in_link : (ℕ → Sent) → Delivered
unfolding deliver_from
send_sign_in_link send = deliver_from send 3 0

-- The token in the cache, with its expiry.
abbrev pub Cached : Type 0
Cached = Option (Text × ℕ)

-- The lifetime that a token's response gives, if it is usable: an integer above 60.
abbrev pub usable_seconds : Json → Option ℕ
usable_seconds (Json.integer (pos n)) = if ltb 60 n then some n else none
usable_seconds _ = none

abbrev pub usable_token : Json → Option Text
usable_token (Json.text t) = if is_empty t then none else some t
usable_token _ = none

-- The refresh, from the two fields of the response: the token and the new cache, or the raise.
unfoldable pub refresh_token : Json → Json → ℕ → Cached → Option Text × Cached
refresh_token token seconds now cached = elim (usable_token token) [
  | none ↦ (none, cached)
  | some t ↦ elim (usable_seconds seconds) [
    | none ↦ (none, cached)
    | some n ↦ (some t, some (t, now + n * 1000000))
  ]
]

-- `GmailOAuthAccessToken.__call__`: a cached token is used for as long as more than a minute is left.
unfoldable pub access_token : Json → Json → ℕ → Cached → Option Text × Cached
unfolding refresh_token
access_token token seconds now none = refresh_token token seconds now none
access_token token seconds now (some (t, expires_at)) =
    if ltb (now + 60000000) expires_at
    then (some t, some (t, expires_at))
    else refresh_token token seconds now (some (t, expires_at))
