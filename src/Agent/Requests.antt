-- ===== src/Agent/Requests.antt =====
-- The request limit over every sequence of calls, and the life of one key: it opens the API from
-- its creation until its revocation.
use agent_data_oracle.Base.{
  ℕ, ◌+◌, ◌≤◌, ◌<◌, ◌≡◌, Bool, true, ◌&&◌, ltb, leb, ◌==◌, ◌∷◌, [], List, ◌++◌, arith, length,
  select, select-append, length-append, length-select-imp, settle-keeps, Bool-cases, inl, inr,
}
use agent_data_oracle.Agent.{
  AgentEnv, Attempt, AgentTables, create_body, create_key, revoke_key, authenticate_body,
  authenticate, in_window, recent_attempts, requests_per_minute, minute,
}
use agent_data_oracle.Agent.Keys.{
  Call, Calls, here, next, revoke, request, create_body-eq-ok, authenticate_body-eq-ok,
  admit_request-eq-ok,
}

-- The admitted requests of a key in the minute that follows an instant.
abbrev pub in_span : ℕ → ℕ → Attempt → Bool
in_span i start a =
    a.agent_key_id == i && ltb start a.attempted_at && leb a.attempted_at (start + minute)

abbrev pub RateBounded : AgentTables → Type 0
RateBounded s = (i start : ℕ) → length (select (in_span i start) s.attempts) ≤ requests_per_minute

span-window :
    (i start now : ℕ)
    → now ≤ start + minute
    → (a : Attempt) → in_span i start a ≡ true
    → in_window i now a ≡ true
span-window i start now h a e = ground arith

-- One more admitted request, below the limit of the window that ends with it.
attempt-RateBounded :
    (i now : ℕ) (as' : List Attempt)
    → recent_attempts i now as' < requests_per_minute
    → ((j start : ℕ) → length (select (in_span j start) as') ≤ requests_per_minute)
    → (j start : ℕ)
    → length
        (select (in_span j start) (as' ++ record { agent_key_id = i; attempted_at = now } ∷ []))
      ≤ requests_per_minute
unfolding recent_attempts
attempt-RateBounded i now as' below h j start =
    let new : Attempt = record { agent_key_id = i; attempted_at = now } in
    rw (select-append, length-append)
      (elim (Bool-cases (in_span j start new)) [
        | inl e ↦
            let same : j ≡ i = ground arith in
            let near : now ≤ start + minute = ground arith in
            let fits =
              length-select-imp (in_span j start) (in_window j now) as'
                (span-window j start now near) in
            ground (arith, fits)
        | inr e ↦ ground (arith, h j start)
      ])

Call-RateBounded :
    (env : AgentEnv) {s t : AgentTables} → Call env s t → RateBounded s → RateBounded t
unfolding create_key revoke_key authenticate
Call-RateBounded env (Call.create operator scopes d now s) h =
    settle-keeps RateBounded (create_body env operator scopes d now s) s h λ a s' e.
      let (_, _, same, _, _, _, _) = create_body-eq-ok env operator scopes d now s a s' e in
      rw same h
Call-RateBounded env (revoke operator i now s) h = h
Call-RateBounded env (request bearer required now s) h =
    settle-keeps RateBounded (authenticate_body env bearer required now s) s h λ a s' e.
      let v = authenticate_body-eq-ok env bearer required now s a s' e in
      let (below, grown, _, _, _) = admit_request-eq-ok v.key now s a s' v.admitted in
      rw grown (attempt-RateBounded v.key.agent_key_id now s.attempts below h)

-- From tables that respect it, every sequence of creations, revocations and requests, at whatever
-- times the clock reads, keeps this: no key has more than thirty recorded requests in the minute
-- after any instant.
pub Calls-RateBounded :
    (env : AgentEnv) {s t : AgentTables} → RateBounded s → Calls env s t → RateBounded t
Calls-RateBounded env h here = h
Calls-RateBounded env h (next c st) = Call-RateBounded env st (Calls-RateBounded env h c)
