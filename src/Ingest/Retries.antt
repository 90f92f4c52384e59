-- ===== src/Ingest/Retries.antt =====
-- The bound on the fetches of a retrieval.
use agent_data_oracle.Base.{
  ℕ, zero, suc, ◌+◌, ◌≤◌, ◌<◌, ◌≡◌, ◌≢◌, ◌⊎◌, inl, inr, refl, sym, ◌∙◌, ◌^◌, if◌then◌else◌, codes,
  Bool, true, false, not, ◌&&◌, arith, length, ◌==◌, Bool-cases,
}
use agent_data_oracle.Ingest.Retrieval.{
  Fetched, body, retrieval_error, timed_out, other_error, Ending, received, gave_up, raised,
  assertion_failed, Retrieved, after_fetch, retrieve_from, retrieve_cpsc_response, ends, waits_then,
}

-- Trying again may help.
abbrev pub is_transient : Fetched → Bool
is_transient (retrieval_error code transient) = transient
is_transient timed_out = true
is_transient _ = false

-- How a retrieval ends with what its last fetch gave.
abbrev pub ending_of : Fetched → Ending
ending_of (body content) = received content
ending_of (retrieval_error code transient) = gave_up code transient
ending_of timed_out = gave_up (codes "transport_failed") true
ending_of other_error = raised

-- The fetches from a number on, up to one at which a retrieval stops: each before it was transient.
pub data StopsAt (fetch : ℕ → Fetched) : ℕ → ℕ → Type 0 where
  stops : (n : ℕ) → StopsAt fetch n n
  goes_on : (n m : ℕ) → is_transient (fetch n) ≡ true → StopsAt fetch (n + 1) m → StopsAt fetch n m

-- The end of a run of attempts: the last fetch is not transient, or there is no attempt left.
pub record Stopped (fetch : ℕ → Fetched) (left attempt : ℕ) (r : Retrieved) : Type 0 where
  pub last : ℕ
  pub path : StopsAt fetch attempt last
  pub in_time : last < attempt + left
  pub counted : r.fetches + attempt ≡ last + 1
  pub waited : length r.waits + 1 ≡ r.fetches
  pub ended : r.ending ≡ ending_of (fetch last)
  pub final : (is_transient (fetch last) ≡ false) ⊎ (last + 1 ≡ attempt + left)

stop-Stopped :
    (fetch : ℕ → Fetched) (left attempt : ℕ)
    → (is_transient (fetch attempt) ≡ false) ⊎ (left ≡ 0)
    → Stopped fetch (suc left) attempt (ends (ending_of (fetch attempt)))
stop-Stopped fetch left attempt why = record {
  last = attempt;
  path = stops attempt;
  in_time = omega arith;
  counted = omega arith;
  waited = omega arith;
  ended = refl;
  final = elim why [ inl e ↦ inl e | inr e ↦ inr (omega arith) ];
}

go_on-Stopped :
    (fetch : ℕ → Fetched) (left attempt seconds : ℕ) (rest : Retrieved)
    → is_transient (fetch attempt) ≡ true
    → Stopped fetch left (attempt + 1) rest
    → Stopped fetch (suc left) attempt (waits_then seconds rest)
go_on-Stopped fetch left attempt seconds rest e v = record {
  last = v.last;
  path = goes_on attempt v.last e v.path;
  in_time = omega (arith, v.in_time);
  counted = omega (arith, v.counted);
  waited = omega (arith, v.waited);
  ended = v.ended;
  final = elim v.final [ inl f ↦ inl f | inr f ↦ inr (omega (arith, f)) ];
}

after_fetch_lem :
    (x : Fetched) (attempt : ℕ) (is_last : Bool) (rest : Retrieved)
    → after_fetch x attempt is_last rest ≡ (
        if is_transient x && not is_last then waits_then (2 ^ attempt) rest else ends (ending_of x))
unfolding after_fetch
after_fetch_lem (body content) attempt is_last rest = refl
after_fetch_lem (retrieval_error code transient) attempt is_last rest = refl
after_fetch_lem timed_out attempt true rest = refl
after_fetch_lem timed_out attempt false rest = refl
after_fetch_lem other_error attempt is_last rest = refl

retrieve_from-Stopped :
    (fetch : ℕ → Fetched) (left attempt : ℕ)
    → Stopped fetch (suc left) attempt (retrieve_from fetch (suc left) attempt)
unfolding retrieve_from
retrieve_from-Stopped fetch zero attempt =
    rw after_fetch_lem (elim (Bool-cases (is_transient (fetch attempt))) [
      | inl e ↦ rw e (stop-Stopped fetch zero attempt (inr refl))
      | inr e ↦ rw e (stop-Stopped fetch zero attempt (inl e))
    ])
retrieve_from-Stopped fetch (suc left) attempt =
    rw after_fetch_lem (elim (Bool-cases (is_transient (fetch attempt))) [
      | inl e ↦
          let more : (suc left == 0) ≡ false = ground arith in
          rw (e, more)
            (go_on-Stopped fetch (suc left) attempt (2 ^ attempt) _ e
              (retrieve_from-Stopped fetch left (attempt + 1)))
      | inr e ↦ rw e (stop-Stopped fetch (suc left) attempt (inl e))
    ])

-- A retrieval makes one to three fetches with a wait between any two, and ends as the last of them
-- says: each before the last was transient, and the last was not or was the third. It never meets
-- the assertion behind the loop.
pub retrieve_cpsc_response-Stopped :
    (fetch : ℕ → Fetched)
    → Stopped fetch 3 0 (retrieve_cpsc_response fetch)
      × (1 ≤ (retrieve_cpsc_response fetch).fetches)
      × ((retrieve_cpsc_response fetch).fetches ≤ 3)
      × ((retrieve_cpsc_response fetch).ending ≢ assertion_failed)
unfolding retrieve_cpsc_response
retrieve_cpsc_response-Stopped fetch =
    let v = retrieve_from-Stopped fetch 2 0 in
    (
      v,
      omega (arith, v.counted),
      omega (arith, v.counted, v.in_time),
      λ e. ending_of-ne (fetch v.last) (sym v.ended ∙ e),
    )
  where
    ending_of-ne : (x : Fetched) → ending_of x ≢ assertion_failed
    ending_of-ne (body content) h = cc
    ending_of-ne (retrieval_error code transient) h = cc
    ending_of-ne timed_out h = cc
    ending_of-ne other_error h = cc
