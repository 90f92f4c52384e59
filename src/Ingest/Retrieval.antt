-- ===== src/Ingest/Retrieval.antt =====
-- The transport: the one permitted URL, the fetch of a response, and its retries.
use agent_data_oracle.Base.{
  ℕ, zero, suc, ◌+◌, ◌-◌, ◌^◌, Text, codes, text_eq, Bool, true, false, not, ◌&&◌, ◌==◌, ltb, leb,
  Option, none, some, List, [], ◌∷◌, ◌++◌, length, is_some, if◌then◌else◌, Result, ok, err,
}
use agent_data_oracle.Source.{RefreshMode}
use agent_data_oracle.Queue.{hours}
use agent_data_oracle.Ingest.{
  IngestEnv, SplitUrl, Port, absent, number, ill_formed, cpsc_recall_api_url,
}

abbrev pub max_retrieval_attempts : ℕ
max_retrieval_attempts = 3

-- A failed construction of the URL: the `ValueError` of a missing source time, and a time that no
-- date stands for.
pub data UrlError : Type 0 where
  source_time_required time_out_of_range : UrlError

-- `build_cpsc_recall_url`
unfoldable pub build_cpsc_recall_url : IngestEnv → RefreshMode → Option ℕ → Result UrlError Text
build_cpsc_recall_url env RefreshMode.daily none = err source_time_required
build_cpsc_recall_url env RefreshMode.daily (some last) =
    if ltb last (hours 168)
    then err time_out_of_range
    else ok (
        cpsc_recall_api_url
        ++ b'?'
          ∷ env.urlencode (
              (codes "LastPublishDateStart", env.rfc3339 (last - hours 168))
              ∷ (codes "format", codes "json")
              ∷ []))
build_cpsc_recall_url env _ last =
    ok (cpsc_recall_api_url ++ b'?' ∷ env.urlencode ((codes "format", codes "json") ∷ []))

-- `parsed.port is None`, or the raise of an ill-formed port.
abbrev pub has_no_port : Port → Option Bool
has_no_port absent = some true
has_no_port (number n) = some false
has_no_port ill_formed = none

abbrev pub is_cpsc_api_host : Option Text → Bool
is_cpsc_api_host none = false
is_cpsc_api_host (some h) = text_eq h (codes "www.saferproducts.gov")

-- The tests of `_is_documented_cpsc_api_url` in their order; `none` is a raise.
unfoldable pub is_documented_split : SplitUrl → Option Bool
unfolding text_eq
is_documented_split u =
    if text_eq u.scheme (codes "https") && is_cpsc_api_host u.hostname
    then elim (has_no_port u.port) [
      | none ↦ none
      | some free ↦ some (
          free
          && not (is_some u.username)
          && not (is_some u.password)
          && text_eq u.path (codes "/RestWebServices/Recall"))
    ]
    else some false

unfoldable pub is_documented_cpsc_api_url : IngestEnv → Text → Option Bool
unfolding is_documented_split
is_documented_cpsc_api_url env url = elim (env.urlsplit url) [
  | none ↦ none
  | some u ↦ is_documented_split u
]

-- What a fetch comes back with: a body, a `CpscRetrievalError` with its code and whether it is
-- transient, a `TimeoutError`, or an exception of another kind.
pub data Fetched : Type 0 where
  body : Text → Fetched
  retrieval_error : (error_code : Text) (transient : Bool) → Fetched
  timed_out : Fetched
  other_error : Fetched

-- What `urlopen` does with a request: a response that is read, an HTTP error, no connection (or a
-- timeout), or another exception.
pub data Opened : Type 0 where
  response : (url : Text) (status : ℕ) (content_length : Option Text) (content : Text) → Opened
  http_error : (code : ℕ) → Opened
  unreachable : Opened
  broken : Opened

abbrev pub http_code : IngestEnv → ℕ → Text
http_code env status = codes "http_" ++ env.decimal status

abbrev pub truncated : IngestEnv → Option Text → Text → Bool
truncated env none content = false
truncated env (some declared) content = not (text_eq declared (env.decimal (length content)))

-- The tests on a response, once its URL is known to be documented or not.
unfoldable pub read_response : IngestEnv → Option Bool → ℕ → Option Text → Text → Fetched
unfolding text_eq
read_response env none status declared content = other_error
read_response env (some false) status declared content =
    retrieval_error (codes "source_redirect_invalid") false
read_response env (some true) status declared content =
    if not (status == 200)
    then retrieval_error (http_code env status) (leb 500 status)
    else if truncated env declared content
    then retrieval_error (codes "transport_truncated") true
    else body content

unfoldable pub read_opened : IngestEnv → Opened → Fetched
read_opened env (response url status declared content) =
    read_response env (is_documented_cpsc_api_url env url) status declared content
read_opened env (http_error code) = retrieval_error (http_code env code) (leb 500 code)
read_opened env unreachable = retrieval_error (codes "transport_failed") true
read_opened env broken = other_error

-- `_http_fetch`
unfoldable pub http_fetch : IngestEnv → (Text → Opened) → Text → Fetched
http_fetch env urlopen url = elim (is_documented_cpsc_api_url env url) [
  | none ↦ other_error
  | some false ↦ retrieval_error (codes "source_endpoint_invalid") false
  | some true ↦ read_opened env (urlopen url)
]

-- The end of a retrieval.
pub data Ending : Type 0 where
  received : Text → Ending
  gave_up : (error_code : Text) (transient : Bool) → Ending
  raised assertion_failed : Ending

-- A retrieval: its end, the number of fetches, and the waits between them in seconds, without their
-- jitter.
pub record Retrieved : Type 0 where
  pub ending : Ending
  pub fetches : ℕ
  pub waits : List ℕ

abbrev pub ends : Ending → Retrieved
ends e = record { ending = e; fetches = 1; waits = [] }

-- A fetch and a wait, before what follows.
abbrev pub waits_then : ℕ → Retrieved → Retrieved
waits_then seconds r = record r { fetches = suc r.fetches; waits = seconds ∷ r.waits }

-- One round of the loop: what the fetch gave, whether it is the last attempt, and what follows.
unfoldable pub after_fetch : Fetched → ℕ → Bool → Retrieved → Retrieved
after_fetch (body content) attempt is_last rest = ends (received content)
after_fetch (retrieval_error code transient) attempt is_last rest =
    if transient && not is_last
    then waits_then (2 ^ attempt) rest
    else ends (gave_up code transient)
after_fetch timed_out attempt is_last rest =
    if is_last
    then ends (gave_up (codes "transport_failed") true)
    else waits_then (2 ^ attempt) rest
after_fetch other_error attempt is_last rest = ends raised

-- The attempts that are left, and the number of the next one.
unfoldable pub retrieve_from : (ℕ → Fetched) → ℕ → ℕ → Retrieved
unfolding after_fetch
retrieve_from fetch zero attempt = record { ending = assertion_failed; fetches = 0; waits = [] }
retrieve_from fetch (suc left) attempt =
    after_fetch (fetch attempt) attempt (left == 0) (retrieve_from fetch left (attempt + 1))

-- `retrieve_cpsc_response`; the fetches are numbered, as each may end differently.
unfoldable pub retrieve_cpsc_response : (ℕ → Fetched) → Retrieved
unfolding retrieve_from
retrieve_cpsc_response fetch = retrieve_from fetch max_retrieval_attempts 0
