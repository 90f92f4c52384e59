-- ===== src/Lib.antt =====
-- A verification library for the program's core: the evidence queues, the identifiers they match,
-- the import of their source, the human and delegated access, the data rights and the preview
-- admission, all of src/agent_data_oracle.
--
-- An operator submits rows of typed identifiers; `evidence_queue.py` validates them, matches them
-- against the records of the current completed CPSC revision and stores an immutable evaluation. The
-- first evaluations with candidates wait for the founder's audit, which releases or rejects; a
-- rejection pauses new work. Released evaluations are read, reviewed and acknowledged by their
-- operator and, with a delegated key of `agent_access.py`, by agents. `preview_access.py` says who
-- is admitted while the preview is on. `cpsc_source.py` retrieves and parses the recalls, promotes a
-- complete response to the current revision and pauses work when a response is rejected. `auth.py`
-- signs people in by mail, keeps their sessions and asks founders for a second factor.
-- `data_rights.py` exports and erases what is stored about an operator.
--
-- Files:
-- - Base: shared names, lists, Python's texts, database tables and transactions. A text is the list of
--   its code points; an instant counts microseconds; identifiers drawn at random (UUIDs, secrets) are
--   arguments of the operations.
-- - Regex: the regular expressions behind the two anchored patterns, with derivatives; Regex/Laws
--   relates them to the language of a pattern.
-- - Json: the values of `json.loads`.
-- - Identifier: src/agent_data_oracle/evidence_queue.py, `IdentifierType` to `normalize_identifier` and
--   the patterns; Identifier/Submission is `submitted_identifiers_from_rows`, `_from_form` and `_from_json`;
--   Identifier/Matching is `match_cpsc_record` with its three collectors and `_source_constraints`.
-- - Source: the source tables of migrations/versions/0002 and 0003, and the queries that
--   `_submit_evaluation` runs on them.
-- - Queue: the tables of migrations/versions/0006 to 0015; Queue/Submit is `_submit_evaluation`,
--   Queue/Comparison its delta, Queue/Auditing the audits and the pause, Queue/Reviews the reports,
--   acknowledgements and retrievals, Queue/Refreshing `refresh_evaluation`, and Queue/Reads the
--   methods that only read. Queue/Steps is the relation of the calls of `EvidenceQueues` that write.
-- --   The proofs are in the other files of Queue.
-- - Agent: src/agent_data_oracle/agent_access.py; proofs in Agent/Keys, Requests, Revocation, Lifetime.
-- - Preview: src/agent_data_oracle/preview_access.py; proofs in Preview/Admission and Preview/Policy.
-- - Ingest: src/agent_data_oracle/cpsc_source.py over the tables of migrations/versions/0002 and 0014;
--   Ingest/Retrieval is `build_cpsc_recall_url`, `_http_fetch` and `retrieve_cpsc_response`,
--   Ingest/Records `parse_source_records`, Ingest/Promotion `_record_version` and `_promote_revision`,
--   Ingest/Importing the imports and `refresh_cpsc_source`, Ingest/Status `cpsc_source_status`.
--   Ingest/Steps is the relation of the calls that write.
-- - Access: src/agent_data_oracle/auth.py over the tables of migrations/versions/0005 and 0013;
--   Access/SignIn is `normalize_email`, `request_sign_in` and `consume_sign_in_token`, Access/Sessions
--   the sessions and the declaration, Access/SecondFactor the founder's codes, Access/Csrf the CSRF
--   tokens, Access/Mail the two mail providers and the cache of the OAuth token. Access/Steps is the
--   relation of the calls of `HumanAccess` that write.
-- - Rights: src/agent_data_oracle/data_rights.py over the tables of migrations/versions/0016;
--   Rights/Export is `export_operator`, Rights/Cleanup `cleanup` with `_erase_operator`, Rights the
--   rest; proofs in the other files of Rights.
-- - Program: all writes to the queue's tables together, by the queue's calls, the imports and the
--   cleanup. Program/Keeping says what a property must meet for every write to keep it; proofs in
--   Program/Rejections and Refreshes.
-- - Examples: runs on concrete inputs.
--
-- An operation takes the tables and returns its result with the new tables; a raise is a value and
-- leaves the tables as they were, as the transaction rolls back. The advisory locks make calls run one
-- after another, which is how a step relation sees them. An operation reads its clock once, and
-- CURRENT_TIMESTAMP is kept where a column of the model is read. The queue and the import share one
-- pause and one set of source tables: the state of Ingest holds that of Queue, and that of Rights
-- holds all tables with data of operators. Recursion is structural but for
-- `refresh_evaluation`, which takes fuel: one call more than there are evaluations is enough, since
-- each link leads to a row further down the table. The retries of Ingest/Retrieval and Access/Mail
-- recurse on the attempts that are left, three at first as in the source. Parameters stand for
-- Python's libraries: the Unicode tables, `re.finditer` and `re.search` on a description, SHA-256 of
-- canonical JSON, scrypt, HMAC, `urlsplit`, the HTTP client.
--
-- Not modelled: the serialisation of contracts; the sign-in mail's format and the OAuth request's
-- transport; the uniqueness and foreign keys of tables, but for the identifiers that an insertion draws
-- and the constraints on a new refresh link;
-- the triggers and deferred constraints of the migrations; config.py, which reads environment
-- variables; observability.py, which configures logging; frozen_matching.py, web.py and cli.py.
pub mod Base
pub mod Regex
pub mod Json
pub mod Identifier
pub mod Program
pub mod Rights
pub mod Source
pub mod Ingest
pub mod Queue
pub mod Preview
pub mod Access
pub mod Agent
pub mod Examples
