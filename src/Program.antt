-- ===== src/Program.antt =====
-- All writes of the program to the tables of the queue: the calls of `EvidenceQueues`, the imports
-- of `cpsc_source.py` and the cleanup of `data_rights.py`.
pub mod Imports
pub mod Keeping
pub mod Rejections
pub mod Ordering
pub mod Refreshes
use agent_data_oracle.Base.{ℕ, Text, Option}
use agent_data_oracle.Queue.{Env, Queue}
use agent_data_oracle.Queue.Steps.{Step}
use agent_data_oracle.Ingest.{IngestEnv, Ingest, ImportDraw}
use agent_data_oracle.Ingest.Retrieval.{Fetched}
use agent_data_oracle.Ingest.Importing.{
  Response, RefreshCall, import_cpsc_fixture, import_cpsc_refresh_response, refresh_cpsc_source,
}
use agent_data_oracle.Rights.{RightsTables}
use agent_data_oracle.Rights.Cleanup.{cleanup}

-- One write, with the other tables in any state.
pub data Write (env : Env) (ingest : IngestEnv) : Queue → Queue → Type 0 where
  calls : (s t : Queue) → Step env s t → Write env ingest s t
  imports_fixture :
      (d : ImportDraw) (content : Text) (observed_at expected : ℕ) (url : Text) (s : Ingest)
      → Write env ingest s.queue
          (import_cpsc_fixture ingest d content observed_at expected url s).1.queue
  imports_response :
      (d : ImportDraw) (q : Response) (expected : Option ℕ) (now : ℕ) (s : Ingest)
      → Write env ingest s.queue (import_cpsc_refresh_response ingest d q expected now s).1.queue
  refreshes :
      (d : ImportDraw) (q : RefreshCall) (fetch : Text → ℕ → Fetched) (s : Ingest)
      → Write env ingest s.queue (refresh_cpsc_source ingest d q fetch s).1.queue
  cleans : (now : ℕ) (s : RightsTables) → Write env ingest s.queue (cleanup now s).1.queue

-- Any number of writes, the last one outermost.
pub data Writes (env : Env) (ingest : IngestEnv) (s : Queue) : Queue → Type 0 where
  start : Writes env ingest s s
  after : (t u : Queue) → Writes env ingest s t → Write env ingest t u → Writes env ingest s u
