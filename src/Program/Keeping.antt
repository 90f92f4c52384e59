-- ===== src/Program/Keeping.antt =====
-- What every write of the program keeps, by the kinds of change that it makes to the queue.
use agent_data_oracle.Base.{ℕ, refl, Bool, ◌==◌, Option, none, some, List, [], ◌∷◌, select, first}
use agent_data_oracle.Queue.{Env, Queue, Refresh}
use agent_data_oracle.Queue.Steps.{Step}
use agent_data_oracle.Ingest.{IngestEnv}
use agent_data_oracle.Ingest.Steps.{response-keeps, refresh-keeps, fixture-keeps}
use agent_data_oracle.Access.{OperatorRow}
use agent_data_oracle.Rights.{RightsTables, DeletionWork, overdue_pause, work_of}
use agent_data_oracle.Rights.Cleanup.{
  delete_where, erase_queue, erase_found, erase_operator, expire_refresh_history, expire_attempts,
  expired_operators, is_expired_link, pending_works, settle_work, settle_works, erase_expired,
  cleanup,
}
use agent_data_oracle.Rights.Loops.{settle_work-cases, pause-cases}
use agent_data_oracle.Program.{
  Write, calls, imports_fixture, imports_response, refreshes, cleans, Writes, start, after,
}
use agent_data_oracle.Program.Imports.{SameWork, SameWork-refl, AsBefore-IsImportKept}

-- What has to be shown of a property for every write to keep it.
pub record IsKept (env : Env) (P : Queue → Type 0) : Type 0 where
  pub by_same : (s t : Queue) → SameWork s t → P s → P t
  pub by_step : (s t : Queue) → Step env s t → P s → P t
  pub by_erasure : (i : ℕ) (s : Queue) → P s → P (erase_queue i s)
  pub by_expiry :
      (p : Refresh → Bool) (s : Queue)
      → P s
      → P (record s { refreshes = delete_where p s.refreshes })

module _ (env : Env) (ingest : IngestEnv) (P : Queue → Type 0) (k : IsKept env P) where
  found-keeps :
      (i now : ℕ) (s : RightsTables) (work : Option DeletionWork) (o : Option OperatorRow)
      → P s.queue
      → P (erase_found i now s work o).1.queue
  unfolding erase_found
  found-keeps i now s work none p = p
  found-keeps i now s work (some o) p = k.by_erasure i s.queue p

  erase_operator-keeps :
      (i now : ℕ) (s : RightsTables) → P s.queue → P (erase_operator i now s).1.queue
  unfolding erase_operator
  erase_operator-keeps i now s p =
      found-keeps i now s (first (select (work_of i) s.works))
        (first (select (λ (o : OperatorRow). o.operator_id == i) s.access.operators)) p

  overdue-keeps : (now : ℕ) (s : RightsTables) → P s.queue → P (overdue_pause now s).queue
  overdue-keeps now s p =
      k.by_same s.queue (overdue_pause now s).queue
        (record { evaluations = refl; audits = refl; releases = refl; refreshes = refl }) p

  settle_work-keeps :
      (now : ℕ) (w : DeletionWork) (s : RightsTables) → P s.queue → P (settle_work now w s).1.queue
  settle_work-keeps now w s p =
      settle_work-cases now w s (λ t. P t.queue) (λ h d. p)
        (λ h d. pause-cases now s (λ t. P t.queue) (λ e. p) (overdue-keeps now s p))
        (λ h. erase_operator-keeps w.operator_id now s p)

  settle_works-keeps :
      (now : ℕ) (ws : List DeletionWork) (s : RightsTables)
      → P s.queue
      → P (settle_works now ws s).1.queue
  unfolding settle_works
  settle_works-keeps now [] s p = p
  settle_works-keeps now (w ∷ ws) s p =
      settle_works-keeps now ws (settle_work now w s).1 (settle_work-keeps now w s p)

  erase_expired-keeps :
      (now : ℕ) (os : List OperatorRow) (s : RightsTables)
      → P s.queue
      → P (erase_expired now os s).1.queue
  unfolding erase_expired
  erase_expired-keeps now [] s p = p
  erase_expired-keeps now (o ∷ os) s p =
      erase_expired-keeps now os (erase_operator o.operator_id now s).1
        (erase_operator-keeps o.operator_id now s p)

  expire_attempts-keeps : (now : ℕ) (s : RightsTables) → P s.queue → P (expire_attempts now s).queue
  unfolding expire_attempts
  expire_attempts-keeps now s p = p

  history-keeps : (now : ℕ) (s : RightsTables) → P s.queue → P (expire_refresh_history now s).queue
  unfolding expire_refresh_history
  history-keeps now s p = k.by_expiry (is_expired_link now s.queue) s.queue p

  cleanup-keeps : (now : ℕ) (s : RightsTables) → P s.queue → P (cleanup now s).1.queue
  unfolding cleanup
  cleanup-keeps now s p =
      let t = expire_attempts now s in
      let u = (settle_works now (pending_works t) t).1 in
      let v = (erase_expired now (expired_operators now t) u).1 in
      history-keeps now v (
        erase_expired-keeps now (expired_operators now t) u
          (settle_works-keeps now (pending_works t) t (expire_attempts-keeps now s p)))

  Write-keeps : {s t : Queue} → Write env ingest s t → P s → P t
  Write-keeps (calls s t step) p = k.by_step s t step p
  Write-keeps (imports_fixture d content observed_at expected url s) p =
      k.by_same s.queue _
        (fixture-keeps ingest (λ t. SameWork s.queue t.queue) (AsBefore-IsImportKept ingest s.queue)
          d content observed_at expected url s (SameWork-refl s.queue))
        p
  Write-keeps (imports_response d q expected now s) p =
      k.by_same s.queue _
        (response-keeps ingest (λ t. SameWork s.queue t.queue)
          (AsBefore-IsImportKept ingest s.queue) d q expected now s (SameWork-refl s.queue))
        p
  Write-keeps (refreshes d q fetch s) p =
      k.by_same s.queue _
        (refresh-keeps ingest (λ t. SameWork s.queue t.queue) (AsBefore-IsImportKept ingest s.queue)
          d q fetch s (SameWork-refl s.queue))
        p
  Write-keeps (cleans now s) p = cleanup-keeps now s p

  pub Writes-keep : {s t : Queue} → Writes env ingest s t → P s → P t
  Writes-keep start p = p
  Writes-keep (after t u before write) p = Write-keeps write (Writes-keep before p)
