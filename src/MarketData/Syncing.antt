-- ===== src/MarketData/Syncing.antt =====
-- A synchronisation that has a job ends it, and reports an error instead of throwing it.
use trading_backend.Base.{◌==◌, find_first, ℕ, ◌+◌, ◌≡◌, ◌⊎◌, Option, none, some}
use trading_backend.MarketData.Context.{
  FetchParams, DataSyncStatus, SyncJob, SyncStore, SyncInput, SyncOutput, SyncContext,
}
use trading_backend.Number.Interface.{Number}

module _ {W : Type 0} ⦃n : Number W⦄ where
  abbrev job_of : ℕ → SyncStore W → Option (SyncJob W)
  job_of id s = find_first (λ j. j.id == id) s.sync_jobs

  -- The stored job says what the answer says: COMPLETED with the answer's counts and no error, or
  -- FAILED with the answer's error.
  abbrev pub IsReported : SyncOutput W → SyncStore W → Type 0
  IsReported out s =
      (j : SyncJob W) × (find_first (λ j. j.id == out.sync_job_id) s.sync_jobs ≡ some j)
      × (((out.status ≡ DataSyncStatus.completed)
            × (j.status ≡ DataSyncStatus.completed)
            × (j.error_message ≡ none)
            × (j.fetched_count ≡ out.fetched_count)
            × (j.inserted_count ≡ out.inserted_count)
            × (j.skipped_duplicates ≡ out.skipped_duplicates)
            × (out.fetched_count ≡ out.inserted_count + out.skipped_duplicates))
          ⊎ ((out.status ≡ DataSyncStatus.failed)
              × (j.status ≡ DataSyncStatus.failed)
              × (j.error_message ≡ out.error)
              × (out.fetched_count ≡ 0)))

  abbrev params_of : SyncInput → SyncContext W → FetchParams
  params_of input c = record {
    symbol = c.symbol;
    timeframe = input.timeframe;
    start_time = input.start_time;
    end_time = input.end_time;
    limit = c.limit;
  }
