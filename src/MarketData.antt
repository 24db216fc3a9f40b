-- ===== src/MarketData.antt =====
-- market-data/application/sync-historical-candles.use-case.ts over its Prisma repositories: candles
-- are fetched from a provider and stored once each, and a job records how it went.
pub mod Context
pub mod Insertion
pub mod Syncing
use trading_backend.Base.{
  ltb, leb, ◌==◌, if◌then◌else◌, map_some, length, find_first, find_last, head_of, update_where, ℕ,
  suc, ◌-◌, String, Bool, true, ◌&&◌, Option, none, some, List, [], ◌∷◌, str_eq,
}
use trading_backend.MarketData.Context.{
  NormalizedCandle, DataSyncStatus, SyncJob, SyncStore, SyncEnv, SyncInput, SyncOutput, SyncContext,
  SyncAction, resolve_sync_context,
}
use trading_backend.Number.Interface.{Number}
use trading_backend.Store.Entities.{MarketCandle}
use trading_backend.Store.Enums.{Timeframe, is_same_timeframe}
use trading_backend.Store.Text.{Text, Exception, message, record_not_found}
use trading_backend.Store.World.{◌>>=◌, ◌>>◌, pure, gets, modify, or_throw, lift, catch, ok}

-- `at(0)` and `at(-1)` of the sorted candles, their times
insert_time : ℕ → List ℕ → List ℕ
insert_time t [] = t ∷ []
insert_time t (u ∷ us) = if leb t u then t ∷ u ∷ us else u ∷ insert_time t us

module _ {W : Type 0} where
  -- the row that `create` writes
  abbrev pub job_row : SyncInput → SyncContext W → DataSyncStatus → Option ℕ → ℕ → SyncJob W
  job_row input c status started_at id = record {
    id = id;
    provider = c.provider.name;
    instrument_id = c.instrument.id;
    symbol = c.symbol;
    timeframe = input.timeframe;
    start_time = input.start_time;
    end_time = input.end_time;
    requested_limit = c.limit;
    status = status;
    fetched_count = 0;
    inserted_count = 0;
    skipped_duplicates = 0;
    error_message = none;
    started_at = started_at;
    finished_at = none;
  }

  unfoldable pub create_job : (ℕ → SyncJob W) → SyncAction W ℕ
  create_job row s =
      (ok s.next_id, record s { next_id = suc s.next_id; sync_jobs = row s.next_id ∷ s.sync_jobs })

  abbrev pub update_job : ℕ → (SyncJob W → SyncJob W) → SyncStore W → SyncStore W
  update_job id f s = record s { sync_jobs = update_where (λ j. j.id == id) f s.sync_jobs }

  -- the job of a run: the one that is given, marked as running, or a new one
  unfoldable pub start_job : SyncEnv W → SyncInput → SyncContext W → SyncAction W ℕ
  unfolding find_first update_where create_job
  start_job env input c = elim input.sync_job_id [
    | none ↦ create_job (job_row input c DataSyncStatus.running (some env.now))
    | some id ↦ do
      row ← gets λ s. find_first (λ j. j.id == id) s.sync_jobs
      job ← or_throw row record_not_found
      modify (
          update_job id
            (λ j. record j { status = DataSyncStatus.running; started_at = some env.now }))
      pure id
  ]

  -- the unique key of `market_candles`
  abbrev pub has_key : ℕ → Timeframe → ℕ → MarketCandle W → Bool
  has_key instrument_id timeframe timestamp c =
      c.instrument_id == instrument_id
      && (is_same_timeframe timeframe c.timeframe && c.timestamp == timestamp)

  unfoldable pub sorted_times : List (NormalizedCandle W) → List ℕ
  unfolding insert_time
  sorted_times [] = []
  sorted_times (c ∷ cs) = insert_time c.timestamp (sorted_times cs)

  abbrev pub completed_job : ℕ → ℕ → ℕ → SyncJob W → SyncJob W
  completed_job now fetched inserted j = record j {
    status = DataSyncStatus.completed;
    fetched_count = fetched;
    inserted_count = inserted;
    skipped_duplicates = fetched - inserted;
    finished_at = some now;
    error_message = none;
  }

  abbrev pub failed_job : ℕ → Text W → SyncJob W → SyncJob W
  failed_job now why j = record j {
    status = DataSyncStatus.failed;
    error_message = some why;
    finished_at = some now;
  }

  -- the event of the latest candle
  unfoldable pub announce_candle : SyncInput → ℕ → ℕ → List ℕ → SyncStore W → SyncStore W
  unfolding find_first find_last
  announce_candle input instrument_id inserted times s =
      if input.trigger_analysis && ltb 0 inserted
      then (elim (find_last (λ t. true) times) [
        | none ↦ s
        | some t ↦ record s {
          closed_candles =
              record {
                candle_id =
                    map_some (λ c. c.id)
                      (find_first (has_key instrument_id input.timeframe t) s.candles);
                instrument_id = instrument_id;
                timeframe = input.timeframe;
                candle_timestamp = t;
              }
              ∷ s.closed_candles;
        }
      ])
      else s

module _ {W : Type 0} ⦃n : Number W⦄ where
  open n use {column}

  abbrev pub candle_row : ℕ → NormalizedCandle W → ℕ → MarketCandle W
  candle_row instrument_id c id = record {
    id = id;
    instrument_id = instrument_id;
    timeframe = c.timeframe;
    open_price = column 8 c.open_price;
    high = column 8 c.high;
    low = column 8 c.low;
    close = column 8 c.close;
    volume = column 8 c.volume;
    timestamp = c.timestamp;
  }

  -- `createMany` with `skipDuplicates`: the number of the rows inserted
  unfoldable pub insert_candles : ℕ → List (NormalizedCandle W) → SyncStore W → ℕ × SyncStore W
  unfolding find_first
  insert_candles instrument_id [] s = (0, s)
  insert_candles instrument_id (c ∷ cs) s =
      elim (find_first (has_key instrument_id c.timeframe c.timestamp) s.candles) [
        | some old ↦ insert_candles instrument_id cs s
        | none ↦
            let rest = insert_candles instrument_id cs (record s {
              next_id = suc s.next_id;
              candles = candle_row instrument_id c s.next_id ∷ s.candles;
            }) in
            (suc rest.0, rest.1)
      ]

  abbrev pub completed_output : ℕ → ℕ → ℕ → List ℕ → SyncOutput W
  completed_output id total inserted times = record {
    sync_job_id = id;
    fetched_count = total;
    inserted_count = inserted;
    skipped_duplicates = total - inserted;
    first_candle_at = head_of times;
    last_candle_at = find_last (λ t. true) times;
    status = DataSyncStatus.completed;
    error = none;
  }

  -- the body of the `try`
  unfoldable pub fetch_and_store :
      SyncEnv W → SyncInput → SyncContext W → ℕ → SyncAction W (SyncOutput W)
  fetch_and_store env input c id = do
    fetched ← lift (
        c.provider.fetch (record {
          symbol = c.symbol;
          timeframe = input.timeframe;
          start_time = input.start_time;
          end_time = input.end_time;
          limit = c.limit;
        }))
    lift env.create_many
    inserted ← (λ s. let r = insert_candles c.instrument.id fetched s in (ok r.0, r.1))
    let total = length fetched
    let times = sorted_times fetched
    modify (update_job id (completed_job env.now total inserted))
    modify (announce_candle input c.instrument.id inserted times)
    pure (completed_output id total inserted times)

  abbrev pub failed_output : ℕ → Text W → SyncOutput W
  failed_output id why = record {
    sync_job_id = id;
    fetched_count = 0;
    inserted_count = 0;
    skipped_duplicates = 0;
    first_candle_at = none;
    last_candle_at = none;
    status = DataSyncStatus.failed;
    error = some why;
  }

  -- the `catch`: an error of the body is reported, not thrown
  unfoldable pub report_failure : SyncEnv W → ℕ → Exception W → SyncAction W (SyncOutput W)
  report_failure env id e s =
      (ok (failed_output id (message e)), update_job id (failed_job env.now (message e)) s)

  -- `execute`
  unfoldable pub execute_sync : SyncEnv W → SyncInput → SyncAction W (SyncOutput W)
  execute_sync env input = do
    c ← resolve_sync_context env input
    id ← start_job env input c
    catch (fetch_and_store env input c id) (report_failure env id)

  -- `enqueue`
  unfoldable pub enqueue_sync : SyncEnv W → SyncInput → SyncAction W ℕ
  enqueue_sync env input = do
    c ← resolve_sync_context env input
    create_job (job_row input c DataSyncStatus.pending none)

  -- `HistoricalMarketDataSyncProcessor.process`, of a job's name and payload
  unfoldable pub process_sync : SyncEnv W → String → SyncInput → SyncAction W (Unit {0})
  process_sync env name input =
      if str_eq name "sync-historical-candles"
      then (execute_sync env input >>= λ _. pure tt)
      else pure tt
