-- ===== src/MarketData/Context.antt =====
-- The rows, the input and the providers of a synchronisation, and `resolveSyncContext` of
-- market-data/application/sync-historical-candles.use-case.ts.
use trading_backend.Base.{
  ltb, ◌==◌, if◌then◌else◌, or_default, find_first, ℕ, String, Bool, true, Option, none, some, List,
  [], ◌∷◌,
}
use trading_backend.Fundamental.Currency.{codes, upper, same_codes}
use trading_backend.Store.Entities.{Instrument, MarketCandle}
use trading_backend.Store.Enums.{Timeframe}
use trading_backend.Store.Text.{Text, say, text, count, bad_request, not_found}
use trading_backend.Store.World.{
  Result, StateAction, ◌>>=◌, ◌>>◌, pure, throw_unless, gets, or_throw, lift, ok, err,
}

-- `NormalizedCandle`, the columns that are stored
pub record NormalizedCandle (W : Type 0) : Type 0 where
  pub timeframe : Timeframe
  pub open_price : W
  pub high : W
  pub low : W
  pub close : W
  pub volume : W
  pub timestamp : ℕ

pub record FetchParams : Type 0 where
  pub symbol : String
  pub timeframe : Timeframe
  pub start_time : ℕ
  pub end_time : Option ℕ
  pub limit : ℕ

-- `MarketDataProvider`, an HTTP client
pub record Provider (W : Type 0) : Type 0 where
  pub name : String
  pub supports_symbol : String → Bool
  pub fetch : FetchParams → Result W (List (NormalizedCandle W))

pub data DataSyncStatus : Type 0 where
  pending running completed failed : DataSyncStatus

pub record SyncJob (W : Type 0) : Type 0 where
  pub id : ℕ
  pub provider : String
  pub instrument_id : ℕ
  pub symbol : String
  pub timeframe : Timeframe
  pub start_time : ℕ
  pub end_time : Option ℕ
  pub requested_limit : ℕ
  pub status : DataSyncStatus
  pub fetched_count : ℕ
  pub inserted_count : ℕ
  pub skipped_duplicates : ℕ
  pub error_message : Option (Text W)
  pub started_at : Option ℕ
  pub finished_at : Option ℕ

-- the payload of CANDLE_CLOSED
pub record CandleClosed : Type 0 where
  pub candle_id : Option ℕ
  pub instrument_id : ℕ
  pub timeframe : Timeframe
  pub candle_timestamp : ℕ

pub record SyncStore (W : Type 0) : Type 0 where
  pub next_id : ℕ
  pub instruments : List Instrument
  pub candles : List (MarketCandle W)
  pub sync_jobs : List (SyncJob W)
  pub closed_candles : List CandleClosed

-- The settings, the providers, the time, and the database's answer to the insert of the candles.
pub record SyncEnv (W : Type 0) : Type 0 where
  pub default_provider : Option String
  pub sync_default_limit : Option ℕ
  pub sync_max_limit : Option ℕ
  pub providers : List (Provider W)
  pub now : ℕ
  pub create_many : Result W (Unit {0})

pub record SyncInput : Type 0 where
  pub instrument_id : ℕ
  pub timeframe : Timeframe
  pub start_time : ℕ
  pub end_time : Option ℕ
  pub limit : Option ℕ
  pub provider : Option String
  pub sync_job_id : Option ℕ
  pub trigger_analysis : Bool

-- what varies in `SyncHistoricalCandlesOutput`; the rest repeats the input and the job
pub record SyncOutput (W : Type 0) : Type 0 where
  pub sync_job_id : ℕ
  pub fetched_count : ℕ
  pub inserted_count : ℕ
  pub skipped_duplicates : ℕ
  pub first_candle_at : Option ℕ
  pub last_candle_at : Option ℕ
  pub status : DataSyncStatus
  pub error : Option (Text W)

pub record SyncContext (W : Type 0) : Type 0 where
  pub instrument : Instrument
  pub provider : Provider W
  pub symbol : String
  pub limit : ℕ

abbrev pub SyncAction : Type 0 → Type 0 → Type 0
SyncAction W A = StateAction (SyncStore W) W A

-- `validateInput`
abbrev pub is_valid_period : SyncInput → Bool
is_valid_period input = elim input.end_time [ none ↦ true | some e ↦ ltb input.start_time e ]

module _ {W : Type 0} where
  -- `resolveProvider`
  unfoldable pub resolve_provider : SyncEnv W → Option String → Result W (Provider W)
  unfolding find_first same_codes upper
  resolve_provider env provider_name =
      let name = or_default provider_name (or_default env.default_provider "BINANCE") in
      elim (find_first (λ p. same_codes (codes p.name) (upper (codes name))) env.providers) [
        | none ↦ err (
            bad_request (text "Market data provider " ∷ text name ∷ text " is not configured" ∷ []))
        | some p ↦ ok p
      ]

  -- `resolveLimit`
  unfoldable pub resolve_limit : SyncEnv W → Option ℕ → Result W ℕ
  resolve_limit env limit =
      let resolved = or_default limit (or_default env.sync_default_limit 1000) in
      let max_limit = or_default env.sync_max_limit 1000 in
      if ltb max_limit resolved
      then err (bad_request (text "Limit cannot be greater than " ∷ count max_limit ∷ []))
      else ok resolved

  -- `validateInput` and `resolveSyncContext`
  unfoldable pub resolve_sync_context : SyncEnv W → SyncInput → SyncAction W (SyncContext W)
  unfolding find_first resolve_provider resolve_limit
  resolve_sync_context env input = do
    throw_unless (is_valid_period input)
        (bad_request (say "endTime must be greater than startTime"))
    row ← gets λ s. find_first (λ i. i.id == input.instrument_id) s.instruments
    instrument ← or_throw row (not_found (say "Instrument not found"))
    throw_unless instrument.is_active (bad_request (say "Instrument is inactive"))
    provider ← lift (resolve_provider env input.provider)
    let symbol = or_default instrument.broker_symbol instrument.symbol
    throw_unless (provider.supports_symbol symbol) (
        bad_request
          (text "Provider " ∷ text provider.name ∷ text " does not support " ∷ text symbol ∷ []))
    limit ← lift (resolve_limit env input.limit)
    pure (record { instrument = instrument; provider = provider; symbol = symbol; limit = limit })
