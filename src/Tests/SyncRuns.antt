-- ===== src/Tests/SyncRuns.antt =====
-- The synchronisation of two candles of gold, one of which is stored already.
use trading_backend.Base.{
  is_some, length, All, find_first, ℕ, ◌+◌, ◌≤◌, ◌≡◌, refl, true, none, some, List, [], ◌∷◌,
}
use trading_backend.MarketData.{
  start_job, has_key, sorted_times, candle_row, insert_candles, completed_output, fetch_and_store,
  execute_sync,
}
use trading_backend.MarketData.Context.{
  NormalizedCandle, Provider, SyncStore, SyncEnv, SyncInput, resolve_sync_context,
}
use trading_backend.MarketData.Insertion.{HasUniqueKeys, insert_candles_once}
use trading_backend.Number.Fixed.{ℤ, fixed_number}
use trading_backend.Number.Interface.{number}
use trading_backend.Store.Enums.{Timeframe}
use trading_backend.Store.World.{ok}

abbrev fetched_candle : ℕ → NormalizedCandle ℤ
fetched_candle timestamp = record {
  timeframe = Timeframe.h1;
  open_price = number 100;
  high = number 102;
  low = number 99;
  close = number 101;
  volume = number 10;
  timestamp = timestamp;
}

abbrev fetched_candles : List (NormalizedCandle ℤ)
fetched_candles = fetched_candle 7200 ∷ fetched_candle 3600 ∷ []

abbrev sync_store : SyncStore ℤ
sync_store = record {
  next_id = 5;
  instruments = record { id = 20; symbol = "XAUUSD"; broker_symbol = none; is_active = true } ∷ [];
  candles = candle_row 20 (fetched_candle 3600) 4 ∷ [];
  sync_jobs = [];
  closed_candles = [];
}

abbrev binance : Provider ℤ
binance = record { name = "BINANCE"; supports_symbol = λ s. true; fetch = λ p. ok fetched_candles }

abbrev sync_env : SyncEnv ℤ
sync_env = record {
  default_provider = some "binance";
  sync_default_limit = none;
  sync_max_limit = none;
  providers = binance ∷ [];
  now = 9000;
  create_many = ok tt;
}

abbrev sync_input : SyncInput
sync_input = record {
  instrument_id = 20;
  timeframe = Timeframe.h1;
  start_time = 0;
  end_time = some 8000;
  limit = none;
  provider = none;
  sync_job_id = none;
  trigger_analysis = true;
}

-- one candle is inserted, and one is a duplicate
execute_sync-answer :
    (execute_sync sync_env sync_input sync_store).0 ≡ ok (completed_output 5 2 1 (3600 ∷ 7200 ∷ []))
unfolding execute_sync resolve_sync_context start_job fetch_and_store insert_candles sorted_times
execute_sync-answer = refl

insert_candles_once_example :
    let out = insert_candles 20 fetched_candles sync_store in
    HasUniqueKeys out.1.candles
    × (length out.1.candles ≡ out.0 + 1)
    × (out.0 ≤ 2)
    × All
        (λ c. is_some (find_first (has_key 20 c.timeframe c.timestamp) out.1.candles) ≡ true)
        fetched_candles
    × (insert_candles 20 fetched_candles out.1 ≡ (0, out.1))
unfolding find_first
insert_candles_once_example = insert_candles_once 20 fetched_candles sync_store (refl, tt)
