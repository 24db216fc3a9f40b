-- ===== src/Tests/BacktestRuns.antt =====
-- The backtest over rising candles of gold.
use trading_backend.Base.{
  length, All, ℕ, zero, suc, ◌+◌, ◌-◌, ◌*◌, ◌/◌, ◌%◌, ◌≡◌, refl, true, none, List, [], ◌∷◌, map,
  arith,
}
use trading_backend.Backtest.Analysis.{Filters}
use trading_backend.Backtest.Engine.{RunInput, final_state, run_engine}
use trading_backend.Backtest.Exits.{exit_for_candle, calculate_pnl, exit_of, close_triggered_trades}
use trading_backend.Backtest.Ledger.{balances, balance_after, HasProfit, run_engine-ledger}
use trading_backend.Backtest.Metrics.{OpenTrade, round_money}
use trading_backend.Backtest.Order.{IsAscending, IsTimed, run_engine-IsTimed}
use trading_backend.Backtest.UseCase.{BacktestStore, BacktestEnv, RunBacktest}
use trading_backend.Number.Fixed.{ℤ, fixed_number}
use trading_backend.Number.Interface.{number}
use trading_backend.Store.Entities.{MarketCandle}
use trading_backend.Store.Enums.{Timeframe, TradeDirection}
use trading_backend.Store.World.{ok}
use trading_backend.Strategy.Engine.{StoredStrategy}
use trading_backend.Tests.Sample.{config}

abbrev backtest_candle : ℕ → MarketCandle ℤ
backtest_candle k = record {
  id = k;
  instrument_id = 20;
  timeframe = Timeframe.h1;
  open_price = number (100 + k);
  high = number (102 + k);
  low = number (99 + k);
  close = number (101 + k);
  volume = number 10;
  timestamp = k * 3600000;
}

-- n candles from the k-th on
abbrev candles_from : ℕ → ℕ → List (MarketCandle ℤ)
candles_from k zero = []
candles_from k (suc n) = backtest_candle k ∷ candles_from (suc k) n

abbrev trend : StoredStrategy ℤ
trend = record { id = 40; name = "EMA_TREND_STRATEGY"; is_active = true; versions = [] }

abbrev all_filters : Filters
all_filters = record { support_resistance = true; market_regime = true; multi_timeframe = true }

abbrev backtest : RunInput ℤ
backtest = record {
  backtest_run_id = 5;
  strategy = trend;
  initial_balance = number 10_000;
  risk_percent = none;
  filters = all_filters;
}

-- a market that rises by two and falls by one, in turn
abbrev swing_price : ℕ → ℕ
swing_price k = 1000 + k / 2 + k % 2 * 2

abbrev swings_from : ℕ → ℕ → List (MarketCandle ℤ)
swings_from k zero = []
swings_from k (suc n) =
    record (backtest_candle k) {
      open_price = number (swing_price k);
      high = number (swing_price k + 1);
      low = number (swing_price k - 1);
      close = number (swing_price k);
    }
    ∷ swings_from (suc k) n

abbrev swings : List (MarketCandle ℤ)
swings = swings_from 1 210

-- its BUYs are closed
swings-trades : length (run_engine config backtest swings).trades ≡ 9
unfolding run_engine
swings-trades = refl

abbrev open_buy : OpenTrade ℤ
open_buy = record {
  backtest_run_id = 5;
  direction = TradeDirection.buy;
  entry_price = number 101;
  stop_loss = number 99;
  take_profit = number 105;
  position_size = number 50;
  opened_at = 3600000;
}

-- the take profit is reached at the fourth candle, and not before the trade is open
closed-at-take_profit :
    (length (close_triggered_trades (number 10_000) (backtest_candle 1) (open_buy ∷ [])).0 ≡ 0)
    × (length (close_triggered_trades (number 10_000) (backtest_candle 2) (open_buy ∷ [])).0 ≡ 0)
    × (map
          (λ t. t.pnl)
          (close_triggered_trades (number 10_000) (backtest_candle 4) (open_buy ∷ [])).0
        ≡ number 200 ∷ [])
unfolding close_triggered_trades exit_of exit_for_candle calculate_pnl
closed-at-take_profit = (refl, refl, refl)

run_engine-ledger_example :
    let r = run_engine config backtest swings in
    let end = balance_after (number 10_000) r.trades in
    ((final_state config backtest swings).balance_history
      ≡ number 10_000 ∷ balances (number 10_000) r.trades)
    × All HasProfit r.trades
    × (r.metrics.total_trades ≡ length r.trades)
    × (r.metrics.final_balance ≡ round_money end)
    × (r.metrics.net_pnl ≡ round_money (fixed_number.sub end (number 10_000)))
run_engine-ledger_example = run_engine-ledger config backtest swings

swings_from-IsAscending : (k n : ℕ) → IsAscending (swings_from k n)
swings_from-IsAscending k zero = tt
swings_from-IsAscending k (suc zero) = tt
swings_from-IsAscending k (suc (suc n)) = (omega arith, swings_from-IsAscending (suc k) (suc n))

run_engine-IsTimed_example : All IsTimed (run_engine config backtest swings).trades
run_engine-IsTimed_example =
    run_engine-IsTimed config backtest swings (swings_from-IsAscending 1 210)

abbrev backtest_env : BacktestEnv ℤ
backtest_env = record {
  config = config;
  now = 9;
  create_trades = λ ts. ok tt;
  complete_run = ok tt;
  fail_run = ok tt;
}

abbrev backtest_request : RunBacktest ℤ
backtest_request = record {
  instrument_id = 20;
  timeframe = Timeframe.h1;
  start_date = 0;
  end_date = 4000000000;
  initial_balance = number 10_000;
  strategy_name = none;
  risk_percent = none;
  filters = all_filters;
}

abbrev backtest_store : BacktestStore ℤ
backtest_store = record {
  next_id = 5;
  instruments = record { id = 20; symbol = "XAUUSD"; broker_symbol = none; is_active = true } ∷ [];
  strategies = trend ∷ [];
  candles = candles_from 1 600;
  runs = [];
  trades = [];
}
