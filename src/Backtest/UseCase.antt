-- ===== src/Backtest/UseCase.antt =====
-- backtesting/application/run-backtest.use-case.ts over its Prisma repository: the checks before a
-- run, and the row of the run from RUNNING to COMPLETED or FAILED.
use trading_backend.Base.{
  ltb, leb, ◌==◌, or_default, length, find_first, find_many, update_where, take, ℕ, suc, String,
  ◌&&◌, Option, none, some, List, [], ◌∷◌, ◌++◌, str_eq,
}
use trading_backend.Backtest.Analysis.{Filters}
use trading_backend.Backtest.Engine.{RunInput, RunResult, run_engine}
use trading_backend.Backtest.Metrics.{ClosedTrade}
use trading_backend.Number.Interface.{Number}
use trading_backend.Store.Entities.{Instrument, MarketCandle}
use trading_backend.Store.Enums.{Timeframe, is_same_timeframe}
use trading_backend.Store.Text.{Text, say, Exception, message, text, count, bad_request, not_found}
use trading_backend.Store.World.{
  Result, Config, StateAction, ◌>>=◌, ◌>>◌, pure, throw, throw_if, throw_unless, gets, modify,
  or_throw, lift, catch, ok, err,
}
use trading_backend.Strategy.Engine.{StoredStrategy, ema_trend_name}
use trading_backend.Strategy.Trend.{sort_candles}

pub data BacktestStatus : Type 0 where
  running completed failed : BacktestStatus

pub record BacktestRun (W : Type 0) : Type 0 where
  pub id : ℕ
  pub strategy_id : ℕ
  pub instrument_id : ℕ
  pub timeframe : Timeframe
  pub start_date : ℕ
  pub end_date : ℕ
  pub initial_balance : W
  pub status : BacktestStatus
  -- the metrics and the counters that `completeRun` writes
  pub result : Option (RunResult W)
  pub error_message : Option (Text W)
  pub finished_at : Option ℕ

pub record BacktestStore (W : Type 0) : Type 0 where
  pub next_id : ℕ
  pub instruments : List Instrument
  pub strategies : List (StoredStrategy W)
  pub candles : List (MarketCandle W)
  pub runs : List (BacktestRun W)
  pub trades : List (ClosedTrade W)

-- How the database answers the three writes after the run's row, and the time.
pub record BacktestEnv (W : Type 0) : Type 0 where
  pub config : Config W
  pub now : ℕ
  pub create_trades : List (ClosedTrade W) → Result W (Unit {0})
  pub complete_run : Result W (Unit {0})
  pub fail_run : Result W (Unit {0})

pub record RunBacktest (W : Type 0) : Type 0 where
  pub instrument_id : ℕ
  pub timeframe : Timeframe
  pub start_date : ℕ
  pub end_date : ℕ
  pub initial_balance : W
  pub strategy_name : Option String
  pub risk_percent : Option W
  pub filters : Filters

abbrev pub BacktestAction : Type 0 → Type 0 → Type 0
BacktestAction W A = StateAction (BacktestStore W) W A

abbrev pub min_backtest_candles : ℕ
min_backtest_candles = 500

-- what the checks have found
pub record CheckedBacktest (W : Type 0) : Type 0 where
  pub strategy : StoredStrategy W
  pub candles : List (MarketCandle W)

module _ {W : Type 0} ⦃n : Number W⦄ where
  -- `createRun`
  abbrev pub running_row : RunBacktest W → StoredStrategy W → ℕ → BacktestRun W
  running_row input strategy id = record {
    id = id;
    strategy_id = strategy.id;
    instrument_id = input.instrument_id;
    timeframe = input.timeframe;
    start_date = input.start_date;
    end_date = input.end_date;
    initial_balance = n.column 8 input.initial_balance;
    status = BacktestStatus.running;
    result = none;
    error_message = none;
    finished_at = none;
  }

  -- `findMany` without a limit: the first 1000 candles of the period
  unfoldable pub candles_between : ℕ → Timeframe → ℕ → ℕ → BacktestStore W → List (MarketCandle W)
  unfolding find_many sort_candles take
  candles_between instrument_id timeframe from until s = take 1000 (
      sort_candles (
        find_many
          (λ c.
            c.instrument_id == instrument_id
            && is_same_timeframe timeframe c.timeframe
            && leb from c.timestamp
            && leb c.timestamp until)
          s.candles))

  -- `execute` up to its call of `createRun`
  unfoldable pub check_backtest : RunBacktest W → BacktestAction W (CheckedBacktest W)
  unfolding find_first candles_between
  check_backtest input = do
    throw_unless (ltb input.start_date input.end_date)
        (bad_request (say "startDate must be before endDate"))
    place ← gets λ s. find_first (λ i. i.id == input.instrument_id) s.instruments
    instrument ← or_throw place (not_found (say "Instrument not found"))
    row ← gets λ s.
        find_first
          (λ t. str_eq t.name (or_default input.strategy_name ema_trend_name) && t.is_active)
          s.strategies
    strategy ← or_throw row (not_found (say "Active strategy not found"))
    candles ←
        gets (candles_between input.instrument_id input.timeframe input.start_date input.end_date)
    throw_if (ltb (length candles) min_backtest_candles) (
        bad_request
          (text "Backtest requires at least " ∷ count min_backtest_candles ∷ text " candles" ∷ []))
    pure (record { strategy = strategy; candles = candles })

  abbrev pub run_input : RunBacktest W → ℕ → CheckedBacktest W → RunInput W
  run_input input id checked = record {
    backtest_run_id = id;
    strategy = checked.strategy;
    initial_balance = input.initial_balance;
    risk_percent = input.risk_percent;
    filters = input.filters;
  }

  -- `createTrades`; without trades it asks nothing of the database
  unfoldable pub save_trades : BacktestEnv W → List (ClosedTrade W) → BacktestAction W (Unit {0})
  save_trades env [] s = (ok tt, s)
  save_trades env (t ∷ ts) s = elim (env.create_trades (t ∷ ts)) [
    | ok _ ↦ (ok tt, record s { trades = (t ∷ ts) ++ s.trades })
    | err e ↦ (err e, s)
  ]

  abbrev pub completed_row : ℕ → RunResult W → BacktestRun W → BacktestRun W
  completed_row now r run = record run {
    status = BacktestStatus.completed;
    result = some r;
    finished_at = some now;
  }

  abbrev pub failed_run_row : ℕ → Text W → BacktestRun W → BacktestRun W
  failed_run_row now why run = record run {
    status = BacktestStatus.failed;
    error_message = some why;
    finished_at = some now;
  }

  -- `update({ where: { id } })`
  abbrev pub update_run : ℕ → (BacktestRun W → BacktestRun W) → BacktestStore W → BacktestStore W
  update_run id f s = record s { runs = update_where (λ r. r.id == id) f s.runs }

  -- the body of the `try`
  unfoldable pub simulate :
      BacktestEnv W → RunBacktest W → CheckedBacktest W → ℕ → BacktestAction W (RunResult W)
  simulate env input checked id = do
    let result = run_engine env.config (run_input input id checked) checked.candles
    save_trades env result.trades
    lift env.complete_run
    modify (update_run id (completed_row env.now result))
    pure result

  -- the `catch`: the run is marked as failed, and the error goes on
  unfoldable pub fail_and_throw : BacktestEnv W → ℕ → Exception W → BacktestAction W (RunResult W)
  fail_and_throw env id e = do
    lift env.fail_run
    modify (update_run id (failed_run_row env.now (message e)))
    throw e

  -- `execute` from its call of `createRun`
  unfoldable pub record_run :
      BacktestEnv W → RunBacktest W → CheckedBacktest W → BacktestAction W (RunResult W)
  record_run env input checked s =
      let id = s.next_id in
      catch (simulate env input checked id) (fail_and_throw env id)
        (record s { next_id = suc id; runs = running_row input checked.strategy id ∷ s.runs })

  -- `execute`
  unfoldable pub execute_backtest : BacktestEnv W → RunBacktest W → BacktestAction W (RunResult W)
  execute_backtest env input = check_backtest input >>= λ checked. record_run env input checked
