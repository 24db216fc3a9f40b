-- ===== src/Backtest/Settled.antt =====
-- A backtest that has a row ends it.
use trading_backend.Base.{ℕ, ◌≡◌, ◌⊎◌, none, some, ◌∷◌}
use trading_backend.Backtest.Engine.{RunResult, run_engine}
use trading_backend.Backtest.UseCase.{
  BacktestStatus, BacktestRun, BacktestStore, BacktestEnv, RunBacktest, CheckedBacktest,
  running_row, run_input, completed_row, failed_run_row,
}
use trading_backend.Number.Interface.{Number}
use trading_backend.Store.Text.{Text, Exception, message}
use trading_backend.Store.World.{Result, ok, err}

module _ {W : Type 0} ⦃n : Number W⦄ where
  -- The run has ended with its result, which the caller gets, or with the error that the caller gets.
  abbrev pub IsEnded :
      BacktestEnv W
      → RunBacktest W
      → CheckedBacktest W
      → BacktestStore W
      → Result W (RunResult W) × BacktestStore W
      → Type 0
  IsEnded env input checked s out =
      let started = running_row input checked.strategy s.next_id in
      let result = run_engine env.config (run_input input s.next_id checked) checked.candles in
      ((out.0 ≡ ok result) × (out.1.runs ≡ completed_row env.now result started ∷ s.runs))
      ⊎ ((e : Exception W) × (out.0 ≡ err e)
          × (out.1.runs ≡ failed_run_row env.now (message e) started ∷ s.runs))

  -- the columns that the row of a run has from its start
  pub record IsRunOf (input : RunBacktest W) (checked : CheckedBacktest W) (id : ℕ)
      (run : BacktestRun W) : Type 0 where
    pub new_run : run.id ≡ id
    pub of_strategy : run.strategy_id ≡ checked.strategy.id
    pub of_market : run.instrument_id ≡ input.instrument_id
    pub of_timeframe : run.timeframe ≡ input.timeframe
    pub from_date : run.start_date ≡ input.start_date
    pub until_date : run.end_date ≡ input.end_date
    pub with_balance_of : run.initial_balance ≡ n.column 8 input.initial_balance

  -- The one new run is COMPLETED with its result, which the caller gets, or FAILED with the message of
  -- the error that the caller gets.
  abbrev pub IsFinished :
      BacktestEnv W
      → RunBacktest W
      → CheckedBacktest W
      → BacktestStore W
      → Result W (RunResult W) × BacktestStore W
      → Type 0
  IsFinished env input checked s out =
      let result = run_engine env.config (run_input input s.next_id checked) checked.candles in
      (run : BacktestRun W) × (out.1.runs ≡ run ∷ s.runs)
      × IsRunOf input checked s.next_id run
      × (run.finished_at ≡ some env.now)
      × (((out.0 ≡ ok result)
            × (run.status ≡ BacktestStatus.completed)
            × (run.result ≡ some result)
            × (run.error_message ≡ none))
          ⊎ ((e : Exception W) × (out.0 ≡ err e)
              × (run.status ≡ BacktestStatus.failed)
              × (run.result ≡ none)
              × (run.error_message ≡ some (message e))))
