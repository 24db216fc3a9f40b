-- ===== src/Backtest/Engine.antt =====
-- backtesting/application/backtesting-engine.service.ts: the walk over the candles. A window grows by
-- its newest candle; open trades are kept with the newest first, the order in which the code looks at
-- them; closed trades and balances are in the order of their booking.
use trading_backend.Base.{
  if◌then◌else◌, or_default, find_last, ℕ, suc, ◌-◌, String, Bool, true, false, ◌&&◌, ◌||◌, Option,
  none, some, List, [], ◌∷◌, ◌++◌, starts_with,
}
use trading_backend.Backtest.Analysis.{Filters, synthetic_technical_analysis}
use trading_backend.Backtest.Exits.{calculate_pnl, closed_at_price, close_triggered_trades}
use trading_backend.Backtest.Metrics.{
  TradeResult, OpenTrade, ClosedTrade, Metrics, round_money, calculate,
}
use trading_backend.Broker.{to_direction}
use trading_backend.Number.Interface.{Number, number}
use trading_backend.Store.Entities.{MarketCandle}
use trading_backend.Store.Enums.{TradeDirection}
use trading_backend.Store.Text.{Text, includes_word, text}
use trading_backend.Store.World.{Config}
use trading_backend.Strategy.{StrategyResult}
use trading_backend.Strategy.Engine.{StoredStrategy, evaluate_strategy}

pub record RunInput (W : Type 0) : Type 0 where
  pub backtest_run_id : ℕ
  pub strategy : StoredStrategy W
  pub initial_balance : W
  pub risk_percent : Option W
  pub filters : Filters

pub record EngineState (W : Type 0) : Type 0 where
  pub open_trades : List (OpenTrade W)
  pub trades : List (ClosedTrade W)
  pub balance_history : List W
  pub balance : W
  pub signals_before_filters : ℕ
  pub signals_after_filters : ℕ
  -- the reasons that `filterReasons` counts, the newest first
  pub filter_reasons : List (Text W)

pub record RunResult (W : Type 0) : Type 0 where
  pub trades : List (ClosedTrade W)
  pub metrics : Metrics W
  pub signals_before_filters : ℕ
  pub signals_after_filters : ℕ
  pub filtered_signals : ℕ
  pub filter_reasons : List (Text W)

-- `reason.startsWith('NO_SIGNAL:')`, of a reason's pieces of text
abbrev pub begins_with : {W : Type 0} → String → Text W → Bool
begins_with prefix (text s ∷ t) = starts_with s prefix
begins_with prefix _ = false

-- a reason that a filter gives
unfoldable pub is_filtered : {W : Type 0} → Text W → Bool
is_filtered reason =
    begins_with "NO_SIGNAL:" reason
    && (includes_word "ranging" reason
        || includes_word "multi-timeframe" reason
        || includes_word "nearest resistance" reason
        || includes_word "nearest support" reason)

-- the next candle, if there is one after it
abbrev pub upcoming : {W : Type 0} → List (MarketCandle W) → Option (MarketCandle W)
upcoming (c ∷ d ∷ rest) = some c
upcoming _ = none

module _ {W : Type 0} ⦃n : Number W⦄ where
  open n use {decimal, add, sub, mul, div, abs, lt, le, eq, to_fixed}

  -- the loop that books closed trades
  unfoldable pub book : List (ClosedTrade W) → EngineState W → EngineState W
  book [] s = s
  book (t ∷ ts) s =
      let balance = round_money (add s.balance t.pnl) in
      book ts (record s {
        balance = balance;
        balance_history = s.balance_history ++ (balance ∷ []);
        trades = s.trades ++ (t ∷ []);
      })

  -- the counters of signals
  unfoldable pub count_signal : Option (StrategyResult W) → EngineState W → EngineState W
  unfolding is_filtered
  count_signal none s = s
  count_signal (some r) s =
      if r.should_create_signal
      then record s {
        signals_before_filters = suc s.signals_before_filters;
        signals_after_filters = suc s.signals_after_filters;
      }
      else if is_filtered r.reason
      then record s {
        signals_before_filters = suc s.signals_before_filters;
        filter_reasons = r.reason ∷ s.filter_reasons;
      }
      else s

  -- the direction and the two levels of a result that can be traded
  abbrev pub tradable : Option (StrategyResult W) → Option (TradeDirection × W × W)
  tradable none = none
  tradable (some r) =
      if r.should_create_signal
      then (elim (to_direction r.direction) [
        | none ↦ none
        | some d ↦ elim r.stop_loss [
          | none ↦ none
          | some sl ↦ elim r.take_profit [ none ↦ none | some tp ↦ some (d, sl, tp) ]
        ]
      ])
      else none

  -- the trade at the close of the next candle; its size risks a part of the balance
  abbrev pub trade_at : RunInput W → W → MarketCandle W → TradeDirection × W × W → OpenTrade W
  trade_at input balance next (direction, stop_loss, take_profit) = record {
    backtest_run_id = input.backtest_run_id;
    direction = direction;
    entry_price = next.close;
    stop_loss = stop_loss;
    take_profit = take_profit;
    position_size = round_money (
        div (mul balance (or_default input.risk_percent (decimal 1 2)))
          (abs (sub next.close stop_loss)));
    opened_at = next.timestamp;
  }

  -- the rest of the loop's body: a trade is opened, or the loop continues
  unfoldable pub open_next :
      RunInput W → List (MarketCandle W) → Option (StrategyResult W) → EngineState W → EngineState W
  open_next input rest result s = elim (upcoming rest) [
    | none ↦ s
    | some next ↦ elim (tradable result) [
      | none ↦ s
      | some p ↦
          if le (abs (sub next.close p.1)) (number 0)
          then s
          else record s { open_trades = trade_at input s.balance next p ∷ s.open_trades }
    ]
  ]

  abbrev pub evaluate_at :
      Config W → RunInput W → List (MarketCandle W) → MarketCandle W → Option (StrategyResult W)
  evaluate_at config input window c = evaluate_strategy config input.strategy (record {
    technical_analysis = synthetic_technical_analysis input.filters c window;
    latest_candle = c;
    candles = window;
  })

  -- the loop's body, of the window, its last candle and the candles to come
  unfoldable pub advance :
      Config W
      → RunInput W
      → List (MarketCandle W)
      → MarketCandle W
      → List (MarketCandle W)
      → EngineState W
      → EngineState W
  unfolding close_triggered_trades book count_signal open_next evaluate_strategy
      synthetic_technical_analysis
  advance config input window c rest s =
      let closed = close_triggered_trades s.balance c s.open_trades in
      let result = evaluate_at config input window c in
      open_next input rest result
        (count_signal result (book closed.0 (record s { open_trades = closed.1 })))

  -- the loop, from the candles already seen
  unfoldable pub walk :
      Config W
      → RunInput W
      → List (MarketCandle W)
      → List (MarketCandle W)
      → EngineState W
      → EngineState W
  unfolding advance
  walk config input seen [] s = s
  walk config input seen (c ∷ rest) s =
      let window = seen ++ (c ∷ []) in
      walk config input window rest (advance config input window c rest s)

  abbrev sign_of : W → TradeResult
  sign_of pnl =
      if lt (number 0) pnl
      then TradeResult.win
      else if lt pnl (number 0)
      then TradeResult.loss
      else TradeResult.breakeven

  -- `closeRemainingTrades`
  unfoldable pub close_remaining_trades :
      W → MarketCandle W → List (OpenTrade W) → List (ClosedTrade W)
  unfolding calculate_pnl
  close_remaining_trades balance last [] = []
  close_remaining_trades balance last (t ∷ ts) =
      close_remaining_trades balance last ts
      ++ (closed_at_price balance last.timestamp last.close (sign_of (calculate_pnl t last.close)) t
          ∷ [])

  abbrev pub initial_state : RunInput W → EngineState W
  initial_state input = record {
    open_trades = [];
    trades = [];
    balance_history = input.initial_balance ∷ [];
    balance = input.initial_balance;
    signals_before_filters = 0;
    signals_after_filters = 0;
    filter_reasons = [];
  }

  -- the end of the walk: what is still open is closed at the last candle
  unfoldable pub settle_at_end : List (MarketCandle W) → EngineState W → EngineState W
  unfolding close_remaining_trades book find_last
  settle_at_end candles s = elim (find_last (λ c. true) candles) [
    | none ↦ s
    | some last ↦
        book (close_remaining_trades s.balance last s.open_trades) (record s { open_trades = [] })
  ]

  -- the state after the whole run
  unfoldable pub final_state : Config W → RunInput W → List (MarketCandle W) → EngineState W
  unfolding walk settle_at_end
  final_state config input candles =
      settle_at_end candles (walk config input [] candles (initial_state input))

  -- `run`
  unfoldable pub run_engine : Config W → RunInput W → List (MarketCandle W) → RunResult W
  unfolding final_state calculate
  run_engine config input candles =
      let s = final_state config input candles in
      record {
        trades = s.trades;
        metrics = calculate input.initial_balance s.balance_history s.trades;
        signals_before_filters = s.signals_before_filters;
        signals_after_filters = s.signals_after_filters;
        filtered_signals = s.signals_before_filters - s.signals_after_filters;
        filter_reasons = s.filter_reasons;
      }
