-- ===== src/Backtest/Exits.antt =====
-- backtesting/application/backtesting-engine.service.ts: the trades that a candle closes.
use trading_backend.Base.{leb, if◌then◌else◌, ℕ, Option, none, some, List, [], ◌∷◌}
use trading_backend.Backtest.Metrics.{TradeResult, OpenTrade, ClosedTrade, round_money}
use trading_backend.Number.Interface.{Number, number}
use trading_backend.Store.Entities.{MarketCandle}
use trading_backend.Store.Enums.{TradeDirection}

pub record Exit (W : Type 0) : Type 0 where
  pub price : W
  pub result : TradeResult

module _ {W : Type 0} ⦃n : Number W⦄ where
  open n use {decimal, add, sub, mul, div, abs, lt, le, eq, to_fixed}

  -- `exitForCandle`
  unfoldable pub exit_for_candle : OpenTrade W → MarketCandle W → Option (Exit W)
  exit_for_candle t c = elim t.direction [
    | TradeDirection.buy ↦
        if le c.low t.stop_loss
        then some (record { price = t.stop_loss; result = TradeResult.loss })
        else if le t.take_profit c.high
        then some (record { price = t.take_profit; result = TradeResult.win })
        else none
    | TradeDirection.sell ↦
        if le t.stop_loss c.high
        then some (record { price = t.stop_loss; result = TradeResult.loss })
        else if le c.low t.take_profit
        then some (record { price = t.take_profit; result = TradeResult.win })
        else none
  ]

  -- `calculatePnl`
  unfoldable pub calculate_pnl : OpenTrade W → W → W
  calculate_pnl t exit_price = round_money (
      mul
        (elim t.direction [
          | TradeDirection.buy ↦ sub exit_price t.entry_price
          | TradeDirection.sell ↦ sub t.entry_price exit_price
        ])
        t.position_size)

  abbrev pub closed_at_price : W → ℕ → W → TradeResult → OpenTrade W → ClosedTrade W
  closed_at_price balance timestamp price result t =
      let pnl = calculate_pnl t price in
      record {
        opening = t;
        closed_at = timestamp;
        exit_price = price;
        pnl = pnl;
        pnl_percent = if eq balance (number 0) then number 0 else to_fixed 8 (div pnl balance);
        result = result;
      }

  -- the exit of a trade that was opened before the candle
  unfoldable pub exit_of : OpenTrade W → MarketCandle W → Option (Exit W)
  unfolding exit_for_candle
  exit_of t c = if leb c.timestamp t.opened_at then none else exit_for_candle t c

  -- `closeTriggeredTrades`: those that are closed, and those that stay open
  unfoldable pub close_triggered_trades :
      W → MarketCandle W → List (OpenTrade W) → List (ClosedTrade W) × List (OpenTrade W)
  unfolding exit_of calculate_pnl
  close_triggered_trades balance c [] = ([], [])
  close_triggered_trades balance c (t ∷ ts) =
      let rest = close_triggered_trades balance c ts in
      elim (exit_of t c) [
        | none ↦ (rest.0, t ∷ rest.1)
        | some x ↦ (closed_at_price balance c.timestamp x.price x.result t ∷ rest.0, rest.1)
      ]
