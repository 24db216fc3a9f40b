-- ===== src/Paper/Candle.antt =====
-- `getCloseInputForCandle`: does a candle reach a trade's stop loss or take profit?
use trading_backend.Base.{if◌then◌else◌, Option, none, some}
use trading_backend.Number.Interface.{Number}
use trading_backend.Store.Entities.{PaperTrade, MarketCandle}
use trading_backend.Store.Enums.{TradeDirection, PaperTradeCloseReason}

pub record CloseInput (W : Type 0) : Type 0 where
  pub close_price : W
  pub close_reason : PaperTradeCloseReason

module _ {W : Type 0} ⦃n : Number W⦄ where
  open n use {le}

  abbrev stopped : W → CloseInput W
  stopped stop = record { close_price = stop; close_reason = PaperTradeCloseReason.stop_loss }

  abbrev taken : W → CloseInput W
  taken target = record { close_price = target; close_reason = PaperTradeCloseReason.take_profit }

  -- with both levels set
  unfoldable pub exit_at : TradeDirection → W → W → MarketCandle W → Option (CloseInput W)
  exit_at TradeDirection.buy stop target candle =
      if le candle.low stop
      then some (stopped stop)
      else if le target candle.high
      then some (taken target)
      else none
  exit_at TradeDirection.sell stop target candle =
      if le stop candle.high
      then some (stopped stop)
      else if le candle.low target
      then some (taken target)
      else none

  unfoldable pub close_input_for_candle : PaperTrade W → MarketCandle W → Option (CloseInput W)
  unfolding exit_at
  close_input_for_candle trade candle = elim trade.stop_loss [
    | none ↦ none
    | some stop ↦ elim trade.take_profit [
      | none ↦ none
      | some target ↦ exit_at trade.direction stop target candle
    ]
  ]
