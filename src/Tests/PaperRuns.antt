-- ===== src/Tests/PaperRuns.antt =====
-- Paper trades and the fundamental agent on the sample state.
use trading_backend.Base.{
  ◌==◌, map_some, length, All, find_first, find_many, count_where, ℕ, ◌≤◌, ◌≡◌, refl, ◌⊎◌, true,
  false, ◌&&◌, none, some, [], ◌∷◌, map, arith,
}
use trading_backend.Fundamental.{FundamentalResult, evaluate}
use trading_backend.Fundamental.Currency.{codes}
use trading_backend.Fundamental.Window.{IsAllowed, IsBlocked, evaluate_blocks}
use trading_backend.Number.Fixed.{ℤ, fixed_number}
use trading_backend.Number.Gain.{gain}
use trading_backend.Number.Interface.{number}
use trading_backend.Paper.{
  opened_row, open_trade_from_signal, close_trade, evaluate_open_trades_on_candle,
}
use trading_backend.Paper.Candle.{close_input_for_candle}
use trading_backend.Paper.Closed.{closing_row, IsClosedRow}
use trading_backend.Paper.Closing.{IsClosable, close_trade_settles, close_trade_once}
use trading_backend.Paper.Invariant.{PaperStep, PaperRun, IsTidy, run-IsTidy}
use trading_backend.Paper.Opening.{open_trade_from_signal_atomic}
use trading_backend.Paper.Sweep.{IsUnreached, evaluate_open_trades_on_candle_sweeps}
use trading_backend.Store.Entities.{PaperTradingAccount, PaperTrade, MarketCandle, EconomicEvent}
use trading_backend.Store.Enums.{
  Timeframe, SignalStatus, TradeDirection, PaperTradeResult, PaperTradeCloseReason, is_opened,
}
use trading_backend.Store.Events.{paper_trade_closed}
use trading_backend.Store.Text.{say, bad_request}
use trading_backend.Store.World.{World, Result, IsBadRequest, ok}
use trading_backend.Tests.Sample.{env, gold, account, trade, pending, paper_ready, paper_open}

abbrev opening_run : Result ℤ (PaperTrade ℤ) × World ℤ
opening_run = open_trade_from_signal env 7 none paper_ready

abbrev prices : TradeDirection × ℤ × ℤ
prices = (TradeDirection.buy, number 98, number 106)

abbrev first_trade : PaperTrade ℤ
first_trade = opened_row env 20 (record gold { status = SignalStatus.approved }) 2 prices (number 2)

open_trade_from_signal_atomic_example :
    (open_trade_from_signal env 7 none paper_open).1 ≡ paper_open
unfolding open_trade_from_signal
open_trade_from_signal_atomic_example =
    open_trade_from_signal_atomic env 7 none paper_open
      {e = bad_request (say "Paper trade already exists for this signal")} refl

-- Closing at 110 wins 20 of 1000.
abbrev closing_run : Result ℤ (PaperTrade ℤ) × World ℤ
closing_run = close_trade env 6 (number 110) PaperTradeCloseReason.manual paper_open

abbrev won : PaperTrade ℤ
won = closing_row env (number 110) PaperTradeCloseReason.manual account trade

close_trade_settles_example :
    (t : PaperTrade ℤ) × (a : PaperTradingAccount ℤ) × IsClosable paper_open 6 (number 110) t a
    × (let pnl = gain t.direction t.entry_price (number 110) t.position_size in
        IsClosedRow env (number 110) pnl PaperTradeCloseReason.manual a t won
        × (find_first (λ t. t.id == 6) closing_run.1.paper_trades ≡ some won)
        × ((j : ℕ)
            → (j == 6) ≡ false
            → find_first (λ t. t.id == j) closing_run.1.paper_trades
              ≡ find_first (λ t. t.id == j) paper_open.paper_trades)
        × (map_some (λ a. a.balance) (find_first (λ b. b.id == a.id) closing_run.1.accounts)
            ≡ some (fixed_number.column 8 (fixed_number.column 8 (fixed_number.add a.balance pnl))))
        × (closing_run.1.events ≡ paper_trade_closed 6 won.result pnl ∷ []))
unfolding close_trade
close_trade_settles_example =
    close_trade_settles env 6 (number 110) PaperTradeCloseReason.manual paper_open {r = won} refl

won-result :
    (won.result ≡ PaperTradeResult.win)
    × (map (λ a. a.balance) closing_run.1.accounts ≡ number 1020 ∷ [])
unfolding close_trade
won-result = (refl, refl)

close_trade_once_example :
    IsBadRequest (close_trade env 6 (number 98) PaperTradeCloseReason.stop_loss closing_run.1).0
unfolding close_trade
close_trade_once_example =
    close_trade_once env env 6 (number 110) (number 98) PaperTradeCloseReason.manual
      PaperTradeCloseReason.stop_loss paper_open {r = won} refl

no_paper_trade-IsTidy : IsTidy {W = ℤ} []
unfolding count_where
no_paper_trade-IsTidy = record { one_open = λ i. omega arith; one_trade = λ i. omega arith }

-- an opening, and then a candle that reaches the stop loss
abbrev fall : MarketCandle ℤ
fall = record {
  id = 11;
  instrument_id = 1;
  timeframe = Timeframe.m15;
  open_price = number 100;
  high = number 101;
  low = number 97;
  close = number 97;
  volume = number 10;
  timestamp = 1000;
}

abbrev fallen : World ℤ
fallen = (evaluate_open_trades_on_candle env fall opening_run.1).1

fallen-result :
    map (λ t. t.close_reason) fallen.paper_trades ≡ some PaperTradeCloseReason.stop_loss ∷ []
unfolding open_trade_from_signal evaluate_open_trades_on_candle close_input_for_candle
fallen-result = refl

run-IsTidy_example : IsTidy fallen.paper_trades
run-IsTidy_example =
    run-IsTidy
      (PaperRun.next (PaperStep.opening env 7 none paper_ready)
        (PaperRun.next (PaperStep.candle env fall opening_run.1) (PaperRun.rest fallen)))
      no_paper_trade-IsTidy

evaluate_blocks_example :
    ((evaluate (codes " usd ") 1_000_000 true pending).1
      ≡ record pending { events = (evaluate (codes " usd ") 1_000_000 true pending).1.events })
    × ((r : FundamentalResult) × ((evaluate (codes " usd ") 1_000_000 true pending).0 ≡ ok r)
        × (IsAllowed (codes " usd ") 1_000_000 pending r
            ⊎ ((e : EconomicEvent) × IsBlocked (codes " usd ") 1_000_000 pending r e)))
evaluate_blocks_example = evaluate_blocks (codes " usd ") 1_000_000 true pending

few_open :
    length (find_many (λ t. t.instrument_id == 1 && is_opened t.status) paper_open.paper_trades)
    ≤ 200
unfolding find_many
few_open = omega arith

abbrev stopped_out : PaperTrade ℤ
stopped_out = closing_row env (number 98) PaperTradeCloseReason.stop_loss account trade

evaluate_open_trades_on_candle_sweeps_example :
    All (IsUnreached fall) (evaluate_open_trades_on_candle env fall paper_open).1.paper_trades
unfolding evaluate_open_trades_on_candle close_input_for_candle
evaluate_open_trades_on_candle_sweeps_example =
    evaluate_open_trades_on_candle_sweeps env fall paper_open {closed = stopped_out ∷ []} few_open
      refl
