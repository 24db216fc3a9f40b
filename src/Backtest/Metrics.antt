-- ===== src/Backtest/Metrics.antt =====
-- backtesting/application/backtesting-metrics.service.ts: the figures of a run.
use trading_backend.Base.{
  ◌==◌, if◌then◌else◌, or_default, length, head_of, find_many, count_where, ℕ, Bool, true, false,
  Option, none, some, List, [], ◌∷◌, map,
}
use trading_backend.Backtest.Indicators.{sum_from}
use trading_backend.Number.Interface.{Number, number}
use trading_backend.Store.Enums.{TradeDirection}

pub data TradeResult : Type 0 where
  win loss breakeven : TradeResult

abbrev pub is_win : TradeResult → Bool
is_win TradeResult.win = true
is_win _ = false

abbrev pub is_loss : TradeResult → Bool
is_loss TradeResult.loss = true
is_loss _ = false

-- a trade as the engine opens it
pub record OpenTrade (W : Type 0) : Type 0 where
  pub backtest_run_id : ℕ
  pub direction : TradeDirection
  pub entry_price : W
  pub stop_loss : W
  pub take_profit : W
  pub position_size : W
  pub opened_at : ℕ

-- the same with the fields that its close sets
pub record ClosedTrade (W : Type 0) : Type 0 where
  pub opening : OpenTrade W
  pub closed_at : ℕ
  pub exit_price : W
  pub pnl : W
  pub pnl_percent : W
  pub result : TradeResult

pub record Metrics (W : Type 0) : Type 0 where
  pub final_balance : W
  pub total_trades : ℕ
  pub winning_trades : ℕ
  pub losing_trades : ℕ
  pub win_rate : W
  pub gross_profit : W
  pub gross_loss : W
  pub profit_factor : Option W
  pub max_drawdown : W
  pub net_pnl : W
  pub average_win : Option W
  pub average_loss : Option W

module _ {W : Type 0} ⦃n : Number W⦄ where
  open n use {add, sub, div, abs, lt, le, eq, max, to_fixed}

  -- `roundMoney` and `roundRatio`
  abbrev pub round_money : W → W
  round_money = to_fixed 8

  -- the last of a list, or a default
  unfoldable pub last_or : W → List W → W
  last_or x [] = x
  last_or x (y ∷ ys) = last_or y ys

  -- the loop of `maxDrawdown`
  unfoldable pub drawdown_from : W → W → List W → W
  drawdown_from peak worst [] = worst
  drawdown_from peak worst (b ∷ bs) =
      let peak' = max peak b in
      drawdown_from peak'
        (if le peak' (number 0) then worst else max worst (div (sub peak' b) peak')) bs

  -- `maxDrawdown`
  unfoldable pub max_drawdown : List W → W
  unfolding drawdown_from
  max_drawdown history = drawdown_from (or_default (head_of history) (number 0)) (number 0) history

  unfoldable pub sum_pnl_of : (TradeResult → Bool) → List (ClosedTrade W) → W
  unfolding sum_from find_many
  sum_pnl_of p ts = sum_from (number 0) (map (λ t. t.pnl) (find_many (λ t. p t.result) ts))

  abbrev average : W → ℕ → Option W
  average x k = if k == 0 then none else some (round_money (div x (number k)))

  -- `calculate`, of trades that are all closed
  unfoldable pub calculate : W → List W → List (ClosedTrade W) → Metrics W
  unfolding sum_pnl_of count_where last_or max_drawdown
  calculate initial_balance history trades =
      let total = length trades in
      let winning = count_where (λ t. is_win t.result) trades in
      let losing = count_where (λ t. is_loss t.result) trades in
      let gross_profit = sum_pnl_of is_win trades in
      let gross_loss = abs (sum_pnl_of is_loss trades) in
      let final_balance = last_or initial_balance history in
      record {
        final_balance = round_money final_balance;
        total_trades = total;
        winning_trades = winning;
        losing_trades = losing;
        win_rate =
            if total == 0 then number 0 else round_money (div (number winning) (number total));
        gross_profit = round_money gross_profit;
        gross_loss = round_money gross_loss;
        profit_factor =
            if eq gross_loss (number 0)
            then (if lt (number 0) gross_profit then none else some (number 0))
            else some (round_money (div gross_profit gross_loss));
        max_drawdown = round_money (max_drawdown history);
        net_pnl = round_money (sub final_balance initial_balance);
        average_win = average gross_profit winning;
        average_loss = average gross_loss losing;
      }
