-- ===== src/Paper/Closed.antt =====
-- The row of a paper trade that is closed, column by column.
use trading_backend.Base.{if◌then◌else◌, ◌≡◌, refl, true, false, some, arith}
use trading_backend.Number.Gain.{gain}
use trading_backend.Number.Interface.{Number, number}
use trading_backend.Paper.{profit, result_of, closed_row}
use trading_backend.Store.Entities.{PaperTradingAccount, PaperTrade}
use trading_backend.Store.Enums.{PaperTradeStatus, PaperTradeResult, PaperTradeCloseReason}
use trading_backend.Store.World.{Env}

module _ {W : Type 0} ⦃n : Number W⦄ where
  open n use {div, lt, eq, column}

  abbrev pub percent_of : PaperTradingAccount W → W → W
  percent_of a pnl = if eq a.balance (number 0) then number 0 else div pnl a.balance

  -- the row that a closing leaves
  abbrev pub closing_row :
      Env W → W → PaperTradeCloseReason → PaperTradingAccount W → PaperTrade W → PaperTrade W
  closing_row env price reason a t =
      closed_row env price (profit t price) (percent_of a (profit t price)) reason t

  -- the result by the sign of a profit
  pub record IsOutcome (pnl : W) (r : PaperTradeResult) : Type 0 where
    pub wins : lt (number 0) pnl ≡ true → r ≡ PaperTradeResult.win
    pub loses : lt (number 0) pnl ≡ false → lt pnl (number 0) ≡ true → r ≡ PaperTradeResult.loss
    pub breaks_even :
        lt (number 0) pnl ≡ false → lt pnl (number 0) ≡ false → r ≡ PaperTradeResult.breakeven

  -- The row of a closing, by the row before it and the profit.
  pub record IsClosedRow (env : Env W) (price pnl : W) (reason : PaperTradeCloseReason)
      (a : PaperTradingAccount W) (t r : PaperTrade W) : Type 0 where
    pub ends_closed : r.status ≡ PaperTradeStatus.closed
    pub ends_now : r.closed_at ≡ some env.now
    pub priced_at : r.close_price ≡ some (column 8 price)
    pub gains : r.pnl ≡ some (column 8 pnl)
    pub of_balance :
        eq a.balance (number 0) ≡ false → r.pnl_percent ≡ some (column 6 (div pnl a.balance))
    pub of_nothing : eq a.balance (number 0) ≡ true → r.pnl_percent ≡ some (column 6 (number 0))
    pub outcome : IsOutcome pnl r.result
    pub because : r.close_reason ≡ some reason
    pub kept_id : r.id ≡ t.id
    pub kept_direction : r.direction ≡ t.direction
    pub kept_entry : r.entry_price ≡ t.entry_price
    pub kept_size : r.position_size ≡ t.position_size

  pub gain-profit :
      (t : PaperTrade W) (price : W)
      → profit t price ≡ gain t.direction t.entry_price price t.position_size
  gain-profit t price = ground arith

  result_of-IsOutcome : (pnl : W) → IsOutcome pnl (result_of pnl)
  result_of-IsOutcome pnl = record {
    wins = λ h. ground arith;
    loses = λ h k. ground arith;
    breaks_even = λ h k. ground arith;
  }

  pub closing_row-IsClosedRow :
      (env : Env W) (price : W) (reason : PaperTradeCloseReason) (a : PaperTradingAccount W)
      (t : PaperTrade W)
      → IsClosedRow env price (profit t price) reason a t (closing_row env price reason a t)
  closing_row-IsClosedRow env price reason a t = record {
    ends_closed = refl;
    ends_now = refl;
    priced_at = refl;
    gains = refl;
    of_balance = λ h. rw h refl;
    of_nothing = λ h. rw h refl;
    outcome = result_of-IsOutcome (profit t price);
    because = refl;
    kept_id = refl;
    kept_direction = refl;
    kept_entry = refl;
    kept_size = refl;
  }
