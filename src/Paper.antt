-- ===== src/Paper.antt =====
-- src/modules/paper-trading: PaperTradingEngineService and its repositories.
pub mod Account
pub mod Checks
pub mod Candle
pub mod Sweep
pub mod Invariant
pub mod Closed
pub mod Closing
pub mod Opened
pub mod Opening
use trading_backend.Base.{
  ◌==◌, if◌then◌else◌, find_first, find_many, update_where, take, ℕ, ◌&&◌, Option, none, some, List,
  [], ◌∷◌,
}
use trading_backend.Number.Interface.{Number, number}
use trading_backend.Paper.Account.{
  is_positive, find_account_by_id, update_balance, recalculate_account_equity, resolve_account,
}
use trading_backend.Paper.Candle.{close_input_for_candle}
use trading_backend.Paper.Checks.{check_prices, check_approvals}
use trading_backend.Signals.{find_by_id, update_status}
use trading_backend.Store.Entities.{Signal, PaperTradingAccount, PaperTrade, MarketCandle}
use trading_backend.Store.Enums.{
  SignalStatus, TradeDirection, PaperTradeStatus, PaperTradeResult, PaperTradeCloseReason,
  is_opened, is_active,
}
use trading_backend.Store.Events.{paper_trade_opened, paper_trade_closed}
use trading_backend.Store.Text.{say, bad_request, not_found, record_not_found}
use trading_backend.Store.World.{
  Env, Action, ◌>>=◌, ◌>>◌, pure, throw_unless, gets, modify, or_throw, emit, fresh,
}

-- What `openTradeFromSignal` has found when its checks are done.
pub record CheckedOpening (W : Type 0) : Type 0 where
  pub signal : Signal W
  pub prices : TradeDirection × W × W
  pub account : PaperTradingAccount W
  pub size : W

module _ {W : Type 0} ⦃n : Number W⦄ where
  open n use {add, sub, mul, div, lt, eq, column}

  -- `findTradeById`
  unfoldable pub find_trade_by_id : ℕ → Action W (PaperTrade W)
  unfolding find_first
  find_trade_by_id id = do
    row ← gets λ w. find_first (λ t. t.id == id) w.paper_trades
    or_throw row (not_found (say "Paper trade not found"))

  abbrev pub opened_row : Env W → ℕ → Signal W → ℕ → TradeDirection × W × W → W → PaperTrade W
  opened_row env id signal account_id (direction, stop, target) size = record {
    id = id;
    account_id = account_id;
    signal_id = some signal.id;
    instrument_id = signal.instrument_id;
    direction = direction;
    entry_price = column 8 signal.entry_price;
    stop_loss = some (column 8 stop);
    take_profit = some (column 8 target);
    position_size = column 8 size;
    status = PaperTradeStatus.opened;
    opened_at = env.now;
    closed_at = none;
    close_price = none;
    pnl = none;
    pnl_percent = none;
    result = PaperTradeResult.opened;
    close_reason = none;
  }

  -- `paperTradesRepository.create`
  unfoldable pub create_paper_trade :
      Env W → Signal W → ℕ → TradeDirection × W × W → W → Action W (PaperTrade W)
  create_paper_trade env signal account_id prices size = do
    id ← fresh
    let row = opened_row env id signal account_id prices size
    modify λ w. record w { paper_trades = row ∷ w.paper_trades }
    pure row

  -- its checks
  unfoldable pub check_opening : Env W → ℕ → Option ℕ → Action W (CheckedOpening W)
  unfolding find_by_id check_prices resolve_account check_approvals
  check_opening env signal_id account_id = do
    throw_unless env.config.paper_trading_enabled (bad_request (say "Paper trading is disabled"))
    signal ← find_by_id signal_id
    prices ← check_prices signal
    account ← resolve_account account_id
    throw_unless (is_active account.status)
        (bad_request (say "Paper trading account is not active"))
    size ← check_approvals env signal
    pure (record { signal = signal; prices = prices; account = account; size = size })

  -- what it writes
  unfoldable pub record_opening : Env W → CheckedOpening W → Action W (PaperTrade W)
  unfolding create_paper_trade recalculate_account_equity update_status
  record_opening env o = do
    trade ← create_paper_trade env o.signal o.account.id o.prices o.size
    recalculated ← recalculate_account_equity o.account.id
    updated ← update_status o.signal.id SignalStatus.executed_paper
    emit (paper_trade_opened o.signal.id trade.id trade.instrument_id)
    pure trade

  -- `openTradeFromSignal`
  unfoldable pub open_trade_from_signal : Env W → ℕ → Option ℕ → Action W (PaperTrade W)
  unfolding check_opening record_opening
  open_trade_from_signal env signal_id account_id = do
    opening ← check_opening env signal_id account_id
    record_opening env opening

  -- the `pnl` of `closeTrade`
  abbrev pub profit : PaperTrade W → W → W
  profit trade price = elim trade.direction [
    | TradeDirection.buy ↦ mul (sub price trade.entry_price) trade.position_size
    | TradeDirection.sell ↦ mul (sub trade.entry_price price) trade.position_size
  ]

  -- its `result`
  abbrev pub result_of : W → PaperTradeResult
  result_of pnl =
      if lt (number 0) pnl
      then PaperTradeResult.win
      else if lt pnl (number 0)
      then PaperTradeResult.loss
      else PaperTradeResult.breakeven

  -- the columns that `close` writes
  abbrev pub closed_row : Env W → W → W → W → PaperTradeCloseReason → PaperTrade W → PaperTrade W
  closed_row env price pnl percent reason t = record t {
    status = PaperTradeStatus.closed;
    closed_at = some env.now;
    close_price = some (column 8 price);
    pnl = some (column 8 pnl);
    pnl_percent = some (column 6 percent);
    result = result_of pnl;
    close_reason = some reason;
  }

  -- `paperTradesRepository.close`
  unfoldable pub write_close : ℕ → (PaperTrade W → PaperTrade W) → Action W (PaperTrade W)
  unfolding find_first update_where
  write_close id f = do
    row ← gets λ w. find_first (λ t. t.id == id) w.paper_trades
    trade ← or_throw row record_not_found
    modify λ w. record w { paper_trades = update_where (λ t. t.id == id) f w.paper_trades }
    pure (f trade)

  -- `closeTrade`
  unfoldable pub close_trade : Env W → ℕ → W → PaperTradeCloseReason → Action W (PaperTrade W)
  unfolding find_trade_by_id find_account_by_id write_close update_balance
      recalculate_account_equity
  close_trade env trade_id price reason = do
    throw_unless (is_positive price) (bad_request (say "Close price must be greater than zero"))
    trade ← find_trade_by_id trade_id
    throw_unless (is_opened trade.status) (bad_request (say "Only open paper trades can be closed"))
    account ← find_account_by_id trade.account_id
    let pnl = profit trade price
    let percent = if eq account.balance (number 0) then number 0 else div pnl account.balance
    let after = add account.balance pnl
    closed ← write_close trade.id (closed_row env price pnl percent reason)
    written ← update_balance account.id after after
    recalculated ← recalculate_account_equity account.id
    emit (paper_trade_closed trade.id (result_of pnl) pnl)
    pure closed

  -- the loop of `evaluateOpenTradesOnCandle`
  unfoldable pub close_triggered :
      Env W → MarketCandle W → List (PaperTrade W) → Action W (List (PaperTrade W))
  unfolding close_trade
  close_triggered env candle [] = pure []
  close_triggered env candle (t ∷ ts) = elim (close_input_for_candle t candle) [
    | none ↦ close_triggered env candle ts
    | some exit ↦ do
      closed ← close_trade env t.id exit.close_price exit.close_reason
      rest ← close_triggered env candle ts
      pure (closed ∷ rest)
  ]

  -- `evaluateOpenTradesOnCandle`; the repository's `findMany` gives 200 rows at most.
  unfoldable pub evaluate_open_trades_on_candle :
      Env W → MarketCandle W → Action W (List (PaperTrade W))
  unfolding find_many take close_triggered
  evaluate_open_trades_on_candle env candle = do
    open_trades ← gets λ w. take 200 (
        find_many (λ t. t.instrument_id == candle.instrument_id && is_opened t.status)
          w.paper_trades)
    close_triggered env candle open_trades

  -- `evaluateOpenTradesOnCandleId`
  unfoldable pub evaluate_open_trades_on_candle_id : Env W → ℕ → Action W (List (PaperTrade W))
  unfolding find_first evaluate_open_trades_on_candle
  evaluate_open_trades_on_candle_id env id = do
    row ← gets λ w. find_first (λ c. c.id == id) w.candles
    candle ← or_throw row (not_found (say "Market candle not found"))
    evaluate_open_trades_on_candle env candle
