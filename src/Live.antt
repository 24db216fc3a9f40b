-- ===== src/Live.antt =====
-- src/modules/live-trading: LiveTradingGuardService and LiveTradingService.
pub mod Guard
pub mod Gate
pub mod Validation
pub mod Capped
pub mod Unknown
pub mod Invariant
pub mod Settling
pub mod Execution
pub mod Sending
pub mod Reservation
use trading_backend.Base.{
  ◌==◌, if◌then◌else◌, or_default, is_some, map_some, find_first, update_where, ℕ, String, Bool,
  ◌&&◌, Option, none, some, List, ◌∷◌,
}
use trading_backend.Broker.{place_live_order}
use trading_backend.Live.Guard.{LiveExecutionContext, default_limits, validate_live_execution}
use trading_backend.Number.Interface.{Number}
use trading_backend.Signals.{write_status}
use trading_backend.Store.Entities.{
  OrderRequest, LiveOrderResponse, LiveTrade, LiveExecutionLog, LiveTradingLimits,
}
use trading_backend.Store.Enums.{
  SignalStatus, LiveTradeStatus, LiveExecutionAction, LiveExecutionStatus, is_active,
}
use trading_backend.Store.Events.{
  live_execution_requested, live_execution_blocked, live_execution_success, live_execution_failed,
  live_trade_opened,
}
use trading_backend.Store.Text.{
  Text, say, Exception, message, bad_request, record_not_found, foreign_key, write_conflict,
}
use trading_backend.Store.World.{
  Env, Action, ◌>>=◌, ◌>>◌, pure, throw, throw_if, throw_unless, gets, modify, or_throw, catch,
  transaction, emit, fresh,
}

-- `LIVE_EXECUTION` logs; the signal and the user are foreign keys.
module _ {W : Type 0} ⦃n : Number W⦄ where
  open n use {column}

  -- `log`
  unfoldable pub log :
      ℕ → ℕ → LiveExecutionAction → LiveExecutionStatus → Text W → Action W (Unit {0})
  unfolding find_first
  log signal_id user_id action status reason = do
    signal ← gets λ w. find_first (λ s. s.id == signal_id) w.signals
    user ← gets λ w. find_first (λ u. u.id == user_id) w.users
    throw_unless (is_some signal && is_some user) foreign_key
    let row : LiveExecutionLog W = record {
      signal_id = some signal_id;
      user_id = some user_id;
      action = action;
      status = status;
      reason = reason;
    }
    modify λ w. record w { live_logs = row ∷ w.live_logs }

  abbrev pub order_of : LiveExecutionContext W → OrderRequest W
  order_of c = record {
    symbol = c.symbol;
    direction = c.direction;
    volume = c.volume;
    entry_price = c.signal.entry_price;
    stop_loss = c.signal.stop_loss;
    take_profit = c.signal.take_profit;
    comment = some "INVERSIONES_LIVE_LIMITED";
  }

  abbrev pub requested_row : Env W → ℕ → ℕ → ℕ → OrderRequest W → LiveTrade W
  requested_row env id signal_id decision_id order = record {
    id = id;
    signal_id = signal_id;
    manual_decision_id = decision_id;
    broker_order_id = none;
    symbol = order.symbol;
    direction = order.direction;
    volume = column 8 order.volume;
    entry_price = column 8 order.entry_price;
    stop_loss = map_some (column 8) order.stop_loss;
    take_profit = map_some (column 8) order.take_profit;
    status = LiveTradeStatus.requested;
    response_payload = none;
    error_message = none;
    opened_at = none;
    created_at = env.now;
  }

  -- `tx.liveTrade.create`
  unfoldable pub create_live_trade : Env W → ℕ → ℕ → OrderRequest W → Action W ℕ
  create_live_trade env signal_id decision_id order = do
    id ← fresh
    let row = requested_row env id signal_id decision_id order
    modify λ w. record w { live_trades = row ∷ w.live_trades }
    pure id

  abbrev pub in_progress : Exception W → Exception W
  in_progress write_conflict =
      bad_request (say "Live execution is already in progress for this signal")
  in_progress e = e

  -- `reserveLiveExecution`. A conflict shows when the transaction commits.
  unfoldable pub reserve_live_execution : Env W → ℕ → ℕ → ℕ → Action W (ℕ × OrderRequest W)
  unfolding validate_live_execution create_live_trade
  reserve_live_execution env signal_id user_id manual_id =
      catch
        (transaction (do
          context ← validate_live_execution env signal_id user_id (some manual_id)
          let order = order_of context
          id ← create_live_trade env signal_id context.manual_decision.id order
          throw_if env.aborts write_conflict
          pure (id, order)))
        (λ error. throw (in_progress error))

  abbrev pub executed_row : Env W → LiveOrderResponse W → LiveTrade W → LiveTrade W
  executed_row env r t = record t {
    broker_order_id = some r.broker_order_id;
    status = if r.executed then LiveTradeStatus.executed else LiveTradeStatus.rejected;
    response_payload = some r;
    error_message =
        if r.executed then t.error_message else some (say "Broker did not execute order");
    opened_at = if r.executed then some r.timestamp else t.opened_at;
  }

  abbrev pub failed_row : Text W → LiveTrade W → LiveTrade W
  failed_row reason t = record t { status = LiveTradeStatus.failed; error_message = some reason }

  -- `liveTrade.update({ where: { id } })`
  unfoldable pub update_live_trade : ℕ → (LiveTrade W → LiveTrade W) → Action W (LiveTrade W)
  unfolding find_first update_where
  update_live_trade id f = do
    row ← gets λ w. find_first (λ t. t.id == id) w.live_trades
    trade ← or_throw row record_not_found
    modify λ w. record w { live_trades = update_where (λ t. t.id == id) f w.live_trades }
    pure (f trade)

  -- the second `try` block of `executeLiveFromSignal`
  unfoldable pub send_order :
      Env W → ℕ → ℕ → ℕ → OrderRequest W → Action W (LiveTrade W × LiveOrderResponse W)
  unfolding log place_live_order update_live_trade write_status
  send_order env signal_id user_id live_id order = do
    response ← place_live_order env order
    log signal_id user_id LiveExecutionAction.broker_response LiveExecutionStatus.success
        (say "Broker accepted limited live order")
    throw_unless response.executed (bad_request (say "Broker did not execute limited live order"))
    trade ← update_live_trade live_id (executed_row env response)
    updated ← write_status signal_id SignalStatus.live_executed
    emit
        (live_execution_success signal_id user_id trade.id (say "Limited live execution completed"))
    emit (live_trade_opened signal_id user_id trade.id (say "Live trade opened"))
    pure (trade, response)

  -- its `catch` block
  unfoldable pub give_up : {A : Type 0} → ℕ → ℕ → ℕ → Exception W → Action W A
  unfolding log update_live_trade
  give_up signal_id user_id live_id error = do
    log signal_id user_id LiveExecutionAction.failed LiveExecutionStatus.failed (message error)
    trade ← update_live_trade live_id (failed_row (message error))
    emit (live_execution_failed signal_id user_id (message error))
    throw error

  -- the first `catch` block of `executeLiveFromSignal`; with a reason given, `recordBlockedExecution`
  unfoldable pub record_blocked_execution : ℕ → ℕ → Text W → Action W (Unit {0})
  unfolding log
  record_blocked_execution signal_id user_id reason = do
    log signal_id user_id LiveExecutionAction.blocked LiveExecutionStatus.blocked reason
    emit (live_execution_blocked signal_id user_id reason)

  -- the first `try` statement of `executeLiveFromSignal`
  unfoldable pub reserve_or_block : Env W → ℕ → ℕ → ℕ → Action W (ℕ × OrderRequest W)
  unfolding reserve_live_execution log record_blocked_execution
  reserve_or_block env signal_id user_id manual_id =
      catch
        (do
          reserved ← reserve_live_execution env signal_id user_id manual_id
          log signal_id user_id LiveExecutionAction.validation LiveExecutionStatus.success
              (say "Live execution validation passed")
          pure reserved)
        (λ error. do record_blocked_execution signal_id user_id (message error); throw error)

  -- `executeLiveFromSignal`
  unfoldable pub execute_live_from_signal :
      Env W → ℕ → ℕ → ℕ → Action W (LiveTrade W × LiveOrderResponse W)
  unfolding reserve_or_block log send_order give_up
  execute_live_from_signal env signal_id user_id manual_id = do
    emit (live_execution_requested signal_id user_id (say "Limited live execution requested"))
    reserved ← reserve_or_block env signal_id user_id manual_id
    log signal_id user_id LiveExecutionAction.place_order LiveExecutionStatus.success
        (say "Sending limited live order to broker")
    catch (send_order env signal_id user_id reserved.0 reserved.1)
        (give_up signal_id user_id reserved.0)

  -- `updateLimits`
  unfoldable pub update_limits :
      Option ℕ
      → Option W
      → Option W
      → Option (List (Option String))
      → Option Bool
      → Action W (LiveTradingLimits W)
  update_limits daily loss volume symbols active = do
    old ← gets λ w. or_default w.live_limits default_limits
    let limits : LiveTradingLimits W = record {
      max_daily_live_trades = or_default daily old.max_daily_live_trades;
      max_daily_loss = or_default (map_some (column 8) loss) old.max_daily_loss;
      max_volume_per_trade = or_default (map_some (column 8) volume) old.max_volume_per_trade;
      allowed_symbols = elim symbols [ none ↦ old.allowed_symbols | some s ↦ some s ];
      is_active = or_default active old.is_active;
    }
    modify λ w. record w { live_limits = some limits }
    pure limits
