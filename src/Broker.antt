-- ===== src/Broker.antt =====
-- src/modules/broker: BrokerService over a connector that it does not implement (`Env.dry_run` and
-- `Env.place`, the MT5 worker).
pub mod Direction
pub mod Frames
use trading_backend.Base.{
  ◌==◌, if◌then◌else◌, or_default, is_some, map_some, find_first, ℕ, String, true, false, not, ◌&&◌,
  Option, none, some, ◌∷◌,
}
use trading_backend.Number.Interface.{Number}
use trading_backend.Store.Entities.{
  Instrument, Signal, RiskAssessment, SupervisorDecision, OrderRequest, LiveOrderResponse,
  BrokerOrderSimulation,
}
use trading_backend.Store.Enums.{
  SignalDirection, TradeDirection, BrokerConnectionStatus, BrokerAction,
  BrokerOrderSimulationStatus, is_approved, is_operate, is_live_limited,
}
use trading_backend.Store.Text.{
  Text, say, message, bad_request, forbidden, not_found, record_not_found,
}
use trading_backend.Store.World.{
  World, DryRunResponse, PlaceResponse, Env, Action, ◌>>=◌, ◌>>◌, pure, throw, throw_unless, gets,
  modify, or_throw, catch, blocked, placed, ok,
}
use trading_backend.System.{get_config}

-- The direction of an order, if the signal has one: `direction !== BUY && direction !== SELL`.
abbrev pub to_direction : SignalDirection → Option TradeDirection
to_direction SignalDirection.buy = some TradeDirection.buy
to_direction SignalDirection.sell = some TradeDirection.sell
to_direction _ = none

-- `instrument.brokerSymbol ?? instrument.symbol`
abbrev pub broker_symbol_of : Instrument → String
broker_symbol_of i = or_default i.broker_symbol i.symbol

module _ {W : Type 0} ⦃n : Number W⦄ where
  open n use {column}

  -- `saveConnectionLog`
  abbrev pub save_connection_log :
      BrokerAction → BrokerConnectionStatus → Option (Text W) → Action W (Unit {0})
  save_connection_log action status reason w = (
    ok tt,
    record w {
      broker_logs =
          record { action = action; status = status; error_message = reason } ∷ w.broker_logs;
    },
  )

  -- `logConnectorCall`
  abbrev pub log_connector_call : {A : Type 0} → BrokerAction → Action W A → Action W A
  log_connector_call action call =
      catch
        (do
          response ← call
          save_connection_log action BrokerConnectionStatus.success none
          pure response)
        (λ error. do
          save_connection_log action BrokerConnectionStatus.failed (some (message error))
          throw error)

  -- `connector.dryRunOrder` and `connector.placeOrder`; each order that is handed over is kept.
  abbrev pub call_dry_run : Env W → OrderRequest W → Action W (DryRunResponse W)
  call_dry_run env request w = (env.dry_run request, record w { dry_runs = request ∷ w.dry_runs })

  abbrev pub call_place : Env W → OrderRequest W → Action W (PlaceResponse W)
  call_place env request w = (env.place request, record w { live_orders = request ∷ w.live_orders })

  abbrev with_comment : String → OrderRequest W → OrderRequest W
  with_comment words request = record request { comment = some (or_default request.comment words) }

  -- `dryRunOrder`
  unfoldable pub dry_run_order :
      Env W → OrderRequest W → Option ℕ → Option ℕ → Action W (DryRunResponse W)
  dry_run_order env request signal_id decision_id = do
    response ←
        log_connector_call BrokerAction.dry_run_order
          (call_dry_run env (with_comment "INVERSIONES_DRY_RUN" request))
    let row : BrokerOrderSimulation W = record {
      signal_id = signal_id;
      supervisor_decision_id = decision_id;
      symbol = request.symbol;
      direction = request.direction;
      volume = column 8 request.volume;
      entry_price = column 8 request.entry_price;
      stop_loss = map_some (column 8) request.stop_loss;
      take_profit = map_some (column 8) request.take_profit;
      status =
          if response.would_execute
          then BrokerOrderSimulationStatus.validated
          else BrokerOrderSimulationStatus.blocked;
      reason = response.reason;
    }
    modify λ w. record w { simulations = row ∷ w.simulations }
    pure response

  -- `getPlaceOrderBlockedReason`
  unfoldable pub place_order_blocked_reason : Env W → Action W (Option (Text W))
  unfolding get_config
  place_order_blocked_reason env =
      if not (or_default env.config.enable_live_trading false)
      then pure (some (say "Live trading is disabled"))
      else if or_default env.config.mt5_dry_run true
      then pure (some (say "Live trading is disabled"))
      else do
        system ← get_config
        pure (
            if system.kill_switch
            then some (say "Kill switch is enabled")
            else if not (is_live_limited system.mode)
            then some (say "System mode is not compatible with live broker execution")
            else none)

  -- `placeOrder`. The message of an exception that is made of an object is that of its class.
  unfoldable pub place_order : Env W → OrderRequest W → Action W (Unit {0})
  unfolding place_order_blocked_reason
  place_order env request = do
    reason ← place_order_blocked_reason env
    let words = or_default reason (say "Live order placement is not implemented in Sprint 13")
    save_connection_log BrokerAction.place_order BrokerConnectionStatus.failed (some words)
    throw (forbidden (say "Forbidden Exception"))

  abbrev unless_blocked : PlaceResponse W → Action W (LiveOrderResponse W)
  unless_blocked (blocked reason) = throw (forbidden (say "Forbidden Exception"))
  unless_blocked (placed response) = pure response

  -- `placeLiveOrder`
  unfoldable pub place_live_order : Env W → OrderRequest W → Action W (LiveOrderResponse W)
  place_live_order env request = do
    response ←
        log_connector_call BrokerAction.place_order
          (call_place env (with_comment "INVERSIONES_LIVE_LIMITED" request))
    unless_blocked response

  -- The newest approved assessment of a signal.
  unfoldable pub approved_assessment : ℕ → World W → Option (RiskAssessment W)
  unfolding find_first
  approved_assessment signal_id w =
      find_first (λ a. a.signal_id == signal_id && is_approved a.decision) w.risk_assessments

  -- `include: { supervisorDecision: true }`
  unfoldable pub supervisor_decision_of : ℕ → World W → Option (SupervisorDecision W)
  unfolding find_first
  supervisor_decision_of signal_id w =
      find_first (λ d. d.signal_id == signal_id) w.supervisor_decisions

  -- `include: { instrument: true }`
  unfoldable pub instrument_of : Signal W → World W → Option Instrument
  unfolding find_first
  instrument_of signal w = find_first (λ i. i.id == signal.instrument_id) w.instruments

  -- `dryRunOrderFromSignal`
  unfoldable pub dry_run_order_from_signal : Env W → ℕ → Action W (DryRunResponse W)
  unfolding find_first approved_assessment supervisor_decision_of instrument_of dry_run_order
  dry_run_order_from_signal env signal_id = do
    row ← gets λ w. find_first (λ s. s.id == signal_id) w.signals
    signal ← or_throw row (not_found (say "Signal not found"))
    direction ←
        or_throw (to_direction signal.direction)
          (bad_request (say "Only BUY or SELL signals can be dry-run orders"))
    throw_unless (is_some signal.stop_loss && is_some signal.take_profit)
        (bad_request (say "Signal requires stopLoss and takeProfit"))
    found ← gets (approved_assessment signal_id)
    assessment ← or_throw found (bad_request (say "Signal has no approved RiskDecision"))
    decision ← gets (supervisor_decision_of signal_id)
    supervisor ← or_throw decision (bad_request (say "Signal has no SupervisorDecision OPERATE"))
    throw_unless (is_operate supervisor.decision)
        (bad_request (say "Signal has no SupervisorDecision OPERATE"))
    place ← gets (instrument_of signal)
    instrument ← or_throw place record_not_found
    dry_run_order env
        (record {
          symbol = broker_symbol_of instrument;
          direction = direction;
          volume = assessment.position_size;
          entry_price = signal.entry_price;
          stop_loss = signal.stop_loss;
          take_profit = signal.take_profit;
          comment = some "INVERSIONES_DRY_RUN";
        })
        (some signal_id) (some supervisor.id)
