-- ===== src/Store/Entities.antt =====
-- The rows of the tables, as the services read them: ids and times are numbers, Decimal columns are
-- numbers of type W, a nullable column is an Option. Columns that no modelled code reads are left out.
use trading_backend.Base.{ℕ, String, Bool, Option, List}
use trading_backend.Store.Enums.{
  Role, Timeframe, SignalDirection, SignalStatus, AgentType, AgentDecisionAction,
  AgentExecutionSource, TradeDirection, PaperTradeStatus, PaperTradingAccountStatus,
  PaperTradeResult, PaperTradeCloseReason, RiskAssessmentDecision, SupervisorDecisionAction,
  SystemMode, ManualTradingDecisionAction, ManualExecutionTarget, BrokerConnectionStatus,
  BrokerAction, BrokerOrderSimulationStatus, LiveTradeStatus, LiveExecutionAction,
  LiveExecutionStatus, EconomicImpact,
}
use trading_backend.Store.Text.{Text}

pub record User : Type 0 where
  pub id : ℕ
  pub role : Role
  pub is_active : Bool

pub record Instrument : Type 0 where
  pub id : ℕ
  pub symbol : String
  pub broker_symbol : Option String
  pub is_active : Bool

pub record Signal (W : Type 0) : Type 0 where
  pub id : ℕ
  pub instrument_id : ℕ
  pub strategy_id : Option ℕ
  pub timeframe : Option Timeframe
  pub direction : SignalDirection
  pub entry_price : W
  pub stop_loss : Option W
  pub take_profit : Option W
  pub confidence_score : ℕ
  pub status : SignalStatus
  pub candle_timestamp : Option ℕ

-- Of the JSON column `metadata`, the number that `Number(metadata.positionSize)` gives, if it is set.
pub record AgentDecision (W : Type 0) : Type 0 where
  pub id : ℕ
  pub agent_type : AgentType
  pub instrument_id : ℕ
  pub signal_id : Option ℕ
  pub decision : AgentDecisionAction
  pub execution_source : AgentExecutionSource
  pub confidence_score : ℕ
  pub reasoning : Text W
  pub position_size : Option W

pub record RiskProfile (W : Type 0) : Type 0 where
  pub id : ℕ
  pub name : String
  pub max_risk_per_trade : W
  pub max_daily_drawdown : W
  pub max_open_trades : ℕ
  pub min_risk_reward_ratio : W
  pub is_active : Bool

pub record RiskAssessment (W : Type 0) : Type 0 where
  pub id : ℕ
  pub signal_id : ℕ
  pub risk_profile_id : ℕ
  pub position_size : W
  pub monetary_risk : W
  pub risk_reward_ratio : W
  pub decision : RiskAssessmentDecision
  pub reason : Text W

pub record SupervisorDecision (W : Type 0) : Type 0 where
  pub id : ℕ
  pub signal_id : ℕ
  pub decision : SupervisorDecisionAction
  pub reason : Text W
  pub confidence_score : ℕ

pub record ManualTradingDecision (W : Type 0) : Type 0 where
  pub id : ℕ
  pub signal_id : ℕ
  pub supervisor_decision_id : ℕ
  pub user_id : ℕ
  pub decision : ManualTradingDecisionAction
  pub execution_target : ManualExecutionTarget
  pub reason : Text W
  pub signal_status_before : SignalStatus

pub record PaperTradingAccount (W : Type 0) : Type 0 where
  pub id : ℕ
  pub name : String
  pub initial_balance : W
  pub balance : W
  pub equity : W
  pub currency : String
  pub status : PaperTradingAccountStatus

pub record PaperTrade (W : Type 0) : Type 0 where
  pub id : ℕ
  pub account_id : ℕ
  pub signal_id : Option ℕ
  pub instrument_id : ℕ
  pub direction : TradeDirection
  pub entry_price : W
  pub stop_loss : Option W
  pub take_profit : Option W
  pub position_size : W
  pub status : PaperTradeStatus
  pub opened_at : ℕ
  pub closed_at : Option ℕ
  pub close_price : Option W
  pub pnl : Option W
  pub pnl_percent : Option W
  pub result : PaperTradeResult
  pub close_reason : Option PaperTradeCloseReason

pub record OrderRequest (W : Type 0) : Type 0 where
  pub symbol : String
  pub direction : TradeDirection
  pub volume : W
  pub entry_price : W
  pub stop_loss : Option W
  pub take_profit : Option W
  pub comment : Option String

-- A field of a JSON object, by what `typeof` and `??` tell apart.
pub data Field (W : Type 0) : Type 0 where
  nullish : Field W
  num : W → Field W
  other : Field W

-- What the broker answers to a live order, with the further fields that `readPnL` looks for.
pub record LiveOrderResponse (W : Type 0) : Type 0 where
  pub executed : Bool
  pub broker_order_id : String
  pub timestamp : ℕ
  pub pnl : Field W
  pub profit : Field W
  pub net_pnl : Field W

pub record LiveTrade (W : Type 0) : Type 0 where
  pub id : ℕ
  pub signal_id : ℕ
  pub manual_decision_id : ℕ
  pub broker_order_id : Option String
  pub symbol : String
  pub direction : TradeDirection
  pub volume : W
  pub entry_price : W
  pub stop_loss : Option W
  pub take_profit : Option W
  pub status : LiveTradeStatus
  pub response_payload : Option (LiveOrderResponse W)
  pub error_message : Option (Text W)
  pub opened_at : Option ℕ
  pub created_at : ℕ

pub record LiveExecutionLog (W : Type 0) : Type 0 where
  pub signal_id : Option ℕ
  pub user_id : Option ℕ
  pub action : LiveExecutionAction
  pub status : LiveExecutionStatus
  pub reason : Text W

-- `allowedSymbols` is JSON: none if it is no array; an item that is no string is none.
pub record LiveTradingLimits (W : Type 0) : Type 0 where
  pub max_daily_live_trades : ℕ
  pub max_daily_loss : W
  pub max_volume_per_trade : W
  pub allowed_symbols : Option (List (Option String))
  pub is_active : Bool

pub record BrokerConnectionLog (W : Type 0) : Type 0 where
  pub action : BrokerAction
  pub status : BrokerConnectionStatus
  pub error_message : Option (Text W)

pub record BrokerOrderSimulation (W : Type 0) : Type 0 where
  pub signal_id : Option ℕ
  pub supervisor_decision_id : Option ℕ
  pub symbol : String
  pub direction : TradeDirection
  pub volume : W
  pub entry_price : W
  pub stop_loss : Option W
  pub take_profit : Option W
  pub status : BrokerOrderSimulationStatus
  pub reason : Text W

pub record MarketCandle (W : Type 0) : Type 0 where
  pub id : ℕ
  pub instrument_id : ℕ
  pub timeframe : Timeframe
  pub open_price : W
  pub high : W
  pub low : W
  pub close : W
  pub volume : W
  pub timestamp : ℕ

pub record EconomicEvent : Type 0 where
  pub id : ℕ
  -- its characters
  pub currency : List ℕ
  pub impact : EconomicImpact
  pub event_time : ℕ

pub record SystemConfig : Type 0 where
  pub mode : SystemMode
  pub kill_switch : Bool
