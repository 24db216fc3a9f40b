-- ===== src/Store/Events.antt =====
-- What leaves the process besides the database: events on the internal bus (events/trading-events.ts)
-- and jobs on the queues, each with the payload that its constructor lists.
use trading_backend.Base.{ℕ, String, Bool, Option, List}
use trading_backend.Store.Enums.{
  Timeframe, SignalStatus, PaperTradeResult, RiskAssessmentDecision, SupervisorDecisionAction,
  SystemMode, ManualExecutionTarget,
}
use trading_backend.Store.Text.{Text}

pub data TradingEvent (W : Type 0) : Type 0 where
  signal_created : ℕ → ℕ → Option Timeframe → TradingEvent W
  signal_status_updated : ℕ → SignalStatus → TradingEvent W
  -- signal, instrument, agent decision, assessment
  risk_evaluated : ℕ → ℕ → ℕ → ℕ → RiskAssessmentDecision → TradingEvent W
  risk_approved : ℕ → ℕ → ℕ → TradingEvent W
  -- signal, agent decision, supervisor decision
  supervisor_decided : ℕ → ℕ → ℕ → SupervisorDecisionAction → Text W → TradingEvent W
  supervisor_blocked_by_fundamental : ℕ → ℕ → Option ℕ → TradingEvent W
  fundamental_evaluated : Bool → List ℕ → TradingEvent W
  fundamental_block : ℕ → List ℕ → TradingEvent W
  -- signal, trade, instrument
  paper_trade_opened : ℕ → ℕ → ℕ → TradingEvent W
  paper_trade_closed : ℕ → PaperTradeResult → W → TradingEvent W
  kill_switch_changed : Bool → SystemMode → TradingEvent W
  -- signal, supervisor decision
  assisted_approval_required : ℕ → ℕ → Text W → TradingEvent W
  -- signal, manual decision, user
  assisted_signal_approved : ℕ → ℕ → ℕ → ManualExecutionTarget → Text W → TradingEvent W
  assisted_signal_rejected : ℕ → ℕ → ℕ → ManualExecutionTarget → Text W → TradingEvent W
  -- signal, manual decision
  assisted_execution_started : ℕ → ℕ → ManualExecutionTarget → Text W → TradingEvent W
  assisted_execution_completed : ℕ → ℕ → ManualExecutionTarget → Text W → TradingEvent W
  assisted_execution_failed : ℕ → ℕ → ManualExecutionTarget → Text W → TradingEvent W
  -- signal, user
  live_execution_requested : ℕ → ℕ → Text W → TradingEvent W
  live_execution_blocked : ℕ → ℕ → Text W → TradingEvent W
  live_execution_success : ℕ → ℕ → ℕ → Text W → TradingEvent W
  live_execution_failed : ℕ → ℕ → Text W → TradingEvent W
  live_trade_opened : ℕ → ℕ → ℕ → Text W → TradingEvent W
  -- agent decision, instrument, timeframe, symbol
  technical_analysis_completed : ℕ → ℕ → Timeframe → String → TradingEvent W
  economic_event_created economic_event_updated economic_event_deleted : ℕ → TradingEvent W
  -- the queue's name, the message
  job_completed : String → Text W → TradingEvent W
  job_failed : String → Text W → TradingEvent W

pub data Job : Type 0 where
  open_trade : ℕ → Job
