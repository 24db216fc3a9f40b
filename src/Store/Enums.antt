-- ===== src/Store/Enums.antt =====
-- The enums of prisma/schema.prisma that the modelled services read or write, in its order, and the
-- tests of equality with one member.
use trading_backend.Base.{◌==◌, ==_self, ℕ, String, ◌≡◌, Bool, true, false}

pub data Role : Type 0 where
  admin trader viewer : Role

pub data Timeframe : Type 0 where
  m1 m5 m15 m30 h1 h4 d1 : Timeframe

pub data SignalDirection : Type 0 where
  buy sell none neutral : SignalDirection

pub data SignalStatus : Type 0 where
  created under_review pending approved rejected expired executed : SignalStatus
  pending_manual_approval manually_approved manually_rejected : SignalStatus
  executed_paper dry_run_executed live_executed : SignalStatus

pub data AgentType : Type 0 where
  technical fundamental risk execution supervisor manual : AgentType

pub data AgentDecisionAction : Type 0 where
  approve reject wait modify : AgentDecisionAction

pub data AgentExecutionSource : Type 0 where
  queue manual : AgentExecutionSource

pub data TradeDirection : Type 0 where
  buy sell : TradeDirection

pub data PaperTradeStatus : Type 0 where
  opened closed cancelled : PaperTradeStatus

pub data PaperTradingAccountStatus : Type 0 where
  active inactive : PaperTradingAccountStatus

pub data PaperTradeResult : Type 0 where
  win loss breakeven opened : PaperTradeResult

pub data PaperTradeCloseReason : Type 0 where
  stop_loss take_profit manual system : PaperTradeCloseReason

pub data RiskAssessmentDecision : Type 0 where
  approved rejected adjusted : RiskAssessmentDecision

pub data SupervisorDecisionAction : Type 0 where
  operate wait block : SupervisorDecisionAction

pub data SystemMode : Type 0 where
  research backtesting paper_trading assisted_trading live_limited safe_mode paused : SystemMode

pub data ManualTradingDecisionAction : Type 0 where
  approve reject : ManualTradingDecisionAction

pub data ManualExecutionTarget : Type 0 where
  paper_trading mt5_dry_run none : ManualExecutionTarget

pub data BrokerConnectionStatus : Type 0 where
  success failed : BrokerConnectionStatus

pub data BrokerAction : Type 0 where
  account_info symbols price dry_run_order place_order : BrokerAction

pub data BrokerOrderSimulationStatus : Type 0 where
  validated blocked failed : BrokerOrderSimulationStatus

pub data LiveTradeStatus : Type 0 where
  requested executed rejected failed closed : LiveTradeStatus

pub data LiveExecutionAction : Type 0 where
  validation place_order broker_response blocked failed : LiveExecutionAction

pub data LiveExecutionStatus : Type 0 where
  success failed blocked : LiveExecutionStatus

pub data EconomicImpact : Type 0 where
  low medium high : EconomicImpact

abbrev pub is_pending_manual_approval : SignalStatus → Bool
is_pending_manual_approval SignalStatus.pending_manual_approval = true
is_pending_manual_approval _ = false

abbrev pub is_live_executed : SignalStatus → Bool
is_live_executed SignalStatus.live_executed = true
is_live_executed _ = false

abbrev pub is_opened : PaperTradeStatus → Bool
is_opened PaperTradeStatus.opened = true
is_opened _ = false

abbrev pub is_closed : PaperTradeStatus → Bool
is_closed PaperTradeStatus.closed = true
is_closed _ = false

abbrev pub is_active : PaperTradingAccountStatus → Bool
is_active PaperTradingAccountStatus.active = true
is_active _ = false

abbrev pub is_approved : RiskAssessmentDecision → Bool
is_approved RiskAssessmentDecision.approved = true
is_approved _ = false

abbrev pub is_operate : SupervisorDecisionAction → Bool
is_operate SupervisorDecisionAction.operate = true
is_operate _ = false

abbrev pub is_approval : AgentDecisionAction → Bool
is_approval AgentDecisionAction.approve = true
is_approval _ = false

abbrev pub is_risk_agent : AgentType → Bool
is_risk_agent AgentType.risk = true
is_risk_agent _ = false

abbrev pub is_supervisor_agent : AgentType → Bool
is_supervisor_agent AgentType.supervisor = true
is_supervisor_agent _ = false

abbrev pub is_paper_trading : SystemMode → Bool
is_paper_trading SystemMode.paper_trading = true
is_paper_trading _ = false

abbrev pub is_assisted_trading : SystemMode → Bool
is_assisted_trading SystemMode.assisted_trading = true
is_assisted_trading _ = false

abbrev pub is_live_limited : SystemMode → Bool
is_live_limited SystemMode.live_limited = true
is_live_limited _ = false

abbrev pub is_manual_approval : ManualTradingDecisionAction → Bool
is_manual_approval ManualTradingDecisionAction.approve = true
is_manual_approval ManualTradingDecisionAction.reject = false

abbrev pub is_admin : Role → Bool
is_admin Role.admin = true
is_admin _ = false

-- `status: { in: [REQUESTED, EXECUTED] }`
abbrev pub is_live : LiveTradeStatus → Bool
is_live LiveTradeStatus.requested = true
is_live LiveTradeStatus.executed = true
is_live _ = false

abbrev pub is_live_closed : LiveTradeStatus → Bool
is_live_closed LiveTradeStatus.closed = true
is_live_closed _ = false

abbrev pub is_high : EconomicImpact → Bool
is_high EconomicImpact.high = true
is_high _ = false

-- The names that the messages show.
abbrev pub mode_name : SystemMode → String
mode_name SystemMode.research = "RESEARCH"
mode_name SystemMode.backtesting = "BACKTESTING"
mode_name SystemMode.paper_trading = "PAPER_TRADING"
mode_name SystemMode.assisted_trading = "ASSISTED_TRADING"
mode_name SystemMode.live_limited = "LIVE_LIMITED"
mode_name SystemMode.safe_mode = "SAFE_MODE"
mode_name SystemMode.paused = "PAUSED"

abbrev pub risk_decision_name : RiskAssessmentDecision → String
risk_decision_name RiskAssessmentDecision.approved = "APPROVED"
risk_decision_name RiskAssessmentDecision.rejected = "REJECTED"
risk_decision_name RiskAssessmentDecision.adjusted = "ADJUSTED"

abbrev pub target_name : ManualExecutionTarget → String
target_name ManualExecutionTarget.paper_trading = "PAPER_TRADING"
target_name ManualExecutionTarget.mt5_dry_run = "MT5_DRY_RUN"
target_name ManualExecutionTarget.none = "NONE"

-- the place of a timeframe in its enum, and their equality
abbrev timeframe_index : Timeframe → ℕ
timeframe_index Timeframe.m1 = 0
timeframe_index Timeframe.m5 = 1
timeframe_index Timeframe.m15 = 2
timeframe_index Timeframe.m30 = 3
timeframe_index Timeframe.h1 = 4
timeframe_index Timeframe.h4 = 5
timeframe_index Timeframe.d1 = 6

abbrev pub is_same_timeframe : Timeframe → Timeframe → Bool
is_same_timeframe a b = timeframe_index a == timeframe_index b

abbrev pub is_technical : AgentType → Bool
is_technical AgentType.technical = true
is_technical _ = false

abbrev pub is_no_direction : SignalDirection → Bool
is_no_direction SignalDirection.none = true
is_no_direction _ = false

pub is_same_timeframe_self : (t : Timeframe) → is_same_timeframe t t ≡ true
is_same_timeframe_self t = ==_self (timeframe_index t)
