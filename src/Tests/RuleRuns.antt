-- ===== src/Tests/RuleRuns.antt =====
-- The rules of the risk agent, of the supervisor and of the trend strategy at sample figures.
use trading_backend.Base.{
  find_first, ℕ, ◌≤◌, ◌<◌, ◌≡◌, refl, ◌↔◌, ◌⊎◌, true, false, none, some, [], ◌∷◌, map,
}
use trading_backend.Number.Fixed.{ℤ, fixed_number, ℤ-IsOrdered}
use trading_backend.Number.Interface.{number}
use trading_backend.Risk.{AccountState, Figures, figures, rejection_reasons, evaluate_signal}
use trading_backend.Risk.Assessed.{risk_of, size_of, ratio_of, IsAssessmentOf, IsRuled}
use trading_backend.Risk.Verdict.{
  Affordable, rejection_reasons-nil_iff, evaluate_signal_records, IsWithinProfile,
}
use trading_backend.Store.Entities.{AgentDecision, RiskAssessment, Field, SystemConfig}
use trading_backend.Store.Enums.{
  SignalDirection, AgentExecutionSource, RiskAssessmentDecision, SupervisorDecisionAction,
  SystemMode,
}
use trading_backend.Store.Text.{foreign_key}
use trading_backend.Store.World.{World, ok, err}
use trading_backend.Strategy.{
  StrategyResult, is_too_close_to_resistance, bullish_alignment, rsi_confirms_buy,
  evaluate_ema_trend,
}
use trading_backend.Strategy.Metadata.{Indicators, TechnicalMetadata, Parameters, read_indicators}
use trading_backend.Strategy.Proposals.{IsTradable, evaluate_ema_trend-buy_iff}
use trading_backend.Strategy.Shape.{IsProposal, IsNothing, evaluate_ema_trend-shape}
use trading_backend.Supervisor.Decide.{SupervisorAccountState, RuleResult, non_usd_allow, decide}
use trading_backend.Supervisor.Rules.{Clear, decide-operate_iff, decide-wait-block_iff}
use trading_backend.Tests.Sample.{config, gold, profile, pending, rising}

abbrev weighed : AccountState ℤ
weighed = record {
  balance = number 10_000;
  equity = number 10_000;
  open_trades = 0;
  daily_pnl = number 0;
}

abbrev sample_figures : Figures ℤ
sample_figures = figures (number 100) (number 98) (number 106) weighed profile

rejection_reasons-nil_iff_example :
    (rejection_reasons weighed sample_figures profile ≡ [])
    ↔ Affordable weighed sample_figures profile
rejection_reasons-nil_iff_example =
    rejection_reasons-nil_iff ℤ-IsOrdered (number 100) (number 98) (number 106) weighed profile

abbrev gold_size : ℤ
gold_size = size_of gold (number 98) weighed profile

abbrev gold_ratio : ℤ
gold_ratio = ratio_of gold (number 98) (number 106)

evaluate_signal_records_example :
    (a : RiskAssessment ℤ) × (d : AgentDecision ℤ) × (w' : World ℤ) × (evaluate_signal gold weighed
        profile AgentExecutionSource.queue pending
      ≡ (ok (a, d.id), w'))
    × (w'.risk_assessments ≡ a ∷ pending.risk_assessments)
    × (w'.agent_decisions ≡ d ∷ [])
    × IsAssessmentOf gold profile gold_size
        (risk_of weighed profile)
        gold_ratio
        AgentExecutionSource.queue
        a
        d
    × ((a.decision ≡ RiskAssessmentDecision.approved) ↔ IsWithinProfile weighed gold_ratio profile)
    × IsRuled gold a d pending w'
unfolding find_first
evaluate_signal_records_example =
    evaluate_signal_records ℤ-IsOrdered gold (number 98) (number 106) weighed profile
      AgentExecutionSource.queue pending refl refl refl refl refl refl refl refl

-- a profile with no room for a trade, and one that is not stored
evaluate_signal_runs :
    (map
        (λ d. d.confidence_score)
        (evaluate_signal gold weighed profile AgentExecutionSource.queue pending).1.agent_decisions
      ≡ 100 ∷ [])
    × (map
          (λ d. d.confidence_score)
          (evaluate_signal gold weighed
            (record profile { max_open_trades = 0 })
            AgentExecutionSource.queue
            pending).1.agent_decisions
        ≡ 0 ∷ [])
    × (evaluate_signal gold weighed (record profile { id = 99 }) AgentExecutionSource.queue pending
        ≡ (err foreign_key, pending))
unfolding evaluate_signal
evaluate_signal_runs = (refl, refl, refl)

abbrev flat : SupervisorAccountState ℤ
flat = record {
  balance = number 1000;
  equity = number 1000;
  open_trades = 0;
  daily_pnl = number 0;
  has_open_trade_for_instrument = false;
}

abbrev assisted : SystemConfig
assisted = record { mode = SystemMode.assisted_trading; kill_switch = false }

abbrev ruling_at : ℕ → RuleResult ℤ
ruling_at confidence =
    decide config confidence RiskAssessmentDecision.approved flat assisted non_usd_allow

abbrev IsClearAt : ℕ → Type 0
IsClearAt confidence =
    Clear config confidence RiskAssessmentDecision.approved flat assisted non_usd_allow

decide-operate_iff_example :
    ((ruling_at 90).decision ≡ SupervisorDecisionAction.operate) ↔ (IsClearAt 90 × (70 ≤ 90))
decide-operate_iff_example =
    decide-operate_iff config 90 RiskAssessmentDecision.approved flat assisted non_usd_allow

decide-wait-block_iff_example :
    (((ruling_at 60).decision ≡ SupervisorDecisionAction.wait) ↔ (IsClearAt 60 × (60 < 70)))
    × (((ruling_at 60).decision ≡ SupervisorDecisionAction.block) ↔ ¬ IsClearAt 60)
    × ((ruling_at 60).decision ≡ SupervisorDecisionAction.block
        → (ruling_at 60).confidence_score ≡ 0)
decide-wait-block_iff_example =
    decide-wait-block_iff config 60 RiskAssessmentDecision.approved flat assisted non_usd_allow

ruling-decisions :
    ((ruling_at 90).decision ≡ SupervisorDecisionAction.operate)
    × ((ruling_at 60).decision ≡ SupervisorDecisionAction.wait)
    × ((ruling_at 40).decision ≡ SupervisorDecisionAction.block)
unfolding decide
ruling-decisions = (refl, refl, refl)

abbrev falling : TechnicalMetadata ℤ
falling = record rising {
  ema20 = Field.num (number 101);
  ema200 = Field.num (number 103);
  rsi14 = Field.num (number 40);
}

abbrev defaults : Parameters ℤ
defaults = record {
  rsi_buy_min = none;
  rsi_buy_max = none;
  rsi_sell_min = none;
  rsi_sell_max = none;
  atr_stable_max_percent_of_price = none;
  trend_consistency_candles = none;
  block_ranging_market = none;
  block_mtf_conflict = none;
}

abbrev trend_of : TechnicalMetadata ℤ → StrategyResult ℤ
trend_of m = evaluate_ema_trend config defaults m (number 104) []

trend-directions :
    ((trend_of rising).direction ≡ SignalDirection.buy)
    × ((trend_of rising).confidence ≡ 95)
    × ((trend_of falling).direction ≡ SignalDirection.sell)
unfolding evaluate_ema_trend
trend-directions = (refl, refl, refl)

evaluate_ema_trend-buy_iff_example : ((trend_of rising).direction ≡ SignalDirection.buy) ↔ (
    IsTradable config defaults rising
    × ((i : Indicators ℤ) × (read_indicators rising ≡ some i)
        × (bullish_alignment i ≡ true)
        × (rsi_confirms_buy i defaults ≡ true)
        × (is_too_close_to_resistance rising (number 104) ≡ false)))
evaluate_ema_trend-buy_iff_example =
    evaluate_ema_trend-buy_iff config defaults rising (number 104) []

evaluate_ema_trend-shape_example :
    ((i : Indicators ℤ) × (read_indicators rising ≡ some i)
      × IsProposal config i (number 104) (trend_of rising))
    ⊎ IsNothing (trend_of rising)
evaluate_ema_trend-shape_example = evaluate_ema_trend-shape config defaults rising (number 104) []
