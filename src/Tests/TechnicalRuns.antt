-- ===== src/Tests/TechnicalRuns.antt =====
-- An analysis of three candles of gold, and the signal that follows from it.
use trading_backend.Base.{find_first, find_many, take, ◌≡◌, refl, ◌⊎◌, none, some, [], ◌∷◌, arith}
use trading_backend.Generation.{TechnicalDecision, sort_latest}
use trading_backend.Number.Fixed.{ℤ, fixed_number}
use trading_backend.Store.Entities.{Instrument, AgentDecision}
use trading_backend.Store.Enums.{Timeframe, AgentDecisionAction}
use trading_backend.Store.Text.{say, Exception}
use trading_backend.Store.World.{ok, err}
use trading_backend.Technical.{
  AnalyzeCandles, TechnicalResult, TechnicalEnv, AnalyzeInput, AnalyzeOutput, AnalysisStore,
  request_of, record_analysis, prepare_analysis, technical_analyze,
}
use trading_backend.Technical.Decided.{IsDecisionOf, with_decision}
use trading_backend.Technical.Handover.{IsHandedOver, approved-generates}
use trading_backend.Technical.Outcome.{IsPrepared, IsFairRequest, technical_analyze_outcome}
use trading_backend.Tests.Sample.{config, rising, market, trend_strategy}

abbrev analysed : TechnicalResult ℤ
analysed = record {
  timeframe = Timeframe.h1;
  technical_bias = "BULLISH";
  confidence_score = 80;
  reasoning = say "Trend is up" ∷ [];
  metadata = rising;
}

abbrev technical_env : TechnicalEnv ℤ
technical_env = record {
  min_candles = some 3;
  default_limit = none;
  enable_multi_timeframe = none;
  confirmation_timeframes = none;
  analyze = λ request. ok (record analysed { timeframe = request.timeframe });
}

abbrev analyze_input : AnalyzeInput
analyze_input = record {
  instrument_id = 20;
  timeframe = some Timeframe.h1;
  primary_timeframe = none;
  confirmation_timeframes = none;
  limit = none;
  execution_source = none;
}

abbrev analysis_store : AnalysisStore ℤ
analysis_store = record {
  world = market;
  catalog = record { decisions = []; strategies = trend_strategy ∷ [] };
}

abbrev analysis_output : AnalyzeOutput ℤ
analysis_output = record {
  result = analysed;
  agent_decision_id = market.next_id;
  decision = AgentDecisionAction.approve;
}

technical_analyze-approves :
    (technical_analyze technical_env analyze_input analysis_store).0 ≡ ok analysis_output
unfolding technical_analyze prepare_analysis record_analysis request_of find_many sort_latest take
    find_first
technical_analyze-approves = refl

technical_analyze_outcome_example :
    let env = technical_env in
    let s = analysis_store in
    ((e : Exception ℤ) × (technical_analyze env analyze_input s ≡ (err e, s)))
    ⊎ ((t : Timeframe) × (i : Instrument) × (request : AnalyzeCandles ℤ) × (r : TechnicalResult ℤ)
        × (d : AgentDecision ℤ) × (m : TechnicalDecision ℤ) × (out : AnalyzeOutput ℤ) × IsPrepared
            env analyze_input s.world t i
        × IsFairRequest env analyze_input t i request
        × (env.analyze request ≡ ok r)
        × IsDecisionOf analyze_input r s.world.next_id d m out
        × (technical_analyze env analyze_input s ≡ (ok out, with_decision 20 t i.symbol d m s)))
technical_analyze_outcome_example =
    technical_analyze_outcome technical_env analyze_input analysis_store

approved-generates_example :
    IsHandedOver config analyze_input market analysis_output
      (technical_analyze technical_env analyze_input analysis_store).1
approved-generates_example =
    approved-generates technical_env analyze_input analysis_store (λ request r h. ground (arith, h))
      (omega arith) technical_analyze-approves refl config (omega arith)
