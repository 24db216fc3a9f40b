-- ===== src/Technical.antt =====
-- agents/application/technical-analyze.use-case.ts over its Prisma repositories: the candles of a
-- market go to the analysis worker, and its answer becomes a TECHNICAL decision.
pub mod Decided
pub mod Gates
pub mod Handover
pub mod Outcome
pub mod Processor
use trading_backend.Base.{
  leb, ◌==◌, if◌then◌else◌, or_default, or_else, length, find_first, find_many, take, ℕ, suc,
  String, Bool, true, false, not, ◌&&◌, Option, none, some, List, [], ◌∷◌, str_eq,
}
use trading_backend.Generation.{TechnicalDecision, Catalog, sort_latest}
use trading_backend.Number.Interface.{Number}
use trading_backend.Store.Entities.{AgentDecision, MarketCandle}
use trading_backend.Store.Enums.{
  Timeframe, AgentType, AgentDecisionAction, AgentExecutionSource, is_same_timeframe,
}
use trading_backend.Store.Events.{technical_analysis_completed}
use trading_backend.Store.Text.{Text, say, join, text, count, bad_request, not_found}
use trading_backend.Store.World.{
  World, Result, StateAction, ◌>>=◌, ◌>>◌, pure, throw_unless, gets, or_throw, lift, ok,
}
use trading_backend.Strategy.Metadata.{TechnicalMetadata}
use trading_backend.Strategy.Trend.{sort_candles}

-- `AnalyzeCandlesParams`; `timeframes` are the entries of its object
pub record AnalyzeCandles (W : Type 0) : Type 0 where
  pub symbol : String
  pub timeframe : Timeframe
  pub candles : List (MarketCandle W)
  pub timeframes : List (Timeframe × List (MarketCandle W))

-- `TechnicalAnalysisResult`, with what is read of its JSON when it is the metadata of a decision
pub record TechnicalResult (W : Type 0) : Type 0 where
  pub timeframe : Timeframe
  pub technical_bias : String
  pub confidence_score : ℕ
  pub reasoning : List (Text W)
  pub metadata : TechnicalMetadata W

-- The settings of the technical agent and `TechnicalAnalysisProvider`, a client of the worker.
pub record TechnicalEnv (W : Type 0) : Type 0 where
  pub min_candles : Option ℕ
  pub default_limit : Option ℕ
  pub enable_multi_timeframe : Option Bool
  pub confirmation_timeframes : Option (List Timeframe)
  pub analyze : AnalyzeCandles W → Result W (TechnicalResult W)

pub record AnalyzeInput : Type 0 where
  pub instrument_id : ℕ
  pub timeframe : Option Timeframe
  pub primary_timeframe : Option Timeframe
  pub confirmation_timeframes : Option (List Timeframe)
  pub limit : Option ℕ
  pub execution_source : Option AgentExecutionSource

pub record AnalyzeOutput (W : Type 0) : Type 0 where
  pub result : TechnicalResult W
  pub agent_decision_id : ℕ
  pub decision : AgentDecisionAction

-- The state, and the decisions with the metadata that signal generation reads.
pub record AnalysisStore (W : Type 0) : Type 0 where
  pub world : World W
  pub catalog : Catalog W

abbrev pub AnalysisAction : Type 0 → Type 0 → Type 0
AnalysisAction W A = StateAction (AnalysisStore W) W A

-- `primaryTimeframe` and the request to the worker
pub record Prepared (W : Type 0) : Type 0 where
  pub primary : Timeframe
  pub request : AnalyzeCandles W

-- `[...new Set(candidates)].filter((timeframe) => timeframe !== primaryTimeframe)`
is_in : Timeframe → List Timeframe → Bool
is_in t [] = false
is_in t (u ∷ us) = if is_same_timeframe t u then true else is_in t us

unfoldable pub others : Timeframe → List Timeframe → List Timeframe → List Timeframe
unfolding is_in
others primary seen [] = []
others primary seen (t ∷ ts) =
    let rest = others primary (t ∷ seen) ts in
    if is_in t seen then rest else if is_same_timeframe t primary then rest else t ∷ rest

module _ {W : Type 0} where
  -- `toDecisionAction`
  abbrev pub to_decision_action : TechnicalResult W → AgentDecisionAction
  to_decision_action r =
      if leb 70 r.confidence_score && not (str_eq r.technical_bias "NEUTRAL")
      then AgentDecisionAction.approve
      else if leb 40 r.confidence_score && leb r.confidence_score 69
      then AgentDecisionAction.wait
      else AgentDecisionAction.reject

  -- `resolveConfirmationTimeframes`
  abbrev pub resolve_confirmation_timeframes :
      TechnicalEnv W → Timeframe → Option (List Timeframe) → List Timeframe
  resolve_confirmation_timeframes env primary requested =
      if or_default env.enable_multi_timeframe true
      then others primary [] (
          or_default requested
            (or_default env.confirmation_timeframes (Timeframe.h1 ∷ Timeframe.h4 ∷ [])))
      else []

  -- `findMany` of the candles of a market, the latest first
  abbrev pub recent_candles : ℕ → Timeframe → ℕ → World W → List (MarketCandle W)
  recent_candles instrument_id timeframe limit w = take limit (
      sort_latest (
        find_many (λ c. c.instrument_id == instrument_id && is_same_timeframe timeframe c.timeframe)
          w.candles))

module _ {W : Type 0} ⦃n : Number W⦄ where
  -- the entries that the loop adds for the timeframes that have enough candles
  unfoldable pub confirmations :
      (Timeframe → List (MarketCandle W))
      → ℕ
      → List Timeframe
      → List (Timeframe × List (MarketCandle W))
  unfolding sort_candles
  confirmations candles_of min_candles [] = []
  confirmations candles_of min_candles (t ∷ ts) =
      let rest = confirmations candles_of min_candles ts in
      if leb min_candles (length (candles_of t))
      then (t, sort_candles (candles_of t)) ∷ rest
      else rest

  -- the request to the worker
  unfoldable pub request_of :
      TechnicalEnv W → AnalyzeInput → Timeframe → String → ℕ → ℕ → World W → AnalyzeCandles W
  unfolding sort_candles take find_many confirmations others sort_latest
  request_of env input primary symbol min_candles limit w =
      let candles = sort_candles (recent_candles input.instrument_id primary limit w) in
      record {
        symbol = symbol;
        timeframe = primary;
        candles = candles;
        timeframes =
            (primary, candles)
            ∷ confirmations (λ t. recent_candles input.instrument_id t limit w) min_candles
                (resolve_confirmation_timeframes env primary input.confirmation_timeframes);
      }

  -- the row that `create` writes: its columns, and its columns with the metadata
  abbrev pub decision_columns : AnalyzeInput → TechnicalResult W → ℕ → AgentDecision W
  decision_columns input r id = record {
    id = id;
    agent_type = AgentType.technical;
    instrument_id = input.instrument_id;
    signal_id = none;
    decision = to_decision_action r;
    execution_source = or_default input.execution_source AgentExecutionSource.manual;
    confidence_score = r.confidence_score;
    reasoning = join "\n" r.reasoning;
    position_size = none;
  }

  abbrev pub decision_metadata : AnalyzeInput → TechnicalResult W → ℕ → TechnicalDecision W
  decision_metadata input r id = record {
    id = id;
    agent_type = AgentType.technical;
    instrument_id = input.instrument_id;
    confidence_score = r.confidence_score;
    timeframe = some r.timeframe;
    technical_bias = some r.technical_bias;
    metadata = r.metadata;
  }

  -- the decision and its event
  unfoldable pub record_analysis :
      AnalyzeInput → Timeframe → String → TechnicalResult W → AnalysisAction W (AnalyzeOutput W)
  record_analysis input primary symbol r s =
      let id = s.world.next_id in
      (
        ok (record { result = r; agent_decision_id = id; decision = to_decision_action r }),
        record {
          world = record s.world {
            next_id = suc id;
            agent_decisions = decision_columns input r id ∷ s.world.agent_decisions;
            events =
                technical_analysis_completed id input.instrument_id primary symbol ∷ s.world.events;
          };
          catalog = record s.catalog {
            decisions = decision_metadata input r id ∷ s.catalog.decisions;
          };
        },
      )

  -- `execute` up to its call of the worker
  unfoldable pub prepare_analysis : TechnicalEnv W → AnalyzeInput → AnalysisAction W (Prepared W)
  unfolding find_first request_of take find_many sort_latest
  prepare_analysis env input = do
    let min_candles = or_default env.min_candles 200
    let limit = or_default input.limit (or_default env.default_limit 1000)
    primary ←
        or_throw (or_else input.primary_timeframe input.timeframe)
          (bad_request (say "timeframe or primaryTimeframe is required"))
    throw_unless (leb min_candles limit)
        (bad_request (text "At least " ∷ count min_candles ∷ text " candles are required" ∷ []))
    row ← gets λ s. find_first (λ i. i.id == input.instrument_id) s.world.instruments
    instrument ← or_throw row (not_found (say "Instrument not found"))
    throw_unless instrument.is_active (bad_request (say "Instrument is inactive"))
    found ← gets λ s. length (recent_candles input.instrument_id primary limit s.world)
    throw_unless (leb min_candles found) (
        bad_request (
          text "Not enough candles. Required "
          ∷ count min_candles
          ∷ text ", found "
          ∷ count found
          ∷ []))
    request ← gets λ s. request_of env input primary instrument.symbol min_candles limit s.world
    pure (record { primary = primary; request = request })

  -- `execute`
  unfoldable pub technical_analyze :
      TechnicalEnv W → AnalyzeInput → AnalysisAction W (AnalyzeOutput W)
  unfolding prepare_analysis record_analysis
  technical_analyze env input = do
    p ← prepare_analysis env input
    result ← lift (env.analyze p.request)
    record_analysis input p.primary p.request.symbol result
