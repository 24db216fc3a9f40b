-- ===== src/Generation.antt =====
-- strategies/application/signal-generation.service.ts and its queue's processor: from a technical
-- decision to a trading signal.
pub mod Once
pub mod Source
use trading_backend.Base.{
  ltb, leb, ◌==◌, if◌then◌else◌, or_default, or_else, some_and, map_some, find_first, head_of,
  find_many, take, ℕ, String, Bool, true, false, ◌&&◌, Option, none, some, List, [], ◌∷◌, str_eq,
}
use trading_backend.Number.Interface.{Number}
use trading_backend.Signals.{find_by_candle_key, create}
use trading_backend.Store.Entities.{Signal, MarketCandle}
use trading_backend.Store.Enums.{
  Timeframe, SignalStatus, AgentType, is_same_timeframe, is_technical, is_no_direction,
}
use trading_backend.Store.Queue.{JobOutcome, finish_job}
use trading_backend.Store.Text.{Text, say, Exception, text, count, bad_request, not_found}
use trading_backend.Store.World.{
  World, Result, Config, Action, ◌>>=◌, ◌>>◌, pure, throw_unless, gets, or_throw, lift, ok, err,
}
use trading_backend.Strategy.{StrategyResult}
use trading_backend.Strategy.Engine.{StoredStrategy, evaluate_active_strategies}
use trading_backend.Strategy.Metadata.{TechnicalMetadata}
use trading_backend.Strategy.Trend.{sort_candles}

-- A row of `agent_decisions` as signal generation reads it: its columns and its JSON `metadata`.
pub record TechnicalDecision (W : Type 0) : Type 0 where
  pub id : ℕ
  pub agent_type : AgentType
  pub instrument_id : ℕ
  pub confidence_score : ℕ
  pub timeframe : Option Timeframe
  pub technical_bias : Option String
  pub metadata : TechnicalMetadata W

-- The tables that signal generation only reads, besides those of the state: decisions, the newest
-- first, and strategies, the oldest first.
pub record Catalog (W : Type 0) : Type 0 where
  pub decisions : List (TechnicalDecision W)
  pub strategies : List (StoredStrategy W)

pub record GenerateSignalInput : Type 0 where
  pub agent_decision_id : Option ℕ
  pub instrument_id : Option ℕ
  pub timeframe : Option Timeframe

-- CREATED, NO_SIGNAL and SKIPPED_DUPLICATE
pub data GenerateSignalOutput (W : Type 0) : Type 0 where
  created : Signal W → Text W → GenerateSignalOutput W
  no_signal : Text W → GenerateSignalOutput W
  skipped_duplicate : Signal W → GenerateSignalOutput W

module _ {W : Type 0} where
  abbrev pub is_latest_of : ℕ → Timeframe → TechnicalDecision W → Bool
  is_latest_of instrument_id timeframe d =
      is_technical d.agent_type
      && d.instrument_id == instrument_id
      && some_and (is_same_timeframe timeframe) d.timeframe

  -- `findById`, or `findLatestDecision`
  unfoldable pub find_decision :
      Catalog W → GenerateSignalInput → Result W (Option (TechnicalDecision W))
  unfolding find_first
  find_decision catalog input = elim input.agent_decision_id [
    | some id ↦ ok (find_first (λ d. d.id == id) catalog.decisions)
    | none ↦ elim input.instrument_id [
      | none ↦ err (
          bad_request
            (say "instrumentId and timeframe are required when agentDecisionId is not provided"))
      | some i ↦ elim input.timeframe [
        | none ↦ err (
            bad_request
              (say "instrumentId and timeframe are required when agentDecisionId is not provided"))
        | some t ↦ ok (find_first (is_latest_of i t) catalog.decisions)
      ]
    ]
  ]

  -- `orderBy: timestamp desc`
  unfoldable pub insert_latest : MarketCandle W → List (MarketCandle W) → List (MarketCandle W)
  insert_latest c [] = c ∷ []
  insert_latest c (d ∷ ds) =
      if leb d.timestamp c.timestamp then c ∷ d ∷ ds else d ∷ insert_latest c ds

  unfoldable pub sort_latest : List (MarketCandle W) → List (MarketCandle W)
  unfolding insert_latest
  sort_latest [] = []
  sort_latest (c ∷ cs) = insert_latest c (sort_latest cs)

  -- the last 20 candles of an instrument and a timeframe, the latest first
  unfoldable pub latest_candles : ℕ → Timeframe → World W → List (MarketCandle W)
  unfolding find_many sort_latest take
  latest_candles instrument_id timeframe w = take 20 (
      sort_latest (
        find_many (λ c. c.instrument_id == instrument_id && is_same_timeframe timeframe c.timeframe)
          w.candles))

module _ {W : Type 0} ⦃n : Number W⦄ where
  open n use {column}

  -- the row that `create` writes
  abbrev pub signal_row : ℕ → Timeframe → ℕ → ℕ × StrategyResult W → ℕ → Signal W
  signal_row instrument_id timeframe timestamp (strategy_id, r) id = record {
    id = id;
    instrument_id = instrument_id;
    strategy_id = some strategy_id;
    timeframe = some timeframe;
    direction = r.direction;
    entry_price = column 8 r.entry_price;
    stop_loss = map_some (column 8) r.stop_loss;
    take_profit = map_some (column 8) r.take_profit;
    confidence_score = r.confidence;
    status = SignalStatus.created;
    candle_timestamp = some timestamp;
  }

  -- the reason when no strategy has a signal: that of the first result
  abbrev pub reason_of : List (ℕ × StrategyResult W) → Text W
  reason_of [] = say "No active strategy generated a signal"
  reason_of (r ∷ rs) = r.1.reason

  -- `generate` from its call of the strategy engine
  unfoldable pub create_from :
      ℕ → Timeframe → ℕ → List (ℕ × StrategyResult W) → Action W (GenerateSignalOutput W)
  unfolding find_first create
  create_from instrument_id timeframe timestamp results =
      elim (find_first (λ r. r.1.should_create_signal) results) [
        | none ↦ pure (GenerateSignalOutput.no_signal (reason_of results))
        | some r ↦
            if is_no_direction r.1.direction
            then pure (GenerateSignalOutput.no_signal (reason_of results))
            else create instrument_id timeframe timestamp
                (signal_row instrument_id timeframe timestamp r)
              >>= λ s. pure (GenerateSignalOutput.created s r.1.reason)
      ]

  -- `generate` from its look for a signal of the latest candle
  unfoldable pub generate_for :
      Config W
      → Catalog W
      → TechnicalDecision W
      → Timeframe
      → List (MarketCandle W)
      → MarketCandle W
      → Action W (GenerateSignalOutput W)
  unfolding create_from evaluate_active_strategies find_first sort_candles
  generate_for config catalog d timeframe candles latest w =
      elim (find_by_candle_key d.instrument_id timeframe latest.timestamp w) [
        | some s ↦ (ok (GenerateSignalOutput.skipped_duplicate s), w)
        | none ↦
            create_from d.instrument_id timeframe latest.timestamp
              (evaluate_active_strategies config
                (record {
                  technical_analysis = d.metadata;
                  latest_candle = latest;
                  candles = sort_candles candles;
                })
                catalog.strategies)
              w
      ]

  -- the two tests that end in NO_SIGNAL, then the instrument and its candles
  unfoldable pub generate_from :
      Config W → Catalog W → TechnicalDecision W → Timeframe → Action W (GenerateSignalOutput W)
  unfolding generate_for latest_candles find_first
  generate_from config catalog d timeframe =
      let min_confidence = or_default config.signals_min_confidence 50 in
      if ltb d.confidence_score min_confidence
      then pure (
          GenerateSignalOutput.no_signal (
            text "Technical confidence "
            ∷ count d.confidence_score
            ∷ text " < "
            ∷ count min_confidence
            ∷ []))
      else if some_and (λ b. str_eq b "NEUTRAL") d.technical_bias
      then pure (GenerateSignalOutput.no_signal (say "Technical bias is NEUTRAL"))
      else do
        row ← gets λ w. find_first (λ i. i.id == d.instrument_id) w.instruments
        instrument ← or_throw row (not_found (say "Instrument not found"))
        candles ← gets (latest_candles d.instrument_id timeframe)
        latest ←
            or_throw (head_of candles) (bad_request (say "No candles found for signal generation"))
        generate_for config catalog d timeframe candles latest

  -- `generate`
  unfoldable pub generate :
      Config W → Catalog W → GenerateSignalInput → Action W (GenerateSignalOutput W)
  unfolding find_decision generate_from
  generate config catalog input = do
    found ← lift (find_decision catalog input)
    d ← or_throw found (not_found (say "Technical analysis decision not found"))
    throw_unless (is_technical d.agent_type)
        (bad_request (say "Signal generation requires a TECHNICAL agent decision"))
    timeframe ←
        or_throw (or_else input.timeframe d.timeframe)
          (bad_request (say "Technical analysis timeframe is missing"))
    generate_from config catalog d timeframe

-- `retryable`
abbrev pub is_retryable : {W : Type 0} → Exception W → Bool
is_retryable (bad_request t) = false
is_retryable (not_found t) = false
is_retryable _ = true

module _ {W : Type 0} ⦃n : Number W⦄ where
  -- `SignalGenerationProcessor.process`, of a job's name and agent decision
  unfoldable pub process :
      Config W → Catalog W → String → ℕ → World W → JobOutcome W (GenerateSignalOutput W) × World W
  unfolding generate
  process config catalog name id w =
      if str_eq name "signal.generate"
      then (let (r, w') =
            generate config catalog
              (record { agent_decision_id = some id; instrument_id = none; timeframe = none }) w in
          finish_job "signal-generation" (say "Signal generation job completed") is_retryable r w')
      else (JobOutcome.ignored, w)
