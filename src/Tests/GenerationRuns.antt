-- ===== src/Tests/GenerationRuns.antt =====
-- Signal generation from a technical decision on gold in a rising market.
use trading_backend.Base.{find_first, find_many, ℕ, ◌≡◌, refl, none, some, [], ◌∷◌}
use trading_backend.Generation.{
  TechnicalDecision, Catalog, GenerateSignalInput, GenerateSignalOutput, latest_candles, signal_row,
  generate,
}
use trading_backend.Generation.Once.{IsSignalRow, generate_created, generate_once}
use trading_backend.Generation.Source.{IsDecision, IsEligible, with_signal, IsProposed}
use trading_backend.Number.Fixed.{ℤ, fixed_number}
use trading_backend.Number.Interface.{number}
use trading_backend.Signals.{create}
use trading_backend.Store.Entities.{Instrument, Signal, MarketCandle}
use trading_backend.Store.Enums.{Timeframe, AgentType}
use trading_backend.Store.World.{ok}
use trading_backend.Strategy.{StrategyResult, buy_result}
use trading_backend.Strategy.Engine.{evaluate_active_strategies}
use trading_backend.Strategy.Trend.{sort_candles}
use trading_backend.Tests.Sample.{config, rising, market, trend_strategy}

abbrev advice : TechnicalDecision ℤ
advice = record {
  id = 30;
  agent_type = AgentType.technical;
  instrument_id = 20;
  confidence_score = 80;
  timeframe = some Timeframe.h1;
  technical_bias = some "BULLISH";
  metadata = rising;
}

abbrev catalog : Catalog ℤ
catalog = record { decisions = advice ∷ []; strategies = trend_strategy ∷ [] }

abbrev request : GenerateSignalInput
request = record {
  agent_decision_id = none;
  instrument_id = some 20;
  timeframe = some Timeframe.h1;
}

abbrev bullish : StrategyResult ℤ
bullish =
    buy_result config
      (record {
        ema20 = number 103;
        ema50 = number 102;
        ema200 = number 101;
        rsi14 = number 60;
        atr14 = number 1;
      })
      (number 104) 100

abbrev bought : Signal ℤ
bought = signal_row 20 Timeframe.h1 3000 (40, bullish) market.next_id

generate-creates :
    (generate config catalog request market).0
    ≡ ok (GenerateSignalOutput.created bought bullish.reason)
unfolding generate evaluate_active_strategies create sort_candles latest_candles find_first
    find_many
generate-creates = refl

generate_once_example :
    generate config catalog request (generate config catalog request market).1 ≡ (
      ok (GenerateSignalOutput.skipped_duplicate bought),
      (generate config catalog request market).1,
    )
generate_once_example = generate_once config catalog request market generate-creates

generate_created_example :
    (d : TechnicalDecision ℤ) × (t : Timeframe) × (i : Instrument) × (c : MarketCandle ℤ) × (p : ℕ
      × StrategyResult ℤ)
    × IsDecision catalog request d t
    × IsEligible config d t i c market
    × IsProposed config catalog d t c market bought bullish.reason p
    × IsSignalRow d.instrument_id t c.timestamp p market.next_id bought
    × ((generate config catalog request market).1 ≡ with_signal bought d.instrument_id t market)
generate_created_example = generate_created config catalog request market generate-creates
