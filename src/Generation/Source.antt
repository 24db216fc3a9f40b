-- ===== src/Generation/Source.antt =====
-- Where a created signal comes from, and the state that its creation leaves.
use trading_backend.Base.{
  ltb, ◌==◌, Bool-cases, Option-cases, or_default, or_else, some_and, find_first, head_of, ℕ, suc,
  ◌≡◌, refl, sym, ap, ◌∙◌, inl, inr, true, false, none, some, List, ◌∷◌, arith, str_eq,
}
use trading_backend.Generation.{
  TechnicalDecision, Catalog, GenerateSignalInput, GenerateSignalOutput, find_decision,
  latest_candles, signal_row, create_from, generate_for, generate_from, generate,
}
use trading_backend.Number.Interface.{Number}
use trading_backend.Signals.{find_by_candle_key, create}
use trading_backend.Store.Actions.{>>=_eq}
use trading_backend.Store.Entities.{Instrument, Signal, MarketCandle}
use trading_backend.Store.Enums.{Timeframe, is_technical, is_no_direction}
use trading_backend.Store.Events.{signal_created}
use trading_backend.Store.Text.{Text}
use trading_backend.Store.World.{World, Result, Config, pure, Result-cases, ok}
use trading_backend.Strategy.{StrategyResult}
use trading_backend.Strategy.Engine.{evaluate_active_strategies}
use trading_backend.Strategy.Trend.{sort_candles}

module _ {W : Type 0} ⦃n : Number W⦄ where
  -- what `generate` reads from its input and the tables of decisions
  abbrev pub IsDecision : Catalog W → GenerateSignalInput → TechnicalDecision W → Timeframe → Type 0
  IsDecision catalog input d t =
      (find_decision catalog input ≡ ok (some d))
      × (is_technical d.agent_type ≡ true)
      × (or_else input.timeframe d.timeframe ≡ some t)

  pub generate-IsDecision :
      (config : Config W) (catalog : Catalog W) (input : GenerateSignalInput) (w : World W)
      {out : GenerateSignalOutput W}
      → (generate config catalog input w).0 ≡ ok out
      → (d : TechnicalDecision W) × (t : Timeframe) × IsDecision catalog input d t
  unfolding generate
  generate-IsDecision config catalog input w h = elim (Result-cases (find_decision catalog input)) [
    | inr (x, e) ↦ absurd (ground arith)
    | inl (found, e) ↦ elim (Option-cases found) [
      | inl e1 ↦ absurd (ground arith)
      | inr (d, e1) ↦ elim (Bool-cases (is_technical d.agent_type)) [
        | inr q ↦ absurd (ground arith)
        | inl q ↦ elim (Option-cases (or_else input.timeframe d.timeframe)) [
          | inl e2 ↦ absurd (ground arith)
          | inr (t, e2) ↦ (d, t, (e ∙ ap ok e1, q, e2))
        ]
      ]
    ]
  ]

  pub generate-read :
      (config : Config W) (catalog : Catalog W) (input : GenerateSignalInput) (w : World W)
      (d : TechnicalDecision W) (t : Timeframe)
      → IsDecision catalog input d t
      → generate config catalog input w ≡ generate_from config catalog d t w
  unfolding generate
  generate-read config catalog input w d t (e, q, e1) = rw (generate, e, q, e1) refl

  -- the decision is good enough, and its instrument has candles
  abbrev pub IsEligible :
      Config W → TechnicalDecision W → Timeframe → Instrument → MarketCandle W → World W → Type 0
  IsEligible config d t i c w =
      (ltb d.confidence_score (or_default config.signals_min_confidence 50) ≡ false)
      × (some_and (λ b. str_eq b "NEUTRAL") d.technical_bias ≡ false)
      × (find_first (λ i. i.id == d.instrument_id) w.instruments ≡ some i)
      × (head_of (latest_candles d.instrument_id t w) ≡ some c)

  pub generate_from-IsEligible :
      (config : Config W) (catalog : Catalog W) (d : TechnicalDecision W) (t : Timeframe)
      (w : World W) {s : Signal W} {r : Text W}
      → (generate_from config catalog d t w).0 ≡ ok (GenerateSignalOutput.created s r)
      → (i : Instrument) × (c : MarketCandle W) × IsEligible config d t i c w
  unfolding generate_from
  generate_from-IsEligible config catalog d t w h =
      elim (Bool-cases (ltb d.confidence_score (or_default config.signals_min_confidence 50))) [
        | inl e ↦ absurd (ground arith)
        | inr e ↦ elim (Bool-cases (some_and (λ b. str_eq b "NEUTRAL") d.technical_bias)) [
          | inl e1 ↦ absurd (ground arith)
          | inr e1 ↦ elim (Option-cases (find_first (λ i. i.id == d.instrument_id) w.instruments)) [
            | inl e2 ↦ absurd (ground arith)
            | inr (i, e2) ↦ elim (Option-cases (head_of (latest_candles d.instrument_id t w))) [
              | inl e3 ↦ absurd (ground arith)
              | inr (c, e3) ↦ (i, c, (e, e1, e2, e3))
            ]
          ]
        ]
      ]

  pub generate_from-read :
      (config : Config W) (catalog : Catalog W) (d : TechnicalDecision W) (t : Timeframe)
      (i : Instrument) (c : MarketCandle W) (w : World W)
      → IsEligible config d t i c w
      → generate_from config catalog d t w
        ≡ generate_for config catalog d t (latest_candles d.instrument_id t w) c w
  unfolding generate_from
  generate_from-read config catalog d t i c w (e, e1, e2, e3) =
      rw (generate_from, e, e1, e2, e3) refl

  -- the results of the active strategies
  abbrev pub results_for :
      Config W
      → Catalog W
      → TechnicalDecision W
      → Timeframe
      → MarketCandle W
      → World W
      → List (ℕ × StrategyResult W)
  results_for config catalog d t c w =
      evaluate_active_strategies config
        (record {
          technical_analysis = d.metadata;
          latest_candle = c;
          candles = sort_candles (latest_candles d.instrument_id t w);
        })
        catalog.strategies

  -- the state with the new signal
  abbrev pub with_signal : Signal W → ℕ → Timeframe → World W → World W
  with_signal s i t w = record w {
    next_id = suc w.next_id;
    signals = s ∷ w.signals;
    events = signal_created w.next_id i (some t) ∷ w.events;
  }

  pub create-new :
      (i : ℕ) (t : Timeframe) (timestamp : ℕ) (row : ℕ → Signal W) (w : World W)
      → find_by_candle_key i t timestamp w ≡ none
      → create i t timestamp row w ≡ (ok (row w.next_id), with_signal (row w.next_id) i t w)
  unfolding create
  create-new i t timestamp row w e = ground arith

  abbrev pub IsProposed :
      Config W
      → Catalog W
      → TechnicalDecision W
      → Timeframe
      → MarketCandle W
      → World W
      → Signal W
      → Text W
      → ℕ × StrategyResult W
      → Type 0
  IsProposed config catalog d t c w s reason p =
      (find_by_candle_key d.instrument_id t c.timestamp w ≡ none)
      × (find_first (λ r. r.1.should_create_signal) (results_for config catalog d t c w) ≡ some p)
      × (is_no_direction p.1.direction ≡ false)
      × (s ≡ signal_row d.instrument_id t c.timestamp p w.next_id)
      × (reason ≡ p.1.reason)

  pub generate_for-IsProposed :
      (config : Config W) (catalog : Catalog W) (d : TechnicalDecision W) (t : Timeframe)
      (c : MarketCandle W) (w : World W) {s : Signal W} {r : Text W}
      → (generate_for config catalog d t (latest_candles d.instrument_id t w) c w).0
        ≡ ok (GenerateSignalOutput.created s r)
      → (p : ℕ × StrategyResult W) × IsProposed config catalog d t c w s r p
        × ((generate_for config catalog d t (latest_candles d.instrument_id t w) c w).1
            ≡ with_signal s d.instrument_id t w)
  unfolding generate_for create_from create
  generate_for-IsProposed config catalog d t c w {s} {r} h =
      elim (Option-cases (find_by_candle_key d.instrument_id t c.timestamp w)) [
        | inr (x, e) ↦ absurd (ground arith)
        | inl e ↦
            elim (Option-cases
              (find_first (λ r. r.1.should_create_signal) (results_for config catalog d t c w))) [
                | inl e1 ↦ absurd (ground arith)
                | inr (p, e1) ↦ elim (Bool-cases (is_no_direction p.1.direction)) [
                  | inl q ↦ absurd (ground arith)
                  | inr q ↦
                      let row = signal_row d.instrument_id t c.timestamp p w.next_id in
                      let out : (generate_for config catalog d t
                            (latest_candles d.instrument_id t w) c w)
                          ≡ (
                            ok (GenerateSignalOutput.created row p.1.reason),
                            with_signal row d.instrument_id t w,
                          ) =
                        rw (generate_for, e, create_from, e1, q)
                          (>>=_eq
                            (create d.instrument_id t c.timestamp
                              (signal_row d.instrument_id t c.timestamp p))
                            (λ s. pure (GenerateSignalOutput.created s p.1.reason))
                            (create-new d.instrument_id t c.timestamp
                              (signal_row d.instrument_id t c.timestamp p) w e)) in
                      let v : ok (GenerateSignalOutput.created row p.1.reason)
                          ≡ ok (GenerateSignalOutput.created s r) =
                        ap (λ (out : Result W (GenerateSignalOutput W) × World W). out.0) (sym out)
                        ∙ h in
                      let same : s ≡ row = ground arith in
                      let why : r ≡ p.1.reason = ground arith in
                      (
                        p,
                        (e, e1, q, same, why),
                        ap (λ (out : Result W (GenerateSignalOutput W) × World W). out.1) out
                            ∙ ap (λ z. with_signal z d.instrument_id t w) (sym same),
                      )
                ]
              ]
      ]
