-- ===== src/Generation/Once.antt =====
-- A candle gives at most one signal: what creates one is skipped when it is asked again.
use trading_backend.Base.{
  ==_self, map_some, find_first, ℕ, ◌≡◌, refl, sym, ap, subst, ◌∙◌, true, some, arith,
}
use trading_backend.Generation.{
  TechnicalDecision, Catalog, GenerateSignalInput, GenerateSignalOutput, latest_candles, signal_row,
  generate_for, generate,
}
use trading_backend.Generation.Source.{
  IsDecision, generate-IsDecision, generate-read, IsEligible, generate_from-IsEligible,
  generate_from-read, with_signal, IsProposed, generate_for-IsProposed,
}
use trading_backend.Number.Interface.{Number}
use trading_backend.Signals.{has_candle_key, find_by_candle_key}
use trading_backend.Store.Entities.{Instrument, Signal, MarketCandle}
use trading_backend.Store.Enums.{Timeframe, SignalStatus, is_same_timeframe_self}
use trading_backend.Store.Text.{Text}
use trading_backend.Store.World.{World, Result, Config, ok}
use trading_backend.Strategy.{StrategyResult}

module _ {W : Type 0} ⦃n : Number W⦄ where
  open n use {column}

  -- The row of a signal, by the result that proposed it, the candle and the strategy's id.
  pub record IsSignalRow (instrument_id : ℕ) (t : Timeframe) (timestamp : ℕ)
      (p : ℕ × StrategyResult W) (id : ℕ) (s : Signal W) : Type 0 where
    pub new_signal : s.id ≡ id
    pub of_market : s.instrument_id ≡ instrument_id
    pub by_strategy : s.strategy_id ≡ some p.0
    pub in_timeframe : s.timeframe ≡ some t
    pub at_candle : s.candle_timestamp ≡ some timestamp
    pub directed_as : s.direction ≡ p.1.direction
    pub entered_at : s.entry_price ≡ column 8 p.1.entry_price
    pub stopped_at : s.stop_loss ≡ map_some (column 8) p.1.stop_loss
    pub aimed_at : s.take_profit ≡ map_some (column 8) p.1.take_profit
    pub trusted : s.confidence_score ≡ p.1.confidence
    pub is_new : s.status ≡ SignalStatus.created

  signal_row-IsSignalRow :
      (i : ℕ) (t : Timeframe) (timestamp : ℕ) (p : ℕ × StrategyResult W) (id : ℕ)
      → IsSignalRow i t timestamp p id (signal_row i t timestamp p id)
  signal_row-IsSignalRow i t timestamp p id = record {
    new_signal = refl;
    of_market = refl;
    by_strategy = refl;
    in_timeframe = refl;
    at_candle = refl;
    directed_as = refl;
    entered_at = refl;
    stopped_at = refl;
    aimed_at = refl;
    trusted = refl;
    is_new = refl;
  }

  -- A signal is created only from a TECHNICAL decision whose confidence reaches the setting and whose
  -- bias is not NEUTRAL, for an instrument that exists, at its latest candle, when no signal has the
  -- candle's key: it is CREATED from the first result of the active strategies that has a signal, which
  -- has a direction, with that result's direction, prices in the columns' precision and confidence, the
  -- strategy's id and the candle's key, and its reason is that result's. Apart from the id taken, the state changes by
  -- this row and its event.
  pub generate_created :
      (config : Config W) (catalog : Catalog W) (input : GenerateSignalInput) (w : World W)
      {s : Signal W} {r : Text W}
      → (generate config catalog input w).0 ≡ ok (GenerateSignalOutput.created s r)
      → (d : TechnicalDecision W) × (t : Timeframe) × (i : Instrument) × (c : MarketCandle W)
        × (p : ℕ × StrategyResult W) × IsDecision catalog input d t
        × IsEligible config d t i c w
        × IsProposed config catalog d t c w s r p
        × IsSignalRow d.instrument_id t c.timestamp p w.next_id s
        × ((generate config catalog input w).1 ≡ with_signal s d.instrument_id t w)
  generate_created config catalog input w {s} {r} h =
      let (d, t, g) = generate-IsDecision config catalog input w h in
      let read = generate-read config catalog input w d t g in
      let h1 = subst (λ out. out.0 ≡ ok (GenerateSignalOutput.created s r)) read h in
      let (i, c, k) = generate_from-IsEligible config catalog d t w h1 in
      let read1 = generate_from-read config catalog d t i c w k in
      let h2 = subst (λ out. out.0 ≡ ok (GenerateSignalOutput.created s r)) read1 h1 in
      let (p, q, e) = generate_for-IsProposed config catalog d t c w h2 in
      let (_, _, _, same, _) = q in
      (
        d,
        t,
        i,
        c,
        p,
        g,
        k,
        q,
        subst (IsSignalRow d.instrument_id t c.timestamp p w.next_id) (sym same)
            (signal_row-IsSignalRow d.instrument_id t c.timestamp p w.next_id),
        ap (λ (out : Result W (GenerateSignalOutput W) × World W). out.1) (read ∙ read1) ∙ e,
      )

  has_candle_key-row :
      (i : ℕ) (t : Timeframe) (timestamp : ℕ) (p : ℕ × StrategyResult W) (id : ℕ)
      → has_candle_key i t timestamp (signal_row i t timestamp p id) ≡ true
  has_candle_key-row i t timestamp p id =
      rw (==_self i, ==_self timestamp) (ground (arith, is_same_timeframe_self t))

  -- After a signal is created, the same request finds it and changes nothing.
  pub generate_once :
      (config : Config W) (catalog : Catalog W) (input : GenerateSignalInput) (w : World W)
      {s : Signal W} {r : Text W}
      → (generate config catalog input w).0 ≡ ok (GenerateSignalOutput.created s r)
      → generate config catalog input (generate config catalog input w).1
        ≡ (ok (GenerateSignalOutput.skipped_duplicate s), (generate config catalog input w).1)
  unfolding generate_for find_first latest_candles
  generate_once config catalog input w {s} {r} h =
      let (d, t, i, c, p, g, k, (_, _, _, same, _), _, e) =
        generate_created config catalog input w h in
      let w' = with_signal s d.instrument_id t w in
      let key : has_candle_key d.instrument_id t c.timestamp s ≡ true =
        rw same (has_candle_key-row d.instrument_id t c.timestamp p w.next_id) in
      let found : find_by_candle_key d.instrument_id t c.timestamp w' ≡ some s = rw key refl in
      let last : generate_for config catalog d t (latest_candles d.instrument_id t w') c w'
          ≡ (ok (GenerateSignalOutput.skipped_duplicate s), w') =
        rw (generate_for, found) refl in
      subst
        (λ v. generate config catalog input v ≡ (ok (GenerateSignalOutput.skipped_duplicate s), v))
        (sym e)
        (generate-read config catalog input w' d t g
          ∙ generate_from-read config catalog d t i c w' k
          ∙ last)
