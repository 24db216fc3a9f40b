-- ===== src/Technical/Handover.antt =====
-- From an analysis to a signal: the generation that its event starts.
use trading_backend.Base.{
  leb, ◌==◌, ==_self, Bool-cases, Option-cases, or_default, or_else, length, find_first, head_of,
  find_many, take, List-cases, ℕ, zero, suc, ◌≤◌, ◌≡◌, refl, sym, ap, subst, ◌∙◌, inl, inr, true,
  ◌&&◌, none, some, List, [], arith,
}
use trading_backend.Auth.{answer}
use trading_backend.Generation.{
  TechnicalDecision, Catalog, GenerateSignalInput, GenerateSignalOutput, find_decision, sort_latest,
  latest_candles, signal_row, reason_of, create_from, generate_for, generate_from, generate,
}
use trading_backend.Generation.Source.{generate-read, generate_from-read, create-new}
use trading_backend.Number.Interface.{Number}
use trading_backend.Signals.{find_by_candle_key, create}
use trading_backend.Store.Actions.{>>=_eq}
use trading_backend.Store.Entities.{MarketCandle}
use trading_backend.Store.Enums.{Timeframe, AgentDecisionAction, is_same_timeframe, is_no_direction}
use trading_backend.Store.World.{World, Result, Config, pure, ok}
use trading_backend.Strategy.{StrategyResult}
use trading_backend.Strategy.Engine.{evaluate_active_strategies}
use trading_backend.Strategy.Trend.{sort_candles}
use trading_backend.Technical.{
  AnalyzeCandles, TechnicalResult, TechnicalEnv, AnalyzeInput, AnalyzeOutput, AnalysisStore,
  to_decision_action, recent_candles, decision_metadata, record_analysis, technical_analyze,
}
use trading_backend.Technical.Outcome.{min_of, limit_of, technical_analyze-cases}

-- the generation of signals from a decision
abbrev pub by_decision : ℕ → GenerateSignalInput
by_decision id = record { agent_decision_id = some id; instrument_id = none; timeframe = none }

take_nil : (A : Type 0) (k : ℕ) → length (take {A = A} k []) ≡ 0
unfolding take
take_nil A zero = refl
take_nil A (suc k) = refl

module _ {W : Type 0} where
  -- the worker answers for the timeframe that it is asked about
  abbrev pub Echoes : TechnicalEnv W → Type 0
  Echoes env =
      (request : AnalyzeCandles W) (r : TechnicalResult W)
      → env.analyze request ≡ ok r
      → r.timeframe ≡ request.timeframe

  latest_candles-some :
      (i : ℕ) (t : Timeframe) (min_candles limit : ℕ) (w : World W)
      → 1 ≤ min_candles
      → leb min_candles (length (recent_candles i t limit w)) ≡ true
      → (c : MarketCandle W) × (head_of (latest_candles i t w) ≡ some c)
  unfolding latest_candles take
  latest_candles-some i t min_candles limit w l h =
      let market =
        sort_latest
          (find_many (λ c. c.instrument_id == i && is_same_timeframe t c.timeframe) w.candles) in
      elim (List-cases market) [
        | inr (c, cs, e) ↦ (c, rw (latest_candles, e) refl)
        | inl e ↦
            let none_taken : length (take limit market) ≡ 0 =
              rw e (take_nil (MarketCandle W) limit) in
            absurd (ground (arith, none_taken))
      ]

module _ {W : Type 0} ⦃n : Number W⦄ where
  create_from-ok :
      (i : ℕ) (t : Timeframe) (timestamp : ℕ) (results : List (ℕ × StrategyResult W)) (w : World W)
      → find_by_candle_key i t timestamp w ≡ none
      → (g : GenerateSignalOutput W) × ((create_from i t timestamp results w).0 ≡ ok g)
  unfolding create_from
  create_from-ok i t timestamp results w e =
      elim (Option-cases (find_first (λ r. r.1.should_create_signal) results)) [
        | inl e1 ↦ (GenerateSignalOutput.no_signal (reason_of results), ground arith)
        | inr (r, e1) ↦ elim (Bool-cases (is_no_direction r.1.direction)) [
          | inl q ↦ (GenerateSignalOutput.no_signal (reason_of results), ground arith)
          | inr q ↦
              let row = signal_row i t timestamp r in
              (
                GenerateSignalOutput.created (row w.next_id) r.1.reason,
                rw (create_from, e1, q)
                    (ap (λ (out : Result W (GenerateSignalOutput W) × World W). out.0)
                      (>>=_eq (create i t timestamp row)
                        (λ s. pure (GenerateSignalOutput.created s r.1.reason))
                        (create-new i t timestamp row w e))),
              )
        ]
      ]

  -- From a decision and a candle, the generation of a signal does not throw.
  generate_for-ok :
      (config : Config W) (catalog : Catalog W) (d : TechnicalDecision W) (t : Timeframe)
      (cs : List (MarketCandle W)) (c : MarketCandle W) (w : World W)
      → (g : GenerateSignalOutput W) × ((generate_for config catalog d t cs c w).0 ≡ ok g)
  unfolding generate_for
  generate_for-ok config catalog d t cs c w =
      elim (Option-cases (find_by_candle_key d.instrument_id t c.timestamp w)) [
        | inr (x, e) ↦ (GenerateSignalOutput.skipped_duplicate x, rw (generate_for, e) refl)
        | inl e ↦
            let results =
              evaluate_active_strategies config
                (record {
                  technical_analysis = d.metadata;
                  latest_candle = c;
                  candles = sort_candles cs;
                })
                catalog.strategies in
            rw (generate_for, e) (create_from-ok d.instrument_id t c.timestamp results w e)
      ]

  -- the generation by a new decision is past its gates: it looks at the latest candle of the market
  abbrev pub IsHandedOver :
      Config W → AnalyzeInput → World W → AnalyzeOutput W → AnalysisStore W → Type 0
  IsHandedOver config input w out s' =
      let d = decision_metadata input out.result out.agent_decision_id in
      (t : Timeframe) × (c : MarketCandle W) × (g : GenerateSignalOutput W) × (or_else
          input.primary_timeframe input.timeframe
        ≡ some t)
      × (head_of (latest_candles input.instrument_id t w) ≡ some c)
      × (generate config s'.catalog (by_decision out.agent_decision_id) s'.world
          ≡ generate_for config s'.catalog d t (latest_candles input.instrument_id t w) c s'.world)
      × ((generate config s'.catalog (by_decision out.agent_decision_id) s'.world).0 ≡ ok g)

  -- After an analysis that approves, with a worker that answers for the timeframe asked, at least one
  -- candle required, and a threshold of signal generation of at most 70: the generation by the new
  -- decision's id does not throw and is not refused by its gates, but looks for a signal at the latest
  -- candle of the market, which exists, with the metadata of this analysis.
  pub approved-generates :
      (env : TechnicalEnv W) (input : AnalyzeInput) (s : AnalysisStore W) {out : AnalyzeOutput W}
      → Echoes env
      → 1 ≤ min_of env
      → (technical_analyze env input s).0 ≡ ok out
      → out.decision ≡ AgentDecisionAction.approve
      → (config : Config W) → or_default config.signals_min_confidence 50 ≤ 70
      → IsHandedOver config input s.world out (technical_analyze env input s).1
  unfolding find_first record_analysis find_decision latest_candles
  approved-generates env input s {out} echo l h approved config low =
      elim (technical_analyze-cases env input s) [
        | inl (e, q) ↦ absurd (ground (arith, h, q))
        | inr (t, i, request, r, (e, found, _, enough), (_, asked_t, _, _), answer, q, (gates, _)) ↦
            let v : (record_analysis input t i.symbol r s).0 ≡ ok out =
              subst (λ (o : Result W (AnalyzeOutput W) × AnalysisStore W). o.0 ≡ ok out) q h in
            let id = s.world.next_id in
            let same : record {
              result = r;
              agent_decision_id = id;
              decision = to_decision_action r;
            }
                ≡ out =
              ground (arith, v) in
            let (sure, biased) = gates (ap (λ (o : AnalyzeOutput W). o.decision) same ∙ approved) in
            let t_same : r.timeframe ≡ t = echo request r answer ∙ asked_t in
            let (c, latest) =
              latest_candles-some input.instrument_id t (min_of env) (limit_of env input) s.world l
                enough in
            let d = decision_metadata input r id in
            let s1 = (record_analysis input t i.symbol r s).1 in
            let read : generate config s1.catalog (by_decision id) s1.world
                ≡ generate_from config s1.catalog d t s1.world =
              generate-read config s1.catalog (by_decision id) s1.world d t
                (rw (==_self id) refl, refl, ap some t_same) in
            let read1 : generate_from config s1.catalog d t s1.world
                ≡ generate_for config s1.catalog d t (latest_candles input.instrument_id t s.world)
                    c s1.world =
              generate_from-read config s1.catalog d t i c s1.world
                (ground (arith, sure, low), biased, found, latest) in
            let (g, fine) =
              generate_for-ok config s1.catalog d t (latest_candles input.instrument_id t s.world) c
                s1.world in
            subst
              (λ (p : AnalyzeOutput W × AnalysisStore W). IsHandedOver config input s.world p.0 p.1)
              (ap (λ o. (o, s1)) same
                ∙ ap (λ (o : Result W (AnalyzeOutput W) × AnalysisStore W). (out, o.1)) (sym q))
              (
                t,
                c,
                g,
                e,
                latest,
                read ∙ read1,
                ap (λ (o : Result W (GenerateSignalOutput W) × World W). o.0) (read ∙ read1) ∙ fine,
              )
      ]
