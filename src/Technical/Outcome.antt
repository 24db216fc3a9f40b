-- ===== src/Technical/Outcome.antt =====
-- An analysis on each of its branches.
use trading_backend.Base.{
  leb, ◌==◌, Bool-cases, Option-cases, or_default, or_else, length, All, find_first, ℕ, ◌≤◌, ◌≡◌,
  refl, ap, ◌∙◌, ◌↔◌, ◌⊎◌, inl, inr, true, false, some, arith, str_eq,
}
use trading_backend.Generation.{TechnicalDecision}
use trading_backend.Number.Interface.{Number}
use trading_backend.Store.Actions.{>>=_eq, >>=_throws, pair_eq}
use trading_backend.Store.Entities.{Instrument, AgentDecision}
use trading_backend.Store.Enums.{Timeframe, AgentDecisionAction}
use trading_backend.Store.Text.{Exception}
use trading_backend.Store.World.{World, ◌>>=◌, lift, Result-cases, ok, err}
use trading_backend.Technical.{
  AnalyzeCandles, TechnicalResult, TechnicalEnv, AnalyzeInput, AnalyzeOutput, AnalysisStore,
  AnalysisAction, Prepared, to_decision_action, resolve_confirmation_timeframes, recent_candles,
  request_of, decision_columns, decision_metadata, record_analysis, prepare_analysis,
  technical_analyze,
}
use trading_backend.Technical.Decided.{
  approves_iff, IsDecisionOf, columns-IsDecisionOf, with_decision,
}
use trading_backend.Technical.Gates.{IsHistory, recent_candles-IsHistory, confirmations-IsHistory}

module _ {W : Type 0} where
  abbrev pub min_of : TechnicalEnv W → ℕ
  min_of env = or_default env.min_candles 200

  abbrev pub limit_of : TechnicalEnv W → AnalyzeInput → ℕ
  limit_of env input = or_default input.limit (or_default env.default_limit 1000)

module _ {W : Type 0} ⦃n : Number W⦄ where
  -- what the worker is asked
  abbrev pub asked :
      TechnicalEnv W → AnalyzeInput → Timeframe → Instrument → World W → AnalyzeCandles W
  asked env input t i w = request_of env input t i.symbol (min_of env) (limit_of env input) w

  prepare_analysis_state :
      (env : TechnicalEnv W) (input : AnalyzeInput) (s : AnalysisStore W)
      → (prepare_analysis env input s).1 ≡ s
  unfolding prepare_analysis
  prepare_analysis_state env input s = ground arith

  abbrev pub IsPrepared : TechnicalEnv W → AnalyzeInput → World W → Timeframe → Instrument → Type 0
  IsPrepared env input w t i =
      (or_else input.primary_timeframe input.timeframe ≡ some t)
      × (find_first (λ j. j.id == input.instrument_id) w.instruments ≡ some i)
      × (i.is_active ≡ true)
      × (leb (min_of env) (length (recent_candles input.instrument_id t (limit_of env input) w))
          ≡ true)

  prepare_analysis-IsPrepared :
      (env : TechnicalEnv W) (input : AnalyzeInput) (s : AnalysisStore W) {p : Prepared W}
      → (prepare_analysis env input s).0 ≡ ok p
      → (t : Timeframe) × (i : Instrument) × IsPrepared env input s.world t i
        × (p ≡ record { primary = t; request = asked env input t i s.world })
  unfolding prepare_analysis
  prepare_analysis-IsPrepared env input s {p} h =
      elim (Option-cases (or_else input.primary_timeframe input.timeframe)) [
        | inl e ↦ absurd (ground arith)
        | inr (t, e) ↦
            elim (Option-cases
              (find_first (λ j. j.id == input.instrument_id) s.world.instruments)) [
                | inl e2 ↦ absurd (ground arith)
                | inr (i, e2) ↦ elim (Bool-cases i.is_active) [
                  | inr e3 ↦ absurd (ground arith)
                  | inl e3 ↦
                      let cs = recent_candles input.instrument_id t (limit_of env input) s.world in
                      elim (Bool-cases (leb (min_of env) (length cs))) [
                        | inr e4 ↦ absurd (ground arith)
                        | inl e4 ↦ (t, i, (e, e2, e3, e4), ground arith)
                      ]
                ]
              ]
      ]

  -- what reaches the worker: the history of the market, and that of each timeframe in the entries
  abbrev pub IsFairRequest :
      TechnicalEnv W → AnalyzeInput → Timeframe → Instrument → AnalyzeCandles W → Type 0
  IsFairRequest env input t i request =
      (request.symbol ≡ i.symbol)
      × (request.timeframe ≡ t)
      × IsHistory input.instrument_id (min_of env) (limit_of env input) t request.candles
      × All (λ q. IsHistory input.instrument_id (min_of env) (limit_of env input) q.0 q.1)
          request.timeframes

  asked-IsFairRequest :
      (env : TechnicalEnv W) (input : AnalyzeInput) (w : World W) (t : Timeframe) (i : Instrument)
      → IsPrepared env input w t i
      → IsFairRequest env input t i (asked env input t i w)
  unfolding request_of
  asked-IsFairRequest env input w t i (_, _, _, enough) =
      let history =
        recent_candles-IsHistory input.instrument_id t (min_of env) (limit_of env input) w enough in
      (
        refl,
        refl,
        history,
        (
          history,
          confirmations-IsHistory input.instrument_id (min_of env) (limit_of env input) w
              (resolve_confirmation_timeframes env t input.confirmation_timeframes),
        ),
      )

  pub technical_analyze-cases :
      (env : TechnicalEnv W) (input : AnalyzeInput) (s : AnalysisStore W)
      → ((e : Exception W) × (technical_analyze env input s ≡ (err e, s)))
        ⊎ ((t : Timeframe) × (i : Instrument) × (request : AnalyzeCandles W) × (r : TechnicalResult
              W)
            × IsPrepared env input s.world t i
            × IsFairRequest env input t i request
            × (env.analyze request ≡ ok r)
            × (technical_analyze env input s ≡ record_analysis input t i.symbol r s)
            × ((to_decision_action r ≡ AgentDecisionAction.approve)
                ↔ ((70 ≤ r.confidence_score) × (str_eq r.technical_bias "NEUTRAL" ≡ false))))
  unfolding technical_analyze
  technical_analyze-cases env input s =
      let prepared = prepare_analysis env input s in
      let same = prepare_analysis_state env input s in
      let next : Prepared W → AnalysisAction W (AnalyzeOutput W) = λ p.
        lift (env.analyze p.request) >>= λ r. record_analysis input p.primary p.request.symbol r in
      elim (Result-cases prepared.0) [
        | inr (e, h) ↦ inl (e, >>=_throws (prepare_analysis env input) next (pair_eq h same))
        | inl (p, h) ↦
            let (t, i, g, q) = prepare_analysis-IsPrepared env input s h in
            let request = asked env input t i s.world in
            let start : technical_analyze env input s ≡ next p s =
              >>=_eq (prepare_analysis env input) next (pair_eq h same) in
            let there : next p s ≡ next (record { primary = t; request = request }) s =
              ap (λ p. next p s) q in
            elim (Result-cases (env.analyze request)) [
              | inr (e, h2) ↦ inl (e, start ∙ there ∙ rw h2 refl)
              | inl (r, h2) ↦ inr (
                t,
                i,
                request,
                r,
                g,
                asked-IsFairRequest env input s.world t i g,
                h2,
                start ∙ there ∙ rw h2 refl,
                approves_iff r,
              )
            ]
      ]

  -- An analysis that throws has changed nothing. Otherwise the instrument exists and is active, the
  -- worker was sent between the minimum and the limit of candles of the market, and of each further
  -- timeframe in the request, in the order of their times, and its answer is stored, and given to the
  -- caller, as one new TECHNICAL decision of the market with the answer's confidence, bias, timeframe
  -- and indicators: APPROVE exactly for a confidence of 70 or more with a bias that is not NEUTRAL,
  -- WAIT exactly for one from 40 to 69, and REJECT otherwise. Its event is emitted, and nothing else
  -- changes.
  pub technical_analyze_outcome :
      (env : TechnicalEnv W) (input : AnalyzeInput) (s : AnalysisStore W)
      → ((e : Exception W) × (technical_analyze env input s ≡ (err e, s)))
        ⊎ ((t : Timeframe) × (i : Instrument) × (request : AnalyzeCandles W) × (r : TechnicalResult
              W)
            × (d : AgentDecision W) × (m : TechnicalDecision W) × (out : AnalyzeOutput W)
            × IsPrepared env input s.world t i
            × IsFairRequest env input t i request
            × (env.analyze request ≡ ok r)
            × IsDecisionOf input r s.world.next_id d m out
            × (technical_analyze env input s
                ≡ (ok out, with_decision input.instrument_id t i.symbol d m s)))
  unfolding record_analysis
  technical_analyze_outcome env input s = elim (technical_analyze-cases env input s) [
    | inl x ↦ inl x
    | inr (t, i, request, r, g, fair, reply, q, _) ↦
        let id = s.world.next_id in
        inr (
          t,
          i,
          request,
          r,
          decision_columns input r id,
          decision_metadata input r id,
          record { result = r; agent_decision_id = id; decision = to_decision_action r },
          g,
          fair,
          reply,
          columns-IsDecisionOf input r id,
          q,
        )
  ]
