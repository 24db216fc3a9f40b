-- ===== src/Technical/Processor.antt =====
-- agents/infrastructure/technical-analysis.processor.ts: the job of an analysis.
use trading_backend.Base.{if◌then◌else◌, String, Bool, false, not, none, some, str_eq}
use trading_backend.Number.Interface.{Number}
use trading_backend.Store.Enums.{AgentExecutionSource}
use trading_backend.Store.Queue.{JobOutcome, finish_job}
use trading_backend.Store.Text.{say, Exception, message, includes_word, bad_request, not_found}
use trading_backend.Technical.{
  TechnicalEnv, AnalyzeInput, AnalyzeOutput, AnalysisStore, technical_analyze,
}

-- `isRetryable`
abbrev pub is_retryable_analysis : {W : Type 0} → Exception W → Bool
is_retryable_analysis (bad_request t) = false
is_retryable_analysis (not_found t) = false
is_retryable_analysis e = not (includes_word "invalid JSON" (message e))

module _ {W : Type 0} ⦃n : Number W⦄ where
  -- `process`, of a job's name and data
  unfoldable pub process_analysis :
      TechnicalEnv W
      → String
      → AnalyzeInput
      → AnalysisStore W
      → JobOutcome W (AnalyzeOutput W) × AnalysisStore W
  unfolding technical_analyze
  process_analysis env name input s =
      if str_eq name "technical-analysis.analyze"
      then (let (r, s') =
            technical_analyze env
              (record input {
                primary_timeframe = none;
                confirmation_timeframes = none;
                execution_source = some AgentExecutionSource.queue;
              })
              s in
          let (outcome, w) =
            finish_job "technical-analysis" (say "Technical analysis job completed")
              is_retryable_analysis r s'.world in
          (outcome, record s' { world = w }))
      else (JobOutcome.ignored, s)
