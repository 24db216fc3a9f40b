-- ===== src/Risk/Verdict.antt =====
-- When the risk agent approves a signal, and what it writes.
use trading_backend.Base.{
  ◌==◌, Bool-cases, find_first, List-cases, suc, ◌<◌, ◌≡◌, refl, ◌↔◌, ◌⊎◌, inl, inr, true, false,
  none, some, [], ◌∷◌, arith,
}
use trading_backend.Number.Interface.{Number, number, IsOrdered}
use trading_backend.Risk.{
  AccountState, Figures, drawdown, figures, rejection_reasons, ruling, assessment_row, decision_row,
  evaluate_signal,
}
use trading_backend.Risk.Assessed.{
  distance_of, risk_of, size_of, ratio_of, IsAssessmentOf, IsRuled, rows-IsAssessmentOf,
}
use trading_backend.Signals.Status.{has_id, find_first-set_status}
use trading_backend.Store.Entities.{Signal, AgentDecision, RiskProfile, RiskAssessment}
use trading_backend.Store.Enums.{SignalStatus, AgentExecutionSource, RiskAssessmentDecision}
use trading_backend.Store.World.{World, IsBadRequest, ok}

abbrev pub status_of : RiskAssessmentDecision → SignalStatus
status_of RiskAssessmentDecision.approved = SignalStatus.approved
status_of _ = SignalStatus.rejected

module _ {W : Type 0} ⦃n : Number W⦄ where
  open n use {abs, sub, div, lt, le, eq, fits}

  -- The gates that can refuse a signal, as the code tests them.
  pub record Affordable (account : AccountState W) (f : Figures W) (profile : RiskProfile W)
      : Type 0 where
    pub rewarding : lt f.risk_reward_ratio profile.min_risk_reward_ratio ≡ false
    pub room : account.open_trades < profile.max_open_trades
    pub shallow : le profile.max_daily_drawdown f.daily_drawdown ≡ false

  module _ (laws : IsOrdered W) where
    open laws use {lt_irrefl}

    -- On the figures that `evaluateSignal` computes, the list of reasons is empty exactly when the
    -- risk/reward ratio is not below its minimum, fewer trades are open than the maximum and the
    -- drawdown is below its maximum: the check of the monetary risk never refuses.
    pub rejection_reasons-nil_iff :
        (entry stop target : W) (account : AccountState W) (profile : RiskProfile W)
        → let f = figures entry stop target account profile in
          (rejection_reasons account f profile ≡ []) ↔ Affordable account f profile
    unfolding rejection_reasons figures
    rejection_reasons-nil_iff entry stop target account profile =
        let self = lt_irrefl (n.mul account.balance profile.max_risk_per_trade) in
        (λ h. ground arith, λ a. ground arith)

  -- The limits of a profile, at an account and a ratio.
  pub record IsWithinProfile (account : AccountState W) (ratio : W) (profile : RiskProfile W)
      : Type 0 where
    pub rewarding : lt ratio profile.min_risk_reward_ratio ≡ false
    pub room : account.open_trades < profile.max_open_trades
    pub losing :
        lt account.daily_pnl (number 0) ≡ true
        → le profile.max_daily_drawdown (div (abs account.daily_pnl) account.balance) ≡ false
    pub gaining :
        lt account.daily_pnl (number 0) ≡ false → le profile.max_daily_drawdown (number 0) ≡ false

  Affordable-IsWithinProfile :
      (entry stop target : W) (account : AccountState W) (profile : RiskProfile W)
      → let f = figures entry stop target account profile in
        Affordable account f profile ↔ IsWithinProfile account f.risk_reward_ratio profile
  unfolding figures drawdown
  Affordable-IsWithinProfile entry stop target account profile =
      elim (Bool-cases (lt account.daily_pnl (number 0))) [
        | inl e ↦ (
          λ h. record {
            rewarding = h.rewarding;
            room = h.room;
            losing = λ l. ground (arith, h.shallow, e);
            gaining = λ g. absurd (ground (arith, g, e));
          },
          λ h. record { rewarding = h.rewarding; room = h.room; shallow = rw e (h.losing e) },
        )
        | inr e ↦ (
          λ h. record {
            rewarding = h.rewarding;
            room = h.room;
            losing = λ l. absurd (ground (arith, l, e));
            gaining = λ g. ground (arith, h.shallow, e);
          },
          λ h. record { rewarding = h.rewarding; room = h.room; shallow = rw e (h.gaining e) },
        )
      ]

  module _ (laws : IsOrdered W) (signal : Signal W) (stop target : W) (account : AccountState W)
      (profile : RiskProfile W) (source : AgentExecutionSource) (w : World W)
      (has_stop : signal.stop_loss ≡ some stop) (has_target : signal.take_profit ≡ some target)
      (apart : eq (distance_of signal stop) (number 0) ≡ false)
      (known : find_first (has_id signal.id) w.signals ≡ some signal)
      (stored : find_first (λ p. p.id == profile.id) w.risk_profiles ≡ some profile)
      (size_fits : fits 24 8 (size_of signal stop account profile) ≡ true)
      (risk_fits : fits 24 8 (risk_of account profile) ≡ true)
      (ratio_fits : fits 12 8 (ratio_of signal stop target) ≡ true) where
    -- A signal with a stop loss away from its entry price and a take profit, stored with the profile,
    -- and with figures that their columns hold, gets an assessment: the call succeeds, and the newest
    -- assessment and the newest agent decision have the signal's and the profile's ids, the position
    -- size balance * maxRiskPerTrade / distance, that risk and the ratio of the distances. The verdict
    -- is APPROVED exactly when the ratio is not below its minimum, fewer trades are open than the
    -- maximum and the drawdown is below its maximum; then the decision is APPROVE with confidence 100,
    -- the signal becomes APPROVED and both events are emitted, and it is REJECTED with 0 and the one
    -- event else.
    pub evaluate_signal_records :
        (a : RiskAssessment W) × (d : AgentDecision W) × (w' : World W) × (evaluate_signal signal
            account profile source w
          ≡ (ok (a, d.id), w'))
        × (w'.risk_assessments ≡ a ∷ w.risk_assessments)
        × (w'.agent_decisions ≡ d ∷ w.agent_decisions)
        × IsAssessmentOf signal profile
            (size_of signal stop account profile)
            (risk_of account profile)
            (ratio_of signal stop target)
            source
            a
            d
        × ((a.decision ≡ RiskAssessmentDecision.approved)
            ↔ IsWithinProfile account (ratio_of signal stop target) profile)
        × IsRuled signal a d w w'
    unfolding evaluate_signal figures
    evaluate_signal_records =
        let f = figures signal.entry_price stop target account profile in
        let reasons = rejection_reasons account f profile in
        let verdict = ruling reasons f profile in
        let a = assessment_row w.next_id signal.id profile.id f verdict.0 verdict.1 in
        let d = decision_row (suc w.next_id) signal f verdict.0 verdict.1 source in
        let w' = (evaluate_signal signal account profile source w).1 in
        let moved = find_first-set_status signal.id (status_of verdict.0) w.signals known in
        let (clear, clear') =
          rejection_reasons-nil_iff laws signal.entry_price stop target account profile in
        let (within, within') =
          Affordable-IsWithinProfile signal.entry_price stop target account profile in
        (
          a,
          d,
          w',
          ground arith,
          ground arith,
          ground arith,
          rows-IsAssessmentOf w.next_id (suc w.next_id) signal stop target account profile source
              verdict,
          elim (List-cases reasons) [
            | inl e ↦ (λ h. within (clear e), λ h. ground (arith, e))
            | inr (r, rs, e) ↦ (
              λ h. absurd (ground (arith, h, e)),
              λ h. absurd (ground (arith, clear' (within' h), e)),
            )
          ],
          elim (List-cases reasons) [
            | inl e ↦
                let v : verdict.0 ≡ RiskAssessmentDecision.approved = ground (arith, e) in
                IsRuled.approves v (rw v refl) (rw v refl) (ground (arith, moved, v))
                  (ground (arith, known, v))
            | inr (r, rs, e) ↦
                let v : verdict.0 ≡ RiskAssessmentDecision.rejected = ground (arith, e) in
                IsRuled.rejects v (rw v refl) (rw v refl) (ground (arith, moved, v))
                  (ground (arith, known, v))
          ],
        )

  -- A signal with no stop loss, no take profit or a stop loss at its entry price is refused, and
  -- nothing is written.
  pub evaluate_signal_refuses :
      (signal : Signal W) (account : AccountState W) (profile : RiskProfile W)
      (source : AgentExecutionSource) (w : World W)
      → (signal.stop_loss ≡ none)
        ⊎ (signal.take_profit ≡ none)
        ⊎ ((stop : W) × (signal.stop_loss ≡ some stop)
            × (eq (abs (sub signal.entry_price stop)) (number 0) ≡ true))
      → IsBadRequest (evaluate_signal signal account profile source w).0
        × ((evaluate_signal signal account profile source w).1 ≡ w)
  unfolding evaluate_signal figures
  evaluate_signal_refuses signal account profile source w h = ground arith
