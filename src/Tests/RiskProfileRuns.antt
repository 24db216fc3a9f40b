-- ===== src/Tests/RiskProfileRuns.antt =====
-- The update of the active risk profile.
use trading_backend.Base.{find_first, find_last, String, ◌≡◌, refl, ◌≢◌, ◌⊎◌, none, some, arith}
use trading_backend.Number.Fixed.{ℤ, fixed_number}
use trading_backend.Number.Interface.{number}
use trading_backend.Risk.{active_risk_profile}
use trading_backend.Risk.Profile.{ProfileUpdate, ProfileResponse, update_active}
use trading_backend.Risk.Updated.{with_profile, update_active-active_risk_profile}
use trading_backend.Risk.Written.{IsUpdateOf, IsResponseOf, IsNamesake, IsTooLarge}
use trading_backend.Store.Entities.{RiskProfile}
use trading_backend.Store.Text.{Exception, unique_violation, value_out_of_range}
use trading_backend.Store.World.{ok, err}
use trading_backend.Tests.Sample.{pending}

abbrev wider : ProfileUpdate ℤ
wider = record {
  name = none;
  max_risk_per_trade_percent = some (number 2);
  max_daily_drawdown_percent = none;
  max_open_trades = some 5;
  min_risk_reward_ratio = none;
}

-- a ratio that Decimal(12, 8) cannot hold
abbrev too_wide : ProfileUpdate ℤ
too_wide = record wider { min_risk_reward_ratio = some (number 10_000) }

update_active-overflow : update_active too_wide pending ≡ (err value_out_of_range, pending)
unfolding update_active active_risk_profile find_last
update_active-overflow = refl

update_active-changes : update_active wider pending ≢ (err value_out_of_range, pending)
unfolding update_active active_risk_profile find_last find_first
update_active-changes = ground arith

update_active-active_risk_profile_example :
    ((p q : RiskProfile ℤ) × (r : ProfileResponse ℤ) × (active_risk_profile pending
        ≡ (ok p, pending))
      × IsUpdateOf wider p q
      × IsResponseOf q r
      × (update_active wider pending ≡ (ok r, with_profile wider p.id pending))
      × (active_risk_profile (with_profile wider p.id pending)
          ≡ (ok q, with_profile wider p.id pending)))
    ⊎ ((e : Exception ℤ) × (update_active wider pending ≡ (err e, pending))
        × ((find_last (λ p. p.is_active) pending.risk_profiles ≡ none)
            ⊎ ((e ≡ value_out_of_range) × IsTooLarge wider)
            ⊎ ((p : RiskProfile ℤ) × (active_risk_profile pending ≡ (ok p, pending))
                × (e ≡ unique_violation)
                × ((name : String) × (q : RiskProfile ℤ) × (wider.name ≡ some name)
                    × IsNamesake name p q pending.risk_profiles))))
update_active-active_risk_profile_example = update_active-active_risk_profile wider pending
