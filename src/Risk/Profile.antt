-- ===== src/Risk/Profile.antt =====
-- src/modules/risk-profile over the repository of risk profiles: the active profile, by which signals
-- are evaluated, and its update.
use trading_backend.Base.{
  ◌==◌, ltb, ◌^◌, true, or_default, is_some, map_some, find_first, update_where, ℕ, String, Bool,
  false, not, ◌&&◌, Option, none, some, List, str_eq,
}
use trading_backend.Number.Interface.{Number, number}
use trading_backend.Risk.{active_risk_profile}
use trading_backend.Store.Entities.{RiskProfile}
use trading_backend.Store.Text.{unique_violation, value_out_of_range}
use trading_backend.Store.World.{Action, ◌>>=◌, ◌>>◌, pure, throw_if, throw_unless, gets, modify}

-- `UpdateActiveRiskProfileDto`
pub record ProfileUpdate (W : Type 0) : Type 0 where
  pub name : Option String
  pub max_risk_per_trade_percent : Option W
  pub max_daily_drawdown_percent : Option W
  pub max_open_trades : Option ℕ
  pub min_risk_reward_ratio : Option W

-- the answer: the profile in per cent, each rounded to two places
pub record ProfileResponse (W : Type 0) : Type 0 where
  pub id : ℕ
  pub name : String
  pub max_risk_per_trade_percent : W
  pub min_risk_reward_ratio : W
  pub max_daily_drawdown_percent : W
  pub max_open_trades : ℕ
  pub is_active : Bool

-- whether an Int column takes a value, if one is given
abbrev pub int_fits : Option ℕ → Bool
int_fits none = true
int_fits (some k) = ltb k (2 ^ 31)

module _ {W : Type 0} where
  -- a profile of another id with the name, which is unique
  abbrev pub has_name_of : String → ℕ → RiskProfile W → Bool
  has_name_of name id p = not (p.id == id) && str_eq name p.name

  abbrev pub is_name_taken : Option String → ℕ → List (RiskProfile W) → Bool
  is_name_taken none id rows = false
  is_name_taken (some name) id rows = is_some (find_first (has_name_of name id) rows)

module _ {W : Type 0} ⦃n : Number W⦄ where
  open n use {mul, div, round, column, fits}

  -- whether Decimal(12, 8) takes a value, if one is given
  abbrev pub decimal_fits : Option W → Bool
  decimal_fits none = true
  decimal_fits (some x) = fits 12 8 x

  -- whether the columns take the values that `updateActive` writes
  abbrev pub update_fits : ProfileUpdate W → Bool
  update_fits dto =
      let fraction : W → W = λ x. div x (number 100) in
      decimal_fits (map_some fraction dto.max_risk_per_trade_percent)
      && (decimal_fits (map_some fraction dto.max_daily_drawdown_percent)
          && (int_fits dto.max_open_trades && decimal_fits dto.min_risk_reward_ratio))

  -- the columns that `updateActive` writes: an absent field stays
  abbrev pub updated_profile : ProfileUpdate W → RiskProfile W → RiskProfile W
  updated_profile dto p =
      let fraction : W → W = λ x. column 8 (div x (number 100)) in
      record p {
        name = or_default dto.name p.name;
        max_risk_per_trade =
            or_default (map_some fraction dto.max_risk_per_trade_percent) p.max_risk_per_trade;
        max_daily_drawdown =
            or_default (map_some fraction dto.max_daily_drawdown_percent) p.max_daily_drawdown;
        max_open_trades = or_default dto.max_open_trades p.max_open_trades;
        min_risk_reward_ratio =
            or_default (map_some (column 8) dto.min_risk_reward_ratio) p.min_risk_reward_ratio;
      }

  -- `Math.round(value * 100) / 100`
  abbrev pub round_cents : W → W
  round_cents x = div (round (mul x (number 100))) (number 100)

  -- `toResponse`
  abbrev pub to_response : RiskProfile W → ProfileResponse W
  to_response p = record {
    id = p.id;
    name = p.name;
    max_risk_per_trade_percent = round_cents (mul p.max_risk_per_trade (number 100));
    min_risk_reward_ratio = round_cents p.min_risk_reward_ratio;
    max_daily_drawdown_percent = round_cents (mul p.max_daily_drawdown (number 100));
    max_open_trades = p.max_open_trades;
    is_active = p.is_active;
  }

  -- `getActive`
  unfoldable pub get_active : Action W (ProfileResponse W)
  unfolding active_risk_profile
  get_active = do p ← active_risk_profile; pure (to_response p)

  -- `updateActive` of the repository and of the service
  unfoldable pub update_active : ProfileUpdate W → Action W (ProfileResponse W)
  unfolding active_risk_profile update_where find_first
  update_active dto = do
    active ← active_risk_profile
    throw_unless (update_fits dto) value_out_of_range
    taken ← gets λ w. is_name_taken dto.name active.id w.risk_profiles
    throw_if taken unique_violation
    modify λ w. record w {
      risk_profiles = update_where (λ p. p.id == active.id) (updated_profile dto) w.risk_profiles;
    }
    pure (to_response (updated_profile dto active))
