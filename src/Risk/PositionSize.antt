-- ===== src/Risk/PositionSize.antt =====
-- src/modules/risk/application/calculate-position-size.use-case.ts.
use trading_backend.Base.{if◌then◌else◌, ℕ, Bool, false, not, ◌&&◌, ◌||◌, Option, none, some}
use trading_backend.Number.Interface.{Number, number}
use trading_backend.Store.Text.{say, bad_request}
use trading_backend.Store.World.{Result, ok, err}

pub record SizeInput (W : Type 0) : Type 0 where
  pub account_balance : W
  pub risk_percent : W
  pub entry_price : W
  pub stop_loss : W
  pub instrument_id : ℕ
  pub take_profit : Option W

pub record SizeOutput (W : Type 0) : Type 0 where
  pub instrument_id : ℕ
  pub risk_amount : W
  pub stop_loss_distance : W
  pub position_size : W
  pub estimated_loss : W
  pub risk_reward_ratio : Option W

module _ {W : Type 0} ⦃n : Number W⦄ where
  open n use {add, sub, mul, div, abs, lt, le, eq}

  -- `value ? … : null` on a number that may be missing: 0 counts as missing, and so does NaN.
  abbrev pub is_truthy : Option W → Bool
  is_truthy none = false
  is_truthy (some x) = not (eq x (number 0)) && eq x x

  reward_ratio : SizeInput W → W → Option W
  reward_ratio input distance = elim input.take_profit [
    | none ↦ none
    | some target ↦
        if is_truthy (some target)
        then some (div (abs (sub target input.entry_price)) distance)
        else none
  ]

  unfoldable pub calculate_position_size : SizeInput W → Result W (SizeOutput W)
  unfolding reward_ratio
  calculate_position_size input =
      let distance = abs (sub input.entry_price input.stop_loss) in
      let risk_amount = mul input.account_balance (div input.risk_percent (number 100)) in
      let size = div risk_amount distance in
      if le input.account_balance (number 0) || le input.risk_percent (number 0)
      then err (bad_request (say "Account balance and risk percent must be greater than zero"))
      else if eq distance (number 0)
      then err (bad_request (say "Stop loss distance must be greater than zero"))
      else ok (record {
        instrument_id = input.instrument_id;
        risk_amount = risk_amount;
        stop_loss_distance = distance;
        position_size = size;
        estimated_loss = mul size distance;
        risk_reward_ratio = reward_ratio input distance;
      })
