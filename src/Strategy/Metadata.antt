-- ===== src/Strategy/Metadata.antt =====
-- What the strategy reads: the JSON metadata of a technical decision and the strategy's parameters.
use trading_backend.Base.{if◌then◌else◌, ℕ, String, Bool, Option, none, some, List, [], ◌∷◌, ◌++◌}
use trading_backend.Number.Interface.{Number}
use trading_backend.Store.Entities.{Field}
use trading_backend.Store.Text.{Text, say}

pub record Indicators (W : Type 0) : Type 0 where
  pub ema20 : W
  pub ema50 : W
  pub ema200 : W
  pub rsi14 : W
  pub atr14 : W

-- `indicators`, `marketRegime.isRanging`, `multiTimeframe.alignment` and the two levels of
-- `supportResistance`; an absent object has its fields absent.
pub record TechnicalMetadata (W : Type 0) : Type 0 where
  pub ema20 : Field W
  pub ema50 : Field W
  pub ema200 : Field W
  pub rsi14 : Field W
  pub atr14 : Field W
  pub is_ranging : Option Bool
  pub alignment : Option String
  pub nearest_support : Field W
  pub nearest_resistance : Field W

-- `EmaTrendParameters`
pub record Parameters (W : Type 0) : Type 0 where
  pub rsi_buy_min : Option W
  pub rsi_buy_max : Option W
  pub rsi_sell_min : Option W
  pub rsi_sell_max : Option W
  pub atr_stable_max_percent_of_price : Option W
  pub trend_consistency_candles : Option ℕ
  pub block_ranging_market : Option Bool
  pub block_mtf_conflict : Option Bool

module _ {W : Type 0} ⦃n : Number W⦄ where
  open n use {is_finite}

  -- `numberValue`
  abbrev pub number_value : Field W → Option W
  number_value (Field.num x) = if is_finite x then some x else none
  number_value _ = none

  abbrev missing : String → Field W → List (Text W)
  missing name f = elim (number_value f) [ none ↦ say name ∷ [] | some x ↦ [] ]

  -- `missingIndicators(readIndicators(…))`
  unfoldable pub missing_indicators : TechnicalMetadata W → List (Text W)
  missing_indicators m =
      missing "ema20" m.ema20
      ++ (missing "ema50" m.ema50
          ++ (missing "ema200" m.ema200 ++ (missing "rsi14" m.rsi14 ++ missing "atr14" m.atr14)))

  -- `readIndicators`, none where one is missing
  unfoldable pub read_indicators : TechnicalMetadata W → Option (Indicators W)
  read_indicators m = elim (number_value m.ema20) [
    | none ↦ none
    | some a ↦ elim (number_value m.ema50) [
      | none ↦ none
      | some b ↦ elim (number_value m.ema200) [
        | none ↦ none
        | some c ↦ elim (number_value m.rsi14) [
          | none ↦ none
          | some d ↦ elim (number_value m.atr14) [
            | none ↦ none
            | some e ↦ some (record { ema20 = a; ema50 = b; ema200 = c; rsi14 = d; atr14 = e })
          ]
        ]
      ]
    ]
  ]
