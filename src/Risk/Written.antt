-- ===== src/Risk/Written.antt =====
-- What an update of the active risk profile writes and answers, field by field, and what it refuses.
-- A column after a write of what is given, in the form in which it is stored: one that is not given
-- keeps its value.
use trading_backend.Base.{
  ◌==◌, Bool-cases, Option-cases, or_default, map_some, find_first, find_first_passes, ℕ, ◌^◌, ◌≤◌,
  String, ◌≡◌, refl, sym, ◌≢◌, inl, inr, true, false, not, ◌&&◌, Option, none, some, List, arith,
  str_eq, str_eq_iff,
}
use trading_backend.Number.Interface.{Number, number}
use trading_backend.Risk.Profile.{
  ProfileUpdate, ProfileResponse, int_fits, has_name_of, is_name_taken, decimal_fits, update_fits,
  updated_profile, to_response,
}
use trading_backend.Store.Entities.{RiskProfile}

abbrev pub IsWritten : {A B : Type 0} → Option A → (A → B) → B → B → Type 0
IsWritten {A = A} given stored old new =
    ((x : A) → given ≡ some x → new ≡ stored x) × (given ≡ none → new ≡ old)

or_default-IsWritten :
    {A B : Type 0} (given : Option A) (stored : A → B) (old : B)
    → IsWritten given stored old (or_default (map_some stored given) old)
or_default-IsWritten none stored old = (λ x h. ground arith, λ h. refl)
or_default-IsWritten (some y) stored old = (λ x h. ground arith, λ h. ground arith)

or_default-IsSet_same :
    {A : Type 0} (given : Option A) (old : A) → IsWritten given (λ x. x) old (or_default given old)
or_default-IsSet_same none old = (λ x h. ground arith, λ h. refl)
or_default-IsSet_same (some y) old = (λ x h. ground arith, λ h. ground arith)

int_fits-large :
    (given : Option ℕ) → int_fits given ≡ false → (k : ℕ) × (given ≡ some k) × (2 ^ 31 ≤ k)
int_fits-large none h = ground arith
int_fits-large (some k) h = (k, refl, ground arith)

module _ {W : Type 0} ⦃n : Number W⦄ where
  open n use {mul, div, round, column, fits}

  -- the profile p with what `updateActive` is given: per cent become fractions
  pub record IsUpdateOf (dto : ProfileUpdate W) (p q : RiskProfile W) : Type 0 where
    pub same : q.id ≡ p.id
    pub active : q.is_active ≡ p.is_active
    pub named : IsWritten dto.name (λ x. x) p.name q.name
    pub risk :
        IsWritten dto.max_risk_per_trade_percent
          (λ x. column 8 (div x (number 100)))
          p.max_risk_per_trade
          q.max_risk_per_trade
    pub drawdown :
        IsWritten dto.max_daily_drawdown_percent
          (λ x. column 8 (div x (number 100)))
          p.max_daily_drawdown
          q.max_daily_drawdown
    pub trades : IsWritten dto.max_open_trades (λ x. x) p.max_open_trades q.max_open_trades
    pub ratio :
        IsWritten dto.min_risk_reward_ratio
          (column 8)
          p.min_risk_reward_ratio
          q.min_risk_reward_ratio

  -- the answer about the profile q: fractions become per cent, to two places
  pub record IsResponseOf (q : RiskProfile W) (r : ProfileResponse W) : Type 0 where
    pub same : r.id ≡ q.id
    pub named : r.name ≡ q.name
    pub active : r.is_active ≡ q.is_active
    pub risk :
        r.max_risk_per_trade_percent
        ≡ div (round (mul (mul q.max_risk_per_trade (number 100)) (number 100))) (number 100)
    pub drawdown :
        r.max_daily_drawdown_percent
        ≡ div (round (mul (mul q.max_daily_drawdown (number 100)) (number 100))) (number 100)
    pub trades : r.max_open_trades ≡ q.max_open_trades
    pub ratio :
        r.min_risk_reward_ratio
        ≡ div (round (mul q.min_risk_reward_ratio (number 100))) (number 100)

  -- a stored profile with another id and the name
  pub record IsNamesake (name : String) (p q : RiskProfile W) (rows : List (RiskProfile W))
      : Type 0 where
    pub stored : find_first (λ x. not (x.id == p.id) && str_eq name x.name) rows ≡ some q
    pub other : q.id ≢ p.id
    pub named : q.name ≡ name

  pub is_name_taken-IsNamesake :
      (given : Option String) (p : RiskProfile W) (rows : List (RiskProfile W))
      → is_name_taken given p.id rows ≡ true
      → (name : String) × (q : RiskProfile W) × (given ≡ some name) × IsNamesake name p q rows
  is_name_taken-IsNamesake none p rows h = ground arith
  is_name_taken-IsNamesake (some name) p rows h =
      elim (Option-cases (find_first (has_name_of name p.id) rows)) [
        | inl e ↦ absurd (ground (arith, e, h))
        | inr (q, e) ↦
            let passed = find_first_passes (has_name_of name p.id) rows q e in
            let same : name ≡ q.name = (str_eq_iff name q.name).0 (ground (arith, passed)) in
            (
              name,
              q,
              refl,
              record { stored = e; other = λ k. ground (arith, passed, k); named = sym same },
            )
      ]

  -- a value that its column cannot hold
  pub data IsTooLarge (dto : ProfileUpdate W) : Type 0 where
    risk_too_large :
        (x : W)
        → dto.max_risk_per_trade_percent ≡ some x
        → fits 12 8 (div x (number 100)) ≡ false
        → IsTooLarge dto
    drawdown_too_large :
        (x : W)
        → dto.max_daily_drawdown_percent ≡ some x
        → fits 12 8 (div x (number 100)) ≡ false
        → IsTooLarge dto
    trades_too_large : (k : ℕ) → dto.max_open_trades ≡ some k → 2 ^ 31 ≤ k → IsTooLarge dto
    ratio_too_large :
        (x : W) → dto.min_risk_reward_ratio ≡ some x → fits 12 8 x ≡ false → IsTooLarge dto

  pub updated_profile-IsUpdateOf :
      (dto : ProfileUpdate W) (p : RiskProfile W) → IsUpdateOf dto p (updated_profile dto p)
  updated_profile-IsUpdateOf dto p = record {
    same = refl;
    active = refl;
    named = or_default-IsSet_same dto.name p.name;
    risk =
        or_default-IsWritten dto.max_risk_per_trade_percent (λ x. column 8 (div x (number 100)))
          p.max_risk_per_trade;
    drawdown =
        or_default-IsWritten dto.max_daily_drawdown_percent (λ x. column 8 (div x (number 100)))
          p.max_daily_drawdown;
    trades = or_default-IsSet_same dto.max_open_trades p.max_open_trades;
    ratio = or_default-IsWritten dto.min_risk_reward_ratio (column 8) p.min_risk_reward_ratio;
  }

  pub to_response-IsResponseOf : (q : RiskProfile W) → IsResponseOf q (to_response q)
  to_response-IsResponseOf q = record {
    same = refl;
    named = refl;
    active = refl;
    risk = refl;
    drawdown = refl;
    trades = refl;
    ratio = refl;
  }

  decimal_fits-large :
      (given : Option W) (stored : W → W)
      → decimal_fits (map_some stored given) ≡ false
      → (x : W) × (given ≡ some x) × (fits 12 8 (stored x) ≡ false)
  decimal_fits-large none stored h = ground arith
  decimal_fits-large (some x) stored h = (x, refl, h)

  decimal_fits-large_itself :
      (given : Option W)
      → decimal_fits given ≡ false
      → (x : W) × (given ≡ some x) × (fits 12 8 x ≡ false)
  decimal_fits-large_itself none h = ground arith
  decimal_fits-large_itself (some x) h = (x, refl, h)

  pub update_fits-IsTooLarge : (dto : ProfileUpdate W) → update_fits dto ≡ false → IsTooLarge dto
  update_fits-IsTooLarge dto h =
      let fraction : W → W = λ x. div x (number 100) in
      elim (Bool-cases (decimal_fits (map_some fraction dto.max_risk_per_trade_percent))) [
        | inr f ↦
            let (x, g, o) = decimal_fits-large dto.max_risk_per_trade_percent fraction f in
            risk_too_large x g o
        | inl a ↦
            elim (Bool-cases (decimal_fits (map_some fraction dto.max_daily_drawdown_percent))) [
              | inr f ↦
                  let (x, g, o) = decimal_fits-large dto.max_daily_drawdown_percent fraction f in
                  drawdown_too_large x g o
              | inl b ↦ elim (Bool-cases (int_fits dto.max_open_trades)) [
                | inr f ↦
                    let (k, g, o) = int_fits-large dto.max_open_trades f in trades_too_large k g o
                | inl c ↦
                    let (x, g, o) =
                      decimal_fits-large_itself dto.min_risk_reward_ratio (ground arith) in
                    ratio_too_large x g o
              ]
            ]
      ]
