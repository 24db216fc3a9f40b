-- ===== src/Store/World.antt =====
-- The state that the services share, the settings and the outside world that they are given, and an
-- action on the state that may throw. Every table is a list, its newest row first.
use trading_backend.Base.{
  if◌then◌else◌, ℕ, suc, ◌≡◌, refl, ◌⊎◌, inl, inr, Bool, Option, none, some, List, ◌∷◌,
}
use trading_backend.Store.Entities.{
  User, Instrument, Signal, AgentDecision, RiskProfile, RiskAssessment, SupervisorDecision,
  ManualTradingDecision, PaperTradingAccount, PaperTrade, OrderRequest, LiveOrderResponse,
  LiveTrade, LiveExecutionLog, LiveTradingLimits, BrokerConnectionLog, BrokerOrderSimulation,
  MarketCandle, EconomicEvent, SystemConfig,
}
use trading_backend.Store.Events.{TradingEvent, Job}
use trading_backend.Store.Text.{Text, Exception, bad_request}

pub record World (W : Type 0) : Type 0 where
  -- the id that the next row gets: ids never repeat
  pub next_id : ℕ
  pub users : List User
  pub instruments : List Instrument
  pub candles : List (MarketCandle W)
  pub signals : List (Signal W)
  pub agent_decisions : List (AgentDecision W)
  pub risk_profiles : List (RiskProfile W)
  pub risk_assessments : List (RiskAssessment W)
  pub supervisor_decisions : List (SupervisorDecision W)
  pub manual_decisions : List (ManualTradingDecision W)
  pub accounts : List (PaperTradingAccount W)
  pub paper_trades : List (PaperTrade W)
  pub live_trades : List (LiveTrade W)
  pub live_logs : List (LiveExecutionLog W)
  pub live_limits : Option (LiveTradingLimits W)
  pub broker_logs : List (BrokerConnectionLog W)
  pub simulations : List (BrokerOrderSimulation W)
  pub economic_events : List EconomicEvent
  pub system_config : Option SystemConfig
  -- what has gone out, the newest first: events, jobs, and orders handed to the broker's connector
  pub events : List (TradingEvent W)
  pub jobs : List Job
  pub dry_runs : List (OrderRequest W)
  pub live_orders : List (OrderRequest W)

-- The answers of POST /mt5/orders/dry-run and POST /mt5/orders/place.
pub record DryRunResponse (W : Type 0) : Type 0 where
  pub would_execute : Bool
  pub reason : Text W

pub data PlaceResponse (W : Type 0) : Type 0 where
  blocked : Text W → PlaceResponse W
  placed : LiveOrderResponse W → PlaceResponse W

pub data Result (W A : Type 0) : Type 0 where
  ok : A → Result W A
  err : Exception W → Result W A

-- The keys of config/configuration.ts that the services read; an Option where the code has a
-- default of its own for a missing key.
pub record Config (W : Type 0) : Type 0 where
  pub paper_trading_enabled : Bool
  pub max_open_trades_per_symbol : ℕ
  pub supervisor_min_confidence : ℕ
  pub supervisor_max_open_trades : ℕ
  pub supervisor_max_daily_drawdown : W
  pub signals_min_confidence : Option ℕ
  pub enable_live_trading : Option Bool
  pub mt5_dry_run : Option Bool
  pub block_ranging_market : Option Bool
  pub block_mtf_conflict : Option Bool
  pub atr_stop_loss_multiplier : Option W
  pub atr_take_profit_multiplier : Option W

-- What one call finds outside: the settings, the time, the start of a time's day in the server's
-- zone, how the queue and the MT5 worker answer, and whether the database aborts a serializable
-- transaction for a conflict.
pub record Env (W : Type 0) : Type 0 where
  pub config : Config W
  pub now : ℕ
  pub start_of_day : ℕ → ℕ
  pub enqueue : Job → Result W (Unit {0})
  pub dry_run : OrderRequest W → Result W (DryRunResponse W)
  pub place : OrderRequest W → Result W (PlaceResponse W)
  pub aborts : Bool

-- An action on a state S that may throw.
abbrev pub StateAction : Type 0 → Type 0 → Type 0 → Type 0
StateAction S W A = S → Result W A × S

abbrev pub Action : Type 0 → Type 0 → Type 0
Action W A = StateAction (World W) W A

-- What was written before a throw stays written.
infixl 5 ◌>>=◌ ◌>>◌
abbrev pub ◌>>=◌ :
    {S W A B : Type 0} → StateAction S W A → (A → StateAction S W B) → StateAction S W B
◌>>=◌ m f w = let (r, w') = m w in elim r [ ok a ↦ f a w' | err e ↦ (err e, w') ]

abbrev pub ◌>>◌ :
    {S W B : Type 0} → StateAction S W (Unit {0}) → StateAction S W B → StateAction S W B
m >> k = m >>= λ _. k

abbrev pub pure : {S W A : Type 0} → A → StateAction S W A
pure a w = (ok a, w)

abbrev pub throw : {S W A : Type 0} → Exception W → StateAction S W A
throw e w = (err e, w)

-- `if (test) throw e;`
abbrev pub throw_if : {S W : Type 0} → Bool → Exception W → StateAction S W (Unit {0})
throw_if c e w = (if c then err e else ok tt, w)

abbrev pub throw_unless : {S W : Type 0} → Bool → Exception W → StateAction S W (Unit {0})
throw_unless c e w = (if c then ok tt else err e, w)

abbrev pub gets : {S W A : Type 0} → (S → A) → StateAction S W A
gets f w = (ok (f w), w)

abbrev pub modify : {S W : Type 0} → (S → S) → StateAction S W (Unit {0})
modify f w = (ok tt, f w)

-- the row, or throw
abbrev pub or_throw : {S W A : Type 0} → Option A → Exception W → StateAction S W A
or_throw o e w = (elim o [ none ↦ err e | some a ↦ ok a ], w)

abbrev pub lift : {S W A : Type 0} → Result W A → StateAction S W A
lift r w = (r, w)

-- `try { m } catch (e) { h(e) }`
abbrev pub catch :
    {S W A : Type 0} → StateAction S W A → (Exception W → StateAction S W A) → StateAction S W A
catch m h w = let (r, w') = m w in elim r [ ok a ↦ (ok a, w') | err e ↦ h e w' ]

-- `$transaction`: a throw undoes what the action wrote, but for the row of `getConfig`, which is
-- written outside the transaction.
abbrev pub transaction : {W A : Type 0} → Action W A → Action W A
transaction m w =
    let (r, w') = m w in
    elim r [ ok a ↦ (ok a, w') | err e ↦ (err e, record w { system_config = w'.system_config }) ]

abbrev pub emit : {W : Type 0} → TradingEvent W → Action W (Unit {0})
emit e w = (ok tt, record w { events = e ∷ w.events })

-- a fresh id
abbrev pub fresh : {W : Type 0} → Action W ℕ
fresh w = (ok w.next_id, record w { next_id = suc w.next_id })

-- The value of a result, or another.
abbrev pub value_or : {W A : Type 0} → A → Result W A → A
value_or d (ok a) = a
value_or d (err e) = d

-- A result that is a throw of `BadRequestException`.
abbrev pub IsBadRequest : {W A : Type 0} → Result W A → Type 0
IsBadRequest (err (bad_request t)) = Unit
IsBadRequest _ = ⊥

-- A result that is any throw.
abbrev pub IsThrow : {W A : Type 0} → Result W A → Type 0
IsThrow (err e) = Unit
IsThrow (ok a) = ⊥

pub Result-cases :
    {W A : Type 0} (r : Result W A) → ((a : A) × (r ≡ ok a)) ⊎ ((e : Exception W) × (r ≡ err e))
Result-cases (ok a) = inl (a, refl)
Result-cases (err e) = inr (e, refl)
