-- ===== src/Fundamental.antt =====
-- src/modules/fundamental and the part of src/modules/economic-events that it calls: may a currency
-- be traded at a time, or is an event of high impact near?
pub mod Calendar
pub mod Created
pub mod Currency
pub mod Window
use trading_backend.Base.{
  ltb, leb, if◌then◌else◌, is_some, find_many, ℕ, ◌+◌, ◌-◌, ◌*◌, String, Bool, true, false, ◌&&◌,
  Option, none, some, List, [], ◌∷◌,
}
use trading_backend.Fundamental.Currency.{same_codes, normalize_currency}
use trading_backend.Store.Entities.{EconomicEvent}
use trading_backend.Store.Enums.{is_high}
use trading_backend.Store.Events.{fundamental_evaluated, fundamental_block}
use trading_backend.Store.World.{Action, ◌>>=◌, ◌>>◌, pure, gets, emit}

pub record FundamentalResult : Type 0 where
  pub is_block : Bool
  pub currency : List ℕ
  pub blocking_event : Option EconomicEvent
  pub reason : String

-- `reason`, by whether an event blocks
abbrev pub fundamental_reason : Bool → String
fundamental_reason true = "Evento económico de alto impacto dentro de la ventana de bloqueo."
fundamental_reason false = "No hay eventos de alto impacto dentro de la ventana de bloqueo."

abbrev pub window_minutes : ℕ
window_minutes = 15

-- `findFirst` with `orderBy: { eventTime: 'asc' }`: the earliest of the rows that pass
unfoldable pub earliest : List EconomicEvent → Option EconomicEvent
earliest [] = none
earliest (e ∷ es) = elim (earliest es) [
  | none ↦ some e
  | some f ↦ if ltb f.event_time e.event_time then some f else some e
]

-- The `where` of `findBlockingEvent`. `from` stops at time 0, before which no event lies.
unfoldable pub is_blocking : List ℕ → ℕ → ℕ → ℕ → EconomicEvent → Bool
is_blocking currency timestamp before after e =
    same_codes e.currency (normalize_currency currency)
    && is_high e.impact
    && leb (timestamp - before * 60_000) e.event_time
    && leb e.event_time (timestamp + after * 60_000)

unfoldable pub find_blocking_event : List ℕ → ℕ → ℕ → ℕ → List EconomicEvent → Option EconomicEvent
unfolding find_many is_blocking earliest
find_blocking_event currency timestamp before after rows =
    earliest (find_many (is_blocking currency timestamp before after) rows)

module _ {W : Type 0} where
  unfoldable pub announce : FundamentalResult → Action W (Unit {0})
  announce r = do
    emit (fundamental_evaluated r.is_block r.currency)
    elim r.blocking_event [ none ↦ pure tt | some e ↦ emit (fundamental_block e.id r.currency) ]

  -- `evaluate`
  unfoldable pub evaluate : List ℕ → ℕ → Bool → Action W FundamentalResult
  unfolding find_blocking_event announce
  evaluate input timestamp emit_events = do
    let currency = normalize_currency input
    found ←
        gets λ w.
          find_blocking_event currency timestamp window_minutes window_minutes w.economic_events
    let result : FundamentalResult = record {
      is_block = is_some found;
      currency = currency;
      blocking_event = found;
      reason = fundamental_reason (is_some found);
    }
    if emit_events then announce result else pure tt
    pure result
