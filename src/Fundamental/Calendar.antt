-- ===== src/Fundamental/Calendar.antt =====
-- economic-events/application/economic-events.service.ts: the events that are created, updated and
-- deleted. The title, the source and the notes, which nothing reads, are left out.
use trading_backend.Base.{
  ◌==◌, or_default, map_some, find_first, find_many, update_where, ℕ, Bool, not, Option, List, ◌∷◌,
}
use trading_backend.Fundamental.Currency.{normalize_currency}
use trading_backend.Store.Entities.{EconomicEvent}
use trading_backend.Store.Enums.{EconomicImpact}
use trading_backend.Store.Events.{
  economic_event_created, economic_event_updated, economic_event_deleted,
}
use trading_backend.Store.Text.{say, not_found}
use trading_backend.Store.World.{Action, ◌>>=◌, ◌>>◌, pure, gets, modify, or_throw, emit, fresh}

-- `CreateEconomicEventDto` and `UpdateEconomicEventDto`, the time as it is parsed
pub record EventInput : Type 0 where
  pub currency : List ℕ
  pub impact : EconomicImpact
  pub event_time : ℕ

pub record EventUpdate : Type 0 where
  pub currency : Option (List ℕ)
  pub impact : Option EconomicImpact
  pub event_time : Option ℕ

-- the row that `create` writes
abbrev pub event_row : EventInput → ℕ → EconomicEvent
event_row dto id = record {
  id = id;
  currency = normalize_currency dto.currency;
  impact = dto.impact;
  event_time = dto.event_time;
}

-- the data of `update`: an absent field stays
abbrev pub updated_event : EventUpdate → EconomicEvent → EconomicEvent
updated_event dto e = record e {
  currency = or_default (map_some normalize_currency dto.currency) e.currency;
  impact = or_default dto.impact e.impact;
  event_time = or_default dto.event_time e.event_time;
}

abbrev pub has_event_id : ℕ → EconomicEvent → Bool
has_event_id id e = e.id == id

module _ {W : Type 0} where
  -- `create`
  unfoldable pub create_event : EventInput → Action W EconomicEvent
  create_event dto = do
    id ← fresh
    let row = event_row dto id
    modify λ w. record w { economic_events = row ∷ w.economic_events }
    emit (economic_event_created id)
    pure row

  -- `ensureExists`
  unfoldable pub ensure_exists : ℕ → Action W EconomicEvent
  unfolding find_first
  ensure_exists id = do
    row ← gets λ w. find_first (has_event_id id) w.economic_events
    or_throw row (not_found (say "Economic event not found"))

  -- `update`
  unfoldable pub update_event : ℕ → EventUpdate → Action W EconomicEvent
  unfolding ensure_exists update_where
  update_event id dto = do
    row ← ensure_exists id
    modify λ w. record w {
      economic_events = update_where (has_event_id id) (updated_event dto) w.economic_events;
    }
    emit (economic_event_updated id)
    pure (updated_event dto row)

  -- `delete`
  unfoldable pub delete_event : ℕ → Action W ℕ
  unfolding ensure_exists find_many
  delete_event id = do
    row ← ensure_exists id
    modify λ w. record w {
      economic_events = find_many (λ e. not (has_event_id id e)) w.economic_events;
    }
    emit (economic_event_deleted id)
    pure id
