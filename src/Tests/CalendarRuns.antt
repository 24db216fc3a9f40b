-- ===== src/Tests/CalendarRuns.antt =====
-- An event of the dollar that is created, blocks, and is deleted.
use trading_backend.Base.{◌≡◌, refl, true, arith}
use trading_backend.Fundamental.{FundamentalResult, evaluate}
use trading_backend.Fundamental.Calendar.{EventInput, create_event, delete_event}
use trading_backend.Fundamental.Created.{create_event-delete_event}
use trading_backend.Fundamental.Currency.{codes, normalize_currency}
use trading_backend.Store.Enums.{EconomicImpact}
use trading_backend.Store.World.{ok}
use trading_backend.Tests.Sample.{pending}

abbrev payrolls : EventInput
payrolls = record { currency = codes " usd"; impact = EconomicImpact.high; event_time = 5_000_000 }

create_event-delete_event_example :
    let w1 = (create_event payrolls pending).1 in
    ((r : FundamentalResult) × ((evaluate (codes "USD ") 4_500_000 true w1).0 ≡ ok r)
      × (r.is_block ≡ true))
    × ((delete_event pending.next_id w1).0 ≡ ok pending.next_id)
    × ((delete_event pending.next_id w1).1.economic_events ≡ pending.economic_events)
unfolding normalize_currency
create_event-delete_event_example =
    create_event-delete_event payrolls pending (codes "USD ") 4_500_000 true (omega arith, tt) refl
      refl (omega arith) (omega arith)
