-- ===== src/Fundamental/Created.antt =====
-- What an event that is created blocks, and what is left when it is deleted.
use trading_backend.Base.{
  ◌==◌, ==_self, All, find_first, find_many, ℕ, ◌+◌, ◌≤◌, ◌<◌, ◌≡◌, refl, sym, ap, ◌∙◌, inl, inr,
  Bool, true, false, not, some, List, [], ◌∷◌, arith,
}
use trading_backend.Fundamental.{FundamentalResult, evaluate}
use trading_backend.Fundamental.Calendar.{
  EventInput, event_row, has_event_id, create_event, ensure_exists, delete_event,
}
use trading_backend.Fundamental.Currency.{normalize_currency}
use trading_backend.Fundamental.Window.{evaluate_blocks}
use trading_backend.Store.Entities.{EconomicEvent}
use trading_backend.Store.Enums.{EconomicImpact}
use trading_backend.Store.Events.{economic_event_deleted}
use trading_backend.Store.World.{World, Result, ok}

-- The rows of other ids stay.
others-stay :
    (id : ℕ) (es : List EconomicEvent)
    → All (λ e. e.id < id) es
    → find_many (λ e. not (has_event_id id e)) es ≡ es
unfolding find_many
others-stay id [] h = refl
others-stay id (e ∷ es) (l, h) =
    let other : (e.id == id) ≡ false = ground arith in
    rw other (ap (λ rest. e ∷ rest) (others-stay id es h))

module _ {W : Type 0} where
  delete_event-found :
      (id : ℕ) (e : EconomicEvent) (w : World W)
      → find_first (has_event_id id) w.economic_events ≡ some e
      → delete_event id w ≡ (
        ok id,
        record w {
          economic_events = find_many (λ e. not (has_event_id id e)) w.economic_events;
          events = economic_event_deleted id ∷ w.events;
        },
      )
  unfolding delete_event ensure_exists
  delete_event-found id e w h = ground arith

  -- An event of high impact that is created blocks its currency, however it is spelled, from fifteen
  -- minutes before its time to fifteen minutes after; to delete it leaves the events as they were
  -- before, if the ids of the stored events are below the next id.
  pub create_event-delete_event :
      (dto : EventInput) (w : World W) (input : List ℕ) (timestamp : ℕ) (emit_events : Bool)
      → All (λ e. e.id < w.next_id) w.economic_events
      → dto.impact ≡ EconomicImpact.high
      → normalize_currency input ≡ normalize_currency dto.currency
      → timestamp ≤ dto.event_time + 900_000
      → dto.event_time ≤ timestamp + 900_000
      → let w1 = (create_event dto w).1 in
        ((r : FundamentalResult) × ((evaluate input timestamp emit_events w1).0 ≡ ok r)
          × (r.is_block ≡ true))
        × ((delete_event w.next_id w1).0 ≡ ok w.next_id)
        × ((delete_event w.next_id w1).1.economic_events ≡ w.economic_events)
  unfolding create_event delete_event ensure_exists find_many find_first
  create_event-delete_event dto w input timestamp emit_events fresh_ids high same low up =
      let w1 = (create_event dto w).1 in
      let deleted =
        delete_event-found w.next_id (event_row dto w.next_id) w1 (rw (==_self w.next_id) refl) in
      let (_, (r, q, cases)) = evaluate_blocks input timestamp emit_events w1 in
      (
        (
          r,
          q,
          elim cases [
            | inr (e, b) ↦ b.blocks_for
            | inl allowed ↦
                let (clear, _) = allowed.clear in
                absurd (
                  clear (record {
                    of_currency = sym same;
                    impact_high = high;
                    not_before = low;
                    not_after = up;
                  }))
          ],
        ),
        ap (λ (out : Result W ℕ × World W). out.0) deleted,
        ap (λ (out : Result W ℕ × World W). out.1.economic_events) deleted
            ∙ rw (==_self w.next_id) refl
            ∙ others-stay w.next_id w.economic_events fresh_ids,
      )
