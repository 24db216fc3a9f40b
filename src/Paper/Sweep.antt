-- ===== src/Paper/Sweep.antt =====
-- `evaluateOpenTradesOnCandle`: no open trade that the candle reaches is left open.
use mathlib.Core.List.{Memᴰ}
use mathlib.Core.List.Memᴰ
use trading_backend.Base.{
  ◌==◌, ==_self, Bool-cases, Option-cases, is_some, length, All, find_many, update_where, take,
  All-weaken, ℕ, zero, suc, ◌≤◌, ◌≡◌, refl, sym, subst, inl, inr, Bool, true, false, ◌&&◌, none,
  some, List, [], ◌∷◌, arith,
}
use trading_backend.Number.Interface.{Number}
use trading_backend.Paper.{
  profit, closed_row, close_trade, close_triggered, evaluate_open_trades_on_candle,
}
use trading_backend.Paper.Candle.{exit_at, close_input_for_candle}
use trading_backend.Paper.Closed.{percent_of}
use trading_backend.Paper.Closing.{close_trade_row}
use trading_backend.Store.Entities.{PaperTrade, MarketCandle}
use trading_backend.Store.Enums.{TradeDirection, PaperTradeStatus, is_opened}
use trading_backend.Store.World.{World, Env, Result-cases, ok}

module _ {W : Type 0} ⦃n : Number W⦄ where
  open n use {le}

  -- an open trade of the candle's instrument whose stop loss or take profit the candle reaches
  abbrev pub is_reached : MarketCandle W → PaperTrade W → Bool
  is_reached c t =
      (t.instrument_id == c.instrument_id && is_opened t.status)
      && is_some (close_input_for_candle t c)

  -- every reached row is still to come
  abbrev IsAhead : MarketCandle W → List (PaperTrade W) → List (PaperTrade W) → Type 0
  IsAhead c ts rows = All (λ r. is_reached c r ≡ true → Memᴰ r ts) rows

  IsAhead-close :
      (c : MarketCandle W) (t : PaperTrade W) (ts : List (PaperTrade W))
      (f : PaperTrade W → PaperTrade W) (rows : List (PaperTrade W))
      → ((r : PaperTrade W) → is_opened (f r).status ≡ false)
      → IsAhead c (t ∷ ts) rows
      → IsAhead c ts (update_where (λ r. r.id == t.id) f rows)
  unfolding update_where
  IsAhead-close c t ts f [] h k = tt
  IsAhead-close c t ts f (r ∷ rows) h (a, k) = elim (Bool-cases (r.id == t.id)) [
    | inl e ↦ (rw e (λ q. let z = h r in absurd (ground arith)), IsAhead-close c t ts f rows h k)
    | inr e ↦ (
      rw e (λ q. elim (Memᴰ.cases_cons (a q)) [
        | inl z ↦ absurd (ground (arith, ==_self t.id))
        | inr z ↦ z
      ]),
      IsAhead-close c t ts f rows h k,
    )
  ]

  IsAhead-skip :
      (c : MarketCandle W) (t : PaperTrade W) (ts rows : List (PaperTrade W))
      → close_input_for_candle t c ≡ none
      → IsAhead c (t ∷ ts) rows
      → IsAhead c ts rows
  IsAhead-skip c t ts [] h k = tt
  IsAhead-skip c t ts (r ∷ rows) h (a, k) = (
    λ q. elim (Memᴰ.cases_cons (a q)) [ inl z ↦ absurd (ground arith) | inr z ↦ z ],
    IsAhead-skip c t ts rows h k,
  )

  IsAhead-nil :
      (c : MarketCandle W) (rows : List (PaperTrade W))
      → IsAhead c [] rows
      → All (λ r. is_reached c r ≡ false) rows
  IsAhead-nil c [] k = tt
  IsAhead-nil c (r ∷ rows) (a, k) = (
    elim (Bool-cases (is_reached c r)) [ inl e ↦ absurd (Memᴰ.not-nil (a e)) | inr e ↦ e ],
    IsAhead-nil c rows k,
  )

  find_many-IsAhead :
      (c : MarketCandle W) (all rows : List (PaperTrade W))
      → ((r : PaperTrade W)
          → Memᴰ r (find_many (λ t. t.instrument_id == c.instrument_id && is_opened t.status) rows)
          → Memᴰ r all)
      → IsAhead c all rows
  unfolding find_many
  find_many-IsAhead c all [] h = tt
  find_many-IsAhead c all (r ∷ rows) h =
      elim (Bool-cases (r.instrument_id == c.instrument_id && is_opened r.status)) [
        | inl e ↦ (
          (λ q. h r (rw e (Memᴰ.head refl))),
          find_many-IsAhead c all rows (λ s k. h s (rw e (Memᴰ.tail k))),
        )
        | inr e ↦ ((λ q. absurd (ground arith)), find_many-IsAhead c all rows (λ s k. h s (rw e k)))
      ]

  take-length-le : (m : ℕ) (ts : List (PaperTrade W)) → length ts ≤ m → take m ts ≡ ts
  unfolding take
  take-length-le zero [] h = refl
  take-length-le zero (t ∷ ts) h = absurd (omega arith)
  take-length-le (suc m) [] h = refl
  take-length-le (suc m) (t ∷ ts) h = rw (take-length-le m ts (omega arith))

  close_triggered-IsAhead :
      (env : Env W) (c : MarketCandle W) (ts : List (PaperTrade W)) (w : World W)
      {closed : List (PaperTrade W)}
      → (close_triggered env c ts w).0 ≡ ok closed
      → IsAhead c ts w.paper_trades
      → IsAhead c [] (close_triggered env c ts w).1.paper_trades
  unfolding close_triggered
  close_triggered-IsAhead env c [] w h k = k
  close_triggered-IsAhead env c (t ∷ ts) w {closed} h k =
      elim (Option-cases (close_input_for_candle t c)) [
        | inl e ↦
            rw (close_triggered, e)
              (close_triggered-IsAhead env c ts w {closed = closed} (ground arith)
                (IsAhead-skip c t ts w.paper_trades e k))
        | inr (x, e) ↦
            let out = close_trade env t.id x.close_price x.close_reason w in
            elim (Result-cases out.0) [
              | inr (y, z) ↦ absurd (ground arith)
              | inl (y, z) ↦ elim (Result-cases (close_triggered env c ts out.1).0) [
                | inr (y1, z1) ↦ absurd (ground arith)
                | inl (y1, z1) ↦
                    let (o, a, q, r, f, b, es) =
                      close_trade_row env t.id x.close_price x.close_reason w z in
                    let change =
                      closed_row env x.close_price (profit o x.close_price)
                        (percent_of a (profit o x.close_price)) x.close_reason in
                    let ahead : IsAhead c ts out.1.paper_trades =
                      rw f (IsAhead-close c t ts change w.paper_trades (λ r. refl) k) in
                    let same : (close_triggered env c (t ∷ ts) w).1
                        ≡ (close_triggered env c ts out.1).1 =
                      ground arith in
                    subst (λ v. IsAhead c [] v.paper_trades) (sym same)
                      (close_triggered-IsAhead env c ts out.1 z1 ahead)
              ]
            ]
      ]

  evaluate_open_trades_on_candle-unreached :
      (env : Env W) (c : MarketCandle W) (w : World W) {closed : List (PaperTrade W)}
      → length
          (find_many (λ t. t.instrument_id == c.instrument_id && is_opened t.status) w.paper_trades)
        ≤ 200
      → (evaluate_open_trades_on_candle env c w).0 ≡ ok closed
      → All (λ t. is_reached c t ≡ false) (evaluate_open_trades_on_candle env c w).1.paper_trades
  unfolding evaluate_open_trades_on_candle
  evaluate_open_trades_on_candle-unreached env c w {closed} few h =
      let all =
        find_many (λ t. t.instrument_id == c.instrument_id && is_opened t.status) w.paper_trades in
      let e : take 200 all ≡ all = take-length-le 200 all few in
      IsAhead-nil c _ (
        close_triggered-IsAhead env c (take 200 all) w h
          (find_many-IsAhead c (take 200 all) w.paper_trades (λ r k. rw e k)))

  -- the candle stays above the stop loss and below the take profit of a BUY, or the reverse of a SELL
  abbrev pub StaysBetween : TradeDirection → W → W → MarketCandle W → Type 0
  StaysBetween TradeDirection.buy stop target c =
      (le c.low stop ≡ false) × (le target c.high ≡ false)
  StaysBetween TradeDirection.sell stop target c =
      (le stop c.high ≡ false) × (le c.low target ≡ false)

  -- A trade that is not open, of another instrument or without both levels; or whose levels the candle
  -- stays between.
  abbrev pub IsUnreached : MarketCandle W → PaperTrade W → Type 0
  IsUnreached c t =
      t.instrument_id ≡ c.instrument_id
      → t.status ≡ PaperTradeStatus.opened
      → (stop target : W) → t.stop_loss ≡ some stop
      → t.take_profit ≡ some target
      → StaysBetween t.direction stop target c

  exit_at-none :
      (d : TradeDirection) (stop target : W) (c : MarketCandle W)
      → exit_at d stop target c ≡ none
      → StaysBetween d stop target c
  unfolding exit_at
  exit_at-none TradeDirection.buy stop target c h = (ground arith, ground arith)
  exit_at-none TradeDirection.sell stop target c h = (ground arith, ground arith)

  is_reached-IsUnreached :
      (c : MarketCandle W) (t : PaperTrade W) → is_reached c t ≡ false → IsUnreached c t
  unfolding close_input_for_candle
  is_reached-IsUnreached c t h same opened stop target hs ht =
      let self = ==_self c.instrument_id in exit_at-none t.direction stop target c (ground arith)

  -- After a candle is evaluated without an error, no open trade of its instrument with both levels is
  -- left whose stop loss or take profit it reaches (a BUY's stop loss at or above the low or take
  -- profit at or below the high, a SELL's the other way round), if at most 200 trades of the
  -- instrument were open.
  pub evaluate_open_trades_on_candle_sweeps :
      (env : Env W) (c : MarketCandle W) (w : World W) {closed : List (PaperTrade W)}
      → length
          (find_many (λ t. t.instrument_id == c.instrument_id && is_opened t.status) w.paper_trades)
        ≤ 200
      → (evaluate_open_trades_on_candle env c w).0 ≡ ok closed
      → All (IsUnreached c) (evaluate_open_trades_on_candle env c w).1.paper_trades
  evaluate_open_trades_on_candle_sweeps env c w few h =
      All-weaken (λ t. is_reached c t ≡ false) (IsUnreached c) _ (is_reached-IsUnreached c)
        (evaluate_open_trades_on_candle-unreached env c w few h)
