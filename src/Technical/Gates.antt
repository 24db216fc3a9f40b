-- ===== src/Technical/Gates.antt =====
-- What an analysis needs of the state and the worker, and what it leaves.
use trading_backend.Base.{
  leb, ◌==◌, leb→le, Bool-cases, length, All, find_many, take, All-weaken, ℕ, zero, suc, ◌≤◌, ◌≡◌,
  refl, ap, ◌∙◌, inl, inr, Bool, true, ◌&&◌, List, [], ◌∷◌, arith,
}
use trading_backend.Generation.{insert_latest, sort_latest}
use trading_backend.Number.Interface.{Number}
use trading_backend.Store.Entities.{MarketCandle}
use trading_backend.Store.Enums.{Timeframe, is_same_timeframe}
use trading_backend.Store.World.{World}
use trading_backend.Strategy.Trend.{insert_candle, sort_candles}
use trading_backend.Technical.{recent_candles, confirmations}

module _ {W : Type 0} where
  abbrev pub is_in_market : ℕ → Timeframe → MarketCandle W → Bool
  is_in_market i t c = c.instrument_id == i && is_same_timeframe t c.timeframe

  -- in the order of their times
  abbrev pub IsInOrder : List (MarketCandle W) → Type 0
  IsInOrder [] = Unit
  IsInOrder (c ∷ cs) = All (λ d. c.timestamp ≤ d.timestamp) cs × IsInOrder cs

  -- at least min_candles and at most limit candles of a market, in the order of their times
  abbrev pub IsHistory : ℕ → ℕ → ℕ → Timeframe → List (MarketCandle W) → Type 0
  IsHistory i min_candles limit t cs =
      (min_candles ≤ length cs)
      × (length cs ≤ limit)
      × All (λ c. is_in_market i t c ≡ true) cs
      × IsInOrder cs

  find_many-passes :
      (p : MarketCandle W → Bool) (cs : List (MarketCandle W))
      → All (λ c. p c ≡ true) (find_many p cs)
  unfolding find_many
  find_many-passes p [] = tt
  find_many-passes p (c ∷ cs) = elim (Bool-cases (p c)) [
    | inl e ↦ rw e (e, find_many-passes p cs)
    | inr e ↦ rw e (find_many-passes p cs)
  ]

  length-take : (k : ℕ) (cs : List (MarketCandle W)) → length (take k cs) ≤ k
  unfolding take
  length-take zero cs = omega arith
  length-take (suc k) [] = omega arith
  length-take (suc k) (c ∷ cs) = let l = length-take k cs in omega arith

module _ {W : Type 0} (P : MarketCandle W → Type 0) where
  All-insert_latest :
      (c : MarketCandle W) (cs : List (MarketCandle W))
      → P c
      → All P cs
      → All P (insert_latest c cs)
  unfolding insert_latest
  All-insert_latest c [] p h = (p, tt)
  All-insert_latest c (d ∷ ds) p (q, h) = elim (Bool-cases (leb d.timestamp c.timestamp)) [
    | inl e ↦ rw e (p, (q, h))
    | inr e ↦ rw e (q, All-insert_latest c ds p h)
  ]

  All-sort_latest : (cs : List (MarketCandle W)) → All P cs → All P (sort_latest cs)
  unfolding sort_latest
  All-sort_latest [] h = tt
  All-sort_latest (c ∷ cs) (p, h) = All-insert_latest c (sort_latest cs) p (All-sort_latest cs h)

  All-take : (k : ℕ) (cs : List (MarketCandle W)) → All P cs → All P (take k cs)
  unfolding take
  All-take zero cs h = tt
  All-take (suc k) [] h = tt
  All-take (suc k) (c ∷ cs) (p, h) = (p, All-take k cs h)

module _ {W : Type 0} (P : MarketCandle W → Type 0) ⦃n : Number W⦄ where
  All-insert_candle :
      (c : MarketCandle W) (cs : List (MarketCandle W))
      → P c
      → All P cs
      → All P (insert_candle c cs)
  unfolding insert_candle
  All-insert_candle c [] p h = (p, tt)
  All-insert_candle c (d ∷ ds) p (q, h) = elim (Bool-cases (leb c.timestamp d.timestamp)) [
    | inl e ↦ rw e (p, (q, h))
    | inr e ↦ rw e (q, All-insert_candle c ds p h)
  ]

  All-sort_candles : (cs : List (MarketCandle W)) → All P cs → All P (sort_candles cs)
  unfolding sort_candles
  All-sort_candles [] h = tt
  All-sort_candles (c ∷ cs) (p, h) = All-insert_candle c (sort_candles cs) p (All-sort_candles cs h)

module _ {W : Type 0} ⦃n : Number W⦄ where
  insert_candle-IsInOrder :
      (c : MarketCandle W) (cs : List (MarketCandle W))
      → IsInOrder cs
      → IsInOrder (insert_candle c cs)
  unfolding insert_candle
  insert_candle-IsInOrder c [] h = (tt, tt)
  insert_candle-IsInOrder c (d ∷ ds) (a, h) = elim (Bool-cases (leb c.timestamp d.timestamp)) [
    | inl e ↦
        let l : c.timestamp ≤ d.timestamp = leb→le c.timestamp d.timestamp e in
        rw e (
          (
            l,
            All-weaken (λ x. d.timestamp ≤ x.timestamp) (λ x. c.timestamp ≤ x.timestamp) ds
                (λ x q. omega (arith, l, q)) a,
          ),
          (a, h),
        )
    | inr e ↦
        let l : d.timestamp ≤ c.timestamp = ground arith in
        rw e (
          All-insert_candle (λ x. d.timestamp ≤ x.timestamp) c ds l a,
          insert_candle-IsInOrder c ds h,
        )
  ]

  sort_candles-IsInOrder : (cs : List (MarketCandle W)) → IsInOrder (sort_candles cs)
  unfolding sort_candles
  sort_candles-IsInOrder [] = tt
  sort_candles-IsInOrder (c ∷ cs) =
      insert_candle-IsInOrder c (sort_candles cs) (sort_candles-IsInOrder cs)

  length-insert_candle :
      (c : MarketCandle W) (cs : List (MarketCandle W))
      → length (insert_candle c cs) ≡ suc (length cs)
  unfolding insert_candle
  length-insert_candle c [] = refl
  length-insert_candle c (d ∷ ds) = elim (Bool-cases (leb c.timestamp d.timestamp)) [
    | inl e ↦ rw e refl
    | inr e ↦ rw e (ap suc (length-insert_candle c ds))
  ]

  length-sort_candles : (cs : List (MarketCandle W)) → length (sort_candles cs) ≡ length cs
  unfolding sort_candles
  length-sort_candles [] = refl
  length-sort_candles (c ∷ cs) =
      length-insert_candle c (sort_candles cs) ∙ ap suc (length-sort_candles cs)

  pub recent_candles-IsHistory :
      (i : ℕ) (t : Timeframe) (min_candles limit : ℕ) (w : World W)
      → leb min_candles (length (recent_candles i t limit w)) ≡ true
      → IsHistory i min_candles limit t (sort_candles (recent_candles i t limit w))
  recent_candles-IsHistory i t min_candles limit w h =
      let market = find_many (is_in_market i t) w.candles in
      let cs = recent_candles i t limit w in
      let P : MarketCandle W → Type 0 = λ c. is_in_market i t c ≡ true in
      let same = length-sort_candles cs in
      let l : min_candles ≤ length cs = leb→le min_candles (length cs) h in
      let u : length cs ≤ limit = length-take limit (sort_latest market) in
      (
        rw same l,
        rw same u,
        All-sort_candles P cs (
            All-take P limit (sort_latest market)
              (All-sort_latest P market (find_many-passes (is_in_market i t) w.candles))),
        sort_candles-IsInOrder cs,
      )

  pub confirmations-IsHistory :
      (i min_candles limit : ℕ) (w : World W) (ts : List Timeframe)
      → All
          (λ p. IsHistory i min_candles limit p.0 p.1)
          (confirmations (λ t. recent_candles i t limit w) min_candles ts)
  unfolding confirmations
  confirmations-IsHistory i min_candles limit w [] = tt
  confirmations-IsHistory i min_candles limit w (t ∷ ts) =
      elim (Bool-cases (leb min_candles (length (recent_candles i t limit w)))) [
        | inl e ↦ rw e (
          recent_candles-IsHistory i t min_candles limit w e,
          confirmations-IsHistory i min_candles limit w ts,
        )
        | inr e ↦ rw e (confirmations-IsHistory i min_candles limit w ts)
      ]
