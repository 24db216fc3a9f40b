-- ===== src/MarketData/Insertion.antt =====
-- The insert of fetched candles: one row for each key, and nothing new the second time.
use trading_backend.Base.{
  ==_self, Option-cases, is_some, length, All, find_first, ℕ, suc, ◌+◌, ◌≤◌, ◌≡◌, refl, sym, subst,
  inl, inr, Bool, true, none, List, [], ◌∷◌, arith,
}
use trading_backend.MarketData.{has_key, candle_row, insert_candles}
use trading_backend.MarketData.Context.{NormalizedCandle, SyncStore}
use trading_backend.Number.Interface.{Number}
use trading_backend.Store.Entities.{MarketCandle}
use trading_backend.Store.Enums.{Timeframe, is_same_timeframe_self}

module _ {W : Type 0} where
  abbrev stored : ℕ → Timeframe → ℕ → List (MarketCandle W) → Bool
  stored i t timestamp cs = is_some (find_first (has_key i t timestamp) cs)

  -- no two rows have the same key
  abbrev pub HasUniqueKeys : List (MarketCandle W) → Type 0
  HasUniqueKeys [] = Unit
  HasUniqueKeys (c ∷ cs) =
      (find_first (has_key c.instrument_id c.timeframe c.timestamp) cs ≡ none) × HasUniqueKeys cs

module _ {W : Type 0} ⦃n : Number W⦄ where
  has_key-row :
      (i : ℕ) (c : NormalizedCandle W) (id : ℕ)
      → has_key i c.timeframe c.timestamp (candle_row i c id) ≡ true
  has_key-row i c id = rw (==_self i, is_same_timeframe_self c.timeframe, ==_self c.timestamp) refl

  stored-keeps :
      (i j : ℕ) (cs : List (NormalizedCandle W)) (s : SyncStore W) (t : Timeframe) (timestamp : ℕ)
      → stored j t timestamp s.candles ≡ true
      → stored j t timestamp (insert_candles i cs s).1.candles ≡ true
  unfolding insert_candles find_first
  stored-keeps i j [] s t timestamp h = h
  stored-keeps i j (c ∷ cs) s t timestamp h =
      elim (Option-cases (find_first (has_key i c.timeframe c.timestamp) s.candles)) [
        | inr (old, e) ↦ rw (insert_candles, e) (stored-keeps i j cs s t timestamp h)
        | inl e ↦
            rw (insert_candles, e)
              (stored-keeps i j cs
                (record s {
                  next_id = suc s.next_id;
                  candles = candle_row i c s.next_id ∷ s.candles;
                })
                t timestamp (ground arith))
      ]

  insert_candles-stored :
      (i : ℕ) (cs : List (NormalizedCandle W)) (s : SyncStore W)
      → All (λ c. stored i c.timeframe c.timestamp (insert_candles i cs s).1.candles ≡ true) cs
  unfolding insert_candles find_first
  insert_candles-stored i [] s = tt
  insert_candles-stored i (c ∷ cs) s =
      let AllStored = λ (out : ℕ × SyncStore W).
        All (λ d. stored i d.timeframe d.timestamp out.1.candles ≡ true) (c ∷ cs) in
      elim (Option-cases (find_first (has_key i c.timeframe c.timestamp) s.candles)) [
        | inr (old, e) ↦
            let same : insert_candles i (c ∷ cs) s ≡ insert_candles i cs s =
              rw (insert_candles, e) refl in
            subst AllStored (sym same) (
              stored-keeps i i cs s c.timeframe c.timestamp (rw e refl),
              insert_candles-stored i cs s,
            )
        | inl e ↦
            let s1 = record s {
              next_id = suc s.next_id;
              candles = candle_row i c s.next_id ∷ s.candles;
            } in
            let rest = insert_candles i cs s1 in
            let same : insert_candles i (c ∷ cs) s ≡ (suc rest.0, rest.1) =
              rw (insert_candles, e) refl in
            let k : stored i c.timeframe c.timestamp s1.candles ≡ true =
              rw (has_key-row i c s.next_id) refl in
            subst AllStored (sym same)
              (stored-keeps i i cs s1 c.timeframe c.timestamp k, insert_candles-stored i cs s1)
      ]

  insert_candles-nothing :
      (i : ℕ) (cs : List (NormalizedCandle W)) (s : SyncStore W)
      → All (λ c. stored i c.timeframe c.timestamp s.candles ≡ true) cs
      → insert_candles i cs s ≡ (0, s)
  unfolding insert_candles
  insert_candles-nothing i [] s h = refl
  insert_candles-nothing i (c ∷ cs) s (a, h) =
      elim (Option-cases (find_first (has_key i c.timeframe c.timestamp) s.candles)) [
        | inr (old, e) ↦ rw (insert_candles, e) (insert_candles-nothing i cs s h)
        | inl e ↦ absurd (ground arith)
      ]

  insert_candles-HasUniqueKeys :
      (i : ℕ) (cs : List (NormalizedCandle W)) (s : SyncStore W)
      → HasUniqueKeys s.candles
      → HasUniqueKeys (insert_candles i cs s).1.candles
        × (length (insert_candles i cs s).1.candles ≡ (insert_candles i cs s).0 + length s.candles)
  unfolding insert_candles
  insert_candles-HasUniqueKeys i [] s h = (h, omega arith)
  insert_candles-HasUniqueKeys i (c ∷ cs) s h =
      elim (Option-cases (find_first (has_key i c.timeframe c.timestamp) s.candles)) [
        | inr (old, e) ↦ rw (insert_candles, e) (insert_candles-HasUniqueKeys i cs s h)
        | inl e ↦
            let s1 = record s {
              next_id = suc s.next_id;
              candles = candle_row i c s.next_id ∷ s.candles;
            } in
            let (a, b) = insert_candles-HasUniqueKeys i cs s1 (e, h) in
            rw (insert_candles, e) (a, omega (arith, b))
      ]

  pub insert_candles-le :
      (i : ℕ) (cs : List (NormalizedCandle W)) (s : SyncStore W)
      → (insert_candles i cs s).0 ≤ length cs
  unfolding insert_candles
  insert_candles-le i [] s = omega arith
  insert_candles-le i (c ∷ cs) s =
      elim (Option-cases (find_first (has_key i c.timeframe c.timestamp) s.candles)) [
        | inr (old, e) ↦ let l = insert_candles-le i cs s in rw (insert_candles, e) (omega arith)
        | inl e ↦
            let l = insert_candles-le i cs (record s {
              next_id = suc s.next_id;
              candles = candle_row i c s.next_id ∷ s.candles;
            }) in
            rw (insert_candles, e) (omega arith)
      ]

  -- The insert of fetched candles keeps the key (instrument, timeframe, time) unique, adds as many rows
  -- as it says, at most one for each fetched candle, and leaves a row for each of them; the same insert
  -- again adds nothing.
  pub insert_candles_once :
      (i : ℕ) (cs : List (NormalizedCandle W)) (s : SyncStore W)
      → HasUniqueKeys s.candles
      → let out = insert_candles i cs s in
        HasUniqueKeys out.1.candles
        × (length out.1.candles ≡ out.0 + length s.candles)
        × (out.0 ≤ length cs)
        × All
            (λ c. is_some (find_first (has_key i c.timeframe c.timestamp) out.1.candles) ≡ true)
            cs
        × (insert_candles i cs out.1 ≡ (0, out.1))
  insert_candles_once i cs s h =
      let (a, b) = insert_candles-HasUniqueKeys i cs s h in
      let all = insert_candles-stored i cs s in
      (
        a,
        b,
        insert_candles-le i cs s,
        all,
        insert_candles-nothing i cs (insert_candles i cs s).1 all,
      )
