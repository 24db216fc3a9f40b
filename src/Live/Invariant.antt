-- ===== src/Live/Invariant.antt =====
-- What no sequence of live executions can break: the live trades stay apart.
use trading_backend.Base.{
  ==→eq, Bool-cases, find_first, find_many, count_where, count_where-eq-zero, ℕ, suc, ◌≤◌, String,
  ◌≡◌, refl, sym, subst, inl, inr, Bool, true, false, Option, none, List, [], ◌∷◌, arith,
  str_eq_iff,
}
use trading_backend.Live.{executed_row, failed_row, execute_live_from_signal, update_limits}
use trading_backend.Live.Guard.{
  LiveExecutionContext, is_live_of_signal, is_live_of_symbol, is_closed_since, sum_losses,
  daily_loss,
}
use trading_backend.Live.Settling.{IsNumbered, IsSent, row_of, execute_live_from_signal_cases}
use trading_backend.Number.Interface.{Number, number}
use trading_backend.Store.Entities.{LiveOrderResponse, LiveTrade}
use trading_backend.Store.Enums.{is_live_closed}
use trading_backend.Store.Text.{message}
use trading_backend.Store.World.{World, Result, Env}

-- A step of the whole backend, seen from the live trades: an execution, a change of the limits, or
-- an operation of another component, which writes no live trade and takes fresh ids.
pub data LiveStep {W : Type 0} ⦃n : Number W⦄ : World W → World W → Type 0 where
  execution :
      (env : Env W) (i user_id m : ℕ) (w : World W)
      → LiveStep w (execute_live_from_signal env i user_id m w).1
  limits_change :
      (daily : Option ℕ) (loss volume : Option W) (symbols : Option (List (Option String)))
      (active : Option Bool) (w : World W)
      → LiveStep w (update_limits daily loss volume symbols active w).1
  elsewhere :
      (w w' : World W) → w'.live_trades ≡ w.live_trades → w.next_id ≤ w'.next_id → LiveStep w w'

pub data LiveRun {W : Type 0} ⦃n : Number W⦄ : World W → World W → Type 0 where
  halt : (w : World W) → LiveRun w w
  step : {w v u : World W} → LiveStep w v → LiveRun v u → LiveRun w u

module _ {W : Type 0} where
  -- The rows of live trades: one at most of a symbol, one at most of a signal, none closed.
  pub record IsSound (next : ℕ) (ts : List (LiveTrade W)) : Type 0 where
    pub numbered : IsNumbered next ts
    pub one_of_symbol : (symbol : String) → count_where (is_live_of_symbol symbol) ts ≤ 1
    pub one_of_signal : (i : ℕ) → count_where (is_live_of_signal i) ts ≤ 1
    pub none_closed : find_first (λ t. is_live_closed t.status) ts ≡ none

  count_where-cons :
      (p : LiveTrade W → Bool) (t : LiveTrade W) (ts : List (LiveTrade W))
      → (p t ≡ true → find_first p ts ≡ none)
      → count_where p ts ≤ 1
      → count_where p (t ∷ ts) ≤ 1
  unfolding count_where
  count_where-cons p t ts h k = elim (Bool-cases (p t)) [
    | inl e ↦ let z = count_where-eq-zero p ts (h e) in ground arith
    | inr e ↦ ground arith
  ]

  IsNumbered-le : (m n : ℕ) (ts : List (LiveTrade W)) → m ≤ n → IsNumbered m ts → IsNumbered n ts
  IsNumbered-le m n [] h k = tt
  IsNumbered-le m n (t ∷ ts) h (a, k) = (omega arith, IsNumbered-le m n ts h k)

  -- A new row that meets no live row of its symbol or its signal keeps the rows sound.
  IsSound-cons :
      (t : LiveTrade W) (ts : List (LiveTrade W))
      → IsSound t.id ts
      → find_first (is_live_of_symbol t.symbol) ts ≡ none
      → find_first (is_live_of_signal t.signal_id) ts ≡ none
      → is_live_closed t.status ≡ false
      → IsSound (suc t.id) (t ∷ ts)
  unfolding find_first
  IsSound-cons t ts s hs hi hc = record {
    numbered = (omega arith, IsNumbered-le t.id (suc t.id) ts (omega arith) s.numbered);
    one_of_symbol = λ symbol.
        count_where-cons (is_live_of_symbol symbol) t ts
          (λ e.
            subst (λ x. find_first (is_live_of_symbol x) ts ≡ none)
              ((str_eq_iff t.symbol symbol).0 (ground arith)) hs)
          (s.one_of_symbol symbol);
    one_of_signal = λ i.
        count_where-cons (is_live_of_signal i) t ts
          (λ e.
            subst (λ x. find_first (is_live_of_signal x) ts ≡ none) (==→eq _ _ (ground arith)) hi)
          (s.one_of_signal i);
    none_closed = let z = s.none_closed in ground arith;
  }

module _ {W : Type 0} ⦃n : Number W⦄ where
  sent-IsSound :
      (env : Env W) (i : ℕ) (w : World W) (c : LiveExecutionContext W)
      (out : Result W (LiveTrade W × LiveOrderResponse W) × World W) (t : LiveTrade W)
      → IsSound w.next_id w.live_trades
      → find_first (is_live_of_symbol c.symbol) w.live_trades ≡ none
      → find_first (is_live_of_signal i) w.live_trades ≡ none
      → (t.id ≡ w.next_id) × (t.symbol ≡ c.symbol) × (t.signal_id ≡ i)
      → is_live_closed t.status ≡ false
      → IsSent env i w c out t
      → IsSound out.1.next_id out.1.live_trades
  sent-IsSound env i w c out t s hs hi (a, b, d) hc k =
      let s1 = subst (λ x. IsSound x w.live_trades) (sym a) s in
      let hs1 = subst (λ x. find_first (is_live_of_symbol x) w.live_trades ≡ none) (sym b) hs in
      let hi1 = subst (λ x. find_first (is_live_of_signal x) w.live_trades ≡ none) (sym d) hi in
      let r = IsSound-cons t w.live_trades s1 hs1 hi1 hc in
      rw (k.one_trade, k.next) (subst (λ x. IsSound (suc x) (t ∷ w.live_trades)) a r)

  execution-IsSound :
      (env : Env W) (i user_id m : ℕ) (w : World W)
      → IsSound w.next_id w.live_trades
      → let w' = (execute_live_from_signal env i user_id m w).1 in IsSound w'.next_id w'.live_trades
  execution-IsSound env i user_id m w s =
      let out = execute_live_from_signal env i user_id m w in
      elim (execute_live_from_signal_cases env i user_id m w s.numbered) [
        | inl r ↦ rw (r.no_trade, r.same_id) s
        | inr (c, g, inl (r, p, x, o, k, z)) ↦
            sent-IsSound env i w c out (executed_row env r (row_of env i w c)) s g.bounded.unopened
              g.signed.untraded (refl, refl, refl) (rw x) k
        | inr (c, g, inr (e, o, _, k, z)) ↦
            sent-IsSound env i w c out (failed_row (message e) (row_of env i w c)) s
              g.bounded.unopened g.signed.untraded (refl, refl, refl) refl k
      ]

  step-IsSound :
      {w v : World W}
      → LiveStep w v
      → IsSound w.next_id w.live_trades
      → IsSound v.next_id v.live_trades
  unfolding update_limits
  step-IsSound (execution env i user_id m w) s = execution-IsSound env i user_id m w s
  step-IsSound (limits_change daily loss volume symbols active w) s = s
  step-IsSound (elsewhere w w' e h) s = rw e (record {
    numbered = IsNumbered-le w.next_id w'.next_id w.live_trades h s.numbered;
    one_of_symbol = s.one_of_symbol;
    one_of_signal = s.one_of_signal;
    none_closed = s.none_closed;
  })

  -- Whatever the order of executions, changes of the limits and operations of the other components,
  -- from sound rows of live trades: no two live trades are of one symbol, no two are of one signal,
  -- and none is CLOSED.
  pub run-IsSound :
      {w v : World W}
      → LiveRun w v
      → IsSound w.next_id w.live_trades
      → IsSound v.next_id v.live_trades
  run-IsSound (halt w) s = s
  run-IsSound (step a r) s = run-IsSound r (step-IsSound a s)

  daily_loss_none :
      (day : ℕ) (ts : List (LiveTrade W))
      → find_first (λ t. is_live_closed t.status) ts ≡ none
      → find_many (is_closed_since day) ts ≡ []
  unfolding find_first find_many
  daily_loss_none day [] h = refl
  daily_loss_none day (t ∷ ts) h = ground (arith, daily_loss_none day ts)

  -- The daily loss that `getDailyLoss` finds is 0 in every state that the backend reaches from one
  -- with sound rows of live trades, whatever the trades have lost.
  pub run-daily_loss :
      {w v : World W} (day : ℕ)
      → LiveRun w v
      → IsSound w.next_id w.live_trades
      → daily_loss day v ≡ number 0
  unfolding daily_loss sum_losses
  run-daily_loss {w} {v} day r s =
      rw (daily_loss_none day v.live_trades (run-IsSound r s).none_closed)
