-- ===== src/Fundamental/Window.antt =====
-- The blocking event: which one `findBlockingEvent` finds, and what `evaluate` says with it.
use mathlib.Core.List.{Memᴰ}
use trading_backend.Base.{
  ltb, leb→le, le→leb, ltb→lt, Bool-cases, Option-cases, is_some, All, find_many, All-weaken, ℕ,
  ◌+◌, ◌-◌, ◌*◌, ◌≤◌, ◌≡◌, refl, subst, ◌∙◌, ◌⊎◌, inl, inr, Bool, true, false, Option, none, some,
  List, [], ◌∷◌, arith,
}
use trading_backend.Fundamental.{
  FundamentalResult, fundamental_reason, window_minutes, earliest, is_blocking, find_blocking_event,
  announce, evaluate,
}
use trading_backend.Fundamental.Currency.{normalize_currency}
use trading_backend.Fundamental.Currency.Spelling.{
  normalize_currency_again, same_codes_self, same_codes→eq,
}
use trading_backend.Store.Entities.{EconomicEvent}
use trading_backend.Store.Enums.{EconomicImpact}
use trading_backend.Store.World.{World, ok}

-- The earliest of the rows that pass p.
pub record IsEarliest (p : EconomicEvent → Bool) (es : List EconomicEvent) (e : EconomicEvent)
    : Type 0 where
  pub stored : Memᴰ e es
  pub passes : p e ≡ true
  pub first : All (λ f. p f ≡ true → e.event_time ≤ f.event_time) es

pub earliest-none :
    (p : EconomicEvent → Bool) (es : List EconomicEvent)
    → earliest (find_many p es) ≡ none
    → All (λ f. p f ≡ false) es
unfolding earliest find_many
earliest-none p [] h = tt
earliest-none p (e ∷ es) h = elim (Bool-cases (p e)) [
  | inl k ↦ absurd (ground arith)
  | inr k ↦ (k, earliest-none p es (ground arith))
]

All-later :
    (p : EconomicEvent → Bool) (es : List EconomicEvent) {m n : ℕ}
    → m ≤ n
    → All (λ f. p f ≡ true → n ≤ f.event_time) es
    → All (λ f. p f ≡ true → m ≤ f.event_time) es
All-later p [] h k = tt
All-later p (e ∷ es) h (a, k) = ((λ q. let z = a q in omega arith), All-later p es h k)

All-nothing :
    (p : EconomicEvent → Bool) (es : List EconomicEvent) (m : ℕ)
    → All (λ f. p f ≡ false) es
    → All (λ f. p f ≡ true → m ≤ f.event_time) es
All-nothing p [] m k = tt
All-nothing p (e ∷ es) m (a, k) = ((λ q. absurd (ground arith)), All-nothing p es m k)

pub earliest-some :
    (p : EconomicEvent → Bool) (es : List EconomicEvent) {e : EconomicEvent}
    → earliest (find_many p es) ≡ some e
    → IsEarliest p es e
unfolding earliest find_many
earliest-some p [] h = absurd (ground arith)
earliest-some p (f ∷ es) {e} h = elim (Bool-cases (p f)) [
  | inr k ↦
      let r = earliest-some p es {e = e} (ground arith) in
      record {
        stored = Memᴰ.tail r.stored;
        passes = r.passes;
        first = ((λ q. absurd (ground arith)), r.first);
      }
  | inl k ↦ elim (Option-cases (earliest (find_many p es))) [
    | inl z ↦
        let q : f ≡ e = ground arith in
        subst (IsEarliest p (f ∷ es)) q (record {
          stored = Memᴰ.head refl;
          passes = k;
          first = ((λ q. omega arith), All-nothing p es f.event_time (earliest-none p es z));
        })
    | inr (g, z) ↦
        let r = earliest-some p es z in
        elim (Bool-cases (ltb g.event_time f.event_time)) [
          | inl c ↦
              let q : g ≡ e = ground arith in
              let lt = ltb→lt g.event_time f.event_time c in
              subst (IsEarliest p (f ∷ es)) q (record {
                stored = Memᴰ.tail r.stored;
                passes = r.passes;
                first = ((λ q. omega arith), r.first);
              })
          | inr c ↦
              let q : f ≡ e = ground arith in
              subst (IsEarliest p (f ∷ es)) q (record {
                stored = Memᴰ.head refl;
                passes = k;
                first = ((λ q. omega arith), All-later p es (ground arith) r.first);
              })
        ]
  ]
]

-- the rows that block a currency at a time, for `evaluate`
abbrev pub blocks : List ℕ → ℕ → EconomicEvent → Bool
blocks input timestamp =
    is_blocking (normalize_currency input) timestamp window_minutes window_minutes

-- An event of high impact and of the currency, from fifteen minutes before the time to fifteen after.
pub record IsNear (input : List ℕ) (timestamp : ℕ) (e : EconomicEvent) : Type 0 where
  pub of_currency : e.currency ≡ normalize_currency input
  pub impact_high : e.impact ≡ EconomicImpact.high
  pub not_before : timestamp ≤ e.event_time + 900_000
  pub not_after : e.event_time ≤ timestamp + 900_000

blocks-IsNear :
    (input : List ℕ) (timestamp : ℕ) (e : EconomicEvent)
    → blocks input timestamp e ≡ true
    → IsNear input timestamp e
unfolding is_blocking
blocks-IsNear input timestamp e h =
    let low = leb→le (timestamp - window_minutes * 60_000) e.event_time (ground arith) in
    let up = leb→le e.event_time (timestamp + window_minutes * 60_000) (ground arith) in
    let same =
      same_codes→eq e.currency (normalize_currency (normalize_currency input)) (ground arith) in
    record {
      of_currency = same ∙ normalize_currency_again input;
      impact_high = ground arith;
      not_before = omega arith;
      not_after = omega arith;
    }

IsNear-blocks :
    (input : List ℕ) (timestamp : ℕ) (e : EconomicEvent)
    → IsNear input timestamp e
    → blocks input timestamp e ≡ true
unfolding is_blocking
IsNear-blocks input timestamp e near =
    let low = near.not_before in
    let up = near.not_after in
    let from = le→leb (timestamp - window_minutes * 60_000) e.event_time (omega (arith, low)) in
    let to = le→leb e.event_time (timestamp + window_minutes * 60_000) (omega (arith, up)) in
    rw
      (
        near.of_currency,
        normalize_currency_again input,
        same_codes_self (normalize_currency input),
        near.impact_high,
        from,
        to,
      )
      refl

abbrev result_of_event : List ℕ → Option EconomicEvent → FundamentalResult
result_of_event input found = record {
  is_block = is_some found;
  currency = normalize_currency input;
  blocking_event = found;
  reason = fundamental_reason (is_some found);
}

module _ {W : Type 0} where
  -- a result that allows, and one that blocks for an event
  pub record IsAllowed (input : List ℕ) (timestamp : ℕ) (w : World W) (r : FundamentalResult)
      : Type 0 where
    pub allows : r.is_block ≡ false
    pub no_event : r.blocking_event ≡ none
    pub clear : All (λ e. ¬ IsNear input timestamp e) w.economic_events

  pub record IsBlocked (input : List ℕ) (timestamp : ℕ) (w : World W) (r : FundamentalResult)
      (e : EconomicEvent) : Type 0 where
    pub blocks_for : r.is_block ≡ true
    pub event : r.blocking_event ≡ some e
    pub stored : Memᴰ e w.economic_events
    pub near : IsNear input timestamp e
    pub earliest_near :
        All (λ f. IsNear input timestamp f → e.event_time ≤ f.event_time) w.economic_events

  -- `evaluate` never throws and changes no table. It allows when no stored event of high impact is of
  -- the currency and within fifteen minutes of the time, and otherwise blocks for the earliest such.
  pub evaluate_blocks :
      (input : List ℕ) (timestamp : ℕ) (emit_events : Bool) (w : World W)
      → let out = evaluate input timestamp emit_events w in
        (out.1 ≡ record w { events = out.1.events })
        × ((r : FundamentalResult) × (out.0 ≡ ok r)
            × (IsAllowed input timestamp w r
                ⊎ ((e : EconomicEvent) × IsBlocked input timestamp w r e)))
  unfolding evaluate find_blocking_event announce
  evaluate_blocks input timestamp emit_events w =
      let found =
        find_blocking_event (normalize_currency input) timestamp window_minutes window_minutes
          w.economic_events in
      elim (Option-cases found) [
        | inl h ↦
            let r : IsAllowed input timestamp w (result_of_event input none) = record {
              allows = refl;
              no_event = refl;
              clear =
                  All-weaken (λ e. blocks input timestamp e ≡ false)
                    (λ e. ¬ IsNear input timestamp e) w.economic_events
                    (λ e other near. let yes = IsNear-blocks input timestamp e near in ground arith)
                    (earliest-none (blocks input timestamp) w.economic_events h);
            } in
            (ground arith, (result_of_event input none, ground arith, inl r))
        | inr (e, h) ↦
            let q = earliest-some (blocks input timestamp) w.economic_events h in
            let r : IsBlocked input timestamp w (result_of_event input (some e)) e = record {
              blocks_for = refl;
              event = refl;
              stored = q.stored;
              near = blocks-IsNear input timestamp e q.passes;
              earliest_near =
                  All-weaken (λ f. blocks input timestamp f ≡ true → e.event_time ≤ f.event_time)
                    (λ f. IsNear input timestamp f → e.event_time ≤ f.event_time) w.economic_events
                    (λ f least near. least (IsNear-blocks input timestamp f near)) q.first;
            } in
            (ground arith, (result_of_event input (some e), ground arith, inr (e, r)))
      ]
