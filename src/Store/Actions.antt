-- ===== src/Store/Actions.antt =====
-- Sequences of actions: what they keep of the state, and what their success needs.
use trading_backend.Base.{◌≡◌, refl, ap, ◌∙◌, ◌≢◌, arith}
use trading_backend.Store.Text.{Exception}
use trading_backend.Store.World.{Result, StateAction, ◌>>=◌, throw, catch, IsThrow, ok, err}

module _ {S W A B : Type 0} where
  after :
      (R : S → S → Type 0)
      → ((a b c : S) → R a b → R b c → R a c)
      → (f : A → StateAction S W B) {w : S} (out : Result W A × S) → R w out.1
      → ((a : A) → R out.1 (f a out.1).1)
      → R w (elim out.0 as (λ r. Result W B × S) [ ok a ↦ f a out.1 | err e ↦ (err e, out.1) ]).1
  after R then f (ok a, w') r rs = then _ _ _ r (rs a)
  after R then f (err e, w') r rs = r

  -- A sequence keeps what both of its actions keep.
  pub >>=_keeps :
      (R : S → S → Type 0)
      → ((a b c : S) → R a b → R b c → R a c)
      → (m : StateAction S W A) (f : A → StateAction S W B) (w : S) → R w (m w).1
      → ((a : A) → R (m w).1 (f a (m w).1).1)
      → R w ((m >>= f) w).1
  >>=_keeps R then m f w r rs = after R then f (m w) r rs

  succeeds :
      (f : A → StateAction S W B) (out : Result W A × S) {b : B}
      → (elim out.0 as (λ r. Result W B × S) [ ok a ↦ f a out.1 | err e ↦ (err e, out.1) ]).0 ≡ ok b
      → (a : A) × (out.0 ≡ ok a) × ((f a out.1).0 ≡ ok b)
  succeeds f (ok a, w') h = (a, refl, h)
  succeeds f (err e, w') h = absurd (ground arith)

  -- A sequence succeeds by the success of both of its actions.
  pub >>=_ok :
      (m : StateAction S W A) (f : A → StateAction S W B) (w : S) {b : B}
      → ((m >>= f) w).0 ≡ ok b
      → (a : A) × ((m w).0 ≡ ok a) × ((f a (m w).1).0 ≡ ok b)
  >>=_ok m f w h = succeeds f (m w) h

module _ {S W A : Type 0} (x : Exception W) where
  rethrown : (out : Result W A × S) → Result W A × S
  rethrown (r, w) = elim r [ ok a ↦ (ok a, w) | err e ↦ throw x w ]

  rethrown_state : (out : Result W A × S) → (rethrown out).1 ≡ out.1
  unfolding rethrown
  rethrown_state (ok a, w) = refl
  rethrown_state (err e, w) = refl

  rethrown_ok : (out : Result W A × S) {a : A} → (rethrown out).0 ≡ ok a → out.0 ≡ ok a
  unfolding rethrown
  rethrown_ok (ok b, w) h = h
  rethrown_ok (err e, w) h = absurd (ground arith)

  ok_rethrown : (out : Result W A × S) {a : A} → out.0 ≡ ok a → (rethrown out).0 ≡ ok a
  unfolding rethrown
  ok_rethrown (ok b, w) h = h
  ok_rethrown (err e, w) h = absurd (ground arith)

  -- `try { m } catch { throw x; }` leaves the state that m leaves.
  pub catch_state : (m : StateAction S W A) (w : S) → (catch m (λ e. throw x) w).1 ≡ (m w).1
  unfolding rethrown
  catch_state m w = rethrown_state (m w)

  -- It succeeds as m does.
  pub catch_ok :
      (m : StateAction S W A) (w : S) {a : A} → (catch m (λ e. throw x) w).0 ≡ ok a → (m w).0 ≡ ok a
  unfolding rethrown
  catch_ok m w h = rethrown_ok (m w) h

  pub ok_catch :
      (m : StateAction S W A) (w : S) {a : A} → (m w).0 ≡ ok a → (catch m (λ e. throw x) w).0 ≡ ok a
  unfolding rethrown
  ok_catch m w h = ok_rethrown (m w) h

pub IsThrow-cases : {W A : Type 0} (r : Result W A) → ((a : A) → r ≢ ok a) → IsThrow r
IsThrow-cases (ok a) h = h a refl
IsThrow-cases (err e) h = tt

module _ {S W A B : Type 0} where
  stopped :
      (f : A → StateAction S W B) (out : Result W A × S) {x : Exception W}
      → out.0 ≡ err x
      → (elim out.0 as (λ _. Result W B × S) [ ok a ↦ f a out.1 | err e ↦ (err e, out.1) ]).1
        ≡ out.1
  stopped f (ok a, w) h = absurd (ground arith)
  stopped f (err e, w) h = refl

  -- After a throw, nothing more is done.
  pub >>=_stops :
      (m : StateAction S W A) (f : A → StateAction S W B) (w : S) {x : Exception W}
      → (m w).0 ≡ err x
      → ((m >>= f) w).1 ≡ (m w).1
  >>=_stops m f w h = stopped f (m w) h

-- What an action gives that is known to succeed, in a sequence and in a `try`.
module _ {S W A B : Type 0} where
  pub >>=_eq :
      (m : StateAction S W A) (f : A → StateAction S W B) {w w' : S} {a : A}
      → m w ≡ (ok a, w')
      → (m >>= f) w ≡ f a w'
  >>=_eq m f h =
      ap
        (λ (out : Result W A × S). elim out.0 as (λ _. Result W B × S) [
          | ok a ↦ f a out.1
          | err e ↦ (err e, out.1)
        ])
        h

  pub >>=_throws :
      (m : StateAction S W A) (f : A → StateAction S W B) {w w' : S} {e : Exception W}
      → m w ≡ (err e, w')
      → (m >>= f) w ≡ (err e, w')
  >>=_throws m f h =
      ap
        (λ (out : Result W A × S). elim out.0 as (λ _. Result W B × S) [
          | ok a ↦ f a out.1
          | err e ↦ (err e, out.1)
        ])
        h

module _ {S W A : Type 0} where
  pub pair_eq :
      {out : Result W A × S} {r : Result W A} {w : S} → out.0 ≡ r → out.1 ≡ w → out ≡ (r, w)
  pair_eq {out} {r} h k = ap (λ q. (q, out.1)) h ∙ ap (λ v. (r, v)) k

  pub catch_eq :
      (m : StateAction S W A) (k : Exception W → StateAction S W A) {w w' : S} {a : A}
      → m w ≡ (ok a, w')
      → catch m k w ≡ (ok a, w')
  catch_eq m k h =
      ap
        (λ (out : Result W A × S). elim out.0 as (λ _. Result W A × S) [
          | ok a ↦ (ok a, out.1)
          | err e ↦ k e out.1
        ])
        h

  pub catch_throws :
      (m : StateAction S W A) (k : Exception W → StateAction S W A) {w w' : S} {e : Exception W}
      → m w ≡ (err e, w')
      → catch m k w ≡ k e w'
  catch_throws m k h =
      ap
        (λ (out : Result W A × S). elim out.0 as (λ _. Result W A × S) [
          | ok a ↦ (ok a, out.1)
          | err e ↦ k e out.1
        ])
        h
