-- ===== src/Number/Interface.antt =====
-- What the code does with JavaScript numbers, and the laws that some theorems assume of it.
use trading_backend.Base.{ℕ, ◌≡◌, Bool, true, false}

pub record Number (W : Type 0) : Type 0 where
  -- the literal n / 10 ^ e, `decimal 2 2` for 0.02
  pub decimal : ℕ → ℕ → W
  pub add : W → W → W
  pub sub : W → W → W
  pub mul : W → W → W
  pub div : W → W → W
  -- `Math.abs`
  pub abs : W → W
  -- `Math.max`
  pub max : W → W → W
  -- `a < b`, `a <= b` and `a === b`, false where an operand is NaN
  pub lt : W → W → Bool
  pub le : W → W → Bool
  pub eq : W → W → Bool
  -- `Math.round`
  pub round : W → W
  -- `Number.isFinite`
  pub is_finite : W → Bool
  -- `Number(x.toFixed(n))`
  pub to_fixed : ℕ → W → W
  -- what `toNumber()` reads from a Decimal column with n decimal places after x was written to it
  pub column : ℕ → W → W
  -- whether a Decimal column of p digits, n of them decimal places, takes x; a write of x throws else
  pub fits : ℕ → ℕ → W → Bool

abbrev pub number : {W : Type 0} ⦃n : Number W⦄ → ℕ → W
number ⦃n⦄ k = n.decimal k 0

-- Laws of the comparisons; doubles meet them, NaN included.
pub record IsOrdered (W : Type 0) ⦃n : Number W⦄ : Type 0 where
  pub lt_irrefl : (x : W) → n.lt x x ≡ false
  pub lt_asymm : (x y : W) → n.lt x y ≡ true → n.lt y x ≡ false
  pub le_of_lt : (x y : W) → n.lt x y ≡ true → n.le x y ≡ true
  pub lt-eq-not-le : (x y : W) → n.lt x y ≡ true → n.le y x ≡ false
  pub le_trans : (x y z : W) → n.le x y ≡ true → n.le y z ≡ true → n.le x z ≡ true
