-- ===== src/Number/Fixed.antt =====
-- Numbers with eight decimal places, as integers: the instance at which tests and witnesses run.
use trading_backend.Base.{
  ℕ, suc, ◌+◌, ◌-◌, ◌*◌, ◌/◌, ◌^◌, ◌≡◌, refl, Bool, true, arith, ltb, leb, ◌==◌, if◌then◌else◌,
}
use trading_backend.Number.Interface.{Number, IsOrdered}

-- `negsuc n` is -(n + 1), in units of 10 ^ -8.
pub data ℤ : Type 0 where
  pos : ℕ → ℤ
  negsuc : ℕ → ℤ

abbrev pub pos_part : ℤ → ℕ
pos_part (pos n) = n
pos_part (negsuc n) = 0

abbrev pub neg_part : ℤ → ℕ
neg_part (pos n) = 0
neg_part (negsuc n) = suc n

abbrev pub sub_ℕ : ℕ → ℕ → ℤ
sub_ℕ a b = if leb b a then pos (a - b) else negsuc (b - a - 1)

abbrev scale : ℕ
scale = 100_000_000

-- Products and quotients are cut towards zero.
abbrev pub mul_fixed : ℤ → ℤ → ℤ
mul_fixed a b =
    sub_ℕ ((pos_part a * pos_part b + neg_part a * neg_part b) / scale)
      ((pos_part a * neg_part b + neg_part a * pos_part b) / scale)

abbrev pub div_fixed : ℤ → ℤ → ℤ
div_fixed a b =
    sub_ℕ (pos_part a * scale / pos_part b + neg_part a * scale / neg_part b)
      (pos_part a * scale / neg_part b + neg_part a * scale / pos_part b)

-- Half a unit goes away from zero.
abbrev pub round_to : ℕ → ℕ → ℕ
round_to e m = let unit = 10 ^ (8 - e) in (m + unit / 2) / unit * unit

abbrev pub round_fixed : ℕ → ℤ → ℤ
round_fixed e a = sub_ℕ (round_to e (pos_part a)) (round_to e (neg_part a))

-- Half goes up, as in `Math.round`.
abbrev pub round_half_up : ℤ → ℤ
round_half_up a =
    sub_ℕ ((pos_part a + scale / 2) / scale * scale) ((neg_part a + scale / 2 - 1) / scale * scale)

abbrev pub fits_fixed : ℕ → ℕ → ℤ → Bool
fits_fixed p e a = ltb (round_to e (pos_part a + neg_part a)) (10 ^ (p - e) * scale)

abbrev pub lt_fixed : ℤ → ℤ → Bool
lt_fixed a b = ltb (pos_part a + neg_part b) (pos_part b + neg_part a)

abbrev pub le_fixed : ℤ → ℤ → Bool
le_fixed a b = leb (pos_part a + neg_part b) (pos_part b + neg_part a)

instance abbrev pub fixed_number : Number ℤ
fixed_number = record {
  decimal = λ n e. pos (n * scale / 10 ^ e);
  add = λ a b. sub_ℕ (pos_part a + pos_part b) (neg_part a + neg_part b);
  sub = λ a b. sub_ℕ (pos_part a + neg_part b) (neg_part a + pos_part b);
  mul = mul_fixed;
  div = div_fixed;
  abs = λ a. pos (pos_part a + neg_part a);
  lt = lt_fixed;
  le = le_fixed;
  eq = λ a b. (pos_part a + neg_part b) == (pos_part b + neg_part a);
  max = λ a b. if lt_fixed a b then b else a;
  round = round_half_up;
  is_finite = λ a. true;
  to_fixed = round_fixed;
  column = round_fixed;
  fits = fits_fixed;
}

lt_fixed_irrefl : (x : ℤ) → lt_fixed x x ≡ Bool.false
lt_fixed_irrefl x = ground arith

lt_fixed_asymm : (x y : ℤ) → lt_fixed x y ≡ true → lt_fixed y x ≡ Bool.false
lt_fixed_asymm x y h = ground arith

le_fixed_of_lt : (x y : ℤ) → lt_fixed x y ≡ true → le_fixed x y ≡ true
le_fixed_of_lt x y h = ground arith

lt_fixed-eq-not-le : (x y : ℤ) → lt_fixed x y ≡ true → le_fixed y x ≡ Bool.false
lt_fixed-eq-not-le x y h = ground arith

le_fixed_trans : (x y z : ℤ) → le_fixed x y ≡ true → le_fixed y z ≡ true → le_fixed x z ≡ true
le_fixed_trans x y z h k = ground arith

pub ℤ-IsOrdered : IsOrdered ℤ
ℤ-IsOrdered = record {
  lt_irrefl = lt_fixed_irrefl;
  lt_asymm = lt_fixed_asymm;
  le_of_lt = le_fixed_of_lt;
  lt-eq-not-le = lt_fixed-eq-not-le;
  le_trans = le_fixed_trans;
}

-- 2.5 * 1.2 and 1 / 4
fixed_runs :
    (mul_fixed (pos 250_000_000) (negsuc 119_999_999) ≡ negsuc 299_999_999)
    × (div_fixed (pos 100_000_000) (pos 400_000_000) ≡ pos 25_000_000)
fixed_runs = (refl, refl)
