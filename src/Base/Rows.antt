-- ===== src/Base/Rows.antt =====
-- Laws of the calls on tables.
use trading_backend.Base.Tests.{Bool-cases, map_some, if◌then◌else◌}
use trading_backend.Base.Tables.{All, find_first, find_last, count_where, update_where}
use Prim.Native.Nat.{◌≤◌}
use mathlib.Core.Path.{◌≡◌, refl, subst}
use mathlib.Core.Logic.{◌⊎◌, inl, inr}
use mathlib.Core.Bool.{Bool, true, false}
use mathlib.Core.Option.{none, some, some-injective}
use mathlib.Core.List.{List, [], ◌∷◌, ◌++◌}
use native.Mathlib.Omega.{arith}

module _ {ℓ} {A : Type ℓ} where
  pub List-cases : (xs : List A) → (xs ≡ []) ⊎ ((x : A) × (ys : List A) × (xs ≡ x ∷ ys))
  List-cases [] = inl refl
  List-cases (x ∷ xs) = inr (x, xs, refl)

  pub find_first_passes :
      (p : A → Bool) (xs : List A) (x : A) → find_first p xs ≡ some x → p x ≡ true
  unfolding find_first
  find_first_passes p [] x h = cc
  find_first_passes p (y ∷ xs) x h = ground (arith, find_first_passes p xs x)

  pub count_where-eq-zero :
      (p : A → Bool) (xs : List A) → find_first p xs ≡ none → count_where p xs ≡ 0
  unfolding find_first count_where
  count_where-eq-zero p [] h = refl
  count_where-eq-zero p (y ∷ xs) h = ground (arith, count_where-eq-zero p xs)

  -- Rows that satisfy q neither before nor after the change are found as before.
  pub find_first-update_where_other :
      (q p : A → Bool) (f : A → A) (xs : List A)
      → ((x : A) → p x ≡ true → (q x ≡ false) × (q (f x) ≡ false))
      → find_first q (update_where p f xs) ≡ find_first q xs
  unfolding find_first update_where
  find_first-update_where_other q p f [] h = refl
  find_first-update_where_other q p f (x ∷ xs) h =
      ground (arith, h x, find_first-update_where_other q p f xs h)

  -- The changed row is found where it was, if the change keeps its key.
  pub find_first-update_where_self :
      (p : A → Bool) (f : A → A) (xs : List A)
      → ((x : A) → p x ≡ true → p (f x) ≡ true)
      → find_first p (update_where p f xs) ≡ map_some f (find_first p xs)
  unfolding find_first update_where
  find_first-update_where_self p f [] h = refl
  find_first-update_where_self p f (x ∷ xs) h =
      ground (arith, h x, find_first-update_where_self p f xs h)

  -- A change that makes no row pass leaves no more rows that pass.
  pub count_where-update_where-le :
      (q p : A → Bool) (f : A → A) (xs : List A)
      → ((x : A) → p x ≡ true → q (f x) ≡ true → q x ≡ true)
      → count_where q (update_where p f xs) ≤ count_where q xs
  unfolding count_where update_where
  count_where-update_where-le q p f [] h = omega arith
  count_where-update_where-le q p f (x ∷ xs) h =
      ground (arith, h x, count_where-update_where-le q p f xs h)

  -- The last row that passes p is found where it was, changed if it was to change.
  pub find_last-update_where :
      (p q : A → Bool) (f : A → A)
      → ((x : A) → p (f x) ≡ p x)
      → (xs : List A)
      → find_last p (update_where q f xs) ≡ map_some (λ x. if q x then f x else x) (find_last p xs)
  unfolding find_last update_where
  find_last-update_where p q f h [] = refl
  find_last-update_where p q f h (x ∷ xs) = ground (arith, h x, find_last-update_where p q f h xs)

  pub All-update_where {κ} :
      (P : A → Type κ) (p : A → Bool) (f : A → A) (xs : List A)
      → ((x : A) → P x → P (f x))
      → All P xs
      → All P (update_where p f xs)
  unfolding update_where
  All-update_where P p f [] h k = tt
  All-update_where P p f (x ∷ xs) h (a, k) = elim (Bool-cases (p x)) [
    | inl e ↦ (rw e (h x a), All-update_where P p f xs h k)
    | inr e ↦ (rw e a, All-update_where P p f xs h k)
  ]

  pub All-find_first {κ} :
      (P : A → Type κ) (p : A → Bool) (xs : List A) (x : A)
      → All P xs
      → find_first p xs ≡ some x
      → P x
  unfolding find_first
  All-find_first P p [] x k h = absurd (cc)
  All-find_first P p (y ∷ xs) x (a, k) h = elim (Bool-cases (p y)) [
    | inl e ↦ subst P (some-injective _ _ (rw e at h)) a
    | inr e ↦ All-find_first P p xs x k (rw e at h)
  ]

  -- A property is kept if the change keeps it on the rows that are changed.
  pub All-update_matching {κ} :
      (P : A → Type κ) (p : A → Bool) (f : A → A) (xs : List A)
      → ((x : A) → p x ≡ true → P x → P (f x))
      → All P xs
      → All P (update_where p f xs)
  unfolding update_where
  All-update_matching P p f [] h k = tt
  All-update_matching P p f (x ∷ xs) h (a, k) = elim (Bool-cases (p x)) [
    | inl e ↦ (rw e (h x e a), All-update_matching P p f xs h k)
    | inr e ↦ (rw e a, All-update_matching P p f xs h k)
  ]

  pub All-weaken {κ κ'} :
      (P : A → Type κ) (Q : A → Type κ') (xs : List A) → ((x : A) → P x → Q x) → All P xs → All Q xs
  All-weaken P Q [] h k = tt
  All-weaken P Q (x ∷ xs) h (a, k) = (h x a, All-weaken P Q xs h k)

  pub All-append {κ} :
      (P : A → Type κ) (xs : List A) (x : A) → All P xs → P x → All P (xs ++ (x ∷ []))
  All-append P [] x h k = (k, tt)
  All-append P (y ∷ xs) x (a, h) k = (a, All-append P xs x h k)
