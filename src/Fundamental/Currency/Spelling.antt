-- ===== src/Fundamental/Currency/Spelling.antt =====
-- A currency that is normalised is not changed by normalising it again.
use trading_backend.Base.{
  ◌==◌, ==→eq, ==_self, Bool-cases, &&-true, length, List-cases, ℕ, suc, ◌≤◌, ◌≡◌, refl, sym, ap,
  subst, ◌∙◌, inl, inr, true, List, [], ◌∷◌, arith,
}
use trading_backend.Fundamental.Currency.{
  upper_code, upper, is_space, trim_start, trim_end, trim, same_codes, normalize_currency,
}

upper_code_again : (c : ℕ) → upper_code (upper_code c) ≡ upper_code c
upper_code_again c = ground arith

is_space-upper_code : (c : ℕ) → is_space (upper_code c) ≡ is_space c
is_space-upper_code c = ground arith

upper_again : (cs : List ℕ) → upper (upper cs) ≡ upper cs
unfolding upper
upper_again [] = refl
upper_again (c ∷ cs) = rw (upper_code_again c, upper_again cs) refl

trim_start-upper : (cs : List ℕ) → trim_start (upper cs) ≡ upper (trim_start cs)
unfolding trim_start upper
trim_start-upper [] = refl
trim_start-upper (c ∷ cs) = elim (Bool-cases (is_space c)) [
  | inl e ↦ rw (is_space-upper_code c, e) (trim_start-upper cs)
  | inr e ↦ rw (is_space-upper_code c, e) refl
]

trim_end-upper : (cs : List ℕ) → trim_end (upper cs) ≡ upper (trim_end cs)
unfolding trim_end upper
trim_end-upper [] = refl
trim_end-upper (c ∷ cs) = elim (List-cases (trim_end cs)) [
  | inr (d, ds, e) ↦ rw (trim_end-upper cs, e) refl
  | inl e ↦ elim (Bool-cases (is_space c)) [
    | inl q ↦ rw (trim_end-upper cs, e, is_space-upper_code c, q) refl
    | inr q ↦ rw (trim_end-upper cs, e, is_space-upper_code c, q) refl
  ]
]

trim_start_again : (cs : List ℕ) → trim_start (trim_start cs) ≡ trim_start cs
unfolding trim_start
trim_start_again [] = refl
trim_start_again (c ∷ cs) = elim (Bool-cases (is_space c)) [
  | inl e ↦ rw e (trim_start_again cs)
  | inr e ↦ rw (e, e) refl
]

trim_end_again : (cs : List ℕ) → trim_end (trim_end cs) ≡ trim_end cs
unfolding trim_end
trim_end_again [] = refl
trim_end_again (c ∷ cs) = elim (List-cases (trim_end cs)) [
  | inr (d, ds, e) ↦
      let again : trim_end (d ∷ ds) ≡ d ∷ ds =
        subst (λ xs. trim_end xs ≡ xs) e (trim_end_again cs) in
      ground (arith, again, e)
  | inl e ↦ elim (Bool-cases (is_space c)) [ inl q ↦ rw (e, q) refl | inr q ↦ rw (e, q, q) refl ]
]

trim_start-le : (cs : List ℕ) → length (trim_start cs) ≤ length cs
unfolding trim_start
trim_start-le [] = omega arith
trim_start-le (c ∷ cs) = elim (Bool-cases (is_space c)) [
  | inl e ↦ let l = trim_start-le cs in rw e (omega (arith, l))
  | inr e ↦ rw e (omega arith)
]

trim_start-trim_end : (cs : List ℕ) → trim_start cs ≡ cs → trim_start (trim_end cs) ≡ trim_end cs
unfolding trim_start trim_end
trim_start-trim_end [] h = refl
trim_start-trim_end (c ∷ cs) h = elim (Bool-cases (is_space c)) [
  | inl q ↦
      let l = trim_start-le cs in
      let same : length (trim_start cs) ≡ suc (length cs) =
        subst (λ xs. length xs ≡ suc (length cs)) (sym h ∙ rw q refl) refl in
      absurd (omega (arith, l, same))
  | inr q ↦ elim (List-cases (trim_end cs)) [
    | inr (d, ds, e) ↦ rw (e, q) refl
    | inl e ↦ rw (e, q, q) refl
  ]
]

trim_again : (cs : List ℕ) → trim (trim cs) ≡ trim cs
unfolding trim
trim_again cs =
    ap trim_end (trim_start-trim_end (trim_start cs) (trim_start_again cs))
    ∙ trim_end_again (trim_start cs)

pub normalize_currency_again :
    (cs : List ℕ) → normalize_currency (normalize_currency cs) ≡ normalize_currency cs
unfolding normalize_currency trim
normalize_currency_again cs =
    ap (λ xs. upper (trim_end xs)) (trim_start-upper (trim cs))
    ∙ ap upper (trim_end-upper (trim_start (trim cs)))
    ∙ upper_again (trim (trim cs))
    ∙ ap upper (trim_again cs)

pub same_codes_self : (cs : List ℕ) → same_codes cs cs ≡ true
unfolding same_codes
same_codes_self [] = refl
same_codes_self (c ∷ cs) = rw (==_self c, same_codes_self cs) refl

pub same_codes→eq : (cs ds : List ℕ) → same_codes cs ds ≡ true → cs ≡ ds
unfolding same_codes
same_codes→eq [] [] h = refl
same_codes→eq [] (d ∷ ds) h = absurd (ground arith)
same_codes→eq (c ∷ cs) [] h = absurd (ground arith)
same_codes→eq (c ∷ cs) (d ∷ ds) h =
    let (e, k) = &&-true (c == d) (same_codes cs ds) h in
    let same = ==→eq c d e in ap (λ x. x ∷ cs) same ∙ ap (λ xs. d ∷ xs) (same_codes→eq cs ds k)
