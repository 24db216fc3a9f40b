-- ===== src/Auth/Chain.antt =====
-- The chains of rotated tokens: every row that a refresh has replaced is revoked, and its replacement
-- is a newer row.
use trading_backend.Base.{
  Option-cases, is_some, All, All-update_where, All-update_matching, All-weaken, ℕ, suc, ◌<◌, ◌≡◌,
  refl, inl, inr, true, Option, none, some, List, ◌∷◌, arith,
}
use trading_backend.Auth.{
  revoke_refresh_token, replace_token, token_row, create_refresh_session, open_session, Request,
  answers,
}
use trading_backend.Auth.Rotation.{IsEarlier, answers_keeps}
use trading_backend.Auth.Schema.{
  RefreshToken, AuthStore, JwtUser, Crypto, AuthConfig, Instant, unrevoked_token, revoked_row,
}

module _ {S : Type 0} where
  abbrev pub IsRotated : ℕ → RefreshToken S → Type 0
  IsRotated n t = (t.id < n) × elim t.replaced_by [
    | none ↦ Unit
    | some j ↦ (t.id < j) × (j < n) × (is_some t.revoked_at ≡ true)
  ]

  abbrev pub IsChained : AuthStore S → Type 0
  IsChained s = All (IsRotated s.next_id) s.tokens

  IsRotated-suc : (n : ℕ) (t : RefreshToken S) → IsRotated n t → IsRotated (suc n) t
  IsRotated-suc n t (h, k) = elim (Option-cases t.replaced_by) [
    | inl e ↦ (omega arith, rw e tt)
    | inr (j, e) ↦ let (a, b, c) = rw e at k in (omega arith, rw e (a, omega arith, c))
  ]

  -- a revocation that replaces nothing
  IsRotated-revoke :
      (n now : ℕ) (t : RefreshToken S)
      → IsRotated n t
      → IsRotated n (record t { revoked_at = some now })
  IsRotated-revoke n now t (h, k) = elim (Option-cases t.replaced_by) [
    | inl e ↦ (h, rw e tt)
    | inr (j, e) ↦ let (a, b, c) = rw e at k in (h, rw e (a, b, refl))
  ]

  IsRotated-replace :
      (n now : ℕ) (t : RefreshToken S) → t.id < n → IsRotated (suc n) (revoked_row now (some n) t)
  IsRotated-replace n now t h = (omega arith, (h, omega arith, refl))

  pub revoke-IsChained :
      (at : Instant) (id : ℕ) (s : AuthStore S)
      → IsChained s
      → IsChained (revoke_refresh_token at id s)
  unfolding revoke_refresh_token
  revoke-IsChained at id s h =
      All-update_where (IsRotated s.next_id) (unrevoked_token id)
        (λ t. record t { revoked_at = some at.now }) s.tokens (IsRotated-revoke s.next_id at.now) h

  pub IsChained-bounds : (s : AuthStore S) → IsChained s → All (λ t. t.id < s.next_id) s.tokens
  IsChained-bounds s h =
      All-weaken (IsRotated s.next_id) (λ t. t.id < s.next_id) s.tokens (λ t k. k.0) h

module _ {S : Type 0} (crypto : Crypto S) (config : AuthConfig S) where
  open crypto use {verify, compare}

  pub open-IsChained :
      (at : Instant) (user : JwtUser) (previous : Option ℕ) (s : AuthStore S)
      → IsEarlier previous s
      → IsChained s
      → IsChained (open_session crypto config at user previous s).1
  unfolding create_refresh_session replace_token
  open-IsChained at user none s b h = (
    (omega arith, tt),
    All-weaken (IsRotated s.next_id) (IsRotated (suc s.next_id)) s.tokens (IsRotated-suc s.next_id)
        h,
  )
  open-IsChained at user (some id) s b h =
      All-update_matching (IsRotated (suc s.next_id)) (unrevoked_token id)
        (revoked_row at.now (some s.next_id)) (token_row crypto config at user s.next_id ∷ s.tokens)
        (λ t e k. IsRotated-replace s.next_id at.now t (ground arith))
        (
          (omega arith, tt),
          All-weaken (IsRotated s.next_id) (IsRotated (suc s.next_id)) s.tokens
              (IsRotated-suc s.next_id) h,
        )

  -- Every request, of any kind and in any order, keeps the chains: a stored token has an id below the
  -- next one, and one that has been replaced is revoked and older than its replacement.
  pub answers_keep-IsChained :
      (rs : List (Instant × Request S)) (s : AuthStore S)
      → IsChained s
      → IsChained (answers crypto config rs s)
  answers_keep-IsChained rs s h =
      answers_keeps crypto config (λ s. IsChained s) IsChained-bounds
        (λ at id s k. revoke-IsChained at id s k) open-IsChained rs s h
