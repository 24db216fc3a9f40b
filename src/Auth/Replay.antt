-- ===== src/Auth/Replay.antt =====
-- `refresh` and `logout` end the life of the token that they are given.
use trading_backend.Base.{
  ◌==◌, ==_self, Option-cases, find_first, update_where, ℕ, suc, ◌<◌, ◌≡◌, refl, sym, ap, subst,
  ◌∙◌, inl, inr, true, false, some, List, ◌∷◌, arith,
}
use trading_backend.Auth.{
  revoke_refresh_token, replace_token, token_row, create_refresh_session, open_session,
  check_refresh, refresh_session, refresh, logout, Request, answers,
}
use trading_backend.Auth.Chain.{IsChained, revoke-IsChained, IsChained-bounds, open-IsChained}
use trading_backend.Auth.Rotation.{live_id, logout_keeps, answers_keeps}
use trading_backend.Auth.Schema.{
  AuthStore, JwtUser, Claims, Crypto, IsFaithful, AuthConfig, Instant, Session, jwt_user,
  unrevoked_token, revoked_row, invalid_refresh_token, refresh_id,
}
use trading_backend.Auth.Sessions.{
  check_refresh-IsGood, IsGood-of, refresh-IsGood, refresh-ok-IsGood,
}
use trading_backend.Auth.Tokens.{
  IsSpent, revoke-none, live_token-spent, revoke-IsSpent, open-IsSpent,
}
use trading_backend.Store.World.{Result, ok, err}

module _ {S : Type 0} (crypto : Crypto S) (config : AuthConfig S) where
  open crypto use {verify, compare}

  -- the id is spent, in well-formed tables
  abbrev IsEnded : ℕ → AuthStore S → Type 0
  IsEnded id s = IsSpent id s × IsChained s

  answers-IsEnded :
      (rs : List (Instant × Request S)) (id : ℕ) (s : AuthStore S)
      → IsEnded id s
      → IsEnded id (answers crypto config rs s)
  answers-IsEnded rs id s h =
      answers_keeps crypto config (IsEnded id) (λ s k. IsChained-bounds s k.1)
        (λ at i s k. (revoke-IsSpent at i id s k.0, revoke-IsChained at i s k.1))
        (λ at u i s b k.
          (open-IsSpent crypto config at u i id s k.0, open-IsChained crypto config at u i s b k.1))
        rs s h

  refused :
      (at : Instant) (token : S) (i : ℕ) (s : AuthStore S)
      → ((c : Claims)
          → verify config.refresh_secret false at.now token ≡ some c
          → refresh_id c ≡ some i)
      → IsSpent i s
      → (refresh crypto config at token s).0 ≡ err invalid_refresh_token
  unfolding refresh check_refresh
  refused at token i s h k = elim (Option-cases (verify config.refresh_secret false at.now token)) [
    | inl e ↦ rw (refresh, refresh_session, check_refresh, e) refl
    | inr (c, e) ↦
        rw (refresh, refresh_session, check_refresh, e, h c e, live_token-spent at i s k) refl
  ]

  revoked_by_create :
      (at : Instant) (user : JwtUser) (i : ℕ) (s : AuthStore S)
      → i < s.next_id
      → IsSpent i (create_refresh_session crypto config at user (some i) s).1
  unfolding create_refresh_session replace_token
  revoked_by_create at user i s h = (
    ground arith,
    revoke-none i (revoked_row at.now (some s.next_id))
        (token_row crypto config at user s.next_id ∷ s.tokens) (λ t. refl),
  )

  revoked_by_logout :
      (at : Instant) (token : S) (i : ℕ) (s : AuthStore S) (c : Claims)
      → verify config.refresh_secret true at.now token ≡ some c
      → refresh_id c ≡ some i
      → i < s.next_id
      → IsSpent i (logout crypto config at (some token) s)
  unfolding logout revoke_refresh_token
  revoked_by_logout at token i s c e q h =
      rw (logout, e, q, revoke_refresh_token)
        (h, revoke-none i (λ t. record t { revoked_at = some at.now }) s.tokens (λ t. refl))

  earlier :
      (at : Instant) (token : S) (s : AuthStore S) {x : JwtUser × ℕ}
      → IsChained s
      → (check_refresh crypto config at token s).0 ≡ ok x
      → x.1 < s.next_id
  earlier at token s {x} h k =
      let (c, t, u, g) = IsGood-of crypto config at token s k in
      let (_, i, _, live, _, _) = g in
      let (same, b) = live_id at i s t (IsChained-bounds s h) live in
      let e : ok (jwt_user u, t.id) ≡ ok x =
        ap (λ (out : Result (Unit {0}) (JwtUser × ℕ) × AuthStore S). out.0)
          (sym (check_refresh-IsGood crypto config at token s c t u g))
        ∙ k in
      ground arith

  -- A token that a refresh or a logout has used is refused for ever: whatever requests are answered in
  -- between, a later refresh with it throws `Invalid refresh token`. The token is one that a refresh
  -- accepts in that state, whose chains of replaced tokens are well-formed, and @nestjs/jwt and
  -- bcryptjs are faithful.
  pub token_ends :
      (f : IsFaithful crypto) (at again later : Instant) (token : S)
      (rs : List (Instant × Request S)) (s : AuthStore S) {x : Session S}
      → IsChained s
      → (refresh crypto config at token s).0 ≡ ok x
      → ((refresh crypto config later token
            (answers crypto config rs (refresh crypto config at token s).1)).0
          ≡ err invalid_refresh_token)
        × ((refresh crypto config later token
              (answers crypto config rs (logout crypto config again (some token) s))).0
            ≡ err invalid_refresh_token)
  unfolding create_refresh_session
  token_ends f at again later token rs s h k =
      let (c, t, u, g) = refresh-ok-IsGood crypto config at token s k in
      let (e, i, e1, e2, q, e3) = g in
      let (same, b) = live_id at i s t (IsChained-bounds s h) e2 in
      let claims =
        λ (c' : Claims) (v : verify config.refresh_secret false later.now token ≡ some c').
          subst (λ z. refresh_id z ≡ some i) (f.claims_fixed _ _ _ _ _ token c c' e v) e1 in
      let opened = open_session crypto config at (jwt_user u) (some t.id) s in
      let ended : IsEnded i opened.1 = (
        subst (λ j. IsSpent i (open_session crypto config at (jwt_user u) (some j) s).1) (sym same)
            (revoked_by_create at (jwt_user u) i s b),
        open-IsChained crypto config at (jwt_user u) (some t.id) s (rw same b) h,
      ) in
      let left = logout crypto config again (some token) s in
      let gone : IsEnded i left = (
        revoked_by_logout again token i s c
            (f.ignores_expiry config.refresh_secret at.now again.now token c e) e1 b,
        logout_keeps crypto config (λ s. IsChained s) IsChained-bounds
            (λ at id s k. revoke-IsChained at id s k) (open-IsChained crypto config) again
            (some token) s h,
      ) in
      (
        subst
            (λ out.
              (refresh crypto config later token (answers crypto config rs out.1)).0
              ≡ err invalid_refresh_token)
            (sym (refresh-IsGood crypto config at token s c t u g))
            (refused later token i (answers crypto config rs opened.1) claims
              (answers-IsEnded rs i opened.1 ended).0),
        refused later token i (answers crypto config rs left) claims
            (answers-IsEnded rs i left gone).0,
      )

  -- The two writes of concurrent refreshes: if two requests with the same token have both passed the
  -- checks before either writes, both open a session, and neither new token is revoked.
  pub concurrent_refreshes :
      (at at' : Instant) (token : S) (s : AuthStore S) {x y : JwtUser × ℕ}
      → IsChained s
      → (check_refresh crypto config at token s).0 ≡ ok x
      → (check_refresh crypto config at' token s).0 ≡ ok y
      → let s1 = (create_refresh_session crypto config at x.0 (some x.1) s).1 in
        let s2 = (create_refresh_session crypto config at' y.0 (some y.1) s1).1 in
        (find_first (unrevoked_token s.next_id) s2.tokens
          ≡ some (token_row crypto config at x.0 s.next_id))
        × (find_first (unrevoked_token (suc s.next_id)) s2.tokens
            ≡ some (token_row crypto config at' y.0 (suc s.next_id)))
  unfolding create_refresh_session replace_token find_first update_where
  concurrent_refreshes at at' token s {x} {y} h k k' =
      let bx = earlier at token s h k in
      let by = earlier at' token s h k' in
      let d = ==_self s.next_id in
      let d1 = ==_self (suc s.next_id) in
      let a1 : (s.next_id == x.1) ≡ false = ground arith in
      let a2 : (s.next_id == y.1) ≡ false = ground arith in
      let a3 : (suc s.next_id == y.1) ≡ false = ground arith in
      let a4 : (suc s.next_id == s.next_id) ≡ false = ground arith in
      (rw (a1, a2, a3, a4, d) refl, rw (a1, a2, a3, d1) refl)
