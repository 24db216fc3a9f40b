-- ===== src/Risk/Updated.antt =====
-- After its update, the active profile is what signals are evaluated by.
use trading_backend.Base.{
  ◌==◌, ==_self, Bool-cases, Option-cases, find_last, update_where, find_last-update_where, ℕ,
  String, ◌≡◌, refl, ◌∙◌, ◌⊎◌, inl, inr, none, some, arith,
}
use trading_backend.Number.Interface.{Number}
use trading_backend.Risk.{active_risk_profile}
use trading_backend.Risk.Profile.{
  ProfileUpdate, ProfileResponse, is_name_taken, update_fits, updated_profile, to_response,
  update_active,
}
use trading_backend.Risk.Written.{
  IsUpdateOf, IsResponseOf, IsNamesake, is_name_taken-IsNamesake, IsTooLarge,
  updated_profile-IsUpdateOf, to_response-IsResponseOf, update_fits-IsTooLarge,
}
use trading_backend.Store.Entities.{RiskProfile}
use trading_backend.Store.Text.{say, Exception, not_found, unique_violation, value_out_of_range}
use trading_backend.Store.World.{World, ok, err}

module _ {W : Type 0} ⦃n : Number W⦄ where
  active_risk_profile-read :
      (w : World W) {p : RiskProfile W}
      → find_last (λ p. p.is_active) w.risk_profiles ≡ some p
      → active_risk_profile w ≡ (ok p, w)
  unfolding active_risk_profile
  active_risk_profile-read w h = ground arith

  -- the state with the active profile updated
  abbrev pub with_profile : ProfileUpdate W → ℕ → World W → World W
  with_profile dto id w = record w {
    risk_profiles = update_where (λ p. p.id == id) (updated_profile dto) w.risk_profiles;
  }

  -- An update of the active profile that answers has changed the profile that was active, exactly in
  -- the fields that are given, per cent divided by 100, and nothing else but the rows of its id: it
  -- answers with the new profile in per cent, each rounded to two places, and the evaluation of a
  -- signal reads that profile from then on. One that throws has changed nothing, and there was no
  -- active profile, or a value is given that its column cannot hold, or the new name is that of another.
  pub update_active-active_risk_profile :
      (dto : ProfileUpdate W) (w : World W)
      → ((p q : RiskProfile W) × (r : ProfileResponse W) × (active_risk_profile w ≡ (ok p, w))
          × IsUpdateOf dto p q
          × IsResponseOf q r
          × (update_active dto w ≡ (ok r, with_profile dto p.id w))
          × (active_risk_profile (with_profile dto p.id w) ≡ (ok q, with_profile dto p.id w)))
        ⊎ ((e : Exception W) × (update_active dto w ≡ (err e, w))
            × ((find_last (λ p. p.is_active) w.risk_profiles ≡ none)
                ⊎ ((e ≡ value_out_of_range) × IsTooLarge dto)
                ⊎ ((p : RiskProfile W) × (active_risk_profile w ≡ (ok p, w))
                    × (e ≡ unique_violation)
                    × ((name : String) × (q : RiskProfile W) × (dto.name ≡ some name)
                        × IsNamesake name p q w.risk_profiles))))
  unfolding update_active active_risk_profile
  update_active-active_risk_profile dto w =
      let rows = w.risk_profiles in
      elim (Option-cases (find_last (λ p. p.is_active) rows)) [
        | inl e ↦ inr (not_found (say "Active risk profile not found"), ground arith, inl e)
        | inr (p, e) ↦
            let active = active_risk_profile-read w e in
            elim (Bool-cases (update_fits dto)) [
              | inr f ↦
                  inr (
                    value_out_of_range,
                    ground arith,
                    inr (inl (refl, update_fits-IsTooLarge dto f)),
                  )
              | inl f ↦ elim (Bool-cases (is_name_taken dto.name p.id rows)) [
                | inl t ↦ inr (
                  unique_violation,
                  ground arith,
                  inr (inr (p, active, refl, is_name_taken-IsNamesake dto.name p rows t)),
                )
                | inr t ↦
                    let kept =
                      find_last-update_where (λ p. p.is_active) (λ q. q.id == p.id)
                        (updated_profile dto) (λ q. refl) rows in
                    inl (
                      p,
                      updated_profile dto p,
                      to_response (updated_profile dto p),
                      active,
                      updated_profile-IsUpdateOf dto p,
                      to_response-IsResponseOf (updated_profile dto p),
                      ground arith,
                      active_risk_profile-read (with_profile dto p.id w)
                          (kept ∙ rw (e, ==_self p.id) refl),
                    )
              ]
            ]
      ]
