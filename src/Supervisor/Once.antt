-- ===== src/Supervisor/Once.antt =====
-- A signal gets one decision at most, and keeps it.
use trading_backend.Base.{
  ◌==◌, ==→eq, Bool-cases, find_first, count_where, count_where-eq-zero, ℕ, ◌≤◌, ◌≡◌, sym, subst,
  ◌∙◌, inl, inr, none, some, ◌∷◌, arith,
}
use trading_backend.Broker.{supervisor_decision_of}
use trading_backend.Number.Interface.{Number}
use trading_backend.Store.Entities.{SupervisorDecision}
use trading_backend.Store.Enums.{AgentExecutionSource}
use trading_backend.Store.World.{World, Env}
use trading_backend.Supervisor.{decide_signal_by_id}
use trading_backend.Supervisor.Outcome.{decide_signal_by_id_rows}

module _ {W : Type 0} ⦃n : Number W⦄ where
  -- A call of the supervisor, or an operation that does not write its decisions.
  pub data SupervisorStep : World W → World W → Type 0 where
    deciding :
        (env : Env W) (source : AgentExecutionSource) (i : ℕ) (w : World W)
        → SupervisorStep w (decide_signal_by_id env i source w).1
    elsewhere :
        (w w' : World W) → w'.supervisor_decisions ≡ w.supervisor_decisions → SupervisorStep w w'

  pub data SupervisorRun : World W → World W → Type 0 where
    finished : (w : World W) → SupervisorRun w w
    after_step :
        {w w' w'' : World W} → SupervisorStep w w' → SupervisorRun w' w'' → SupervisorRun w w''

  abbrev pub decisions_of : ℕ → World W → ℕ
  decisions_of i w = count_where (λ d. d.signal_id == i) w.supervisor_decisions

  abbrev pub IsKeptOnce : World W → World W → Type 0
  IsKeptOnce w w' =
      ((j : ℕ) → decisions_of j w ≤ 1 → decisions_of j w' ≤ 1)
      × ((j : ℕ) (d : SupervisorDecision W)
          → supervisor_decision_of j w ≡ some d
          → supervisor_decision_of j w' ≡ some d)

  same-IsKeptOnce :
      (w w' : World W) → w'.supervisor_decisions ≡ w.supervisor_decisions → IsKeptOnce w w'
  unfolding supervisor_decision_of
  same-IsKeptOnce w w' e = (
    λ j few. subst (λ ds. count_where (λ d. d.signal_id == j) ds ≤ 1) (sym e) few,
    λ j d h. subst (λ ds. find_first (λ d. d.signal_id == j) ds ≡ some d) (sym e) h,
  )

  added-IsKeptOnce :
      (i : ℕ) (w w' : World W) (d : SupervisorDecision W)
      → d.signal_id ≡ i
      → supervisor_decision_of i w ≡ none
      → w'.supervisor_decisions ≡ d ∷ w.supervisor_decisions
      → IsKeptOnce w w'
  unfolding supervisor_decision_of find_first count_where
  added-IsKeptOnce i w w' d same new e = (
    λ j few.
        subst (λ ds. count_where (λ d. d.signal_id == j) ds ≤ 1) (sym e)
          (elim (Bool-cases (d.signal_id == j)) [
            | inr q ↦ rw q (omega (arith, few))
            | inl q ↦
                let at_j : i ≡ j = sym same ∙ ==→eq d.signal_id j q in
                let none_yet =
                  count_where-eq-zero (λ x. x.signal_id == j) w.supervisor_decisions
                    (subst (λ k. find_first (λ x. x.signal_id == k) w.supervisor_decisions ≡ none)
                      at_j new) in
                rw (q, none_yet) (omega arith)
          ]),
    λ j x h.
        subst (λ ds. find_first (λ d. d.signal_id == j) ds ≡ some x) (sym e)
          (elim (Bool-cases (d.signal_id == j)) [
            | inr q ↦ rw q h
            | inl q ↦
                let at_j : i ≡ j = sym same ∙ ==→eq d.signal_id j q in
                let none_yet =
                  subst (λ k. find_first (λ x. x.signal_id == k) w.supervisor_decisions ≡ none) at_j
                    new in
                absurd (ground (arith, none_yet, h))
          ]),
  )

  step-IsKeptOnce : {w w' : World W} → SupervisorStep w w' → IsKeptOnce w w'
  step-IsKeptOnce (SupervisorStep.elsewhere w w' e) = same-IsKeptOnce w w' e
  step-IsKeptOnce (SupervisorStep.deciding env source i w) =
      let w' = (decide_signal_by_id env i source w).1 in
      elim (decide_signal_by_id_rows env source i w) [
        | inl e ↦ same-IsKeptOnce w w' e
        | inr (d, p, new, e) ↦ added-IsKeptOnce i w w' d p new e
      ]

  -- Whatever calls for whatever signals are made, in any order, with operations that do not write the
  -- supervisor's decisions between them: a signal that has one decision at most has one at most
  -- afterwards, and a decision that it has is the one that is found afterwards.
  pub run-IsKeptOnce : {w w' : World W} → SupervisorRun w w' → IsKeptOnce w w'
  run-IsKeptOnce (SupervisorRun.finished w) = (λ j few. few, λ j d h. h)
  run-IsKeptOnce (SupervisorRun.after_step s r) =
      let (a, b) = step-IsKeptOnce s in
      let (c, d) = run-IsKeptOnce r in (λ j few. c j (a j few), λ j x h. d j x (b j x h))
