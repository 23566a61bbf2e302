-- ===== src/Infra/Blockchain/Judge/Verdicts.antt =====
-- What stands behind a verdict of the production validator
-- (crates/byos/src/infra/blockchain/validator.rs).
use byos_service.Prelude.{
  ◌<◌, ◌⊎◌, ◌≤◌, ◌≡◌, inl, inr, Option-cases, Result-cases, Option, some, ok, arith, subst, none,
}
use byos_service.Domain.Validator.{
  Verdict, accept, reject, sim_failed, RejectionReason, insufficient_escrow, SimulationOutcome,
}
use byos_service.Domain.Proposal.{U256, Proposal}
use byos_service.Infra.Orderbook.{FetchOrder}
use byos_service.Infra.Blockchain.Escrow.{
  BalanceOf, EscrowConfig, EscrowState, threshold, get_balance, validate_escrow,
}
use byos_service.Infra.Blockchain.Simulation.{Encoders}
use byos_service.Infra.Blockchain.Judge.{Provider, SimulationConfig, SimulationState}
use byos_service.Infra.Blockchain.Judge.Steps.{simulation_outcome}
use byos_service.Infra.Blockchain.Judge.Composite.{
  JudgeState, escrow_state, after_escrow, simulation_state, validate,
}
use byos_service.Infra.Blockchain.Judge.Accepts.{IsSimulated, simulation_outcome-ok}
use byos_service.Infra.Blockchain.Judge.Refuses.{IsRefused, simulation_outcome-IsRefused}
use byos_service.Infra.Blockchain.Judge.Stops.{HasReverted, simulation_outcome-Stops}

module _ {N S : Type 0} (e : Encoders) (balance_of : BalanceOf N) (provider : Provider N)
    (orderbook : FetchOrder S) (escrow : EscrowConfig) (config : SimulationConfig) where
  -- The sub-solver's escrow covers the threshold, by the balance that this tick has read.
  abbrev pub IsCovered : Proposal → JudgeState N S → Type 0
  IsCovered p s =
      (balance : U256) × ((get_balance balance_of escrow p.sub_solver (escrow_state s)).0
        ≡ ok balance)
      × (threshold escrow s.gas_price ≤ balance)

  escrow_accepts :
      (p : Proposal) (s : JudgeState N S) (o : Option SimulationOutcome)
      → (validate_escrow balance_of escrow p (escrow_state s)).0 ≡ some (accept o)
      → IsCovered p s
  unfolding validate_escrow
  escrow_accepts p s o h =
      elim (Result-cases (get_balance balance_of escrow p.sub_solver (escrow_state s)).0) [
        | inr (why, q) ↦ absurd (ground arith)
        | inl (balance, q) ↦ (balance, q, ground arith)
      ]

  escrow_not_sim_failed :
      (p : Proposal) (s : JudgeState N S)
      → (validate_escrow balance_of escrow p (escrow_state s)).0 ≡ some sim_failed
      → ⊥
  unfolding validate_escrow
  escrow_not_sim_failed p s h = ground arith

  -- The escrow that was read is below the threshold.
  abbrev pub IsShort : Proposal → JudgeState N S → Type 0
  IsShort p s =
      (balance : U256) × ((get_balance balance_of escrow p.sub_solver (escrow_state s)).0
        ≡ ok balance)
      × (balance < threshold escrow s.gas_price)

  escrow_rejects :
      (p : Proposal) (s : JudgeState N S) (why : RejectionReason)
      → (validate_escrow balance_of escrow p (escrow_state s)).0 ≡ some (reject why)
      → (why ≡ insufficient_escrow) × IsShort p s
  unfolding validate_escrow
  escrow_rejects p s why h =
      elim (Result-cases (get_balance balance_of escrow p.sub_solver (escrow_state s)).0) [
        | inr (fault, q) ↦ absurd (ground arith)
        | inl (balance, q) ↦ (ground arith, (balance, q, ground arith))
      ]

  -- What stands behind a verdict.
  abbrev pub IsJustified : Proposal → JudgeState N S → Verdict → Type 0
  IsJustified p s (accept none) = ⊥
  IsJustified p s (accept (some outcome)) =
      IsCovered p s × IsSimulated e provider orderbook config p s.gas_price outcome
  IsJustified p s sim_failed = IsCovered p s × HasReverted e provider orderbook config p
  IsJustified p s (reject why) =
      ((why ≡ insufficient_escrow) × IsShort p s)
      ⊎ (IsCovered p s × IsRefused e provider orderbook config p s.gas_price why)

  -- Each verdict of the production validator has its grounds. An acceptance carries an outcome:
  -- the escrow that was read covers the threshold, the order was answered within its envelope, the
  -- gas is the node's estimate with the outcome's trampoline and fits i64, and a submitted
  -- proposal scores above the minimum. A failed simulation means that the escrow is covered and
  -- the node answered a revert. A rejection means that the escrow is below the threshold, or is
  -- covered and the order is unknown, its envelope refuses the proposal for that reason, or a
  -- submitted proposal has no price or too low a score.
  pub validate-IsJustified :
      (p : Proposal) (s : JudgeState N S) (v : Verdict)
      → (validate e balance_of provider orderbook escrow config p s).0 ≡ some v
      → IsJustified p s v
  unfolding validate
  validate-IsJustified p s v h = judged v h
    where
      read : EscrowState N
      read = (validate_escrow balance_of escrow p (escrow_state s)).1

      start : SimulationState N S
      start = simulation_state (after_escrow read s)

      accepted :
          (o : Option SimulationOutcome)
          → (validate e balance_of provider orderbook escrow config p s).0 ≡ some (accept o)
          → (outcome : SimulationOutcome) × (o ≡ some outcome)
            × IsCovered p s
            × IsSimulated e provider orderbook config p s.gas_price outcome
      accepted o h = elim (Option-cases (validate_escrow balance_of escrow p (escrow_state s)).0) [
        | inl q ↦ absurd (ground arith)
        | inr (sim_failed, q) ↦ absurd (ground arith)
        | inr (reject why, q) ↦ absurd (ground arith)
        | inr (accept held, q) ↦
            elim (Result-cases (simulation_outcome e provider orderbook config p start).0) [
              | inr (v, r) ↦ absurd (
                  simulation_outcome-Stops e provider orderbook config p start (some (accept o))
                    (ground arith))
              | inl (outcome, r) ↦ (
                outcome,
                ground arith,
                escrow_accepts p s held q,
                simulation_outcome-ok e provider orderbook config p start
                    (simulation_outcome e provider orderbook config p start).1 outcome
                    (ground arith),
              )
            ]
      ]

      failed :
          (validate e balance_of provider orderbook escrow config p s).0 ≡ some sim_failed
          → IsCovered p s × HasReverted e provider orderbook config p
      failed h = elim (Option-cases (validate_escrow balance_of escrow p (escrow_state s)).0) [
        | inl q ↦ absurd (ground arith)
        | inr (sim_failed, q) ↦ absurd (escrow_not_sim_failed p s q)
        | inr (reject why, q) ↦ absurd (ground arith)
        | inr (accept held, q) ↦
            elim (Result-cases (simulation_outcome e provider orderbook config p start).0) [
              | inl (outcome, r) ↦ absurd (ground arith)
              | inr (v, r) ↦ (
                escrow_accepts p s held q,
                simulation_outcome-Stops e provider orderbook config p start (some sim_failed)
                    (ground arith),
              )
            ]
      ]

      rejected :
          (why : RejectionReason)
          → (validate e balance_of provider orderbook escrow config p s).0 ≡ some (reject why)
          → IsJustified p s (reject why)
      rejected why h =
          elim (Option-cases (validate_escrow balance_of escrow p (escrow_state s)).0) [
            | inl q ↦ absurd (ground arith)
            | inr (sim_failed, q) ↦ absurd (ground arith)
            | inr (reject cause, q) ↦ inl (escrow_rejects p s why (ground arith))
            | inr (accept held, q) ↦
                elim (Result-cases (simulation_outcome e provider orderbook config p start).0) [
                  | inl (outcome, r) ↦ absurd (ground arith)
                  | inr (v, r) ↦ inr (
                    escrow_accepts p s held q,
                    simulation_outcome-IsRefused e provider orderbook config p start why
                        (ground arith),
                  )
                ]
          ]

      judged :
          (v : Verdict)
          → (validate e balance_of provider orderbook escrow config p s).0 ≡ some v
          → IsJustified p s v
      judged (reject why) h = rejected why h
      judged (accept none) h = let (outcome, q, covered, simulated) = accepted none h in cc q
      judged (accept (some o)) h =
          let (outcome, q, covered, simulated) = accepted (some o) h in
          let same : outcome ≡ o = ground arith in
          (covered, subst (IsSimulated e provider orderbook config p s.gas_price) same simulated)
      judged sim_failed h = failed h
