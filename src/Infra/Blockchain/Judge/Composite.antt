-- ===== src/Infra/Blockchain/Judge/Composite.antt =====
-- The composite validator (`ProposalValidator` of crates/byos/src/infra/blockchain/validator.rs).
use byos_service.Prelude.{ℕ, Option, none, some, List}
use byos_service.Domain.Validator.{Verdict, accept, reject, sim_failed}
use byos_service.Domain.Proposal.{Address, U256, Proposal}
use byos_service.Infra.Orderbook.{FetchOrder}
use byos_service.Infra.Validation.{ValidateProposal}
use byos_service.Infra.Blockchain.Escrow.{
  BalanceOf, EscrowConfig, EscrowState, validate_escrow, clear_cache,
}
use byos_service.Infra.Blockchain.Simulation.{Encoders}
use byos_service.Infra.Blockchain.Judge.{Provider, SimulationConfig, SimulationState}
use byos_service.Infra.Blockchain.Judge.Steps.{validate_simulation}

-- What the two validators share and what each keeps.
pub record JudgeState (N S : Type 0) : Type 0 where
  pub net : N
  pub gas_price : ℕ
  pub balances : List (Address × U256)
  pub book : S
  pub trampoline_cache : List (Address × Address)
  pub authenticator : Option Address

abbrev pub escrow_state : {N S : Type 0} → JudgeState N S → EscrowState N
escrow_state s = record { net = s.net; gas_price = s.gas_price; cache = s.balances }

abbrev pub after_escrow : {N S : Type 0} → EscrowState N → JudgeState N S → JudgeState N S
after_escrow t s = record s { net = t.net; balances = t.cache }

abbrev pub simulation_state : {N S : Type 0} → JudgeState N S → SimulationState N S
simulation_state s = record {
  net = s.net;
  book = s.book;
  gas_price = s.gas_price;
  trampoline_cache = s.trampoline_cache;
  authenticator = s.authenticator;
}

abbrev pub after_simulation : {N S : Type 0} → SimulationState N S → JudgeState N S → JudgeState N S
after_simulation t s = record s {
  net = t.net;
  book = t.book;
  trampoline_cache = t.trampoline_cache;
  authenticator = t.authenticator;
}

module _ {N S : Type 0} (e : Encoders) (balance_of : BalanceOf N) (provider : Provider N)
    (orderbook : FetchOrder S) (escrow : EscrowConfig) (config : SimulationConfig) where
  -- `ProposalValidator::validate`
  unfoldable pub validate : Proposal → JudgeState N S → Option Verdict × JudgeState N S
  unfolding validate_simulation
  validate p s =
      let (verdict, t) = validate_escrow balance_of escrow p (escrow_state s) in
      let s' = after_escrow t s in
      elim verdict [
        | some (accept outcome) ↦
            let (judged, t') =
              validate_simulation e provider orderbook config p (simulation_state s') in
            (judged, after_simulation t' s')
        | some (reject reason) ↦ (some (reject reason), s')
        | some sim_failed ↦ (some sim_failed, s')
        | none ↦ (none, s')
      ]

  -- `impl ValidateProposal for ProposalValidator`
  unfoldable pub proposal_validator : ValidateProposal (JudgeState N S)
  unfolding validate clear_cache
  proposal_validator = record {
    validate = validate;
    begin_tick = λ s. after_escrow (clear_cache (escrow_state s)) s;
  }
