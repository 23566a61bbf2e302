-- ===== src/Infra/Blockchain/Judge.antt =====
-- The production validator (crates/byos/src/infra/blockchain/validator.rs): the escrow check, then
-- the simulation. `Provider` is what it calls of the RPC client, over a state `N` of the network;
-- the orderbook is behind `FetchOrder`, over a state `S`.
pub mod Steps
pub mod Composite
pub mod Accepts
pub mod Stops
pub mod Refuses
pub mod Verdicts
use byos_service.Prelude.{
  ℕ, Bool, true, false, not, Option, none, some, and_then, Result, ok, err, List, [], String, ltb,
  leb, ◌==◌, if◌then◌else◌,
}
use byos_service.Prelude.Ints.{i64_limit, saturating_mul}
use byos_service.Prelude.Maps.{get_key, put}
use byos_service.Domain.Validator.{
  Verdict, accept, reject, sim_failed, RejectionReason, order_not_found, unprofitable,
  SimulationOutcome,
}
use byos_service.Domain.Proposal.{Address, U256, Proposal, submitted, same_status}
use byos_service.Domain.Order.{OrderRecord, OrderKind, sell, buy, check_envelope}
use byos_service.Domain.Scoring.{
  Candidate, effective_gas, surplus_token, scaled_to_fill, score_proposal,
}
use byos_service.Common.Trampoline.{SignedProposal}
use byos_service.Infra.Orderbook.{OrderbookError, order_unknown, transient, FetchOrder}
use byos_service.Infra.Validation.{ValidateProposal}
use byos_service.Infra.Blockchain.Escrow.{
  BalanceOf, EscrowConfig, EscrowState, validate_escrow, clear_cache,
}
use byos_service.Infra.Blockchain.Simulation.{
  Encoders, Simulation, SimulationParams, build_simulation,
}

-- `alloy::transports::RpcError`: a response with an error code, which is only compared with 3; a null
-- response; any other error.
pub data RpcError : Type 0 where
  error_resp : ℕ → RpcError
  null_resp : RpcError
  other_rpc : RpcError

-- `alloy::contract::Error`
pub data ContractError : Type 0 where
  transport_error : RpcError → ContractError
  other_contract : ContractError

unfoldable pub is_revert : RpcError → Bool
is_revert (error_resp code) = code == 3
is_revert null_resp = true
is_revert other_rpc = false

unfoldable pub is_trampoline_revert : ContractError → Bool
unfolding is_revert
is_trampoline_revert (transport_error e) = is_revert e
is_trampoline_revert other_contract = false

-- `TrampolineFactory::addressOf`, `authenticator()` and `eth_estimateGas`.
pub record Provider (N : Type 0) : Type 0 where
  pub address_of : Address → Address → N → Result ContractError Address × N
  pub authenticator : Address → N → Result ContractError Address × N
  pub estimate_gas : Simulation → N → Result RpcError ℕ × N

pub record SimulationConfig : Type 0 where
  pub settlement_address : Address
  pub escrow_address : Address
  pub trampoline_factory : Address
  pub min_score : U256

pub record SimulationState (N S : Type 0) : Type 0 where
  pub net : N
  pub book : S
  pub gas_price : ℕ
  pub trampoline_cache : List (Address × Address)
  pub authenticator : Option Address

-- A step of `validate`: a value, or what the early return answers, and the state after.
abbrev pub Judging : Type 0 → Type 0 → Type 0
Judging St A = St → Result (Option Verdict) A × St

infixl 5 ◌>>=◌
abbrev pub ◌>>=◌ : {St A B : Type 0} → Judging St A → (A → Judging St B) → Judging St B
◌>>=◌ m f s =
    let (answer, s') = m s in elim answer [ err verdict ↦ (err verdict, s') | ok a ↦ f a s' ]

abbrev pub answer_with : {St A : Type 0} → A → Judging St A
answer_with a s = (ok a, s)

abbrev pub gated :
    {St : Type 0}
    → Option (Result RejectionReason (Unit {0})) × St
    → Result (Option Verdict) (Unit {0}) × St
gated (none, s) = (err none, s)
gated (some (err reason), s) = (err (some (reject reason)), s)
gated (some (ok done), s) = (ok tt, s)

abbrev pub is_sell : OrderKind → Bool
is_sell sell = true
is_sell buy = false

-- The candidate of the profitability gate and its score.
unfoldable pub gate_score : OrderRecord → Proposal → ℕ → ℕ → U256 → Option U256
unfolding effective_gas scaled_to_fill score_proposal
gate_score r p gas gas_price native_price =
    let candidate : Candidate = record {
      order_sell = r.order.sell_amount;
      order_buy = r.order.buy_amount;
      proposal_sell = p.sell_amount;
      proposal_buy = p.buy_amount;
      is_sell_order = is_sell r.order.kind;
      gas_cost = saturating_mul (effective_gas gas) gas_price;
    } in
    and_then (scaled_to_fill candidate r.order.partially_fillable)
      (λ c. score_proposal c native_price)

-- `score.is_none_or(|s| s <= min_score)`
abbrev pub too_low : U256 → Option U256 → Bool
too_low min_score none = true
too_low min_score (some s) = leb s min_score

module _ {N S : Type 0} (e : Encoders) (provider : Provider N) (orderbook : FetchOrder S)
    (config : SimulationConfig) where
  unfoldable pub resolve_trampoline :
      Address → SimulationState N S → Result ContractError Address × SimulationState N S
  unfolding get_key put
  resolve_trampoline sub_solver s = elim (get_key sub_solver s.trampoline_cache) [
    | some addr ↦ (ok addr, s)
    | none ↦
        let (answer, net) = provider.address_of config.trampoline_factory sub_solver s.net in
        elim answer [
          | err e ↦ (err e, record s { net = net })
          | ok addr ↦ (
            ok addr,
            record s { net = net; trampoline_cache = put sub_solver addr s.trampoline_cache },
          )
        ]
  ]

  unfoldable pub resolve_authenticator :
      SimulationState N S → Result ContractError Address × SimulationState N S
  resolve_authenticator s = elim s.authenticator [
    | some addr ↦ (ok addr, s)
    | none ↦
        let (answer, net) = provider.authenticator config.settlement_address s.net in
        elim answer [
          | err e ↦ (err e, record s { net = net })
          | ok addr ↦ (ok addr, record s { net = net; authenticator = some addr })
        ]
  ]

  -- `none` defers; the error is the rejection.
  unfoldable pub profitability :
      Proposal
      → OrderRecord
      → ℕ
      → SimulationState N S
      → Option (Result RejectionReason (Unit {0})) × SimulationState N S
  unfolding gate_score
  profitability p r gas s =
      let token = surplus_token (is_sell r.order.kind) r.order.sell_token r.order.buy_token in
      let (answer, book) = orderbook.native_price token s.book in
      let asked = record s { book = book } in
      elim answer [
        | err order_unknown ↦ (some (err unprofitable), asked)
        | err (transient why) ↦ (none, asked)
        | ok native_price ↦
            if too_low config.min_score (gate_score r p gas s.gas_price native_price)
            then (some (err unprofitable), asked)
            else (some (ok tt), asked)
      ]
