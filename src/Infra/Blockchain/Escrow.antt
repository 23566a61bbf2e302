-- ===== src/Infra/Blockchain/Escrow.antt =====
-- The escrow check (crates/byos/src/infra/blockchain/escrow.rs). `Provider` is the call that it makes
-- of the RPC client, over a state `N` of the network.
use byos_service.Prelude.{
  ℕ, Option, none, some, Result, ok, err, List, [], String, leb, if◌then◌else◌,
}
use byos_service.Prelude.Ints.{saturating_add, saturating_mul}
use byos_service.Prelude.Maps.{get_key, put}
use byos_service.Domain.Validator.{Verdict, accept, reject, insufficient_escrow}
use byos_service.Domain.Proposal.{Address, U256, Proposal}
use byos_service.Domain.Scoring.{escrow_gas_estimation}

-- `Escrow::effectiveBalance`
pub record BalanceOf (N : Type 0) : Type 0 where
  pub effective_balance : Address → Address → N → Result String U256 × N

pub record EscrowConfig : Type 0 where
  pub escrow_address : Address
  pub min_collateral : U256

-- The network, the shared gas price and the balances that this tick has read.
pub record EscrowState (N : Type 0) : Type 0 where
  pub net : N
  pub gas_price : ℕ
  pub cache : List (Address × U256)

unfoldable pub threshold : EscrowConfig → ℕ → U256
threshold config gas_price =
    saturating_add (saturating_mul escrow_gas_estimation gas_price) config.min_collateral

module _ {N : Type 0} (provider : BalanceOf N) (config : EscrowConfig) where
  unfoldable pub get_balance : Address → EscrowState N → Result String U256 × EscrowState N
  unfolding get_key put
  get_balance sub_solver s = elim (get_key sub_solver s.cache) [
    | some balance ↦ (ok balance, s)
    | none ↦
        let (answer, net) = provider.effective_balance config.escrow_address sub_solver s.net in
        elim answer [
          | err e ↦ (err e, record s { net = net })
          | ok balance ↦
              (ok balance, record s { net = net; cache = put sub_solver balance s.cache })
        ]
  ]

  -- `EscrowValidator::validate`
  unfoldable pub validate_escrow : Proposal → EscrowState N → Option Verdict × EscrowState N
  unfolding get_balance threshold
  validate_escrow p s =
      let (answer, s') = get_balance p.sub_solver s in
      elim answer [
        | err e ↦ (none, s')
        | ok balance ↦
            if leb (threshold config s.gas_price) balance
            then (some (accept none), s')
            else (some (reject insufficient_escrow), s')
      ]

-- `EscrowValidator::begin_tick`
unfoldable pub clear_cache : {N : Type 0} → EscrowState N → EscrowState N
clear_cache s = record s { cache = [] }
