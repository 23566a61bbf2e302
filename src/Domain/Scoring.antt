-- ===== src/Domain/Scoring.antt =====
-- Proposal scoring, `score = surplus - gas` (crates/byos/src/domain/scoring.rs).
pub mod Limit
use byos_service.Prelude.{
  ℕ, ◌+◌, ◌^◌, Bool, true, false, Option, none, some, and_then, ◌==◌, if◌then◌else◌,
}
use byos_service.Prelude.Ints.{u64_saturating_add, checked_mul, checked_sub, checked_div, div_ceil}
use byos_service.Domain.Proposal.{Address, U256}

-- `ESCROW_GAS_ESTIMATION`
abbrev pub escrow_gas_estimation : ℕ
escrow_gas_estimation = 200_000

-- `GAS_BUFFER`
abbrev pub gas_buffer : ℕ
gas_buffer = 30_000

-- `Unit::ETHER.wei()`
abbrev pub ether : U256
ether = 10 ^ 18

unfoldable pub effective_gas : ℕ → ℕ
effective_gas simulated = u64_saturating_add simulated gas_buffer

unfoldable pub surplus_token : Bool → Address → Address → Address
surplus_token is_sell_order sell_token buy_token = if is_sell_order then buy_token else sell_token

pub record Candidate : Type 0 where
  pub order_sell : U256
  pub order_buy : U256
  pub proposal_sell : U256
  pub proposal_buy : U256
  pub is_sell_order : Bool
  pub gas_cost : U256

-- The sell side scales the buy limit up, the buy side scales the sell limit down.
unfoldable pub scaled_to_fill : Candidate → Bool → Option Candidate
scaled_to_fill c partially_fillable =
    if partially_fillable
    then (if c.is_sell_order
        then (if c.order_sell == 0
            then none
            else and_then (checked_mul c.order_buy c.proposal_sell) (λ product. some (record c {
              order_sell = c.proposal_sell;
              order_buy = div_ceil product c.order_sell;
            })))
        else and_then (checked_mul c.order_sell c.proposal_buy) (λ product.
          and_then (checked_div product c.order_buy) (λ scaled_sell.
            some (record c { order_sell = scaled_sell; order_buy = c.proposal_buy }))))
    else some c

-- The improvement over the order's limit, in the surplus token.
unfoldable pub surplus : Candidate → Option U256
surplus c =
    if c.is_sell_order
    then checked_sub c.proposal_buy c.order_buy
    else checked_sub c.order_sell c.proposal_sell

-- `surplus_price` is the wei value of 10^18 atoms of the surplus token.
unfoldable pub score_proposal : Candidate → U256 → Option U256
unfolding surplus
score_proposal c surplus_price = and_then (surplus c) (λ atoms.
    and_then (checked_mul atoms surplus_price) (λ product.
      and_then (checked_div product ether) (λ surplus_eth. checked_sub surplus_eth c.gas_cost)))
