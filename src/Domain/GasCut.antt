-- ===== src/Domain/GasCut.antt =====
-- The gas cut that a settlement keeps back (crates/byos/src/domain/gas_cut.rs).
pub mod Cover
use byos_service.Prelude.{
  ℕ, Bool, true, false, Option, none, some, and_then, ltb, ◌==◌, if◌then◌else◌,
}
use byos_service.Prelude.Ints.{checked_add, checked_mul, checked_sub, checked_div, div_ceil}
use byos_service.Domain.Proposal.{U256}
use byos_service.Domain.Scoring.{Candidate, ether}

pub record GasCut : Type 0 where
  pub amount : U256
  pub executed_amount : U256

-- What a sell order executes once the cut is taken: `none` when the user would fall below the limit.
unfoldable pub sell_executed : Candidate → U256 → Option U256
sell_executed c amount = and_then (checked_sub c.order_sell amount) (λ executed.
    and_then (checked_mul c.proposal_buy executed) (λ product.
      and_then (checked_div product c.proposal_sell)
        (λ received. if ltb received c.order_buy then none else some executed)))

-- What a buy order executes: the route's input and the cut must stay within the signed sell amount.
unfoldable pub buy_executed : Candidate → U256 → Option U256
buy_executed c amount =
    and_then (checked_add c.proposal_sell amount)
      (λ spent. if ltb c.order_sell spent then none else some c.order_buy)

unfoldable pub size : Candidate → U256 → Option GasCut
unfolding sell_executed buy_executed
size c sell_token_price =
    if sell_token_price == 0
    then none
    else and_then (checked_mul c.gas_cost ether) (λ bill.
      let amount = div_ceil bill sell_token_price in
      and_then (if c.is_sell_order then sell_executed c amount else buy_executed c amount)
        (λ executed. some (record { amount = amount; executed_amount = executed })))
