-- ===== src/Domain/GasCut/Cover.antt =====
-- The cut, the gas bill and the order's limit (crates/byos/src/domain/gas_cut.rs).
use native.Mathlib.Nat.{le-div_iff_mul-le}
use byos_service.Prelude.{
  inl, inr, Bool, false, Bool-cases, ◌+◌, ◌*◌, ◌/◌, ◌≤◌, ◌<◌, ◌≡◌, true, false, some, arith,
}
use byos_service.Prelude.Ints.{checked_add, checked_mul, checked_sub, checked_div, div_ceil_bounds}
use byos_service.Domain.Proposal.{U256}
use byos_service.Domain.Scoring.{Candidate, ether}
use byos_service.Domain.GasCut.{GasCut, sell_executed, buy_executed, size}

sell_executed_lem :
    (c : Candidate) (amount : U256) {executed : U256}
    → sell_executed c amount ≡ some executed
    → (executed + amount ≡ c.order_sell)
      × (c.order_buy ≤ c.proposal_buy * executed / c.proposal_sell)
      × (0 < c.proposal_sell)
unfolding sell_executed checked_sub checked_mul checked_div
sell_executed_lem c amount h = ground arith

buy_executed_lem :
    (c : Candidate) (amount : U256) {executed : U256}
    → buy_executed c amount ≡ some executed
    → (executed ≡ c.order_buy) × (c.proposal_sell + amount ≤ c.order_sell)
unfolding buy_executed checked_add
buy_executed_lem c amount h = ground arith

-- A cut that is sized pays the gas bill at the sell token's price, and exceeds it by less than one
-- atom's worth.
pub size_cover :
    (c : Candidate) (price : U256) {cut : GasCut}
    → size c price ≡ some cut
    → (c.gas_cost * ether ≤ cut.amount * price) × (cut.amount * price < c.gas_cost * ether + price)
unfolding size checked_mul
size_cover c price h = ground (arith, div_ceil_bounds (c.gas_cost * ether) price)

-- A sell order executes what the cut leaves, and the user still receives the limit; a buy order
-- executes its buy amount, and the route and the cut fit the signed sell amount.
abbrev pub Fulfills : Bool → Candidate → GasCut → Type 0
Fulfills true c cut =
    (cut.executed_amount + cut.amount ≡ c.order_sell)
    × (c.order_buy * c.proposal_sell ≤ c.proposal_buy * cut.executed_amount)
Fulfills false c cut =
    (cut.executed_amount ≡ c.order_buy) × (c.proposal_sell + cut.amount ≤ c.order_sell)

-- A cut that is sized leaves a sell order executing what the cut leaves of its sell amount, with
-- the limit still met on the route's amounts, and a buy order executing its buy amount, with the
-- route's input and the cut within the signed sell amount.
pub size-Fulfills :
    (c : Candidate) (price : U256) (cut : GasCut)
    → size c price ≡ some cut
    → Fulfills c.is_sell_order c cut
unfolding size
size-Fulfills c price cut h = elim (Bool-cases c.is_sell_order) [
  | inl e ↦ rw e (
      ground (
        arith,
        sell_executed_lem c cut.amount {executed = cut.executed_amount},
        le-div_iff_mul-le {k = c.proposal_sell} {x = c.order_buy}
            {y = c.proposal_buy * cut.executed_amount},
      ))
  | inr e ↦ rw e (ground (arith, buy_executed_lem c cut.amount {executed = cut.executed_amount}))
]
