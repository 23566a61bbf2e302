-- ===== src/Domain/Scoring/Limit.antt =====
-- The score and the order's limit (crates/byos/src/domain/scoring.rs).
use byos_service.Prelude.{◌+◌, ◌-◌, ◌*◌, ◌/◌, ◌≤◌, ◌<◌, ◌≡◌, ◌↔◌, some, arith, if◌then◌else◌}
use byos_service.Prelude.Ints.{u256_limit, checked_mul, checked_sub, checked_div}
use byos_service.Domain.Proposal.{U256}
use byos_service.Domain.Scoring.{Candidate, ether, score_proposal}

-- The amount that must be covered, and the amount that covers it.
abbrev pub limit_side : Candidate → U256
limit_side c = if c.is_sell_order then c.order_buy else c.proposal_sell

abbrev pub offered_side : Candidate → U256
offered_side c = if c.is_sell_order then c.proposal_buy else c.order_sell

-- A candidate scores s exactly when its limit is met, the surplus in wei before it is scaled down
-- fits 256 bits, and s and the gas cost sum to the scaled surplus.
pub score_proposal-eq-some :
    (c : Candidate) (price s : U256)
    → (score_proposal c price ≡ some s) ↔ (
        (limit_side c ≤ offered_side c)
        × ((offered_side c - limit_side c) * price < u256_limit)
        × (s + c.gas_cost ≡ (offered_side c - limit_side c) * price / ether))
unfolding score_proposal checked_sub checked_mul checked_div
score_proposal-eq-some c price s = ground arith
