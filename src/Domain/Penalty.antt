-- ===== src/Domain/Penalty.antt =====
-- Track A penalty amounts (crates/byos/src/domain/penalty.rs).
use byos_service.Prelude.{ℕ, ◌+◌, ◌*◌, ◌/◌, ◌≤◌, ◌<◌, ◌≡◌, arith}
use byos_service.Prelude.Ints.{u256_limit, saturating_add}
use byos_service.Domain.Proposal.{ProposalId, Address, OrderUid, U256}

unfoldable pub revert_debit : U256 → U256 → U256
revert_debit settlement_cost c_l = saturating_add settlement_cost c_l

unfoldable pub non_settlement_debit : U256 → U256
non_settlement_debit c_l = c_l / 10

-- `id` is the `penalties` row id.
pub record PendingPenalty : Type 0 where
  pub id : ℕ
  pub proposal_id : ProposalId
  pub sub_solver : Address
  pub order_uid : OrderUid

-- If the settlement's cost and the collateral charge sum to a 256-bit amount, a revert costs
-- exactly that sum, and an abandonment costs at most a tenth of the charge.
pub debit_bounds :
    (cost c_l : U256)
    → cost + c_l < u256_limit
    → (revert_debit cost c_l ≡ cost + c_l) × (10 * non_settlement_debit c_l ≤ c_l)
unfolding revert_debit non_settlement_debit saturating_add
debit_bounds cost c_l h = ground arith
