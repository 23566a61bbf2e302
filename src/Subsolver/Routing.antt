-- ===== src/Subsolver/Routing.antt =====
-- Single-hop routing on a constant-product pool (crates/subsolver/src/domain/routing.rs).
pub mod Swaps
use byos_service.Prelude.{
  ℕ, ◌+◌, ◌-◌, ◌/◌, ◌||◌, Option, none, some, and_then, ◌++◌, ltb, leb, ◌==◌, if◌then◌else◌,
}
use byos_service.Prelude.Bytes.{to_be_bytes}
use byos_service.Prelude.Ints.{checked_add, checked_mul}
use byos_service.Domain.Proposal.{Address, B256, U256, Bytes}

abbrev pub fee_numerator : ℕ
fee_numerator = 997

abbrev pub fee_denominator : ℕ
fee_denominator = 1000

-- The denominator is positive, since both reserves are.
unfoldable pub amount_out : U256 → U256 → U256 → Option U256
unfolding checked_add checked_mul
amount_out amount_in reserve_in reserve_out =
    if reserve_in == 0 || reserve_out == 0
    then none
    else and_then (checked_mul amount_in fee_numerator) (λ amount_in_with_fee.
      and_then (checked_mul amount_in_with_fee reserve_out) (λ numerator.
        and_then (checked_mul reserve_in fee_denominator) (λ scaled.
          and_then (checked_add scaled amount_in_with_fee)
            (λ denominator. some (numerator / denominator)))))

unfoldable pub amount_in : U256 → U256 → U256 → Option U256
unfolding checked_add checked_mul
amount_in amount_out reserve_in reserve_out =
    if reserve_in == 0 || leb reserve_out amount_out
    then none
    else and_then (checked_mul reserve_in amount_out) (λ product.
      and_then (checked_mul product fee_denominator) (λ numerator.
        and_then (checked_mul (reserve_out - amount_out) fee_numerator)
          (λ denominator. checked_add (numerator / denominator) 1)))

-- `create2` is alloy's, from the factory, the salt and the hash of the init code.
unfoldable pub pair_address :
    (Bytes → B256)
    → (Address → B256 → B256 → Address)
    → Address
    → B256
    → Address
    → Address
    → Address
pair_address keccak256 create2 factory init_code_hash token_a token_b =
    let (token0, token1) = if ltb token_a token_b then (token_a, token_b) else (token_b, token_a) in
    create2 factory (keccak256 (to_be_bytes 20 token0 ++ to_be_bytes 20 token1)) init_code_hash
