-- ===== src/Common/Trampoline.antt =====
-- The interactions that wrap a proposal in a Trampoline call
-- (crates/byos-common/src/trampoline.rs). The ABI encoder is a third-party crate: `Abi` is the two
-- calls that the code encodes with it.
use byos_service.Prelude.{List, [], ◌∷◌}
use byos_service.Domain.Proposal.{Address, B256, U256, Bytes, Interaction}

-- `byos_common::contracts::Proposal`, the signed part of a proposal.
pub record SignedProposal : Type 0 where
  pub order_uid_hash : B256
  pub sell_amount : U256
  pub buy_amount : U256
  pub valid_until : U256
  pub nonce : U256

-- `ERC20::transferCall::abi_encode` and `Trampoline::executeCall::abi_encode`
pub record Abi : Type 0 where
  pub transfer_call : Address → U256 → Bytes
  pub execute_call : SignedProposal → List Interaction → Address → Address → Bytes → Bytes

unfoldable pub encode_trampoline_interactions :
    Abi → Address → Address → SignedProposal → List Interaction → Address → Bytes → List Interaction
encode_trampoline_interactions abi trampoline sell_token proposal interactions buy_token signature =
    record {
      target = sell_token;
      value = 0;
      call_data = abi.transfer_call trampoline proposal.sell_amount;
    }
    ∷ record {
      target = trampoline;
      value = 0;
      call_data = abi.execute_call proposal interactions sell_token buy_token signature;
    }
    ∷ []
