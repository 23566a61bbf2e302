-- ===== src/Infra/Blockchain/Simulation.antt =====
-- The simulation of a settlement (crates/byos/src/infra/blockchain/simulation.rs). The hash and the
-- ABI encoder are third-party crates and parameters; the vendored bytecode of the authenticator is
-- one, too.
use byos_service.Prelude.{ℕ, List, [], ◌∷◌, ◌++◌}
use byos_service.Prelude.Bytes.{to_be_bytes}
use byos_service.Domain.Proposal.{Address, B256, Bytes, Interaction}
use byos_service.Domain.Order.{CowOrder}
use byos_service.Common.Trampoline.{SignedProposal, Abi}
use byos_service.Common.Settlement.{SettleCall, encode_settle}

abbrev pub dummy_submitter : Address
dummy_submitter = 0x1111111111111111111111111111111111111111

abbrev pub submitter_role : B256
submitter_role = 0xe1a65d1a914580ff6931bc952f0fb26573e9282358a4458bceb9ccc6d923d041

abbrev pub roles_mapping_slot : ℕ
roles_mapping_slot = 5

pub record SimulationParams : Type 0 where
  pub settlement : Address
  pub authenticator : Address
  pub escrow : Address
  pub trampoline : Address
  pub order : CowOrder
  pub proposal : SignedProposal
  pub route : List Interaction
  pub signature : Bytes
  pub pre_interactions : List Interaction
  pub post_interactions : List Interaction

-- The transaction, the code that stands in for the authenticator, and the slots that are set on the
-- escrow.
pub record Simulation : Type 0 where
  pub from_address : Address
  pub to_address : Address
  pub input : Bytes
  pub authenticator_override : Address × Bytes
  pub escrow_override : Address × List (B256 × B256)

pub record Encoders : Type 0 where
  pub keccak256 : Bytes → B256
  pub abi : Abi
  pub encode_call : SettleCall → Bytes
  pub anyone_authenticator_code : Bytes

module _ (e : Encoders) where
  -- `B256::left_padding_from` and `with_last_byte` are numbers of 32 bytes.
  unfoldable pub submitter_role_slot : Address → B256
  submitter_role_slot account =
      let role_data_slot =
        e.keccak256 (to_be_bytes 32 submitter_role ++ to_be_bytes 32 roles_mapping_slot) in
      e.keccak256 (to_be_bytes 32 account ++ to_be_bytes 32 role_data_slot)

  unfoldable pub build_simulation : SimulationParams → Simulation
  unfolding encode_settle submitter_role_slot
  build_simulation p = record {
    from_address = dummy_submitter;
    to_address = p.settlement;
    input =
        encode_settle e.encode_call e.abi p.order p.proposal p.trampoline p.route p.signature
          p.pre_interactions p.post_interactions;
    authenticator_override = (p.authenticator, e.anyone_authenticator_code);
    escrow_override = (p.escrow, (submitter_role_slot dummy_submitter, 1) ∷ []);
  }
