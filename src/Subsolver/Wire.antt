-- ===== src/Subsolver/Wire.antt =====
-- The body that the sub-solver submits (crates/subsolver/src/infra/byos.rs).
pub mod Accepted
use byos_service.Prelude.{ℕ, map}
use byos_service.Domain.Proposal.{Interaction}
use byos_service.Domain.Uid.{Codec}
use byos_service.Common.Dto.{WireInteraction, CreateProposalRequest}
use byos_service.Subsolver.Proposal.{RoutedProposal}

module _ (k : Codec) where
  unfoldable pub to_wire_interaction : Interaction → WireInteraction
  to_wire_interaction i = record {
    target = i.target;
    value = k.to_decimal i.value;
    call_data = k.encode_prefixed i.call_data;
  }

  -- `From<&SignedProposal> for CreateProposalRequest`
  unfoldable pub to_request : RoutedProposal → CreateProposalRequest
  unfolding to_wire_interaction
  to_request p = record {
    order_uid = k.encode_prefixed p.order_uid;
    sell_amount = k.to_decimal p.sell_amount;
    buy_amount = k.to_decimal p.buy_amount;
    interactions = map to_wire_interaction p.interactions;
    valid_until = k.to_decimal p.valid_until;
    nonce = k.to_decimal p.nonce;
    signature = k.encode_prefixed p.signature;
  }
