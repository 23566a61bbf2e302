-- ===== src/Infra/Api/Dto.antt =====
-- The conversions between the domain types and the bodies of the API
-- (crates/byos/src/infra/api/dto.rs).
use byos_service.Prelude.{Option, Result, ok, ◌>>=◌, map_err, or_fail, String}
use byos_service.Prelude.Bytes.{strip_0x}
use byos_service.Domain.Validator.{
  RejectionReason, insufficient_escrow, unsupported_order, amount_mismatch, order_not_found,
  unprofitable,
}
use byos_service.Domain.Proposal.{
  U256, Bytes, Interaction, Proposal, ProposalStatus, submitted, active, rejected, expired,
  executing, settled, settle_failed, penalized, sim_failed, cancelled,
}
use byos_service.Domain.Uid.{Codec}
use byos_service.Common.Dto.{WireStatus, WireReason, WireInteraction, ProposalMetadata, bad_request}
use byos_service.Infra.Api.Errors.{ApiError, explained}

-- `From<ProposalStatus> for Status`
unfoldable pub to_wire : ProposalStatus → WireStatus
to_wire submitted = WireStatus.submitted
to_wire active = WireStatus.active
to_wire rejected = WireStatus.rejected
to_wire expired = WireStatus.expired
to_wire executing = WireStatus.executing
to_wire settled = WireStatus.settled
to_wire settle_failed = WireStatus.settle_failed
to_wire penalized = WireStatus.penalized
to_wire sim_failed = WireStatus.sim_failed
to_wire cancelled = WireStatus.cancelled

-- `From<domain::validator::RejectionReason> for RejectionReason`
unfoldable pub reason_to_wire : RejectionReason → WireReason
reason_to_wire insufficient_escrow = WireReason.insufficient_escrow
reason_to_wire unsupported_order = WireReason.unsupported_order
reason_to_wire amount_mismatch = WireReason.amount_mismatch
reason_to_wire order_not_found = WireReason.order_not_found
reason_to_wire unprofitable = WireReason.unprofitable

module _ (k : Codec) where
  unfoldable pub parse_hex : String → Result String Bytes
  parse_hex s = k.decode_hex (strip_0x s)

  abbrev pub parse_u256 : String → Option U256
  parse_u256 s = k.from_decimal s

  -- `From<&Proposal> for ProposalMetadata`
  unfoldable pub metadata : Proposal → ProposalMetadata
  unfolding to_wire
  metadata p = record {
    id = p.id;
    sub_solver = p.sub_solver;
    valid_until = k.to_decimal p.valid_until;
    status = to_wire p.status;
  }

  unfoldable pub interaction : WireInteraction → Result ApiError Interaction
  unfolding parse_hex
  interaction dto = do
    value ← or_fail (parse_u256 dto.value) (explained bad_request "invalid interaction value")
    call_data ←
        map_err (λ e. explained bad_request "invalid interaction callData")
          (parse_hex dto.call_data)
    ok (record { target = dto.target; value = value; call_data = call_data })
