-- ===== src/Infra/Api/Errors.antt =====
-- The error responses (crates/byos/src/infra/api/error.rs).
use byos_service.Prelude.{ℕ, String}
use byos_service.Common.Dto.{
  Kind, ErrorBody, invalid_signature, signature_recovery_failed, proposal_expired,
  proposal_lifetime_exceeded, proposal_not_found, proposal_not_cancellable, bad_request, internal,
}

-- `struct Error`
pub record ApiError : Type 0 where
  pub kind : Kind
  pub description : String

-- The status of `into_response`.
unfoldable pub response_status : Kind → ℕ
response_status invalid_signature = 400
response_status signature_recovery_failed = 400
response_status proposal_expired = 400
response_status proposal_lifetime_exceeded = 400
response_status bad_request = 400
response_status Kind.insufficient_escrow = 403
response_status proposal_not_found = 404
response_status proposal_not_cancellable = 409
response_status internal = 500
response_status Kind.unknown = 500

unfoldable pub into_response : ApiError → ℕ × ErrorBody
unfolding response_status
into_response e = (response_status e.kind, record { kind = e.kind; description = e.description })

-- `Error::new`
abbrev pub explained : Kind → String → ApiError
explained kind description = record { kind = kind; description = description }

-- `Error::from`
unfoldable pub of_kind : Kind → ApiError
of_kind invalid_signature = explained invalid_signature "Invalid EIP-712 signature"
of_kind signature_recovery_failed =
    explained signature_recovery_failed "Could not recover signer from signature"
of_kind Kind.insufficient_escrow =
    explained Kind.insufficient_escrow "Sub-solver escrow balance below minimum"
of_kind proposal_expired = explained proposal_expired "Proposal validUntil is in the past"
of_kind proposal_lifetime_exceeded =
    explained proposal_lifetime_exceeded "Proposal validUntil exceeds the maximum proposal lifetime"
of_kind proposal_not_found = explained proposal_not_found "Proposal not found"
of_kind proposal_not_cancellable =
    explained proposal_not_cancellable "Proposal is executing or already in a terminal state"
of_kind bad_request = explained bad_request "Malformed request"
of_kind internal = explained internal "Internal error"
of_kind Kind.unknown = explained Kind.unknown "Internal error"
