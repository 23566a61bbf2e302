-- ===== src/Common/Dto.antt =====
-- The bodies of the HTTP API (crates/proposal-dto). `serde` turns them into JSON and back.
use byos_service.Prelude.{ℕ, Bool, true, false, Option, List, String}
use byos_service.Domain.Proposal.{Address}

pub data Kind : Type 0 where
  invalid_signature : Kind
  signature_recovery_failed : Kind
  insufficient_escrow : Kind
  proposal_expired : Kind
  proposal_lifetime_exceeded : Kind
  proposal_not_found : Kind
  proposal_not_cancellable : Kind
  bad_request : Kind
  internal : Kind
  unknown : Kind

-- `struct Error`
pub record ErrorBody : Type 0 where
  pub kind : Kind
  pub description : String

-- `enum Status`, whose names but `unknown` are those of the service's own statuses.
pub data WireStatus : Type 0 where
  submitted : WireStatus
  active : WireStatus
  rejected : WireStatus
  expired : WireStatus
  executing : WireStatus
  settled : WireStatus
  settle_failed : WireStatus
  penalized : WireStatus
  sim_failed : WireStatus
  cancelled : WireStatus
  unknown : WireStatus

unfoldable pub is_terminal : WireStatus → Bool
is_terminal WireStatus.rejected = true
is_terminal WireStatus.expired = true
is_terminal WireStatus.settled = true
is_terminal WireStatus.settle_failed = true
is_terminal WireStatus.penalized = true
is_terminal WireStatus.sim_failed = true
is_terminal WireStatus.cancelled = true
is_terminal _ = false

-- `enum RejectionReason`
pub data WireReason : Type 0 where
  insufficient_escrow : WireReason
  unsupported_order : WireReason
  amount_mismatch : WireReason
  order_not_found : WireReason
  unprofitable : WireReason
  unknown : WireReason

-- `struct Interaction`
pub record WireInteraction : Type 0 where
  pub target : Address
  pub value : String
  pub call_data : String

pub record CreateProposalRequest : Type 0 where
  pub order_uid : String
  pub sell_amount : String
  pub buy_amount : String
  pub interactions : List WireInteraction
  pub valid_until : String
  pub nonce : String
  pub signature : String

pub record CreateProposalResponse : Type 0 where
  pub id : ℕ

pub record ProposalMetadata : Type 0 where
  pub id : ℕ
  pub sub_solver : Address
  pub valid_until : String
  pub status : WireStatus

pub record ListProposalsResponse : Type 0 where
  pub proposals : List ProposalMetadata

pub record GetProposalResponse : Type 0 where
  pub id : ℕ
  pub sub_solver : Address
  pub order_uid : String
  pub sell_amount : String
  pub buy_amount : String
  pub valid_until : String
  pub status : WireStatus
  pub rejection_reason : Option WireReason
  pub settlement_tx_hash : Option String
  pub penalty_tx_hash : Option String
