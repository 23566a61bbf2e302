-- ===== src/Domain/Audit.antt =====
-- Audit events, the evidence that the store emits (crates/byos/src/domain/audit.rs). The emission
-- time is left out: no code of the service reads it.
use byos_service.Prelude.{Option, none, String}
use byos_service.Domain.Validator.{RejectionReason}
use byos_service.Domain.Proposal.{
  ProposalId, OrderUid, Address, B256, U256, Proposal, ProposalStatus, submitted, active, rejected,
  expired, executing, settled, settle_failed, penalized, sim_failed, cancelled,
}

pub data AuditKind : Type 0 where
  received : Proposal → AuditKind
  was_cancelled : ProposalId → Address → OrderUid → AuditKind
  -- from, to, the rejection reason and the settlement transaction
  status_changed :
      ProposalId
      → Address
      → OrderUid
      → ProposalStatus
      → ProposalStatus
      → Option RejectionReason
      → Option B256
      → AuditKind
  -- the amount, the settlement transaction and the debit transaction
  was_penalized : ProposalId → Address → OrderUid → U256 → Option B256 → B256 → AuditKind
  non_settlement_debited : ProposalId → Address → OrderUid → U256 → B256 → AuditKind
  driver_notified : ProposalId → Address → OrderUid → String → AuditKind

unfoldable pub proposal_id : AuditKind → ProposalId
proposal_id (received p) = p.id
proposal_id (was_cancelled id s u) = id
proposal_id (status_changed id s u from to reason tx) = id
proposal_id (was_penalized id s u amount tx penalty_tx) = id
proposal_id (non_settlement_debited id s u amount penalty_tx) = id
proposal_id (driver_notified id s u kind) = id

unfoldable pub sub_solver : AuditKind → Address
sub_solver (received p) = p.sub_solver
sub_solver (was_cancelled id s u) = s
sub_solver (status_changed id s u from to reason tx) = s
sub_solver (was_penalized id s u amount tx penalty_tx) = s
sub_solver (non_settlement_debited id s u amount penalty_tx) = s
sub_solver (driver_notified id s u kind) = s

unfoldable pub settlement_tx_hash : AuditKind → Option B256
settlement_tx_hash (status_changed id s u from to reason tx) = tx
settlement_tx_hash (was_penalized id s u amount tx penalty_tx) = tx
settlement_tx_hash _ = none

unfoldable pub order_uid : AuditKind → OrderUid
order_uid (received p) = p.order_uid
order_uid (was_cancelled id s u) = u
order_uid (status_changed id s u from to reason tx) = u
order_uid (was_penalized id s u amount tx penalty_tx) = u
order_uid (non_settlement_debited id s u amount penalty_tx) = u
order_uid (driver_notified id s u kind) = u

-- The verb of a transition; the first match wins.
unfoldable pub transition_name : ProposalStatus → ProposalStatus → String
transition_name executing active = "released"
transition_name _ active = "validated"
transition_name _ rejected = "rejected"
transition_name _ expired = "expired"
transition_name _ executing = "settlement_started"
transition_name _ sim_failed = "sim_failed"
transition_name _ settled = "settled"
transition_name _ settle_failed = "settle_failed"
transition_name _ penalized = "penalized"
transition_name _ cancelled = "cancelled"
transition_name _ submitted = "resubmitted"

unfoldable pub event_type : AuditKind → String
unfolding transition_name
event_type (received p) = "received"
event_type (was_cancelled id s u) = "cancelled"
event_type (was_penalized id s u amount tx penalty_tx) = "penalized"
event_type (non_settlement_debited id s u amount penalty_tx) = "non_settlement_debited"
event_type (driver_notified id s u kind) = "driver_notified"
event_type (status_changed id s u from to reason tx) = transition_name from to
