-- ===== src/Infra/Storage/Settlement.antt =====
-- The invariant under settlement outcomes (`apply_settlement_outcome` of
-- crates/byos/src/infra/storage.rs).
use byos_service.Prelude.{
  ℕ, ◌≡◌, refl, inl, inr, Bool, true, false, none, some, arith, if◌then◌else◌, subst, sym,
}
use byos_service.Domain.Proposal.{
  ProposalStatus, active, executing, settled, settle_failed, Proposal, SettlementOutcome, started,
  succeeded, reverted, abandoned,
}
use byos_service.Domain.Audit.{AuditKind, status_changed, proposal_id}
use byos_service.Infra.Storage.Rows.{Row}
use byos_service.Infra.Storage.Db.{Db, Faults, emit, update_where}
use byos_service.Infra.Storage.Ops.{has_id}
use byos_service.Infra.Storage.Outcomes.{
  outcome_target, settlement_tx, is_abandoned, queue_penalty, apply_outcome,
  apply_settlement_outcome,
}
use byos_service.Infra.Storage.Trail.{last_status, legal}
use byos_service.Infra.Storage.Invariant.{HasEvidence, Inv}
use byos_service.Infra.Storage.Effects.{outcome_effect}
use byos_service.Infra.Storage.Preserve.{found-Inv, found-last_status}

outcome_target-legal :
    (o : SettlementOutcome) (from to : ProposalStatus)
    → outcome_target o from ≡ some to
    → legal from to ≡ true
unfolding outcome_target legal
outcome_target-legal o from to h = ground arith

-- The one status that an outcome can lead to.
abbrev target : SettlementOutcome → ProposalStatus
target started = executing
target (succeeded tx) = settled
target (reverted tx) = settle_failed
target abandoned = active

outcome_target-target :
    (o : SettlementOutcome) (from : ProposalStatus) {to : ProposalStatus}
    → outcome_target o from ≡ some to
    → to ≡ target o
unfolding outcome_target
outcome_target-target started from h = ground arith
outcome_target-target (succeeded tx) from h = ground arith
outcome_target-target (reverted tx) from h = ground arith
outcome_target-target abandoned from h = ground arith

target_cites :
    (o : SettlementOutcome) (now : ℕ) (r : Row) → HasEvidence (apply_outcome o (target o) now r)
unfolding apply_outcome
target_cites started now r = tt
target_cites (succeeded tx) now r = (tx, refl)
target_cites (reverted tx) now r = (tx, refl)
target_cites abandoned now r = tt

outcome_cites :
    (o : SettlementOutcome) (from to : ProposalStatus) (now : ℕ) (r : Row)
    → outcome_target o from ≡ some to
    → HasEvidence (apply_outcome o to now r)
outcome_cites o from to now r h =
    subst (λ t. HasEvidence (apply_outcome o t now r)) (sym (outcome_target-target o from h))
      (target_cites o now r)

apply_outcome_keeps :
    (o : SettlementOutcome) (to : ProposalStatus) (now : ℕ) (r : Row)
    → ((apply_outcome o to now r).id ≡ r.id) × ((apply_outcome o to now r).status ≡ some to)
unfolding apply_outcome
apply_outcome_keeps o to now r = (refl, refl)

-- The penalties table is no part of the invariant.
requeue-Inv :
    (db : Db) (b : Bool) (p : Proposal) (e : AuditKind)
    → Inv (emit e db)
    → Inv (emit e (if b then queue_penalty p.id p db else db))
requeue-Inv db true p e v = record {
  ids = v.ids;
  below = v.below;
  trail = v.trail;
  recorded = v.recorded;
  evidence = v.evidence;
}
requeue-Inv db false p e v = v

pub outcome-Inv :
    (f : Faults) (p : Proposal) (o : SettlementOutcome) (db : Db)
    → Inv db
    → Inv (apply_settlement_outcome f p o db).1
unfolding proposal_id
outcome-Inv f p o db v = elim (outcome_effect f p o db) [
  | inl same ↦ rw same v
  | inr (row, from, to, found, s, t, after) ↦
      let was : last_status p.id db.audit ≡ some from = found-last_status p.id db row found s v in
      let e = status_changed p.id p.sub_solver p.order_uid from to none (settlement_tx o) in
      let updated = record db {
        rows = update_where (has_id p.id) (apply_outcome o to db.clock) db.rows;
      } in
      rw after (
        requeue-Inv updated (is_abandoned o) p e (
          found-Inv e from to (apply_outcome o to db.clock) db refl was
            (λ r. (apply_outcome_keeps o to db.clock r).0)
            (λ r. (apply_outcome_keeps o to db.clock r).1)
            (λ r y c. outcome_cites o from to db.clock r t) (was, outcome_target-legal o from to t)
            v))
]
