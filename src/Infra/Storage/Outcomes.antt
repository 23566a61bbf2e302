-- ===== src/Infra/Storage/Outcomes.antt =====
-- The operations of `ProposalStore` that the driver's notifications and the executing timeout drive
-- (crates/byos/src/infra/storage.rs).
use byos_service.Prelude.{
  ℕ, suc, ◌+◌, Bool, true, false, ◌&&◌, Option, none, some, Result, ok, ◌>>=◌, ◌>>◌, or_fail, List,
  [], ◌∷◌, ◌++◌, String, length, filter_by, ltb, if◌then◌else◌,
}
use byos_service.Domain.Proposal.{
  ProposalId, B256, Proposal, ProposalStatus, active, executing, settled, settle_failed,
  SettlementOutcome, started, succeeded, reverted, abandoned,
}
use byos_service.Domain.Audit.{AuditKind, status_changed, driver_notified}
use byos_service.Infra.Storage.Rows.{StoreError, not_found, read, Row, status_is}
use byos_service.Infra.Storage.Db.{
  Db, Faults, db_call, emit, settle, as_db_id, find_row, update_where, coalesce,
}
use byos_service.Infra.Storage.Ops.{has_id}

pub data OutcomeEffect : Type 0 where
  applied : ProposalStatus → ProposalStatus → OutcomeEffect
  ignored : ProposalStatus → OutcomeEffect

-- The legality table; `none` is the catch-all that ignores the outcome.
unfoldable pub outcome_target : SettlementOutcome → ProposalStatus → Option ProposalStatus
outcome_target started active = some executing
outcome_target (succeeded tx) executing = some settled
outcome_target (succeeded tx) active = some settled
outcome_target (reverted tx) executing = some settle_failed
outcome_target (reverted tx) active = some settle_failed
outcome_target abandoned executing = some active
outcome_target _ _ = none

abbrev pub settlement_tx : SettlementOutcome → Option B256
settlement_tx started = none
settlement_tx (succeeded tx) = some tx
settlement_tx (reverted tx) = some tx
settlement_tx abandoned = none

abbrev pub is_abandoned : SettlementOutcome → Bool
is_abandoned abandoned = true
is_abandoned _ = false

-- `INSERT INTO penalties`
abbrev pub queue_penalty : ProposalId → Proposal → Db → Db
queue_penalty db_id p db = record db {
  penalties =
      db.penalties
      ++ (record {
        id = db.next_penalty_id;
        proposal_id = db_id;
        sub_solver = some p.sub_solver;
        order_uid = some p.order_uid;
        penalty_tx_hash = none;
      }
          ∷ []);
  next_penalty_id = suc db.next_penalty_id;
}

-- The `UPDATE` of `apply_settlement_outcome`.
unfoldable pub apply_outcome : SettlementOutcome → ProposalStatus → ℕ → Row → Row
apply_outcome outcome to now row = record row {
  status = some to;
  settlement_tx_hash = coalesce (settlement_tx outcome) row.settlement_tx_hash;
  status_changed_at = now;
}

-- What follows the legality table once it has given `to`.
unfoldable pub commit_outcome :
    Faults
    → Proposal
    → SettlementOutcome
    → ProposalId
    → ProposalStatus
    → ProposalStatus
    → Db
    → Result StoreError (OutcomeEffect × Db)
unfolding update_where apply_outcome
commit_outcome f proposal outcome db_id from to db = do
  db_call (f 2)
  let updated = record db {
    rows = update_where (has_id db_id) (apply_outcome outcome to db.clock) db.rows;
  }
  db_call (if is_abandoned outcome then f 3 else none)
  let queued = if is_abandoned outcome then queue_penalty db_id proposal updated else updated
  db_call (f 4)
  ok (
    applied from to,
    emit
        (status_changed proposal.id proposal.sub_solver proposal.order_uid from to none
          (settlement_tx outcome))
        queued,
  )

unfoldable pub apply_settlement_outcome :
    Faults → Proposal → SettlementOutcome → Db → Result StoreError OutcomeEffect × Db
unfolding as_db_id find_row outcome_target commit_outcome
apply_settlement_outcome f proposal outcome db = settle db do
  db_call (f 0)
  db_id ← as_db_id proposal.id
  db_call (f 1)
  row ← or_fail (find_row db_id db.rows) (not_found proposal.id)
  from ← read row.status "status"
  elim (outcome_target outcome from) [
    | none ↦ ok (ignored from, db)
    | some to ↦ commit_outcome f proposal outcome db_id from to db
  ]

unfoldable pub note_driver_notification : Proposal → String → Db → Db
note_driver_notification p kind = emit (driver_notified p.id p.sub_solver p.order_uid kind)

-- `WHERE status = 'executing' AND status_changed_at < now() - older_than`
abbrev pub is_stale_executing : ℕ → ℕ → Row → Bool
is_stale_executing older_than now row =
    status_is row.status executing && ltb (row.status_changed_at + older_than) now

-- The rows of `RETURNING`, parsed; one unreadable row fails them all.
unfoldable pub parse_released : List Row → Result StoreError (List AuditKind)
parse_released [] = ok []
parse_released (row ∷ rows) = do
  sub_solver ← read row.sub_solver "sub_solver"
  order_uid ← read row.order_uid "order_uid"
  rest ← parse_released rows
  ok (status_changed row.id sub_solver order_uid executing active none none ∷ rest)

-- The events are sent in the order of the list.
abbrev pub emit_all : List AuditKind → List AuditKind → List AuditKind
emit_all [] log = log
emit_all (e ∷ es) log = emit_all es (e ∷ log)

-- `release_stale_executing`
unfoldable pub release_stale_executing : Faults → ℕ → Db → Result StoreError ℕ × Db
unfolding update_where parse_released
release_stale_executing f older_than db = settle db do
  db_call (f 0)
  db_call (f 1)
  let stale = is_stale_executing older_than db.clock
  events ← parse_released (filter_by stale db.rows)
  db_call (f 2)
  ok (
    length events,
    record db {
      rows =
          update_where stale
            (λ row. record row { status = some active; status_changed_at = db.clock }) db.rows;
      audit = emit_all events db.audit;
    },
  )
