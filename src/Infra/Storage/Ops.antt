-- ===== src/Infra/Storage/Ops.antt =====
-- The operations of `ProposalStore` that write (crates/byos/src/infra/storage.rs). Each takes the
-- faults of its database calls and the database, and returns its result and the database after.
use byos_service.Prelude.{
  ℕ, suc, Bool, ◌&&◌, not, Option, none, some, Result, ok, err, ◌>>=◌, ◌>>◌, fail_if, or_fail, [],
  ◌∷◌, ◌++◌, ◌==◌, if◌then◌else◌,
}
use byos_service.Prelude.Ints.{i64_limit, saturate}
use byos_service.Domain.Validator.{
  RejectionReason, SimulationOutcome, Verdict, accept, reject, sim_failed,
}
use byos_service.Domain.Proposal.{
  ProposalId, Address, B256, U256, Proposal, ProposalStatus, active, rejected, penalized, cancelled,
  same_status, is_live,
}
use byos_service.Domain.Audit.{received, was_cancelled, status_changed, was_penalized}
use byos_service.Infra.Storage.Rows.{
  Expected, exactly, submitted_or_active, StoreError, not_found, not_owner, stale_transition, read,
  Row, encode, status_is,
}
use byos_service.Infra.Storage.Db.{
  Db, Faults, db_call, emit, settle, as_db_id, find_row, update_where, affects, coalesce,
  coalesce_column,
}

-- The database sequence assigns the id. The code panics on a gas amount that `i64` cannot hold; a
-- proposal that `POST /proposals` inserts has none.
unfoldable pub insert : Faults → Proposal → Db → Result StoreError ProposalId × Db
unfolding encode
insert f proposal db = settle db do
  db_call (f 0)
  let stored = record proposal { id = db.next_id }
  ok (
    db.next_id,
    emit (received stored)
        (record db { rows = db.rows ++ (encode stored db.clock ∷ []); next_id = suc db.next_id }),
  )

-- Why a compare-and-swap has touched no row; the second database call of its operation.
unfoldable pub stale_or_missing : Faults → ProposalId → Expected → Db → StoreError
unfolding as_db_id find_row
stale_or_missing f id expected db = elim answer [ ok e ↦ e | err e ↦ e ]
  where
    answer : Result StoreError StoreError
    answer = do
      db_id ← as_db_id id
      db_call (f 1)
      row ← or_fail (find_row db_id db.rows) (not_found id)
      actual ← read row.status "status"
      ok (stale_transition id expected actual)

-- `WHERE id = $1 AND status = $2`
abbrev pub is_at : ProposalId → ProposalStatus → Row → Bool
is_at id from row = row.id == id && status_is row.status from

unfoldable pub transition :
    Faults → Proposal → ProposalStatus → Db → Result StoreError (Unit {0}) × Db
unfolding as_db_id stale_or_missing update_where affects
transition f proposal to db = settle db do
  db_id ← as_db_id proposal.id
  db_call (f 0)
  fail_if (not (affects (is_at db_id proposal.status) db.rows))
      (stale_or_missing f proposal.id (exactly proposal.status) db)
  ok (
    tt,
    emit
        (status_changed proposal.id proposal.sub_solver proposal.order_uid proposal.status to none
          none)
        (record db {
          rows =
              update_where (is_at db_id proposal.status)
                (λ row. record row { status = some to; status_changed_at = db.clock }) db.rows;
        }),
  )

unfoldable pub record_penalty :
    Faults → Proposal → U256 → B256 → Db → Result StoreError (Unit {0}) × Db
unfolding as_db_id stale_or_missing update_where affects
record_penalty f proposal amount penalty_tx_hash db = settle db do
  db_id ← as_db_id proposal.id
  db_call (f 0)
  fail_if (not (affects (is_at db_id proposal.status) db.rows))
      (stale_or_missing f proposal.id (exactly proposal.status) db)
  ok (
    tt,
    emit
        (was_penalized proposal.id proposal.sub_solver proposal.order_uid amount
          proposal.settlement_tx_hash penalty_tx_hash)
        (record db {
          rows =
              update_where (is_at db_id proposal.status)
                (λ row. record row {
                  status = some penalized;
                  penalty_tx_hash = some (some penalty_tx_hash);
                  status_changed_at = db.clock;
                })
                db.rows;
        }),
  )

-- What a verdict writes: the status, the rejection reason and the simulation outcome.
abbrev pub verdict_status : Verdict → ProposalStatus
verdict_status (accept sim) = active
verdict_status (reject reason) = rejected
verdict_status sim_failed = ProposalStatus.sim_failed

abbrev pub verdict_reason : Verdict → Option RejectionReason
verdict_reason (accept sim) = none
verdict_reason (reject reason) = some reason
verdict_reason sim_failed = none

abbrev pub verdict_outcome : Verdict → Option SimulationOutcome
verdict_outcome (accept sim) = sim
verdict_outcome (reject reason) = none
verdict_outcome sim_failed = none

abbrev of_outcome : {A : Type 0} → (SimulationOutcome → A) → Option SimulationOutcome → Option A
of_outcome f none = none
of_outcome f (some s) = some (f s)

-- The `UPDATE` of `resolve_verdict`; the gas is saturated to what BIGINT holds.
unfoldable pub apply_verdict : Verdict → ℕ → Row → Row
apply_verdict v now row =
    let sim = verdict_outcome v in
    record row {
      status = some (verdict_status v);
      rejection_reason = some (verdict_reason v);
      gas_used = coalesce (of_outcome (λ s. saturate i64_limit s.gas_used) sim) row.gas_used;
      trampoline = coalesce (of_outcome (λ s. s.trampoline) sim) row.trampoline;
      sell_token = coalesce_column (of_outcome (λ s. s.sell_token) sim) row.sell_token;
      buy_token = coalesce_column (of_outcome (λ s. s.buy_token) sim) row.buy_token;
      status_changed_at =
          if status_is row.status (verdict_status v) then row.status_changed_at else now;
    }

abbrev pub has_id : ProposalId → Row → Bool
has_id id row = row.id == id

unfoldable pub resolve_verdict :
    Faults → ProposalId → Verdict → Db → Result StoreError ProposalStatus × Db
unfolding as_db_id find_row update_where apply_verdict
resolve_verdict f id verdict db = settle db do
  db_call (f 0)
  db_id ← as_db_id id
  db_call (f 1)
  row ← or_fail (find_row db_id db.rows) (not_found id)
  from ← read row.status "status"
  sub_solver ← read row.sub_solver "sub_solver"
  order_uid ← read row.order_uid "order_uid"
  fail_if (not (is_live from)) (stale_transition id submitted_or_active from)
  let to = verdict_status verdict
  db_call (f 2)
  db_call (f 3)
  let written = record db {
    rows = update_where (has_id db_id) (apply_verdict verdict db.clock) db.rows;
  }
  ok (
    to,
    if same_status from to
        then written
        else emit (status_changed id sub_solver order_uid from to (verdict_reason verdict) none)
            written,
  )

unfoldable pub cancel : Faults → ProposalId → Address → Db → Result StoreError (Unit {0}) × Db
unfolding as_db_id find_row update_where
cancel f id sub_solver db = settle db do
  db_call (f 0)
  db_id ← as_db_id id
  db_call (f 1)
  row ← or_fail (find_row db_id db.rows) (not_found id)
  owner ← read row.sub_solver "sub_solver"
  order_uid ← read row.order_uid "order_uid"
  fail_if (not (owner == sub_solver)) (not_owner id sub_solver)
  from ← read row.status "status"
  fail_if (not (is_live from)) (stale_transition id submitted_or_active from)
  db_call (f 2)
  db_call (f 3)
  ok (
    tt,
    emit (was_cancelled id sub_solver order_uid) (record db {
      rows =
          update_where (has_id db_id)
            (λ r. record r { status = some cancelled; status_changed_at = db.clock }) db.rows;
    }),
  )
