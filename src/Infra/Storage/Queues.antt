-- ===== src/Infra/Storage/Queues.antt =====
-- The operations of `ProposalStore` on the `penalties` and `solutions` tables and the retention
-- sweep (crates/byos/src/infra/storage.rs).
use byos_service.Prelude.{
  ℕ, ◌+◌, Bool, true, false, ◌&&◌, ◌||◌, not, none, some, Result, ok, ◌>>=◌, ◌>>◌, fail_if, or_fail,
  List, [], ◌∷◌, String, length, filter_by, ltb, ◌==◌, if◌then◌else◌,
}
use byos_service.Domain.Proposal.{
  ProposalId, B256, U256, Proposal, ProposalStatus, rejected, sim_failed, expired, cancelled,
}
use byos_service.Domain.Audit.{non_settlement_debited}
use byos_service.Domain.Penalty.{PendingPenalty}
use byos_service.Infra.Storage.Rows.{
  other_error, StoreError, database, corrupt_row, Column, Row, status_is,
}
use byos_service.Infra.Storage.Db.{
  PenaltyRow, Db, Faults, db_call, emit, settle, as_db_id, affects, upsert_solution,
}
use byos_service.Infra.Storage.Ops.{has_id}
use byos_service.Infra.Storage.Outcomes.{queue_penalty}

-- `DROPPED`
abbrev pub is_dropped : Column ProposalStatus → Bool
is_dropped c =
    status_is c rejected || status_is c sim_failed || status_is c expired || status_is c cancelled

abbrev pub is_swept : ℕ → ℕ → Row → Bool
is_swept older_than now row = is_dropped row.status && ltb (row.status_changed_at + older_than) now

-- `DELETE FROM proposals`; the solutions of a deleted proposal go with it (`ON DELETE CASCADE`).
unfoldable pub sweep_dropped : Faults → ℕ → Db → Result StoreError ℕ × Db
unfolding affects
sweep_dropped f older_than db = settle db do
  db_call (f 0)
  let swept = is_swept older_than db.clock
  let deleted = filter_by swept db.rows
  ok (
    length deleted,
    record db {
      rows = filter_by (λ row. not (swept row)) db.rows;
      solutions = filter_by (λ s. not (affects (has_id s.proposal_id) deleted)) db.solutions;
    },
  )

unfoldable pub queue_non_settlement_penalty :
    Faults → Proposal → Db → Result StoreError (Unit {0}) × Db
unfolding as_db_id
queue_non_settlement_penalty f proposal db =
    settle db
      do db_id ← as_db_id proposal.id; db_call (f 0); ok (tt, queue_penalty db_id proposal db)

-- `corrupt_in("penalties", column, e)`
abbrev read_penalty : {A : Type 0} → Column A → String → Result StoreError A
read_penalty c name = or_fail c (corrupt_row "penalties" name)

-- The rows whose `penalty_tx_hash` is NULL, parsed; one unreadable row fails them all.
unfoldable pub parse_pending : List PenaltyRow → Result StoreError (List PendingPenalty)
parse_pending [] = ok []
parse_pending (row ∷ rows) = do
  sub_solver ← read_penalty row.sub_solver "sub_solver"
  order_uid ← read_penalty row.order_uid "order_uid"
  rest ← parse_pending rows
  ok (
      record {
        id = row.id;
        proposal_id = row.proposal_id;
        sub_solver = sub_solver;
        order_uid = order_uid;
      }
      ∷ rest)

abbrev pub is_pending : PenaltyRow → Bool
is_pending row = elim row.penalty_tx_hash [ none ↦ true | some tx ↦ false ]

unfoldable pub pending_penalties : Faults → Db → Result StoreError (List PendingPenalty)
unfolding parse_pending
pending_penalties f db = do db_call (f 0); parse_pending (filter_by is_pending db.penalties)

-- `UPDATE penalties SET penalty_tx_hash = $2 WHERE id = $1`
unfoldable pub mark_debited : ℕ → B256 → List PenaltyRow → List PenaltyRow
mark_debited id tx [] = []
mark_debited id tx (row ∷ rows) =
    (if row.id == id then record row { penalty_tx_hash = some tx } else row)
    ∷ mark_debited id tx rows

unfoldable pub record_non_settlement_debit :
    Faults → PendingPenalty → U256 → B256 → Db → Result StoreError (Unit {0}) × Db
unfolding mark_debited
record_non_settlement_debit f penalty amount penalty_tx_hash db = settle db do
  db_call (f 0)
  ok (
    tt,
    emit
        (non_settlement_debited penalty.proposal_id penalty.sub_solver penalty.order_uid amount
          penalty_tx_hash)
        (record db { penalties = mark_debited penalty.id penalty_tx_hash db.penalties }),
  )

-- `solutions.proposal_id` references `proposals (id)`: an id that no row has is a database error.
unfoldable pub record_solution :
    Faults → ℕ → ℕ → ProposalId → Db → Result StoreError (Unit {0}) × Db
unfolding as_db_id affects upsert_solution
record_solution f auction_id solution_id proposal_id db = settle db do
  db_id ← as_db_id proposal_id
  db_call (f 0)
  fail_if (not (affects (has_id db_id) db.rows)) (database other_error)
  ok (
    tt,
    record db {
      solutions =
          upsert_solution
            (record { auction_id = auction_id; solution_id = solution_id; proposal_id = db_id })
            db.solutions;
    },
  )
