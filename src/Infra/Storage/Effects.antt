-- ===== src/Infra/Storage/Effects.antt =====
-- The change of each writing call of the store (crates/byos/src/infra/storage.rs).
use byos_service.Prelude.{
  ℕ, ◌≡◌, ◌⊎◌, inl, inr, true, none, some, arith, if◌then◌else◌, Option-cases,
}
use byos_service.Domain.Validator.{Verdict}
use byos_service.Domain.Proposal.{
  ProposalId, ProposalStatus, Address, OrderUid, B256, U256, Proposal, penalized, cancelled,
  is_live, same_status, SettlementOutcome, is_live,
}
use byos_service.Domain.Audit.{was_cancelled, status_changed, was_penalized}
use byos_service.Infra.Storage.Rows.{Row}
use byos_service.Infra.Storage.Db.{Db, Faults, emit, find_row, update_where, affects}
use byos_service.Infra.Storage.Ops.{
  is_at, has_id, transition, record_penalty, resolve_verdict, verdict_status, verdict_reason,
  apply_verdict, cancel,
}
use byos_service.Infra.Storage.Outcomes.{
  outcome_target, settlement_tx, is_abandoned, queue_penalty, apply_outcome,
  apply_settlement_outcome,
}

-- The row that a compare-and-swap to `to` leaves.
abbrev pub swapped : ProposalStatus → ℕ → Row → Row
swapped to now row = record row { status = some to; status_changed_at = now }

pub transition_effect :
    (f : Faults) (p : Proposal) (to : ProposalStatus) (db : Db)
    → ((transition f p to db).1 ≡ db)
      ⊎ ((affects (is_at p.id p.status) db.rows ≡ true)
          × ((transition f p to db).1
              ≡ emit
                  (status_changed p.id p.sub_solver p.order_uid p.status to none none)
                  (record db {
                    rows = update_where (is_at p.id p.status) (swapped to db.clock) db.rows;
                  })))
unfolding transition
transition_effect f p to db = ground arith

-- The row that a landed debit leaves.
abbrev pub debited : B256 → ℕ → Row → Row
debited tx now row = record row {
  status = some penalized;
  penalty_tx_hash = some (some tx);
  status_changed_at = now;
}

pub record_penalty_effect :
    (f : Faults) (p : Proposal) (amount : U256) (tx : B256) (db : Db)
    → ((record_penalty f p amount tx db).1 ≡ db)
      ⊎ ((affects (is_at p.id p.status) db.rows ≡ true)
          × ((record_penalty f p amount tx db).1
              ≡ emit
                  (was_penalized p.id p.sub_solver p.order_uid amount p.settlement_tx_hash tx)
                  (record db {
                    rows = update_where (is_at p.id p.status) (debited tx db.clock) db.rows;
                  })))
unfolding record_penalty
record_penalty_effect f p amount tx db = ground arith

-- A call that the code refuses, or one whose database calls fail, changes nothing; else the row
-- that was found is live and owned, and all rows of its id are cancelled.
cancel_found :
    (f : Faults) (id : ProposalId) (owner : Address) (db : Db) (row : Row) (from : ProposalStatus)
    (uid : OrderUid)
    → find_row id db.rows ≡ some row
    → row.status ≡ some from
    → row.order_uid ≡ some uid
    → ((cancel f id owner db).1 ≡ db)
      ⊎ ((is_live from ≡ true)
          × ((cancel f id owner db).1
              ≡ emit (was_cancelled id owner uid) (record db {
                rows = update_where (has_id id) (swapped cancelled db.clock) db.rows;
              })))
unfolding cancel
cancel_found f id owner db row from uid found s u = ground arith

pub cancel_effect :
    (f : Faults) (id : ProposalId) (owner : Address) (db : Db)
    → ((cancel f id owner db).1 ≡ db)
      ⊎ ((row : Row) × (from : ProposalStatus) × (uid : OrderUid) × (find_row id db.rows ≡ some row)
          × (row.status ≡ some from)
          × (is_live from ≡ true)
          × ((cancel f id owner db).1
              ≡ emit (was_cancelled id owner uid) (record db {
                rows = update_where (has_id id) (swapped cancelled db.clock) db.rows;
              })))
unfolding cancel
cancel_effect f id owner db = elim (Option-cases (find_row id db.rows)) [
  | inl missing ↦ inl (ground arith)
  | inr (row, found) ↦ elim (Option-cases row.status) [
    | inl q ↦ inl (ground arith)
    | inr (from, s) ↦ elim (Option-cases row.order_uid) [
      | inl q ↦ inl (ground arith)
      | inr (uid, u) ↦ elim (cancel_found f id owner db row from uid found s u) [
        | inl same ↦ inl same
        | inr (live, after) ↦ inr (row, from, uid, found, s, live, after)
      ]
    ]
  ]
]

-- The database after a verdict on a row in status `from`.
abbrev pub after_verdict : ProposalId → Address → OrderUid → ProposalStatus → Verdict → Db → Db
after_verdict id owner uid from v db =
    let written = record db {
      rows = update_where (has_id id) (apply_verdict v db.clock) db.rows;
    } in
    if same_status from (verdict_status v)
    then written
    else emit (status_changed id owner uid from (verdict_status v) (verdict_reason v) none) written

resolve_found :
    (f : Faults) (id : ProposalId) (v : Verdict) (db : Db) (row : Row) (from : ProposalStatus)
    (owner : Address) (uid : OrderUid)
    → find_row id db.rows ≡ some row
    → row.status ≡ some from
    → row.sub_solver ≡ some owner
    → row.order_uid ≡ some uid
    → ((resolve_verdict f id v db).1 ≡ db)
      ⊎ ((is_live from ≡ true)
          × ((resolve_verdict f id v db).1 ≡ after_verdict id owner uid from v db))
unfolding resolve_verdict
resolve_found f id v db row from owner uid found s o u = ground arith

pub resolve_verdict_effect :
    (f : Faults) (id : ProposalId) (v : Verdict) (db : Db)
    → ((resolve_verdict f id v db).1 ≡ db)
      ⊎ ((row : Row) × (from : ProposalStatus) × (owner : Address) × (uid : OrderUid) × (find_row id
              db.rows
            ≡ some row)
          × (row.status ≡ some from)
          × (is_live from ≡ true)
          × ((resolve_verdict f id v db).1 ≡ after_verdict id owner uid from v db))
unfolding resolve_verdict
resolve_verdict_effect f id v db = elim (Option-cases (find_row id db.rows)) [
  | inl missing ↦ inl (ground arith)
  | inr (row, found) ↦ elim (Option-cases row.status) [
    | inl q ↦ inl (ground arith)
    | inr (from, s) ↦ elim (Option-cases row.sub_solver) [
      | inl q ↦ inl (ground arith)
      | inr (owner, o) ↦ elim (Option-cases row.order_uid) [
        | inl q ↦ inl (ground arith)
        | inr (uid, u) ↦ elim (resolve_found f id v db row from owner uid found s o u) [
          | inl same ↦ inl same
          | inr (live, after) ↦ inr (row, from, owner, uid, found, s, live, after)
        ]
      ]
    ]
  ]
]

-- The database after an outcome has moved the row from `from` to `to`.
abbrev pub after_outcome : Proposal → SettlementOutcome → ProposalStatus → ProposalStatus → Db → Db
after_outcome p outcome from to db =
    let updated = record db {
      rows = update_where (has_id p.id) (apply_outcome outcome to db.clock) db.rows;
    } in
    emit (status_changed p.id p.sub_solver p.order_uid from to none (settlement_tx outcome))
      (if is_abandoned outcome then queue_penalty p.id p updated else updated)

outcome_found :
    (f : Faults) (p : Proposal) (outcome : SettlementOutcome) (db : Db) (row : Row)
    (from to : ProposalStatus)
    → find_row p.id db.rows ≡ some row
    → row.status ≡ some from
    → outcome_target outcome from ≡ some to
    → ((apply_settlement_outcome f p outcome db).1 ≡ db)
      ⊎ ((apply_settlement_outcome f p outcome db).1 ≡ after_outcome p outcome from to db)
unfolding apply_settlement_outcome
outcome_found f p outcome db row from to found s t = ground arith

pub outcome_effect :
    (f : Faults) (p : Proposal) (outcome : SettlementOutcome) (db : Db)
    → ((apply_settlement_outcome f p outcome db).1 ≡ db)
      ⊎ ((row : Row) × (from : ProposalStatus) × (to : ProposalStatus) × (find_row p.id db.rows
            ≡ some row)
          × (row.status ≡ some from)
          × (outcome_target outcome from ≡ some to)
          × ((apply_settlement_outcome f p outcome db).1 ≡ after_outcome p outcome from to db))
unfolding apply_settlement_outcome
outcome_effect f p outcome db = elim (Option-cases (find_row p.id db.rows)) [
  | inl missing ↦ inl (ground arith)
  | inr (row, found) ↦ elim (Option-cases row.status) [
    | inl q ↦ inl (ground arith)
    | inr (from, s) ↦ elim (Option-cases (outcome_target outcome from)) [
      | inl q ↦ inl (ground arith)
      | inr (to, t) ↦ elim (outcome_found f p outcome db row from to found s t) [
        | inl same ↦ inl same
        | inr after ↦ inr (row, from, to, found, s, t, after)
      ]
    ]
  ]
]
