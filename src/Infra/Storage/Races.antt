-- ===== src/Infra/Storage/Races.antt =====
-- The answers of `transition` and `cancel` to racing writers (crates/byos/src/infra/storage.rs).
use byos_service.Prelude.{
  ◌<◌, ◌≡◌, refl, inl, inr, Option-cases, true, some, ok, err, arith, if◌then◌else◌,
}
use byos_service.Prelude.Ints.{i64_limit}
use byos_service.Domain.Proposal.{
  ProposalId, ProposalStatus, Address, OrderUid, Proposal, same_status, is_live, cancelled,
}
use byos_service.Infra.Storage.Rows.{Row, exactly, stale_transition, status_is}
use byos_service.Infra.Storage.Db.{Db, Faults, healthy, find_row, update_where, affects}
use byos_service.Infra.Storage.Ops.{has_id, is_at, transition, cancel}
use byos_service.Infra.Storage.Invariant.{Inv}
use byos_service.Infra.Storage.Effects.{swapped}
use byos_service.Infra.Storage.Swaps.{affects-find_row, find_row-update_where}

transition_answer :
    (p : Proposal) (to actual : ProposalStatus) (db : Db) (row : Row)
    → p.id < i64_limit
    → find_row p.id db.rows ≡ some row
    → row.status ≡ some actual
    → affects (is_at p.id p.status) db.rows ≡ status_is row.status p.status
    → (transition healthy p to db).0 ≡ (
        if same_status actual p.status
        then ok tt
        else err (stale_transition p.id (exactly p.status) actual))
unfolding transition
transition_answer p to actual db row b found s a = ground arith

-- If the invariant holds, no database call fails, the id fits BIGINT and the proposal's row is
-- there with a readable status, a transition succeeds exactly when the stored status is the one of
-- the caller's snapshot, and is otherwise refused as stale with the status that is stored.
pub transition-race :
    (p : Proposal) (to actual : ProposalStatus) (db : Db) (row : Row)
    → Inv db
    → p.id < i64_limit
    → find_row p.id db.rows ≡ some row
    → row.status ≡ some actual
    → (transition healthy p to db).0 ≡ (
        if same_status actual p.status
        then ok tt
        else err (stale_transition p.id (exactly p.status) actual))
transition-race p to actual db row v b found s =
    transition_answer p to actual db row b found s
      (affects-find_row p.id p.status 0 db.next_id db.rows row v.ids found)

cancel_answer :
    (f : Faults) (id : ProposalId) (caller : Address) (db : Db) (row : Row) (owner : Address)
    (uid : OrderUid) (from : ProposalStatus)
    → find_row id db.rows ≡ some row
    → row.sub_solver ≡ some owner
    → row.order_uid ≡ some uid
    → row.status ≡ some from
    → (cancel f id caller db).0 ≡ ok tt
    → (owner ≡ caller)
      × (is_live from ≡ true)
      × ((cancel f id caller db).1.rows
          ≡ update_where (has_id id) (swapped cancelled db.clock) db.rows)
unfolding cancel
cancel_answer f id caller db row owner uid from found o u s h = ground arith

-- A cancellation that succeeds was asked for by the owner of a proposal whose stored status was
-- live, and the proposal's row then reads cancelled.
pub cancel_by_owner :
    (f : Faults) (id : ProposalId) (caller : Address) (db : Db)
    → (cancel f id caller db).0 ≡ ok tt
    → (row : Row) × (from : ProposalStatus) × (find_row id db.rows ≡ some row)
      × (row.sub_solver ≡ some caller)
      × (row.status ≡ some from)
      × (is_live from ≡ true)
      × (find_row id (cancel f id caller db).1.rows ≡ some (swapped cancelled db.clock row))
unfolding cancel
cancel_by_owner f id caller db h = elim (Option-cases (find_row id db.rows)) [
  | inl missing ↦ absurd (ground arith)
  | inr (row, found) ↦ elim (Option-cases row.sub_solver) [
    | inl q ↦ absurd (ground arith)
    | inr (owner, o) ↦ elim (Option-cases row.order_uid) [
      | inl q ↦ absurd (ground arith)
      | inr (uid, u) ↦ elim (Option-cases row.status) [
        | inl q ↦ absurd (ground arith)
        | inr (from, s) ↦
            let (a, b, c) = cancel_answer f id caller db row owner uid from found o u s h in
            (
              row,
              from,
              found,
              cc (o, a),
              s,
              b,
              rw c
                  (find_row-update_where id (swapped cancelled db.clock) db.rows (λ r. refl) found),
            )
      ]
    ]
  ]
]
