-- ===== src/Infra/Storage/Bulk.antt =====
-- The invariant under inserts and the retention sweep (`insert` and `sweep_dropped` of
-- crates/byos/src/infra/storage.rs).
use byos_service.Prelude.{
  ℕ, suc, ◌<◌, ◌≡◌, ◌⊎◌, refl, inl, inr, Option-cases, not, List, [], ◌∷◌, ◌++◌, All, All-append,
  arith,
}
use byos_service.Domain.Proposal.{submitted, Proposal}
use byos_service.Domain.Audit.{AuditKind, received, proposal_id}
use byos_service.Infra.Storage.Rows.{Row, encode}
use byos_service.Infra.Storage.Db.{Db, Faults, emit}
use byos_service.Infra.Storage.Ops.{insert}
use byos_service.Infra.Storage.Queues.{is_swept, sweep_dropped}
use byos_service.Infra.Storage.Trail.{
  last_status-same, last_status-Below, Below, Below-mono, IsRecorded, IsRecorded-other,
}
use byos_service.Infra.Storage.Invariant.{
  HasEvidence, Inv, Ids-append, Ids-below, Ids-filter, All-filter,
}

pub insert_effect :
    (f : Faults) (p : Proposal) (db : Db)
    → let stored = record p { id = db.next_id } in
      ((insert f p db).1 ≡ db)
      ⊎ ((insert f p db).1
          ≡ emit (received stored) (record db {
            rows = db.rows ++ (encode stored db.clock ∷ []);
            next_id = suc db.next_id;
          }))
unfolding insert
insert_effect f p db = ground arith

All-IsRecorded-newer :
    (e : AuditKind) (log : List AuditKind) (n : ℕ) (rows : List Row)
    → proposal_id e ≡ n
    → All (λ r. r.id < n) rows
    → All (IsRecorded log) rows
    → All (IsRecorded (e ∷ log)) rows
All-IsRecorded-newer e log n [] h lt rec = tt
All-IsRecorded-newer e log n (r ∷ rows) h lt rec =
    (IsRecorded-other e log r (ground arith) rec.0, All-IsRecorded-newer e log n rows h lt.1 rec.1)

-- A proposal that is stored as `submitted`, under the next id.
pub insert-Inv :
    (f : Faults) (p : Proposal) (db : Db) → p.status ≡ submitted → Inv db → Inv (insert f p db).1
unfolding proposal_id encode Below
insert-Inv f p db new v = elim (insert_effect f p db) [
  | inl same ↦ rw same v
  | inr after ↦
      let stored : Proposal = record p { id = db.next_id } in
      let e = received stored in
      let recorded_row : IsRecorded (e ∷ db.audit) (encode stored db.clock) =
        last_status-same e db.audit {id = db.next_id} {s = p.status} refl refl in
      rw after (record {
        ids = Ids-append 0 db.next_id db.rows (encode stored db.clock) refl v.ids;
        below =
            (omega arith, Below-mono db.next_id (suc db.next_id) db.audit (omega arith) v.below);
        trail = (last_status-Below db.next_id db.next_id db.audit v.below (omega arith), v.trail);
        recorded =
            All-append (IsRecorded (e ∷ db.audit)) db.rows (encode stored db.clock ∷ [])
              (All-IsRecorded-newer e db.audit db.next_id db.rows refl
                (Ids-below 0 db.next_id db.rows v.ids) v.recorded)
              (recorded_row, tt);
        evidence =
            All-append HasEvidence db.rows (encode stored db.clock ∷ []) v.evidence (rw new tt, tt);
      })
]

-- The sweep deletes rows; what stays is as it was.
pub sweep-Inv :
    (f : Faults) (older_than : ℕ) (db : Db) → Inv db → Inv (sweep_dropped f older_than db).1
unfolding sweep_dropped
sweep-Inv f older_than db v = elim (Option-cases (f 0)) [
  | inr (e, q) ↦ rw q v
  | inl q ↦
      let keep = λ (row : Row). not (is_swept older_than db.clock row) in
      rw q (record {
        ids = Ids-filter 0 db.next_id keep db.rows v.ids;
        below = v.below;
        trail = v.trail;
        recorded = All-filter (IsRecorded db.audit) keep db.rows v.recorded;
        evidence = All-filter HasEvidence keep db.rows v.evidence;
      })
]
