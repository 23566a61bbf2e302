-- ===== src/Infra/Storage/Lifecycle.antt =====
-- The calls that the service makes on the store, in any order and with any faults: each is one
-- step, since each of them is one statement or one row-locked transaction
-- (crates/byos/src/infra/storage.rs).
use byos_service.Prelude.{ℕ, ◌+◌, ◌≡◌, ◌⊎◌, refl, inl, inr, true, Option-cases, String, arith}
use byos_service.Domain.Validator.{Verdict}
use byos_service.Domain.Penalty.{PendingPenalty}
use byos_service.Domain.Proposal.{
  ProposalId, Address, U256, B256, Proposal, submitted, expired, settle_failed, is_live,
  SettlementOutcome,
}
use byos_service.Infra.Storage.Db.{SolutionRow, upsert_solution, Db, Faults}
use byos_service.Infra.Storage.Ops.{insert, transition, record_penalty, resolve_verdict, cancel}
use byos_service.Infra.Storage.Outcomes.{
  apply_settlement_outcome, note_driver_notification, release_stale_executing,
}
use byos_service.Infra.Storage.Queues.{sweep_dropped, record_non_settlement_debit, record_solution}
use byos_service.Infra.Storage.Trail.{All-IsRecorded-quiet, Below}
use byos_service.Infra.Storage.Invariant.{Inv}
use byos_service.Infra.Storage.Preserve.{
  expire-Inv, record_penalty-Inv, cancel-Inv, resolve_verdict-Inv,
}
use byos_service.Infra.Storage.Settlement.{outcome-Inv}
use byos_service.Infra.Storage.Bulk.{insert-Inv, sweep-Inv}
use byos_service.Infra.Storage.Release.{release-Inv}

-- `POST /proposals` stores a submitted proposal, the validation tick expires a live snapshot and
-- the penalty loop debits a snapshot in `settle_failed`; all other calls are unconditional.
pub data Step : Db → Db → Type 0 where
  submits : (f : Faults) (p : Proposal) (db : Db) → p.status ≡ submitted → Step db (insert f p db).1
  expires :
      (f : Faults) (p : Proposal) (db : Db)
      → is_live p.status ≡ true
      → Step db (transition f p expired db).1
  resolves :
      (f : Faults) (id : ProposalId) (v : Verdict) (db : Db) → Step db (resolve_verdict f id v db).1
  cancels :
      (f : Faults) (id : ProposalId) (owner : Address) (db : Db) → Step db (cancel f id owner db).1
  reports :
      (f : Faults) (p : Proposal) (o : SettlementOutcome) (db : Db)
      → Step db (apply_settlement_outcome f p o db).1
  notes : (p : Proposal) (kind : String) (db : Db) → Step db (note_driver_notification p kind db)
  releases :
      (f : Faults) (older_than : ℕ) (db : Db) → Step db (release_stale_executing f older_than db).1
  sweeps : (f : Faults) (older_than : ℕ) (db : Db) → Step db (sweep_dropped f older_than db).1
  penalizes :
      (f : Faults) (p : Proposal) (amount : U256) (tx : B256) (db : Db)
      → p.status ≡ settle_failed
      → Step db (record_penalty f p amount tx db).1
  debits :
      (f : Faults) (q : PendingPenalty) (amount : U256) (tx : B256) (db : Db)
      → Step db (record_non_settlement_debit f q amount tx db).1
  bids :
      (f : Faults) (auction_id solution_id : ℕ) (id : ProposalId) (db : Db)
      → Step db (record_solution f auction_id solution_id id db).1
  passes : (seconds : ℕ) (db : Db) → Step db (record db { clock = db.clock + seconds })

pub data Reach (db : Db) : Db → Type 0 where
  here : Reach db db
  next : {b c : Db} → Reach db b → Step b c → Reach db c

note-Inv :
    (p : Proposal) (kind : String) (db : Db) → Inv db → Inv (note_driver_notification p kind db)
unfolding note_driver_notification Below
note-Inv p kind db v = record {
  ids = v.ids;
  below = (tt, v.below);
  trail = (tt, v.trail);
  recorded = All-IsRecorded-quiet _ db.audit db.rows refl v.recorded;
  evidence = v.evidence;
}

debit-Inv :
    (f : Faults) (q : PendingPenalty) (amount : U256) (tx : B256) (db : Db)
    → Inv db
    → Inv (record_non_settlement_debit f q amount tx db).1
unfolding record_non_settlement_debit Below
debit-Inv f q amount tx db v = elim (Option-cases (f 0)) [
  | inr (e, fault) ↦ rw fault v
  | inl fine ↦ rw fine (record {
    ids = v.ids;
    below = (tt, v.below);
    trail = (tt, v.trail);
    recorded = All-IsRecorded-quiet _ db.audit db.rows refl v.recorded;
    evidence = v.evidence;
  })
]

pub bid_effect :
    (f : Faults) (a s : ℕ) (id : ProposalId) (db : Db)
    → let bid : SolutionRow = record { auction_id = a; solution_id = s; proposal_id = id } in
      ((record_solution f a s id db).1 ≡ db)
      ⊎ ((record_solution f a s id db).1
          ≡ record db { solutions = upsert_solution bid db.solutions })
unfolding record_solution
bid_effect f a s id db = ground arith

bid-Inv :
    (f : Faults) (a s : ℕ) (id : ProposalId) (db : Db)
    → Inv db
    → Inv (record_solution f a s id db).1
bid-Inv f a s id db v = elim (bid_effect f a s id db) [
  | inl same ↦ rw same v
  | inr after ↦ rw after (record {
    ids = v.ids;
    below = v.below;
    trail = v.trail;
    recorded = v.recorded;
    evidence = v.evidence;
  })
]

-- Each call keeps the invariant: the trail is a history of legal transitions, every row's status
-- is the one that the trail records, and a settled, failed or penalized row cites its transactions.
pub Step-Inv : {b c : Db} → Step b c → Inv b → Inv c
Step-Inv (submits f p db new) v = insert-Inv f p db new v
Step-Inv (expires f p db live) v = expire-Inv f p db live v
Step-Inv (resolves f id w db) v = resolve_verdict-Inv f id w db v
Step-Inv (cancels f id owner db) v = cancel-Inv f id owner db v
Step-Inv (reports f p o db) v = outcome-Inv f p o db v
Step-Inv (notes p kind db) v = note-Inv p kind db v
Step-Inv (releases f older_than db) v = release-Inv f older_than db v
Step-Inv (sweeps f older_than db) v = sweep-Inv f older_than db v
Step-Inv (penalizes f p amount tx db failed) v = record_penalty-Inv f p amount tx db failed v
Step-Inv (debits f q amount tx db) v = debit-Inv f q amount tx db v
Step-Inv (bids f a s id db) v = bid-Inv f a s id db v
Step-Inv (passes seconds db) v = record {
  ids = v.ids;
  below = v.below;
  trail = v.trail;
  recorded = v.recorded;
  evidence = v.evidence;
}

-- From a database that satisfies the invariant, every order of calls of the store, with any faults
-- of its database calls, leads to a database that satisfies it: ids rise along the table and stay
-- below the sequence, the audit trail is a history of lifecycle transitions, each readable status
-- is the one that the trail records, and each settled, failed or penalized row cites its
-- transactions.
pub Reach-Inv : {a b : Db} → Inv a → Reach a b → Inv b
Reach-Inv v here = v
Reach-Inv v (next r s) = Step-Inv s (Reach-Inv v r)
