-- ===== src/Infra/Storage/References.antt =====
-- The foreign key of the `solutions` table and its cascade
-- (crates/byos/migrations/0003_solutions.sql, `record_solution` and `sweep_dropped` of
-- crates/byos/src/infra/storage.rs).
use byos_service.Prelude.{
  ℕ, ◌≡◌, ◌&&◌, refl, inl, inr, Bool, true, false, not, Bool-cases, Option-cases, List, [], ◌∷◌,
  ◌++◌, All, All-map, arith, ◌==◌, filter_by,
}
use byos_service.Domain.Validator.{Verdict}
use byos_service.Domain.Proposal.{
  ProposalId, ProposalStatus, SettlementOutcome, same_status, expired,
}
use byos_service.Infra.Storage.Rows.{Row}
use byos_service.Infra.Storage.Db.{SolutionRow, Db, Faults, update_where, affects, upsert_solution}
use byos_service.Infra.Storage.Ops.{has_id, verdict_status, apply_verdict}
use byos_service.Infra.Storage.Outcomes.{is_abandoned, apply_outcome, note_driver_notification}
use byos_service.Infra.Storage.Queues.{
  is_swept, sweep_dropped, record_non_settlement_debit, record_solution,
}
use byos_service.Infra.Storage.Effects.{
  transition_effect, record_penalty_effect, cancel_effect, resolve_verdict_effect, outcome_effect,
}
use byos_service.Infra.Storage.Bulk.{insert_effect}
use byos_service.Infra.Storage.Release.{release_effect}
use byos_service.Infra.Storage.Lifecycle.{
  Step, submits, expires, resolves, cancels, reports, notes, releases, sweeps, penalizes, debits,
  bids, passes, Reach, here, next, bid_effect,
}

-- Whether a row has the id.
abbrev pub is_stored : List Row → ProposalId → Bool
is_stored rows id = affects (has_id id) rows

-- The proposal of each recorded bid is stored.
abbrev pub Refers : Db → Type 0
Refers db = All (λ s. is_stored db.rows s.proposal_id ≡ true) db.solutions

is_stored-update :
    (t : Row → Bool) (g : Row → Row) (rows : List Row) (id : ProposalId)
    → ((r : Row) → (g r).id ≡ r.id)
    → is_stored (update_where t g rows) id ≡ is_stored rows id
unfolding affects update_where
is_stored-update t g [] id keep = refl
is_stored-update t g (r ∷ rows) id keep = ground (arith, keep r, is_stored-update t g rows id keep)

is_stored-append :
    (rows more : List Row) (id : ProposalId)
    → is_stored rows id ≡ true
    → is_stored (rows ++ more) id ≡ true
unfolding affects
is_stored-append [] more id h = cc
is_stored-append (r ∷ rows) more id h = ground (arith, is_stored-append rows more id)

-- A row that is not among the deleted ones is among those that are kept.
is_stored-kept :
    (t : Row → Bool) (rows : List Row) (id : ProposalId)
    → is_stored rows id ≡ true
    → is_stored (filter_by t rows) id ≡ false
    → is_stored (filter_by (λ r. not (t r)) rows) id ≡ true
unfolding affects
is_stored-kept t [] id h d = cc
is_stored-kept t (r ∷ rows) id h d = ground (arith, is_stored-kept t rows id)

Refers-update :
    (t : Row → Bool) (g : Row → Row) (rows : List Row) (ss : List SolutionRow)
    → ((r : Row) → (g r).id ≡ r.id)
    → All (λ s. is_stored rows s.proposal_id ≡ true) ss
    → All (λ s. is_stored (update_where t g rows) s.proposal_id ≡ true) ss
Refers-update t g rows ss keep h =
    All-map _ _ ss (λ s k. rw (is_stored-update t g rows s.proposal_id keep) k) h

Refers-sweep :
    (t : Row → Bool) (rows : List Row) (ss : List SolutionRow)
    → All (λ s. is_stored rows s.proposal_id ≡ true) ss
    → All
        (λ s. is_stored (filter_by (λ r. not (t r)) rows) s.proposal_id ≡ true)
        (filter_by (λ s. not (is_stored (filter_by t rows) s.proposal_id)) ss)
Refers-sweep t rows [] h = tt
Refers-sweep t rows (s ∷ ss) h = elim (Bool-cases (is_stored (filter_by t rows) s.proposal_id)) [
  | inl y ↦ rw y (Refers-sweep t rows ss h.1)
  | inr n ↦ rw n (is_stored-kept t rows s.proposal_id h.0 n, Refers-sweep t rows ss h.1)
]

Refers-upsert :
    (rows : List Row) (s : SolutionRow) (ss : List SolutionRow)
    → is_stored rows s.proposal_id ≡ true
    → All (λ s. is_stored rows s.proposal_id ≡ true) ss
    → All (λ s. is_stored rows s.proposal_id ≡ true) (upsert_solution s ss)
unfolding upsert_solution
Refers-upsert rows s [] k h = (k, tt)
Refers-upsert rows s (t ∷ ss) k h =
    elim (Bool-cases (t.auction_id == s.auction_id && t.solution_id == s.solution_id)) [
      | inl y ↦ rw y (k, h.1)
      | inr n ↦ rw n (h.0, Refers-upsert rows s ss k h.1)
    ]

-- A bid for a proposal that is not stored is refused.
refused :
    (f : Faults) (a s : ℕ) (id : ProposalId) (db : Db)
    → is_stored db.rows id ≡ false
    → (record_solution f a s id db).1 ≡ db
unfolding record_solution
refused f a s id db n = ground arith

verdict_id : (v : Verdict) (now : ℕ) (r : Row) → (apply_verdict v now r).id ≡ r.id
unfolding apply_verdict
verdict_id v now r = refl

outcome_id :
    (o : SettlementOutcome) (to : ProposalStatus) (now : ℕ) (r : Row)
    → (apply_outcome o to now r).id ≡ r.id
unfolding apply_outcome
outcome_id o to now r = refl

Refers-bid :
    (f : Faults) (a s : ℕ) (id : ProposalId) (db : Db)
    → Refers db
    → Refers (record_solution f a s id db).1
Refers-bid f a s id db h = elim (Bool-cases (is_stored db.rows id)) [
  | inl y ↦ elim (bid_effect f a s id db) [
    | inl same ↦ rw same h
    | inr after ↦ rw after (
        Refers-upsert db.rows (record { auction_id = a; solution_id = s; proposal_id = id })
          db.solutions y h)
  ]
  | inr n ↦ rw (refused f a s id db n) h
]

Refers-sweeps :
    (f : Faults) (older_than : ℕ) (db : Db) → Refers db → Refers (sweep_dropped f older_than db).1
Refers-sweeps f older_than db h = elim (Option-cases (f 0)) [
  | inr (e, fault) ↦ unfold sweep_dropped in (rw fault h)
  | inl fine ↦
      unfold sweep_dropped in
      (rw fine (Refers-sweep (is_swept older_than db.clock) db.rows db.solutions h))
]

Step-Refers : {b c : Db} → Step b c → Refers b → Refers c
Step-Refers (submits f p db new) h = elim (insert_effect f p db) [
  | inl eq ↦ rw eq h
  | inr eq ↦ rw eq (All-map _ _ db.solutions (λ s k. is_stored-append db.rows _ s.proposal_id k) h)
]
Step-Refers (expires f p db live) h = elim (transition_effect f p expired db) [
  | inl eq ↦ rw eq h
  | inr (hit, eq) ↦ rw eq (Refers-update _ _ db.rows db.solutions (λ r. refl) h)
]
Step-Refers (resolves f id v db) h = elim (resolve_verdict_effect f id v db) [
  | inl eq ↦ rw eq h
  | inr (row, from, owner, uid, found, s, live, eq) ↦
      elim (Bool-cases (same_status from (verdict_status v))) [
        | inl y ↦ rw (eq, y) (Refers-update _ _ db.rows db.solutions (verdict_id v db.clock) h)
        | inr n ↦ rw (eq, n) (Refers-update _ _ db.rows db.solutions (verdict_id v db.clock) h)
      ]
]
Step-Refers (cancels f id owner db) h = elim (cancel_effect f id owner db) [
  | inl eq ↦ rw eq h
  | inr (row, from, uid, found, s, live, eq) ↦
      rw eq (Refers-update _ _ db.rows db.solutions (λ r. refl) h)
]
Step-Refers (reports f p o db) h = elim (outcome_effect f p o db) [
  | inl eq ↦ rw eq h
  | inr (row, from, to, found, s, t, eq) ↦ elim (Bool-cases (is_abandoned o)) [
    | inl y ↦ rw (eq, y) (Refers-update _ _ db.rows db.solutions (outcome_id o to db.clock) h)
    | inr n ↦ rw (eq, n) (Refers-update _ _ db.rows db.solutions (outcome_id o to db.clock) h)
  ]
]
Step-Refers (notes p kind db) h = unfold note_driver_notification in h
Step-Refers (releases f older_than db) h = elim (release_effect f older_than db) [
  | inl eq ↦ rw eq h
  | inr (es, parsed, eq) ↦ rw eq (Refers-update _ _ db.rows db.solutions (λ r. refl) h)
]
Step-Refers (sweeps f older_than db) h = Refers-sweeps f older_than db h
Step-Refers (penalizes f p amount tx db failed) h = elim (record_penalty_effect f p amount tx db) [
  | inl eq ↦ rw eq h
  | inr (hit, eq) ↦ rw eq (Refers-update _ _ db.rows db.solutions (λ r. refl) h)
]
Step-Refers (debits f q amount tx db) h = elim (Option-cases (f 0)) [
  | inl fine ↦ unfold record_non_settlement_debit in (rw fine h)
  | inr (e, fault) ↦ unfold record_non_settlement_debit in (rw fault h)
]
Step-Refers (bids f a s id db) h = Refers-bid f a s id db h
Step-Refers (passes seconds db) h = h

-- If the proposal of each recorded bid is stored, then so it is after any calls of the store, in
-- any order and with any faults: a bid for a proposal that is not stored is refused, and a sweep
-- takes the bids of the proposals that it deletes with them.
pub Reach-Refers : {a b : Db} → Refers a → Reach a b → Refers b
Reach-Refers h here = h
Reach-Refers h (next r s) = Step-Refers s (Reach-Refers h r)
