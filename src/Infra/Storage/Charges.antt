-- ===== src/Infra/Storage/Charges.antt =====
-- The queue of non-settlement charges (`pending_penalties` and `record_non_settlement_debit` of
-- crates/byos/src/infra/storage.rs).
use byos_service.Prelude.{
  ℕ, ◌≡◌, ◌≢◌, inl, inr, Bool-cases, Option-cases, Result-cases, ok, List, [], ◌∷◌, All, subst,
  arith, ◌==◌, filter_by,
}
use byos_service.Domain.Proposal.{U256, B256}
use byos_service.Domain.Penalty.{PendingPenalty}
use byos_service.Infra.Storage.Db.{PenaltyRow, Db, Faults}
use byos_service.Infra.Storage.Queues.{
  parse_pending, is_pending, pending_penalties, mark_debited, record_non_settlement_debit,
}

-- No pending row has the id.
abbrev NonePending : ℕ → List PenaltyRow → Type 0
NonePending id rows = All (λ row. row.id ≢ id) (filter_by is_pending rows)

mark_debited-NonePending :
    (id : ℕ) (tx : B256) (rows : List PenaltyRow) → NonePending id (mark_debited id tx rows)
unfolding mark_debited
mark_debited-NonePending id tx [] = tt
mark_debited-NonePending id tx (row ∷ rows) = elim (Bool-cases (row.id == id)) [
  | inl y ↦ rw y (mark_debited-NonePending id tx rows)
  | inr n ↦ elim (Bool-cases (is_pending row)) [
    | inl p ↦ rw (n, p) ((λ e. ground arith), mark_debited-NonePending id tx rows)
    | inr p ↦ rw (n, p) (mark_debited-NonePending id tx rows)
  ]
]

parse_pending-ids :
    (id : ℕ) (rows : List PenaltyRow) (ps : List PendingPenalty)
    → parse_pending rows ≡ ok ps
    → All (λ row. row.id ≢ id) rows
    → All (λ p. p.id ≢ id) ps
unfolding parse_pending
parse_pending-ids id [] ps h k = let e : [] ≡ ps = ground arith in subst (All (λ p. p.id ≢ id)) e tt
parse_pending-ids id (row ∷ rows) ps h k = elim (Option-cases row.sub_solver) [
  | inl q ↦ absurd (ground arith)
  | inr (s, q) ↦ elim (Option-cases row.order_uid) [
    | inl r ↦ absurd (ground arith)
    | inr (u, r) ↦ elim (Result-cases (parse_pending rows)) [
      | inr (e, t) ↦ absurd (ground arith)
      | inl (rest, t) ↦
          let first : PendingPenalty = record {
            id = row.id;
            proposal_id = row.proposal_id;
            sub_solver = s;
            order_uid = u;
          } in
          let e : first ∷ rest ≡ ps = ground arith in
          subst (All (λ p. p.id ≢ id)) e (k.0, parse_pending-ids id rows rest t k.1)
    ]
  ]
]

recorded_penalties :
    (f : Faults) (q : PendingPenalty) (amount : U256) (tx : B256) (db : Db)
    → (record_non_settlement_debit f q amount tx db).0 ≡ ok tt
    → (record_non_settlement_debit f q amount tx db).1.penalties ≡ mark_debited q.id tx db.penalties
unfolding record_non_settlement_debit
recorded_penalties f q amount tx db h = ground arith

pending_rows :
    (g : Faults) (db : Db) (ps : List PendingPenalty)
    → pending_penalties g db ≡ ok ps
    → parse_pending (filter_by is_pending db.penalties) ≡ ok ps
unfolding pending_penalties
pending_rows g db ps h = elim (Option-cases (g 0)) [
  | inl fine ↦ ground arith
  | inr (e, fault) ↦ absurd (ground arith)
]

-- Once the debit of a queued non-settlement charge has been recorded, a read of the queue that
-- answers returns no charge with its id.
pub debited_not_pending :
    (f g : Faults) (q : PendingPenalty) (amount : U256) (tx : B256) (db : Db)
    (ps : List PendingPenalty)
    → (record_non_settlement_debit f q amount tx db).0 ≡ ok tt
    → pending_penalties g (record_non_settlement_debit f q amount tx db).1 ≡ ok ps
    → All (λ p. p.id ≢ q.id) ps
debited_not_pending f g q amount tx db ps h k =
    parse_pending-ids q.id _ ps (pending_rows g _ ps k)
      (rw (recorded_penalties f q amount tx db h) (mark_debited-NonePending q.id tx db.penalties))
