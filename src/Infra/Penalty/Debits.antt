-- ===== src/Infra/Penalty/Debits.antt =====
-- The store calls of a tick of the penalty loop (crates/byos/src/infra/penalty.rs).
use byos_service.Prelude.{
  ℕ, suc, ◌≡◌, inl, inr, Bool-cases, Option-cases, Result-cases, Result, ok, err, List, [], ◌∷◌,
  All, In-All,
}
use byos_service.Domain.Proposal.{OrderUid, B256, U256, Proposal, settle_failed}
use byos_service.Domain.Penalty.{PendingPenalty, revert_debit, non_settlement_debit}
use byos_service.Infra.Storage.Db.{Db, Faults}
use byos_service.Infra.Storage.Queries.{snapshot_by_statuses}
use byos_service.Infra.Storage.Queues.{pending_penalties}
use byos_service.Infra.Storage.Lifecycle.{Reach, next, penalizes, debits}
use byos_service.Infra.Storage.Snapshots.{snapshot-rows}
use byos_service.Infra.Penalty.{
  DebitError, DebitEscrow, Sweep, Loop, is_parked, penalized_by, priced, debit_reverted,
  debit_all_reverted, revert_debits, debited_by, debit_abandoned, debit_all_abandoned,
  non_settlement_debits, run_tick,
}

module _ {C : Type 0} where
  penalized_by-Reach :
      (f : Faults) (p : Proposal) (amount : U256) (s : Sweep C) (r : Result DebitError B256) (c : C)
      {db : Db}
      → p.status ≡ settle_failed
      → Reach db s.db
      → Reach db (penalized_by f p amount s (r, c)).db
  penalized_by-Reach f p amount s (ok tx) c failed r = next r (penalizes f p amount tx s.db failed)
  penalized_by-Reach f p amount s (err e) c failed r = r

  priced-Reach :
      (f : Faults) (operator : DebitEscrow C) (c_l : U256) (p : Proposal) (tx : B256) (s : Sweep C)
      (r : Result DebitError U256) (c : C) {db : Db}
      → p.status ≡ settle_failed
      → Reach db s.db
      → Reach db (priced f operator c_l p tx s (r, c)).db
  priced-Reach f operator c_l p tx s (ok cost) c failed reach =
      let amount = revert_debit cost c_l in
      let (r, d) = operator.debit p.sub_solver amount tx c in
      penalized_by-Reach f p amount s r d failed reach
  priced-Reach f operator c_l p tx s (err e) c failed reach = reach

  debit_reverted-Reach :
      (f : Faults) (operator : DebitEscrow C) (c_l : U256) (p : Proposal) (s : Sweep C) {db : Db}
      → p.status ≡ settle_failed
      → Reach db s.db
      → Reach db (debit_reverted f operator c_l p s).db
  unfolding debit_reverted
  debit_reverted-Reach f operator c_l p s failed reach =
      elim (Bool-cases (is_parked p.id s.counts)) [
        | inl y ↦ rw (y, debit_reverted) reach
        | inr np ↦ elim (Option-cases p.settlement_tx_hash) [
          | inl q ↦ rw (np, q, debit_reverted) reach
          | inr (tx, q) ↦
              rw (np, q, debit_reverted)
                (let (r, c) = operator.settlement_cost tx s.chain in
                  priced-Reach f operator c_l p tx s r c failed reach)
        ]
      ]

  debit_all_reverted-Reach :
      (f : ℕ → Faults) (operator : DebitEscrow C) (c_l : U256) (ps : List Proposal) (s : Sweep C)
      {db : Db}
      → All (λ p. p.status ≡ settle_failed) ps
      → Reach db s.db
      → Reach db (debit_all_reverted f operator c_l ps s).db
  unfolding debit_all_reverted
  debit_all_reverted-Reach f operator c_l [] s failed reach = reach
  debit_all_reverted-Reach f operator c_l (p ∷ ps) s failed reach =
      debit_all_reverted-Reach (λ n. f (suc n)) operator c_l ps
        (debit_reverted (f 0) operator c_l p s) failed.1
        (debit_reverted-Reach (f 0) operator c_l p s failed.0 reach)

  revert_debits-Reach :
      (f : ℕ → Faults) (operator : DebitEscrow C) (c_l : U256) (s : Sweep C)
      → Reach s.db (revert_debits f operator c_l s).db
  unfolding revert_debits
  revert_debits-Reach f operator c_l s =
      elim (Result-cases (snapshot_by_statuses (f 0) (settle_failed ∷ []) s.db)) [
        | inr (e, q) ↦ rw (q, revert_debits) Reach.here
        | inl (ps, q) ↦
            rw (q, revert_debits)
              (debit_all_reverted-Reach (λ n. f (suc n)) operator c_l ps s
                (In-All _ ps (λ p i.
                  let (row, j, d, e) = snapshot-rows (f 0) settle_failed s.db ps q p i in e))
                Reach.here)
      ]

  debited_by-Reach :
      (f : Faults) (q : PendingPenalty) (amount : U256) (s : Sweep C) (r : Result DebitError B256)
      (c : C) {db : Db}
      → Reach db s.db
      → Reach db (debited_by f q amount s (r, c)).db
  debited_by-Reach f q amount s (ok tx) c reach = next reach (debits f q amount tx s.db)
  debited_by-Reach f q amount s (err e) c reach = reach

  debit_abandoned-Reach :
      (f : Faults) (keccak256 : OrderUid → B256) (operator : DebitEscrow C) (c_l : U256)
      (q : PendingPenalty) (s : Sweep C) {db : Db}
      → Reach db s.db
      → Reach db (debit_abandoned f keccak256 operator c_l q s).db
  unfolding debit_abandoned
  debit_abandoned-Reach f keccak256 operator c_l q s reach =
      elim (Bool-cases (is_parked q.id s.counts)) [
        | inl y ↦ rw (y, debit_abandoned) reach
        | inr np ↦
            rw (np, debit_abandoned)
              (let amount = non_settlement_debit c_l in
                let (r, c) = operator.debit q.sub_solver amount (keccak256 q.order_uid) s.chain in
                debited_by-Reach f q amount s r c reach)
      ]

  debit_all_abandoned-Reach :
      (f : ℕ → Faults) (keccak256 : OrderUid → B256) (operator : DebitEscrow C) (c_l : U256)
      (qs : List PendingPenalty) (s : Sweep C) {db : Db}
      → Reach db s.db
      → Reach db (debit_all_abandoned f keccak256 operator c_l qs s).db
  unfolding debit_all_abandoned
  debit_all_abandoned-Reach f keccak256 operator c_l [] s reach = reach
  debit_all_abandoned-Reach f keccak256 operator c_l (q ∷ qs) s reach =
      debit_all_abandoned-Reach (λ n. f (suc n)) keccak256 operator c_l qs
        (debit_abandoned (f 0) keccak256 operator c_l q s)
        (debit_abandoned-Reach (f 0) keccak256 operator c_l q s reach)

  non_settlement_debits-Reach :
      (f : ℕ → Faults) (keccak256 : OrderUid → B256) (operator : DebitEscrow C) (c_l : U256)
      (s : Sweep C) {db : Db}
      → Reach db s.db
      → Reach db (non_settlement_debits f keccak256 operator c_l s).db
  unfolding non_settlement_debits
  non_settlement_debits-Reach f keccak256 operator c_l s reach =
      elim (Result-cases (pending_penalties (f 0) s.db)) [
        | inr (e, q) ↦ rw (q, non_settlement_debits) reach
        | inl (qs, q) ↦
            rw (q, non_settlement_debits)
              (debit_all_abandoned-Reach (λ n. f (suc n)) keccak256 operator c_l qs s reach)
      ]

-- What a tick of the penalty loop does to the database is a sequence of calls of the store, in
-- which a penalty for a revert is recorded only from a snapshot of a proposal whose settlement has
-- failed.
pub penalty_tick-Reach :
    {C : Type 0} (f g : ℕ → Faults) (keccak256 : OrderUid → B256) (operator : DebitEscrow C)
    (c_l : U256) (l : Loop C)
    → Reach l.db (run_tick f g keccak256 operator c_l l).db
unfolding run_tick
penalty_tick-Reach f g keccak256 operator c_l l =
    non_settlement_debits-Reach g keccak256 operator c_l _ (revert_debits-Reach f operator c_l _)
