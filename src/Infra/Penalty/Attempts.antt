-- ===== src/Infra/Penalty/Attempts.antt =====
-- The attempt counts of the penalty loop (crates/byos/src/infra/penalty.rs).
use byos_service.Prelude.{
  ℕ, suc, ◌≤◌, ◌≡◌, inl, inr, Bool-cases, Option-cases, Result-cases, false, Result, ok, err, List,
  [], ◌∷◌, All, arith, ◌==◌,
}
use byos_service.Domain.Proposal.{OrderUid, B256, U256, Proposal, settle_failed}
use byos_service.Domain.Penalty.{PendingPenalty, revert_debit, non_settlement_debit}
use byos_service.Infra.Storage.Db.{Faults}
use byos_service.Infra.Storage.Queries.{snapshot_by_statuses}
use byos_service.Infra.Storage.Queues.{pending_penalties}
use byos_service.Infra.Penalty.{
  DebitError, DebitEscrow, Counts, Sweep, Loop, max_debit_attempts, note_debit_failure, forget,
  is_parked, penalized_by, priced, debit_reverted, debit_all_reverted, revert_debits, debited_by,
  debit_abandoned, debit_all_abandoned, non_settlement_debits, run_tick,
}

-- No count is past the cap.
abbrev pub IsCapped : Counts → Type 0
IsCapped = All (λ c. c.1 ≤ max_debit_attempts)

forget-IsCapped : (id : ℕ) (counts : Counts) → IsCapped counts → IsCapped (forget id counts)
unfolding forget
forget-IsCapped id [] h = tt
forget-IsCapped id ((k, n) ∷ rest) h = elim (Bool-cases (k == id)) [
  | inl y ↦ rw y (forget-IsCapped id rest h.1)
  | inr m ↦ rw m (h.0, forget-IsCapped id rest h.1)
]

note-IsCapped :
    (id : ℕ) (counts : Counts)
    → is_parked id counts ≡ false
    → IsCapped counts
    → IsCapped (note_debit_failure id counts)
unfolding note_debit_failure is_parked
note-IsCapped id [] np h = (omega arith, tt)
note-IsCapped id ((k, n) ∷ rest) np h = elim (Bool-cases (k == id)) [
  | inl y ↦ rw y (ground arith, h.1)
  | inr m ↦ rw m (h.0, note-IsCapped id rest (ground arith) h.1)
]

module _ {C : Type 0} where
  penalized_by-IsCapped :
      (f : Faults) (p : Proposal) (amount : U256) (s : Sweep C) (r : Result DebitError B256) (c : C)
      → is_parked p.id s.counts ≡ false
      → IsCapped s.counts
      → IsCapped (penalized_by f p amount s (r, c)).counts
  penalized_by-IsCapped f p amount s (ok tx) c np h = forget-IsCapped p.id s.counts h
  penalized_by-IsCapped f p amount s (err e) c np h = note-IsCapped p.id s.counts np h

  priced-IsCapped :
      (f : Faults) (operator : DebitEscrow C) (c_l : U256) (p : Proposal) (tx : B256) (s : Sweep C)
      (r : Result DebitError U256) (c : C)
      → is_parked p.id s.counts ≡ false
      → IsCapped s.counts
      → IsCapped (priced f operator c_l p tx s (r, c)).counts
  priced-IsCapped f operator c_l p tx s (ok cost) c np h =
      let amount = revert_debit cost c_l in
      let (r, d) = operator.debit p.sub_solver amount tx c in
      penalized_by-IsCapped f p amount s r d np h
  priced-IsCapped f operator c_l p tx s (err e) c np h = note-IsCapped p.id s.counts np h

  debit_reverted-IsCapped :
      (f : Faults) (operator : DebitEscrow C) (c_l : U256) (p : Proposal) (s : Sweep C)
      → IsCapped s.counts
      → IsCapped (debit_reverted f operator c_l p s).counts
  unfolding debit_reverted
  debit_reverted-IsCapped f operator c_l p s h = elim (Bool-cases (is_parked p.id s.counts)) [
    | inl y ↦ rw (y, debit_reverted) h
    | inr np ↦ elim (Option-cases p.settlement_tx_hash) [
      | inl q ↦ rw (np, q, debit_reverted) h
      | inr (tx, q) ↦
          rw (np, q, debit_reverted)
            (let (r, c) = operator.settlement_cost tx s.chain in
              priced-IsCapped f operator c_l p tx s r c np h)
    ]
  ]

  debit_all_reverted-IsCapped :
      (f : ℕ → Faults) (operator : DebitEscrow C) (c_l : U256) (ps : List Proposal) (s : Sweep C)
      → IsCapped s.counts
      → IsCapped (debit_all_reverted f operator c_l ps s).counts
  unfolding debit_all_reverted
  debit_all_reverted-IsCapped f operator c_l [] s h = h
  debit_all_reverted-IsCapped f operator c_l (p ∷ ps) s h =
      debit_all_reverted-IsCapped (λ n. f (suc n)) operator c_l ps
        (debit_reverted (f 0) operator c_l p s) (debit_reverted-IsCapped (f 0) operator c_l p s h)

  revert_debits-IsCapped :
      (f : ℕ → Faults) (operator : DebitEscrow C) (c_l : U256) (s : Sweep C)
      → IsCapped s.counts
      → IsCapped (revert_debits f operator c_l s).counts
  unfolding revert_debits
  revert_debits-IsCapped f operator c_l s h =
      elim (Result-cases (snapshot_by_statuses (f 0) (settle_failed ∷ []) s.db)) [
        | inr (e, q) ↦ rw (q, revert_debits) h
        | inl (ps, q) ↦
            rw (q, revert_debits) (debit_all_reverted-IsCapped (λ n. f (suc n)) operator c_l ps s h)
      ]

  debited_by-IsCapped :
      (f : Faults) (q : PendingPenalty) (amount : U256) (s : Sweep C) (r : Result DebitError B256)
      (c : C)
      → is_parked q.id s.counts ≡ false
      → IsCapped s.counts
      → IsCapped (debited_by f q amount s (r, c)).counts
  debited_by-IsCapped f q amount s (ok tx) c np h = forget-IsCapped q.id s.counts h
  debited_by-IsCapped f q amount s (err e) c np h = note-IsCapped q.id s.counts np h

  debit_abandoned-IsCapped :
      (f : Faults) (keccak256 : OrderUid → B256) (operator : DebitEscrow C) (c_l : U256)
      (q : PendingPenalty) (s : Sweep C)
      → IsCapped s.counts
      → IsCapped (debit_abandoned f keccak256 operator c_l q s).counts
  unfolding debit_abandoned
  debit_abandoned-IsCapped f keccak256 operator c_l q s h =
      elim (Bool-cases (is_parked q.id s.counts)) [
        | inl y ↦ rw (y, debit_abandoned) h
        | inr np ↦
            rw (np, debit_abandoned)
              (let amount = non_settlement_debit c_l in
                let (r, c) = operator.debit q.sub_solver amount (keccak256 q.order_uid) s.chain in
                debited_by-IsCapped f q amount s r c np h)
      ]

  debit_all_abandoned-IsCapped :
      (f : ℕ → Faults) (keccak256 : OrderUid → B256) (operator : DebitEscrow C) (c_l : U256)
      (qs : List PendingPenalty) (s : Sweep C)
      → IsCapped s.counts
      → IsCapped (debit_all_abandoned f keccak256 operator c_l qs s).counts
  unfolding debit_all_abandoned
  debit_all_abandoned-IsCapped f keccak256 operator c_l [] s h = h
  debit_all_abandoned-IsCapped f keccak256 operator c_l (q ∷ qs) s h =
      debit_all_abandoned-IsCapped (λ n. f (suc n)) keccak256 operator c_l qs
        (debit_abandoned (f 0) keccak256 operator c_l q s)
        (debit_abandoned-IsCapped (f 0) keccak256 operator c_l q s h)

  non_settlement_debits-IsCapped :
      (f : ℕ → Faults) (keccak256 : OrderUid → B256) (operator : DebitEscrow C) (c_l : U256)
      (s : Sweep C)
      → IsCapped s.counts
      → IsCapped (non_settlement_debits f keccak256 operator c_l s).counts
  unfolding non_settlement_debits
  non_settlement_debits-IsCapped f keccak256 operator c_l s h =
      elim (Result-cases (pending_penalties (f 0) s.db)) [
        | inr (e, q) ↦ rw (q, non_settlement_debits) h
        | inl (qs, q) ↦
            rw (q, non_settlement_debits)
              (debit_all_abandoned-IsCapped (λ n. f (suc n)) keccak256 operator c_l qs s h)
      ]

-- If no attempt count of the penalty loop is past the cap, then none is after a tick, whatever the
-- chain and the database answer.
pub penalty_tick-IsCapped :
    {C : Type 0} (f g : ℕ → Faults) (keccak256 : OrderUid → B256) (operator : DebitEscrow C)
    (c_l : U256) (l : Loop C)
    → IsCapped l.attempts.revert
    → IsCapped l.attempts.non_settlement
    → let after = run_tick f g keccak256 operator c_l l in
      IsCapped after.attempts.revert × IsCapped after.attempts.non_settlement
unfolding run_tick
penalty_tick-IsCapped {C = C} f g keccak256 operator c_l l h k =
    let s : Sweep C = record { chain = l.chain; db = l.db; counts = l.attempts.revert } in
    let t = revert_debits f operator c_l s in
    (
      revert_debits-IsCapped f operator c_l s h,
      non_settlement_debits-IsCapped g keccak256 operator c_l
          (record { chain = t.chain; db = t.db; counts = l.attempts.non_settlement }) k,
    )
