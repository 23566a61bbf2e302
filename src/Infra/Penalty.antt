-- ===== src/Infra/Penalty.antt =====
-- The Track A penalty loop (crates/byos/src/infra/penalty.rs). The chain is behind the trait
-- `DebitEscrow`: a state that the code does not see, and two calls on it.
pub mod Attempts
pub mod Debits
use byos_service.Prelude.{
  ℕ, suc, Bool, true, false, Option, none, some, unwrap_or, Result, ok, err, List, [], ◌∷◌, leb,
  ◌==◌, if◌then◌else◌,
}
use byos_service.Domain.Proposal.{
  ProposalId, Address, OrderUid, B256, U256, Proposal, settle_failed,
}
use byos_service.Domain.Penalty.{PendingPenalty, revert_debit, non_settlement_debit}
use byos_service.Infra.Storage.Db.{Db, Faults}
use byos_service.Infra.Storage.Ops.{record_penalty}
use byos_service.Infra.Storage.Queues.{pending_penalties, record_non_settlement_debit}
use byos_service.Infra.Storage.Queries.{snapshot_by_statuses}

-- `DebitError`
pub data DebitError : Type 0 where
  transient : DebitError

-- `trait DebitEscrow`
pub record DebitEscrow (C : Type 0) : Type 0 where
  pub settlement_cost : B256 → C → Result DebitError U256 × C
  pub debit : Address → U256 → B256 → C → Result DebitError B256 × C

-- `MAX_DEBIT_ATTEMPTS`
abbrev pub max_debit_attempts : ℕ
max_debit_attempts = 10

-- A `HashMap` of attempt counts.
abbrev pub Counts : Type 0
Counts = List (ℕ × ℕ)

unfoldable pub count_of : ℕ → Counts → Option ℕ
count_of id [] = none
count_of id ((k, n) ∷ rest) = if k == id then some n else count_of id rest

-- `note_debit_failure(attempts.entry(id).or_insert(0), …)`
unfoldable pub note_debit_failure : ℕ → Counts → Counts
note_debit_failure id [] = (id, 1) ∷ []
note_debit_failure id ((k, n) ∷ rest) =
    if k == id then (k, suc n) ∷ rest else (k, n) ∷ note_debit_failure id rest

-- `attempts.remove(&id)`
unfoldable pub forget : ℕ → Counts → Counts
forget id [] = []
forget id ((k, n) ∷ rest) = if k == id then forget id rest else (k, n) ∷ forget id rest

unfoldable pub is_parked : ℕ → Counts → Bool
unfolding count_of
is_parked id counts = elim (count_of id counts) [ none ↦ false | some n ↦ leb max_debit_attempts n ]

-- What a sweep works on: the chain, the database and the sweep's counts.
pub record Sweep (C : Type 0) : Type 0 where
  pub chain : C
  pub db : Db
  pub counts : Counts

-- The chain has landed the debit; what the store answers is only logged.
abbrev pub penalized_by :
    {C : Type 0} → Faults → Proposal → U256 → Sweep C → Result DebitError B256 × C → Sweep C
penalized_by f p amount s (ok tx, c) = record {
  chain = c;
  db = (record_penalty f p amount tx s.db).1;
  counts = forget p.id s.counts;
}
penalized_by f p amount s (err e, c) = record s {
  chain = c;
  counts = note_debit_failure p.id s.counts;
}

abbrev pub priced :
    {C : Type 0}
    → Faults
    → DebitEscrow C
    → U256
    → Proposal
    → B256
    → Sweep C
    → Result DebitError U256 × C
    → Sweep C
priced f operator c_l p tx s (ok cost, c) =
    let amount = revert_debit cost c_l in
    penalized_by f p amount s (operator.debit p.sub_solver amount tx c)
priced f operator c_l p tx s (err e, c) = record s {
  chain = c;
  counts = note_debit_failure p.id s.counts;
}

-- The body of the loop over the failed settlements.
unfoldable pub debit_reverted :
    {C : Type 0} → Faults → DebitEscrow C → U256 → Proposal → Sweep C → Sweep C
unfolding is_parked revert_debit record_penalty forget note_debit_failure
debit_reverted f operator c_l p s =
    if is_parked p.id s.counts then s else elim p.settlement_tx_hash [
      | none ↦ s
      | some tx ↦ priced f operator c_l p tx s (operator.settlement_cost tx s.chain)
    ]

-- `f n` are the faults of the store call for the n-th item.
unfoldable pub debit_all_reverted :
    {C : Type 0} → (ℕ → Faults) → DebitEscrow C → U256 → List Proposal → Sweep C → Sweep C
unfolding debit_reverted
debit_all_reverted f operator c_l [] s = s
debit_all_reverted f operator c_l (p ∷ ps) s =
    debit_all_reverted (λ n. f (suc n)) operator c_l ps (debit_reverted (f 0) operator c_l p s)

unfoldable pub revert_debits :
    {C : Type 0} → (ℕ → Faults) → DebitEscrow C → U256 → Sweep C → Sweep C
unfolding snapshot_by_statuses debit_all_reverted
revert_debits f operator c_l s = elim (snapshot_by_statuses (f 0) (settle_failed ∷ []) s.db) [
  | err e ↦ s
  | ok pending ↦ debit_all_reverted (λ n. f (suc n)) operator c_l pending s
]

abbrev pub debited_by :
    {C : Type 0} → Faults → PendingPenalty → U256 → Sweep C → Result DebitError B256 × C → Sweep C
debited_by f q amount s (ok tx, c) = record {
  chain = c;
  db = (record_non_settlement_debit f q amount tx s.db).1;
  counts = forget q.id s.counts;
}
debited_by f q amount s (err e, c) = record s {
  chain = c;
  counts = note_debit_failure q.id s.counts;
}

-- The body of the loop over the queued charges; `keccak256` hashes the order uid.
unfoldable pub debit_abandoned :
    {C : Type 0}
    → Faults
    → (OrderUid → B256)
    → DebitEscrow C
    → U256
    → PendingPenalty
    → Sweep C
    → Sweep C
unfolding is_parked non_settlement_debit record_non_settlement_debit forget note_debit_failure
debit_abandoned f keccak256 operator c_l q s =
    if is_parked q.id s.counts
    then s
    else let amount = non_settlement_debit c_l in
      debited_by f q amount s (operator.debit q.sub_solver amount (keccak256 q.order_uid) s.chain)

unfoldable pub debit_all_abandoned :
    {C : Type 0}
    → (ℕ → Faults)
    → (OrderUid → B256)
    → DebitEscrow C
    → U256
    → List PendingPenalty
    → Sweep C
    → Sweep C
unfolding debit_abandoned
debit_all_abandoned f keccak256 operator c_l [] s = s
debit_all_abandoned f keccak256 operator c_l (q ∷ qs) s =
    debit_all_abandoned (λ n. f (suc n)) keccak256 operator c_l qs
      (debit_abandoned (f 0) keccak256 operator c_l q s)

unfoldable pub non_settlement_debits :
    {C : Type 0} → (ℕ → Faults) → (OrderUid → B256) → DebitEscrow C → U256 → Sweep C → Sweep C
unfolding pending_penalties debit_all_abandoned
non_settlement_debits f keccak256 operator c_l s = elim (pending_penalties (f 0) s.db) [
  | err e ↦ s
  | ok pending ↦ debit_all_abandoned (λ n. f (suc n)) keccak256 operator c_l pending s
]

-- `DebitAttempts`
pub record DebitAttempts : Type 0 where
  pub revert : Counts
  pub non_settlement : Counts

-- The loop's state between two ticks.
pub record Loop (C : Type 0) : Type 0 where
  pub chain : C
  pub db : Db
  pub attempts : DebitAttempts

-- One pass: the reverted settlements, then the abandoned ones.
unfoldable pub run_tick :
    {C : Type 0}
    → (ℕ → Faults)
    → (ℕ → Faults)
    → (OrderUid → B256)
    → DebitEscrow C
    → U256
    → Loop C
    → Loop C
unfolding revert_debits non_settlement_debits
run_tick f g keccak256 operator c_l l =
    let s =
      revert_debits f operator c_l
        (record { chain = l.chain; db = l.db; counts = l.attempts.revert }) in
    let t =
      non_settlement_debits g keccak256 operator c_l
        (record { chain = s.chain; db = s.db; counts = l.attempts.non_settlement }) in
    record {
      chain = t.chain;
      db = t.db;
      attempts = record { revert = s.counts; non_settlement = t.counts };
    }
