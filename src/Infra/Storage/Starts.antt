-- ===== src/Infra/Storage/Starts.antt =====
-- The charges for abandoned settlements against the settlements that were started
-- (`apply_settlement_outcome` of crates/byos/src/infra/storage.rs).
use byos_service.Prelude.{
  subst, ℕ, suc, ◌+◌, ◌≤◌, ◌≡◌, refl, inl, inr, Bool, true, false, Bool-cases, Option-cases, some,
  none, Option, ok, List, [], ◌∷◌, ◌++◌, All, arith, ◌==◌, ◌&&◌, if◌then◌else◌, ==→eq,
}
use byos_service.Domain.Proposal.{
  ProposalId, Address, OrderUid, B256, ProposalStatus, submitted, active, expired, executing,
  same_status, SettlementOutcome,
}
use byos_service.Domain.Validator.{RejectionReason}
use byos_service.Domain.Audit.{
  AuditKind, received, was_cancelled, status_changed, was_penalized, non_settlement_debited,
  driver_notified,
}
use byos_service.Infra.Storage.Rows.{Row}
use byos_service.Infra.Storage.Db.{PenaltyRow, Db, empty}
use byos_service.Infra.Storage.Ops.{verdict_status}
use byos_service.Infra.Storage.Outcomes.{
  outcome_target, settlement_tx, emit_all, parse_released, note_driver_notification, is_abandoned,
}
use byos_service.Infra.Storage.Queues.{sweep_dropped, mark_debited, record_non_settlement_debit}
use byos_service.Infra.Storage.Trail.{IsTrail, Follows, last_status, legal}
use byos_service.Infra.Storage.Invariant.{empty-Inv}
use byos_service.Infra.Storage.Effects.{
  transition_effect, record_penalty_effect, cancel_effect, resolve_verdict_effect, outcome_effect,
}
use byos_service.Infra.Storage.Bulk.{insert_effect}
use byos_service.Infra.Storage.Release.{parse_released_lem, release_effect}
use byos_service.Infra.Storage.Lifecycle.{
  Step, submits, expires, resolves, cancels, reports, notes, releases, sweeps, penalizes, debits,
  bids, passes, Reach, here, next, bid_effect, Reach-Inv,
}

-- The proposal enters execution, or leaves it for another attempt.
abbrev pub is_start_of : ProposalId → AuditKind → Bool
is_start_of id (status_changed i o u from to reason tx) = i == id && same_status to executing
is_start_of id _ = false

abbrev pub is_return_of : ProposalId → AuditKind → Bool
is_return_of id (status_changed i o u from to reason tx) =
    i == id && same_status from executing && same_status to active
is_return_of id _ = false

unfoldable pub start_count : ProposalId → List AuditKind → ℕ
start_count id [] = 0
start_count id (e ∷ log) =
    let rest = start_count id log in if is_start_of id e then suc rest else rest

unfoldable pub return_count : ProposalId → List AuditKind → ℕ
return_count id [] = 0
return_count id (e ∷ log) =
    let rest = return_count id log in if is_return_of id e then suc rest else rest

-- The charges that are queued for the proposal, paid or not.
unfoldable pub charge_count : ProposalId → List PenaltyRow → ℕ
charge_count id [] = 0
charge_count id (q ∷ qs) =
    let rest = charge_count id qs in if q.proposal_id == id then suc rest else rest

-- A proposal is received as submitted.
abbrev IsFresh : AuditKind → Type 0
IsFresh (received p) = p.status ≡ submitted
IsFresh _ = Unit {0}

-- Each charge has its return, and each proposal starts as submitted.
Charged : ProposalId → Db → Type 0
Charged id db = (charge_count id db.penalties ≤ return_count id db.audit) × All IsFresh db.audit

charge_count-append :
    (id : ProposalId) (qs : List PenaltyRow) (q : PenaltyRow)
    → charge_count id (qs ++ (q ∷ [])) ≡ charge_count id qs + (if q.proposal_id == id then 1 else 0)
unfolding charge_count
charge_count-append id [] q = ground arith
charge_count-append id (r ∷ qs) q = ground (arith, charge_count-append id qs q)

charge_count-mark_debited :
    (id n : ℕ) (tx : B256) (qs : List PenaltyRow)
    → charge_count id (mark_debited n tx qs) ≡ charge_count id qs
unfolding charge_count mark_debited
charge_count-mark_debited id n tx [] = refl
charge_count-mark_debited id n tx (q ∷ qs) = ground (arith, charge_count-mark_debited id n tx qs)

return_count-le :
    (id : ProposalId) (e : AuditKind) (log : List AuditKind)
    → return_count id log ≤ return_count id (e ∷ log)
unfolding return_count
return_count-le id e log = ground arith

parse_released-IsFresh :
    (rows : List Row) (es : List AuditKind) → parse_released rows ≡ ok es → All IsFresh es
unfolding parse_released
parse_released-IsFresh [] es h = let e : [] ≡ es = ground arith in subst (All IsFresh) e tt
parse_released-IsFresh (r ∷ rows) es h =
    let (owner, uid, rest, q, e) = parse_released_lem r rows es h in
    rw e (tt, parse_released-IsFresh rows rest q)

emit_all-Charged :
    (id n : ℕ) (es log : List AuditKind)
    → All IsFresh es
    → n ≤ return_count id log
    → All IsFresh log
    → (n ≤ return_count id (emit_all es log)) × All IsFresh (emit_all es log)
emit_all-Charged id n [] log fresh le old = (le, old)
emit_all-Charged id n (e ∷ es) log fresh le old =
    emit_all-Charged id n es (e ∷ log) fresh.1 (omega (arith, return_count-le id e log))
      (fresh.0, old)

charge_returned :
    (id i : ProposalId) (o : Address) (u : OrderUid) (reason : Option RejectionReason)
    (tx : Option B256) (q : PenaltyRow) (qs : List PenaltyRow) (log : List AuditKind)
    → q.proposal_id ≡ i
    → charge_count id qs ≤ return_count id log
    → charge_count id (qs ++ (q ∷ []))
      ≤ return_count id (status_changed i o u executing active reason tx ∷ log)
unfolding return_count same_status
charge_returned id i o u reason tx q qs log e le = ground (arith, charge_count-append id qs q)

-- Only an abandonment queues a charge, and it returns the proposal from execution.
abandoned_target :
    (o : SettlementOutcome) (from to : ProposalStatus)
    → is_abandoned o ≡ true
    → outcome_target o from ≡ some to
    → (from ≡ executing) × (to ≡ active)
unfolding outcome_target
abandoned_target o from to y t = (ground arith, ground arith)

module _ (id : ProposalId) where
  -- A call that sends an event, and leaves the penalties.
  sends :
      (b : Db) (e : AuditKind) (n : ℕ)
      → IsFresh e
      → n ≤ charge_count id b.penalties
      → Charged id b
      → (n ≤ return_count id (e ∷ b.audit)) × All IsFresh (e ∷ b.audit)
  unfolding Charged
  sends b e n fresh le c = (omega (arith, return_count-le id e b.audit, c.0), (fresh, c.1))

  Step-Charged : {b c : Db} → Step b c → Charged id b → Charged id c
  unfolding Charged
  Step-Charged (submits f p db new) v = elim (insert_effect f p db) [
    | inl eq ↦ rw eq v
    | inr eq ↦ rw eq (sends db _ _ new (omega arith) v)
  ]
  Step-Charged (expires f p db live) v = elim (transition_effect f p expired db) [
    | inl eq ↦ rw eq v
    | inr (hit, eq) ↦ rw eq (sends db _ _ tt (omega arith) v)
  ]
  Step-Charged (resolves f n w db) v = elim (resolve_verdict_effect f n w db) [
    | inl eq ↦ rw eq v
    | inr (row, from, owner, uid, found, s, live, eq) ↦
        elim (Bool-cases (same_status from (verdict_status w))) [
          | inl y ↦ rw (eq, y) v
          | inr m ↦ rw (eq, m) (sends db _ _ tt (omega arith) v)
        ]
  ]
  Step-Charged (cancels f n owner db) v = elim (cancel_effect f n owner db) [
    | inl eq ↦ rw eq v
    | inr (row, from, uid, found, s, live, eq) ↦ rw eq (sends db _ _ tt (omega arith) v)
  ]
  Step-Charged (reports f p o db) v = elim (outcome_effect f p o db) [
    | inl eq ↦ rw eq v
    | inr (row, from, to, found, s, t, eq) ↦ elim (Bool-cases (is_abandoned o)) [
      | inr n ↦ rw (eq, n) (sends db _ _ tt (omega arith) v)
      | inl y ↦
          let (left, back) = abandoned_target o from to y t in
          rw (eq, y, left, back)
            (
              charge_returned id p.id p.sub_solver p.order_uid none (settlement_tx o) _ db.penalties
                  db.audit refl v.0,
              (tt, v.1),
            )
    ]
  ]
  Step-Charged (notes p kind db) v =
      unfold note_driver_notification in (sends db _ _ tt (omega arith) v)
  Step-Charged (releases f older_than db) v = elim (release_effect f older_than db) [
    | inl eq ↦ rw eq v
    | inr (es, parsed, eq) ↦
        rw eq (emit_all-Charged id _ es db.audit (parse_released-IsFresh _ es parsed) v.0 v.1)
  ]
  Step-Charged (sweeps f older_than db) v = elim (Option-cases (f 0)) [
    | inl fine ↦ unfold sweep_dropped in (rw fine v)
    | inr (e, fault) ↦ unfold sweep_dropped in (rw fault v)
  ]
  Step-Charged (penalizes f p amount tx db failed) v =
      elim (record_penalty_effect f p amount tx db) [
        | inl eq ↦ rw eq v
        | inr (hit, eq) ↦ rw eq (sends db _ _ tt (omega arith) v)
      ]
  Step-Charged (debits f q amount tx db) v = elim (Option-cases (f 0)) [
    | inl fine ↦
        unfold record_non_settlement_debit in
        (rw fine
          (sends db _ _ tt (omega (arith, charge_count-mark_debited id q.id tx db.penalties)) v))
    | inr (e, fault) ↦ unfold record_non_settlement_debit in (rw fault v)
  ]
  Step-Charged (bids f a s n db) v = elim (bid_effect f a s n db) [
    | inl eq ↦ rw eq v
    | inr eq ↦ rw eq v
  ]
  Step-Charged (passes seconds db) v = v

  Reach-Charged : {b c : Db} → Charged id b → Reach b c → Charged id c
  Reach-Charged v here = v
  Reach-Charged v (next r s) = Step-Charged s (Reach-Charged v r)

  -- A return has its start: one more start than returns while the proposal executes.
  Balanced : List AuditKind → Type 0
  Balanced log =
      (return_count id log ≤ start_count id log)
      × (last_status id log ≡ some executing → suc (return_count id log) ≤ start_count id log)

  Follows-Balanced :
      (e : AuditKind) (log : List AuditKind)
      → IsFresh e
      → Follows e log
      → Balanced log
      → Balanced (e ∷ log)
  unfolding Balanced return_count start_count last_status legal same_status
  Follows-Balanced (received p) log fresh fol h = ground arith
  Follows-Balanced (was_cancelled i o u) log fresh fol h = ground arith
  Follows-Balanced (status_changed i o u from to reason tx) log fresh fol h =
      elim (Bool-cases (i == id)) [
        | inr other ↦ ground arith
        | inl mine ↦ ground (arith, ==→eq i id mine, fol.0, fol.1)
      ]
  Follows-Balanced (was_penalized i o u amount tx ptx) log fresh fol h = ground arith
  Follows-Balanced (non_settlement_debited i o u amount ptx) log fresh fol h = h
  Follows-Balanced (driver_notified i o u kind) log fresh fol h = h

  IsTrail-Balanced : (log : List AuditKind) → All IsFresh log → IsTrail log → Balanced log
  unfolding Balanced return_count start_count last_status
  IsTrail-Balanced [] fresh trail = (omega arith, λ h. cc)
  IsTrail-Balanced (e ∷ log) fresh trail =
      Follows-Balanced e log fresh.0 trail.0 (IsTrail-Balanced log fresh.1 trail.1)

-- From an empty database, no sequence of calls of the store, with any faults, leaves more charges
-- of a proposal in the penalties table than the trail has entries of that proposal into execution.
pub charged_per_start :
    (id : ProposalId) {db : Db}
    → Reach empty db
    → charge_count id db.penalties ≤ start_count id db.audit
unfolding Charged Balanced charge_count return_count
charged_per_start id {db} r =
    let (charged, fresh) = Reach-Charged id {b = empty} (omega arith, tt) r in
    omega (arith, charged, (IsTrail-Balanced id db.audit fresh (Reach-Inv empty-Inv r).trail).0)
