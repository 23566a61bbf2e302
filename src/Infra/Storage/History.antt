-- ===== src/Infra/Storage/History.antt =====
-- The audit trail over further calls of the store (crates/byos/src/infra/storage.rs): its growth, the
-- statuses that no transition leaves, and the debits of a reverted settlement.
use byos_service.Prelude.{
  ℕ, suc, ◌≤◌, ◌≡◌, ◌⊎◌, refl, inl, inr, Bool, true, false, Bool-cases, Option-cases, some, List,
  [], ◌∷◌, arith, ◌==◌, if◌then◌else◌, ==→eq,
}
use byos_service.Domain.Proposal.{
  ProposalId, ProposalStatus, submitted, rejected, expired, settled, penalized, sim_failed,
  cancelled, same_status,
}
use byos_service.Domain.Audit.{
  AuditKind, received, was_cancelled, status_changed, was_penalized, non_settlement_debited,
  driver_notified,
}
use byos_service.Infra.Storage.Db.{Db, empty}
use byos_service.Infra.Storage.Ops.{verdict_status}
use byos_service.Infra.Storage.Outcomes.{emit_all, note_driver_notification, is_abandoned}
use byos_service.Infra.Storage.Queues.{sweep_dropped, record_non_settlement_debit}
use byos_service.Infra.Storage.Trail.{IsTrail, Follows, last_status, legal}
use byos_service.Infra.Storage.Invariant.{Inv, empty-Inv}
use byos_service.Infra.Storage.Effects.{
  transition_effect, record_penalty_effect, cancel_effect, resolve_verdict_effect, outcome_effect,
}
use byos_service.Infra.Storage.Bulk.{insert_effect}
use byos_service.Infra.Storage.Release.{release_effect}
use byos_service.Infra.Storage.Lifecycle.{
  Step, submits, expires, resolves, cancels, reports, notes, releases, sweeps, penalizes, debits,
  bids, passes, Reach, here, next, bid_effect, Reach-Inv,
}

-- The trail only grows: what was sent stays, below what is sent later.
pub data Grows (log : List AuditKind) : List AuditKind → Type 0 where
  same : Grows log log
  sent : {more : List AuditKind} (e : AuditKind) → Grows log more → Grows log (e ∷ more)

Grows-emit_all :
    (es : List AuditKind) {log more : List AuditKind}
    → Grows log more
    → Grows log (emit_all es more)
Grows-emit_all [] g = g
Grows-emit_all (e ∷ es) g = Grows-emit_all es (sent e g)

-- No call of the store takes back or rewrites an event.
pub Step-Grows : {b c : Db} → Step b c → Grows b.audit c.audit
Step-Grows (submits f p db new) = elim (insert_effect f p db) [
  | inl eq ↦ rw eq same
  | inr eq ↦ rw eq (sent _ same)
]
Step-Grows (expires f p db live) = elim (transition_effect f p expired db) [
  | inl eq ↦ rw eq same
  | inr (hit, eq) ↦ rw eq (sent _ same)
]
Step-Grows (resolves f id v db) = elim (resolve_verdict_effect f id v db) [
  | inl eq ↦ rw eq same
  | inr (row, from, owner, uid, found, s, live, eq) ↦
      elim (Bool-cases (same_status from (verdict_status v))) [
        | inl y ↦ rw (eq, y) same
        | inr n ↦ rw (eq, n) (sent _ same)
      ]
]
Step-Grows (cancels f id owner db) = elim (cancel_effect f id owner db) [
  | inl eq ↦ rw eq same
  | inr (row, from, uid, found, s, live, eq) ↦ rw eq (sent _ same)
]
Step-Grows (reports f p o db) = elim (outcome_effect f p o db) [
  | inl eq ↦ rw eq same
  | inr (row, from, to, found, s, t, eq) ↦ elim (Bool-cases (is_abandoned o)) [
    | inl y ↦ rw (eq, y) (sent _ same)
    | inr n ↦ rw (eq, n) (sent _ same)
  ]
]
Step-Grows (notes p kind db) = unfold note_driver_notification in (sent _ same)
Step-Grows (releases f older_than db) = elim (release_effect f older_than db) [
  | inl eq ↦ rw eq same
  | inr (es, parsed, eq) ↦ rw eq (Grows-emit_all es same)
]
Step-Grows (sweeps f older_than db) = elim (Option-cases (f 0)) [
  | inl fine ↦ unfold sweep_dropped in (rw fine same)
  | inr (e, fault) ↦ unfold sweep_dropped in (rw fault same)
]
Step-Grows (penalizes f p amount tx db failed) = elim (record_penalty_effect f p amount tx db) [
  | inl eq ↦ rw eq same
  | inr (hit, eq) ↦ rw eq (sent _ same)
]
Step-Grows (debits f q amount tx db) = elim (Option-cases (f 0)) [
  | inl fine ↦ unfold record_non_settlement_debit in (rw fine (sent _ same))
  | inr (e, fault) ↦ unfold record_non_settlement_debit in (rw fault same)
]
Step-Grows (bids f a s id db) = elim (bid_effect f a s id db) [
  | inl eq ↦ rw eq same
  | inr eq ↦ rw eq same
]
Step-Grows (passes seconds db) = same

-- The statuses that no transition leaves.
unfoldable pub is_final : ProposalStatus → Bool
is_final rejected = true
is_final expired = true
is_final settled = true
is_final penalized = true
is_final sim_failed = true
is_final cancelled = true
is_final s = false

final-legal : (s t : ProposalStatus) → is_final s ≡ true → legal s t ≡ false
unfolding is_final legal
final-legal submitted t h = cc
final-legal rejected t h = refl
final-legal expired t h = refl
final-legal settled t h = refl
final-legal penalized t h = refl
final-legal sim_failed t h = refl
final-legal cancelled t h = refl
final-legal _ t h = cc

-- No event that may follow touches a proposal in a final status.
final-Follows :
    (e : AuditKind) (log : List AuditKind) (id : ProposalId) {s : ProposalStatus}
    → Follows e log
    → last_status id log ≡ some s
    → is_final s ≡ true
    → last_status id (e ∷ log) ≡ some s
unfolding last_status is_final
final-Follows (received p) log id {s} fol was fin = ground arith
final-Follows (was_cancelled i o u) log id {s} fol was fin =
    ground (arith, final-legal s cancelled fin)
final-Follows (status_changed i o u from to reason tx) log id {s} fol was fin =
    ground (arith, final-legal s to fin)
final-Follows (was_penalized i o u amount tx ptx) log id {s} fol was fin =
    ground (arith, final-legal s penalized fin)
final-Follows (non_settlement_debited i o u amount ptx) log id {s} fol was fin = was
final-Follows (driver_notified i o u kind) log id {s} fol was fin = was

final-Grows :
    (id : ProposalId) {log more : List AuditKind} {s : ProposalStatus}
    → Grows log more
    → IsTrail more
    → last_status id log ≡ some s
    → is_final s ≡ true
    → last_status id more ≡ some s
final-Grows id same trail was fin = was
final-Grows id (sent {more = more} e g) trail was fin =
    final-Follows e more id trail.0 (final-Grows id g trail.1 was fin) fin

Grows-trans : {a b c : List AuditKind} → Grows a b → Grows b c → Grows a c
Grows-trans g same = g
Grows-trans g (sent e h) = sent e (Grows-trans g h)

-- Over any further calls of the store, in any order and with any faults, every event that was sent
-- stays in the trail, below those that are sent later.
pub Reach-Grows : {a b : Db} → Reach a b → Grows a.audit b.audit
Reach-Grows here = same
Reach-Grows (next r s) = Grows-trans (Reach-Grows r) (Step-Grows s)

-- From a database that satisfies the invariant, a proposal that the trail shows in a status which
-- no transition leaves keeps that status over any further calls of the store, in any order and
-- with any faults.
pub Reach-final :
    (id : ProposalId) {a b : Db} {s : ProposalStatus}
    → Inv a
    → Reach a b
    → last_status id a.audit ≡ some s
    → is_final s ≡ true
    → last_status id b.audit ≡ some s
Reach-final id v r was fin = final-Grows id (Reach-Grows r) (Reach-Inv v r).trail was fin

-- Whether an event records a Track A debit of a reverted settlement of the proposal.
abbrev pub is_penalty_of : ProposalId → AuditKind → Bool
is_penalty_of id (was_penalized i o u amount tx ptx) = i == id
is_penalty_of id _ = false

unfoldable pub penalty_count : ProposalId → List AuditKind → ℕ
penalty_count id [] = 0
penalty_count id (e ∷ log) =
    if is_penalty_of id e then suc (penalty_count id log) else penalty_count id log

-- No debit so far, or one, after which the proposal is penalized.
Penalties : ProposalId → List AuditKind → Type 0
Penalties id log =
    (penalty_count id log ≡ 0)
    ⊎ ((penalty_count id log ≡ 1) × (last_status id log ≡ some penalized))

stays_penalized :
    (e : AuditKind) (log : List AuditKind) (id : ProposalId)
    → Follows e log
    → last_status id log ≡ some penalized
    → last_status id (e ∷ log) ≡ some penalized
unfolding is_final
stays_penalized e log id fol was = final-Follows e log id {s = penalized} fol was refl

Penalties-Follows :
    (e : AuditKind) (log : List AuditKind) (id : ProposalId)
    → Follows e log
    → Penalties id log
    → Penalties id (e ∷ log)
unfolding penalty_count Penalties last_status
Penalties-Follows (was_penalized i o u amount tx ptx) log id fol h = elim (Bool-cases (i == id)) [
  | inl eq ↦ ground (arith, ==→eq i id eq)
  | inr other ↦ ground arith
]
Penalties-Follows (non_settlement_debited i o u amount ptx) log id fol h = h
Penalties-Follows (driver_notified i o u kind) log id fol h = h
Penalties-Follows e log id fol h = elim h [
  | inl clean ↦ inl (ground arith)
  | inr (one, was) ↦ inr (ground arith, stays_penalized e log id fol was)
]

IsTrail-Penalties : (id : ProposalId) (log : List AuditKind) → IsTrail log → Penalties id log
unfolding Penalties penalty_count
IsTrail-Penalties id [] trail = inl refl
IsTrail-Penalties id (e ∷ log) trail =
    Penalties-Follows e log id trail.0 (IsTrail-Penalties id log trail.1)

-- From an empty database, no order of calls of the store records two debits for the reverted
-- settlement of one proposal.
pub penalized_once : (id : ProposalId) {db : Db} → Reach empty db → penalty_count id db.audit ≤ 1
unfolding Penalties
penalized_once id {db} r =
    ground (arith, IsTrail-Penalties id db.audit (Reach-Inv empty-Inv r).trail)
