-- ===== src/Infra/Storage/Trail.antt =====
-- The audit trail as a history (crates/byos/src/infra/storage.rs): what it says of a proposal's status, and
-- when an event may follow.
use byos_service.Prelude.{
  ℕ, ◌≤◌, ◌<◌, ◌≡◌, refl, inl, inr, Bool, true, false, Bool-cases, Option-cases, eq→==, ltb, ltb→lt,
  Option, none, some, List, [], ◌∷◌, All, arith, ◌==◌, if◌then◌else◌,
}
use byos_service.Domain.Proposal.{
  ProposalId, ProposalStatus, submitted, active, rejected, expired, executing, settled,
  settle_failed, penalized, sim_failed, cancelled, same_status→eq, same_status_refl,
}
use byos_service.Domain.Audit.{
  AuditKind, received, was_cancelled, status_changed, was_penalized, non_settlement_debited,
  driver_notified, proposal_id,
}
use byos_service.Infra.Storage.Rows.{Column, Row}
use byos_service.Infra.Storage.Db.{update_where, affects}
use byos_service.Infra.Storage.Ops.{is_at}

-- The transitions of the proposal lifecycle.
unfoldable pub legal : ProposalStatus → ProposalStatus → Bool
legal submitted active = true
legal submitted rejected = true
legal submitted sim_failed = true
legal submitted expired = true
legal submitted cancelled = true
legal active rejected = true
legal active sim_failed = true
legal active expired = true
legal active cancelled = true
legal active executing = true
legal active settled = true
legal active settle_failed = true
legal executing active = true
legal executing settled = true
legal executing settle_failed = true
legal settle_failed penalized = true
legal from to = false

-- The status that an event leaves its proposal in.
abbrev pub event_status : AuditKind → Option ProposalStatus
event_status (received p) = some p.status
event_status (was_cancelled id s u) = some cancelled
event_status (status_changed id s u from to reason tx) = some to
event_status (was_penalized id s u amount tx penalty_tx) = some penalized
event_status (non_settlement_debited id s u amount penalty_tx) = none
event_status (driver_notified id s u kind) = none

abbrev pub latest : Option ProposalStatus → Bool → Option ProposalStatus → Option ProposalStatus
latest none same older = older
latest (some s) true older = some s
latest (some s) false older = older

-- The status that the trail, the latest event first, leaves a proposal in.
unfoldable pub last_status : ProposalId → List AuditKind → Option ProposalStatus
unfolding proposal_id
last_status id [] = none
last_status id (e ∷ log) = latest (event_status e) (proposal_id e == id) (last_status id log)

-- The event moves its proposal along an edge of the lifecycle, from the status in which the older
-- events have left it; a received proposal has no older event.
abbrev pub Follows : AuditKind → List AuditKind → Type 0
Follows (received p) log = last_status p.id log ≡ none
Follows (was_cancelled id s u) log =
    (from : ProposalStatus) × (last_status id log ≡ some from) × (legal from cancelled ≡ true)
Follows (status_changed id s u from to reason tx) log =
    (last_status id log ≡ some from) × (legal from to ≡ true)
Follows (was_penalized id s u amount tx penalty_tx) log = last_status id log ≡ some settle_failed
Follows (non_settlement_debited id s u amount penalty_tx) log = Unit
Follows (driver_notified id s u kind) log = Unit

abbrev pub IsTrail : List AuditKind → Type 0
IsTrail [] = Unit
IsTrail (e ∷ log) = Follows e log × IsTrail log

-- Events that set a status are about ids below `n`.
abbrev pub Concerns : ℕ → Option ProposalStatus → ProposalId → Type 0
Concerns n none id = Unit
Concerns n (some s) id = id < n

unfoldable pub Below : ℕ → List AuditKind → Type 0
unfolding proposal_id
Below n [] = Unit
Below n (e ∷ log) = Concerns n (event_status e) (proposal_id e) × Below n log

-- What a readable status column must say.
abbrev pub Agrees : Column ProposalStatus → Option ProposalStatus → Type 0
Agrees none last = Unit
Agrees (some s) last = last ≡ some s

-- The row's status is the one that the trail records.
abbrev pub IsRecorded : List AuditKind → Row → Type 0
IsRecorded log r = Agrees r.status (last_status r.id log)

pub last_status-Below :
    (n k : ℕ) (log : List AuditKind) → Below n log → n ≤ k → last_status k log ≡ none
unfolding last_status Below
last_status-Below n k [] b h = refl
last_status-Below n k (received p ∷ log) b h = ground (arith, last_status-Below n k log b.1 h)
last_status-Below n k (_ ∷ log) b h = ground (arith, last_status-Below n k log b.1 h)

pub Below-mono : (m n : ℕ) (log : List AuditKind) → m ≤ n → Below m log → Below n log
unfolding Below
Below-mono m n [] h b = tt
Below-mono m n (received p ∷ log) h b = (omega arith, Below-mono m n log h b.1)
Below-mono m n (was_cancelled id s u ∷ log) h b = (omega arith, Below-mono m n log h b.1)
Below-mono m n (status_changed id s u from to reason tx ∷ log) h b =
    (omega arith, Below-mono m n log h b.1)
Below-mono m n (was_penalized id s u amount tx penalty_tx ∷ log) h b =
    (omega arith, Below-mono m n log h b.1)
Below-mono m n (non_settlement_debited id s u amount penalty_tx ∷ log) h b =
    (tt, Below-mono m n log h b.1)
Below-mono m n (driver_notified id s u kind ∷ log) h b = (tt, Below-mono m n log h b.1)

-- An event about an id that the trail knows stays below the same bound.
pub Below-known :
    (n : ℕ) (e : AuditKind) (log : List AuditKind) {from : ProposalStatus}
    → last_status (proposal_id e) log ≡ some from
    → Below n log
    → Below n (e ∷ log)
unfolding Below
Below-known n e log known b = (concerned (event_status e), b)
  where
    known_below : proposal_id e < n
    known_below = elim (Bool-cases (ltb (proposal_id e) n)) [
      | inl y ↦ ltb→lt (proposal_id e) n y
      | inr above ↦
          absurd (ground (arith, last_status-Below n (proposal_id e) log b (ground arith)))
    ]

    concerned : (o : Option ProposalStatus) → Concerns n o (proposal_id e)
    concerned none = tt
    concerned (some s) = known_below

pub last_status-other :
    (e : AuditKind) (log : List AuditKind) (id : ProposalId)
    → (proposal_id e == id) ≡ false
    → last_status id (e ∷ log) ≡ last_status id log
unfolding last_status
last_status-other e log id h = elim (Option-cases (event_status e)) [
  | inl q ↦ rw (q, latest)
  | inr (s, q) ↦ rw (q, h, latest)
]

pub last_status-quiet :
    (e : AuditKind) (log : List AuditKind) (id : ProposalId)
    → event_status e ≡ none
    → last_status id (e ∷ log) ≡ last_status id log
unfolding last_status
last_status-quiet e log id h = rw (h, latest)

pub last_status-same :
    (e : AuditKind) (log : List AuditKind) {id : ProposalId} {s : ProposalStatus}
    → proposal_id e ≡ id
    → event_status e ≡ some s
    → last_status id (e ∷ log) ≡ some s
unfolding last_status
last_status-same e log {id} p h = rw (h, eq→== (proposal_id e) id p, latest)

-- A row that an event is not about stays recorded, as does every row if it sets no status.
pub IsRecorded-other :
    (e : AuditKind) (log : List AuditKind) (r : Row)
    → (proposal_id e == r.id) ≡ false
    → IsRecorded log r
    → IsRecorded (e ∷ log) r
IsRecorded-other e log r h rec = rw (last_status-other e log r.id h) rec

pub All-IsRecorded-quiet :
    (e : AuditKind) (log : List AuditKind) (rows : List Row)
    → event_status e ≡ none
    → All (IsRecorded log) rows
    → All (IsRecorded (e ∷ log)) rows
All-IsRecorded-quiet e log [] h rec = tt
All-IsRecorded-quiet e log (r ∷ rows) h rec =
    (rw (last_status-quiet e log r.id h) rec.0, All-IsRecorded-quiet e log rows h rec.1)

-- What a matching row shows: its id and its status.
pub is_at-eq :
    (id : ProposalId) (from : ProposalStatus) (r : Row)
    → is_at id from r ≡ true
    → (r.id ≡ id) × (r.status ≡ some from)
is_at-eq id from r h = elim (Option-cases r.status) [
  | inl q ↦ ground arith
  | inr (s, q) ↦ ground (arith, same_status→eq s from)
]

-- A compare-and-swap that has touched a row proves what the trail says of the id.
pub affects-last_status :
    (id : ProposalId) (from : ProposalStatus) (log : List AuditKind) (rows : List Row)
    → affects (is_at id from) rows ≡ true
    → All (IsRecorded log) rows
    → last_status id log ≡ some from
unfolding affects
affects-last_status id from log [] h rec = cc
affects-last_status id from log (r ∷ rows) h rec = elim (Bool-cases (is_at id from r)) [
  | inl hit ↦ ground (arith, is_at-eq id from r)
  | inr miss ↦ affects-last_status id from log rows (ground arith) rec.1
]

-- The event `e` sets the status of the rows that match, all of its id; a row that does not match
-- is not about `e`, or has no readable status.
pub All-IsRecorded-update :
    (e : AuditKind) (to : ProposalStatus) (p : Row → Bool) (f : Row → Row) (log : List AuditKind)
    (rows : List Row)
    → event_status e ≡ some to
    → ((r : Row)
        → p r ≡ true
        → (proposal_id e ≡ r.id) × ((f r).id ≡ r.id) × ((f r).status ≡ some to))
    → ((r : Row) → p r ≡ false → IsRecorded log r → IsRecorded (e ∷ log) r)
    → All (IsRecorded log) rows
    → All (IsRecorded (e ∷ log)) (update_where p f rows)
unfolding update_where
All-IsRecorded-update e to p f log [] he hit miss rec = tt
All-IsRecorded-update e to p f log (r ∷ rows) he hit miss rec =
    (first, All-IsRecorded-update e to p f log rows he hit miss rec.1)
  where
    first : IsRecorded (e ∷ log) (if p r then f r else r)
    first = elim (Bool-cases (p r)) [
      | inl y ↦
          rw y (
            let (a, b, c) = hit r y in rw (b, c) (last_status-same e log {id = r.id} {s = to} a he))
      | inr n ↦ rw n (miss r n rec.0)
    ]

-- After a swap from `from`, a row of that id that did not match is unreadable.
pub IsRecorded-miss :
    (e : AuditKind) (from : ProposalStatus) (log : List AuditKind) (r : Row)
    → last_status (proposal_id e) log ≡ some from
    → is_at (proposal_id e) from r ≡ false
    → IsRecorded log r
    → IsRecorded (e ∷ log) r
IsRecorded-miss e from log r was miss rec = elim (Bool-cases (proposal_id e == r.id)) [
  | inr other ↦ IsRecorded-other e log r other rec
  | inl same ↦ elim (Option-cases r.status) [
    | inl q ↦ rw q tt
    | inr (s, q) ↦
        let last : last_status r.id log ≡ some s = rw q at rec in
        absurd (ground (arith, same_status_refl from))
  ]
]
