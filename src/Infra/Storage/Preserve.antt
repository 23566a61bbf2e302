-- ===== src/Infra/Storage/Preserve.antt =====
-- The invariant under the writes to one proposal (crates/byos/src/infra/storage.rs).
use byos_service.Prelude.{
  ℕ, ◌≡◌, refl, sym, ap, ◌∙◌, inl, inr, true, false, Bool-cases, ==→eq, none, some, arith,
}
use byos_service.Domain.Validator.{Verdict, accept, reject, sim_failed}
use byos_service.Domain.Proposal.{
  ProposalId, ProposalStatus, B256, U256, Address, OrderUid, submitted, active, expired,
  settle_failed, penalized, cancelled, Proposal, is_live, same_status, same_status→eq,
}
use byos_service.Domain.Audit.{AuditKind, was_cancelled, status_changed, was_penalized, proposal_id}
use byos_service.Infra.Storage.Rows.{Row}
use byos_service.Infra.Storage.Db.{Db, Faults, emit, update_where, find_row, affects}
use byos_service.Infra.Storage.Ops.{
  has_id, is_at, transition, record_penalty, resolve_verdict, verdict_status, verdict_reason,
  apply_verdict, cancel,
}
use byos_service.Infra.Storage.Trail.{
  IsRecorded, last_status, legal, event_status, IsRecorded-other, is_at-eq, affects-last_status,
  All-IsRecorded-update, IsRecorded-miss, Follows, Below-known,
}
use byos_service.Infra.Storage.Invariant.{
  Cites, HasEvidence, Inv, Ids-update, All-update, All-find_row,
}
use byos_service.Infra.Storage.Effects.{
  swapped, debited, transition_effect, record_penalty_effect, cancel_effect, after_verdict,
  resolve_verdict_effect,
}

-- The event `e` moves the rows of its id from `from` to `to`, as a swap on the status does.
swap-Inv :
    (e : AuditKind) (from to : ProposalStatus) (g : Row → Row) (db : Db)
    → event_status e ≡ some to
    → affects (is_at (proposal_id e) from) db.rows ≡ true
    → ((r : Row) → (g r).id ≡ r.id)
    → ((r : Row) → (g r).status ≡ some to)
    → ((r : Row) → is_at (proposal_id e) from r ≡ true → HasEvidence r → HasEvidence (g r))
    → Follows e db.audit
    → Inv db
    → Inv (emit e (record db { rows = update_where (is_at (proposal_id e) from) g db.rows }))
swap-Inv e from to g db he hit keep_id set cited follows v = record {
  ids = Ids-update 0 db.next_id _ g db.rows keep_id v.ids;
  below = Below-known db.next_id e db.audit was v.below;
  trail = (follows, v.trail);
  recorded =
      All-IsRecorded-update e to (is_at (proposal_id e) from) g db.audit db.rows he
        (λ r y. (sym (is_at-eq (proposal_id e) from r y).0, keep_id r, set r))
        (λ r n rec. IsRecorded-miss e from db.audit r was n rec) v.recorded;
  evidence = All-update HasEvidence (is_at (proposal_id e) from) g db.rows cited v.evidence;
}
  where
    was : last_status (proposal_id e) db.audit ≡ some from
    was = affects-last_status (proposal_id e) from db.audit db.rows hit v.recorded

-- The same where all rows of the id are updated, one of which was found.
pub found-Inv :
    (e : AuditKind) (from to : ProposalStatus) (g : Row → Row) (db : Db)
    → event_status e ≡ some to
    → last_status (proposal_id e) db.audit ≡ some from
    → ((r : Row) → (g r).id ≡ r.id)
    → ((r : Row) → (g r).status ≡ some to)
    → ((r : Row) → has_id (proposal_id e) r ≡ true → HasEvidence r → HasEvidence (g r))
    → Follows e db.audit
    → Inv db
    → Inv (emit e (record db { rows = update_where (has_id (proposal_id e)) g db.rows }))
found-Inv e from to g db he was keep_id set cited follows v = record {
  ids = Ids-update 0 db.next_id _ g db.rows keep_id v.ids;
  below = Below-known db.next_id e db.audit was v.below;
  trail = (follows, v.trail);
  recorded =
      All-IsRecorded-update e to (has_id (proposal_id e)) g db.audit db.rows he
        (λ r y. (ground arith, keep_id r, set r))
        (λ r n rec. IsRecorded-other e db.audit r (ground arith) rec) v.recorded;
  evidence = All-update HasEvidence (has_id (proposal_id e)) g db.rows cited v.evidence;
}

-- What the trail says of a row that was found.
pub found-last_status :
    (id : ProposalId) (db : Db) (row : Row) {from : ProposalStatus}
    → find_row id db.rows ≡ some row
    → row.status ≡ some from
    → Inv db
    → last_status id db.audit ≡ some from
found-last_status id db row {from} found s v =
    let (rec, same) = All-find_row (IsRecorded db.audit) id db.rows found v.recorded in
    let last : last_status row.id db.audit ≡ some from = rw s at rec in rw (← same) last

legal_of_live :
    (from : ProposalStatus)
    → is_live from ≡ true
    → (legal from expired ≡ true) × (legal from cancelled ≡ true)
unfolding is_live legal
legal_of_live submitted h = (refl, refl)
legal_of_live active h = (refl, refl)
legal_of_live _ h = cc

-- The expiry sweep: a swap from a live status to `expired`.
pub expire-Inv :
    (f : Faults) (p : Proposal) (db : Db)
    → is_live p.status ≡ true
    → Inv db
    → Inv (transition f p expired db).1
unfolding proposal_id
expire-Inv f p db live v = elim (transition_effect f p expired db) [
  | inl same ↦ rw same v
  | inr (hit, after) ↦ rw after (
      swap-Inv (status_changed p.id p.sub_solver p.order_uid p.status expired none none) p.status
        expired (swapped expired db.clock) db refl hit (λ r. refl) (λ r. refl) (λ r y c. tt)
        (
          affects-last_status p.id p.status db.audit db.rows hit v.recorded,
          (legal_of_live p.status live).0,
        )
        v)
]

-- A landed debit: a swap from `settle_failed` to `penalized`.
pub record_penalty-Inv :
    (f : Faults) (p : Proposal) (amount : U256) (tx : B256) (db : Db)
    → p.status ≡ settle_failed
    → Inv db
    → Inv (record_penalty f p amount tx db).1
unfolding proposal_id
record_penalty-Inv f p amount tx db failed v = elim (record_penalty_effect f p amount tx db) [
  | inl same ↦ rw same v
  | inr (hit, after) ↦ rw after (
      swap-Inv (was_penalized p.id p.sub_solver p.order_uid amount p.settlement_tx_hash tx) p.status
        penalized (debited tx db.clock) db refl hit (λ r. refl) (λ r. refl)
        (λ r y c.
          let failed_row : r.status ≡ some settle_failed =
            (is_at-eq p.id p.status r y).1 ∙ ap some failed in
          let cites : Cites (some settle_failed) r.settlement_tx_hash r.penalty_tx_hash =
            rw failed_row at c in
          (cites, (tx, refl)))
        (rw (← failed) (affects-last_status p.id p.status db.audit db.rows hit v.recorded)) v)
]

pub cancel-Inv :
    (f : Faults) (id : ProposalId) (owner : Address) (db : Db)
    → Inv db
    → Inv (cancel f id owner db).1
unfolding proposal_id
cancel-Inv f id owner db v = elim (cancel_effect f id owner db) [
  | inl same ↦ rw same v
  | inr (row, from, uid, found, s, live, after) ↦
      let was : last_status id db.audit ≡ some from = found-last_status id db row found s v in
      rw after (
        found-Inv (was_cancelled id owner uid) from cancelled (swapped cancelled db.clock) db refl
          was (λ r. refl) (λ r. refl) (λ r y c. tt) (from, was, (legal_of_live from live).1) v)
]

-- The rows of an id are written again in the status that the trail records.
rewrite-Inv :
    (id : ProposalId) (s : ProposalStatus) (g : Row → Row) (db : Db)
    → last_status id db.audit ≡ some s
    → ((r : Row) → (g r).id ≡ r.id)
    → ((r : Row) → (g r).status ≡ some s)
    → ((r : Row) → HasEvidence (g r))
    → Inv db
    → Inv (record db { rows = update_where (has_id id) g db.rows })
rewrite-Inv id s g db was keep_id set cited v = record {
  ids = Ids-update 0 db.next_id _ g db.rows keep_id v.ids;
  below = v.below;
  trail = v.trail;
  recorded =
      All-update (IsRecorded db.audit) (has_id id) g db.rows
        (λ r y rec. rw (set r, keep_id r, ==→eq r.id id y) was) v.recorded;
  evidence = All-update HasEvidence (has_id id) g db.rows (λ r y c. cited r) v.evidence;
}

verdict_cites : (v : Verdict) (now : ℕ) (r : Row) → HasEvidence (apply_verdict v now r)
unfolding apply_verdict
verdict_cites (accept sim) now r = tt
verdict_cites (reject reason) now r = tt
verdict_cites sim_failed now r = tt

legal_verdict :
    (from : ProposalStatus) (v : Verdict)
    → is_live from ≡ true
    → same_status from (verdict_status v) ≡ false
    → legal from (verdict_status v) ≡ true
unfolding is_live legal same_status
legal_verdict submitted (accept sim) live d = refl
legal_verdict submitted (reject reason) live d = refl
legal_verdict submitted sim_failed live d = refl
legal_verdict active (accept sim) live d = cc
legal_verdict active (reject reason) live d = refl
legal_verdict active sim_failed live d = refl
legal_verdict _ v live d = cc

apply_verdict_id : (v : Verdict) (now : ℕ) (r : Row) → (apply_verdict v now r).id ≡ r.id
unfolding apply_verdict
apply_verdict_id v now r = refl

apply_verdict_status :
    (v : Verdict) (now : ℕ) (r : Row) → (apply_verdict v now r).status ≡ some (verdict_status v)
unfolding apply_verdict
apply_verdict_status v now r = refl

after_verdict-Inv :
    (id : ProposalId) (owner : Address) (uid : OrderUid) (from : ProposalStatus) (w : Verdict)
    (db : Db)
    → last_status id db.audit ≡ some from
    → is_live from ≡ true
    → Inv db
    → Inv (after_verdict id owner uid from w db)
unfolding proposal_id
after_verdict-Inv id owner uid from w db was live v =
    elim (Bool-cases (same_status from (verdict_status w))) [
      | inl same ↦
          let kept : last_status id db.audit ≡ some (verdict_status w) =
            was ∙ ap some (same_status→eq from (verdict_status w) same) in
          rw same (
            rewrite-Inv id (verdict_status w) (apply_verdict w db.clock) db kept
              (apply_verdict_id w db.clock) (apply_verdict_status w db.clock)
              (verdict_cites w db.clock) v)
      | inr moved ↦ rw moved (
          found-Inv (status_changed id owner uid from (verdict_status w) (verdict_reason w) none)
            from (verdict_status w) (apply_verdict w db.clock) db refl was
            (apply_verdict_id w db.clock) (apply_verdict_status w db.clock)
            (λ r y c. verdict_cites w db.clock r) (was, legal_verdict from w live moved) v)
    ]

pub resolve_verdict-Inv :
    (f : Faults) (id : ProposalId) (w : Verdict) (db : Db)
    → Inv db
    → Inv (resolve_verdict f id w db).1
resolve_verdict-Inv f id w db v = elim (resolve_verdict_effect f id w db) [
  | inl same ↦ rw same v
  | inr (row, from, owner, uid, found, s, live, after) ↦
      rw after
        (after_verdict-Inv id owner uid from w db (found-last_status id db row found s v) live v)
]
