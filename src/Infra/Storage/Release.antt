-- ===== src/Infra/Storage/Release.antt =====
-- The executing timeout: a bulk update whose events are sent one by one
-- (`release_stale_executing` of crates/byos/src/infra/storage.rs).
use byos_service.Prelude.{
  ℕ, suc, ◌<◌, ◌≡◌, ◌⊎◌, refl, inl, inr, Bool, true, false, Bool-cases, ne→==, Option-cases,
  Result-cases, none, some, List, [], ◌∷◌, All, arith, ok, subst, filter_by, ◌∙◌,
}
use byos_service.Domain.Proposal.{ProposalId, Address, OrderUid, active, executing, same_status→eq}
use byos_service.Domain.Audit.{AuditKind, status_changed, proposal_id}
use byos_service.Infra.Storage.Rows.{Row}
use byos_service.Infra.Storage.Db.{Db, Faults, update_where}
use byos_service.Infra.Storage.Outcomes.{
  is_stale_executing, parse_released, emit_all, release_stale_executing,
}
use byos_service.Infra.Storage.Trail.{
  last_status, last_status-other, last_status-same, legal, Below, Below-known, IsTrail, IsRecorded,
  IsRecorded-other,
}
use byos_service.Infra.Storage.Invariant.{Ids, HasEvidence, Inv, Ids-update, Ids-mono, All-update}
use byos_service.Infra.Storage.Effects.{swapped}

-- The event of one released row.
abbrev pub released : ProposalId → Address → OrderUid → AuditKind
released id owner uid = status_changed id owner uid executing active none none

-- The events of the rows that match, in order; all of them could be parsed.
data Released (p : Row → Bool) : List Row → List AuditKind → Type 0 where
  nil : Released p [] []
  hit :
      {rows : List Row} {es : List AuditKind} (r : Row) (owner : Address) (uid : OrderUid)
      → p r ≡ true
      → Released p rows es
      → Released p (r ∷ rows) (released r.id owner uid ∷ es)
  miss :
      {rows : List Row} {es : List AuditKind} (r : Row)
      → p r ≡ false
      → Released p rows es
      → Released p (r ∷ rows) es

pub parse_released_lem :
    (r : Row) (rows : List Row) (es : List AuditKind)
    → parse_released (r ∷ rows) ≡ ok es
    → (owner : Address) × (uid : OrderUid) × (rest : List AuditKind) × (parse_released rows
        ≡ ok rest)
      × (es ≡ released r.id owner uid ∷ rest)
unfolding parse_released
parse_released_lem r rows es h = elim (Option-cases r.sub_solver) [
  | inl q ↦ absurd (ground arith)
  | inr (owner, o) ↦ elim (Option-cases r.order_uid) [
    | inl q ↦ absurd (ground arith)
    | inr (uid, u) ↦ elim (Result-cases (parse_released rows)) [
      | inl (rest, q) ↦ (owner, uid, rest, q, ground arith)
      | inr (e, q) ↦ absurd (ground arith)
    ]
  ]
]

parse_released-Released :
    (p : Row → Bool) (rows : List Row) (es : List AuditKind)
    → parse_released (filter_by p rows) ≡ ok es
    → Released p rows es
unfolding parse_released
parse_released-Released p [] es h = let e : [] ≡ es = ground arith in subst (Released p []) e nil
parse_released-Released p (r ∷ rows) es h = elim (Bool-cases (p r)) [
  | inl y ↦
      let (owner, uid, rest, q, e) = parse_released_lem r (filter_by p rows) es (rw y at h) in
      rw e (hit r owner uid y (parse_released-Released p rows rest q))
  | inr n ↦ miss r n (parse_released-Released p rows es (rw n at h))
]

pub release_effect :
    (f : Faults) (older_than : ℕ) (db : Db)
    → ((release_stale_executing f older_than db).1 ≡ db)
      ⊎ ((es : List AuditKind) × (parse_released
              (filter_by (is_stale_executing older_than db.clock) db.rows)
            ≡ ok es)
          × ((release_stale_executing f older_than db).1 ≡ record db {
            rows =
                update_where
                  (is_stale_executing older_than db.clock)
                  (swapped active db.clock)
                  db.rows;
            audit = emit_all es db.audit;
          }))
unfolding release_stale_executing
release_effect f older_than db =
    elim (Result-cases
      (parse_released (filter_by (is_stale_executing older_than db.clock) db.rows))) [
        | inr (e, q) ↦ inl (ground arith)
        | inl (es, q) ↦ elim (release_found es q) [
          | inl same ↦ inl same
          | inr after ↦ inr (es, q, after)
        ]
      ]
  where
    release_found :
        (es : List AuditKind)
        → parse_released (filter_by (is_stale_executing older_than db.clock) db.rows) ≡ ok es
        → ((release_stale_executing f older_than db).1 ≡ db)
          ⊎ ((release_stale_executing f older_than db).1 ≡ record db {
            rows =
                update_where
                  (is_stale_executing older_than db.clock)
                  (swapped active db.clock)
                  db.rows;
            audit = emit_all es db.audit;
          })
    release_found es q = ground arith

-- What sending the events of a part of the table leaves, the older trail being `log`.
record After (p : Row → Bool) (g : Row → Row) (lo hi : ℕ) (rows : List Row)
    (log sent : List AuditKind) : Type 0 where
  recorded : All (IsRecorded sent) (update_where p g rows)
  trail : IsTrail sent
  below : Below hi sent
  older : (k : ℕ) → k < lo → last_status k sent ≡ last_status k log

All-IsRecorded-earlier :
    (e : AuditKind) (log : List AuditKind) (hi : ℕ) (rows : List Row)
    → Ids (suc (proposal_id e)) hi rows
    → All (IsRecorded log) rows
    → All (IsRecorded (e ∷ log)) rows
All-IsRecorded-earlier e log hi [] ids rec = tt
All-IsRecorded-earlier e log hi (r ∷ rows) ids rec = (
  IsRecorded-other e log r (ne→== (proposal_id e) r.id (omega arith)) rec.0,
  All-IsRecorded-earlier e log hi rows (Ids-mono _ (suc r.id) hi rows (omega arith) ids.1) rec.1,
)

release_rows :
    (p : Row → Bool) (now lo hi : ℕ) {rows : List Row} {es : List AuditKind} (log : List AuditKind)
    → ((r : Row) → p r ≡ true → r.status ≡ some executing)
    → Released p rows es
    → Ids lo hi rows
    → All (IsRecorded log) rows
    → IsTrail log
    → Below hi log
    → After p (swapped active now) lo hi rows log (emit_all es log)
unfolding update_where proposal_id legal
release_rows p now lo hi log in_flight nil ids rec trail below = record {
  recorded = tt;
  trail = trail;
  below = below;
  older = λ k h. refl;
}
release_rows p now lo hi log in_flight (miss {rows = rows} {es = es} r n d) ids rec trail below =
    let rest = release_rows p now (suc r.id) hi log in_flight d ids.1 rec.1 trail below in
    record {
      recorded = rw n (rw (rest.older r.id (omega arith)) rec.0, rest.recorded);
      trail = rest.trail;
      below = rest.below;
      older = λ k h. rest.older k (omega arith);
    }
release_rows p now lo hi log in_flight (hit {rows = rows} {es = es} r owner uid y d) ids rec trail
      below =
    let e : AuditKind = released r.id owner uid in
    let was : last_status r.id log ≡ some executing = rw (in_flight r y) at rec.0 in
    let rest =
      release_rows p now (suc r.id) hi (e ∷ log) in_flight d ids.1
        (All-IsRecorded-earlier e log hi rows ids.1 rec.1) ((was, refl), trail)
        (Below-known hi e log was below) in
    record {
      recorded =
          rw y (rest.older r.id (omega arith) ∙ last_status-same e log refl refl, rest.recorded);
      trail = rest.trail;
      below = rest.below;
      older = λ k h.
          rest.older k (omega arith) ∙ last_status-other e log k (ne→== r.id k (omega arith));
    }

in_flight_of_stale :
    (older_than now : ℕ) (r : Row)
    → is_stale_executing older_than now r ≡ true
    → r.status ≡ some executing
in_flight_of_stale older_than now r h = elim (Option-cases r.status) [
  | inl q ↦ absurd (ground arith)
  | inr (s, q) ↦ ground (arith, same_status→eq s executing)
]

-- The rows that the timeout releases are active again, each with its own event.
pub release-Inv :
    (f : Faults) (older_than : ℕ) (db : Db)
    → Inv db
    → Inv (release_stale_executing f older_than db).1
release-Inv f older_than db v = elim (release_effect f older_than db) [
  | inl same ↦ rw same v
  | inr (es, parsed, after) ↦
      let stale = is_stale_executing older_than db.clock in
      let sent =
        release_rows stale db.clock 0 db.next_id db.audit (in_flight_of_stale older_than db.clock)
          (parse_released-Released stale db.rows es parsed) v.ids v.recorded v.trail v.below in
      rw after (record {
        ids = Ids-update 0 db.next_id stale (swapped active db.clock) db.rows (λ r. refl) v.ids;
        below = sent.below;
        trail = sent.trail;
        recorded = sent.recorded;
        evidence =
            All-update HasEvidence stale (swapped active db.clock) db.rows (λ r y c. tt) v.evidence;
      })
]
