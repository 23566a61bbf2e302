-- ===== src/Infra/Storage/Snapshots.antt =====
-- Snapshots and the rows that they are read from (`decode_rows`, `snapshot_by_statuses` and
-- the owner-scoped lists of crates/byos/src/infra/storage.rs).
use byos_service.Prelude.{
  ◌≡◌, ◌↔◌, refl, inl, inr, Option-cases, Result-cases, true, some, ok, List, [], ◌∷◌, In, arith,
  In-filter_map, All, In-All, In-filter_by, filter_map-In, filter_by-In, subst, sym, filter_by,
  Bool, ◌&&◌,
}
use byos_service.Domain.Proposal.{
  Proposal, ProposalStatus, Address, OrderUid, active, submitted, is_live, same_status→eq,
  same_status_refl,
}
use byos_service.Infra.Storage.Rows.{Row, decode, status_is, column_is}
use byos_service.Infra.Storage.Db.{Db, Faults}
use byos_service.Infra.Storage.Decoding.{decode-eq-ok}
use byos_service.Infra.Storage.Queries.{
  decode_rows, to_option, select, status_in, snapshot_by_statuses, list_by_order_uid_for_owner,
}

pub In-decode_rows :
    (p : Proposal) (rows : List Row)
    → In p (decode_rows rows)
    → (row : Row) × In row rows × (decode row ≡ ok p)
unfolding decode_rows
In-decode_rows p rows i =
    let (row, j, e) = In-filter_map (λ row. to_option (decode row)) rows i in
    (
      row,
      j,
      elim (Result-cases (decode row)) [
        | inl (q, d) ↦ ground arith
        | inr (x, d) ↦ absurd (ground arith)
      ],
    )

status_in-one :
    (s : ProposalStatus) (row : Row) → status_in (s ∷ []) row ≡ true → row.status ≡ some s
status_in-one s row h = elim (Option-cases row.status) [
  | inl q ↦ absurd (ground arith)
  | inr (t, q) ↦ ground (arith, same_status→eq t s)
]

select-eq-ok :
    (f : Faults) (t : Row → Bool) (db : Db) {ps : List Proposal}
    → select f t db ≡ ok ps
    → decode_rows (filter_by t db.rows) ≡ ps
select-eq-ok f t db h = elim (Option-cases (f 0)) [
  | inl q ↦ ground arith
  | inr (e, q) ↦ absurd (ground arith)
]

pub In-select :
    (f : Faults) (t : Row → Bool) (db : Db) (ps : List Proposal)
    → select f t db ≡ ok ps
    → (p : Proposal) → In p ps
    → (row : Row) × In row db.rows × (t row ≡ true) × (decode row ≡ ok p)
In-select f t db ps h p i =
    let (row, j, d) =
      In-decode_rows p (filter_by t db.rows)
        (subst (λ qs. In p qs) (sym (select-eq-ok f t db h)) i) in
    let (k, hit) = In-filter_by t db.rows j in (row, k, hit, d)

select-In :
    (f : Faults) (t : Row → Bool) (db : Db) (ps : List Proposal)
    → select f t db ≡ ok ps
    → (p : Proposal) (row : Row) → In row db.rows
    → t row ≡ true
    → decode row ≡ ok p
    → In p ps
unfolding decode_rows
select-In f t db ps h p row i hit d =
    subst (λ qs. In p qs) (select-eq-ok f t db h)
      (filter_map-In (λ row. to_option (decode row)) (filter_by-In t i hit) (rw d refl))

snapshot_opened :
    (f : Faults) (ss : List ProposalStatus) (db : Db) {ps : List Proposal}
    → snapshot_by_statuses f ss db ≡ ok ps
    → select f (status_in ss) db ≡ ok ps
unfolding snapshot_by_statuses
snapshot_opened f ss db h = h

-- The proposals of a snapshot by one status have that status, and each is what one of the rows
-- says.
pub snapshot-rows :
    (f : Faults) (s : ProposalStatus) (db : Db) (ps : List Proposal)
    → snapshot_by_statuses f (s ∷ []) db ≡ ok ps
    → (p : Proposal) → In p ps
    → (row : Row) × In row db.rows × (decode row ≡ ok p) × (p.status ≡ s)
snapshot-rows f s db ps h p i =
    let (row, k, hit, d) =
      In-select f (status_in (s ∷ [])) db ps (snapshot_opened f (s ∷ []) db h) p i in
    (row, k, d, cc (status_in-one s row hit, (decode-eq-ok row p d).1))

abbrev shown : OrderUid → Address → Row → Bool
shown uid owner row =
    column_is row.order_uid uid && column_is row.sub_solver owner && status_is row.status active

owner_opened :
    (f : Faults) (uid : OrderUid) (owner : Address) (db : Db) {ps : List Proposal}
    → list_by_order_uid_for_owner f uid owner db ≡ ok ps
    → select f (shown uid owner) db ≡ ok ps
unfolding list_by_order_uid_for_owner
owner_opened f uid owner db h = h

shown_iff :
    (uid : OrderUid) (owner : Address) (row : Row) (p : Proposal)
    → row.status ≡ some p.status
    → row.sub_solver ≡ some p.sub_solver
    → row.order_uid ≡ some p.order_uid
    → (shown uid owner row ≡ true)
      ↔ ((p.sub_solver ≡ owner) × (p.order_uid ≡ uid) × (p.status ≡ active))
shown_iff uid owner row p b e g =
    ground (arith, same_status→eq p.status active, same_status_refl active)

-- If the owner-scoped list of an order answers, it holds exactly the proposals that a row of the
-- table decodes to and that are the owner's, on that order and active.
pub list_for_owner_iff :
    (f : Faults) (uid : OrderUid) (owner : Address) (db : Db) (ps : List Proposal)
    → list_by_order_uid_for_owner f uid owner db ≡ ok ps
    → (p : Proposal)
    → In p ps ↔ (
        (row : Row) × In row db.rows
        × (decode row ≡ ok p)
        × (p.sub_solver ≡ owner)
        × (p.order_uid ≡ uid)
        × (p.status ≡ active))
list_for_owner_iff f uid owner db ps h p = (
  λ i.
      let (row, k, hit, d) =
        In-select f (shown uid owner) db ps (owner_opened f uid owner db h) p i in
      let (a, b, c, e, g) = decode-eq-ok row p d in
      let (x, y, z) = (shown_iff uid owner row p b e g).0 hit in (row, k, d, x, y, z),
  λ (row, k, d, x, y, z).
      let (a, b, c, e, g) = decode-eq-ok row p d in
      select-In f (shown uid owner) db ps (owner_opened f uid owner db h) p row k
        ((shown_iff uid owner row p b e g).1 (x, y, z)) d,
)

live-status :
    (row : Row) (p : Proposal)
    → row.status ≡ some p.status
    → status_in (submitted ∷ active ∷ []) row ≡ true
    → is_live p.status ≡ true
unfolding is_live
live-status row p s hit =
    ground (arith, same_status→eq p.status submitted, same_status→eq p.status active)

-- The snapshot of the validation tick holds live proposals only.
pub snapshot-live :
    (f : Faults) (db : Db) (ps : List Proposal)
    → snapshot_by_statuses f (submitted ∷ active ∷ []) db ≡ ok ps
    → All (λ p. is_live p.status ≡ true) ps
snapshot-live f db ps h = In-All _ ps (λ p i.
    let (row, k, hit, d) =
      In-select f (status_in (submitted ∷ active ∷ [])) db ps
        (snapshot_opened f (submitted ∷ active ∷ []) db h) p i in
    live-status row p (decode-eq-ok row p d).1 hit)

-- It holds every live proposal that can be read.
pub snapshot-has :
    (f : Faults) (db : Db) (ps : List Proposal)
    → snapshot_by_statuses f (submitted ∷ active ∷ []) db ≡ ok ps
    → (row : Row) (p : Proposal) → In row db.rows
    → decode row ≡ ok p
    → status_in (submitted ∷ active ∷ []) row ≡ true
    → In p ps
snapshot-has f db ps h row p i d hit =
    select-In f (status_in (submitted ∷ active ∷ [])) db ps
      (snapshot_opened f (submitted ∷ active ∷ []) db h) p row i hit d

-- Each proposal in it is what one of the rows says.
pub snapshot-of :
    (f : Faults) (db : Db) (ps : List Proposal)
    → snapshot_by_statuses f (submitted ∷ active ∷ []) db ≡ ok ps
    → (p : Proposal) → In p ps
    → (row : Row) × In row db.rows × (decode row ≡ ok p)
snapshot-of f db ps h p i =
    let (row, k, hit, d) =
      In-select f (status_in (submitted ∷ active ∷ [])) db ps
        (snapshot_opened f (submitted ∷ active ∷ []) db h) p i in
    (row, k, d)
