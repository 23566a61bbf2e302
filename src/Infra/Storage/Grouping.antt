-- ===== src/Infra/Storage/Grouping.antt =====
-- The batched lookup of `/solve` beside the lookup of one order
-- (`active_by_order_uids` and `list_by_order_uid` of crates/byos/src/infra/storage.rs).
use byos_service.Prelude.{
  ◌≡◌, refl, inl, inr, Bool-cases, Result-cases, Bool, true, false, ◌&&◌, none, some, unwrap_or, ok,
  err, List, [], ◌∷◌, ◌++◌, In, here, there, arith, ◌==◌, if◌then◌else◌, filter_by, sym, subst, ap,
  ◌∙◌,
}
use mathlib.Core.List.{append_assoc, append-nil}
use byos_service.Domain.Proposal.{OrderUid, Proposal, active}
use byos_service.Infra.Storage.Rows.{Row, StoreError, decode, column_is, status_is}
use byos_service.Infra.Storage.Db.{Db, healthy}
use byos_service.Infra.Storage.Queries.{
  Groups, push_group, get_group, group_rows, active_by_order_uids, list_by_order_uid, uid_in,
  decode_rows, to_option,
}
use byos_service.Infra.Storage.Decoding.{decode-eq-ok}

-- The group, which is empty when it is missing.
abbrev pub group : OrderUid → Groups → List Proposal
group uid gs = unwrap_or (get_group uid gs) []

group-push :
    (uid u : OrderUid) (p : Proposal) (gs : Groups)
    → group uid (push_group u p gs) ≡ (if u == uid then group uid gs ++ (p ∷ []) else group uid gs)
unfolding push_group get_group
group-push uid u p [] = elim (Bool-cases (u == uid)) [ inl y ↦ rw y refl | inr n ↦ rw n refl ]
group-push uid u p ((v, ps) ∷ gs) = elim (Bool-cases (v == u)) [
  | inl y ↦ elim (Bool-cases (v == uid)) [
    | inl z ↦ let e : (u == uid) ≡ true = ground arith in rw (y, e, z, unwrap_or) refl
    | inr z ↦ let e : (u == uid) ≡ false = ground arith in rw (y, e, z) refl
  ]
  | inr n ↦ elim (Bool-cases (v == uid)) [
    | inl z ↦ let e : (u == uid) ≡ false = ground arith in rw (n, z, e) refl
    | inr z ↦ rw (n, z) (group-push uid u p gs)
  ]
]

-- The row's proposal, if it can be read and is about the order.
abbrev of_order : OrderUid → Row → List Proposal
of_order uid row = elim (decode row) [
  | ok p ↦ if p.order_uid == uid then p ∷ [] else []
  | err e ↦ []
]

abbrev all_of_order : OrderUid → List Row → List Proposal
all_of_order uid [] = []
all_of_order uid (row ∷ rows) = of_order uid row ++ all_of_order uid rows

group-group_rows :
    (uid : OrderUid) (rows : List Row) (gs : Groups)
    → group uid (group_rows rows gs) ≡ group uid gs ++ all_of_order uid rows
unfolding group_rows
group-group_rows uid [] gs = sym (append-nil _)
group-group_rows uid (row ∷ rows) gs = elim (Result-cases (decode row)) [
  | inr (e, q) ↦ rw (q, group_rows, all_of_order, of_order) (group-group_rows uid rows gs)
  | inl (p, q) ↦
      let ih = group-group_rows uid rows (push_group p.order_uid p gs) in
      elim (Bool-cases (p.order_uid == uid)) [
        | inl y ↦
            rw (q, y, group_rows, all_of_order, of_order)
              (ih
                ∙ (rw (group-push uid p.order_uid p gs, y)
                    (append_assoc (group uid gs) (p ∷ []) (all_of_order uid rows))))
        | inr n ↦
            rw (q, n, group_rows, all_of_order, of_order)
              (ih ∙ (rw (group-push uid p.order_uid p gs, n) refl))
      ]
]

uid_in-In :
    (uid : OrderUid) (row : Row) {uids : List OrderUid}
    → In uid uids
    → column_is row.order_uid uid ≡ true
    → uid_in uids row ≡ true
uid_in-In uid row (here e) h = rw (e, h) refl
uid_in-In uid row (there {x = u} i) h = ground (arith, uid_in-In uid row i h)

abbrev batched : List OrderUid → Row → Bool
batched uids row = uid_in uids row && status_is row.status active

abbrev single : OrderUid → Row → Bool
single uid row = column_is row.order_uid uid && status_is row.status active

-- A row of the batched query that the single query leaves out is not about the order.
of_order-other :
    (uid : OrderUid) (uids : List OrderUid) (row : Row)
    → batched uids row ≡ true
    → single uid row ≡ false
    → of_order uid row ≡ []
of_order-other uid uids row b s = elim (Result-cases (decode row)) [
  | inr (e, q) ↦ rw (q, of_order) refl
  | inl (p, q) ↦
      let (i, st, v, o, u) = decode-eq-ok row p q in
      let other : (p.order_uid == uid) ≡ false = ground arith in rw (q, other, of_order) refl
]

decode_rows-ok :
    (row : Row) (rows : List Row) (p : Proposal)
    → decode row ≡ ok p
    → decode_rows (row ∷ rows) ≡ p ∷ decode_rows rows
unfolding decode_rows
decode_rows-ok row rows p q =
    subst
      (λ r.
        elim (to_option r) [ none ↦ decode_rows rows | some y ↦ y ∷ decode_rows rows ]
        ≡ p ∷ decode_rows rows)
      (sym q) refl

decode_rows-err :
    (row : Row) (rows : List Row) {e : StoreError}
    → decode row ≡ err e
    → decode_rows (row ∷ rows) ≡ decode_rows rows
unfolding decode_rows
decode_rows-err row rows q =
    subst
      (λ r.
        elim (to_option r) [ none ↦ decode_rows rows | some y ↦ y ∷ decode_rows rows ]
        ≡ decode_rows rows)
      (sym q) refl

of_order-same :
    (uid : OrderUid) (row : Row) (rows : List Row)
    → single uid row ≡ true
    → of_order uid row ++ decode_rows rows ≡ decode_rows (row ∷ rows)
of_order-same uid row rows s = elim (Result-cases (decode row)) [
  | inr (e, q) ↦ rw (q, decode_rows-err row rows q, of_order) refl
  | inl (p, q) ↦
      let (i, st, v, o, u) = decode-eq-ok row p q in
      let same : (p.order_uid == uid) ≡ true = ground arith in
      rw (q, same, decode_rows-ok row rows p q, of_order) refl
]

-- The rows that the batched query selects give the same proposals of the order as those that the
-- single query selects.
all_of_order-select :
    (uid : OrderUid) (uids : List OrderUid) (rows : List Row)
    → In uid uids
    → all_of_order uid (filter_by (batched uids) rows) ≡ decode_rows (filter_by (single uid) rows)
unfolding decode_rows
all_of_order-select uid uids [] i = refl
all_of_order-select uid uids (row ∷ rows) i =
    let ih = all_of_order-select uid uids rows i in
    elim (Bool-cases (single uid row)) [
      | inl s ↦
          let b : batched uids row ≡ true = ground (arith, uid_in-In uid row i) in
          rw (b, s, ih) (of_order-same uid row (filter_by (single uid) rows) s)
      | inr s ↦ elim (Bool-cases (batched uids row)) [
        | inl b ↦ rw (b, s, of_order-other uid uids row b s) ih
        | inr b ↦ rw (b, s) ih
      ]
    ]

answered :
    (u : OrderUid) (us : List OrderUid) (db : Db) {gs : Groups}
    → active_by_order_uids healthy (u ∷ us) db ≡ ok gs
    → group_rows (filter_by (batched (u ∷ us)) db.rows) [] ≡ gs
unfolding active_by_order_uids
answered u us db h = cc

single_answer :
    (uid : OrderUid) (db : Db)
    → list_by_order_uid healthy uid db ≡ ok (decode_rows (filter_by (single uid) db.rows))
unfolding list_by_order_uid
single_answer uid db = refl

-- If no database call fails, the batched lookup holds for each order that it was asked for what
-- the lookup of that one order returns: the same proposals in the same order.
pub active_by_order_uids-eq-list :
    (uid : OrderUid) (uids : List OrderUid) (db : Db) (gs : Groups)
    → In uid uids
    → active_by_order_uids healthy uids db ≡ ok gs
    → list_by_order_uid healthy uid db ≡ ok (group uid gs)
unfolding decode_rows get_group
active_by_order_uids-eq-list uid [] db gs i h = elim i [ ]
active_by_order_uids-eq-list uid (u ∷ us) db gs i h = listed ∙ ap ok (sym grouped)
  where
    rows : List Row
    rows = filter_by (batched (u ∷ us)) db.rows

    grouped : group uid gs ≡ decode_rows (filter_by (single uid) db.rows)
    grouped =
        subst (λ g. group uid g ≡ decode_rows (filter_by (single uid) db.rows)) (answered u us db h)
          (group-group_rows uid rows [] ∙ all_of_order-select uid (u ∷ us) db.rows i)

    listed : list_by_order_uid healthy uid db ≡ ok (decode_rows (filter_by (single uid) db.rows))
    listed = single_answer uid db
