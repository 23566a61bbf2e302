-- ===== src/Infra/Storage/Queries.antt =====
-- The reads of `ProposalStore` (crates/byos/src/infra/storage.rs). Rows stand in the order of their
-- ids, as `ORDER BY id` returns them.
use byos_service.Prelude.{
  ℕ, Bool, true, false, ◌&&◌, ◌||◌, Option, none, some, Result, ok, err, ◌>>◌, List, [], ◌∷◌, ◌++◌,
  filter_by, filter_map, ltb, ◌==◌, if◌then◌else◌,
}
use byos_service.Prelude.Ints.{i64_limit}
use byos_service.Domain.Proposal.{
  ProposalId, OrderUid, Address, Proposal, ProposalStatus, submitted, active,
}
use byos_service.Infra.Storage.Rows.{StoreError, Row, decode, column_is, status_is}
use byos_service.Infra.Storage.Db.{SolutionRow, Db, Faults, db_call, as_db_id, find_row}

abbrev pub to_option : Result StoreError Proposal → Option Proposal
to_option (ok p) = some p
to_option (err e) = none

-- A collection returns the rows that it can read.
unfoldable pub decode_rows : List Row → List Proposal
unfolding decode
decode_rows rows = filter_map (λ row. to_option (decode row)) rows

-- `SELECT … WHERE …` and `decode_rows`
abbrev pub select : Faults → (Row → Bool) → Db → Result StoreError (List Proposal)
select f p db = do db_call (f 0); ok (decode_rows (filter_by p db.rows))

unfoldable pub list_by_order_uid : Faults → OrderUid → Db → Result StoreError (List Proposal)
unfolding decode_rows
list_by_order_uid f uid =
    select f (λ row. column_is row.order_uid uid && status_is row.status active)

unfoldable pub list_by_order_uid_for_owner :
    Faults → OrderUid → Address → Db → Result StoreError (List Proposal)
unfolding decode_rows
list_by_order_uid_for_owner f uid owner = select f (λ row.
    column_is row.order_uid uid && column_is row.sub_solver owner && status_is row.status active)

-- `status = ANY($n)`
abbrev pub status_in : List ProposalStatus → Row → Bool
status_in [] row = false
status_in (s ∷ ss) row = status_is row.status s || status_in ss row

unfoldable pub list_by_sub_solver : Faults → Address → Db → Result StoreError (List Proposal)
unfolding decode_rows
list_by_sub_solver f sub_solver =
    select f (λ row. column_is row.sub_solver sub_solver && status_in (submitted ∷ active ∷ []) row)

unfoldable pub snapshot_by_statuses :
    Faults → List ProposalStatus → Db → Result StoreError (List Proposal)
unfolding decode_rows
snapshot_by_statuses f statuses = select f (status_in statuses)

-- `order_uid = ANY($1)`
abbrev pub uid_in : List OrderUid → Row → Bool
uid_in [] row = false
uid_in (u ∷ us) row = column_is row.order_uid u || uid_in us row

-- `HashMap<OrderUid, Vec<Proposal>>`, of which the code uses `entry` and `get`.
abbrev pub Groups : Type 0
Groups = List (OrderUid × List Proposal)

-- `grouped.entry(uid).or_default().push(proposal)`
unfoldable pub push_group : OrderUid → Proposal → Groups → Groups
push_group uid p [] = (uid, p ∷ []) ∷ []
push_group uid p ((u, ps) ∷ gs) =
    if u == uid then (u, ps ++ (p ∷ [])) ∷ gs else (u, ps) ∷ push_group uid p gs

unfoldable pub get_group : OrderUid → Groups → Option (List Proposal)
get_group uid [] = none
get_group uid ((u, ps) ∷ gs) = if u == uid then some ps else get_group uid gs

unfoldable pub group_rows : List Row → Groups → Groups
unfolding decode push_group
group_rows [] grouped = grouped
group_rows (row ∷ rows) grouped =
    group_rows rows
      (elim (decode row) [ ok p ↦ push_group p.order_uid p grouped | err e ↦ grouped ])

abbrev is_nil : List OrderUid → Bool
is_nil [] = true
is_nil (u ∷ us) = false

unfoldable pub active_by_order_uids : Faults → List OrderUid → Db → Result StoreError Groups
unfolding group_rows
active_by_order_uids f uids db = if is_nil uids then ok [] else do
  db_call (f 0)
  ok (group_rows (filter_by (λ row. uid_in uids row && status_is row.status active) db.rows) [])

abbrev pub id_in : List ℕ → ℕ → Bool
id_in [] id = false
id_in (i ∷ is) id = i == id || id_in is id

-- The rows of the join that stem from one proposal row: one for each matching solution.
unfoldable pub join_row : ℕ → List ℕ → List SolutionRow → Row → List Row
join_row auction_id ids [] row = []
join_row auction_id ids (s ∷ ss) row =
    if s.proposal_id == row.id && s.auction_id == auction_id && id_in ids s.solution_id
    then row ∷ join_row auction_id ids ss row
    else join_row auction_id ids ss row

unfoldable pub join_rows : ℕ → List ℕ → List SolutionRow → List Row → List Row
unfolding join_row
join_rows auction_id ids ss [] = []
join_rows auction_id ids ss (row ∷ rows) =
    join_row auction_id ids ss row ++ join_rows auction_id ids ss rows

unfoldable pub solution_proposals : Faults → ℕ → List ℕ → Db → Result StoreError (List Proposal)
unfolding decode_rows join_rows
solution_proposals f auction_id solution_ids db = do
  db_call (f 0)
  ok (
      decode_rows (
        join_rows auction_id (filter_by (λ id. ltb id i64_limit) solution_ids) db.solutions
          db.rows))

-- What `get` answers for the row that it has found.
abbrev pub decoded : Option Row → Result StoreError (Option Proposal)
decoded none = ok none
decoded (some row) = elim (decode row) [ ok p ↦ ok (some p) | err e ↦ err e ]

unfoldable pub get : Faults → ProposalId → Db → Result StoreError (Option Proposal)
unfolding as_db_id find_row decode
get f id db = elim (as_db_id id) [
  | err e ↦ ok none
  | ok db_id ↦ do db_call (f 0); decoded (find_row db_id db.rows)
]
