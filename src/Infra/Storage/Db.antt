-- ===== src/Infra/Storage/Db.antt =====
-- The tables of the database (crates/byos/migrations) and the SQL that the store runs on them
-- (the queries of crates/byos/src/infra/storage.rs), with the audit channel.
use byos_service.Prelude.{
  ℕ, Bool, false, ◌||◌, ◌&&◌, Option, none, some, Result, ok, err, List, [], ◌∷◌, ltb, ◌==◌,
  if◌then◌else◌,
}
use byos_service.Prelude.Ints.{i64_limit}
use byos_service.Domain.Proposal.{ProposalId, OrderUid, Address, B256}
use byos_service.Domain.Audit.{AuditKind}
use byos_service.Infra.Storage.Rows.{SqlxError, StoreError, not_found, database, Column, Row}

-- An `i64` id is only compared, so it is the number of its bit pattern.
pub record SolutionRow : Type 0 where
  pub auction_id : ℕ
  pub solution_id : ℕ
  pub proposal_id : ProposalId

pub record PenaltyRow : Type 0 where
  pub id : ℕ
  pub proposal_id : ProposalId
  pub sub_solver : Column Address
  pub order_uid : Column OrderUid
  pub penalty_tx_hash : Option B256

-- `next_id` and `next_penalty_id` are the sequences; `clock` is what `now()` answers; `audit` is
-- what the store has sent, the latest first.
pub record Db : Type 0 where
  pub rows : List Row
  pub next_id : ProposalId
  pub solutions : List SolutionRow
  pub penalties : List PenaltyRow
  pub next_penalty_id : ℕ
  pub clock : ℕ
  pub audit : List AuditKind

abbrev pub empty : Db
empty = record {
  rows = [];
  next_id = 1;
  solutions = [];
  penalties = [];
  next_penalty_id = 1;
  clock = 0;
  audit = [];
}

-- Whether the n-th database call of an operation fails.
abbrev pub Faults : Type 0
Faults = ℕ → Option SqlxError

abbrev pub healthy : Faults
healthy n = none

abbrev pub db_call : Option SqlxError → Result StoreError (Unit {0})
db_call none = ok tt
db_call (some e) = err (database e)

-- `ProposalStore::emit`, on a channel whose writer is there. The code sends after its transaction has
-- committed; here the event is part of the call, so the trail has the order of the commits, while
-- calls that race may send in another.
abbrev pub emit : AuditKind → Db → Db
emit e db = record db { audit = e ∷ db.audit }

-- A failed operation leaves the tables alone: an open transaction rolls back.
abbrev pub settle : {A : Type 0} → Db → Result StoreError (A × Db) → Result StoreError A × Db
settle db (ok (a, db')) = (ok a, db')
settle db (err e) = (err e, db)

-- `as_db_id`: an id that BIGINT cannot hold names no row.
unfoldable pub as_db_id : ProposalId → Result StoreError ℕ
as_db_id id = if ltb id i64_limit then ok id else err (not_found id)

-- `SELECT … WHERE id = $1`
unfoldable pub find_row : ProposalId → List Row → Option Row
find_row id [] = none
find_row id (r ∷ rs) = if r.id == id then some r else find_row id rs

-- `UPDATE … SET … WHERE …`
unfoldable pub update_where : (Row → Bool) → (Row → Row) → List Row → List Row
update_where p f [] = []
update_where p f (r ∷ rs) = (if p r then f r else r) ∷ update_where p f rs

-- Whether `rows_affected()` is not 0.
unfoldable pub affects : (Row → Bool) → List Row → Bool
affects p [] = false
affects p (r ∷ rs) = p r || affects p rs

-- `COALESCE($n, column)`
abbrev pub coalesce : {A : Type 0} → Option A → Column (Option A) → Column (Option A)
coalesce none c = c
coalesce (some a) c = some (some a)

-- `COALESCE` on a column that is never NULL.
abbrev pub coalesce_column : {A : Type 0} → Option A → Column A → Column A
coalesce_column none c = c
coalesce_column (some a) c = some a

-- `INSERT INTO solutions … ON CONFLICT (auction_id, solution_id) DO UPDATE`
unfoldable pub upsert_solution : SolutionRow → List SolutionRow → List SolutionRow
upsert_solution s [] = s ∷ []
upsert_solution s (t ∷ ts) =
    if t.auction_id == s.auction_id && t.solution_id == s.solution_id
    then s ∷ ts
    else t ∷ upsert_solution s ts
