-- ===== src/Infra/Storage/Swaps.antt =====
-- The rows that the compare-and-swap writes touch, and the statuses that outcomes lead to
-- (`transition` and `apply_settlement_outcome` of crates/byos/src/infra/storage.rs).
use byos_service.Prelude.{
  ℕ, suc, ◌<◌, ◌≡◌, refl, inl, inr, Bool-cases, true, false, none, some, ok, List, [], ◌∷◌, arith,
  ◌==◌, ltb,
}
use byos_service.Prelude.Ints.{i64_limit}
use byos_service.Domain.Proposal.{ProposalId, ProposalStatus, Proposal, SettlementOutcome}
use byos_service.Infra.Storage.Rows.{Row, status_is}
use byos_service.Infra.Storage.Db.{Db, Faults, find_row, update_where, affects}
use byos_service.Infra.Storage.Ops.{has_id, is_at}
use byos_service.Infra.Storage.Outcomes.{applied, outcome_target, apply_settlement_outcome}
use byos_service.Infra.Storage.Invariant.{Ids}
use byos_service.Infra.Storage.Effects.{after_outcome}

pub find_row-update_where :
    (id : ℕ) (g : Row → Row) (rows : List Row) {row : Row}
    → ((r : Row) → (g r).id ≡ r.id)
    → find_row id rows ≡ some row
    → find_row id (update_where (has_id id) g rows) ≡ some (g row)
unfolding find_row update_where
find_row-update_where id g [] keep h = cc
find_row-update_where id g (r ∷ rows) {row} keep h = elim (Bool-cases (r.id == id)) [
  | inl y ↦ let e : r ≡ row = ground arith in ground (arith, keep r)
  | inr n ↦ rw (n, n) (find_row-update_where id g rows keep (ground arith))
]

-- No status that an outcome leads to is one that it leads from.
pub outcome_target-settles :
    (o : SettlementOutcome) (from : ProposalStatus) {to : ProposalStatus}
    → outcome_target o from ≡ some to
    → outcome_target o to ≡ none
unfolding outcome_target
outcome_target-settles o from h = ground arith

outcome_answer :
    (f : Faults) (p : Proposal) (o : SettlementOutcome) (db : Db) (row : Row)
    (actual next from to : ProposalStatus)
    → find_row p.id db.rows ≡ some row
    → row.status ≡ some actual
    → outcome_target o actual ≡ some next
    → (apply_settlement_outcome f p o db).0 ≡ ok (applied from to)
    → (actual ≡ from)
      × (next ≡ to)
      × (ltb p.id i64_limit ≡ true)
      × ((apply_settlement_outcome f p o db).1 ≡ after_outcome p o actual next db)
unfolding apply_settlement_outcome
outcome_answer f p o db row actual next from to found s t h = ground arith

-- No later row has the id.
affects-later :
    (id : ProposalId) (from : ProposalStatus) (lo hi : ℕ) (rows : List Row)
    → id < lo
    → Ids lo hi rows
    → affects (is_at id from) rows ≡ false
unfolding affects
affects-later id from lo hi [] b i = refl
affects-later id from lo hi (r ∷ rows) b i =
    ground (arith, affects-later id from (suc r.id) hi rows)

pub affects-find_row :
    (id : ProposalId) (from : ProposalStatus) (lo hi : ℕ) (rows : List Row) (row : Row)
    → Ids lo hi rows
    → find_row id rows ≡ some row
    → affects (is_at id from) rows ≡ status_is row.status from
unfolding affects find_row
affects-find_row id from lo hi [] row i h = cc
affects-find_row id from lo hi (r ∷ rows) row i h = elim (Bool-cases (r.id == id)) [
  | inl y ↦
      let e : r ≡ row = ground arith in ground (arith, affects-later id from (suc r.id) hi rows)
  | inr n ↦ ground (arith, affects-find_row id from (suc r.id) hi rows row i.1)
]
