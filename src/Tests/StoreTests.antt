-- ===== src/Tests/StoreTests.antt =====
-- The store's properties at concrete inputs.
use byos_service.Prelude.{
  ℕ, All, ◌≢◌, ◌≤◌, ◌≡◌, ◌↔◌, refl, true, some, none, ok, err, [], ◌∷◌, In, arith,
}
use byos_service.Domain.Proposal.{
  ProposalStatus, submitted, active, cancelled, expired, started, abandoned, is_live, same_status,
}
use byos_service.Domain.Validator.{accept}
use byos_service.Infra.Storage.Rows.{Row, encode, decode, stale_transition, exactly}
use byos_service.Infra.Storage.Db.{PenaltyRow, Db, empty, healthy, find_row}
use byos_service.Infra.Storage.Ops.{insert, transition, cancel, resolve_verdict}
use byos_service.Infra.Storage.Outcomes.{apply_settlement_outcome}
use byos_service.Infra.Storage.Queries.{
  list_by_order_uid, active_by_order_uids, list_by_order_uid_for_owner,
}
use byos_service.Infra.Storage.Trail.{last_status}
use byos_service.Infra.Storage.Invariant.{Inv, empty-Inv}
use byos_service.Infra.Storage.Effects.{swapped}
use byos_service.Infra.Storage.Lifecycle.{
  bids, sweeps, Reach, next, submits, resolves, reports, cancels, Reach-Inv,
}
use byos_service.Infra.Storage.History.{Reach-final, penalty_count, penalized_once, is_final}
use byos_service.Infra.Storage.Queues.{
  sweep_dropped, record_solution, record_non_settlement_debit, pending_penalties,
}
use byos_service.Infra.Storage.References.{Refers, Reach-Refers}
use byos_service.Domain.Penalty.{PendingPenalty}
use byos_service.Infra.Storage.Charges.{debited_not_pending}
use byos_service.Infra.Storage.Starts.{charge_count, start_count, charged_per_start}
use byos_service.Infra.Storage.Races.{transition-race, cancel_by_owner}
use byos_service.Infra.Storage.Snapshots.{list_for_owner_iff}
use byos_service.Infra.Storage.Grouping.{group, active_by_order_uids-eq-list}
use byos_service.Tests.Data.{fresh, stored, simulated, book, active_book}

submitted_once : Reach empty book
submitted_once = next Reach.here (submits healthy fresh empty refl)

-- The proposal is cancelled by its owner, and a verdict that comes later is refused.
abbrev cancelled_book : Db
cancelled_book = (cancel healthy 1 7 book).1

abbrev judged_book : Db
judged_book = (resolve_verdict healthy 1 (accept none) cancelled_book).1

cancelled_later : Reach book cancelled_book
cancelled_later = next Reach.here (cancels healthy 1 7 book)

judged_later : Reach cancelled_book judged_book
judged_later = next Reach.here (resolves healthy 1 (accept none) cancelled_book)

book-Inv : Inv book
book-Inv = Reach-Inv empty-Inv submitted_once

Reach-Inv_example : Inv judged_book
Reach-Inv_example = Reach-Inv (Reach-Inv book-Inv cancelled_later) judged_later

Reach-final_example : last_status 1 judged_book.audit ≡ some cancelled
unfolding last_status insert cancel is_live is_final
Reach-final_example =
    Reach-final 1 {s = cancelled} (Reach-Inv book-Inv cancelled_later) judged_later refl refl

penalized_once_example : penalty_count 1 book.audit ≤ 1
penalized_once_example = penalized_once 1 submitted_once

transition-race_example :
    (transition healthy simulated expired book).0
    ≡ err (stale_transition 1 (exactly active) submitted)
unfolding insert find_row same_status
transition-race_example =
    transition-race simulated expired submitted book (encode stored 0) book-Inv (omega arith) refl
      refl

cancel_by_owner_example :
    (row : Row) × (from : ProposalStatus) × (find_row 1 book.rows ≡ some row)
    × (row.sub_solver ≡ some 7)
    × (row.status ≡ some from)
    × (is_live from ≡ true)
    × (find_row 1 cancelled_book.rows ≡ some (swapped cancelled book.clock row))
unfolding cancel insert is_live
cancel_by_owner_example = cancel_by_owner healthy 1 7 book refl

list_for_owner_iff_example : In simulated (simulated ∷ []) ↔ (
    (row : Row) × In row active_book.rows
    × (decode row ≡ ok simulated)
    × (simulated.sub_solver ≡ 7)
    × (simulated.order_uid ≡ 11)
    × (simulated.status ≡ active))
unfolding list_by_order_uid_for_owner encode same_status
list_for_owner_iff_example =
    list_for_owner_iff healthy 11 7 active_book (simulated ∷ []) refl simulated

active_by_order_uids-eq-list_example :
    list_by_order_uid healthy 11 active_book ≡ ok (group 11 ((11, simulated ∷ []) ∷ []))
unfolding active_by_order_uids encode same_status
active_by_order_uids-eq-list_example =
    active_by_order_uids-eq-list 11 (11 ∷ []) active_book ((11, simulated ∷ []) ∷ []) (In.here refl)
      refl

-- The active proposal bids, and the sweep finds nothing to delete.
abbrev bid_book : Db
bid_book = (record_solution healthy 5 1 1 active_book).1

swept_later : Reach active_book (sweep_dropped healthy 3_600 bid_book).1
swept_later =
    next (next Reach.here (bids healthy 5 1 1 active_book)) (sweeps healthy 3_600 bid_book)

Reach-Refers_example : Refers (sweep_dropped healthy 3_600 bid_book).1
Reach-Refers_example = Reach-Refers tt swept_later

abbrev charge : ℕ → PendingPenalty
charge id = record { id = id; proposal_id = 1; sub_solver = 7; order_uid = 11 }

abbrev queued : ℕ → PenaltyRow
queued id = record {
  id = id;
  proposal_id = 1;
  sub_solver = some 7;
  order_uid = some 11;
  penalty_tx_hash = none;
}

-- Two charges for one proposal.
abbrev charged_book : Db
charged_book = record active_book { penalties = queued 1 ∷ queued 2 ∷ []; next_penalty_id = 3 }

debited_not_pending_example : All (λ p. p.id ≢ 1) (charge 2 ∷ [])
unfolding record_non_settlement_debit pending_penalties
debited_not_pending_example =
    debited_not_pending healthy healthy (charge 1) 100 77 charged_book (charge 2 ∷ []) refl refl

-- The proposal is accepted, its settlement starts and is abandoned, and the report comes again.
abbrev accepted_book : Db
accepted_book = (resolve_verdict healthy 1 (accept none) book).1

abbrev started_book : Db
started_book = (apply_settlement_outcome healthy stored started accepted_book).1

abbrev abandoned_book : Db
abandoned_book = (apply_settlement_outcome healthy stored abandoned started_book).1

abbrev repeated_book : Db
repeated_book = (apply_settlement_outcome healthy stored abandoned abandoned_book).1

repeated_once : Reach empty repeated_book
repeated_once =
    next
      (next
        (next (next submitted_once (resolves healthy 1 (accept none) book))
          (reports healthy stored started accepted_book))
        (reports healthy stored abandoned started_book))
      (reports healthy stored abandoned abandoned_book)

charged_per_start_example :
    charge_count 1 repeated_book.penalties ≤ start_count 1 repeated_book.audit
charged_per_start_example = charged_per_start 1 repeated_once
