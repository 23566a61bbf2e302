-- ===== src/Tests/ApiTests.antt =====
-- The handlers' properties at concrete inputs.
use byos_service.Domain.Scoring.{effective_gas}
use byos_service.Domain.Proposal.{same_status}
use byos_service.Infra.Storage.Rows.{encode}
use byos_service.Prelude.Ints.{div_ceil}
use byos_service.Prelude.Ints.{u64_saturating_add}
use byos_service.Prelude.Ints.{saturating_mul}
use byos_service.Prelude.Ints.{checked_div}
use byos_service.Prelude.Ints.{checked_mul}
use byos_service.Prelude.Ints.{checked_sub}
use byos_service.Prelude.{
  ℕ, ◌≤◌, ◌<◌, ◌≡◌, arith, refl, some, none, Option, String, [], ◌∷◌, All, In,
}
use byos_service.Domain.Proposal.{Proposal}
use byos_service.Infra.Storage.Db.{healthy}
use byos_service.Infra.Storage.Queries.{Groups, active_by_order_uids, list_by_order_uid}
use byos_service.Infra.Api.Solve.{Bid, bid_of, best_bid, solve}
use byos_service.Infra.Api.Solve.Selection.{IsSound, best_bid-greatest}
use byos_service.Infra.Api.Solve.Bids.{IsRecorded, solve-IsRecorded}
use byos_service.Infra.Api.Solve.Answers.{IsAnswered, solve-IsAnswered}
use byos_service.Infra.Api.Notify.{Notification, single, notify}
use byos_service.Infra.Api.Notify.Attributed.{IsAttributed}
use byos_service.Infra.Api.Notify.Calls.{Calls, notify-Calls}
use byos_service.Domain.Proposal.{is_live}
use byos_service.Domain.Validator.{SimulationOutcome, accept}
use byos_service.Infra.Storage.Db.{Db, empty}
use byos_service.Infra.Storage.Ops.{insert, resolve_verdict}
use byos_service.Infra.Storage.Queues.{record_solution}
use byos_service.Infra.Storage.Invariant.{empty-Inv}
use byos_service.Infra.Storage.Lifecycle.{Reach, next, submits, resolves, Reach-Inv}
use byos_service.Tests.Data.{fresh, book, stored, simulated, active_book, order, auction, abi}

abbrev bid : Bid
bid = record {
  proposal = simulated;
  gas_used = 50_000;
  cut = record { amount = 80_000; executed_amount = 920_000 };
  score = 920_000;
}

best_bid-greatest_example :
    IsSound 10 auction order bid
    × In simulated (simulated ∷ stored ∷ [])
    × ((p : Proposal) (c : Bid)
        → In p (simulated ∷ stored ∷ [])
        → 10 < p.valid_until
        → bid_of auction order p ≡ some c
        → c.score ≤ 920_000)
unfolding best_bid checked_sub checked_mul checked_div saturating_mul effective_gas
    u64_saturating_add div_ceil
best_bid-greatest_example =
    best_bid-greatest 10 auction order (simulated ∷ stored ∷ []) {b = bid} refl

abbrev groups : Groups
groups = (11, simulated ∷ []) ∷ []

solve-IsRecorded_example :
    All
      (IsRecorded abi 10 auction 5 groups
        (solve (λ n. healthy) abi 10 auction 1 active_book).round.db.solutions)
      (solve (λ n. healthy) abi 10 auction 1 active_book).round.solutions
unfolding active_by_order_uids encode same_status
solve-IsRecorded_example =
    solve-IsRecorded (λ n. healthy) abi 10 auction 1 active_book 5 groups refl refl

-- The proposal is accepted with a simulation.
abbrev outcome : SimulationOutcome
outcome = record { gas_used = 50_000; trampoline = 40; sell_token = 1; buy_token = 2 }

abbrev judged_book : Db
judged_book = (resolve_verdict healthy 1 (accept (some outcome)) book).1

judged_later : Reach empty judged_book
judged_later =
    next (next Reach.here (submits healthy fresh empty refl))
      (resolves healthy 1 (accept (some outcome)) book)

solve-IsAnswered_example :
    IsAnswered abi order bid (solve (λ n. healthy) abi 10 auction 1 judged_book).round.solutions
unfolding list_by_order_uid resolve_verdict insert is_live same_status best_bid checked_sub
    checked_mul checked_div saturating_mul effective_gas u64_saturating_add div_ceil
solve-IsAnswered_example =
    solve-IsAnswered abi 10 auction 1 judged_book order (simulated ∷ []) bid 40
      (Reach-Inv empty-Inv judged_later) (omega arith) (In.here refl) refl refl refl

-- A proposal that is accepted and bids in auction 5.
abbrev accepted_book : Db
accepted_book = (resolve_verdict healthy 1 (accept none) book).1

abbrev bid_book : Db
bid_book = (record_solution healthy 5 1 1 accepted_book).1

-- Its settlement has reverted.
abbrev revert : Notification
revert = record {
  auction_id = some "5";
  solution_id = some (single 1);
  kind = "revert";
  transaction = some 9;
}

abbrev parse_i64 : String → Option ℕ
parse_i64 s = some 5

notify-Calls_example :
    Calls revert
      (IsAttributed parse_i64 revert bid_book)
      bid_book
      (notify (λ n. healthy) parse_i64 revert bid_book).1
notify-Calls_example = notify-Calls (λ n. healthy) parse_i64 revert bid_book
