-- ===== src/Infra/Api/Solve/Steps.antt =====
-- The store calls of a round of `/solve` (crates/byos/src/infra/api/solve.rs).
use byos_service.Prelude.{
  ℕ, suc, inl, inr, Option-cases, Result-cases, Option, none, some, List, [], ◌∷◌, length,
}
use byos_service.Domain.Proposal.{U256}
use byos_service.Common.Trampoline.{Abi}
use byos_service.Infra.Storage.Db.{Db, Faults}
use byos_service.Infra.Storage.Queries.{Groups, get_group, active_by_order_uids}
use byos_service.Infra.Storage.Queues.{record_solution}
use byos_service.Infra.Storage.Lifecycle.{Reach, next, bids}
use byos_service.Infra.Api.Solve.{
  Auction, AuctionOrder, Bid, Solution, Round, best_bid, build_solution, record_bid, bid_on,
  bid_on_all, solve, order_uids,
}

record_bid-Reach :
    (f : Faults) (auction : Option ℕ) (id : ℕ) (b : Bid) (s : Solution) (r : Round) {db : Db}
    → Reach db r.db
    → Reach db (record_bid f auction id b s r).db
unfolding record_bid
record_bid-Reach f none id b s r reach = reach
record_bid-Reach f (some auction) id b s r reach =
    elim (Result-cases (record_solution f auction id b.proposal.id r.db).0) [
      | inl (done, q) ↦ rw (q, record_bid) (next reach (bids f auction id b.proposal.id r.db))
      | inr (e, q) ↦ rw (q, record_bid) (next reach (bids f auction id b.proposal.id r.db))
    ]

bid_on-Reach :
    (f : Faults) (abi : Abi) (now : U256) (a : Auction) (by_order : Groups) (o : AuctionOrder)
    (r : Round) {db : Db}
    → Reach db r.db
    → Reach db (bid_on f abi now a by_order o r).db
unfolding bid_on
bid_on-Reach f abi now a by_order o r reach = elim (Option-cases (get_group o.uid by_order)) [
  | inl q ↦ rw (q, bid_on) reach
  | inr (ps, held) ↦ elim (Option-cases (best_bid now a o ps)) [
    | inl q ↦ rw (held, q, bid_on) reach
    | inr (b, best) ↦ elim (Option-cases (build_solution abi (suc (length r.solutions)) o b)) [
      | inl q ↦ rw (held, best, q, bid_on) reach
      | inr (s, built) ↦
          rw (held, best, built, bid_on)
            (record_bid-Reach f a.id (suc (length r.solutions)) b s r reach)
    ]
  ]
]

bid_on_all-Reach :
    (f : ℕ → Faults) (abi : Abi) (now : U256) (a : Auction) (by_order : Groups)
    (os : List AuctionOrder) (r : Round) {db : Db}
    → Reach db r.db
    → Reach db (bid_on_all f abi now a by_order os r).db
unfolding bid_on_all
bid_on_all-Reach f abi now a by_order [] r reach = reach
bid_on_all-Reach f abi now a by_order (o ∷ os) r reach =
    bid_on_all-Reach (λ n. f (suc n)) abi now a by_order os (bid_on (f 0) abi now a by_order o r)
      (bid_on-Reach (f 0) abi now a by_order o r reach)

-- What a round of solving does to the database is a sequence of calls of the store.
pub solve-Reach :
    (f : ℕ → Faults) (abi : Abi) (now : U256) (a : Auction) (gas_price : ℕ) (db : Db)
    → Reach db (solve f abi now a gas_price db).round.db
unfolding solve
solve-Reach f abi now a gas_price db =
    elim (Result-cases (active_by_order_uids (f 0) (order_uids a.orders) db)) [
      | inl (by_order, q) ↦
          rw (q, solve)
            (bid_on_all-Reach (λ n. f (suc n)) abi now a by_order a.orders
              (record { solutions = []; db = db }) Reach.here)
      | inr (e, q) ↦ rw (q, solve) Reach.here
    ]
