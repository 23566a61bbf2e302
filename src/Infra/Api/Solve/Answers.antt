-- ===== src/Infra/Api/Solve/Answers.antt =====
-- The answer of a round of `/solve` to each order (crates/byos/src/infra/api/solve.rs).
use byos_service.Prelude.{
  ℕ, suc, ◌≤◌, ◌<◌, ◌≡◌, ◌≢◌, refl, inl, inr, Option-cases, Result, true, Option, none, some, ok,
  List, [], ◌∷◌, ◌++◌, In, here, there, In-cases, All-In, arith, length, ◌∙◌, sym, ap, subst,
}
use mathlib.Core.List.{append-nil}
use byos_service.Prelude.Ints.{i64_limit}
use byos_service.Domain.Proposal.{ProposalId, OrderUid, U256, Address, Proposal}
use byos_service.Common.Trampoline.{Abi}
use byos_service.Infra.Storage.Rows.{Row, StoreError, decode}
use byos_service.Infra.Storage.Decoding.{decode-eq-ok}
use byos_service.Infra.Storage.Db.{Db, Faults, healthy, affects}
use byos_service.Infra.Storage.Ops.{has_id}
use byos_service.Infra.Storage.Invariant.{Inv, Ids-below}
use byos_service.Infra.Storage.Queries.{Groups, get_group, active_by_order_uids, list_by_order_uid}
use byos_service.Infra.Storage.Snapshots.{In-select}
use byos_service.Infra.Storage.Grouping.{group, active_by_order_uids-eq-list}
use byos_service.Infra.Storage.Queues.{record_solution}
use byos_service.Infra.Api.Solve.{
  Auction, AuctionOrder, Bid, Solution, Round, best_bid, build_solution, record_bid, bid_on,
  bid_on_all, solve, order_uids,
}
use byos_service.Infra.Api.Solve.Bids.{record_bid_effect, build_solution-id}
use byos_service.Infra.Api.Solve.Selection.{best_bid-greatest}

-- The solution that the round makes of the order's bid.
pub record IsAnswered (abi : Abi) (o : AuctionOrder) (b : Bid) (solutions : List Solution)
    : Type 0 where
  pub solution : Solution
  pub made : In solution solutions
  pub built : build_solution abi solution.id o b ≡ some solution

In-left : {A : Type 0} {a : A} {xs : List A} (ys : List A) → In a xs → In a (xs ++ ys)
In-left ys (here e) = here e
In-left ys (there i) = there (In-left ys i)

In-last : {A : Type 0} (a : A) (xs : List A) → In a (xs ++ (a ∷ []))
In-last a [] = here refl
In-last a (x ∷ xs) = there (In-last a xs)

affects-In :
    (row : Row) (rows : List Row) (id : ProposalId)
    → In row rows
    → row.id ≡ id
    → affects (has_id id) rows ≡ true
unfolding affects
affects-In row [] id i e = elim i [ ]
affects-In row (r ∷ rows) id i e = elim (In-cases {xs = rows} i) [
  | inl q ↦ let same : r.id ≡ id = ap (λ x. x.id) q ∙ e in ground arith
  | inr j ↦ ground (arith, affects-In row rows id j e)
]

order_uids-In : (o : AuctionOrder) (os : List AuctionOrder) → In o os → In o.uid (order_uids os)
order_uids-In o [] i = elim i [ ]
order_uids-In o (x ∷ os) i = elim (In-cases {xs = os} i) [
  | inl q ↦ here (ap (λ y. y.uid) q)
  | inr j ↦ there (order_uids-In o os j)
]

-- The round goes on: the solutions that were made stay, and so do the proposals.
record Extends (r s : Round) : Type 0 where
  pub more : List Solution
  pub appended : s.solutions ≡ r.solutions ++ more
  pub same_rows : s.db.rows ≡ r.db.rows

stays_round : (r : Round) → Extends r r
stays_round r = record { more = []; appended = sym (append-nil _); same_rows = refl }

record_bid-Extends :
    (f : Faults) (auction : Option ℕ) (id : ℕ) (b : Bid) (s : Solution) (r : Round)
    → Extends r (record_bid f auction id b s r)
unfolding record_bid record_solution
record_bid-Extends f none id b s r = record { more = s ∷ []; appended = refl; same_rows = refl }
record_bid-Extends f (some auction) id b s r = elim (record_bid_effect f auction id b s r) [
  | inl same ↦ rw same (stays_round r)
  | inr made ↦ rw made (record { more = s ∷ []; appended = refl; same_rows = refl })
]

record_bid-makes :
    (auction : Option ℕ) (id : ℕ) (b : Bid) (s : Solution) (r : Round)
    → b.proposal.id < i64_limit
    → affects (has_id b.proposal.id) r.db.rows ≡ true
    → In s (record_bid healthy auction id b s r).solutions
unfolding record_bid record_solution
record_bid-makes none id b s r small stored = In-last s r.solutions
record_bid-makes (some auction) id b s r small stored =
    let e : (record_bid healthy (some auction) id b s r).solutions ≡ r.solutions ++ (s ∷ []) =
      ground arith in
    subst (λ xs. In s xs) (sym e) (In-last s r.solutions)

unbuilt :
    (abi : Abi) (o : AuctionOrder) (b : Bid) (t : Address)
    → b.proposal.trampoline ≡ some t
    → (id : ℕ) → build_solution abi id o b ≢ none
unfolding build_solution
unbuilt abi o b t simulated id q = ground (arith, simulated)

module _ (abi : Abi) (now : U256) (a : Auction) (by_order : Groups) where
  bid_on-Extends :
      (f : Faults) (o : AuctionOrder) (r : Round) → Extends r (bid_on f abi now a by_order o r)
  unfolding bid_on
  bid_on-Extends f o r = elim (Option-cases (get_group o.uid by_order)) [
    | inl q ↦ rw (q, bid_on) (stays_round r)
    | inr (ps, held) ↦ elim (Option-cases (best_bid now a o ps)) [
      | inl q ↦ rw (held, q, bid_on) (stays_round r)
      | inr (b, best) ↦ elim (Option-cases (build_solution abi (suc (length r.solutions)) o b)) [
        | inl q ↦ rw (held, best, q, bid_on) (stays_round r)
        | inr (s, built) ↦
            rw (held, best, built, bid_on)
              (record_bid-Extends f a.id (suc (length r.solutions)) b s r)
      ]
    ]
  ]

  bid_on_all-keeps :
      (f : ℕ → Faults) (os : List AuctionOrder) (r : Round) {s : Solution}
      → In s r.solutions
      → In s (bid_on_all f abi now a by_order os r).solutions
  unfolding bid_on_all
  bid_on_all-keeps f [] r i = i
  bid_on_all-keeps f (o ∷ os) r {s} i =
      bid_on_all-keeps (λ n. f (suc n)) os (bid_on (f 0) abi now a by_order o r)
        (subst (λ xs. In s xs) (sym (bid_on-Extends (f 0) o r).appended) (In-left _ i))

  module _ (o : AuctionOrder) (ps : List Proposal) (b : Bid) (t : Address)
      (held : get_group o.uid by_order ≡ some ps) (best : best_bid now a o ps ≡ some b)
      (simulated : b.proposal.trampoline ≡ some t) (small : b.proposal.id < i64_limit) where
    bid_on-makes :
        (r : Round)
        → affects (has_id b.proposal.id) r.db.rows ≡ true
        → IsAnswered abi o b (bid_on healthy abi now a by_order o r).solutions
    unfolding bid_on
    bid_on-makes r stored =
        let id = suc (length r.solutions) in
        elim (Option-cases (build_solution abi id o b)) [
          | inl q ↦ absurd (unbuilt abi o b t simulated id q)
          | inr (s, built) ↦
              rw (held, best, built, bid_on)
                (record {
                  solution = s;
                  made = record_bid-makes a.id id b s r small stored;
                  built =
                      subst (λ i. build_solution abi i o b ≡ some s)
                        (sym (build_solution-id abi id o b built)) built;
                })
        ]

    bid_on_all-makes :
        (os : List AuctionOrder) (r : Round)
        → In o os
        → affects (has_id b.proposal.id) r.db.rows ≡ true
        → IsAnswered abi o b (bid_on_all (λ n. healthy) abi now a by_order os r).solutions
    unfolding bid_on_all
    bid_on_all-makes [] r i stored = elim i [ ]
    bid_on_all-makes (x ∷ os) r i stored =
        let after = bid_on healthy abi now a by_order x r in
        elim (In-cases {xs = os} i) [
          | inl same ↦
              let answer =
                subst (λ y. IsAnswered abi o b (bid_on healthy abi now a by_order y r).solutions)
                  (sym same) (bid_on-makes r stored) in
              record {
                solution = answer.solution;
                made = bid_on_all-keeps (λ n. healthy) os after answer.made;
                built = answer.built;
              }
          | inr j ↦
              bid_on_all-makes os after j (
                ap (affects (has_id b.proposal.id)) (bid_on-Extends healthy x r).same_rows ∙ stored)
        ]

lookup_answers :
    (uids : List OrderUid) (db : Db)
    → (gs : Groups) × (active_by_order_uids healthy uids db ≡ ok gs)
unfolding active_by_order_uids
lookup_answers [] db = ([], refl)
lookup_answers (u ∷ us) db = (_, refl)

-- A group that holds something is there.
get_group-found :
    (uid : OrderUid) (gs : Groups) (ps : List Proposal) (p : Proposal)
    → group uid gs ≡ ps
    → In p ps
    → get_group uid gs ≡ some ps
get_group-found uid gs ps p e i = elim (Option-cases (get_group uid gs)) [
  | inl q ↦ let empty : [] ≡ ps = ground arith in elim (subst (λ xs. In p xs) (sym empty) i) [ ]
  | inr (found, q) ↦ ground arith
]

answered_group :
    (uid : OrderUid) (gs : Groups) (ps : List Proposal) (answer : Result StoreError (List Proposal))
    → answer ≡ ok (group uid gs)
    → answer ≡ ok ps
    → group uid gs ≡ ps
answered_group uid gs ps answer e h = ground arith

In-listed :
    (uid : OrderUid) (db : Db) (ps : List Proposal)
    → list_by_order_uid healthy uid db ≡ ok ps
    → (p : Proposal) → In p ps
    → (row : Row) × In row db.rows × (decode row ≡ ok p)
unfolding list_by_order_uid
In-listed uid db ps h p i =
    let (row, stored, hit, d) = In-select healthy _ db ps h p i in (row, stored, d)

-- If no database call fails, the database satisfies the invariant and its ids fit BIGINT, then for
-- each order of the auction whose active proposals have a best bid with a simulated trampoline,
-- the answer has the solution that is built from that order and that bid.
pub solve-IsAnswered :
    (abi : Abi) (now : U256) (a : Auction) (gas_price : ℕ) (db : Db) (o : AuctionOrder)
    (ps : List Proposal) (b : Bid) (t : Address)
    → Inv db
    → db.next_id ≤ i64_limit
    → In o a.orders
    → list_by_order_uid healthy o.uid db ≡ ok ps
    → best_bid now a o ps ≡ some b
    → b.proposal.trampoline ≡ some t
    → IsAnswered abi o b (solve (λ n. healthy) abi now a gas_price db).round.solutions
unfolding solve
solve-IsAnswered abi now a gas_price db o ps b t inv fits offered listed best simulated =
    let (gs, looked) = lookup_answers (order_uids a.orders) db in
    let inside = (best_bid-greatest now a o ps best).1 in
    let held =
      get_group-found o.uid gs ps b.proposal
        (answered_group o.uid gs ps (list_by_order_uid healthy o.uid db)
          (active_by_order_uids-eq-list o.uid (order_uids a.orders) db gs
            (order_uids-In o a.orders offered) looked)
          listed)
        inside in
    let (row, stored, decoded) = In-listed o.uid db ps listed b.proposal inside in
    let same = (decode-eq-ok row b.proposal decoded).0 in
    let below = All-In (λ r. r.id < db.next_id) (Ids-below 0 db.next_id db.rows inv.ids) stored in
    rw (looked, solve)
      (bid_on_all-makes abi now a gs o ps b t held best simulated (omega arith) a.orders
        (record { solutions = []; db = db }) offered
        (affects-In row db.rows b.proposal.id stored (sym same)))
