-- ===== src/Infra/Api/Solve/Bids.antt =====
-- The bids of a round of `/solve` and their records (crates/byos/src/infra/api/solve.rs).
use byos_service.Prelude.{
  length-snoc, ℕ, suc, ◌≤◌, ◌≡◌, ◌≢◌, ◌⊎◌, refl, inl, inr, Bool-cases, Option-cases, some, ok, List,
  [], ◌∷◌, ◌++◌, In, there, All, All-map, All-append, arith, length, ◌==◌, ◌&&◌, subst, sym,
}
use byos_service.Domain.Proposal.{U256, Proposal}
use byos_service.Common.Trampoline.{Abi}
use byos_service.Infra.Storage.Db.{SolutionRow, Db, Faults, upsert_solution}
use byos_service.Infra.Storage.Queries.{Groups, get_group, active_by_order_uids}
use byos_service.Infra.Storage.Queues.{record_solution}
use byos_service.Infra.Api.Solve.{
  Auction, AuctionOrder, Bid, Solution, Round, best_bid, build_solution, record_bid, bid_on,
  bid_on_all, solve, order_uids,
}

upsert_solution-In : (s : SolutionRow) (rows : List SolutionRow) → In s (upsert_solution s rows)
unfolding upsert_solution
upsert_solution-In s [] = In.here refl
upsert_solution-In s (t ∷ rows) =
    elim (Bool-cases (t.auction_id == s.auction_id && t.solution_id == s.solution_id)) [
      | inl y ↦ rw y (In.here refl)
      | inr n ↦ rw n (there (upsert_solution-In s rows))
    ]

upsert_solution-keeps :
    (s : SolutionRow) {r : SolutionRow} {rows : List SolutionRow}
    → In r rows
    → r.solution_id ≢ s.solution_id
    → In r (upsert_solution s rows)
unfolding upsert_solution
upsert_solution-keeps s {r} (In.here {x = t} {xs = rows} e) other =
    elim (Bool-cases (t.auction_id == s.auction_id && t.solution_id == s.solution_id)) [
      | inl y ↦ absurd (other (ground arith))
      | inr n ↦ rw n (In.here e)
    ]
upsert_solution-keeps s {r} (there {x = t} {xs = rows} i) other =
    elim (Bool-cases (t.auction_id == s.auction_id && t.solution_id == s.solution_id)) [
      | inl y ↦ rw y (there i)
      | inr n ↦ rw n (there (upsert_solution-keeps s i other))
    ]

abbrev bid_row : ℕ → ℕ → Bid → SolutionRow
bid_row auction id b = record {
  auction_id = auction;
  solution_id = id;
  proposal_id = b.proposal.id;
}

-- Either the bid is dropped, or it is recorded and made.
pub record_bid_effect :
    (f : Faults) (auction id : ℕ) (b : Bid) (s : Solution) (r : Round)
    → (record_bid f (some auction) id b s r ≡ r)
      ⊎ (record_bid f (some auction) id b s r ≡ record {
        solutions = r.solutions ++ (s ∷ []);
        db = record r.db { solutions = upsert_solution (bid_row auction id b) r.db.solutions };
      })
unfolding record_bid record_solution
record_bid_effect f auction id b s r = ground arith

-- The solution is built from the best bid for an order of the auction, and a row of the auction names
-- its proposal.
pub record IsRecorded (abi : Abi) (now : U256) (a : Auction) (auction : ℕ) (by_order : Groups)
    (rows : List SolutionRow) (s : Solution) : Type 0 where
  pub order : AuctionOrder
  pub offered : In order a.orders
  pub proposals : List Proposal
  pub bid : Bid
  pub held : get_group order.uid by_order ≡ some proposals
  pub best : best_bid now a order proposals ≡ some bid
  pub built : build_solution abi s.id order bid ≡ some s
  pub row : SolutionRow
  pub in_rows : In row rows
  pub of_auction : row.auction_id ≡ auction
  pub of_solution : row.solution_id ≡ s.id
  pub of_proposal : row.proposal_id ≡ bid.proposal.id

pub build_solution-id :
    (abi : Abi) (id : ℕ) (o : AuctionOrder) (b : Bid) {s : Solution}
    → build_solution abi id o b ≡ some s
    → s.id ≡ id
unfolding build_solution
build_solution-id abi id o b h = ground arith

module _ (abi : Abi) (now : U256) (a : Auction) (auction : ℕ) (by_order : Groups) where
  -- Each solution of the round is recorded, under an id that the next solution does not have.
  abbrev Recorded : Round → Type 0
  Recorded r =
      All
        (λ s. (s.id ≤ length r.solutions) × IsRecorded abi now a auction by_order r.db.solutions s)
        r.solutions

  keeps :
      (row : SolutionRow) (n : ℕ) (rows : List SolutionRow) (s : Solution)
      → row.solution_id ≡ suc n
      → (s.id ≤ n) × IsRecorded abi now a auction by_order rows s
      → (s.id ≤ suc n) × IsRecorded abi now a auction by_order (upsert_solution row rows) s
  keeps row n rows s e (le, rec) = (
    omega arith,
    record {
      order = rec.order;
      offered = rec.offered;
      proposals = rec.proposals;
      bid = rec.bid;
      held = rec.held;
      best = rec.best;
      built = rec.built;
      row = rec.row;
      in_rows = upsert_solution-keeps row rec.in_rows (λ same. ground (arith, rec.of_solution));
      of_auction = rec.of_auction;
      of_solution = rec.of_solution;
      of_proposal = rec.of_proposal;
    },
  )

  record_bid-Recorded :
      (f : Faults) (o : AuctionOrder) (ps : List Proposal) (b : Bid) (s : Solution) (r : Round)
      → In o a.orders
      → get_group o.uid by_order ≡ some ps
      → best_bid now a o ps ≡ some b
      → build_solution abi (suc (length r.solutions)) o b ≡ some s
      → Recorded r
      → Recorded (record_bid f (some auction) (suc (length r.solutions)) b s r)
  record_bid-Recorded f o ps b s r offered held best built rec =
      elim (record_bid_effect f auction (suc (length r.solutions)) b s r) [
        | inl same ↦ rw same rec
        | inr made ↦
            rw (made, length-snoc r.solutions s)
              (All-append _ r.solutions (s ∷ [])
                (All-map _ _ r.solutions
                  (λ t.
                    keeps (bid_row auction (suc (length r.solutions)) b) (length r.solutions)
                      r.db.solutions t refl)
                  rec)
                ((ground (arith, same_id), last), tt))
      ]
    where
      same_id : s.id ≡ suc (length r.solutions)
      same_id = build_solution-id abi (suc (length r.solutions)) o b built

      last :
          IsRecorded abi now a auction by_order
            (upsert_solution (bid_row auction (suc (length r.solutions)) b) r.db.solutions)
            s
      last = record {
        order = o;
        offered = offered;
        proposals = ps;
        bid = b;
        held = held;
        best = best;
        built = subst (λ id. build_solution abi id o b ≡ some s) (sym same_id) built;
        row = bid_row auction (suc (length r.solutions)) b;
        in_rows = upsert_solution-In _ r.db.solutions;
        of_auction = refl;
        of_solution = sym same_id;
        of_proposal = refl;
      }

  bid_on-Recorded :
      (f : Faults) (o : AuctionOrder) (r : Round)
      → In o a.orders
      → a.id ≡ some auction
      → Recorded r
      → Recorded (bid_on f abi now a by_order o r)
  unfolding bid_on
  bid_on-Recorded f o r offered known rec = elim (Option-cases (get_group o.uid by_order)) [
    | inl q ↦ rw (q, bid_on) rec
    | inr (ps, held) ↦ elim (Option-cases (best_bid now a o ps)) [
      | inl q ↦ rw (held, q, bid_on) rec
      | inr (b, best) ↦ elim (Option-cases (build_solution abi (suc (length r.solutions)) o b)) [
        | inl q ↦ rw (held, best, q, bid_on) rec
        | inr (s, built) ↦
            rw (held, best, built, bid_on)
              (subst (λ i. Recorded (record_bid f i (suc (length r.solutions)) b s r)) (sym known)
                (record_bid-Recorded f o ps b s r offered held best built rec))
      ]
    ]
  ]

  bid_on_all-Recorded :
      (f : ℕ → Faults) (os : List AuctionOrder) (r : Round)
      → ((o : AuctionOrder) → In o os → In o a.orders)
      → a.id ≡ some auction
      → Recorded r
      → Recorded (bid_on_all f abi now a by_order os r)
  unfolding bid_on_all
  bid_on_all-Recorded f [] r offered known rec = rec
  bid_on_all-Recorded f (o ∷ os) r offered known rec =
      bid_on_all-Recorded (λ n. f (suc n)) os (bid_on (f 0) abi now a by_order o r)
        (λ x i. offered x (there i)) known
        (bid_on-Recorded (f 0) o r (offered o (In.here refl)) known rec)

-- If the auction has an id and the lookup of the active proposals answers, each solution of the
-- round is built from the best bid for an order of the auction among the proposals that the lookup
-- holds for that order, and a row of the solutions table names that bid's proposal under the
-- auction's and the solution's id.
pub solve-IsRecorded :
    (f : ℕ → Faults) (abi : Abi) (now : U256) (a : Auction) (gas_price : ℕ) (db : Db) (auction : ℕ)
    (by_order : Groups)
    → a.id ≡ some auction
    → active_by_order_uids (f 0) (order_uids a.orders) db ≡ ok by_order
    → let r = (solve f abi now a gas_price db).round in
      All (IsRecorded abi now a auction by_order r.db.solutions) r.solutions
unfolding solve
solve-IsRecorded f abi now a gas_price db auction by_order known looked =
    rw (looked, solve)
      (All-map _ _ _ (λ s k. k.1)
        (bid_on_all-Recorded abi now a auction by_order (λ n. f (suc n)) a.orders
          (record { solutions = []; db = db }) (λ o i. i) known tt))
