-- ===== src/Infra/Api/Solve.antt =====
-- The `/solve` handler (crates/byos/src/infra/api/solve.rs). Of the driver's auction and of a
-- solution, which are third-party types, the fields that the handler reads and fills.
pub mod Selection
pub mod Bids
pub mod Answers
pub mod Steps
use byos_service.Prelude.{
  ℕ, suc, ◌+◌, Bool, true, false, ◌&&◌, not, Option, none, some, and_then, unwrap_or, Result, ok,
  err, List, [], ◌∷◌, ◌++◌, length, filter_by, filter_map, ltb, ◌==◌, if◌then◌else◌,
}
use byos_service.Prelude.Ints.{u64_limit, saturating_mul}
use byos_service.Domain.Proposal.{Address, OrderUid, U256, Proposal, Interaction}
use byos_service.Domain.Order.{OrderKind, sell, buy}
use byos_service.Domain.Scoring.{
  Candidate, effective_gas, surplus_token, scaled_to_fill, score_proposal,
}
use byos_service.Domain.GasCut.{GasCut, size}
use byos_service.Common.Trampoline.{Abi, SignedProposal, encode_trampoline_interactions}
use byos_service.Infra.Storage.Db.{Db, Faults}
use byos_service.Infra.Storage.Queries.{Groups, get_group, active_by_order_uids}
use byos_service.Infra.Storage.Queues.{record_solution}

pub record AuctionOrder : Type 0 where
  pub uid : OrderUid
  pub kind : OrderKind
  pub sell_token : Address
  pub buy_token : Address
  pub sell_amount : U256
  pub buy_amount : U256
  pub partially_fillable : Bool

-- `reference_price` is `tokens.get(&token).and_then(|t| t.reference_price)`.
pub record Auction : Type 0 where
  pub id : Option ℕ
  pub orders : List AuctionOrder
  pub effective_gas_price : U256
  pub reference_price : Address → Option U256

-- `prices` is the `HashMap` of clearing prices.
pub record Solution : Type 0 where
  pub id : ℕ
  pub prices : List (Address × U256)
  pub order_uid : OrderUid
  pub executed_amount : U256
  pub fee : Option U256
  pub interactions : List Interaction
  pub gas : Option ℕ

-- What `filter_map` yields for a proposal that may bid.
pub record Bid : Type 0 where
  pub proposal : Proposal
  pub gas_used : ℕ
  pub cut : GasCut
  pub score : U256

abbrev pub is_sell : OrderKind → Bool
is_sell sell = true
is_sell buy = false

abbrev pub price_of : Auction → Address → U256
price_of a token = unwrap_or (a.reference_price token) 0

-- The fill of a partially fillable order that is more than what is left of it.
abbrev pub exceeds : AuctionOrder → Proposal → Bool
exceeds o p =
    o.partially_fillable
    && (if is_sell o.kind then ltb o.sell_amount p.sell_amount else ltb o.buy_amount p.buy_amount)

abbrev pub candidate_of : Auction → AuctionOrder → Proposal → ℕ → Candidate
candidate_of a o p gas_used = record {
  order_sell = o.sell_amount;
  order_buy = o.buy_amount;
  proposal_sell = p.sell_amount;
  proposal_buy = p.buy_amount;
  is_sell_order = is_sell o.kind;
  gas_cost = saturating_mul (effective_gas gas_used) a.effective_gas_price;
}

abbrev pub surplus_price : Auction → AuctionOrder → U256
surplus_price a o = price_of a (surplus_token (is_sell o.kind) o.sell_token o.buy_token)

-- The closure of `filter_map`.
unfoldable pub bid_of : Auction → AuctionOrder → Proposal → Option Bid
unfolding scaled_to_fill score_proposal size
bid_of a o p =
    if exceeds o p
    then none
    else and_then p.gas_used (λ gas_used.
      and_then (scaled_to_fill (candidate_of a o p gas_used) o.partially_fillable) (λ c.
        and_then (score_proposal c (surplus_price a o)) (λ score.
          and_then (size c (price_of a o.sell_token)) (λ cut.
            if ltb 0 score
            then some (record { proposal = p; gas_used = gas_used; cut = cut; score = score })
            else none))))

-- `max_by_key`: of several greatest scores the last one.
unfoldable pub max_by_score : List Bid → Option Bid
max_by_score [] = none
max_by_score (b ∷ bs) = elim (max_by_score bs) [
  | none ↦ some b
  | some best ↦ if ltb best.score b.score then some b else some best
]

unfoldable pub best_bid : U256 → Auction → AuctionOrder → List Proposal → Option Bid
unfolding bid_of max_by_score
best_bid now a o proposals =
    max_by_score (filter_map (bid_of a o) (filter_by (λ p. ltb now p.valid_until) proposals))

-- `HashMap::insert`
unfoldable pub insert_price : Address → U256 → List (Address × U256) → List (Address × U256)
insert_price token price [] = (token, price) ∷ []
insert_price token price ((t, v) ∷ rest) =
    if t == token then (t, price) ∷ rest else (t, v) ∷ insert_price token price rest

unfoldable pub build_solution : Abi → ℕ → AuctionOrder → Bid → Option Solution
unfolding encode_trampoline_interactions insert_price effective_gas
build_solution abi id o b = and_then b.proposal.trampoline (λ trampoline. some (record {
  id = id;
  prices =
      insert_price o.buy_token b.proposal.sell_amount
        (insert_price o.sell_token b.proposal.buy_amount []);
  order_uid = o.uid;
  executed_amount = b.cut.executed_amount;
  fee = some b.cut.amount;
  interactions =
      encode_trampoline_interactions abi trampoline o.sell_token
        (record {
          order_uid_hash = b.proposal.order_uid_hash;
          sell_amount = b.proposal.sell_amount;
          buy_amount = b.proposal.buy_amount;
          valid_until = b.proposal.valid_until;
          nonce = b.proposal.nonce;
        })
        b.proposal.interactions o.buy_token b.proposal.signature;
  gas = some (effective_gas b.gas_used);
}))

-- The solutions so far, and the database.
pub record Round : Type 0 where
  pub solutions : List Solution
  pub db : Db

-- The record of who bid, which is written before the bid is made; a quote has no auction id.
unfoldable pub record_bid : Faults → Option ℕ → ℕ → Bid → Solution → Round → Round
unfolding record_solution
record_bid f none solution_id b sol r = record r { solutions = r.solutions ++ (sol ∷ []) }
record_bid f (some auction_id) solution_id b sol r =
    let (answer, after) = record_solution f auction_id solution_id b.proposal.id r.db in
    elim answer [
      | ok done ↦ record { solutions = r.solutions ++ (sol ∷ []); db = after }
      | err e ↦ record r { db = after }
    ]

-- The body of the loop over the auction's orders; a `continue` leaves the round as it is.
unfoldable pub bid_on : Faults → Abi → U256 → Auction → Groups → AuctionOrder → Round → Round
unfolding get_group best_bid build_solution record_bid
bid_on f abi now a by_order o r =
    let id = suc (length r.solutions) in
    elim (get_group o.uid by_order) [
      | none ↦ r
      | some proposals ↦ elim (best_bid now a o proposals) [
        | none ↦ r
        | some b ↦ elim (build_solution abi id o b) [
          | none ↦ r
          | some sol ↦ record_bid f a.id id b sol r
        ]
      ]
    ]

-- `f n` are the faults of the calls for the n-th order.
unfoldable pub bid_on_all :
    (ℕ → Faults) → Abi → U256 → Auction → Groups → List AuctionOrder → Round → Round
unfolding bid_on
bid_on_all f abi now a by_order [] r = r
bid_on_all f abi now a by_order (o ∷ os) r =
    bid_on_all (λ n. f (suc n)) abi now a by_order os (bid_on (f 0) abi now a by_order o r)

-- The uids of the auction's orders.
abbrev pub order_uids : List AuctionOrder → List OrderUid
order_uids [] = []
order_uids (o ∷ os) = o.uid ∷ order_uids os

-- What `/solve` leaves: the shared gas price, the answer and the database.
pub record Solved : Type 0 where
  pub gas_price : ℕ
  pub round : Round

unfoldable pub publish_gas_price : U256 → ℕ → ℕ
publish_gas_price effective_gas_price previous =
    if ltb effective_gas_price u64_limit then effective_gas_price else previous

unfoldable pub solve : (ℕ → Faults) → Abi → U256 → Auction → ℕ → Db → Solved
unfolding publish_gas_price active_by_order_uids bid_on_all
solve f abi now a gas_price db = record {
  gas_price = publish_gas_price a.effective_gas_price gas_price;
  round = elim (active_by_order_uids (f 0) (order_uids a.orders) db) [
    | err e ↦ record { solutions = []; db = db }
    | ok by_order ↦
        bid_on_all (λ n. f (suc n)) abi now a by_order a.orders (record { solutions = []; db = db })
  ];
}
