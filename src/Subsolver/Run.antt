-- ===== src/Subsolver/Run.antt =====
-- The polling loop of the sub-solver (crates/subsolver/src/run.rs), with its orderbook filter
-- (crates/subsolver/src/infra/orderbook.rs) and the reading of pair reserves
-- (crates/subsolver/src/infra/blockchain.rs). `Remote` is what the clients ask of the network.
pub mod LiveMap
pub mod Holds
use byos_service.Prelude.{
  ℕ, suc, ◌+◌, ◌%◌, Bool, true, false, ◌&&◌, Option, none, some, and_then, List, [], ◌∷◌, map,
  filter_by, String, str_eq, ltb, if◌then◌else◌,
}
use byos_service.Prelude.Ints.{u64_limit}
use byos_service.Domain.Proposal.{Address, B256, U256, Bytes, Interaction}
use byos_service.Common.Dto.{WireStatus, is_terminal}
use byos_service.Common.Eip712.{Crypto, Signer, Eip712Domain}
use byos_service.Subsolver.Routing.{pair_address}
use byos_service.Subsolver.Proposal.{
  RouteKind, RouteOrder, RouteParams, RoutedProposal, Calls, build_proposal,
}
use byos_service.Subsolver.Run.LiveMap.{Live, Entries, find_live, hold, release, retain}

-- `AuctionOrder` of the auction, with the defaults of its balances filled in.
pub record AuctionEntry : Type 0 where
  pub uid : Bytes
  pub sell_token : Address
  pub buy_token : Address
  pub sell_amount : U256
  pub buy_amount : U256
  pub kind : RouteKind
  pub sell_token_balance : String
  pub buy_token_balance : String

pub record ReservesQuery : Type 0 where
  pub pair : Address
  pub sell_token : Address
  pub buy_token : Address

-- The auction, the pairs' `getReserves` in one call, `GET /proposal/{id}` and `POST /proposals`;
-- `none` is an error of the client.
pub record Remote (N : Type 0) : Type 0 where
  pub auction : N → Option (List AuctionEntry) × N
  pub multicall : List Address → N → Option (List (Option (U256 × U256))) × N
  pub status_of : ℕ → N → Option WireStatus × N
  pub submit : RoutedProposal → N → Option ℕ × N

pub record SubsolverConfig : Type 0 where
  pub signer : Signer
  pub domain : Eip712Domain
  pub trampoline : Address
  pub uniswap_router : Address
  pub uniswap_factory : Address
  pub pair_init_code_hash : B256
  pub proposal_ttl : ℕ
  pub extra_interactions : List Interaction

pub record Subsolver (N : Type 0) : Type 0 where
  pub net : N
  pub live : Entries
  pub next_nonce : ℕ

abbrev is_plain : AuctionEntry → Bool
is_plain o = str_eq o.sell_token_balance "erc20" && str_eq o.buy_token_balance "erc20"

-- The filter and the conversion of `solvable_orders`.
unfoldable pub solvable : List AuctionEntry → List RouteOrder
solvable entries =
    map
      (λ o. record {
        uid = o.uid;
        sell_token = o.sell_token;
        buy_token = o.buy_token;
        sell_amount = o.sell_amount;
        buy_amount = o.buy_amount;
        kind = o.kind;
      })
      (filter_by is_plain entries)

-- The pair holds its reserves in the order of its tokens.
unfoldable pub oriented : ReservesQuery → Option (U256 × U256) → Option (U256 × U256)
oriented q none = none
oriented q (some (reserve0, reserve1)) =
    if ltb q.sell_token q.buy_token then some (reserve0, reserve1) else some (reserve1, reserve0)

unfoldable pub orient_all :
    List ReservesQuery → List (Option (U256 × U256)) → List (Option (U256 × U256))
unfolding oriented
orient_all [] answers = []
orient_all (q ∷ qs) [] = []
orient_all (q ∷ qs) (a ∷ answers) = oriented q a ∷ orient_all qs answers

module _ {N : Type 0} (remote : Remote N) where
  -- `ChainClient::reserves`
  unfoldable pub reserves : List ReservesQuery → N → Option (List (Option (U256 × U256))) × N
  unfolding orient_all
  reserves [] net = (some [], net)
  reserves (q ∷ qs) net =
      let (answer, net') = remote.multicall (map (λ x. x.pair) (q ∷ qs)) net in
      (and_then answer (λ answers. some (orient_all (q ∷ qs) answers)), net')

  -- A failed poll of the verdict holds the proposal.
  unfoldable pub holds_live_proposal : Bytes → Subsolver N → Bool × Subsolver N
  holds_live_proposal uid s = elim (find_live uid s.live) [
    | none ↦ (false, s)
    | some live ↦
        let (answer, net) = remote.status_of live.id s.net in
        let asked = record s { net = net } in
        elim answer [
          | none ↦ (true, asked)
          | some status ↦
              if is_terminal status
              then (false, record asked { live = release uid asked.live })
              else (true, asked)
        ]
  ]

  -- The loop that collects the orders without a live proposal.
  unfoldable pub pending : List RouteOrder → Subsolver N → List RouteOrder × Subsolver N
  pending [] s = ([], s)
  pending (o ∷ os) s =
      let (held, s1) = holds_live_proposal o.uid s in
      let (rest, s2) = pending os s1 in (if held then rest else o ∷ rest, s2)

  module _ (c : Crypto) (calls : Calls) (config : SubsolverConfig) where
    -- The sums are of `u64`, which wrap in a release build.
    -- The answer `none` is an order that cannot be routed, or an error of the submission.
    unfoldable pub propose : RouteOrder → U256 → U256 → ℕ → Subsolver N → Option Live × Subsolver N
    propose o reserve_sell reserve_buy now s =
        let valid_until = (now + config.proposal_ttl) % u64_limit in
        let params : RouteParams = record {
          router = config.uniswap_router;
          trampoline = config.trampoline;
          reserve_sell = reserve_sell;
          reserve_buy = reserve_buy;
          valid_until = valid_until;
          nonce = s.next_nonce;
          extra_interactions = config.extra_interactions;
        } in
        elim (build_proposal c calls o params config.domain config.signer) [
          | none ↦ (none, s)
          | some p ↦
              let (answer, net) = remote.submit p s.net in
              (
                and_then answer (λ id. some (record { id = id; valid_until = valid_until })),
                record s { net = net; next_nonce = suc s.next_nonce % u64_limit },
              )
        ]

    -- One order of the last loop of `poll_once`.
    unfoldable pub propose_one : ℕ → RouteOrder → Option (U256 × U256) → Subsolver N → Subsolver N
    propose_one now o none s = s
    propose_one now o (some (reserve_sell, reserve_buy)) s =
        let (answer, s') = propose o reserve_sell reserve_buy now s in
        elim answer [ none ↦ s' | some live ↦ record s' { live = hold o.uid live s'.live } ]

    unfoldable pub propose_all :
        ℕ → List RouteOrder → List (Option (U256 × U256)) → Subsolver N → Subsolver N
    propose_all now [] rs s = s
    propose_all now (o ∷ os) [] s = s
    propose_all now (o ∷ os) (r ∷ rs) s = propose_all now os rs (propose_one now o r s)

    unfoldable pub query_of : (Address → B256 → B256 → Address) → RouteOrder → ReservesQuery
    unfolding pair_address
    query_of create2 o = record {
      pair =
          pair_address c.keccak256 create2 config.uniswap_factory config.pair_init_code_hash
            o.sell_token o.buy_token;
      sell_token = o.sell_token;
      buy_token = o.buy_token;
    }

    -- An error of the auction or of the multicall ends the pass.
    unfoldable pub poll_once :
        (Address → B256 → B256 → Address) → ℕ → Subsolver N → Bool × Subsolver N
    poll_once create2 now s =
        let kept = record s { live = retain now s.live } in
        let (auction, net) = remote.auction kept.net in
        let asked = record kept { net = net } in
        elim auction [
          | none ↦ (false, asked)
          | some entries ↦
              let (orders, s') = pending (solvable entries) asked in
              let (answers, net') = reserves (map (query_of create2) orders) s'.net in
              let read = record s' { net = net' } in
              elim answers [
                | none ↦ (false, read)
                | some rs ↦ (true, propose_all now orders rs read)
              ]
        ]
