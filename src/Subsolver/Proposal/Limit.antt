-- ===== src/Subsolver/Proposal/Limit.antt =====
-- A proposal that the sub-solver builds meets the limit of its order
-- (crates/subsolver/src/domain/proposal.rs and the envelope of crates/byos/src/domain/order.rs).
use byos_service.Prelude.{◌≤◌, ◌≡◌, refl, inl, inr, Option-cases, true, false, some, ok, arith}
use byos_service.Domain.Proposal.{U256, Proposal}
use byos_service.Domain.Order.{OrderKind, OrderRecord, check_envelope}
use byos_service.Common.Eip712.{Crypto, Signer, Eip712Domain}
use byos_service.Subsolver.Proposal.{
  RouteKind, RouteOrder, RouteParams, RoutedProposal, Calls, route_amounts, build_proposal,
}

-- The amounts that a route of the order may have.
abbrev pub WithinLimit : RouteKind → RouteOrder → U256 → U256 → Type 0
WithinLimit RouteKind.sell o sell_amount buy_amount =
    (sell_amount ≡ o.sell_amount) × (o.buy_amount ≤ buy_amount)
WithinLimit RouteKind.buy o sell_amount buy_amount =
    (sell_amount ≤ o.sell_amount) × (buy_amount ≡ o.buy_amount)

-- The fill-or-kill order of the orderbook that the sub-solver sees as `o`.
abbrev pub Shows : OrderRecord → RouteKind → RouteOrder → Type 0
Shows r RouteKind.sell o =
    (r.order.kind ≡ OrderKind.sell)
    × (r.order.sell_amount ≡ o.sell_amount)
    × (r.order.partially_fillable ≡ false)
    × (r.erc20_balances ≡ true)
Shows r RouteKind.buy o =
    (r.order.kind ≡ OrderKind.buy)
    × (r.order.buy_amount ≡ o.buy_amount)
    × (r.order.partially_fillable ≡ false)
    × (r.erc20_balances ≡ true)

route-WithinLimit :
    (kind : RouteKind) (o : RouteOrder) (params : RouteParams) (s b : U256)
    → o.kind ≡ kind
    → route_amounts o params ≡ some (s, b)
    → WithinLimit kind o s b
unfolding route_amounts
route-WithinLimit RouteKind.sell o params s b e h = ground arith
route-WithinLimit RouteKind.buy o params s b e h = ground arith

admitted :
    (kind : RouteKind) (o : RouteOrder) (r : OrderRecord) (q : Proposal)
    → Shows r kind o
    → WithinLimit kind o q.sell_amount q.buy_amount
    → check_envelope r q ≡ ok tt
unfolding check_envelope
admitted RouteKind.sell o r q shown w = ground arith
admitted RouteKind.buy o r q shown w = ground arith

module _ (c : Crypto) (calls : Calls) (domain : Eip712Domain) (signer : Signer) where
  built :
      (o : RouteOrder) (params : RouteParams) (p : RoutedProposal)
      → build_proposal c calls o params domain signer ≡ some p
      → (route_amounts o params ≡ some (p.sell_amount, p.buy_amount))
        × (p.order_uid ≡ o.uid)
        × (p.nonce ≡ params.nonce)
        × (p.valid_until ≡ params.valid_until)
  unfolding build_proposal
  built o params p h = elim (Option-cases (route_amounts o params)) [
    | inl q ↦ absurd (ground arith)
    | inr ((s, b), q) ↦ (ground arith, ground arith, ground arith, ground arith)
  ]

  -- A proposal that the sub-solver builds meets its order's limit on one side and fills the other
  -- exactly, and a proposal of its amounts passes the service's envelope check of a fill-or-kill
  -- order in plain erc20 balances that shows the same amounts.
  pub build_proposal-WithinLimit :
      (o : RouteOrder) (params : RouteParams) (p : RoutedProposal) (r : OrderRecord) (q : Proposal)
      → build_proposal c calls o params domain signer ≡ some p
      → Shows r o.kind o
      → q.sell_amount ≡ p.sell_amount
      → q.buy_amount ≡ p.buy_amount
      → WithinLimit o.kind o p.sell_amount p.buy_amount × (check_envelope r q ≡ ok tt)
  build_proposal-WithinLimit o params p r q h shown sells buys =
      let within =
        route-WithinLimit o.kind o params p.sell_amount p.buy_amount refl (built o params p h).0 in
      (within, admitted o.kind o r q shown (rw (sells, buys) within))
