-- ===== src/Domain/Order/Envelope.antt =====
-- The orders that the envelope admits (crates/byos/src/domain/order.rs).
use native.Mathlib.Nat.{le-div_iff_mul-le}
use byos_service.Prelude.{
  refl, and_then, none, ◌*◌, ◌≤◌, ◌<◌, ◌≡◌, ◌≢◌, inl, inr, Bool, Bool-cases, Option-cases, subst,
  false, true, some, arith, ok, ◌↔◌,
}
use byos_service.Prelude.Ints.{u256_limit, checked_mul, checked_sub, checked_div, div_ceil-le_iff}
use byos_service.Domain.Proposal.{Proposal, U256}
use byos_service.Domain.Scoring.{Candidate, scaled_to_fill, surplus}
use byos_service.Domain.Order.{
  OrderKind, sell, buy, CowOrder, OrderRecord, check_fill_side, check_fill_or_kill, check_envelope,
}

-- A partial fill of a sell order at or above the limit price.
abbrev pub Fills : OrderKind → CowOrder → Proposal → Type 0
Fills sell o p =
    (0 < p.sell_amount)
    × (p.sell_amount ≤ o.sell_amount)
    × (p.sell_amount * o.buy_amount ≤ p.buy_amount * o.sell_amount)
    × (p.buy_amount * o.sell_amount < u256_limit)
Fills buy o p =
    (0 < p.buy_amount)
    × (0 < p.sell_amount)
    × (p.buy_amount ≤ o.buy_amount)
    × (p.sell_amount * o.buy_amount ≤ p.buy_amount * o.sell_amount)
    × (p.buy_amount * o.sell_amount < u256_limit)

pub check_fill_side-Fills :
    (k : OrderKind) (o : CowOrder) (p : Proposal) → (check_fill_side k o p ≡ ok tt) ↔ Fills k o p
unfolding check_fill_side checked_mul
check_fill_side-Fills sell o p = ground arith
check_fill_side-Fills buy o p = ground arith

-- The proposal quotes exactly the order's target amount.
abbrev pub Quotes : OrderKind → CowOrder → Proposal → Type 0
Quotes sell o p = p.sell_amount ≡ o.sell_amount
Quotes buy o p = p.buy_amount ≡ o.buy_amount

abbrev pub FillOrQuote : Bool → CowOrder → Proposal → Type 0
FillOrQuote true o p = Fills o.kind o p
FillOrQuote false o p = Quotes o.kind o p

check_fill_or_kill-Quotes :
    (k : OrderKind) (r : OrderRecord) (p : Proposal)
    → r.order.kind ≡ k
    → (check_fill_or_kill r p ≡ ok tt) ↔ Quotes k r.order p
unfolding check_fill_or_kill
check_fill_or_kill-Quotes sell r p e = ground arith
check_fill_or_kill-Quotes buy r p e = ground arith

-- The envelope admits exactly the orders in plain erc20 balances whose proposal fills within the
-- limit price, with no overflow of the products, if the order is partially fillable, or quotes the
-- whole target amount, if it is not.
pub check_envelope_iff :
    (r : OrderRecord) (p : Proposal)
    → (check_envelope r p ≡ ok tt)
      ↔ ((r.erc20_balances ≡ true) × FillOrQuote r.order.partially_fillable r.order p)
unfolding check_envelope
check_envelope_iff r p = elim (Bool-cases r.order.partially_fillable) [
  | inl e ↦ rw e (ground (arith, check_fill_side-Fills r.order.kind r.order p))
  | inr e ↦ rw e (ground (arith, check_fill_or_kill-Quotes r.order.kind r p refl))
]

abbrev is_sell : OrderKind → Bool
is_sell sell = true
is_sell buy = false

abbrev pub candidate_of : CowOrder → Proposal → U256 → Candidate
candidate_of o p gas_cost = record {
  order_sell = o.sell_amount;
  order_buy = o.buy_amount;
  proposal_sell = p.sell_amount;
  proposal_buy = p.buy_amount;
  is_sell_order = is_sell o.kind;
  gas_cost = gas_cost;
}

Fills-surplus :
    (k : OrderKind) (o : CowOrder) (p : Proposal) (gas_cost : U256)
    → o.kind ≡ k
    → Fills k o p
    → and_then (scaled_to_fill (candidate_of o p gas_cost) true) surplus ≢ none
unfolding scaled_to_fill checked_mul checked_div surplus checked_sub
Fills-surplus sell o p gas_cost e f =
    ground (arith, div_ceil-le_iff (o.buy_amount * p.sell_amount) o.sell_amount p.buy_amount)
Fills-surplus buy o p gas_cost e f = ground (
  arith,
  le-div_iff_mul-le {k = o.buy_amount} {x = p.sell_amount} {y = o.sell_amount * p.buy_amount},
)

-- A fill of a partially fillable order that the envelope admits has a surplus over the limit that
-- scoring scales to the fill.
pub check_envelope-surplus :
    (r : OrderRecord) (p : Proposal) (gas_cost : U256)
    → r.order.partially_fillable ≡ true
    → check_envelope r p ≡ ok tt
    → (s : U256) × (and_then (scaled_to_fill (candidate_of r.order p gas_cost) true) surplus
        ≡ some s)
check_envelope-surplus r p gas_cost partial h =
    elim (Option-cases (and_then (scaled_to_fill (candidate_of r.order p gas_cost) true) surplus)) [
      | inr found ↦ found
      | inl q ↦
          let fills =
            subst (λ b. FillOrQuote b r.order p) partial ((check_envelope_iff r p).0 h).1 in
          absurd (Fills-surplus r.order.kind r.order p gas_cost refl fills q)
    ]
