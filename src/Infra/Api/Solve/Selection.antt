-- ===== src/Infra/Api/Solve/Selection.antt =====
-- The selection of the best bid of an order (crates/byos/src/infra/api/solve.rs).
use byos_service.Prelude.{
  In-filter_map, In-filter_by, filter_by-In, filter_map-In, All-In, ltb→lt, lt→ltb, sym, subst,
  All-map, filter_map, filter_by, ℕ, ◌≤◌, ◌<◌, ◌≡◌, refl, inl, inr, Bool-cases, Option-cases, false,
  none, some, List, [], ◌∷◌, In, here, there, All, arith, filter_map, filter_by, ltb,
}
use byos_service.Domain.Proposal.{U256, Proposal}
use byos_service.Domain.Scoring.{Candidate, scaled_to_fill, score_proposal}
use byos_service.Domain.GasCut.{GasCut, size}
use byos_service.Domain.GasCut.Cover.{Fulfills, size-Fulfills}
use byos_service.Infra.Api.Solve.{
  Auction, AuctionOrder, Bid, candidate_of, exceeds, surplus_price, price_of, bid_of, max_by_score,
  best_bid,
}

-- All that the round asks of a bid.
pub record IsSound (now : U256) (a : Auction) (o : AuctionOrder) (b : Bid) : Type 0 where
  pub unexpired : now < b.proposal.valid_until
  pub within : exceeds o b.proposal ≡ false
  pub simulated : b.proposal.gas_used ≡ some b.gas_used
  pub positive : 0 < b.score
  pub candidate : Candidate
  pub scaled :
      scaled_to_fill (candidate_of a o b.proposal b.gas_used) o.partially_fillable ≡ some candidate
  pub scored : score_proposal candidate (surplus_price a o) ≡ some b.score
  pub fulfills : Fulfills candidate.is_sell_order candidate b.cut

max_by_score-greatest :
    (bs : List Bid) {b : Bid} → max_by_score bs ≡ some b → In b bs × All (λ c. c.score ≤ b.score) bs
unfolding max_by_score
max_by_score-greatest [] h = cc
max_by_score-greatest (x ∷ bs) {b} h = elim (Option-cases (max_by_score bs)) [
  | inl q ↦ let e : x ≡ b = ground arith in (here e, (ground arith, none_left bs q))
  | inr (best, q) ↦ elim (Bool-cases (ltb best.score x.score)) [
    | inl y ↦
        let e : x ≡ b = ground arith in
        (here e, (ground arith, All-le bs (ground arith) (max_by_score-greatest bs q).1))
    | inr n ↦
        let e : best ≡ b = ground arith in
        let (i, g) = max_by_score-greatest bs {b = b} (ground arith) in (there i, (ground arith, g))
  ]
]
  where
    none_left : (cs : List Bid) → max_by_score cs ≡ none → All (λ c. c.score ≤ b.score) cs
    none_left [] q = tt
    none_left (y ∷ cs) q = absurd (ground arith)

    All-le :
        (cs : List Bid) {m n : U256} → m ≤ n → All (λ c. c.score ≤ m) cs → All (λ c. c.score ≤ n) cs
    All-le cs le g = All-map _ _ cs (λ c k. omega arith) g

bid_of-IsSound :
    (now : U256) (a : Auction) (o : AuctionOrder) (p : Proposal) {b : Bid}
    → now < p.valid_until
    → bid_of a o p ≡ some b
    → IsSound now a o b × (b.proposal ≡ p)
unfolding bid_of
bid_of-IsSound now a o p {b} u h = elim (Bool-cases (exceeds o p)) [
  | inl y ↦ ground arith
  | inr n ↦ elim (Option-cases p.gas_used) [
    | inl q ↦ ground arith
    | inr (gas, g) ↦
        elim (Option-cases (scaled_to_fill (candidate_of a o p gas) o.partially_fillable)) [
          | inl q ↦ ground arith
          | inr (c, sc) ↦ elim (Option-cases (score_proposal c (surplus_price a o))) [
            | inl q ↦ ground arith
            | inr (score, s) ↦ elim (Option-cases (size c (price_of a o.sell_token))) [
              | inl q ↦ ground arith
              | inr (cut, k) ↦ made n gas c score cut g sc s k (ground arith) (ground arith)
            ]
          ]
        ]
  ]
]
  where
    made :
        (n : exceeds o p ≡ false) (gas : ℕ) (c : Candidate) (score : U256) (cut : GasCut)
        → p.gas_used ≡ some gas
        → scaled_to_fill (candidate_of a o p gas) o.partially_fillable ≡ some c
        → score_proposal c (surplus_price a o) ≡ some score
        → size c (price_of a o.sell_token) ≡ some cut
        → 0 < score
        → record { proposal = p; gas_used = gas; cut = cut; score = score } ≡ b
        → IsSound now a o b × (b.proposal ≡ p)
    made n gas c score cut g sc s k pos e =
        subst (λ d. IsSound now a o d × (d.proposal ≡ p)) e
          (
            record {
              unexpired = u;
              within = n;
              simulated = g;
              positive = pos;
              candidate = c;
              scaled = sc;
              scored = s;
              fulfills = size-Fulfills c (price_of a o.sell_token) cut k;
            },
            refl,
          )

-- The best bid of an order stems from one of the order's proposals, which has not expired, does
-- not exceed what is left of a partially fillable order and has been simulated; its score is
-- positive and is that of the scaled candidate, its cut fulfills the candidate's limit, and no
-- unexpired proposal of the order has a bid that scores higher.
pub best_bid-greatest :
    (now : U256) (a : Auction) (o : AuctionOrder) (ps : List Proposal) {b : Bid}
    → best_bid now a o ps ≡ some b
    → IsSound now a o b
      × In b.proposal ps
      × ((p : Proposal) (c : Bid)
          → In p ps
          → now < p.valid_until
          → bid_of a o p ≡ some c
          → c.score ≤ b.score)
unfolding best_bid
best_bid-greatest now a o ps {b} h =
    let bids = filter_map (bid_of a o) (filter_by (λ p. ltb now p.valid_until) ps) in
    let (i, g) = max_by_score-greatest bids h in
    let (p, j, e) = In-filter_map (bid_of a o) _ i in
    let (k, u) = In-filter_by (λ p. ltb now p.valid_until) ps j in
    let (sound, same) = bid_of-IsSound now a o p (ltb→lt now p.valid_until u) e in
    (
      sound,
      subst (λ q. In q ps) (sym same) k,
      λ q c i u e.
          All-In (λ d. d.score ≤ b.score) g
            (filter_map-In (bid_of a o)
              (filter_by-In (λ p. ltb now p.valid_until) i (lt→ltb now q.valid_until u)) e),
    )

max_by_score-none : (bs : List Bid) {b : Bid} → In b bs → max_by_score bs ≡ none → ⊥
unfolding max_by_score
max_by_score-none [] i h = elim i [ ]
max_by_score-none (x ∷ bs) i h = ground arith

-- If an order has no best bid, then none of its unexpired proposals has a bid.
pub best_bid-none :
    (now : U256) (a : Auction) (o : AuctionOrder) (ps : List Proposal)
    → best_bid now a o ps ≡ none
    → (p : Proposal) → In p ps
    → now < p.valid_until
    → bid_of a o p ≡ none
unfolding best_bid
best_bid-none now a o ps h p i u = elim (Option-cases (bid_of a o p)) [
  | inl q ↦ q
  | inr (b, q) ↦ absurd (
      max_by_score-none _
        (filter_map-In (bid_of a o)
          (filter_by-In (λ p. ltb now p.valid_until) i (lt→ltb now p.valid_until u)) q)
        h)
]
