-- ===== src/Infra/Blockchain/Judge/Accepts.antt =====
-- What stands behind a simulation that the validator accepts
-- (crates/byos/src/infra/blockchain/validator.rs).
use byos_service.Prelude.{
  ℕ, ◌<◌, ◌≡◌, refl, sym, subst, ◌∙◌, inl, inr, Option-cases, Result-cases, some, ok, arith, ◌⊎◌,
  ◌≢◌, Bool-cases,
}
use byos_service.Prelude.Ints.{i64_limit}
use byos_service.Domain.Validator.{SimulationOutcome}
use byos_service.Domain.Proposal.{
  Address, U256, Proposal, submitted, same_status_refl, same_status→eq, same_status,
}
use byos_service.Domain.Order.{OrderRecord, check_envelope}
use byos_service.Domain.Scoring.{surplus_token}
use byos_service.Infra.Orderbook.{order_unknown, transient, FetchOrder}
use byos_service.Infra.Blockchain.Simulation.{Encoders, build_simulation}
use byos_service.Infra.Blockchain.Judge.{
  Provider, SimulationConfig, SimulationState, is_sell, gate_score, resolve_trampoline,
  profitability,
}
use byos_service.Infra.Blockchain.Judge.Steps.{
  fetch_order, trampoline_for, authenticator_for, params_of, simulate, gate, simulation_outcome,
}

module _ {N S : Type 0} (e : Encoders) (provider : Provider N) (orderbook : FetchOrder S)
    (config : SimulationConfig) where
  pub fetch_order-ok :
      (p : Proposal) (s t : SimulationState N S) (r : OrderRecord)
      → fetch_order e provider orderbook config p s ≡ (ok r, t)
      → ((orderbook.order p.order_uid s.book).0 ≡ ok r)
        × (check_envelope r p ≡ ok tt)
        × (t.gas_price ≡ s.gas_price)
  unfolding fetch_order
  fetch_order-ok p s t r h = elim (Result-cases (orderbook.order p.order_uid s.book).0) [
    | inr (order_unknown, q) ↦ absurd (ground arith)
    | inr (transient why, q) ↦ absurd (ground arith)
    | inl (found, q) ↦ elim (Result-cases (check_envelope found p)) [
      | inr (reason, c) ↦ absurd (ground arith)
      | inl (done, c) ↦ (ground arith, ground arith, ground arith)
    ]
  ]

  pub trampoline_for-keeps :
      (p : Proposal) (s t : SimulationState N S) (a : Address)
      → trampoline_for e provider orderbook config p s ≡ (ok a, t)
      → t.gas_price ≡ s.gas_price
  unfolding trampoline_for resolve_trampoline
  trampoline_for-keeps p s t a h = ground arith

  pub authenticator_for-keeps :
      (s t : SimulationState N S) (a : Address)
      → authenticator_for e provider orderbook config s ≡ (ok a, t)
      → t.gas_price ≡ s.gas_price
  unfolding authenticator_for
  authenticator_for-keeps s t a h = ground arith

  pub simulate-ok :
      (p : Proposal) (r : OrderRecord) (tr auth : Address) (s t : SimulationState N S) (gas : ℕ)
      → simulate e provider orderbook config p r tr auth s ≡ (ok gas, t)
      → ((provider.estimate_gas (build_simulation e (params_of config p r tr auth)) s.net).0
          ≡ ok gas)
        × (gas < i64_limit)
        × (t.gas_price ≡ s.gas_price)
  unfolding simulate
  simulate-ok p r tr auth s t gas h = ground arith

  abbrev pub Scores : OrderRecord → Proposal → ℕ → ℕ → Type 0
  Scores r p gas gas_price =
      (book : S) × (price : U256) × (score : U256) × ((orderbook.native_price
          (surplus_token (is_sell r.order.kind) r.order.sell_token r.order.buy_token) book).0
        ≡ ok price)
      × (gate_score r p gas gas_price price ≡ some score)
      × (config.min_score < score)

  gate-ok :
      (p : Proposal) (r : OrderRecord) (gas : ℕ) (s t : SimulationState N S)
      → gate e provider orderbook config p r gas s ≡ (ok tt, t)
      → p.status ≡ submitted
      → Scores r p gas s.gas_price
  unfolding gate profitability
  gate-ok p r gas s t h new =
      let token = surplus_token (is_sell r.order.kind) r.order.sell_token r.order.buy_token in
      elim (Result-cases (orderbook.native_price token s.book).0) [
        | inr (order_unknown, q) ↦ absurd (ground (arith, same_status_refl submitted))
        | inr (transient why, q) ↦ absurd (ground (arith, same_status_refl submitted))
        | inl (price, q) ↦ elim (Option-cases (gate_score r p gas s.gas_price price)) [
          | inl unscored ↦ absurd (ground (arith, same_status_refl submitted))
          | inr (score, scored) ↦
              (s.book, price, score, q, scored, ground (arith, same_status_refl submitted))
        ]
      ]

  gate-cases :
      (p : Proposal) (r : OrderRecord) (gas : ℕ) (s t : SimulationState N S) (gas_price : ℕ)
      → s.gas_price ≡ gas_price
      → gate e provider orderbook config p r gas s ≡ (ok tt, t)
      → (p.status ≢ submitted) ⊎ Scores r p gas gas_price
  gate-cases p r gas s t gas_price same h = elim (Bool-cases (same_status p.status submitted)) [
    | inl y ↦
        inr (
          subst (Scores r p gas) same (gate-ok p r gas s t h (same_status→eq p.status submitted y)))
    | inr n ↦ inl (λ new. cc (n, new, same_status_refl submitted))
  ]

  -- What stands behind an accepted simulation: the order, in its envelope; the node's estimate of
  -- the settlement, which `i64` holds; and, for a first verdict, a score above the minimum.
  abbrev pub IsSimulated : Proposal → ℕ → SimulationOutcome → Type 0
  IsSimulated p gas_price o =
      (r : OrderRecord) × (auth : Address) × (book : S) × (net : N) × ((orderbook.order p.order_uid
          book).0
        ≡ ok r)
      × (check_envelope r p ≡ ok tt)
      × ((provider.estimate_gas (build_simulation e (params_of config p r o.trampoline auth)) net).0
          ≡ ok o.gas_used)
      × (o.gas_used < i64_limit)
      × ((o.sell_token ≡ r.order.sell_token) × (o.buy_token ≡ r.order.buy_token))
      × ((p.status ≢ submitted) ⊎ Scores r p o.gas_used gas_price)

  pub simulation_outcome-ok :
      (p : Proposal) (s s' : SimulationState N S) (o : SimulationOutcome)
      → simulation_outcome e provider orderbook config p s ≡ (ok o, s')
      → IsSimulated p s.gas_price o
  unfolding simulation_outcome
  simulation_outcome-ok p s s' o h =
      let s1 = (fetch_order e provider orderbook config p s).1 in
      let s2 = (trampoline_for e provider orderbook config p s1).1 in
      let s3 = (authenticator_for e provider orderbook config s2).1 in
      elim (Result-cases (fetch_order e provider orderbook config p s).0) [
        | inr (v, q1) ↦ absurd (ground arith)
        | inl (r, q1) ↦ elim (Result-cases (trampoline_for e provider orderbook config p s1).0) [
          | inr (v, q2) ↦ absurd (ground arith)
          | inl (tr, q2) ↦
              elim (Result-cases (authenticator_for e provider orderbook config s2).0) [
                | inr (v, q3) ↦ absurd (ground arith)
                | inl (auth, q3) ↦
                    elim (Result-cases (simulate e provider orderbook config p r tr auth s3).0) [
                      | inr (v, q4) ↦ absurd (ground arith)
                      | inl (gas, q4) ↦
                          let s4 = (simulate e provider orderbook config p r tr auth s3).1 in
                          elim (Result-cases (gate e provider orderbook config p r gas s4).0) [
                            | inr (v, q5) ↦ absurd (ground arith)
                            | inl (done, q5) ↦
                                let shape : o ≡ record {
                                  gas_used = gas;
                                  trampoline = tr;
                                  sell_token = r.order.sell_token;
                                  buy_token = r.order.buy_token;
                                } =
                                  ground arith in
                                let (found, admitted, k1) =
                                  fetch_order-ok p s s1 r (ground arith) in
                                let k2 = trampoline_for-keeps p s1 s2 tr (ground arith) in
                                let k3 = authenticator_for-keeps s2 s3 auth (ground arith) in
                                let (estimated, fits, k4) =
                                  simulate-ok p r tr auth s3 s4 gas (ground arith) in
                                let same : s4.gas_price ≡ s.gas_price = k4 ∙ k3 ∙ k2 ∙ k1 in
                                subst (IsSimulated p s.gas_price) (sym shape) (
                                  r,
                                  auth,
                                  s.book,
                                  s3.net,
                                  found,
                                  admitted,
                                  estimated,
                                  fits,
                                  (refl, refl),
                                  gate-cases p r gas s4
                                      (gate e provider orderbook config p r gas s4).1 s.gas_price
                                      same (ground arith),
                                )
                          ]
                    ]
              ]
        ]
      ]
