-- ===== src/Infra/Blockchain/Judge/Refuses.antt =====
-- What stands behind a rejection by the simulation's validator
-- (crates/byos/src/infra/blockchain/validator.rs).
use byos_service.Prelude.{
  ℕ, ◌≡◌, ◌⊎◌, subst, ◌∙◌, inl, inr, Bool-cases, Result-cases, true, some, ok, err, arith,
}
use byos_service.Domain.Validator.{RejectionReason, reject, order_not_found, unprofitable}
use byos_service.Domain.Proposal.{Address, U256, Proposal, submitted, same_status, same_status→eq}
use byos_service.Domain.Order.{OrderRecord, check_envelope}
use byos_service.Domain.Scoring.{surplus_token}
use byos_service.Infra.Orderbook.{order_unknown, transient, FetchOrder}
use byos_service.Infra.Blockchain.Simulation.{Encoders, build_simulation}
use byos_service.Infra.Blockchain.Judge.{
  Provider, SimulationConfig, SimulationState, is_sell, gate_score, too_low, profitability,
}
use byos_service.Infra.Blockchain.Judge.Steps.{
  fetch_order, trampoline_for, authenticator_for, params_of, simulate, gate, simulation_outcome,
}
use byos_service.Infra.Blockchain.Judge.Accepts.{
  fetch_order-ok, trampoline_for-keeps, authenticator_for-keeps, simulate-ok,
}

module _ {N S : Type 0} (e : Encoders) (provider : Provider N) (orderbook : FetchOrder S)
    (config : SimulationConfig) where
  -- The orderbook has no price for the surplus token, or the score at its price is too low.
  abbrev pub IsPoor : OrderRecord → Proposal → ℕ → ℕ → Type 0
  IsPoor r p gas gas_price =
      let token = surplus_token (is_sell r.order.kind) r.order.sell_token r.order.buy_token in
      (book : S) × (((orderbook.native_price token book).0 ≡ err order_unknown)
        ⊎ ((price : U256) × ((orderbook.native_price token book).0 ≡ ok price)
            × (too_low config.min_score (gate_score r p gas gas_price price) ≡ true)))

  -- A new proposal that the gate refuses, for the gas of its simulation.
  abbrev pub IsUnprofitable : Proposal → ℕ → Type 0
  IsUnprofitable p gas_price =
      (p.status ≡ submitted)
      × (r : OrderRecord) × (tr : Address) × (auth : Address) × (book : S) × (net : N) × (gas : ℕ)
      × ((orderbook.order p.order_uid book).0 ≡ ok r)
      × ((provider.estimate_gas (build_simulation e (params_of config p r tr auth)) net).0 ≡ ok gas)
      × IsPoor r p gas gas_price

  -- The orderbook knows no such order, the order's envelope does not admit the proposal, or the
  -- proposal does not pay.
  abbrev pub IsRefused : Proposal → ℕ → RejectionReason → Type 0
  IsRefused p gas_price why =
      ((why ≡ order_not_found)
        × (book : S) × ((orderbook.order p.order_uid book).0 ≡ err order_unknown))
      ⊎ ((book : S) × (r : OrderRecord) × ((orderbook.order p.order_uid book).0 ≡ ok r)
          × (check_envelope r p ≡ err why))
      ⊎ ((why ≡ unprofitable) × IsUnprofitable p gas_price)

  fetch_order-IsRefused :
      (p : Proposal) (s : SimulationState N S) (gas_price : ℕ) (why : RejectionReason)
      → (fetch_order e provider orderbook config p s).0 ≡ err (some (reject why))
      → IsRefused p gas_price why
  unfolding fetch_order
  fetch_order-IsRefused p s gas_price why h =
      elim (Result-cases (orderbook.order p.order_uid s.book).0) [
        | inr (order_unknown, q) ↦ inl (ground arith, s.book, q)
        | inr (transient text, q) ↦ absurd (ground arith)
        | inl (found, q) ↦ elim (Result-cases (check_envelope found p)) [
          | inr (reason, c) ↦ inr (inl (s.book, found, q, ground arith))
          | inl (done, c) ↦ absurd (ground arith)
        ]
      ]

  trampoline_for-accepts :
      (p : Proposal) (s : SimulationState N S) (why : RejectionReason)
      → (trampoline_for e provider orderbook config p s).0 ≡ err (some (reject why))
      → ⊥
  unfolding trampoline_for
  trampoline_for-accepts p s why h = ground arith

  authenticator_for-accepts :
      (s : SimulationState N S) (why : RejectionReason)
      → (authenticator_for e provider orderbook config s).0 ≡ err (some (reject why))
      → ⊥
  unfolding authenticator_for
  authenticator_for-accepts s why h = ground arith

  simulate-accepts :
      (p : Proposal) (r : OrderRecord) (tr auth : Address) (s : SimulationState N S)
      (why : RejectionReason)
      → (simulate e provider orderbook config p r tr auth s).0 ≡ err (some (reject why))
      → ⊥
  unfolding simulate
  simulate-accepts p r tr auth s why h = ground arith

  gate-IsPoor :
      (p : Proposal) (r : OrderRecord) (gas : ℕ) (s : SimulationState N S) (why : RejectionReason)
      → (gate e provider orderbook config p r gas s).0 ≡ err (some (reject why))
      → (why ≡ unprofitable) × (p.status ≡ submitted) × IsPoor r p gas s.gas_price
  unfolding gate profitability
  gate-IsPoor p r gas s why h = elim (Bool-cases (same_status p.status submitted)) [
    | inr n ↦ absurd (ground arith)
    | inl y ↦
        let new = same_status→eq p.status submitted y in
        let token = surplus_token (is_sell r.order.kind) r.order.sell_token r.order.buy_token in
        elim (Result-cases (orderbook.native_price token s.book).0) [
          | inr (order_unknown, q) ↦ (ground arith, new, (s.book, inl q))
          | inr (transient text, q) ↦ absurd (ground arith)
          | inl (price, q) ↦
              elim (Bool-cases (too_low config.min_score (gate_score r p gas s.gas_price price))) [
                | inl low ↦ (ground arith, new, (s.book, inr (price, q, low)))
                | inr high ↦ absurd (ground arith)
              ]
        ]
  ]

  pub simulation_outcome-IsRefused :
      (p : Proposal) (s : SimulationState N S) (why : RejectionReason)
      → (simulation_outcome e provider orderbook config p s).0 ≡ err (some (reject why))
      → IsRefused p s.gas_price why
  unfolding simulation_outcome
  simulation_outcome-IsRefused p s why h =
      let s1 = (fetch_order e provider orderbook config p s).1 in
      let s2 = (trampoline_for e provider orderbook config p s1).1 in
      let s3 = (authenticator_for e provider orderbook config s2).1 in
      elim (Result-cases (fetch_order e provider orderbook config p s).0) [
        | inr (w, q1) ↦ fetch_order-IsRefused p s s.gas_price why (ground arith)
        | inl (r, q1) ↦ elim (Result-cases (trampoline_for e provider orderbook config p s1).0) [
          | inr (w, q2) ↦ absurd (trampoline_for-accepts p s1 why (ground arith))
          | inl (tr, q2) ↦
              elim (Result-cases (authenticator_for e provider orderbook config s2).0) [
                | inr (w, q3) ↦ absurd (authenticator_for-accepts s2 why (ground arith))
                | inl (auth, q3) ↦
                    elim (Result-cases (simulate e provider orderbook config p r tr auth s3).0) [
                      | inr (w, q4) ↦ absurd (simulate-accepts p r tr auth s3 why (ground arith))
                      | inl (gas, q4) ↦
                          let s4 = (simulate e provider orderbook config p r tr auth s3).1 in
                          let (is_poor, new, poor) = gate-IsPoor p r gas s4 why (ground arith) in
                          let (found, admitted, k1) =
                            fetch_order-ok e provider orderbook config p s s1 r (ground arith) in
                          let k2 =
                            trampoline_for-keeps e provider orderbook config p s1 s2 tr
                              (ground arith) in
                          let k3 =
                            authenticator_for-keeps e provider orderbook config s2 s3 auth
                              (ground arith) in
                          let (estimated, fits, k4) =
                            simulate-ok e provider orderbook config p r tr auth s3 s4 gas
                              (ground arith) in
                          let same : s4.gas_price ≡ s.gas_price = k4 ∙ k3 ∙ k2 ∙ k1 in
                          inr (
                            inr (
                              is_poor,
                              (
                                new,
                                r,
                                tr,
                                auth,
                                s.book,
                                s3.net,
                                gas,
                                found,
                                estimated,
                                subst (IsPoor r p gas) same poor,
                              ),
                            ))
                    ]
              ]
        ]
      ]
