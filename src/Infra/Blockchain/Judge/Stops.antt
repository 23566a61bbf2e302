-- ===== src/Infra/Blockchain/Judge/Stops.antt =====
-- What an early return of the validator answers
-- (crates/byos/src/infra/blockchain/validator.rs).
use byos_service.Prelude.{
  ℕ, ◌≡◌, ◌⊎◌, subst, inl, inr, Bool-cases, Option-cases, Result-cases, true, Option, none, some,
  Result, ok, err, arith,
}
use byos_service.Domain.Validator.{
  Verdict, accept, reject, sim_failed, RejectionReason, order_not_found,
}
use byos_service.Domain.Proposal.{Address, Proposal, submitted, same_status}
use byos_service.Domain.Order.{OrderRecord, check_envelope}
use byos_service.Infra.Orderbook.{order_unknown, transient, FetchOrder}
use byos_service.Infra.Blockchain.Simulation.{Encoders, build_simulation}
use byos_service.Infra.Blockchain.Judge.{
  RpcError, ContractError, Provider, SimulationConfig, SimulationState, gated, is_revert,
  is_trampoline_revert, resolve_trampoline, profitability,
}
use byos_service.Infra.Blockchain.Judge.Steps.{
  fetch_order, trampoline_for, authenticator_for, params_of, simulate, gate, simulation_outcome,
}

module _ {N S : Type 0} (e : Encoders) (provider : Provider N) (orderbook : FetchOrder S)
    (config : SimulationConfig) where
  -- A trampoline call or an estimate that the node answers with a revert.
  abbrev pub HasReverted : Proposal → Type 0
  HasReverted p =
      ((net : N) × (why : ContractError) × ((provider.address_of config.trampoline_factory
            p.sub_solver net).0
          ≡ err why)
        × (is_trampoline_revert why ≡ true))
      ⊎ ((r : OrderRecord) × (tr : Address) × (auth : Address) × (net : N) × (why : RpcError)
          × ((provider.estimate_gas (build_simulation e (params_of config p r tr auth)) net).0
              ≡ err why)
          × (is_revert why ≡ true))

  resolve_trampoline-err :
      (p : Proposal) (s : SimulationState N S) (why : ContractError)
      → (resolve_trampoline e provider orderbook config p.sub_solver s).0 ≡ err why
      → (provider.address_of config.trampoline_factory p.sub_solver s.net).0 ≡ err why
  unfolding resolve_trampoline
  resolve_trampoline-err p s why h = ground arith

  -- What an early return may answer: nothing, a rejection, or a failure that the node has reported.
  abbrev pub Stops : Proposal → Option Verdict → Type 0
  Stops p none = Unit {0}
  Stops p (some (reject why)) = Unit {0}
  Stops p (some sim_failed) = HasReverted p
  Stops p (some (accept o)) = ⊥

  stops : (p : Proposal) {v w : Option Verdict} → Stops p v → v ≡ w → Stops p w
  stops p known q = subst (Stops p) q known

  fetch_order-Stops :
      (p : Proposal) (s : SimulationState N S) (v : Option Verdict)
      → (fetch_order e provider orderbook config p s).0 ≡ err v
      → Stops p v
  unfolding fetch_order
  fetch_order-Stops p s v h = elim (Result-cases (orderbook.order p.order_uid s.book).0) [
    | inr (order_unknown, q) ↦ stops p {v = some (reject order_not_found)} tt (ground arith)
    | inr (transient why, q) ↦ stops p {v = none} tt (ground arith)
    | inl (found, q) ↦ elim (Result-cases (check_envelope found p)) [
      | inr (reason, c) ↦ stops p {v = some (reject reason)} tt (ground arith)
      | inl (done, c) ↦ absurd (ground arith)
    ]
  ]

  trampoline_for-Stops :
      (p : Proposal) (s : SimulationState N S) (v : Option Verdict)
      → (trampoline_for e provider orderbook config p s).0 ≡ err v
      → Stops p v
  unfolding trampoline_for
  trampoline_for-Stops p s v h = elim (Option-cases p.trampoline) [
    | inr (a, q) ↦ absurd (ground arith)
    | inl q ↦
        elim (Result-cases (resolve_trampoline e provider orderbook config p.sub_solver s).0) [
          | inl (a, t) ↦ absurd (ground arith)
          | inr (why, t) ↦ elim (Bool-cases (is_trampoline_revert why)) [
            | inr n ↦ stops p {v = none} tt (ground arith)
            | inl y ↦
                stops p {v = some sim_failed}
                  (inl (s.net, why, resolve_trampoline-err p s why t, y)) (ground arith)
          ]
        ]
  ]

  authenticator_for-Stops :
      (p : Proposal) (s : SimulationState N S) (v : Option Verdict)
      → (authenticator_for e provider orderbook config s).0 ≡ err v
      → Stops p v
  unfolding authenticator_for
  authenticator_for-Stops p s v h = stops p {v = none} tt (ground arith)

  simulate-Stops :
      (p : Proposal) (r : OrderRecord) (tr auth : Address) (s : SimulationState N S)
      (v : Option Verdict)
      → (simulate e provider orderbook config p r tr auth s).0 ≡ err v
      → Stops p v
  unfolding simulate
  simulate-Stops p r tr auth s v h =
      elim (Result-cases
        (provider.estimate_gas (build_simulation e (params_of config p r tr auth)) s.net).0) [
          | inl (gas, q) ↦ stops p {v = none} tt (ground arith)
          | inr (why, q) ↦ elim (Bool-cases (is_revert why)) [
            | inr n ↦ stops p {v = none} tt (ground arith)
            | inl y ↦
                stops p {v = some sim_failed} (inr (r, tr, auth, s.net, why, q, y)) (ground arith)
          ]
        ]

  profitability-Stops :
      (p : Proposal) (v : Option Verdict) (answer : Option (Result RejectionReason (Unit {0})))
      (s : SimulationState N S)
      → (gated (answer, s)).0 ≡ err v
      → Stops p v
  profitability-Stops p v none s h = stops p {v = none} tt (ground arith)
  profitability-Stops p v (some (err why)) s h = stops p {v = some (reject why)} tt (ground arith)
  profitability-Stops p v (some (ok done)) s h = absurd (ground arith)

  gate-Stops :
      (p : Proposal) (r : OrderRecord) (gas : ℕ) (s : SimulationState N S) (v : Option Verdict)
      → (gate e provider orderbook config p r gas s).0 ≡ err v
      → Stops p v
  unfolding gate
  gate-Stops p r gas s v h = elim (Bool-cases (same_status p.status submitted)) [
    | inr n ↦ absurd (ground arith)
    | inl y ↦
        let (answer, t) = profitability e provider orderbook config p r gas s in
        profitability-Stops p v answer t (rw y at h)
  ]

  pub simulation_outcome-Stops :
      (p : Proposal) (s : SimulationState N S) (v : Option Verdict)
      → (simulation_outcome e provider orderbook config p s).0 ≡ err v
      → Stops p v
  unfolding simulation_outcome
  simulation_outcome-Stops p s v h =
      let s1 = (fetch_order e provider orderbook config p s).1 in
      let s2 = (trampoline_for e provider orderbook config p s1).1 in
      let s3 = (authenticator_for e provider orderbook config s2).1 in
      elim (Result-cases (fetch_order e provider orderbook config p s).0) [
        | inr (w, q1) ↦ fetch_order-Stops p s v (ground arith)
        | inl (r, q1) ↦ elim (Result-cases (trampoline_for e provider orderbook config p s1).0) [
          | inr (w, q2) ↦ trampoline_for-Stops p s1 v (ground arith)
          | inl (tr, q2) ↦
              elim (Result-cases (authenticator_for e provider orderbook config s2).0) [
                | inr (w, q3) ↦ authenticator_for-Stops p s2 v (ground arith)
                | inl (auth, q3) ↦
                    elim (Result-cases (simulate e provider orderbook config p r tr auth s3).0) [
                      | inr (w, q4) ↦ simulate-Stops p r tr auth s3 v (ground arith)
                      | inl (gas, q4) ↦
                          let s4 = (simulate e provider orderbook config p r tr auth s3).1 in
                          elim (Result-cases (gate e provider orderbook config p r gas s4).0) [
                            | inr (w, q5) ↦ gate-Stops p r gas s4 v (ground arith)
                            | inl (done, q5) ↦ absurd (ground arith)
                          ]
                    ]
              ]
        ]
      ]
