-- ===== src/Infra/Blockchain/Judge/Steps.antt =====
-- The steps of `SimulationValidator::validate` (crates/byos/src/infra/blockchain/validator.rs).
use byos_service.Prelude.{ℕ, Option, none, some, ok, err, ltb, if◌then◌else◌}
use byos_service.Prelude.Ints.{i64_limit}
use byos_service.Domain.Validator.{
  Verdict, accept, reject, sim_failed, order_not_found, SimulationOutcome,
}
use byos_service.Domain.Proposal.{Address, Proposal, submitted, same_status}
use byos_service.Domain.Order.{OrderRecord, check_envelope}
use byos_service.Infra.Orderbook.{order_unknown, transient, FetchOrder}
use byos_service.Infra.Blockchain.Simulation.{Encoders, SimulationParams, build_simulation}
use byos_service.Infra.Blockchain.Judge.{
  Provider, SimulationConfig, SimulationState, Judging, ◌>>=◌, answer_with, gated, is_revert,
  is_trampoline_revert, resolve_trampoline, resolve_authenticator, profitability,
}

abbrev pub params_of :
    SimulationConfig → Proposal → OrderRecord → Address → Address → SimulationParams
params_of config p r trampoline authenticator = record {
  settlement = config.settlement_address;
  authenticator = authenticator;
  escrow = config.escrow_address;
  trampoline = trampoline;
  order = r.order;
  proposal = record {
    order_uid_hash = p.order_uid_hash;
    sell_amount = p.sell_amount;
    buy_amount = p.buy_amount;
    valid_until = p.valid_until;
    nonce = p.nonce;
  };
  route = p.interactions;
  signature = p.signature;
  pre_interactions = r.pre_interactions;
  post_interactions = r.post_interactions;
}

module _ {N S : Type 0} (e : Encoders) (provider : Provider N) (orderbook : FetchOrder S)
    (config : SimulationConfig) where
  -- Step 1 of `SimulationValidator::validate`: the order, in its envelope.
  unfoldable pub fetch_order : Proposal → Judging (SimulationState N S) OrderRecord
  fetch_order p s =
      let (answer, book) = orderbook.order p.order_uid s.book in
      let asked = record s { book = book } in
      elim answer [
        | err order_unknown ↦ (err (some (reject order_not_found)), asked)
        | err (transient why) ↦ (err none, asked)
        | ok r ↦ elim (check_envelope r p) [
          | err reason ↦ (err (some (reject reason)), asked)
          | ok done ↦ (ok r, asked)
        ]
      ]

  -- Step 2: the trampoline that an earlier verdict stored, or the factory's answer.
  unfoldable pub trampoline_for : Proposal → Judging (SimulationState N S) Address
  unfolding resolve_trampoline is_trampoline_revert
  trampoline_for p s = elim p.trampoline [
    | some addr ↦ (ok addr, s)
    | none ↦
        let (answer, s') = resolve_trampoline e provider orderbook config p.sub_solver s in
        elim answer [
          | ok addr ↦ (ok addr, s')
          | err e ↦ (err (if is_trampoline_revert e then some sim_failed else none), s')
        ]
  ]

  -- Step 3: any failure defers.
  unfoldable pub authenticator_for : Judging (SimulationState N S) Address
  unfolding resolve_authenticator
  authenticator_for s =
      let (answer, s') = resolve_authenticator e provider orderbook config s in
      elim answer [ ok addr ↦ (ok addr, s') | err e ↦ (err none, s') ]

  -- Steps 4 and 5: the gas that the node answers, if `i64` holds it.
  unfoldable pub simulate :
      Proposal → OrderRecord → Address → Address → Judging (SimulationState N S) ℕ
  unfolding is_revert
  simulate p r trampoline authenticator s =
      let (answer, net) =
        provider.estimate_gas (build_simulation e (params_of config p r trampoline authenticator))
          s.net in
      let asked = record s { net = net } in
      elim answer [
        | ok gas ↦ if ltb gas i64_limit then (ok gas, asked) else (err none, asked)
        | err why ↦ (err (if is_revert why then some sim_failed else none), asked)
      ]

  -- Step 6: the gate, on the first simulation only.
  unfoldable pub gate : Proposal → OrderRecord → ℕ → Judging (SimulationState N S) (Unit {0})
  unfolding profitability
  gate p r gas s =
      if same_status p.status submitted
      then gated (profitability e provider orderbook config p r gas s)
      else (ok tt, s)

  -- The steps of `SimulationValidator::validate` to the outcome of its `Accept`.
  unfoldable pub simulation_outcome : Proposal → Judging (SimulationState N S) SimulationOutcome
  simulation_outcome p = do
    r ← fetch_order p
    trampoline ← trampoline_for p
    authenticator ← authenticator_for
    gas ← simulate p r trampoline authenticator
    done ← gate p r gas
    answer_with (record {
      gas_used = gas;
      trampoline = trampoline;
      sell_token = r.order.sell_token;
      buy_token = r.order.buy_token;
    })

  unfoldable pub validate_simulation :
      Proposal → SimulationState N S → Option Verdict × SimulationState N S
  validate_simulation p s =
      let (answer, s') = simulation_outcome p s in
      elim answer [ ok outcome ↦ (some (accept (some outcome)), s') | err verdict ↦ (verdict, s') ]
