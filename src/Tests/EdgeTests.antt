-- ===== src/Tests/EdgeTests.antt =====
-- The properties of the clients, the chain edge and the sub-solver at concrete inputs.
use byos_service.Subsolver.Run.LiveMap.{same_bytes}
use byos_service.Subsolver.Run.LiveMap.{find_live}
use byos_service.Subsolver.Proposal.{route_amounts}
use byos_service.Prelude.Ints.{u64_saturating_add}
use byos_service.Common.Eip712.{sign_proposal}
use byos_service.Prelude.{
  ◌+◌, ◌-◌, ◌*◌, ◌≤◌, ◌<◌, ◌≡◌, ◌⊎◌, refl, false, some, none, ok, [], ◌∷◌, ◌++◌, map, All, leb,
  arith,
}
use byos_service.Domain.Proposal.{Proposal}
use byos_service.Domain.Order.{OrderRecord, check_envelope}
use byos_service.Domain.Audit.{received}
use byos_service.Common.Dto.{is_terminal}
use byos_service.Common.Settlement.{trade_flags}
use byos_service.Common.Settlement.Flags.{Reads, trade_flags-Reads}
use byos_service.Infra.Audit.{Writer, row_of, drain}
use byos_service.Infra.Audit.Drain.{IsBackoff, drain_total}
use byos_service.Subsolver.Routing.{amount_out, amount_in}
use byos_service.Subsolver.Routing.Swaps.{amount_out-amount_in, amount_out-keeps_product}
use byos_service.Subsolver.Proposal.{build_proposal}
use byos_service.Subsolver.Proposal.Limit.{WithinLimit, build_proposal-WithinLimit}
use byos_service.Subsolver.Run.{poll_once}
use byos_service.Subsolver.Run.Holds.{IsAlive, IsHeld, poll_once-IsHeld}
use byos_service.Prelude.Maps.{get_key}
use byos_service.Domain.Validator.{accept}
use byos_service.Infra.Orderbook.{order, read_response}
use byos_service.Infra.Orderbook.Cache.{Serves, AnswersPlaced, CacheInv, order-CacheInv}
use byos_service.Infra.Blockchain.Judge.Verdicts.{IsJustified, validate-IsJustified}
use byos_service.Infra.Blockchain.Judge.Composite.{validate}
use byos_service.Infra.Blockchain.Escrow.{validate_escrow, get_balance, threshold}
use byos_service.Infra.Blockchain.Judge.{
  resolve_trampoline, resolve_authenticator, profitability, gate_score,
}
use byos_service.Infra.Blockchain.Judge.Steps.{
  validate_simulation, simulation_outcome, fetch_order, trampoline_for, authenticator_for, simulate,
  gate,
}
use byos_service.Domain.Scoring.{effective_gas, scaled_to_fill, score_proposal, surplus}
use byos_service.Prelude.Ints.{
  saturating_add, saturating_mul, checked_sub, checked_mul, checked_div, div_ceil,
  u64_saturating_add,
}
use byos_service.Domain.Proposal.{same_status}
use byos_service.Tests.Codecs.{crypto, signer, calls}
use byos_service.Tests.Edge.{
  remote, uid_bytes, held, config, subsolver, http, Placed, client, provider, balance_of, escrow,
  simulation_config, encoders, judge_state, fetch, outcome, state, routed, route_order, params,
}
use byos_service.Tests.Data.{fresh, simulated, cow_order, order_record}

abbrev idle : Writer
idle = record { table = []; tried = 0; sleeps = [] }

-- The orderbook's record of the routed order, and the proposal that is stored for it.
abbrev shown_order : OrderRecord
shown_order = record order_record {
  order = record cow_order { sell_amount = 1_000; buy_amount = 900; partially_fillable = false };
}

abbrev simulated_route : Proposal
simulated_route = record simulated { sell_amount = 1_000; buy_amount = 906 }

trade_flags-Reads_example : Reads cow_order (trade_flags cow_order)
trade_flags-Reads_example = trade_flags-Reads cow_order

amount_out-amount_in_example : 906 ≤ 906
unfolding amount_in amount_out
amount_out-amount_in_example = amount_out-amount_in 906 10_000 10_000 1_000 906 refl refl

amount_out-keeps_product_example :
    (906 < 10_000) × (10_000 * 10_000 ≤ (10_000 + 1_000) * (10_000 - 906))
unfolding amount_out
amount_out-keeps_product_example = amount_out-keeps_product 1_000 10_000 10_000 906 refl

drain_total_example :
    (w' : Writer) × (drain 2 (λ n. leb 1 n) (received fresh ∷ []) idle ≡ some w')
    × (w'.table ≡ [] ++ map row_of (received fresh ∷ []))
    × All IsBackoff w'.sleeps
drain_total_example =
    drain_total 2 2 (λ n. leb 1 n) (received fresh ∷ []) idle (λ n. (1, omega arith, ground arith))
      (omega arith) tt

build_proposal-WithinLimit_example :
    WithinLimit route_order.kind route_order routed.sell_amount routed.buy_amount
    × (check_envelope shown_order simulated_route ≡ ok tt)
unfolding build_proposal route_amounts amount_out sign_proposal
build_proposal-WithinLimit_example =
    build_proposal-WithinLimit crypto calls state.domain signer route_order params routed
      shown_order simulated_route refl (refl, refl, refl, refl) refl refl

alive : IsAlive remote uid_bytes held
unfolding is_terminal
alive net status q = ground arith

poll_once-IsHeld_example :
    IsHeld remote uid_bytes held (poll_once remote crypto calls config (λ a b d. 3) 10 subsolver).1
unfolding find_live same_bytes
poll_once-IsHeld_example =
    poll_once-IsHeld remote uid_bytes held crypto calls config (λ a b d. 3) 10 subsolver alive
      (omega arith) refl

serves : Serves http Placed
unfolding read_response
serves uid net d q = ground arith

client-CacheInv : CacheInv http Placed client
unfolding get_key
client-CacheInv = record { within = omega arith; entries = λ uid r q. absurd (ground arith) }

order-CacheInv_example :
    CacheInv http Placed (order http 11 client).1
    × AnswersPlaced http Placed 11 (order http 11 client).0
    × ((get_key 11 client.cache ≡ none)
        ⊎ ((r : OrderRecord) × (order http 11 client ≡ (ok r, client))))
order-CacheInv_example = order-CacheInv http Placed 11 client serves (omega arith) client-CacheInv

validate-IsJustified_example :
    IsJustified encoders balance_of provider fetch escrow simulation_config fresh judge_state
      (accept (some outcome))
unfolding validate validate_escrow get_balance threshold saturating_add saturating_mul
    validate_simulation simulation_outcome fetch_order check_envelope trampoline_for
    resolve_trampoline authenticator_for resolve_authenticator simulate gate profitability
    gate_score effective_gas scaled_to_fill score_proposal surplus same_status checked_sub
    checked_mul checked_div get_key div_ceil u64_saturating_add
validate-IsJustified_example =
    validate-IsJustified encoders balance_of provider fetch escrow simulation_config fresh
      judge_state (accept (some outcome)) refl
