-- ===== src/Tests/Edge.antt =====
-- A sub-solver and a network, as concrete functions.
use byos_service.Prelude.{ℕ, suc, ◌≡◌, map, false, none, some, ok, [], ◌∷◌}
use byos_service.Domain.Proposal.{Bytes}
use byos_service.Infra.Api.Routes.{AppState, Header}
use byos_service.Subsolver.Proposal.{RoutedProposal, RouteOrder, RouteKind, RouteParams}
use byos_service.Domain.Proposal.{OrderUid}
use byos_service.Domain.Validator.{SimulationOutcome}
use byos_service.Domain.Scoring.{ether}
use byos_service.Common.Dto.{WireStatus}
use byos_service.Infra.Orderbook.{OrderDto, KindDto, SchemeDto, Http, FetchOrder, Client, replied}
use byos_service.Infra.Blockchain.Escrow.{BalanceOf, EscrowConfig}
use byos_service.Infra.Blockchain.Simulation.{Encoders}
use byos_service.Infra.Blockchain.Judge.{Provider, SimulationConfig}
use byos_service.Infra.Blockchain.Judge.Composite.{JudgeState}
use byos_service.Subsolver.Run.{Remote, Subsolver, SubsolverConfig}
use byos_service.Subsolver.Run.LiveMap.{Live}
use byos_service.Tests.Data.{abi, order_record}
use byos_service.Tests.Codecs.{zeros, signer}

abbrev pub state : AppState
state = record {
  domain = record { name = "BYOS"; version = "0.1"; chain_id = 1; verifying_contract = 42 };
  max_proposal_lifetime_secs = 100;
}

-- `X-Signature` of the signer, and of another.
abbrev pub header : Header
header = some (some "0x.......")

abbrev pub other_header : Header
other_header = some (some "0x.........")

abbrev pub uid_bytes : Bytes
uid_bytes =
    0 ∷ 0 ∷ 0 ∷ 0 ∷ 0 ∷ 0 ∷ 0 ∷ 0 ∷ 0 ∷ 0 ∷ 0 ∷ 0 ∷ 0 ∷ 0 ∷ 0 ∷ 0 ∷ 0 ∷ 0 ∷ 0 ∷ 0 ∷ 0 ∷ 0 ∷ 0 ∷ 0
    ∷ 0 ∷ 0 ∷ 0 ∷ 0 ∷ 0 ∷ 0 ∷ 0 ∷ 0 ∷ 0 ∷ 0 ∷ 0 ∷ 0 ∷ 0 ∷ 0 ∷ 0 ∷ 0 ∷ 0 ∷ 0 ∷ 0 ∷ 0 ∷ 0 ∷ 0 ∷ 0 ∷ 0
    ∷ 0 ∷ 0 ∷ 0 ∷ 0 ∷ 0 ∷ 0 ∷ 0 ∷ 11 ∷ []

abbrev pub unsigned : RoutedProposal
unsigned = record {
  order_uid = uid_bytes;
  sell_amount = 1000;
  buy_amount = 906;
  interactions =
      record { target = 1; value = 0; call_data = 8 ∷ [] }
      ∷ record { target = 8; value = 0; call_data = 232 ∷ 138 ∷ [] }
      ∷ [];
  valid_until = 50;
  nonce = 1;
  signature = [];
}

abbrev pub routed : RoutedProposal
routed = record unsigned { signature = zeros 7 }

abbrev pub route_order : RouteOrder
route_order = record {
  uid = uid_bytes;
  sell_token = 1;
  buy_token = 2;
  sell_amount = 1000;
  buy_amount = 900;
  kind = RouteKind.sell;
}

abbrev pub params : RouteParams
params = record {
  router = 8;
  trampoline = 40;
  reserve_sell = 10_000;
  reserve_buy = 10_000;
  valid_until = 50;
  nonce = 1;
  extra_interactions = [];
}

-- A network that answers the auction with the routed order, and reports the proposal as active.
abbrev pub remote : Remote ℕ
remote = record {
  auction = λ n. (
    some (
        record {
          uid = uid_bytes;
          sell_token = 1;
          buy_token = 2;
          sell_amount = 1000;
          buy_amount = 900;
          kind = RouteKind.sell;
          sell_token_balance = "erc20";
          buy_token_balance = "erc20";
        }
        ∷ []),
    n,
  );
  multicall = λ pairs n. (some (map (λ pair. some (10_000, 10_000)) pairs), n);
  status_of = λ id n. (some WireStatus.active, n);
  submit = λ p n. (some n, suc n);
}

abbrev pub config : SubsolverConfig
config = record {
  signer = signer;
  domain = state.domain;
  trampoline = 40;
  uniswap_router = 8;
  uniswap_factory = 9;
  pair_init_code_hash = 0;
  proposal_ttl = 40;
  extra_interactions = [];
}

abbrev pub held : Live
held = record { id = 3; valid_until = 50 }

abbrev pub subsolver : Subsolver ℕ
subsolver = record { net = 4; live = (uid_bytes, held) ∷ []; next_nonce = 1 }

-- An orderbook of one order.
abbrev pub dto : OrderDto
dto = record {
  receiver = none;
  sell_token = 1;
  buy_token = 2;
  sell_amount = 1_000_000;
  buy_amount = 1_000_000;
  fee_amount = 0;
  valid_to = 100;
  app_data = 0;
  kind = KindDto.sell;
  partially_fillable = false;
  sell_token_balance = "erc20";
  buy_token_balance = "erc20";
  signing_scheme = SchemeDto.eip712;
  signature = [];
  pre = [];
  post = [];
}

abbrev pub http : Http ℕ
http = record {
  get_order = λ uid n. (replied 200 (ok dto), suc n);
  get_price = λ token n. (replied 200 (ok (ok ether)), suc n);
  status_text = λ status. "error";
}

abbrev pub Placed : OrderUid → OrderDto → Type 0
Placed uid d = d ≡ dto

abbrev pub client : Client ℕ
client = record { net = 0; cache = []; capacity = 1 }

-- A chain on which the simulation uses 50 000 gas.
abbrev pub provider : Provider ℕ
provider = record {
  address_of = λ factory owner n. (ok 40, n);
  authenticator = λ settlement n. (ok 41, n);
  estimate_gas = λ simulation n. (ok 50_000, n);
}

abbrev pub balance_of : BalanceOf ℕ
balance_of = record { effective_balance = λ escrow owner n. (ok ether, n) }

abbrev pub escrow : EscrowConfig
escrow = record { escrow_address = 42; min_collateral = 100 }

abbrev pub simulation_config : SimulationConfig
simulation_config = record {
  settlement_address = 43;
  escrow_address = 42;
  trampoline_factory = 44;
  min_score = 0;
}

abbrev pub encoders : Encoders
encoders = record {
  keccak256 = λ bs. 5;
  abi = abi;
  encode_call = λ call. [];
  anyone_authenticator_code = [];
}

-- An orderbook that counts its requests.
abbrev pub fetch : FetchOrder ℕ
fetch = record {
  order = λ uid n. (ok order_record, suc n);
  native_price = λ token n. (ok ether, suc n);
}

abbrev pub judge_state : JudgeState ℕ ℕ
judge_state = record {
  net = 0;
  gas_price = 1;
  balances = [];
  book = 0;
  trampoline_cache = [];
  authenticator = none;
}

abbrev pub outcome : SimulationOutcome
outcome = record { gas_used = 50_000; trampoline = 40; sell_token = 1; buy_token = 2 }
