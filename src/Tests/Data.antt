-- ===== src/Tests/Data.antt =====
-- A proposal, its order and a database that holds it.
use byos_service.Prelude.{ℕ, true, false, none, some, ok, [], ◌∷◌, suc}
use byos_service.Domain.Validator.{accept}
use byos_service.Domain.Proposal.{Proposal, submitted, active}
use byos_service.Domain.Order.{CowOrder, OrderRecord, sell, eip712}
use byos_service.Domain.Scoring.{Candidate, ether}
use byos_service.Common.Trampoline.{Abi}
use byos_service.Infra.Storage.Rows.{encode}
use byos_service.Infra.Storage.Db.{Db, empty, healthy}
use byos_service.Infra.Storage.Ops.{insert}
use byos_service.Infra.Api.Solve.{Auction, AuctionOrder}
use byos_service.Infra.Penalty.{DebitEscrow}
use byos_service.Infra.Validation.{ValidateProposal}

-- As `POST /proposals` stores it.
abbrev pub fresh : Proposal
fresh = record {
  id = 0;
  sub_solver = 7;
  order_uid = 11;
  order_uid_hash = 12;
  sell_amount = 1_000_000;
  buy_amount = 2_000_000;
  sell_token = 0;
  buy_token = 0;
  interactions = [];
  interactions_hash = 13;
  valid_until = 50;
  nonce = 1;
  signature = [];
  status = submitted;
  rejection_reason = none;
  gas_used = none;
  trampoline = none;
  settlement_tx_hash = none;
  penalty_tx_hash = none;
}

abbrev pub stored : Proposal
stored = record fresh { id = 1 }

-- After its first verdict.
abbrev pub simulated : Proposal
simulated = record stored {
  status = active;
  sell_token = 1;
  buy_token = 2;
  gas_used = some 50_000;
  trampoline = some 40;
}

-- A database that one submission has reached.
abbrev pub book : Db
book = (insert healthy fresh empty).1

-- A database that holds an active proposal.
abbrev pub active_book : Db
active_book = record empty { rows = encode simulated 0 ∷ []; next_id = 2 }

abbrev pub order : AuctionOrder
order = record {
  uid = 11;
  kind = sell;
  sell_token = 1;
  buy_token = 2;
  sell_amount = 1_000_000;
  buy_amount = 1_000_000;
  partially_fillable = false;
}

-- Prices of one wei for an atom.
abbrev pub auction : Auction
auction = record {
  id = some 5;
  orders = order ∷ [];
  effective_gas_price = 1;
  reference_price = λ token. some ether;
}

abbrev pub abi : Abi
abi = record {
  transfer_call = λ to amount. to ∷ amount ∷ [];
  execute_call = λ p is s b sig. p.nonce ∷ s ∷ b ∷ sig;
}

abbrev pub candidate : Candidate
candidate = record {
  order_sell = 1_000_000;
  order_buy = 1_000_000;
  proposal_sell = 1_000_000;
  proposal_buy = 2_000_000;
  is_sell_order = true;
  gas_cost = 80_000;
}

abbrev pub cow_order : CowOrder
cow_order = record {
  sell_token = 1;
  buy_token = 2;
  receiver = 3;
  sell_amount = 3_000_000;
  buy_amount = 4_000_000;
  valid_to = 100;
  app_data = 0;
  fee_amount = 0;
  kind = sell;
  partially_fillable = true;
  signing_scheme = eip712;
  signature = [];
}

abbrev pub order_record : OrderRecord
order_record = record {
  order = cow_order;
  pre_interactions = [];
  post_interactions = [];
  erc20_balances = true;
}

-- A chain that counts the debits that it has landed.
abbrev pub operator : DebitEscrow ℕ
operator = record {
  settlement_cost = λ tx c. (ok 300, c);
  debit = λ sub_solver amount reason c. (ok 77, suc c);
}

-- A judge that accepts all and counts.
abbrev pub judge : ValidateProposal ℕ
judge = record { validate = λ p v. (some (accept none), suc v); begin_tick = λ v. 0 }
