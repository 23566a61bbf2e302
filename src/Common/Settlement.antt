-- ===== src/Common/Settlement.antt =====
-- The `settle()` call that simulates a proposal (crates/byos-common/src/settlement.rs). `SettleCall`
-- is the call before the third-party ABI encoder turns it into bytes.
pub mod Flags
use Prim.Native.Nat.{bit_or}
use byos_service.Prelude.{ℕ, Bool, List, [], ◌∷◌, if◌then◌else◌}
use byos_service.Domain.Proposal.{Address, B256, U256, Bytes, Interaction}
use byos_service.Domain.Order.{
  CowOrder, OrderKind, sell, buy, SigningScheme, eip712, eth_sign, eip1271, pre_sign,
}
use byos_service.Common.Trampoline.{SignedProposal, Abi, encode_trampoline_interactions}

-- `GPv2TradeData`
pub record TradeData : Type 0 where
  pub sell_token_index : U256
  pub buy_token_index : U256
  pub receiver : Address
  pub sell_amount : U256
  pub buy_amount : U256
  pub valid_to : ℕ
  pub app_data : B256
  pub fee_amount : U256
  pub flags : U256
  pub executed_amount : U256
  pub signature : Bytes

-- `GPv2Settlement::settleCall`; the interactions are those before, within and after the trade.
pub record SettleCall : Type 0 where
  pub tokens : List Address
  pub clearing_prices : List U256
  pub trades : List TradeData
  pub before : List Interaction
  pub within : List Interaction
  pub after : List Interaction

abbrev kind_flag : OrderKind → ℕ
kind_flag sell = 0
kind_flag buy = 1

abbrev scheme_flag : SigningScheme → ℕ
scheme_flag eip712 = 0
scheme_flag eth_sign = 32
scheme_flag eip1271 = 64
scheme_flag pre_sign = 96

unfoldable pub trade_flags : CowOrder → U256
trade_flags o =
    bit_or (bit_or (kind_flag o.kind) (if o.partially_fillable then 2 else 0))
      (scheme_flag o.signing_scheme)

unfoldable pub executed_amount_of : OrderKind → SignedProposal → U256
executed_amount_of sell p = p.sell_amount
executed_amount_of buy p = p.buy_amount

unfoldable pub settle_call :
    Abi
    → CowOrder
    → SignedProposal
    → Address
    → List Interaction
    → Bytes
    → List Interaction
    → List Interaction
    → SettleCall
unfolding trade_flags executed_amount_of encode_trampoline_interactions
settle_call abi o p trampoline route proposal_signature pre_interactions post_interactions =
    let trade : TradeData = record {
      sell_token_index = 0;
      buy_token_index = 1;
      receiver = o.receiver;
      sell_amount = o.sell_amount;
      buy_amount = o.buy_amount;
      valid_to = o.valid_to;
      app_data = o.app_data;
      fee_amount = o.fee_amount;
      flags = trade_flags o;
      executed_amount = executed_amount_of o.kind p;
      signature = o.signature;
    } in
    record {
      tokens = o.sell_token ∷ o.buy_token ∷ [];
      clearing_prices = p.buy_amount ∷ p.sell_amount ∷ [];
      trades = trade ∷ [];
      before = pre_interactions;
      within =
          encode_trampoline_interactions abi trampoline o.sell_token p route o.buy_token
            proposal_signature;
      after = post_interactions;
    }

-- `encode_settle`, over `settleCall::abi_encode`.
unfoldable pub encode_settle :
    (SettleCall → Bytes)
    → Abi
    → CowOrder
    → SignedProposal
    → Address
    → List Interaction
    → Bytes
    → List Interaction
    → List Interaction
    → Bytes
unfolding settle_call
encode_settle abi_encode abi o p trampoline route proposal_signature pre_interactions
      post_interactions =
    abi_encode
      (settle_call abi o p trampoline route proposal_signature pre_interactions post_interactions)
