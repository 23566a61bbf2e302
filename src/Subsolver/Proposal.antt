-- ===== src/Subsolver/Proposal.antt =====
-- How the sub-solver builds and signs a proposal (crates/subsolver/src/domain/proposal.rs). The ABI
-- encoder, the hashes and the signer are third-party crates: `Calls` is what the code encodes.
pub mod Limit
use byos_service.Prelude.{ℕ, Option, none, some, and_then, List, [], ◌∷◌, ◌++◌, leb, if◌then◌else◌}
use byos_service.Domain.Proposal.{Address, U256, Bytes, Interaction}
use byos_service.Common.Trampoline.{SignedProposal}
use byos_service.Common.Eip712.{Crypto, Signer, Signature, Eip712Domain, sign_proposal}
use byos_service.Subsolver.Routing.{amount_out, amount_in}

pub data RouteKind : Type 0 where
  sell : RouteKind
  buy : RouteKind

-- `struct Order`
pub record RouteOrder : Type 0 where
  pub uid : Bytes
  pub sell_token : Address
  pub buy_token : Address
  pub sell_amount : U256
  pub buy_amount : U256
  pub kind : RouteKind

pub record RouteParams : Type 0 where
  pub router : Address
  pub trampoline : Address
  pub reserve_sell : U256
  pub reserve_buy : U256
  pub valid_until : ℕ
  pub nonce : U256
  pub extra_interactions : List Interaction

-- `struct SignedProposal`
pub record RoutedProposal : Type 0 where
  pub order_uid : Bytes
  pub sell_amount : U256
  pub buy_amount : U256
  pub interactions : List Interaction
  pub valid_until : ℕ
  pub nonce : U256
  pub signature : Bytes

-- `swapExactTokensForTokens`, `swapTokensForExactTokens` and `approve`; `as_bytes` of a signature.
pub record Calls : Type 0 where
  pub swap_exact_in : U256 → U256 → List Address → Address → U256 → Bytes
  pub swap_exact_out : U256 → U256 → List Address → Address → U256 → Bytes
  pub approve : Address → U256 → Bytes
  pub signature_bytes : Signature → Bytes

unfoldable pub route_amounts : RouteOrder → RouteParams → Option (U256 × U256)
route_amounts order params = elim order.kind [
  | sell ↦
      and_then (amount_out order.sell_amount params.reserve_sell params.reserve_buy)
        (λ out. if leb order.buy_amount out then some (order.sell_amount, out) else none)
  | buy ↦
      and_then (amount_in order.buy_amount params.reserve_sell params.reserve_buy)
        (λ cost. if leb cost order.sell_amount then some (cost, order.buy_amount) else none)
]

unfoldable pub swap_call_data : Calls → RouteOrder → RouteParams → U256 → U256 → Bytes
swap_call_data calls order params sell_amount buy_amount =
    let path = order.sell_token ∷ order.buy_token ∷ [] in
    elim order.kind [
      | sell ↦ calls.swap_exact_in sell_amount buy_amount path params.trampoline params.valid_until
      | buy ↦ calls.swap_exact_out buy_amount sell_amount path params.trampoline params.valid_until
    ]

unfoldable pub route_interactions :
    Calls → RouteOrder → RouteParams → U256 → U256 → List Interaction
unfolding swap_call_data
route_interactions calls order params sell_amount buy_amount =
    record {
      target = order.sell_token;
      value = 0;
      call_data = calls.approve params.router sell_amount;
    }
    ∷ record {
      target = params.router;
      value = 0;
      call_data = swap_call_data calls order params sell_amount buy_amount;
    }
    ∷ params.extra_interactions

module _ (c : Crypto) where
  unfoldable pub onchain : RoutedProposal → SignedProposal
  onchain p = record {
    order_uid_hash = c.keccak256 p.order_uid;
    sell_amount = p.sell_amount;
    buy_amount = p.buy_amount;
    valid_until = p.valid_until;
    nonce = p.nonce;
  }

  -- Where the signer fails the code panics; there is no proposal then.
  unfoldable pub signed_by : Calls → Signer → Eip712Domain → RoutedProposal → Option RoutedProposal
  unfolding onchain
  signed_by calls signer domain p =
      and_then (sign_proposal c signer domain (onchain p) p.interactions)
        (λ signature. some (record p { signature = calls.signature_bytes signature }))

  unfoldable pub build_proposal :
      Calls → RouteOrder → RouteParams → Eip712Domain → Signer → Option RoutedProposal
  unfolding route_interactions signed_by
  build_proposal calls order params domain signer =
      and_then (route_amounts order params) (λ amounts. signed_by calls signer domain (record {
        order_uid = order.uid;
        sell_amount = amounts.0;
        buy_amount = amounts.1;
        interactions = route_interactions calls order params amounts.0 amounts.1;
        valid_until = params.valid_until;
        nonce = params.nonce;
        signature = [];
      }))
