-- ===== src/Common/Eip712.antt =====
-- The EIP-712 messages that sub-solvers sign (crates/byos-common/src/eip712.rs). The ABI encoder,
-- the hash functions and the signature scheme are third-party crates: `Crypto` is what the code
-- calls of them, and a `Signer` signs hashes.
use byos_service.Prelude.{ℕ, ◌≡◌, Option, some, List, String}
use byos_service.Domain.Proposal.{Address, B256, U256, Bytes, Interaction}
use byos_service.Common.Trampoline.{SignedProposal}

-- The 65 bytes of a signature, as a number.
abbrev pub Signature : Type 0
Signature = ℕ

-- `salt` is always absent.
pub record Eip712Domain : Type 0 where
  pub name : String
  pub version : String
  pub chain_id : U256
  pub verifying_contract : Address

abbrev pub domain_name : String
domain_name = "BYOS"

abbrev pub domain_version : String
domain_version = "0.1"

unfoldable pub byos_domain : ℕ → Address → Eip712Domain
byos_domain chain_id verifying_contract = record {
  name = domain_name;
  version = domain_version;
  chain_id = chain_id;
  verifying_contract = verifying_contract;
}

pub record ProposalData : Type 0 where
  pub order_uid_hash : B256
  pub sell_amount : U256
  pub buy_amount : U256
  pub interactions_hash : B256
  pub valid_until : U256
  pub nonce : U256

pub record CancelProposal : Type 0 where
  pub proposal_id : U256

pub record ReadAuth : Type 0 where
  pub version : U256

-- `SolType::abi_encode` of the interactions, `keccak256`, `eip712_signing_hash` of the three
-- messages, `Signature::try_from` and `recover_address_from_prehash`.
pub record Crypto : Type 0 where
  pub encode_interactions : List Interaction → Bytes
  pub keccak256 : Bytes → B256
  pub proposal_hash : Eip712Domain → ProposalData → B256
  pub cancel_hash : Eip712Domain → CancelProposal → B256
  pub read_hash : Eip712Domain → ReadAuth → B256
  pub to_signature : Bytes → Option Signature
  pub recover_address : Signature → B256 → Option Address

-- `alloy::signers::Signer`; `none` is an error of the signer.
pub record Signer : Type 0 where
  pub address : Address
  pub sign_hash : B256 → Option Signature

abbrev pub read_auth_version : ℕ
read_auth_version = 1

unfoldable pub proposal_data : SignedProposal → B256 → ProposalData
proposal_data p interactions_hash = record {
  order_uid_hash = p.order_uid_hash;
  sell_amount = p.sell_amount;
  buy_amount = p.buy_amount;
  interactions_hash = interactions_hash;
  valid_until = p.valid_until;
  nonce = p.nonce;
}

module _ (c : Crypto) where
  unfoldable pub compute_interactions_hash : List Interaction → B256
  compute_interactions_hash interactions = c.keccak256 (c.encode_interactions interactions)

  unfoldable pub sign_proposal :
      Signer → Eip712Domain → SignedProposal → List Interaction → Option Signature
  unfolding compute_interactions_hash proposal_data
  sign_proposal signer domain p interactions =
      signer.sign_hash
        (c.proposal_hash domain (proposal_data p (compute_interactions_hash interactions)))

  unfoldable pub sign_cancellation : Signer → Eip712Domain → U256 → Option Signature
  sign_cancellation signer domain proposal_id =
      signer.sign_hash (c.cancel_hash domain (record { proposal_id = proposal_id }))

  unfoldable pub sign_read_auth : Signer → Eip712Domain → Option Signature
  sign_read_auth signer domain =
      signer.sign_hash (c.read_hash domain (record { version = read_auth_version }))

  unfoldable pub recover_proposer :
      Signature → Eip712Domain → SignedProposal → B256 → Option Address
  unfolding proposal_data
  recover_proposer signature domain p interactions_hash =
      c.recover_address signature (c.proposal_hash domain (proposal_data p interactions_hash))

  unfoldable pub recover_canceller : Signature → Eip712Domain → U256 → Option Address
  recover_canceller signature domain proposal_id =
      c.recover_address signature (c.cancel_hash domain (record { proposal_id = proposal_id }))

  unfoldable pub recover_reader : Signature → Eip712Domain → Option Address
  recover_reader signature domain =
      c.recover_address signature (c.read_hash domain (record { version = read_auth_version }))

  -- The signature scheme: what a signer signs recovers to its address.
  abbrev pub IsSigner : Signer → Type 0
  IsSigner s =
      (h : B256) (sig : Signature)
      → s.sign_hash h ≡ some sig
      → c.recover_address sig h ≡ some s.address

  -- What a signer signs recovers to its address, for each of the messages.
  pub recover-sign :
      (s : Signer) (domain : Eip712Domain) (p : SignedProposal) (interactions : List Interaction)
      (id : U256) (by_proposal by_cancel by_read : Signature)
      → IsSigner s
      → sign_proposal s domain p interactions ≡ some by_proposal
      → sign_cancellation s domain id ≡ some by_cancel
      → sign_read_auth s domain ≡ some by_read
      → (recover_proposer by_proposal domain p (compute_interactions_hash interactions)
          ≡ some s.address)
        × (recover_canceller by_cancel domain id ≡ some s.address)
        × (recover_reader by_read domain ≡ some s.address)
  unfolding sign_proposal sign_cancellation sign_read_auth recover_proposer recover_canceller
      recover_reader
  recover-sign s domain p interactions id by_proposal by_cancel by_read scheme signed cancels
        reads =
      (scheme _ _ signed, scheme _ _ cancels, scheme _ _ reads)
