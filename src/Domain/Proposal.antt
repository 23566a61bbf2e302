-- ===== src/Domain/Proposal.antt =====
-- Proposal domain types (crates/byos/src/domain/proposal.rs). Addresses, hashes, token amounts and
-- order uids are fixed-width byte strings that the code compares and computes with as numbers, so
-- they are numbers here, most significant byte first; `Bytes` is a list of byte values.
use byos_service.Prelude.{ℕ, ◌≡◌, refl, Bool, true, false, Option, List, arith, ◌==◌}
use byos_service.Domain.Validator.{RejectionReason}

-- `struct ProposalId(pub u64)`
abbrev pub ProposalId : Type 0
ProposalId = ℕ

-- `struct OrderUid(pub [u8; 56])`
abbrev pub OrderUid : Type 0
OrderUid = ℕ

abbrev pub Address : Type 0
Address = ℕ

abbrev pub B256 : Type 0
B256 = ℕ

abbrev pub U256 : Type 0
U256 = ℕ

abbrev pub Bytes : Type 0
Bytes = List ℕ

pub data ProposalStatus : Type 0 where
  submitted : ProposalStatus
  active : ProposalStatus
  rejected : ProposalStatus
  expired : ProposalStatus
  executing : ProposalStatus
  settled : ProposalStatus
  settle_failed : ProposalStatus
  penalized : ProposalStatus
  sim_failed : ProposalStatus
  cancelled : ProposalStatus

-- The position of the variant, as `derive(PartialEq)` compares it.
abbrev pub discriminant : ProposalStatus → ℕ
discriminant submitted = 0
discriminant active = 1
discriminant rejected = 2
discriminant expired = 3
discriminant executing = 4
discriminant settled = 5
discriminant settle_failed = 6
discriminant penalized = 7
discriminant sim_failed = 8
discriminant cancelled = 9

-- `==` on statuses.
unfoldable pub same_status : ProposalStatus → ProposalStatus → Bool
same_status s t = discriminant s == discriminant t

-- `SettlementOutcome`: what the driver reported; a hash is that of the settlement transaction.
pub data SettlementOutcome : Type 0 where
  started : SettlementOutcome
  succeeded : B256 → SettlementOutcome
  reverted : B256 → SettlementOutcome
  abandoned : SettlementOutcome

unfoldable pub is_chargeable : SettlementOutcome → Bool
is_chargeable (reverted tx) = true
is_chargeable abandoned = true
is_chargeable started = false
is_chargeable (succeeded tx) = false

-- `byos_common::contracts::Interaction`
pub record Interaction : Type 0 where
  pub target : Address
  pub value : U256
  pub call_data : Bytes

pub record Proposal : Type 0 where
  pub id : ProposalId
  pub sub_solver : Address
  pub order_uid : OrderUid
  pub order_uid_hash : B256
  pub sell_amount : U256
  pub buy_amount : U256
  pub sell_token : Address
  pub buy_token : Address
  pub interactions : List Interaction
  pub interactions_hash : B256
  pub valid_until : U256
  pub nonce : U256
  pub signature : Bytes
  pub status : ProposalStatus
  pub rejection_reason : Option RejectionReason
  pub gas_used : Option ℕ
  pub trampoline : Option Address
  pub settlement_tx_hash : Option B256
  pub penalty_tx_hash : Option B256

-- The two live statuses, which the code spells as a pattern wherever it asks.
unfoldable pub is_live : ProposalStatus → Bool
is_live submitted = true
is_live active = true
is_live s = false

pub same_status→eq : (s t : ProposalStatus) → same_status s t ≡ true → s ≡ t
unfolding same_status
same_status→eq s t h = ground arith

pub same_status_refl : (s : ProposalStatus) → same_status s s ≡ true
unfolding same_status
same_status_refl submitted = refl
same_status_refl _ = refl
