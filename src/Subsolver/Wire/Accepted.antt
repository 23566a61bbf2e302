-- ===== src/Subsolver/Wire/Accepted.antt =====
-- What the service makes of the body that the sub-solver submits (`create_proposal` of
-- crates/byos/src/infra/api/routes.rs on the bodies of crates/subsolver/src/infra/byos.rs).
use byos_service.Prelude.{
  ℕ, ◌≤◌, ◌<◌, ◌≡◌, refl, none, some, ok, subst, sym, collect, List, [], ◌∷◌, length, map, All,
  Option-cases, inl, inr, arith,
}
use byos_service.Prelude.Bytes.{strip_0x, of_be_bytes, to_be_bytes, to_be_bytes-of_be_bytes_self}
use byos_service.Prelude.Ints.{u256_limit, u64_saturating_add}
use byos_service.Domain.Proposal.{Address, Bytes, Interaction, Proposal, submitted}
use byos_service.Domain.Uid.{Codec, from_hex}
use byos_service.Common.Eip712.{
  Crypto, Signer, IsSigner, Signature, compute_interactions_hash, recover_proposer, sign_proposal,
}
use byos_service.Infra.Api.Dto.{interaction, parse_hex}
use byos_service.Infra.Api.Routes.{AppState, checked_proposal}
use byos_service.Subsolver.Proposal.{RoutedProposal, Calls, signed_by, onchain}
use byos_service.Subsolver.Wire.{to_wire_interaction, to_request}

abbrev pub AreBytes : Bytes → Type 0
AreBytes = All (λ b. b < 256)

-- The codecs read back what they print.
pub record IsCodec (k : Codec) : Type 0 where
  pub decimals : (n : ℕ) → n < u256_limit → k.from_decimal (k.to_decimal n) ≡ some n
  pub hexes : (bs : Bytes) → AreBytes bs → k.decode_hex (strip_0x (k.encode_prefixed bs)) ≡ ok bs

-- An interaction of bytes and a 256-bit value.
abbrev pub IsWide : Interaction → Type 0
IsWide i = (i.value < u256_limit) × AreBytes i.call_data

-- A proposal of 256-bit amounts and bytes, for a uid of 56 of them.
pub record IsSized (p : RoutedProposal) : Type 0 where
  pub uid_bytes : AreBytes p.order_uid
  pub uid_length : length p.order_uid ≡ 56
  pub sells : p.sell_amount < u256_limit
  pub buys : p.buy_amount < u256_limit
  pub lasts : p.valid_until < u256_limit
  pub numbered : p.nonce < u256_limit
  pub calls : All IsWide p.interactions
  pub signature_bytes : AreBytes p.signature

module _ (k : Codec) (laws : IsCodec k) where
  open laws use {decimals, hexes}

  interaction_back : (i : Interaction) → IsWide i → interaction k (to_wire_interaction k i) ≡ ok i
  unfolding interaction to_wire_interaction
  interaction_back i wide = ground (arith, decimals i.value wide.0, hexes i.call_data wide.1)

  interactions_back :
      (l : List Interaction)
      → All IsWide l
      → collect (interaction k) (map (to_wire_interaction k) l) ≡ ok l
  interactions_back [] wide = refl
  interactions_back (i ∷ l) wide =
      ground (arith, interaction_back i wide.0, interactions_back l wide.1)

  from_hex_back :
      (uid : Bytes)
      → AreBytes uid
      → length uid ≡ 56
      → from_hex k (k.encode_prefixed uid) ≡ ok (of_be_bytes 0 uid)
  unfolding from_hex
  from_hex_back uid small long = ground (arith, hexes uid small)

  uid_back :
      (uid : Bytes) → AreBytes uid → length uid ≡ 56 → to_be_bytes 56 (of_be_bytes 0 uid) ≡ uid
  uid_back uid small long =
      subst (λ n. to_be_bytes n (of_be_bytes 0 uid) ≡ uid) long
        (to_be_bytes-of_be_bytes_self uid small)

-- The proposal that the service stores for the body of `p`, signed by `who`.
abbrev pub stored_as : Crypto → Address → RoutedProposal → Proposal
stored_as c who p = record {
  id = 0;
  sub_solver = who;
  order_uid = of_be_bytes 0 p.order_uid;
  order_uid_hash = c.keccak256 p.order_uid;
  sell_amount = p.sell_amount;
  buy_amount = p.buy_amount;
  sell_token = 0;
  buy_token = 0;
  interactions = p.interactions;
  interactions_hash = compute_interactions_hash c p.interactions;
  valid_until = p.valid_until;
  nonce = p.nonce;
  signature = p.signature;
  status = submitted;
  rejection_reason = none;
  gas_used = none;
  trampoline = none;
  settlement_tx_hash = none;
  penalty_tx_hash = none;
}

module _ (k : Codec) (laws : IsCodec k) (c : Crypto) (calls : Calls) (state : AppState)
    (now : ℕ) where
  parse_hex_back : (bs : Bytes) → AreBytes bs → parse_hex k (k.encode_prefixed bs) ≡ ok bs
  unfolding parse_hex
  parse_hex_back bs small = laws.hexes bs small

  accepted_as :
      (who : Address) (p : RoutedProposal) (s : Signature)
      → c.to_signature p.signature ≡ some s
      → recover_proposer c s state.domain (onchain c p) (compute_interactions_hash c p.interactions)
        ≡ some who
      → IsSized p
      → now ≤ p.valid_until
      → p.valid_until ≤ u64_saturating_add now state.max_proposal_lifetime_secs
      → checked_proposal k c state now (to_request k p) ≡ ok (stored_as c who p)
  unfolding checked_proposal to_request onchain
  accepted_as who p s known recovered sized fresh capped =
      rw
        (
          from_hex_back k laws p.order_uid sized.uid_bytes sized.uid_length,
          laws.decimals p.sell_amount sized.sells,
          laws.decimals p.buy_amount sized.buys,
          laws.decimals p.valid_until sized.lasts,
          laws.decimals p.nonce sized.numbered,
          parse_hex_back p.signature sized.signature_bytes,
          known,
          interactions_back k laws p.interactions sized.calls,
          uid_back k laws p.order_uid sized.uid_bytes sized.uid_length,
          recovered,
        )
        (ground arith)

  -- With codecs that read back what they print, signature bytes that parse back and a signature
  -- scheme that recovers its signer, the checks of POST /proposals on the body that the sub-solver
  -- makes of a signed proposal of sized fields, which has not expired and is within the lifetime
  -- cap, give the proposal's own fields, with the signer as its sub-solver.
  pub submitted-IsStored :
      (signer : Signer) (unsigned p : RoutedProposal)
      → ((s : Signature) → c.to_signature (calls.signature_bytes s) ≡ some s)
      → IsSigner c signer
      → signed_by c calls signer state.domain unsigned ≡ some p
      → IsSized p
      → now ≤ p.valid_until
      → p.valid_until ≤ u64_saturating_add now state.max_proposal_lifetime_secs
      → checked_proposal k c state now (to_request k p) ≡ ok (stored_as c signer.address p)
  unfolding signed_by sign_proposal recover_proposer onchain
  submitted-IsStored signer unsigned p reads scheme signed sized fresh capped =
      elim (Option-cases
        (sign_proposal c signer state.domain (onchain c unsigned) unsigned.interactions)) [
          | inl q ↦ absurd (ground arith)
          | inr (s, q) ↦
              let done : RoutedProposal = record unsigned { signature = calls.signature_bytes s } in
              let shape : p ≡ done = ground arith in
              let known =
                subst (λ (z : RoutedProposal). c.to_signature z.signature ≡ some s) (sym shape)
                  (reads s) in
              let recovered =
                subst
                  (λ (z : RoutedProposal).
                    recover_proposer c s state.domain (onchain c z)
                      (compute_interactions_hash c z.interactions)
                    ≡ some signer.address)
                  (sym shape) (scheme _ s q) in
              accepted_as signer.address p s known recovered sized fresh capped
        ]
