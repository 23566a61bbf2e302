-- ===== src/Infra/Api/Routes.antt =====
-- The handlers of the public proposal API (crates/byos/src/infra/api/routes.rs). Each handler that
-- calls the store takes the faults of that call and the database.
pub mod Creation
pub mod Reads
pub mod Roundtrip
use Prim.Native.String.{◌++◌}
use byos_service.Prelude.{
  ℕ, Option, none, some, Result, ok, err, ◌>>=◌, ◌>>◌, fail_if, or_fail, map_err, collect, List,
  map, String, ltb, ◌==◌, if◌then◌else◌,
}
use byos_service.Prelude.Bytes.{to_be_bytes}
use byos_service.Prelude.Ints.{u64_saturating_add}
use byos_service.Domain.Proposal.{ProposalId, Address, Proposal, submitted}
use byos_service.Domain.Uid.{Codec, from_hex, uid_error_text, uid_text}
use byos_service.Common.Trampoline.{SignedProposal}
use byos_service.Common.Eip712.{
  Crypto, Eip712Domain, Signature, compute_interactions_hash, recover_proposer, recover_canceller,
  recover_reader,
}
use byos_service.Common.Dto.{
  CreateProposalRequest, CreateProposalResponse, GetProposalResponse, ListProposalsResponse,
  bad_request, invalid_signature, signature_recovery_failed, proposal_expired,
  proposal_lifetime_exceeded, proposal_not_found, proposal_not_cancellable, internal,
}
use byos_service.Infra.Storage.Rows.{
  StoreError, not_found, not_owner, stale_transition, database, corrupt_row,
}
use byos_service.Infra.Storage.Db.{Db, Faults}
use byos_service.Infra.Storage.Ops.{insert, cancel}
use byos_service.Infra.Storage.Queries.{get, list_by_order_uid_for_owner, list_by_sub_solver}
use byos_service.Infra.Api.Errors.{ApiError, explained, of_kind}
use byos_service.Infra.Api.Dto.{
  parse_hex, parse_u256, interaction, metadata, to_wire, reason_to_wire,
}

-- What of `AppState` the handlers read; the store is the database.
pub record AppState : Type 0 where
  pub domain : Eip712Domain
  pub max_proposal_lifetime_secs : ℕ

-- The `X-Signature` header: absent, or with its text, if `to_str` gives one.
abbrev pub Header : Type 0
Header = Option (Option String)

abbrev pub status_accepted : ℕ
status_accepted = 202

abbrev pub status_no_content : ℕ
status_no_content = 204

abbrev pub healthz : ℕ
healthz = 200

-- `internal`
abbrev pub internal_error : StoreError → ApiError
internal_error e = of_kind internal

abbrev of_option : {A B : Type 0} → (A → B) → Option A → Option B
of_option f none = none
of_option f (some a) = some (f a)

abbrev answered : Result StoreError ProposalId → Result ApiError (ℕ × CreateProposalResponse)
answered (ok id) = ok (status_accepted, record { id = id })
answered (err e) = err (internal_error e)

-- How `cancel_proposal` answers an error of the store.
unfoldable pub cancel_error : StoreError → ApiError
cancel_error (not_found id) = of_kind proposal_not_found
cancel_error (not_owner id s) = of_kind proposal_not_found
cancel_error (stale_transition id e a) = of_kind proposal_not_cancellable
cancel_error (database e) = internal_error (database e)
cancel_error (corrupt_row t c) = internal_error (corrupt_row t c)

abbrev no_content : Result StoreError (Unit {0}) → Result ApiError ℕ
no_content (ok done) = ok status_no_content
no_content (err e) = err (cancel_error e)

-- `.filter(|p| p.sub_solver == reader)`
abbrev owned_by : Address → Option Proposal → Option Proposal
owned_by reader none = none
owned_by reader (some p) = if p.sub_solver == reader then some p else none

-- The body of a `GET /proposal/{id}` response.
unfoldable pub proposal_view : Codec → Proposal → GetProposalResponse
unfolding uid_text to_wire reason_to_wire
proposal_view k p = record {
  id = p.id;
  sub_solver = p.sub_solver;
  order_uid = uid_text k p.order_uid;
  sell_amount = k.to_decimal p.sell_amount;
  buy_amount = k.to_decimal p.buy_amount;
  valid_until = k.to_decimal p.valid_until;
  status = to_wire p.status;
  rejection_reason = of_option reason_to_wire p.rejection_reason;
  settlement_tx_hash = of_option (λ t. k.encode_prefixed (to_be_bytes 32 t)) p.settlement_tx_hash;
  penalty_tx_hash = of_option (λ t. k.encode_prefixed (to_be_bytes 32 t)) p.penalty_tx_hash;
}

-- What `cancel_proposal` asks of the store once the signer is known.
unfoldable pub cancel_signed : Faults → ProposalId → Address → Db → Result ApiError ℕ × Db
unfolding cancel cancel_error
cancel_signed f id signer db =
    let (answer, after) = cancel f id signer db in (no_content answer, after)

module _ (k : Codec) (c : Crypto) where
  -- Steps 1 to 7 of `create_proposal`: the proposal that it stores.
  unfoldable pub checked_proposal : AppState → ℕ → CreateProposalRequest → Result ApiError Proposal
  unfolding from_hex uid_error_text parse_hex interaction compute_interactions_hash recover_proposer
  checked_proposal state now body = do
    order_uid ←
        map_err (λ e. explained bad_request ("invalid orderUid: " ++ uid_error_text k e))
          (from_hex k body.order_uid)
    sell_amount ←
        or_fail (parse_u256 k body.sell_amount) (explained bad_request "invalid sellAmount")
    buy_amount ← or_fail (parse_u256 k body.buy_amount) (explained bad_request "invalid buyAmount")
    valid_until ←
        or_fail (parse_u256 k body.valid_until) (explained bad_request "invalid validUntil")
    nonce ← or_fail (parse_u256 k body.nonce) (explained bad_request "invalid nonce")
    signature_bytes ←
        map_err (λ e. explained bad_request "invalid signature hex") (parse_hex k body.signature)
    signature ← or_fail (c.to_signature signature_bytes) (of_kind invalid_signature)
    interactions ← collect (interaction k) body.interactions
    let order_uid_hash = c.keccak256 (to_be_bytes 56 order_uid)
    let interactions_hash = compute_interactions_hash c interactions
    let signed : SignedProposal = record {
      order_uid_hash = order_uid_hash;
      sell_amount = sell_amount;
      buy_amount = buy_amount;
      valid_until = valid_until;
      nonce = nonce;
    }
    sub_solver ←
        or_fail (recover_proposer c signature state.domain signed interactions_hash)
          (of_kind signature_recovery_failed)
    fail_if (ltb valid_until now) (of_kind proposal_expired)
    fail_if (ltb (u64_saturating_add now state.max_proposal_lifetime_secs) valid_until)
        (of_kind proposal_lifetime_exceeded)
    ok (record {
      id = 0;
      sub_solver = sub_solver;
      order_uid = order_uid;
      order_uid_hash = order_uid_hash;
      sell_amount = sell_amount;
      buy_amount = buy_amount;
      sell_token = 0;
      buy_token = 0;
      interactions = interactions;
      interactions_hash = interactions_hash;
      valid_until = valid_until;
      nonce = nonce;
      signature = signature_bytes;
      status = submitted;
      rejection_reason = none;
      gas_used = none;
      trampoline = none;
      settlement_tx_hash = none;
      penalty_tx_hash = none;
    })

  unfoldable pub create_proposal :
      Faults
      → AppState
      → ℕ
      → CreateProposalRequest
      → Db
      → Result ApiError (ℕ × CreateProposalResponse) × Db
  unfolding checked_proposal insert
  create_proposal f state now body db = elim (checked_proposal state now body) [
    | err e ↦ (err e, db)
    | ok p ↦ let (answer, after) = insert f p db in (answered answer, after)
  ]

  unfoldable pub signature_from_header : Header → Result ApiError Signature
  unfolding parse_hex
  signature_from_header header = do
    value ← or_fail header (explained invalid_signature "missing X-Signature header")
    hex_text ← or_fail value (explained invalid_signature "X-Signature is not valid UTF-8")
    bytes ←
        map_err (λ e. explained invalid_signature "X-Signature is not valid hex")
          (parse_hex k hex_text)
    or_fail (c.to_signature bytes) (explained invalid_signature "invalid signature bytes")

  unfoldable pub authenticate_reader : Header → Eip712Domain → Result ApiError Address
  unfolding signature_from_header recover_reader
  authenticate_reader header domain = do
    signature ← signature_from_header header
    or_fail (recover_reader c signature domain) (of_kind signature_recovery_failed)

  unfoldable pub get_proposal :
      Faults → AppState → Header → ProposalId → Db → Result ApiError GetProposalResponse
  unfolding authenticate_reader get proposal_view
  get_proposal f state header id db = do
    reader ← authenticate_reader header state.domain
    found ← map_err internal_error (get f id db)
    p ← or_fail (owned_by reader found) (of_kind proposal_not_found)
    ok (proposal_view k p)

  unfoldable pub list_proposals :
      Faults → AppState → Header → String → Db → Result ApiError ListProposalsResponse
  unfolding authenticate_reader from_hex uid_error_text list_by_order_uid_for_owner metadata
  list_proposals f state header order_uid_hex db = do
    reader ← authenticate_reader header state.domain
    order_uid ←
        map_err (λ e. explained bad_request ("invalid orderUid: " ++ uid_error_text k e))
          (from_hex k order_uid_hex)
    proposals ← map_err internal_error (list_by_order_uid_for_owner f order_uid reader db)
    ok (record { proposals = map (metadata k) proposals })

  unfoldable pub list_proposals_by_sub_solver :
      Faults → AppState → Header → Db → Result ApiError ListProposalsResponse
  unfolding authenticate_reader list_by_sub_solver metadata
  list_proposals_by_sub_solver f state header db = do
    reader ← authenticate_reader header state.domain
    proposals ← map_err internal_error (list_by_sub_solver f reader db)
    ok (record { proposals = map (metadata k) proposals })

  unfoldable pub canceller : AppState → Header → ProposalId → Result ApiError Address
  unfolding signature_from_header recover_canceller
  canceller state header id = do
    signature ← signature_from_header header
    or_fail (recover_canceller c signature state.domain id) (of_kind signature_recovery_failed)

  unfoldable pub cancel_proposal :
      Faults → AppState → Header → ProposalId → Db → Result ApiError ℕ × Db
  unfolding canceller cancel_signed
  cancel_proposal f state header id db = elim (canceller state header id) [
    | err e ↦ (err e, db)
    | ok signer ↦ cancel_signed f id signer db
  ]
